-- ===== src/Core/Notify/Laws.antt =====
-- When `decide` (crates/core/src/notify.rs) speaks, what it records, and how a run of decisions for
-- one unresolved problem escalates.
use seadog.Prelude.{
  ℕ, ◌+◌, sym, ◌≡◌, ◌↔◌, ◌⊎◌, inl, inr, refl, subst, true, false, Option, none, some, List, [], ◌∷◌,
  arith, Bool-cases, if◌then◌else◌, text_eq,
}
use seadog.Prelude.Int.{ℤ, ltb_ℤ, sub_i64, as_i64}
use seadog.Core.Models.{NotifyState}
use seadog.Core.Config.{Config}
use seadog.Core.Notify.{
  Severity, info, notice, warning, crit, severity_as_str, severity_from_str_opt, climb, Event,
  foreign_heads_up, anomaly, overdue_unreaped, grace_warning, vanished, host_key_regen, reaped,
  sweeper_degraded, event_key, escalates, base_severity, prior_sev, NotifyDecision, decide,
}

-- The backoff of an unresolved problem has elapsed.
abbrev pub Elapsed : NotifyState → Config → ℤ → Type 0
Elapsed p config now_unix =
    ltb_ℤ (sub_i64 now_unix p.last_emitted_at) (as_i64 config.notify.reescalate) ≡ false

pub severity_from_str_opt-severity_as_str :
    (s : Severity) → severity_from_str_opt (severity_as_str s) ≡ some s
unfolding severity_from_str_opt severity_as_str text_eq
severity_from_str_opt-severity_as_str info = refl
severity_from_str_opt-severity_as_str notice = refl
severity_from_str_opt-severity_as_str warning = refl
severity_from_str_opt-severity_as_str crit = refl

-- `decide` emits exactly at the first sighting of a key, and afterwards for a class that escalates
-- whose state is not acknowledged and whose last emission is at least the backoff ago.
pub decide-emit_iff :
    (event : Event) (prior : Option NotifyState) (config : Config) (now_unix : ℤ)
    → ((decide event prior config now_unix).emit ≡ true) ↔ (
        (prior ≡ none)
        ⊎ ((p : NotifyState) × (prior ≡ some p)
            × (p.acked ≡ false)
            × (escalates event ≡ true)
            × Elapsed p config now_unix))
unfolding decide
decide-emit_iff event none config now_unix = (λ h. inl refl, λ h. refl)
decide-emit_iff event (some p) config now_unix =
    (λ h. inr (p, refl, ground arith, ground arith, ground arith), λ h. ground arith)

-- A decision that emits fires the push sinks, and records the event's own key, the severity that it
-- emits at and the time, unacknowledged.
decide-speaks :
    (event : Event) (prior : Option NotifyState) (config : Config) (now_unix : ℤ)
    → (decide event prior config now_unix).emit ≡ true
    → let d = decide event prior config now_unix in
      (d.fire_push ≡ true)
      × (d.new_state.guid ≡ event_key event)
      × (severity_from_str_opt d.new_state.last_severity ≡ some d.severity)
      × (d.new_state.last_emitted_at ≡ now_unix)
      × (d.new_state.acked ≡ false)
unfolding decide
decide-speaks event none config now_unix h =
    (refl, refl, severity_from_str_opt-severity_as_str _, refl, refl)
decide-speaks event (some p) config now_unix h =
    ground (arith, severity_from_str_opt-severity_as_str (climb (prior_sev p event)))

-- The alerts of one event that is routed at each of the given times: the state is kept when the
-- decision emits, as `route` keeps it.
unfoldable pub alerts : Event → Config → Option NotifyState → List ℤ → List (ℤ × Severity)
alerts event config prior [] = []
alerts event config prior (now_unix ∷ later) =
    let d = decide event prior config now_unix in
    let spoken = alerts event config (some d.new_state) later in
    let silent = alerts event config prior later in
    if d.emit then (now_unix, d.severity) ∷ spoken else silent

-- The rungs of the ladder, from the bottom.
abbrev pub rung : Severity → ℕ
rung info = 0
rung notice = 1
rung warning = 2
rung crit = 3

-- The second severity is one rung above the first, or both are at the top.
abbrev pub IsNextRung : Severity → Severity → Type 0
IsNextRung s t = (rung t ≡ rung s + 1) ⊎ ((rung s ≡ 3) × (rung t ≡ 3))

climb-IsNextRung : (s : Severity) → IsNextRung s (climb s)
unfolding climb
climb-IsNextRung info = inl refl
climb-IsNextRung notice = inl refl
climb-IsNextRung warning = inl refl
climb-IsNextRung crit = inr (refl, refl)

-- Each alert follows the one before it by the backoff or more, one rung up the ladder.
abbrev pub Escalating : Config → ℤ × Severity → List (ℤ × Severity) → Type 0
Escalating config last [] = Unit
Escalating config last (next ∷ rest) =
    (ltb_ℤ (sub_i64 next.0 last.0) (as_i64 config.notify.reescalate) ≡ false)
    × IsNextRung last.1 next.1
    × Escalating config next rest

decide-climbs :
    (event : Event) (config : Config) (p : NotifyState) (last : Severity) (now_unix : ℤ)
    → severity_from_str_opt p.last_severity ≡ some last
    → (decide event (some p) config now_unix).emit ≡ true
    → Elapsed p config now_unix × ((decide event (some p) config now_unix).severity ≡ climb last)
unfolding decide
decide-climbs event config p last now_unix known h = ground arith

alerts-Escalating :
    (event : Event) (config : Config) (p : NotifyState) (last : Severity) (times : List ℤ)
    → p.acked ≡ false
    → severity_from_str_opt p.last_severity ≡ some last
    → Escalating config (p.last_emitted_at, last) (alerts event config (some p) times)
unfolding alerts
alerts-Escalating event config p last [] fresh known = tt
alerts-Escalating event config p last (now_unix ∷ later) fresh known =
    elim (Bool-cases (decide event (some p) config now_unix).emit) [
      | inl spoken ↦
          let d : NotifyDecision = decide event (some p) config now_unix in
          let (elapsed, climbed) = decide-climbs event config p last now_unix known spoken in
          let said = decide-speaks event (some p) config now_unix spoken in
          rw spoken (
            elapsed,
            subst (IsNextRung last) (sym climbed) (climb-IsNextRung last),
            subst
                (λ (t : ℤ).
                  Escalating config (t, d.severity) (alerts event config (some d.new_state) later))
                said.3 (alerts-Escalating event config d.new_state d.severity later said.4 said.2),
          )
      | inr silent ↦ rw silent (alerts-Escalating event config p last later fresh known)
    ]

-- The rung on which the alerts of a problem begin: a degraded sweeper's at the top, an anomaly's below
-- it, a foreign guest's at the bottom, and all others' above that.
abbrev pub BeginsAt : Event → ℕ → Type 0
BeginsAt (sweeper_degraded detail) n = n ≡ 3
BeginsAt (anomaly guid detail) n = n ≡ 2
BeginsAt (foreign_heads_up token detail) n = n ≡ 0
BeginsAt event n = n ≡ 1

base_severity-BeginsAt : (event : Event) → BeginsAt event (rung (base_severity event))
unfolding base_severity
base_severity-BeginsAt (foreign_heads_up token detail) = refl
base_severity-BeginsAt (anomaly guid detail) = refl
base_severity-BeginsAt (overdue_unreaped guid detail) = refl
base_severity-BeginsAt (grace_warning guid detail) = refl
base_severity-BeginsAt (vanished guid detail) = refl
base_severity-BeginsAt (host_key_regen guid detail) = refl
base_severity-BeginsAt (reaped guid detail) = refl
base_severity-BeginsAt (sweeper_degraded detail) = refl

-- However often an unresolved problem is routed, it is alerted the first time, on the rung of its
-- class; its further alerts come at least the backoff apart, each one rung above the last, or at the
-- top of the ladder like the last.
pub alerts_escalate :
    (event : Event) (config : Config) (now_unix : ℤ) (later : List ℤ)
    → (first : Severity) × (rest : List (ℤ × Severity)) × (alerts event config none
          (now_unix ∷ later)
        ≡ (now_unix, first) ∷ rest)
      × BeginsAt event (rung first)
      × Escalating config (now_unix, first) rest
unfolding alerts decide
alerts_escalate event config now_unix later = (
  base_severity event,
  _,
  refl,
  base_severity-BeginsAt event,
  alerts-Escalating event config _ (base_severity event) later refl
      (severity_from_str_opt-severity_as_str (base_severity event)),
)
