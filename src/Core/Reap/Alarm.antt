-- ===== src/Core/Reap/Alarm.antt =====
-- What a sweep (crates/core/src/reap.rs) tells the operator if it is aborted.
use seadog.Prelude.{
  ◌≡◌, refl, sym, ap, ◌∙◌, ◌⊎◌, inl, inr, true, Bool-cases, Option-cases, subst, Option, some, none,
  List, ◌∷◌, ◌++◌, find, Text, lit, text_eq,
}
use seadog.Prelude.Int.{ℤ}
use seadog.Core.Errors.{Fallible}
use seadog.Core.Config.{Config}
use seadog.Core.Models.{NotifyState}
use seadog.Core.Notify.{
  crit, Event, sweeper_degraded, event_key, event_detail, base_severity, escalates, Emission,
  NotifyDecision, decide, emit,
}
use seadog.Core.Sql.{Db, Faults, statement}
use seadog.Core.Store.{get_notify_state}
use seadog.Core.Post.{Post}
use seadog.Core.Reap.Routing.{World, found_state, keep_state, deliver, route, on_db}

module _ (faults : Faults) (config : Config) (now_unix : ℤ) where
  -- The policy and its notifications are best effort.
  kept_state-never_fails :
      (d : NotifyDecision) (w : World)
      → Post (λ u w'. Unit {0}) (λ e w'. ⊥) (keep_state faults config now_unix d w)
  unfolding keep_state
  kept_state-never_fails d w = elim (Bool-cases d.emit) [
    | inl emits ↦ rw (keep_state, emits, Post) tt
    | inr still ↦ rw (keep_state, still, Post) tt
  ]

  delivered-never_fails :
      (event : Event) (prior : Fallible (Option NotifyState)) (w : World)
      → Post (λ u w'. Unit {0}) (λ e w'. ⊥) (deliver faults config now_unix event prior w)
  unfolding deliver
  delivered-never_fails event prior w =
      let d = decide event (found_state prior) config now_unix in
      kept_state-never_fails d (record w { sent = emit event d w.sent })

  pub route-never_fails :
      (event : Event) (w : World)
      → Post (λ u w'. Unit {0}) (λ e w'. ⊥) (route faults config now_unix event w)
  unfolding route
  route-never_fails event w =
      let (prior, w') = on_db (get_notify_state faults (event_key event)) w in
      delivered-never_fails event prior w'

module _ (faults : Faults) (config : Config) (now_unix : ℤ) (before : World) where
  -- The last alert of the sweeper, as it is stored.
  abbrev pub Stored : NotifyState → Type 0
  Stored p = find (λ s. text_eq s.guid (lit "sweeper")) before.db.notify_state ≡ some p

  -- An alert was sent, and pushed, that the sweep was aborted and why; or none, and then there is an
  -- earlier one of the sweeper on record.
  abbrev pub Alarmed : Text → List Emission → Type 0
  Alarmed msg sent =
      (sent
        ≡ record {
          severity = crit;
          key = lit "sweeper";
          detail = lit "sweep aborted: " ++ msg;
          push = true;
        }
          ∷ before.sent)
      ⊎ ((p : NotifyState) × Stored p × (sent ≡ before.sent))

  keep_state-sent :
      (d : NotifyDecision) (w : World) → (keep_state faults config now_unix d w).1.sent ≡ w.sent
  unfolding keep_state
  keep_state-sent d w = elim (Bool-cases d.emit) [
    | inl emits ↦ rw (emits) refl
    | inr still ↦ rw (still) refl
  ]

  module _ (msg : Text) where
    abbrev aborted : Event
    aborted = sweeper_degraded (lit "sweep aborted: " ++ msg)

    decided-Alarmed :
        (prior : Option NotifyState)
        → ((p : NotifyState) → prior ≡ some p → Stored p)
        → Alarmed msg (emit aborted (decide aborted prior config now_unix) before.sent)
    unfolding decide emit event_key event_detail escalates base_severity
    decided-Alarmed none known = inl refl
    decided-Alarmed (some p) known = elim (Bool-cases p.acked) [
      | inl acked ↦ rw (decide, acked) (inr (p, known p refl, refl))
      | inr unacked ↦ rw (decide, unacked) (inr (p, known p refl, refl))
    ]

    delivered-Alarmed :
        (prior : Fallible (Option NotifyState)) (w : World)
        → w.sent ≡ before.sent
        → ((p : NotifyState) → found_state prior ≡ some p → Stored p)
        → Alarmed msg (deliver faults config now_unix aborted prior w).1.sent
    unfolding deliver
    delivered-Alarmed prior w same known =
        let d = decide aborted (found_state prior) config now_unix in
        subst (Alarmed msg)
          (sym (
            keep_state-sent d (record w { sent = emit aborted d w.sent })
            ∙ ap (emit aborted d) same))
          (decided-Alarmed (found_state prior) known)

    found-Stored :
        (d : Db) (p : NotifyState)
        → d.notify_state ≡ before.db.notify_state
        → found_state (get_notify_state faults (event_key aborted) d).0 ≡ some p
        → Stored p
    unfolding get_notify_state statement event_key
    found-Stored d p states h = elim (Option-cases (faults d.statements)) [
      | inl runs ↦ cc
      | inr (x, fails) ↦ absurd (cc)
    ]

    pub route-Alarmed :
        (w : World)
        → w.sent ≡ before.sent
        → w.db.notify_state ≡ before.db.notify_state
        → Alarmed msg (route faults config now_unix aborted w).1.sent
    unfolding route
    route-Alarmed w same states =
        let (prior, w') = on_db (get_notify_state faults (event_key aborted)) w in
        delivered-Alarmed prior w' same (λ p found. found-Stored w.db p states found)
