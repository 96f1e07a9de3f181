-- ===== src/Core/Reap/Routing.antt =====
-- What a sweep of crates/core/src/reap.rs works on, and the routing of an event through the notify
-- policy. Kento, the instance manager, is not part of the repository: what it lists, and what it
-- answers to a teardown after the teardowns called before, is the record `Kento`.
use seadog.Prelude.{
  ℕ, ◌+◌, ◌%◌, ◌^◌, ◌++◌, Option, none, some, List, [], ◌∷◌, ok, err, if◌then◌else◌, Text, lit,
}
use seadog.Prelude.Int.{ℤ}
use seadog.Core.Errors.{Fallible}
use seadog.Core.Models.{Mode, NotifyState, InstanceSignals}
use seadog.Core.Config.{Config}
use seadog.Core.Notify.{Event, event_key, Emission, NotifyDecision, decide, emit}
use seadog.Core.Action.{Action, attempt, modify, ◌>>=◌, ◌>>◌}
use seadog.Core.Sql.{Db, Faults, Sql}
use seadog.Core.Store.{put_notify_state, get_notify_state}

-- The counters are `u32`.
pub record SweepOutcome : Type 0 where
  pub reaped_count : ℕ
  pub flagged_count : ℕ
  pub readopted_count : ℕ
  pub deferred_count : ℕ
  pub vanished_count : ℕ
  pub quorum_lost : Option Text

abbrev pub default_outcome : SweepOutcome
default_outcome = record {
  reaped_count = 0;
  flagged_count = 0;
  readopted_count = 0;
  deferred_count = 0;
  vanished_count = 0;
  quorum_lost = none;
}

pub record Kento : Type 0 where
  pub list_instances : Fallible (List InstanceSignals)
  pub teardown : List (Text × Mode) → Text → Mode → Fallible (Unit {0})

-- What a sweep changes: the database, the instances (by the teardowns called, the last one first),
-- the notifications sent, and its `outcome`.
pub record World : Type 0 where
  pub db : Db
  pub teardowns : List (Text × Mode)
  pub sent : List Emission
  pub outcome : SweepOutcome

abbrev pub Sweep : Type 0 → Type 0
Sweep A = Action World A

abbrev pub on_db : {A : Type 0} → Sql A → Sweep A
on_db m w = let (r, d) = m w.db in (r, record w { db = d })

-- `let _ = …`
abbrev pub discard : {A : Type 0} → Sweep A → Sweep (Unit {0})
discard m w = let (r, w') = m w in (ok tt, w')

abbrev pub count : (SweepOutcome → SweepOutcome) → Sweep (Unit {0})
count f w = (ok tt, record w { outcome = f w.outcome })

-- `+= 1` on a `u32`
abbrev pub increment : ℕ → ℕ
increment n = (n + 1) % 2 ^ 32

abbrev pub count_reaped : SweepOutcome → SweepOutcome
count_reaped o = record o { reaped_count = increment o.reaped_count }

abbrev pub count_flagged : SweepOutcome → SweepOutcome
count_flagged o = record o { flagged_count = increment o.flagged_count }

abbrev pub count_readopted : SweepOutcome → SweepOutcome
count_readopted o = record o { readopted_count = increment o.readopted_count }

abbrev pub count_deferred : SweepOutcome → SweepOutcome
count_deferred o = record o { deferred_count = increment o.deferred_count }

abbrev pub count_vanished : SweepOutcome → SweepOutcome
count_vanished o = record o { vanished_count = increment o.vanished_count }

abbrev pub lose_quorum : Text → SweepOutcome → SweepOutcome
lose_quorum msg o = record o { quorum_lost = some msg }

-- `.ok().flatten()`
abbrev pub found_state : Fallible (Option NotifyState) → Option NotifyState
found_state (ok s) = s
found_state (err e) = none

-- The live guids, for the vanished pass.
unfoldable pub live_guids : List InstanceSignals → List Text
live_guids [] = []
live_guids (sig ∷ instances) =
    let rest = live_guids instances in elim sig.guid [ none ↦ rest | some guid ↦ guid ∷ rest ]

-- `env {guid} ({name})`
abbrev pub env_label : Text → Text → Text
env_label guid name = lit "env " ++ (guid ++ (lit " (" ++ (name ++ lit ")")))

module _ (faults : Faults) (config : Config) (now_unix : ℤ) where
  unfoldable pub keep_state : NotifyDecision → Sweep (Unit {0})
  keep_state decision w =
      if decision.emit
      then discard (on_db (put_notify_state faults decision.new_state)) w
      else (ok tt, w)

  unfoldable pub deliver : Event → Fallible (Option NotifyState) → Sweep (Unit {0})
  unfolding keep_state
  deliver event prior = do
    let decision = decide event (found_state prior) config now_unix
    modify (λ w. record w { sent = emit event decision w.sent })
    keep_state decision

  unfoldable pub route : Event → Sweep (Unit {0})
  unfolding deliver
  route event = attempt (on_db (get_notify_state faults (event_key event))) >>= deliver event

  unfoldable pub surface_quorum_loss : Text → Sweep (Unit {0})
  surface_quorum_loss msg = route (Event.sweeper_degraded (lit "sweep aborted: " ++ msg))
