-- ===== src/Priv/Sweep.antt =====
-- The backstop: `run_with_db` and `run_gated` of crates/seadog-priv/src/sweep.rs, which the timer
-- runs. The answer of the lock file is an argument; opening the database is `open_db` of Teardown.
pub mod Gate
use seadog.Prelude.{
  ℕ, ◌*◌, Bool, true, false, Option, none, some, Result, ok, err, if◌then◌else◌, Text,
}
use seadog.Prelude.Int.{ℤ, as_i64, sub_i64, leb_ℤ, wrap_i64, pos_part, neg_part, pos, mul_i64}
use seadog.Core.Failure.{Failure, running}
use seadog.Core.Config.{Config}
use seadog.Core.Action.{Acting, pure, lift, ◌>>=◌}
use seadog.Core.Sql.{Faults}
use seadog.Core.Store.{prune_terminal, read_heartbeat}
use seadog.Core.Reap.Routing.{Kento, World, SweepOutcome, on_db}
use seadog.Priv.Teardown.{Privileged}
use seadog.Priv.Watch.{core_sweep}

-- `enum LockOutcome`
pub data LockOutcome : Type 0 where
  acquired already_held : LockOutcome

-- The JSON of the answer: a sweep with what it pruned, and whether it passed over a stale watcher;
-- or that the sweep was skipped.
pub data SweepReport : Type 0 where
  swept : SweepOutcome → ℕ → Bool → SweepReport
  skipped : SweepReport

abbrev pub overrode : SweepReport → SweepReport
overrode (swept outcome pruned b) = swept outcome pruned true
overrode skipped = skipped

module _ (faults : Faults) (config : Config) (is_uuid : Text → Bool) (kento : Kento)
    (now_unix : ℤ) where
  unfoldable pub run_with_db : Privileged SweepReport
  run_with_db = do
    outcome ← core_sweep faults config is_uuid kento now_unix
    pruned ← running (on_db (prune_terminal faults now_unix (as_i64 config.retention.terminal)))
    pure (swept outcome pruned false)

  -- `3 * fast`, and the test of the heartbeat.
  abbrev pub threshold : ℤ
  threshold = mul_i64 3 (as_i64 config.cadence.fast)

  abbrev pub is_fresh : Option ℤ → Bool
  is_fresh none = false
  is_fresh (some t) = leb_ℤ (sub_i64 now_unix t) threshold

  unfoldable pub behind_watcher : Bool → Privileged SweepReport
  unfolding run_with_db
  behind_watcher true = pure skipped
  behind_watcher false = run_with_db >>= λ report. pure (overrode report)

  unfoldable pub behind_lock : LockOutcome → Privileged SweepReport
  unfolding behind_watcher
  behind_lock acquired = run_with_db
  behind_lock already_held =
      running (on_db (read_heartbeat faults)) >>= λ hb. behind_watcher (is_fresh hb)

  unfoldable pub run_gated : Result Failure LockOutcome → Privileged SweepReport
  unfolding behind_lock
  run_gated lock = lift lock >>= behind_lock
