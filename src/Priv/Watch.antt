-- ===== src/Priv/Watch.antt =====
-- The fast reaper: `tick` and `run_loop` of crates/seadog-priv/src/watch.rs. The clock and kento
-- are given by the number of ticks before; the lock file, the journal and the sleep itself are not
-- modelled, only that the loop sleeps.
pub mod Idle
pub mod Bound
use seadog.Prelude.{
  ℕ, zero, suc, ◌+◌, ◌%◌, ◌^◌, Bool, true, false, not, Option, none, some, Result, ok, err, length,
  leb, ◌==◌, if◌then◌else◌, or_else, Text,
}
use seadog.Prelude.Int.{ℤ}
use seadog.Core.Failure.{Failure, running}
use seadog.Core.Models.{active}
use seadog.Core.Config.{Config}
use seadog.Core.Action.{pure, ◌>>=◌}
use seadog.Core.Sql.{Faults}
use seadog.Core.Store.{list_by_status}
use seadog.Core.Reap.{sweep}
use seadog.Core.Reap.Routing.{Kento, World, SweepOutcome, default_outcome, on_db, increment}
use seadog.Priv.Teardown.{Privileged}

pub record TickResult : Type 0 where
  pub active_after : ℕ
  pub quorum_lost : Option Text
  pub reaped : ℕ

pub data StopReason : Type 0 where
  idle max_iterations : StopReason

pub record LoopSummary : Type 0 where
  pub ticks : ℕ
  pub reaped : ℕ
  pub stop : StopReason
  pub quorum_lost : Option Text

-- The locals of the loop; `slept` counts the calls of `sleep_fn`.
pub record LoopState : Type 0 where
  pub ticks : ℕ
  pub reaped : ℕ
  pub quorum_lost : Option Text
  pub consecutive_errors : ℕ
  pub slept : ℕ

-- What one turn of the loop comes to.
pub data Turn : Type 0 where
  stops : LoopSummary → Turn
  goes_on : LoopState → Turn

abbrev pub at_start : LoopState
at_start = record { ticks = 0; reaped = 0; quorum_lost = none; consecutive_errors = 0; slept = 0 }

abbrev pub summary : StopReason → LoopState → LoopSummary
summary stop s = record {
  ticks = s.ticks;
  reaped = s.reaped;
  stop = stop;
  quorum_lost = s.quorum_lost;
}

-- `ticks >= max`
abbrev pub at_bound : Option ℕ → LoopState → Bool
at_bound none s = false
at_bound (some max) s = leb max s.ticks

module _ (faults : Faults) (config : Config) (is_uuid : Text → Bool) where
  unfoldable pub active_env_count : Privileged ℕ
  active_env_count = running (on_db (list_by_status faults active)) >>= λ envs. pure (length envs)

  -- The sweep of one tick, on an outcome of its own.
  unfoldable pub core_sweep : Kento → ℤ → Privileged SweepOutcome
  core_sweep kento now_unix w =
      running (sweep faults config now_unix kento is_uuid) (record w { outcome = default_outcome })

  unfoldable pub watch_tick : Kento → ℤ → Privileged TickResult
  unfolding active_env_count core_sweep
  watch_tick kento now_unix = do
    outcome ← core_sweep kento now_unix
    active_after ← active_env_count
    pure (record {
      active_after = active_after;
      quorum_lost = outcome.quorum_lost;
      reaped = outcome.reaped_count;
    })

  -- `if !fast.is_zero() { sleep_fn(fast); }`
  abbrev pub paused : LoopState → LoopState
  paused s = record s { slept = if config.cadence.fast == 0 then s.slept else suc s.slept }

  abbrev pub after_error : LoopState → LoopState
  after_error s = record s {
    consecutive_errors = increment s.consecutive_errors;
    ticks = increment s.ticks;
  }

  abbrev pub noted : LoopState → TickResult → LoopState
  noted s r = record s {
    consecutive_errors = 0;
    ticks = increment s.ticks;
    reaped = (s.reaped + r.reaped) % 2 ^ 32;
    quorum_lost = or_else r.quorum_lost s.quorum_lost;
  }

  -- The test of `active_after`.
  unfoldable pub settled : Bool → LoopState → Turn
  settled true s = stops (summary idle s)
  settled false s = goes_on (paused s)

  unfoldable pub after_tick : LoopState → Result Failure TickResult → Turn
  unfolding settled
  after_tick s (err e) = goes_on (paused (after_error s))
  after_tick s (ok r) = settled (r.active_after == 0) (noted s r)

  module _ (kento : ℕ → Kento) (clock : ℕ → ℤ) (max : Option ℕ) where
    -- The body of the loop, in the turn with `before` turns before it.
    unfoldable pub turn : ℕ → LoopState → World → Turn × World
    unfolding after_tick watch_tick
    turn before s w =
        if at_bound max s
        then (stops (summary max_iterations s), w)
        else let (r, w') = watch_tick (kento before) (clock before) w in (after_tick s r, w')

    -- What a turn comes to: `again` is the rest of the loop.
    unfoldable pub ends :
        (LoopState → World → Option (LoopSummary × World))
        → Turn × World
        → Option (LoopSummary × World)
    ends again (stops result, w) = some (result, w)
    ends again (goes_on s, w) = again s w

    -- The loop for as many turns as the fuel gives; none if it still goes on.
    unfoldable pub run_loop : ℕ → ℕ → LoopState → World → Option (LoopSummary × World)
    unfolding turn ends
    run_loop zero before s w = none
    run_loop (suc fuel) before s w = ends (run_loop fuel (suc before)) (turn before s w)
