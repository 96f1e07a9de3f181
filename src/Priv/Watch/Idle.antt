-- ===== src/Priv/Watch/Idle.antt =====
-- When the loop of crates/seadog-priv/src/watch.rs stops by itself.
use seadog.Prelude.{
  ℕ, zero, suc, ◌≡◌, refl, Bool, true, false, Option, some, none, Result, ok, err, All, length,
  select, arith, Text, ◌==◌, ==_iff, if-both,
}
use seadog.Prelude.Int.{ℤ}
use seadog.Core.Failure.{Failure, running, running-Post}
use seadog.Core.Models.{active}
use seadog.Core.Config.{Config}
use seadog.Core.Action.{pure, ◌>>=◌}
use seadog.Core.Post.{Post, Post-any, Post-map, bind-Post}
use seadog.Core.Sql.{EnvRow, Faults}
use seadog.Core.Store.{list_by_status}
use seadog.Core.Store.Listing.{has_status, select-none, list_by_status-Post}
use seadog.Core.Reap.Routing.{Kento, World, SweepOutcome, on_db}
use seadog.Core.Reap.Keeps.{on_db-Post}
use seadog.Priv.Watch.{
  LoopSummary, LoopState, TickResult, StopReason, idle, max_iterations, Turn, stops, goes_on,
  at_bound, settled, after_tick, core_sweep, active_env_count, watch_tick, ends, turn, run_loop,
}

abbrev pub NoneActive : World → Type 0
NoneActive w = All (λ (row : EnvRow). has_status active row ≡ false) w.db.envs

-- By why the loop stopped: if for idleness, no row is active.
abbrev pub WhenIdle : StopReason → World → Type 0
WhenIdle idle w = NoneActive w
WhenIdle max_iterations w = Unit {0}

IdleIsTrue : Turn → World → Type 0
IdleIsTrue (stops result) w = WhenIdle result.stop w
IdleIsTrue (goes_on s) w = Unit {0}

abbrev Counted : ℕ → World → Type 0
Counted n w = n ≡ length (select (has_status active) w.db.envs)

module _ (faults : Faults) (config : Config) (is_uuid : Text → Bool) where
  active_env_count-Post :
      (w : World) → Post Counted (λ e w'. Unit {0}) (active_env_count faults config is_uuid w)
  unfolding active_env_count
  active_env_count-Post w =
      bind-Post (λ envs. Counted (length envs)) Counted (λ e w'. Unit {0})
        (running (on_db (list_by_status faults active))) (λ envs. pure (length envs)) w
        (running-Post (λ envs. Counted (length envs)) (λ e w'. Unit {0})
          (on_db (list_by_status faults active)) w
          (on_db-Post (λ envs. Counted (length envs)) (λ e w'. Unit {0}) w
            (list_by_status faults active)
            (Post-map _ (λ envs d. Counted (length envs) (record w { db = d })) _ (λ e d. Unit {0})
              (list_by_status faults active w.db) (λ envs d h. h.1) (λ e d h. tt)
              (list_by_status-Post faults active w.db))))
        (λ envs w' h. h)

  watch_tick-Post :
      (kento : Kento) (now : ℤ) (w : World)
      → Post
          (λ r. Counted r.active_after)
          (λ e w'. Unit {0})
          (watch_tick faults config is_uuid kento now w)
  unfolding watch_tick
  watch_tick-Post kento now w =
      bind-Post (λ o w'. Unit {0}) (λ r. Counted r.active_after) (λ e w'. Unit {0})
        (core_sweep faults config is_uuid kento now)
        (λ outcome. active_env_count faults config is_uuid >>= λ n. pure (result outcome n)) w
        (Post-any (core_sweep faults config is_uuid kento now w))
        (λ outcome w1 u.
          bind-Post Counted (λ r. Counted r.active_after) (λ e w'. Unit {0})
            (active_env_count faults config is_uuid) (λ n. pure (result outcome n)) w1
            (active_env_count-Post w1) (λ n w' h. h))
    where
      result : SweepOutcome → ℕ → TickResult
      result outcome n = record {
        active_after = n;
        quorum_lost = outcome.quorum_lost;
        reaped = outcome.reaped_count;
      }

  settled-IdleIsTrue :
      (b : Bool) (s : LoopState) (w : World)
      → (b ≡ true → NoneActive w)
      → IdleIsTrue (settled faults config is_uuid b s) w
  unfolding settled IdleIsTrue
  settled-IdleIsTrue true s w h = h refl
  settled-IdleIsTrue false s w h = tt

  after_tick-IdleIsTrue :
      (s : LoopState) (r : Result Failure TickResult × World)
      → Post (λ r. Counted r.active_after) (λ e w'. Unit {0}) r
      → IdleIsTrue (after_tick faults config is_uuid s r.0) r.1
  unfolding after_tick IdleIsTrue
  after_tick-IdleIsTrue s (ok r, w) counted =
      settled-IdleIsTrue (r.active_after == 0) _ w (λ zero_active.
        select-none (has_status active) w.db.envs (ground (arith, ==_iff r.active_after 0)))
  after_tick-IdleIsTrue s (err e, w) counted = tt

  module _ (kento : ℕ → Kento) (clock : ℕ → ℤ) (max : Option ℕ) where
    turn-IdleIsTrue :
        (before : ℕ) (s : LoopState) (w : World)
        → (let (t, w') = turn faults config is_uuid kento clock max before s w in IdleIsTrue t w')
    unfolding turn IdleIsTrue
    turn-IdleIsTrue before s w =
        if-both (λ (p : Turn × World). IdleIsTrue p.0 p.1) (at_bound max s) _ _ tt
          (after_tick-IdleIsTrue s swept (watch_tick-Post (kento before) (clock before) w))
      where
        swept : Result Failure TickResult × World
        swept = watch_tick faults config is_uuid (kento before) (clock before) w

    abbrev pub Stopped : Option (LoopSummary × World) → Type 0
    Stopped none = Unit {0}
    Stopped (some (result, w')) = WhenIdle result.stop w'

    ends-Stopped :
        (again : LoopState → World → Option (LoopSummary × World)) (t : Turn) (w : World)
        → IdleIsTrue t w
        → ((s : LoopState) → Stopped (again s w))
        → Stopped (ends faults config is_uuid kento clock max again (t, w))
    unfolding ends IdleIsTrue
    ends-Stopped again (stops r) w idles rest = idles
    ends-Stopped again (goes_on s) w idles rest = rest s

    -- When the loop stops for idleness, bounded or not, no row of the database is active: neither a
    -- sweep that failed nor one that lost the quorum passes for an idle one.
    pub run_loop-NoneActive :
        (fuel before : ℕ) (s : LoopState) (w : World)
        → Stopped (run_loop faults config is_uuid kento clock max fuel before s w)
    unfolding run_loop
    run_loop-NoneActive zero before s w = tt
    run_loop-NoneActive (suc fuel) before s w =
        ends-Stopped _ (turn faults config is_uuid kento clock max before s w).0 _
          (turn-IdleIsTrue before s w) (λ s'. run_loop-NoneActive fuel (suc before) s' _)
