-- ===== src/Priv/Watch/Bound.antt =====
-- How long the loop of crates/seadog-priv/src/watch.rs runs.
use seadog.Prelude.{
  ℕ, zero, suc, ◌+◌, ◌^◌, ◌≤◌, ◌<◌, ◌≡◌, refl, sym, subst, if-true, if-false, Option, some, Result,
  ok, err, arith, Text, Bool, true, false, inl, inr, ◌⊎◌,
}
use seadog.Prelude.Int.{ℤ}
use seadog.Core.Failure.{Failure}
use seadog.Core.Config.{Config}
use seadog.Core.Sql.{Faults}
use seadog.Core.Reap.Routing.{Kento, World, increment}
use seadog.Priv.Watch.{
  LoopSummary, LoopState, TickResult, idle, max_iterations, summary, Turn, stops, goes_on, at_start,
  at_bound, settled, after_tick, watch_tick, ends, turn, run_loop,
}

-- What a turn that swept makes of the count of ticks.
Advances : ℕ → Turn → Type 0
Advances ticks (stops result) = (result.ticks ≡ ticks) × (result.stop ≡ idle)
Advances ticks (goes_on s) = s.ticks ≡ ticks

-- The loop has ended after at most `n` ticks, and after `n` if the bound stopped it.
abbrev pub EndsBy : ℕ → Option (LoopSummary × World) → Type 0
EndsBy n o =
    (result : LoopSummary) × (w' : World) × (o ≡ some (result, w'))
    × (result.ticks ≤ n)
    × ((result.stop ≡ idle) ⊎ (result.ticks ≡ n))

module _ (faults : Faults) (config : Config) (is_uuid : Text → Bool) where
  settled-Advances :
      (b : Bool) (s : LoopState) → Advances s.ticks (settled faults config is_uuid b s)
  unfolding settled Advances
  settled-Advances true s = (refl, refl)
  settled-Advances false s = refl

  after_tick-Advances :
      (s : LoopState) (r : Result Failure TickResult)
      → Advances (increment s.ticks) (after_tick faults config is_uuid s r)
  unfolding after_tick Advances
  after_tick-Advances s (err e) = refl
  after_tick-Advances s (ok r) = settled-Advances _ _

  module _ (kento : ℕ → Kento) (clock : ℕ → ℤ) (n : ℕ) where
    abbrev Rest : Type 0
    Rest = LoopState → World → Option (LoopSummary × World)

    -- The end of a turn, before which there were fewer than `n` ticks.
    ends-EndsBy :
        (again : Rest) (ticks : ℕ) (t : Turn) (w : World)
        → Advances ticks t
        → ticks ≤ n
        → ((s : LoopState) → s.ticks ≡ ticks → EndsBy n (again s w))
        → EndsBy n (ends faults config is_uuid kento clock (some n) again (t, w))
    unfolding ends Advances
    ends-EndsBy again ticks (stops result) w (count, by_idle) room rest =
        (result, w, refl, omega (arith, count), inl by_idle)
    ends-EndsBy again ticks (goes_on s) w count room rest = rest s count

    abbrev bounded : ℕ → ℕ → LoopState → World → Option (LoopSummary × World)
    bounded = run_loop faults config is_uuid kento clock (some n)

    turn-stops :
        (before : ℕ) (s : LoopState) (w : World)
        → s.ticks ≡ n
        → turn faults config is_uuid kento clock (some n) before s w
          ≡ (stops (summary max_iterations s), w)
    unfolding turn
    turn-stops before s w done = if-true (at_bound (some n) s) _ _ (ground arith)

    turn-sweeps :
        (before : ℕ) (s : LoopState) (w : World)
        → s.ticks < n
        → turn faults config is_uuid kento clock (some n) before s w ≡ (
            let (r, w') = watch_tick faults config is_uuid (kento before) (clock before) w in
            (after_tick faults config is_uuid s r, w'))
    unfolding turn
    turn-sweeps before s w room = if-false (at_bound (some n) s) _ _ (ground arith)

    turns-EndsBy :
        (left before : ℕ) (s : LoopState) (w : World)
        → s.ticks + left ≡ n
        → n < 2 ^ 32
        → EndsBy n (bounded (suc left) before s w)
    unfolding run_loop
    turns-EndsBy zero before s w count small =
        subst
          (λ t.
            EndsBy n
              (ends faults config is_uuid kento clock (some n) (bounded zero (suc before)) t))
          (sym (turn-stops before s w (omega (arith, count))))
          (summary max_iterations s, w, refl, omega (arith, count), inr (omega (arith, count)))
    turns-EndsBy (suc left) before s w count small =
        subst
          (λ t.
            EndsBy n
              (ends faults config is_uuid kento clock (some n) (bounded (suc left) (suc before)) t))
          (sym (turn-sweeps before s w (omega (arith, count))))
          (ends-EndsBy (bounded (suc left) (suc before)) (suc s.ticks)
            (after_tick faults config is_uuid s swept.0) swept.1
            (subst (λ k. Advances k (after_tick faults config is_uuid s swept.0)) (ground arith)
              (after_tick-Advances s swept.0))
            (omega (arith, count))
            (λ s' counted.
              turns-EndsBy left (suc before) s' swept.1 (omega (arith, count, counted)) small))
      where
        swept : Result Failure TickResult × World
        swept = watch_tick faults config is_uuid (kento before) (clock before) w

    -- With a bound that a `u32` holds, the loop ends after no more ticks than that, whatever the
    -- sweeps find and however often they fail; if it is the bound that ends it, after exactly so
    -- many. One turn more than the bound is enough fuel.
    pub run_loop-EndsBy : (w : World) → n < 2 ^ 32 → EndsBy n (bounded (suc n) 0 at_start w)
    run_loop-EndsBy w small = turns-EndsBy n 0 at_start w (omega arith) small
