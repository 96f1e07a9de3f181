-- ===== src/Core/Reap/Herd.antt =====
-- The herd cap of a sweep (crates/core/src/reap.rs).
use seadog.Prelude.{
  ℕ, suc, ◌^◌, ◌≤◌, ◌<◌, ◌≡◌, ◌⊎◌, refl, Bool, false, Option, none, some, List, [], ◌∷◌, ok, err,
  inr, arith, Text,
}
use seadog.Prelude.Int.{ℤ}
use seadog.Core.Errors.{Error, Fallible}
use seadog.Core.Models.{Mode, Env, InstanceSignals}
use seadog.Core.Config.{Config}
use seadog.Core.Action.{◌>>◌}
use seadog.Core.Sql.{EnvRow, Db, Faults, Sql}
use seadog.Core.Store.{mark_reaped, get_env}
use seadog.Core.Post.{Post, Post-map, Keeps, bind-Post}
use seadog.Core.Reap
use seadog.Core.Reap.Keeps.{Frame, Steady, route-Keeps, after_teardown-err-Keeps}
use seadog.Core.Reap.Sweeps.{Invariant, sweep-Post}

-- How many of the teardowns called, the last one first, kento has answered with success.
unfoldable pub successes : Reap.Kento → List (Text × Mode) → ℕ
successes kento [] = 0
successes kento (t ∷ before) =
    let earlier = successes kento before in
    elim (kento.teardown before t.0 t.1) [ ok u ↦ suc earlier | err e ↦ earlier ]

abbrev Counted : Type 1
Counted = Reap.SweepOutcome → List (Text × Mode) → Type 0

-- A property of the outcome and of the teardowns.
abbrev On : Counted → Reap.World → Type 0
On P w = P w.outcome w.teardowns

abbrev Anything : List EnvRow → Type 0
Anything rows = Unit

calls-On : {A : Type 0} (P : Counted) (m : Sql A) → Keeps (On P) (Reap.on_db m)
calls-On P m w i = called (m w.db)
  where
    called :
        {A : Type 0} (r : Fallible A × Db)
        → Post (λ a. On P) (λ e. On P) (r.0, record w { db = r.1 })
    called (ok a, d) = i
    called (err e, d) = i

On-Frame : (P : Counted) → Frame Anything (On P)
On-Frame P = record { calls = λ m h. calls-On P m; sends = λ w sent i. i }

module _ (faults : Faults) (config : Config) (now_unix : ℤ) (kento : Reap.Kento)
    (is_uuid : Text → Bool) where
  abbrev cap : ℕ
  cap = config.lifecycle.herd_cap

  -- There is no cap, or the outcome counts the envs that were torn down, no more than it allows.
  abbrev pub WithinCap : Counted
  WithinCap o teardowns =
      (config.lifecycle.herd_cap ≡ 0)
      ⊎ ((o.reaped_count ≤ config.lifecycle.herd_cap)
          × (successes kento teardowns ≡ o.reaped_count))

  -- There is no cap, or no more envs were torn down than it allows.
  abbrev pub TornWithinCap : Counted
  TornWithinCap o teardowns =
      (config.lifecycle.herd_cap ≡ 0) ⊎ (successes kento teardowns ≤ config.lifecycle.herd_cap)

  -- One more was torn down than is counted.
  abbrev Uncounted : Counted
  Uncounted o teardowns =
      (cap ≡ 0) ⊎ ((o.reaped_count < cap) × (successes kento teardowns ≡ suc o.reaped_count))

  weaken : (o : Reap.SweepOutcome) (ts : List (Text × Mode)) → WithinCap o ts → TornWithinCap o ts
  weaken o ts h = ground arith

  Uncounted-TornWithinCap :
      (o : Reap.SweepOutcome) (ts : List (Text × Mode)) → Uncounted o ts → TornWithinCap o ts
  Uncounted-TornWithinCap o ts h = ground arith

  torn-Uncounted :
      (o : Reap.SweepOutcome) (ts : List (Text × Mode)) (name : Text) (mode : Mode) (u : Unit {0})
      → Reap.at_herd_cap faults config now_unix o.reaped_count ≡ false
      → kento.teardown ts name mode ≡ ok u
      → WithinCap o ts
      → Uncounted o ((name, mode) ∷ ts)
  unfolding Reap.at_herd_cap successes
  torn-Uncounted o ts name mode u room done h = ground arith

  failed-WithinCap :
      (o : Reap.SweepOutcome) (ts : List (Text × Mode)) (name : Text) (mode : Mode) (e : Error)
      → kento.teardown ts name mode ≡ err e
      → WithinCap o ts
      → WithinCap o ((name, mode) ∷ ts)
  unfolding successes
  failed-WithinCap o ts name mode e failed h = ground arith

  joins-On :
      (guid : Option Text) (w : Reap.World)
      → On WithinCap w
      → Post
          (λ (r : Option Env) w'. Unit {0} × On WithinCap w')
          (λ e. On TornWithinCap)
          (Reap.read_row faults config now_unix kento guid w)
  unfolding Reap.read_row
  joins-On none w i = (tt, i)
  joins-On (some guid) w i =
      Post-map (λ (r : Option Env). On WithinCap) (λ r w'. Unit {0} × On WithinCap w')
        (λ e. On WithinCap) (λ e. On TornWithinCap) _ (λ r w' h. (tt, h))
        (λ e w' h. weaken w'.outcome w'.teardowns h) (calls-On WithinCap (get_env faults guid) w i)

  cap-Steady : Steady Anything (On WithinCap)
  cap-Steady = record { frame = On-Frame WithinCap; counts = λ w o same i. rw (same, WithinCap) i }

  module _ (small : config.lifecycle.herd_cap < 2 ^ 32) where
    count-WithinCap :
        (o : Reap.SweepOutcome) (ts : List (Text × Mode))
        → Uncounted o ts
        → WithinCap (Reap.count_reaped o) ts
    count-WithinCap o ts h = ground arith

    reaped-Post :
        (sig : InstanceSignals) (guid : Text) (w : Reap.World)
        → On Uncounted w
        → Post
            (λ u. On WithinCap)
            (λ e. On TornWithinCap)
            (Reap.after_teardown faults config now_unix sig guid (ok tt) w)
    unfolding Reap.after_teardown
    reaped-Post sig guid w torn =
        bind-Post (λ u. On Uncounted) (λ u. On WithinCap) (λ e. On TornWithinCap)
          (Reap.on_db (mark_reaped faults guid))
          (λ u. Reap.count Reap.count_reaped >> Reap.route faults config now_unix _) w
          (Post-map (λ (u : Unit {0}). On Uncounted) (λ u. On Uncounted) (λ e. On Uncounted)
            (λ e. On TornWithinCap) _ (λ u w' h. h)
            (λ e w' h. Uncounted-TornWithinCap w'.outcome w'.teardowns h)
            (calls-On Uncounted (mark_reaped faults guid) w torn))
          (λ u w' h.
            Post-map (λ (v : Unit {0}). On WithinCap) (λ v. On WithinCap) (λ e. On WithinCap)
              (λ e. On TornWithinCap) _ (λ v w'' k. k)
              (λ e w'' k. weaken w''.outcome w''.teardowns k)
              (route-Keeps (On-Frame WithinCap) faults config now_unix _ _
                (count-WithinCap w'.outcome w'.teardowns h)))

    tears-Post :
        (sig : InstanceSignals) (env : Env) (guid : Text) (w : Reap.World)
        → Reap.at_herd_cap faults config now_unix w.outcome.reaped_count ≡ false
        → On WithinCap w
        → Post
            (λ u. On WithinCap)
            (λ e. On TornWithinCap)
            (Reap.tear_down faults config now_unix kento sig env guid w)
    unfolding Reap.tear_down
    tears-Post sig env guid w room i = answered (kento.teardown w.teardowns sig.name env.mode) refl
      where
        after : Reap.World
        after = record w { teardowns = (sig.name, env.mode) ∷ w.teardowns }

        answered :
            (r : Fallible (Unit {0}))
            → kento.teardown w.teardowns sig.name env.mode ≡ r
            → Post
                (λ u. On WithinCap)
                (λ e. On TornWithinCap)
                (Reap.after_teardown faults config now_unix sig guid r after)
        answered (ok u) e =
            reaped-Post sig guid after
              (torn-Uncounted w.outcome w.teardowns sig.name env.mode u room e i)
        answered (err x) e =
            Post-map (λ (v : Unit {0}). On WithinCap) (λ v. On WithinCap) (λ y. On WithinCap)
              (λ y. On TornWithinCap) _ (λ v w' k. k) (λ y w' k. weaken w'.outcome w'.teardowns k)
              (after_teardown-err-Keeps cap-Steady faults config now_unix sig guid x after
                (failed-WithinCap w.outcome w.teardowns sig.name env.mode x e i))

    cap-Invariant :
        Invariant faults config now_unix kento is_uuid Anything
          (On WithinCap)
          (On TornWithinCap)
          (λ sig db_row. Unit)
    cap-Invariant = record {
      steady = cap-Steady;
      weaken = λ w i. weaken w.outcome w.teardowns i;
      readopts = λ sig guid owner. calls-On WithinCap _;
      marks = λ guid. calls-On WithinCap _;
      joins = λ sig w l i. joins-On sig.guid w i;
      tears = λ sig env guid keys w f c old due room i. tears-Post sig env guid w room i;
    }

    -- A sweep that ends counts exactly the teardowns that kento answered with success, and they are
    -- no more than the herd cap allows; one that fails has torn down no more than that either. A cap
    -- of 0, which is none, is left out, and the cap is a `u32`.
    pub sweep-WithinCap :
        (w : Reap.World)
        → w.teardowns ≡ []
        → Post
            (λ o w'. WithinCap o w'.teardowns)
            (λ e w'. TornWithinCap w'.outcome w'.teardowns)
            (Reap.sweep faults config now_unix kento is_uuid w)
    unfolding successes
    sweep-WithinCap w none_yet =
        Post-map (λ o w'. (o ≡ w'.outcome) × On WithinCap w') (λ o w'. WithinCap o w'.teardowns)
          (λ e w'. Unit {0} × On TornWithinCap w') (λ e. On TornWithinCap) _
          (λ o w' h. rw (h.0, WithinCap) h.1) (λ e w' h. h.1)
          (sweep-Post faults config now_unix kento is_uuid cap-Invariant w
            (rw (none_yet, WithinCap) (inr (omega arith, refl))))
