-- ===== src/Priv/Sweep/Gate.antt =====
-- When the backstop of crates/seadog-priv/src/sweep.rs leaves the work to the watcher.
use seadog.Prelude.{
  some, none, ◌↔◌, ℕ, ◌≡◌, refl, sym, ap, subst, ◌⊎◌, inl, inr, Bool, true, false, Option, Result,
  ok, err, arith, Text,
}
use seadog.Prelude.Int.{ℤ, as_i64, sub_i64, mul_i64, ◌≤ℤ◌}
use seadog.Core.Failure.{Failure, running, running-Post}
use seadog.Core.Config.{Config}
use seadog.Core.Action.{pure, ◌>>=◌}
use seadog.Core.Post.{Post, Post-map, bind-Post, statement-Post}
use seadog.Core.Sql.{Faults, Sql, tick}
use seadog.Core.Store.{read_heartbeat, prune_terminal}
use seadog.Core.Reap.Routing.{Kento, World, SweepOutcome, on_db}
use seadog.Core.Reap.Keeps.{on_db-Post}
use seadog.Priv.Watch.{core_sweep}
use seadog.Priv.Sweep.{
  LockOutcome, acquired, already_held, SweepReport, swept, skipped, overrode, run_with_db, is_fresh,
  behind_watcher, behind_lock, run_gated,
}

-- Nothing changed but the count of statements.
pub record Idle (w w' : World) : Type 0 where
  pub rows : w'.db.envs ≡ w.db.envs
  pub heartbeat : w'.db.heartbeat ≡ w.db.heartbeat
  pub states : w'.db.notify_state ≡ w.db.notify_state
  pub torn_down : w'.teardowns ≡ w.teardowns
  pub sent : w'.sent ≡ w.sent

ticked : (w : World) → Idle w (record w { db = tick w.db })
ticked w = record { rows = refl; heartbeat = refl; states = refl; torn_down = refl; sent = refl }

module _ (faults : Faults) (config : Config) (is_uuid : Text → Bool) (kento : Kento) (now_unix : ℤ)
    (w : World) where
  -- A heartbeat that is there, and no more than three fast cadences ago.
  abbrev pub Recent : Option ℤ → Type 0
  Recent hb =
      (t : ℤ) × (hb ≡ some t) × (sub_i64 now_unix t ≤ℤ mul_i64 3 (as_i64 config.cadence.fast))

  is_fresh-Recent :
      (hb : Option ℤ) → (is_fresh faults config is_uuid kento now_unix hb ≡ true) ↔ Recent hb
  is_fresh-Recent none = (λ h. absurd (cc), λ (u, same, le). absurd (cc))
  is_fresh-Recent (some t) =
      (λ h. (t, refl, ground (arith, h)), λ (u, same, le). ground (arith, same, le))

  -- A watcher holds the lock, and its last heartbeat is recent.
  abbrev pub Healthy : Result Failure LockOutcome → Type 0
  Healthy lock = (lock ≡ ok already_held) × Recent w.db.heartbeat

  abbrev pub prune : Sql ℕ
  prune = prune_terminal faults now_unix (as_i64 config.retention.terminal)

  -- A sweep from `start` and the pruning behind it, both of them successful, and what they report.
  abbrev pub Whole : World → SweepReport → World → Type 0
  Whole start report w' =
      (o : SweepOutcome) × (n : ℕ) × (b : Bool) × (mid : World) × (report ≡ swept o n b)
      × (core_sweep faults config is_uuid kento now_unix start ≡ (ok o, mid))
      × (running (on_db prune) mid ≡ (ok n, w'))

  abbrev pub Gated : Result Failure LockOutcome → SweepReport → World → Type 0
  Gated lock report w' =
      (Healthy lock × (report ≡ skipped) × Idle w w')
      ⊎ ((¬ Healthy lock) × (start : World) × Idle w start × Whole start report w')

  abbrev pub Stays : Result Failure LockOutcome → Failure → World → Type 0
  Stays lock e w' = Idle w w' ⊎ ¬ Healthy lock

  abbrev Any : Failure → World → Type 0
  Any e w' = Unit {0}

  itself : {A : Type 0} (r : Result Failure A × World) → Post (λ a s. r ≡ (ok a, s)) Any r
  itself (ok a, s) = refl
  itself (err e, s) = tt

  run_with_db-Whole :
      (start : World)
      → Post (Whole start) Any (run_with_db faults config is_uuid kento now_unix start)
  unfolding run_with_db
  run_with_db-Whole start =
      let sweeping = core_sweep faults config is_uuid kento now_unix in
      bind-Post (λ o mid. sweeping start ≡ (ok o, mid)) (Whole start) Any sweeping
        (λ o. running (on_db prune) >>= λ n. pure (swept o n false)) start (itself (sweeping start))
        (λ o mid ran.
          bind-Post (λ n w'. running (on_db prune) mid ≡ (ok n, w')) (Whole start) Any
            (running (on_db prune)) (λ n. pure (swept o n false)) mid
            (itself (running (on_db prune) mid))
            (λ n w' pruned. (o, n, false, mid, refl, ran, pruned)))

  overrode-Whole :
      (start : World) (report : SweepReport) (w' : World)
      → Whole start report w'
      → Whole start (overrode report) w'
  overrode-Whole start report w' h = (h.0, h.1, true, h.3, ap overrode h.4, h.5, h.6)

  -- A sweep that was run though no healthy watcher is there.
  unhealthy :
      (lock : Result Failure LockOutcome) (start : World) (r : Result Failure SweepReport × World)
      → ¬ Healthy lock
      → Idle w start
      → Post (Whole start) Any r
      → Post (Gated lock) (Stays lock) r
  unhealthy lock start r sick idle h =
      Post-map (Whole start) (Gated lock) Any (Stays lock) r
        (λ report w' ran. inr (sick, start, idle, ran)) (λ e w' u. inr sick) h

  abbrev Read : Option ℤ → World → Type 0
  Read hb w' = (w' ≡ record w { db = tick w.db }) × (hb ≡ w.db.heartbeat)

  read_heartbeat-Read :
      Post Read (Stays (ok already_held)) (running (on_db (read_heartbeat faults)) w)
  unfolding read_heartbeat
  read_heartbeat-Read =
      running-Post Read (Stays (ok already_held)) (on_db (read_heartbeat faults)) w (
        on_db-Post Read (λ e. Stays (ok already_held) (Failure.core e)) w (read_heartbeat faults)
          (statement-Post (λ hb d. Read hb (record w { db = d }))
            (λ e d. Stays (ok already_held) (Failure.core e) (record w { db = d })) faults _ w.db
            (λ e. inl (ticked w)) (refl, refl)))

  behind_watcher-Gated :
      (b : Bool)
      → b ≡ is_fresh faults config is_uuid kento now_unix w.db.heartbeat
      → Post
          (Gated (ok already_held))
          (Stays (ok already_held))
          (behind_watcher faults config is_uuid kento now_unix b (record w { db = tick w.db }))
  unfolding behind_watcher
  behind_watcher-Gated true fresh =
      inl ((refl, (is_fresh-Recent w.db.heartbeat).0 (sym fresh)), refl, ticked w)
  behind_watcher-Gated false stale =
      let start = record w { db = tick w.db } in
      unhealthy (ok already_held) start _
        (λ well. ground (arith, (is_fresh-Recent w.db.heartbeat).1 well.1, stale)) (ticked w)
        (bind-Post (Whole start) (Whole start) Any
          (run_with_db faults config is_uuid kento now_unix) (λ report. pure (overrode report))
          start (run_with_db-Whole start) (λ report w' ran. overrode-Whole start report w' ran))

  unmoved : Idle w w
  unmoved = record { rows = refl; heartbeat = refl; states = refl; torn_down = refl; sent = refl }

  behind_lock-Gated :
      (lock : LockOutcome)
      → Post
          (Gated (ok lock))
          (Stays (ok lock))
          (behind_lock faults config is_uuid kento now_unix lock w)
  unfolding behind_lock
  behind_lock-Gated acquired =
      unhealthy (ok acquired) w _ (λ well. ground (arith, well.0)) unmoved (run_with_db-Whole w)
  behind_lock-Gated already_held =
      bind-Post Read (Gated (ok already_held)) (Stays (ok already_held))
        (running (on_db (read_heartbeat faults)))
        (λ hb.
          behind_watcher faults config is_uuid kento now_unix
            (is_fresh faults config is_uuid kento now_unix hb))
        w read_heartbeat-Read
        (λ hb w' (same, read).
          subst
            (λ w'. Post (Gated (ok already_held)) (Stays (ok already_held)) (
              behind_watcher faults config is_uuid kento now_unix
                (is_fresh faults config is_uuid kento now_unix hb) w'))
            (sym same)
            (behind_watcher-Gated _ (ap (is_fresh faults config is_uuid kento now_unix) read)))

  -- The backstop skips its sweep exactly if another process holds the lock and has stamped the
  -- heartbeat within three fast cadences, and then it changes no table, destroys no guest and sends
  -- nothing. In any other case it fails, or its report is of a sweep and a pruning that both succeeded, of
  -- which only the reading of the heartbeat was before.
  pub run_gated-Gated :
      (lock : Result Failure LockOutcome)
      → Post (Gated lock) (Stays lock) (run_gated faults config is_uuid kento now_unix lock w)
  unfolding run_gated
  run_gated-Gated (err e) = inl unmoved
  run_gated-Gated (ok lock) = behind_lock-Gated lock
