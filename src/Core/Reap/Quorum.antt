-- ===== src/Core/Reap/Quorum.antt =====
-- A sweep (crates/core/src/reap.rs) when kento has lost its quorum.
use seadog.Prelude.{
  lit, ◌++◌, ℕ, suc, inl, inr, Option-cases, ◌≡◌, refl, ap, Bool, some, List, ok, err, Text,
}
use seadog.Prelude.Int.{ℤ}
use seadog.Core.Errors.{Error, Fallible}
use seadog.Core.Config.{Config}
use seadog.Core.Action.{◌>>◌, gets}
use seadog.Core.Sql.{EnvRow, Db, Faults, Sql, statement}
use seadog.Core.Notify.{Event}
use seadog.Core.Store.{write_heartbeat}
use seadog.Core.Post.{Post, Keeps, bind-Post}
use seadog.Core.Reap
use seadog.Core.Reap.Alarm.{Alarmed, route-Alarmed, route-never_fails}
use seadog.Core.Reap.Keeps.{Frame, route-Keeps}

module _ (faults : Faults) (config : Config) (now_unix : ℤ) (kento : Reap.Kento)
    (is_uuid : Text → Bool) (before : Reap.World) where
  -- Neither a row nor an instance was touched.
  abbrev pub Untouched : Reap.World → Type 0
  Untouched w = (w.db.envs ≡ before.db.envs) × (w.teardowns ≡ before.teardowns)

  abbrev SameRows : List EnvRow → Type 0
  SameRows rows = rows ≡ before.db.envs

  -- Nor was anything counted.
  abbrev Fresh : Reap.World → Type 0
  Fresh w = Untouched w × (w.outcome ≡ Reap.default_outcome)

  Fresh-Frame : Frame SameRows Fresh
  Fresh-Frame = record { calls = calls; sends = λ w sent i. i }
    where
      calls :
          {A : Type 0} (m : Sql A)
          → Keeps (λ (d : Db). SameRows d.envs) m
          → Keeps Fresh (Reap.on_db m)
      calls m h w i = called (m w.db) (h w.db i.0.0)
        where
          called :
              {A : Type 0} (r : Fallible A × Db)
              → Post (λ a (d : Db). SameRows d.envs) (λ e d. SameRows d.envs) r
              → Post (λ a. Fresh) (λ e. Fresh) (r.0, record w { db = r.1 })
          called (ok a, d) k = ((k, i.0.1), i.1)
          called (err e, d) k = ((k, i.0.1), i.1)

  -- The outcome says so, and the reaper is seen to be alive.
  abbrev pub Surfaced : Text → Reap.SweepOutcome → Reap.World → Type 0
  Surfaced msg o w =
      (o.quorum_lost ≡ some msg)
      × (o.reaped_count ≡ 0)
      × (o.vanished_count ≡ 0)
      × (w.db.heartbeat ≡ some now_unix)
      × Untouched w
      × Alarmed faults config now_unix before msg w.sent

  -- The loss is in the outcome, and the operator was told.
  abbrev pub Noted : Text → Reap.World → Type 0
  Noted msg w =
      Untouched w
      × (w.outcome ≡ Reap.lose_quorum msg Reap.default_outcome)
      × Alarmed faults config now_unix before msg w.sent

  abbrev Beaten : Unit {0} → Db → Type 0
  Beaten u d = (d.envs ≡ before.db.envs) × (d.heartbeat ≡ some now_unix)

  -- The last statement that was run failed, with that error.
  abbrev pub LastFailed : Error → Db → Type 0
  LastFailed e d =
      (n : ℕ) × (x : Text) × (d.statements ≡ suc n) × (faults n ≡ some x) × (e ≡ Error.sqlite x)

  -- The heartbeat alone was missed: the loss was noted all the same.
  abbrev pub Unbeaten : Text → Error → Reap.World → Type 0
  Unbeaten msg e w = LastFailed e w.db × Noted msg w

  abbrev Missed : Error → Db → Type 0
  Missed e d = (d.envs ≡ before.db.envs) × LastFailed e d

  write_heartbeat-Post :
      (d : Db) → d.envs ≡ before.db.envs → Post Beaten Missed (write_heartbeat faults now_unix d)
  unfolding write_heartbeat statement
  write_heartbeat-Post d same = elim (Option-cases (faults d.statements)) [
    | inl runs ↦ rw (write_heartbeat, statement, runs) (same, refl)
    | inr (x, fails) ↦
        rw (write_heartbeat, statement, fails) (same, (d.statements, x, refl, fails, refl))
  ]

  finish-Surfaced :
      (msg : Text) (w : Reap.World)
      → Noted msg w
      → Post (Surfaced msg) (Unbeaten msg) (Reap.finish faults config now_unix w)
  unfolding Reap.finish
  finish-Surfaced msg w n =
      bind-Post (λ u w'. Noted msg w' × (w'.db.heartbeat ≡ some now_unix)) (Surfaced msg)
        (Unbeaten msg) (Reap.on_db (write_heartbeat faults now_unix)) (λ u. gets (λ w'. w'.outcome))
        w (beaten (write_heartbeat faults now_unix w.db) (write_heartbeat-Post w.db n.0.0))
        (λ u w' h. rw h.0.1 (refl, refl, refl, h.1, h.0.0, h.0.2))
    where
      beaten :
          (r : Fallible (Unit {0}) × Db)
          → Post Beaten Missed r
          → Post
              (λ u w'. Noted msg w' × (w'.db.heartbeat ≡ some now_unix))
              (Unbeaten msg)
              (r.0, record w { db = r.1 })
      beaten (ok u, d) k = (((k.0, n.0.1), n.1, n.2), k.1)
      beaten (err e, d) k = (k.1, ((k.0, n.0.1), n.1, n.2))

  -- If kento has no quorum when a sweep lists its instances, the sweep changes no row and calls no
  -- teardown: it returns an outcome that says so and counts nothing reaped or vanished, with the
  -- heartbeat stamped, and has sent and pushed a crit alert with the reason, or none if an alert of the
  -- sweeper is on record. It fails only with the error of the heartbeat's statement, the last that it
  -- ran, and then it has noted the loss in its outcome and alerted all the same.
  pub sweep-Surfaced :
      (msg : Text)
      → kento.list_instances ≡ err (Error.quorum_lost msg)
      → Post (Surfaced msg) (Unbeaten msg) (Reap.sweep faults config now_unix kento is_uuid before)
  unfolding Reap.sweep Reap.after_list Reap.list_failed Reap.surface_quorum_loss
  sweep-Surfaced msg lost = rw lost surfaced
    where
      start : Reap.World
      start = record before { outcome = Reap.default_outcome }

      Told : Reap.World → Type 0
      Told w = Fresh w × Alarmed faults config now_unix before msg w.sent

      told :
          (r : Fallible (Unit {0}) × Reap.World)
          → Post (λ u. Fresh) (λ e. Fresh) r
          → Post (λ u w. Unit {0}) (λ e w. ⊥) r
          → Alarmed faults config now_unix before msg r.1.sent
          → Post (λ u. Told) (Unbeaten msg) r
      told (ok u, w) fresh t alarmed = (fresh, alarmed)
      told (err e, w) fresh t alarmed = absurd t

      surfaced :
          Post
            (Surfaced msg)
            (Unbeaten msg)
            (Reap.list_failed faults config now_unix (Error.quorum_lost msg) start)
      surfaced =
          bind-Post (λ u. Told) (Surfaced msg) (Unbeaten msg)
            (Reap.surface_quorum_loss faults config now_unix msg)
            (λ u. Reap.count (Reap.lose_quorum msg) >> Reap.finish faults config now_unix) start
            (told (Reap.surface_quorum_loss faults config now_unix msg start)
              (route-Keeps Fresh-Frame faults config now_unix _ start ((refl, refl), refl))
              (route-never_fails faults config now_unix
                (Event.sweeper_degraded (lit "sweep aborted: " ++ msg)) start)
              (route-Alarmed faults config now_unix before msg start refl refl))
            (λ u w t. finish-Surfaced msg _ (t.0.0, ap (Reap.lose_quorum msg) t.0.1, t.1))
