-- ===== src/Core/Reap/Sweeps.antt =====
-- An invariant of a sweep (crates/core/src/reap.rs) holds to its end if it survives the four acts
-- that differ: a count, a re-adoption, a vanished mark and a teardown. This is the one walk over the
-- control flow of `sweep`; what the acts do to an invariant is for each invariant to prove.
use seadog.Prelude.{
  ◌≡◌, refl, Bool, true, false, Option, none, some, List, [], ◌∷◌, ok, err, inl, inr, All, any,
  is_some, if◌then◌else◌, Text, text_eq, Bool-cases,
}
use mathlib.Core.List.{Mem}
use seadog.Prelude.Lists.{All-Mem}
use seadog.Prelude.Int.{ℤ, ltb_ℤ}
use seadog.Core.Errors.{Error, Fallible}
use seadog.Core.Models.{Env, EnvStatus, InstanceSignals}
use seadog.Core.Config.{Config}
use seadog.Core.Identity.{Classification, reap_eligible, classify}
use seadog.Core.Notify.{Event}
use seadog.Core.Action.{pure, attempt, gets, ◌>>=◌, ◌>>◌}
use seadog.Core.Sql.{EnvRow, Db, Faults}
use seadog.Core.Store.{list_by_status, mark_vanished, insert_env, write_heartbeat}
use seadog.Core.Post.{Post, Post-both, Keeps, Holds, Holds-bind, Keeps-Holds, bind-Post}
use seadog.Core.Reap
use seadog.Core.Reap.Keeps.{
  Steady, counted-Keeps, route-Keeps, query-Keeps, Keeps-attempt, if-Holds, if-Post,
}
use seadog.Core.Reap.Returned.{Returned, Failed, after_list-Returned}

module _ (faults : Faults) (config : Config) (now_unix : ℤ) (kento : Reap.Kento)
    (is_uuid : Text → Bool) where
  -- Kento lists the instance.
  abbrev pub Listed : InstanceSignals → Type 0
  Listed sig =
      (instances : List InstanceSignals) × (kento.list_instances ≡ ok instances) × Mem sig instances

  -- `I` survives the acts of a sweep, of which `E` is left after an error; `F` is what is known of the row that an instance was joined to.
  pub record Invariant (Q : List EnvRow → Type 0) (I E : Reap.World → Type 0)
      (F : InstanceSignals → Option Env → Type 0) : Type 1 where
    pub steady : Steady Q I
    pub weaken : (w : Reap.World) → I w → E w
    pub readopts :
        (sig : InstanceSignals) (guid : Text) (owner : Option Text)
        → Keeps I (
            Reap.on_db
              (insert_env faults (Reap.readopted_env faults config now_unix sig guid owner)))
    pub marks : (guid : Text) → Keeps I (Reap.on_db (mark_vanished faults guid))
    pub joins :
        (sig : InstanceSignals) (w : Reap.World)
        → Listed sig
        → I w
        → Post
            (λ db_row w'. F sig db_row × I w')
            (λ e. E)
            (Reap.row_of faults config now_unix kento sig w)
    pub tears :
        (sig : InstanceSignals) (env : Env) (guid : Text) (keys : Bool) (w : Reap.World)
        → F sig (some env)
        → classify is_uuid sig (some env) ≡ reap_eligible guid keys
        → Reap.too_young faults config now_unix env ≡ false
        → ltb_ℤ now_unix env.ttl_deadline ≡ false
        → Reap.at_herd_cap faults config now_unix w.outcome.reaped_count ≡ false
        → I w
        → Post (λ u. I) (λ e. E) (Reap.tear_down faults config now_unix kento sig env guid w)

  module _ {Q : List EnvRow → Type 0} {I E : Reap.World → Type 0}
      {F : InstanceSignals → Option Env → Type 0} (inv : Invariant Q I E F) where
    lifts : {A : Type 0} (m : Reap.Sweep A) → Keeps I m → Holds I E m
    lifts m h = Keeps-Holds I E m inv.weaken h

    attempts : {A : Type 0} (m : Reap.Sweep A) → Keeps I m → Holds I E (attempt m)
    attempts m h = lifts (attempt m) (Keeps-attempt I m h)

    routes : (event : Event) → Holds I E (Reap.route faults config now_unix event)
    routes event =
        lifts (Reap.route faults config now_unix event)
          (route-Keeps inv.steady.frame faults config now_unix event)

    counted :
        (f : Reap.SweepOutcome → Reap.SweepOutcome) (event : Event)
        → ((o : Reap.SweepOutcome) → (f o).reaped_count ≡ o.reaped_count)
        → Holds I E (Reap.count f >> Reap.route faults config now_unix event)
    counted f event same =
        lifts (Reap.count f >> Reap.route faults config now_unix event)
          (counted-Keeps inv.steady faults config now_unix f event same)

    candidate-Holds :
        (sig : InstanceSignals) (env : Env) (guid : Text) (keys : Bool)
        → F sig (some env)
        → classify is_uuid sig (some env) ≡ reap_eligible guid keys
        → Holds I E (Reap.handle_reap_candidate faults config now_unix kento sig env guid)
    unfolding Reap.handle_reap_candidate Reap.warn_in_grace Reap.defer_by_cap
    candidate-Holds sig env guid keys f c w i =
        elim (Bool-cases (Reap.too_young faults config now_unix env)) [
          | inl young ↦ rw (young, Post) i
          | inr old ↦
              rw (old, Post)
                (elim (Bool-cases (ltb_ℤ now_unix env.ttl_deadline)) [
                  | inl early ↦ rw (early, Post) (warns w i)
                  | inr due ↦
                      rw (due, Post)
                        (elim (Bool-cases
                          (Reap.at_herd_cap faults config now_unix w.outcome.reaped_count)) [
                            | inl capped ↦
                                rw (capped, Post) (counted Reap.count_deferred _ (λ o. refl) w i)
                            | inr room ↦
                                rw (room, Post) (inv.tears sig env guid keys w f c old due room i)
                          ])
                ])
        ]
      where
        warns : Holds I E (Reap.warn_in_grace faults config now_unix sig env guid)
        warns = if-Holds I E _ _ (pure tt) (routes _) (λ u j. j)

    judge-Holds :
        (sig : InstanceSignals) (db_row : Option Env) (c : Classification)
        → F sig db_row
        → classify is_uuid sig db_row ≡ c
        → Holds I E (Reap.act faults config now_unix kento sig db_row c)
    unfolding Reap.act Reap.readopt_orphan Reap.after_insert Reap.handle_anomaly Reap.note_host_keys
    judge-Holds sig db_row Classification.foreign f e = λ w i. i
    judge-Holds sig db_row (Classification.orphan guid owner) f e =
        Holds-bind I E (Reap.readopt_orphan faults config now_unix sig guid owner) (λ u. pure false)
          (Holds-bind I E
            (attempt (
              Reap.on_db
                (insert_env faults (Reap.readopted_env faults config now_unix sig guid owner))))
            (Reap.after_insert faults config now_unix sig guid)
            (attempts
              (Reap.on_db
                (insert_env faults (Reap.readopted_env faults config now_unix sig guid owner)))
              (inv.readopts sig guid owner))
            inserted)
          (λ u w i. i)
      where
        inserted :
            (r : Fallible (Unit {0}))
            → Holds I E (Reap.after_insert faults config now_unix sig guid r)
        inserted (ok u) = counted (λ o. Reap.count_flagged (Reap.count_readopted o)) _ (λ o. refl)
        inserted (err x) = counted Reap.count_flagged _ (λ o. refl)
    judge-Holds sig db_row (Classification.anomaly reason detail) f e =
        Holds-bind I E (Reap.handle_anomaly faults config now_unix sig db_row detail)
          (λ u. pure false)
          (if-Holds I E (Reap.row_too_young faults config now_unix db_row) (pure tt) _ (λ w i. i)
            (counted Reap.count_flagged _ (λ o. refl)))
          (λ u w i. i)
    judge-Holds sig none (Classification.reap_eligible guid keys) f e = λ w i. i
    judge-Holds sig (some env) (Classification.reap_eligible guid keys) f e =
        Holds-bind I E (Reap.note_host_keys faults config now_unix kento sig guid keys)
          (λ u.
            Reap.handle_reap_candidate faults config now_unix kento sig env guid
            >> Reap.quorum_gone faults config now_unix kento)
          (noted keys)
          (λ u.
            Holds-bind I E (Reap.handle_reap_candidate faults config now_unix kento sig env guid)
              (λ v. Reap.quorum_gone faults config now_unix kento)
              (candidate-Holds sig env guid keys f e) (λ v w i. i))
      where
        noted : (b : Bool) → Holds I E (Reap.note_host_keys faults config now_unix kento sig guid b)
        noted true = routes _
        noted false = λ w i. i

    visit-Holds :
        (sig : InstanceSignals)
        → Listed sig
        → Holds I E (
            Reap.row_of faults config now_unix kento sig
            >>= Reap.judge faults config now_unix kento is_uuid sig)
    unfolding Reap.judge
    visit-Holds sig l w i =
        bind-Post (λ db_row w'. F sig db_row × I w') (λ a. I) (λ e. E)
          (Reap.row_of faults config now_unix kento sig)
          (Reap.judge faults config now_unix kento is_uuid sig) w (inv.joins sig w l i)
          (λ db_row w' p. judge-Holds sig db_row (classify is_uuid sig db_row) p.0 refl w' p.1)

    visit_all-Holds :
        (instances : List InstanceSignals)
        → All Listed instances
        → Holds I E (Reap.visit_all faults config now_unix kento is_uuid instances)
    unfolding Reap.visit_all
    visit_all-Holds [] l = λ w i. i
    visit_all-Holds (sig ∷ instances) l =
        Holds-bind I E
          (Reap.row_of faults config now_unix kento sig
            >>= Reap.judge faults config now_unix kento is_uuid sig)
          (λ stop.
            if stop then pure tt else Reap.visit_all faults config now_unix kento is_uuid instances)
          (visit-Holds sig l.0)
          (λ stop. if-Holds I E stop (pure tt) _ (λ w i. i) (visit_all-Holds instances l.1))

    vanish-Holds :
        (live : List Text) (env : Env) → Holds I E (Reap.vanish faults config now_unix live env)
    unfolding Reap.vanish Reap.after_mark
    vanish-Holds live env =
        if-Holds I E (any (text_eq env.guid) live) (pure tt)
          (if Reap.too_young faults config now_unix env then pure tt else marking) (λ w i. i)
          (if-Holds I E (Reap.too_young faults config now_unix env) (pure tt) marking (λ w i. i)
            (Holds-bind I E (attempt (Reap.on_db (mark_vanished faults env.guid)))
              (Reap.after_mark faults config now_unix env)
              (attempts (Reap.on_db (mark_vanished faults env.guid)) (inv.marks env.guid)) marked))
      where
        marking : Reap.Sweep (Unit {0})
        marking =
            attempt (Reap.on_db (mark_vanished faults env.guid))
            >>= Reap.after_mark faults config now_unix env

        marked :
            (r : Fallible (Unit {0})) → Holds I E (Reap.after_mark faults config now_unix env r)
        marked (ok u) = counted Reap.count_vanished _ (λ o. refl)
        marked (err e) = λ w i. i

    vanish_all-Holds :
        (live : List Text) (envs : List Env)
        → Holds I E (Reap.vanish_all faults config now_unix live envs)
    unfolding Reap.vanish_all
    vanish_all-Holds live [] = λ w i. i
    vanish_all-Holds live (env ∷ envs) =
        Holds-bind I E (Reap.vanish faults config now_unix live env)
          (λ u. Reap.vanish_all faults config now_unix live envs) (vanish-Holds live env)
          (λ u. vanish_all-Holds live envs)

    vanished_pass-Holds :
        (instances : List InstanceSignals)
        → Holds I E (Reap.vanished_pass faults config now_unix instances)
    unfolding Reap.vanished_pass list_by_status
    vanished_pass-Holds instances w i =
        if-Post I E (is_some w.outcome.quorum_lost) (ok tt, w)
          ((Reap.on_db (list_by_status faults EnvStatus.active)
              >>= Reap.vanish_all faults config now_unix (Reap.live_guids instances))
            w)
          i
          (Holds-bind I E (Reap.on_db (list_by_status faults EnvStatus.active))
            (Reap.vanish_all faults config now_unix (Reap.live_guids instances)) listed
            (vanish_all-Holds (Reap.live_guids instances)) w i)
      where
        rows :
            {A : Type 0} (r : Fallible A) (d : Db)
            → Q d.envs
            → Post (λ a (d' : Db). Q d'.envs) (λ e d'. Q d'.envs) (r, d)
        rows (ok a) d q = q
        rows (err e) d q = q

        listed : Holds I E (Reap.on_db (list_by_status faults EnvStatus.active))
        listed =
            lifts (Reap.on_db (list_by_status faults EnvStatus.active))
              (query-Keeps inv.steady.frame faults _ (λ d q. rows _ d q))

    finish-Holds : Holds I E (Reap.finish faults config now_unix)
    unfolding Reap.finish write_heartbeat
    finish-Holds =
        Holds-bind I E (Reap.on_db (write_heartbeat faults now_unix)) (λ u. gets (λ w. w.outcome))
          (lifts (Reap.on_db (write_heartbeat faults now_unix))
            (query-Keeps inv.steady.frame faults _ (λ d q. q)))
          (λ u w i. i)

    list_failed-Holds : (e : Error) → Holds I E (Reap.list_failed faults config now_unix e)
    unfolding Reap.list_failed Reap.surface_quorum_loss
    list_failed-Holds (Error.quorum_lost msg) =
        Holds-bind I E (Reap.surface_quorum_loss faults config now_unix msg)
          (λ u. Reap.count (Reap.lose_quorum msg) >> Reap.finish faults config now_unix) (routes _)
          (λ u w i. finish-Holds _ (inv.steady.counts w (Reap.lose_quorum msg w.outcome) refl i))
    list_failed-Holds (Error.config m) = λ w i. inv.weaken w i
    list_failed-Holds (Error.config_validation m) = λ w i. inv.weaken w i
    list_failed-Holds (Error.store m) = λ w i. inv.weaken w i
    list_failed-Holds (Error.not_found m) = λ w i. inv.weaken w i
    list_failed-Holds (Error.exhausted m) = λ w i. inv.weaken w i
    list_failed-Holds (Error.validation m) = λ w i. inv.weaken w i
    list_failed-Holds (Error.kento m) = λ w i. inv.weaken w i
    list_failed-Holds (Error.notify m) = λ w i. inv.weaken w i
    list_failed-Holds (Error.sqlite m) = λ w i. inv.weaken w i

    after_list-Holds :
        (listed : Fallible (List InstanceSignals))
        → kento.list_instances ≡ listed
        → Holds I E (Reap.after_list faults config now_unix kento is_uuid listed)
    unfolding Reap.after_list
    after_list-Holds (err x) e = list_failed-Holds x
    after_list-Holds (ok instances) e =
        Holds-bind I E (Reap.visit_all faults config now_unix kento is_uuid instances)
          (λ u.
            Reap.vanished_pass faults config now_unix instances
            >> Reap.finish faults config now_unix)
          (visit_all-Holds instances (All-Mem instances (λ sig m. (instances, e, m))))
          (λ u.
            Holds-bind I E (Reap.vanished_pass faults config now_unix instances)
              (λ v. Reap.finish faults config now_unix) (vanished_pass-Holds instances)
              (λ v. finish-Holds))

    sweep-Holds :
        (w : Reap.World)
        → I (record w { outcome = Reap.default_outcome })
        → Post (λ o. I) (λ e. E) (Reap.sweep faults config now_unix kento is_uuid w)
    unfolding Reap.sweep
    sweep-Holds w i = after_list-Holds kento.list_instances refl _ i

  -- A sweep keeps the invariant, once it holds with the outcome that the sweep starts from, and
  -- returns the outcome that is left.
  pub sweep-Post :
      {Q : List EnvRow → Type 0} {I E : Reap.World → Type 0}
      {F : InstanceSignals → Option Env → Type 0}
      → Invariant Q I E F
      → (w : Reap.World) → I (record w { outcome = Reap.default_outcome })
      → Post
          (λ o w'. (o ≡ w'.outcome) × I w')
          (λ e w'. Unit {0} × E w')
          (Reap.sweep faults config now_unix kento is_uuid w)
  unfolding Reap.sweep
  sweep-Post inv w i =
      Post-both (Returned faults config now_unix kento is_uuid) _
        (Failed faults config now_unix kento is_uuid) _ _
        (after_list-Returned faults config now_unix kento is_uuid kento.list_instances _)
        (sweep-Holds inv w i)
