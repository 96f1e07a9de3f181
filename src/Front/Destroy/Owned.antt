-- ===== src/Front/Destroy/Owned.antt =====
-- What `destroy` (crates/seadog/src/verbs/destroy.rs) does together with the helper's `teardown`
-- (crates/seadog-priv/src/teardown.rs).
use seadog.Prelude.{
  ◌≡◌, ◌≢◌, refl, sym, ap, subst, ◌∙◌, ◌⊎◌, inl, inr, not, Option, none, some, List, ◌∷◌, Result,
  ok, err, find, Text, Bool, true, false, text_eq, text_eq_iff, arith,
}
use seadog.Core.Failure.{Failure, running-Post, raise_if-Post}
use seadog.Core.Errors.{Fallible}
use seadog.Core.Models.{
  Env, EnvStatus, active, reaped, status_eq, Mode, mode_as_str, mode_from_str_opt-mode_as_str,
  InstanceSignals,
}
use seadog.Core.Action.{Acting, pure, ◌>>=◌}
use seadog.Core.Post.{Post, Post-map, bind-Post}
use seadog.Core.Sql.{Db, Faults, tick}
use seadog.Core.Rows.{has_guid, optional_env, update_guid}
use seadog.Core.Store.{mark_reaped}
use seadog.Core.Store.Deadline.{Unchanged}
use seadog.Core.Store.Status.{with_status, Updated, mark_reaped-Post}
use seadog.Core.Reap.Routing.{Kento, World, on_db}
use seadog.Core.Reap.Keeps.{on_db-Post}
use seadog.Core.Store.Lookup.{Recorded, Recorded-Copied}
use seadog.Priv.Teardown.{TeardownArgs, TeardownReport, carries, teardown_run}
use seadog.Priv.Teardown.Safety
use seadog.Priv.Teardown.Safety.{teardown_run-Post}
use seadog.Front.Context.{Ctx}
use seadog.Front.Lookup.{world_looked_up-Post}
use seadog.Front.Elevate.{ElevateArgs, ElevateError}
use seadog.Front.Destroy.{
  Destruction, told, destruction, teardown_request, mark_if, elevated, after_helper, destroy_found,
  destroy_run,
}

status_eq-active : (s : EnvStatus) → status_eq s active ≡ true → s ≡ active
status_eq-active EnvStatus.active h = refl
status_eq-active s h = ground arith

-- Both succeed, or both fail.
abbrev pub Alike : {V : Type 0} → Result ElevateError V → Result Failure TeardownReport → Type 0
Alike (ok v) (ok r) = Unit
Alike (err e) (err f) = Unit
Alike _ _ = ⊥

module _ {V : Type 0} (Q : TeardownReport → World → Type 0) (E : Failure → World → Type 0) where
  Alike-Post :
      (r : Result ElevateError V × World) (t : Result Failure TeardownReport × World)
      → r.1 ≡ t.1
      → Alike r.0 t.0
      → Post Q E t
      → Post (λ v w. (a : TeardownReport) × Q a w) (λ e w. (f : Failure) × E f w) r
  Alike-Post (ok v, w) (ok a, w') same alike h = (a, subst (Q a) (sym same) h)
  Alike-Post (ok v, w) (err f, w') same alike h = absurd alike
  Alike-Post (err e, w) (ok a, w') same alike h = absurd alike
  Alike-Post (err e, w) (err f, w') same alike h = (f, subst (E f) (sym same) h)

module _ {V : Type 0} (faults : Faults) (kento : Kento) (path : Text) (opened : Fallible (Unit {0}))
    (elevate : ElevateArgs → Acting ElevateError World V) where
  abbrev pub helper_args : Text → Text → Mode → TeardownArgs
  helper_args owner guid mode = record { owner = owner; guid = guid; mode = mode_as_str mode }

  -- The helper that a request reaches runs `teardown_run` on the values of the request's flags.
  pub record Serves : Type 0 where
    pub leaves :
        (owner guid : Text) (mode : Mode) (w : World)
        → (elevate (teardown_request owner guid mode) w).1
          ≡ (teardown_run kento (helper_args owner guid mode) faults path opened w).1
    pub says :
        (owner guid : Text) (mode : Mode) (w : World)
        → Alike
            (elevate (teardown_request owner guid mode) w).0
            (teardown_run kento (helper_args owner guid mode) faults path opened w).0

  module _ (ctx : Ctx) (env_id : Text) (w : World) where
    -- The one teardown that is called is of the live instance of the guid, by the env's name.
    pub record Killed (env : Env) (torn : List (Text × Mode)) : Type 0 where
      pub live : List InstanceSignals
      pub instance : InstanceSignals
      pub listed : kento.list_instances ≡ ok live
      pub found : find (carries env_id) live ≡ some instance
      pub named : instance.name ≡ env.name
      pub called : torn ≡ (instance.name, env.mode) ∷ w.teardowns

    -- No instance of the guid is live, and none is torn down.
    pub record Gone (torn : List (Text × Mode)) : Type 0 where
      pub live : List InstanceSignals
      pub listed : kento.list_instances ≡ ok live
      pub none_live : find (carries env_id) live ≡ none
      pub uncalled : torn ≡ w.teardowns

    pub record Own (env : Env) : Type 0 where
      pub recorded : Recorded env_id w.db env
      pub own : ctx.owner ≡ some env.owner

    -- The row of an active env is marked as reaped; no other row is written.
    abbrev pub Marked : Env → World → Type 0
    Marked env w' =
        ((env.status ≡ active) × Updated env_id (with_status reaped) w.db w'.db)
        ⊎ ((env.status ≢ active) × Unchanged w.db w'.db)

    abbrev pub Q : Destruction V → World → Type 0
    Q r w' =
        (env : Env) × Own env
        × (r.id ≡ env_id)
        × (Killed env w'.teardowns ⊎ Gone w'.teardowns)
        × Marked env w'

    abbrev pub E : Failure → World → Type 0
    E e w' =
        Unchanged w.db w'.db
        × ((w'.teardowns ≡ w.teardowns) ⊎ ((env : Env) × Own env × Killed env w'.teardowns))

    same_env :
        (guid : Text) (env row : Env)
        → guid ≡ env_id
        → Recorded env_id w.db env
        → Recorded guid w.db row
        → row ≡ env
    same_env guid env row same h k = ground (arith, h, subst (λ g. Recorded g w.db row) same k)

    module _ (env : Env) (own : Own env) (owner : Text) (same : env.guid ≡ env_id) where
      abbrev args : TeardownArgs
      args = helper_args owner env.guid env.mode

      abbrev w1 : World
      w1 = record w { db = tick w.db }

      killed :
          (answer : Fallible (Unit {0})) (mode : Mode) (w' : World)
          → Safety.Destroyed kento args w1.db w1.teardowns answer mode w'
          → Killed env w'.teardowns
      killed answer mode w' h = record {
        live = h.live;
        instance = h.instance;
        listed = h.cleared.0.listed;
        found = subst (λ g. find (carries g) h.live ≡ some h.instance) same h.cleared.1;
        named = h.cleared.2 ∙ ap (λ (e : Env). e.name) same_row;
        called = h.called ∙ ap (λ m. (h.instance.name, m) ∷ w.teardowns) same_mode;
      }
        where
          same_row : h.row ≡ env
          same_row = same_env env.guid env h.row same own.recorded h.cleared.0.recorded

          same_mode : mode ≡ env.mode
          same_mode = ground (arith, h.cleared.0.asked, mode_from_str_opt-mode_as_str env.mode)

      gone :
          (mode : Mode) (w' : World)
          → Safety.Gone kento args w1.db w1.teardowns mode w'
          → Gone w'.teardowns
      gone mode w' h = record {
        live = h.live;
        listed = h.owned.listed;
        none_live = subst (λ g. find (carries g) h.live ≡ none) same h.none_live;
        uncalled = h.uncalled;
      }

      abbrev Ended : V → World → Type 0
      Ended v w' = Unchanged w.db w'.db × (Killed env w'.teardowns ⊎ Gone w'.teardowns)

      abbrev Stopped : ElevateError → World → Type 0
      Stopped e w' = Unchanged w.db w'.db × ((w'.teardowns ≡ w.teardowns) ⊎ Killed env w'.teardowns)

      abbrev Answered : TeardownReport → World → Type 0
      Answered = Safety.Answered kento args w1.db w1.teardowns

      abbrev Refused : Failure → World → Type 0
      Refused = Safety.Refused kento args w1.db w1.teardowns

      elevate-Ended :
          Serves → Post Ended Stopped (elevate (teardown_request owner env.guid env.mode) w1)
      elevate-Ended serves =
          Post-map (λ v w'. (a : TeardownReport) × Answered a w') Ended
            (λ e w'. (f : Failure) × Refused f w') Stopped _
            (λ v w' (a, (steady, fate)). (
              steady,
              elim fate [
                | inl (torn, said) ↦ inl (killed (ok tt) a.mode w' torn)
                | inr (none_live, said) ↦ inr (gone a.mode w' none_live)
              ],
            ))
            (λ e w' (f, (steady, fate)). (
              steady,
              elim fate [
                | inl uncalled ↦ inl uncalled
                | inr (mode, problem, said, torn) ↦ inr (killed (err problem) mode w' torn)
              ],
            ))
            (Alike-Post Answered Refused (elevate (teardown_request owner env.guid env.mode) w1)
              (teardown_run kento args faults path opened w1)
              (serves.leaves owner env.guid env.mode w1) (serves.says owner env.guid env.mode w1)
              (teardown_run-Post faults kento path opened args w1))

      told-Post :
          (r : Result ElevateError V × World)
          → Post Ended Stopped r
          → Post Ended E (let (a, w') = r in (told faults elevate ctx env_id a, w'))
      told-Post (ok v, w') h = h
      told-Post (err e, w') (steady, inl uncalled) = (steady, inl uncalled)
      told-Post (err e, w') (steady, inr torn) = (steady, inr (env, own, torn))

      elevated-Post :
          (req : ElevateArgs)
          → Post Ended Stopped (elevate req w1)
          → Post Ended E (elevated faults elevate ctx env_id req w1)
      elevated-Post req h = told-Post (elevate req w1) h

      mark_if-Post :
          (b : Bool) (w' : World)
          → b ≡ status_eq env.status active
          → Unchanged w.db w'.db
          → Killed env w'.teardowns ⊎ Gone w'.teardowns
          → Post
              (λ u w''. (Killed env w''.teardowns ⊎ Gone w''.teardowns) × Marked env w'')
              E
              (mark_if faults elevate ctx env_id b env.guid w')
      unfolding mark_if
      mark_if-Post false w' other steady fate =
          (fate, inr (λ is_active. ground (arith, other, is_active), steady))
      mark_if-Post true w' active_env steady fate =
          running-Post Marks E (on_db (mark_reaped faults env.guid)) w' (
            on_db-Post Marks (λ e. E (Failure.core e)) w' (mark_reaped faults env.guid)
              (Post-map _ (λ u d. Marks u (record w' { db = d })) _
                (λ e d. E (Failure.core e) (record w' { db = d })) _
                (λ u d written.
                  (fate, inl (status_eq-active env.status (sym active_env), updated d written)))
                (λ e d (kept, why). ((kept.0 ∙ steady.0, kept.1 ∙ steady.1), failed_after fate))
                (mark_reaped-Post faults env.guid w'.db)))
        where
          Marks : Unit {0} → World → Type 0
          Marks u w'' = (Killed env w''.teardowns ⊎ Gone w''.teardowns) × Marked env w''

          updated :
              (d : Db)
              → Updated env.guid (with_status reaped) w'.db d
              → Updated env_id (with_status reaped) w.db d
          updated d (rows, states) = (
            rows
                ∙ ap (update_guid env.guid (with_status reaped)) steady.0
                ∙ ap (λ g. update_guid g (with_status reaped) w.db.envs) same,
            states ∙ steady.1,
          )

          failed_after :
              Killed env w'.teardowns ⊎ Gone w'.teardowns
              → (w'.teardowns ≡ w.teardowns) ⊎ ((e : Env) × Own e × Killed e w'.teardowns)
          failed_after (inl torn) = inr (env, own, torn)
          failed_after (inr none_live) = inl none_live.uncalled

      after_helper-Post :
          (outcome : V) (w' : World)
          → Ended outcome w'
          → Post Q E (after_helper faults elevate ctx env_id env outcome w')
      unfolding after_helper
      after_helper-Post outcome w' (steady, fate) =
          bind-Post (λ u w''. (Killed env w''.teardowns ⊎ Gone w''.teardowns) × Marked env w'') Q E
            (mark_if faults elevate ctx env_id (status_eq env.status active) env.guid)
            (λ u. pure (destruction faults elevate ctx env_id env outcome)) w'
            (mark_if-Post (status_eq env.status active) w' refl steady fate)
            (λ u w'' (fate', marked). (env, own, same, fate', marked))

    destroy_found-Post :
        Serves
        → (owner : Text) (found : Option Env) → ctx.owner ≡ some owner
        → optional_env (find (has_guid env_id) w.db.envs) ≡ ok found
        → Post Q E
            (destroy_found faults elevate ctx env_id owner found (record w { db = tick w.db }))
    unfolding destroy_found
    destroy_found-Post serves owner none named read = ((refl, refl), inl refl)
    destroy_found-Post serves owner (some env) named read =
        raise_if-Post Q E (not (text_eq env.owner owner)) _
          (elevated faults elevate ctx env_id (teardown_request owner env.guid env.mode)
            >>= after_helper faults elevate ctx env_id env)
          (record w { db = tick w.db }) (λ bad. ((refl, refl), inl refl))
          (λ good. kills (record {
            recorded = read;
            own = named ∙ ap some (sym (ground (arith, text_eq_iff env.owner owner)));
          }))
      where
        same : env.guid ≡ env_id
        same = (Recorded-Copied env_id w.db env read).2

        kills :
            Own env
            → Post Q E (
                (elevated faults elevate ctx env_id (teardown_request owner env.guid env.mode)
                    >>= after_helper faults elevate ctx env_id env)
                  (record w { db = tick w.db }))
        kills own =
            bind-Post (Ended env own owner same) Q E
              (elevated faults elevate ctx env_id (teardown_request owner env.guid env.mode))
              (after_helper faults elevate ctx env_id env) (record w { db = tick w.db })
              (elevated-Post env own owner same _ (elevate-Ended env own owner same serves))
              (after_helper-Post env own owner same)

module _ {V : Type 0} (faults : Faults) (kento : Kento) (path : Text) (opened : Fallible (Unit {0}))
    (elevate : ElevateArgs → Acting ElevateError World V) where
  -- `destroy`, with a helper that serves it, answers only for an env of the caller's own, after at
  -- most one teardown: of the instance that kento lists under the env's guid, by the env's name and
  -- mode, or none if no such instance is listed. The env's row is then reaped if it was active, and
  -- nothing else is written. If it fails, the tables are as before and no other instance is harmed.
  pub destroy_run-Post :
      (ctx : Ctx) (env_id : Text) (w : World)
      → Serves faults kento path opened elevate
      → Post
          (Q faults kento path opened elevate ctx env_id w)
          (E faults kento path opened elevate ctx env_id w)
          (destroy_run faults elevate ctx env_id w)
  unfolding destroy_run
  destroy_run-Post ctx env_id w serves =
      world_looked_up-Post (Q faults kento path opened elevate ctx env_id w)
        (E faults kento path opened elevate ctx env_id w) faults ctx env_id w
        (destroy_found faults elevate ctx env_id) (λ e. ((refl, refl), inl refl))
        (λ e. ((refl, refl), inl refl))
        (destroy_found-Post faults kento path opened elevate ctx env_id w serves)
