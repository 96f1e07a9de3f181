-- ===== src/Priv/Teardown/Safety.antt =====
-- What the helper's `teardown` destroys: crates/seadog-priv/src/teardown.rs.
use seadog.Prelude.{
  ◌≡◌, refl, sym, ap, subst, ok_or-eq-ok, ◌⊎◌, inl, inr, Option, none, some, Result, List, ◌∷◌,
  find, ok, err, arith, Text, not, text_eq, text_eq_iff,
}
use seadog.Core.Errors.{Error, Fallible}
use seadog.Core.Failure.{
  Failure, from_core, running, running-Post, from_core-eq-ok, lift-Post, raise_if-Post,
}
use seadog.Core.Models.{Mode, mode_from_str_opt, Env, InstanceSignals}
use seadog.Core.Post.{Post, Post-map, bind-Post}
use seadog.Core.Action.{lift, ◌>>=◌, ◌>>◌}
use seadog.Core.Sql.{Db, Faults, tick}
use seadog.Core.Rows.{has_guid, optional_env}
use seadog.Core.Store.{get_env}
use seadog.Core.Store.Deadline.{Unchanged}
use seadog.Core.Store.Lookup.{Recorded, get_env-Post}
use seadog.Core.Reap.Routing.{Kento, World, on_db}
use seadog.Core.Reap.Keeps.{on_db-Post}
use seadog.Core.Validate.{validate_owner_name}
use seadog.Priv.Teardown.{
  TeardownArgs, TeardownReport, already_gone, reaped, carries, report, destroyed, destroy_live,
  parse_mode, open_db, teardown_live, teardown_row, teardown_run,
}

module _ (kento : Kento) (args : TeardownArgs) (db : Db) where
  -- The env that the database holds under the guid is the owner's, and `live` is what kento lists.
  pub record Owned (mode : Mode) (row : Env) (live : List InstanceSignals) : Type 0 where
    pub asked : mode_from_str_opt args.mode ≡ some mode
    pub recorded : Recorded args.guid db row
    pub owned : row.owner ≡ args.owner
    pub listed : kento.list_instances ≡ ok live

  -- And the first listed instance of that guid has the name of the env.
  abbrev pub Cleared : Mode → Env → List InstanceSignals → InstanceSignals → Type 0
  Cleared mode row live instance =
      Owned mode row live
      × (find (carries args.guid) live ≡ some instance)
      × (instance.name ≡ row.name)

  module _ (before : List (Text × Mode)) where
    -- One teardown is called, of that instance; what kento answers to it is `answer`.
    pub record Destroyed (answer : Fallible (Unit {0})) (mode : Mode) (w' : World) : Type 0 where
      pub row : Env
      pub live : List InstanceSignals
      pub instance : InstanceSignals
      pub cleared : Cleared mode row live instance
      pub called : w'.teardowns ≡ (instance.name, mode) ∷ before
      pub said : kento.teardown before instance.name mode ≡ answer

    pub record Gone (mode : Mode) (w' : World) : Type 0 where
      pub row : Env
      pub live : List InstanceSignals
      pub owned : Owned mode row live
      pub none_live : find (carries args.guid) live ≡ none
      pub uncalled : w'.teardowns ≡ before

    abbrev pub Answered : TeardownReport → World → Type 0
    Answered r w' =
        Unchanged db w'.db
        × ((Destroyed (ok tt) r.mode w' × (r ≡ report kento args r.mode reaped))
            ⊎ (Gone r.mode w' × (r ≡ report kento args r.mode already_gone)))

    abbrev pub Refused : Failure → World → Type 0
    Refused e w' =
        Unchanged db w'.db
        × ((w'.teardowns ≡ before)
            ⊎ ((mode : Mode) × (problem : Error) × (e ≡ Failure.core problem)
                × Destroyed (err problem) mode w'))

module _ (kento : Kento) (args : TeardownArgs) (db : Db) (w : World) where
  abbrev Outcome : Result Failure TeardownReport × World → Type 0
  Outcome = Post (Answered kento args db w.teardowns) (Refused kento args db w.teardowns)

  module _ (mode : Mode) (steady : Unchanged db w.db) where
    module _ (row : Env) (live : List InstanceSignals) (instance : InstanceSignals)
        (cleared : Cleared kento args db mode row live instance) where
      called :
          (answer : Fallible (Unit {0}))
          → kento.teardown w.teardowns instance.name mode ≡ answer
          → Destroyed kento args db w.teardowns answer mode
              (record w { teardowns = (instance.name, mode) ∷ w.teardowns })
      called answer said = record {
        row = row;
        live = live;
        instance = instance;
        cleared = cleared;
        called = refl;
        said = said;
      }

      destroyed-Post :
          (answer : Fallible (Unit {0}))
          → kento.teardown w.teardowns instance.name mode ≡ answer
          → Outcome (
              destroyed kento args mode answer
                (record w { teardowns = (instance.name, mode) ∷ w.teardowns }))
      unfolding destroyed
      destroyed-Post (ok u) said = (steady, inl (called (ok u) said, refl))
      destroyed-Post (err e) said = (steady, inr (mode, e, refl, called (err e) said))

    teardown_live-Post :
        (row : Env) (live : List InstanceSignals) (found : Option InstanceSignals)
        → Owned kento args db mode row live
        → find (carries args.guid) live ≡ found
        → Outcome (teardown_live kento args mode row found w)
    unfolding teardown_live destroy_live
    teardown_live-Post row live none owned gone = (
      steady,
      inr (
        record { row = row; live = live; owned = owned; none_live = gone; uncalled = refl },
        refl,
      ),
    )
    teardown_live-Post row live (some instance) owned found =
        raise_if-Post (Answered kento args db w.teardowns) (Refused kento args db w.teardowns)
          (not (text_eq instance.name row.name)) _ (destroy_live kento args mode instance) w
          (λ bad. (steady, inl refl))
          (λ good.
            destroyed-Post row live instance
              (owned, found, ground (arith, text_eq_iff instance.name row.name)) _ refl)

    teardown_row-Post :
        (found : Option Env)
        → mode_from_str_opt args.mode ≡ some mode
        → optional_env (find (has_guid args.guid) db.envs) ≡ ok found
        → Outcome (teardown_row kento args mode found w)
    unfolding teardown_row
    teardown_row-Post none asked looked = (steady, inl refl)
    teardown_row-Post (some row) asked looked =
        raise_if-Post (Answered kento args db w.teardowns) (Refused kento args db w.teardowns)
          (not (text_eq row.owner args.owner)) _
          (lift (from_core kento.list_instances) >>= λ live.
            teardown_live kento args mode row (find (carries args.guid) live))
          w (λ bad. (steady, inl refl))
          (λ good.
            lift-Post (Answered kento args db w.teardowns) (Refused kento args db w.teardowns)
              (from_core kento.list_instances)
              (λ live. teardown_live kento args mode row (find (carries args.guid) live)) w
              (λ e failed. (steady, inl refl))
              (λ live listed.
                teardown_live-Post row live _
                  (record {
                    asked = asked;
                    recorded = looked;
                    owned = ground (arith, text_eq_iff row.owner args.owner);
                    listed = from_core-eq-ok kento.list_instances listed;
                  })
                  refl))

module _ (faults : Faults) (kento : Kento) (path : Text) (opened : Fallible (Unit {0}))
    (args : TeardownArgs) (w : World) where
  abbrev Q : TeardownReport → World → Type 0
  Q = Answered kento args w.db w.teardowns

  abbrev E : Failure → World → Type 0
  E = Refused kento args w.db w.teardowns

  abbrev Read : Option Env → World → Type 0
  Read found w' =
      (w' ≡ record w { db = tick w.db })
      × (optional_env (find (has_guid args.guid) w.db.envs) ≡ ok found)

  looks : Post Read E (running (on_db (get_env faults args.guid)) w)
  looks = running-Post Read E (on_db (get_env faults args.guid)) w (
      on_db-Post Read (λ e. E (Failure.core e)) w (get_env faults args.guid)
        (Post-map _ (λ found d. Read found (record w { db = d })) _
          (λ e d. E (Failure.core e) (record w { db = d })) (get_env faults args.guid w.db)
          (λ found d (same, read). (ap (λ d. record w { db = d }) same, read))
          (λ e d same. rw same ((refl, refl), inl refl)) (get_env-Post faults args.guid w.db)))

  looks_up :
      (mode : Mode)
      → mode_from_str_opt args.mode ≡ some mode
      → Post Q E ((running (on_db (get_env faults args.guid)) >>= teardown_row kento args mode) w)
  looks_up mode asked =
      bind-Post Read Q E (running (on_db (get_env faults args.guid))) (teardown_row kento args mode)
        w looks
        (λ found w' (same, read).
          subst (λ w'. Post Q E (teardown_row kento args mode found w')) (sym same)
            (teardown_row-Post kento args w.db (record w { db = tick w.db }) mode (refl, refl) found
              asked read))

  -- The helper tears down at most one instance: one that kento lists under the guid, by its own
  -- name, which is the name of the env that the database holds under that guid, an env of the owner
  -- that asked; it then answers `reaped`, or the error of kento. It answers `already-gone` and tears
  -- nothing down only if that env is the owner's and kento lists no instance of the guid; anything
  -- else is refused without a teardown. The tables stay as they were.
  pub teardown_run-Post : Post Q E (teardown_run kento args faults path opened w)
  unfolding teardown_run parse_mode
  teardown_run-Post =
      lift-Post Q E (parse_mode args.mode)
        (λ mode.
          lift (from_core (validate_owner_name args.owner))
          >> (lift (open_db path opened)
              >> (running (on_db (get_env faults args.guid)) >>= teardown_row kento args mode)))
        w (λ e bad. ((refl, refl), inl refl))
        (λ mode parsed.
          lift-Post Q E (from_core (validate_owner_name args.owner))
            (λ u.
              lift (open_db path opened)
              >> (running (on_db (get_env faults args.guid)) >>= teardown_row kento args mode))
            w (λ e bad. ((refl, refl), inl refl))
            (λ u valid.
              lift-Post Q E (open_db path opened)
                (λ u. running (on_db (get_env faults args.guid)) >>= teardown_row kento args mode) w
                (λ e bad. ((refl, refl), inl refl))
                (λ u ready. looks_up mode (parsed_mode mode parsed))))
    where
      parsed_mode :
          (mode : Mode) → parse_mode args.mode ≡ ok mode → mode_from_str_opt args.mode ≡ some mode
      parsed_mode mode parsed = ok_or-eq-ok _ (mode_from_str_opt args.mode) parsed
