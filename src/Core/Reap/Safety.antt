-- ===== src/Core/Reap/Safety.antt =====
-- Whom a sweep (crates/core/src/reap.rs) may tear down.
use seadog.Prelude.{
  ◌≡◌, ◌⊎◌, refl, ap, Bool, true, false, Option, none, some, List, [], ◌∷◌, ok, err, inl, inr,
  arith, any, find-All, All, All-append, All-Mem, Bool-cases, Result-cases, Text, text_eq_iff,
}
use mathlib.Core.List.{Mem}
use seadog.Prelude.Int.{ℤ, ltb_ℤ, add_i64, as_i64}
use seadog.Core.Errors.{Fallible}
use seadog.Core.Models.{Mode, Env, EnvStatus, status_as_str, InstanceSignals}
use seadog.Core.Config.{Config}
use seadog.Core.Identity.{reap_eligible, classify}
use seadog.Core.Identity.Laws.{Confirms, classify-reap_eligible_iff}
use seadog.Core.Action.{◌>>◌}
use seadog.Core.Sql.{EnvRow, Db, Faults, Sql}
use seadog.Core.Rows.{
  has_guid, env_to_row, row_to_env, optional_env, update_guid, update_or_missing, insert_row,
}
use seadog.Core.Store.{set_status, mark_reaped, mark_vanished, insert_env, get_env}
use seadog.Core.Post.{Post, Post-map, Keeps, Keeps-bind, Keeps-statement, statement-Post}
use seadog.Core.Reap
use seadog.Core.Reap.Keeps.{Steady, route-Keeps, after_teardown-err-Keeps}
use seadog.Core.Reap.Sweeps.{Invariant, Listed, sweep-Post}

-- The rows satisfy a predicate that no status decides.
module _ (P : EnvRow → Type 0)
    (restatus : (row : EnvRow) (s : Text) → P row → P (record row { status = s }))
    (faults : Faults) where
  abbrev Rows : Db → Type 0
  Rows d = All P d.envs

  All-update :
      (guid s : Text) (rows : List EnvRow)
      → All P rows
      → All P (update_guid guid (λ row. record row { status = s }) rows)
  unfolding update_guid
  All-update guid s [] h = tt
  All-update guid s (row ∷ rows) h = elim (Bool-cases (has_guid guid row)) [
    | inl hit ↦ rw hit (restatus row s h.0, All-update guid s rows h.1)
    | inr miss ↦ rw miss (h.0, All-update guid s rows h.1)
  ]

  pub set_status-Rows : (guid : Text) (s : EnvStatus) → Keeps Rows (set_status faults guid s)
  unfolding set_status update_or_missing
  set_status-Rows guid s =
      Keeps-statement Rows (λ d n h. h) faults
        (update_or_missing guid (λ row. record row { status = status_as_str s }))
        (λ d h. elim (Bool-cases (any (has_guid guid) d.envs)) [
          | inl found ↦ rw (found, Post) (All-update guid (status_as_str s) d.envs h)
          | inr missing ↦ rw (missing, Post) h
        ])

  pub insert_env-Rows : (env : Env) → P (env_to_row env) → Keeps Rows (insert_env faults env)
  unfolding insert_env insert_row
  insert_env-Rows env p =
      Keeps-statement Rows (λ d n h. h) faults (insert_row (env_to_row env))
        (λ d h. elim (Bool-cases (any (has_guid (env_to_row env).guid) d.envs)) [
          | inl found ↦ rw (found, Post) h
          | inr missing ↦ rw (missing, Post) (All-append P d.envs (env_to_row env ∷ []) h (p, tt))
        ])

  -- What `get_env` answers is decoded from a row with that guid.
  abbrev pub Found : Text → Option Env → Type 0
  Found guid none = Unit
  Found guid (some env) = (row : EnvRow) × P row × (row.guid ≡ guid) × (row_to_env row ≡ ok env)

  optional_env-Found :
      (guid : Text) (o : Option EnvRow) (d : Db)
      → ((row : EnvRow) → o ≡ some row → P row × (has_guid guid row ≡ true))
      → Rows d
      → Post (λ r d'. Found guid r × Rows d') (λ e. Rows) (optional_env o, d)
  unfolding optional_env
  optional_env-Found guid none d f h = (tt, h)
  optional_env-Found guid (some row) d f h = elim (Result-cases (row_to_env row)) [
    | inl (env, good) ↦
        rw (good, Post)
          ((row, (f row refl).0, (text_eq_iff row.guid guid).0 (f row refl).1, good), h)
    | inr (e, bad) ↦ rw (bad, Post) h
  ]

  pub get_env-Found :
      (guid : Text) (d : Db)
      → Rows d
      → Post (λ r d'. Found guid r × Rows d') (λ e. Rows) (get_env faults guid d)
  unfolding get_env
  get_env-Found guid d h =
      statement-Post (λ r d'. Found guid r × Rows d') (λ e. Rows) faults _ d (λ e. h)
        (optional_env-Found guid _ _ (λ row e. find-All P (has_guid guid) d.envs row h e) h)

module _ (faults : Faults) (config : Config) (now_unix : ℤ) (kento : Reap.Kento)
    (is_uuid : Text → Bool) (before : Db) where
  -- A row is one from before the sweep, up to its status, or was adopted by this sweep.
  abbrev pub Known : EnvRow → Type 0
  Known row =
      ((old : EnvRow) × Mem old before.envs × (record old { status = row.status } ≡ row))
      ⊎ ((row.created_at ≡ now_unix)
          × (row.ttl_deadline ≡ add_i64 now_unix (as_i64 config.lifecycle.default_ttl)))

  -- The instance `name` was listed with the guid of a known row, whose name and MAC it confirms;
  -- the env is past the age floor and its deadline, and `mode` is its mode.
  pub record Due (t : Text × Mode) : Type 0 where
    pub sig : InstanceSignals
    pub row : EnvRow
    pub env : Env
    pub listed : Listed faults config now_unix kento is_uuid sig
    pub known : Known row
    pub decodes : row_to_env row ≡ ok env
    pub carries : sig.guid ≡ some row.guid
    pub confirms : Confirms is_uuid sig env
    pub old : Reap.too_young faults config now_unix env ≡ false
    pub past : ltb_ℤ now_unix env.ttl_deadline ≡ false
    pub named : t ≡ (sig.name, env.mode)

  abbrev Safe : Reap.World → Type 0
  Safe w = All Known w.db.envs × All Due w.teardowns

  Known-restatus : (row : EnvRow) (s : Text) → Known row → Known (record row { status = s })
  Known-restatus row s (inl (old, m, e)) =
      inl (old, m, ap (λ (r : EnvRow). record r { status = s }) e)
  Known-restatus row s (inr fresh) = inr fresh

  Known-readopted :
      (sig : InstanceSignals) (guid : Text) (owner : Option Text)
      → Known (env_to_row (Reap.readopted_env faults config now_unix sig guid owner))
  unfolding env_to_row Reap.readopted_env
  Known-readopted sig guid owner = inr (refl, refl)

  calls-Safe :
      {A : Type 0} (m : Sql A) → Keeps (λ (d : Db). All Known d.envs) m → Keeps Safe (Reap.on_db m)
  calls-Safe m h w i = called (m w.db) (h w.db i.0)
    where
      called :
          {A : Type 0} (r : Fallible A × Db)
          → Post (λ a (d : Db). All Known d.envs) (λ e d. All Known d.envs) r
          → Post (λ a. Safe) (λ e. Safe) (r.0, record w { db = r.1 })
      called (ok a, d) k = (k, i.1)
      called (err e, d) k = (k, i.1)

  Safe-Steady : Steady (All Known) Safe
  Safe-Steady = record {
    frame = record { calls = calls-Safe; sends = λ w sent i. i };
    counts = λ w o same i. i;
  }

  abbrev Joined : InstanceSignals → Option Env → Type 0
  Joined sig none = Unit
  Joined sig (some env) =
      Listed faults config now_unix kento is_uuid sig
      × ((row : EnvRow) × Known row × (sig.guid ≡ some row.guid) × (row_to_env row ≡ ok env))

  joins-Safe :
      (sig : InstanceSignals) (g : Option Text) (w : Reap.World)
      → sig.guid ≡ g
      → Listed faults config now_unix kento is_uuid sig
      → Safe w
      → Post
          (λ db_row w'. Joined sig db_row × Safe w')
          (λ e. Safe)
          (Reap.read_row faults config now_unix kento g w)
  unfolding Reap.read_row
  joins-Safe sig none w e l i = (tt, i)
  joins-Safe sig (some guid) w e l i =
      called (get_env faults guid w.db) (get_env-Found Known Known-restatus faults guid w.db i.0)
    where
      called :
          (r : Fallible (Option Env) × Db)
          → Post
              (λ o (d : Db). Found Known Known-restatus faults guid o × All Known d.envs)
              (λ e d. All Known d.envs)
              r
          → Post (λ db_row w'. Joined sig db_row × Safe w') (λ e. Safe) (r.0, record w { db = r.1 })
      called (ok none, d) (f, k) = (tt, (k, i.1))
      called (ok (some env), d) (f, k) = ((l, (f.0, f.1, rw f.2 e, f.3)), (k, i.1))
      called (err x, d) k = (k, i.1)

  answered-Safe :
      (sig : InstanceSignals) (guid : Text) (r : Fallible (Unit {0}))
      → Keeps Safe (Reap.after_teardown faults config now_unix sig guid r)
  unfolding Reap.after_teardown mark_reaped
  answered-Safe sig guid (ok u) =
      Keeps-bind Safe (Reap.on_db (mark_reaped faults guid))
        (λ v. Reap.count Reap.count_reaped >> Reap.route faults config now_unix _)
        (calls-Safe _ (set_status-Rows Known Known-restatus faults guid EnvStatus.reaped))
        (λ v w i. route-Keeps Safe-Steady.frame faults config now_unix _ _ i)
  answered-Safe sig guid (err e) =
      after_teardown-err-Keeps Safe-Steady faults config now_unix sig guid e

  torn-Safe :
      (sig : InstanceSignals) (env : Env) (guid : Text) (keys : Bool) (w : Reap.World)
      → Joined sig (some env)
      → classify is_uuid sig (some env) ≡ reap_eligible guid keys
      → Reap.too_young faults config now_unix env ≡ false
      → ltb_ℤ now_unix env.ttl_deadline ≡ false
      → Safe w
      → Post (λ u. Safe) (λ e. Safe) (Reap.tear_down faults config now_unix kento sig env guid w)
  unfolding Reap.tear_down
  torn-Safe sig env guid keys w (listed, (row, known, carries, decodes)) c old past i =
      answered-Safe sig guid _ _ (i.0, (due, i.1))
    where
      due : Due (sig.name, env.mode)
      due =
          let verdict = (classify-reap_eligible_iff is_uuid sig (some env) guid keys).0 c in
          let same : verdict.0 ≡ env = ground arith in
          record {
            sig = sig;
            row = row;
            env = env;
            listed = listed;
            known = known;
            decodes = decodes;
            carries = carries;
            confirms = rw (← same) verdict.3;
            old = old;
            past = past;
            named = refl;
          }

  Safe-Invariant : Invariant faults config now_unix kento is_uuid (All Known) Safe Safe Joined
  unfolding mark_vanished
  Safe-Invariant = record {
    steady = Safe-Steady;
    weaken = λ w i. i;
    readopts = λ sig guid owner.
        calls-Safe _
          (insert_env-Rows Known Known-restatus faults _ (Known-readopted sig guid owner));
    marks =
        λ guid. calls-Safe _ (set_status-Rows Known Known-restatus faults guid EnvStatus.vanished);
    joins = λ sig w l i. joins-Safe sig sig.guid w refl l i;
    tears = λ sig env guid keys w f c old past room i. torn-Safe sig env guid keys w f c old past i;
  }

  -- Every teardown that a sweep calls, also a sweep that fails later, is of an instance that Kento
  -- listed under the guid of a row that was there before the sweep or that this sweep adopted; its
  -- name is the row's, its MAC does not disagree with the row's, and the env that the row decodes to
  -- is no younger than the age floor and not before its deadline.
  pub sweep-Due :
      (w : Reap.World)
      → w.db ≡ before
      → w.teardowns ≡ []
      → Post
          (λ o w'. All Due w'.teardowns)
          (λ e w'. All Due w'.teardowns)
          (Reap.sweep faults config now_unix kento is_uuid w)
  sweep-Due w same none_yet =
      Post-map (λ o w'. (o ≡ w'.outcome) × Safe w') (λ o w'. All Due w'.teardowns)
        (λ e w'. Unit {0} × Safe w') (λ e w'. All Due w'.teardowns) _ (λ o w' h. h.1.1)
        (λ e w' h. h.1.1)
        (sweep-Post faults config now_unix kento is_uuid Safe-Invariant w
          (rw same (All-Mem before.envs (λ row m. inl (row, m, refl))), rw none_yet tt))
