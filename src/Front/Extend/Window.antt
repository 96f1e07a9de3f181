-- ===== src/Front/Extend/Window.antt =====
-- Which deadline `extend` of crates/seadog/src/verbs/extend.rs leaves.
use seadog.Prelude.{
  ℕ, ◌≡◌, refl, sym, ap, subst, ◌∙◌, ok_or, lit, ◌⊎◌, inl, inr, not, Option, none, some,
  ok_or-eq-ok, ok, find, All, Text, text_eq, text_eq_iff, arith,
}
use seadog.Prelude.Int.{
  ℤ, pos, ◌+ℤ◌, ◌≤ℤ◌, ◌<ℤ◌, IsI64, try_i64, try_i64-some, checked_add, checked_add-some,
  saturating_add, +ℤ_parts,
}
use seadog.Core.Failure.{Failure, message, running, running-Post, lift-Post, raise_if-Post}
use seadog.Core.Models.{Env}
use seadog.Core.Action.{pure, lift, ◌>>=◌}
use seadog.Core.Post.{Post, Post-map, bind-Post}
use seadog.Core.Sql.{EnvRow, Db, Faults, tick}
use seadog.Core.Rows.{has_guid, optional_env}
use seadog.Core.Store.{set_ttl_deadline}
use seadog.Core.Store.Deadline.{Clamped, Extended, Unchanged, set_ttl_deadline-Post}
use seadog.Core.Store.Lookup.{Recorded, Recorded-Copied}
use seadog.Front.Context.{Ctx}
use seadog.Front.Lookup.{looked_up-Post}
use seadog.Front.Extend.{Extension, extension, store_deadline, extend_env, extend_found, extend_run}

-- A clamp to a window that ends no earlier than the old deadline does not shorten.
Clamped-longer :
    (old hi lo v : ℤ) (duration : ℕ)
    → Clamped (old +ℤ pos duration) lo hi v
    → (hi <ℤ old) ⊎ (old ≤ℤ v)
Clamped-longer old hi lo v duration (inl same) =
    inr (rw same (omega (arith, +ℤ_parts old (pos duration))))
Clamped-longer old hi lo v duration (inr (inl (below, same))) =
    inr (rw same (omega (arith, below, +ℤ_parts old (pos duration))))
Clamped-longer old hi lo v duration (inr (inr (above, same))) = rw same (ground (arith, hi, old))

-- What a call that succeeds has done: `v` is the deadline that it answers.
module _ (ctx : Ctx) (env_id : Text) (duration : ℕ) (db : Db) where
  pub record Lengthened (r : Extension) (d : Db) : Type 0 where
    pub env : Env
    pub recorded : Recorded env_id db env
    pub own : ctx.owner ≡ some env.owner
    pub answered : r.guid ≡ env_id
    pub previous : r.previous_ttl_deadline ≡ env.ttl_deadline
    pub stored :
        Extended env_id
          (env.ttl_deadline +ℤ pos duration)
          (pos ctx.config.lifecycle.max_ttl)
          db
          r.ttl_deadline
          d
    pub longer :
        (saturating_add env.created_at (pos ctx.config.lifecycle.max_ttl) <ℤ env.ttl_deadline)
        ⊎ (env.ttl_deadline ≤ℤ r.ttl_deadline)

module _ (faults : Faults) (ctx : Ctx) (env_id : Text) (duration : ℕ) (db : Db)
    (i64s : All (λ (row : EnvRow). IsI64 row.created_at) db.envs) where
  abbrev Q : Extension → Db → Type 0
  Q = Lengthened ctx env_id duration db

  abbrev E : Failure → Db → Type 0
  E e = Unchanged db

  abbrev max_ttl : ℤ
  max_ttl = pos ctx.config.lifecycle.max_ttl

  module _ (env : Env) (recorded : Recorded env_id db env) (own : ctx.owner ≡ some env.owner) where
    same_row :
        (r1 r2 : EnvRow)
        → find (has_guid env_id) db.envs ≡ some r1
        → find (has_guid env_id) db.envs ≡ some r2
        → r2 ≡ r1
    same_row r1 r2 h k = ground (arith, h, k)

    lengthened :
        (v : ℤ) (d : Db)
        → Extended env_id (env.ttl_deadline +ℤ pos duration) max_ttl (tick db) v d
        → Q (extension env v) d
    lengthened v d h =
        let (row, found, same_guid, copied) = Recorded-Copied env_id db env recorded in
        record {
          env = env;
          recorded = recorded;
          own = own;
          answered = same_guid;
          previous = refl;
          stored = record {
            row = h.row;
            found = h.found;
            inside = h.inside;
            as_asked = h.as_asked;
            stored = h.stored;
            others = h.others;
          };
          longer =
              Clamped-longer env.ttl_deadline (saturating_add env.created_at max_ttl)
                h.row.created_at v duration
                (subst
                  (λ c.
                    Clamped (env.ttl_deadline +ℤ pos duration) h.row.created_at
                      (saturating_add c max_ttl) v)
                  (ap (λ (r : EnvRow). r.created_at) (same_row row h.row found h.found)
                    ∙ sym copied.same_created_at)
                  h.as_asked);
        }

    store_deadline-Post : Post Q E (
        store_deadline faults ctx env_id duration env
          (env.ttl_deadline +ℤ pos duration)
          max_ttl
          (tick db))
    unfolding store_deadline
    store_deadline-Post =
        bind-Post (λ v. Q (extension env v)) Q E
          (running (set_ttl_deadline faults env_id (env.ttl_deadline +ℤ pos duration) max_ttl))
          (λ stored. pure (extension env stored)) (tick db)
          (running-Post (λ v. Q (extension env v)) E
            (set_ttl_deadline faults env_id (env.ttl_deadline +ℤ pos duration) max_ttl) (tick db)
            (Post-map _ (λ v. Q (extension env v)) _ (λ e. Unchanged db) _ lengthened (λ e d h. h)
              (set_ttl_deadline-Post faults env_id (env.ttl_deadline +ℤ pos duration) max_ttl
                (tick db) i64s (omega arith))))
          (λ v d h. h)

    extend_env-Post : Post Q E (extend_env faults ctx env_id duration env (tick db))
    unfolding extend_env
    extend_env-Post =
        lift-Post Q E (ok_or too_large (try_i64 duration))
          (λ add. lift (ok_or overflows (checked_add env.ttl_deadline add)) >>= λ requested.
            lift (ok_or bad_ceiling (try_i64 ctx.config.lifecycle.max_ttl))
            >>= store_deadline faults ctx env_id duration env requested)
          (tick db) (λ e bad. (refl, refl))
          (λ add added.
            lift-Post Q E (ok_or overflows (checked_add env.ttl_deadline add))
              (λ requested.
                lift (ok_or bad_ceiling (try_i64 ctx.config.lifecycle.max_ttl))
                >>= store_deadline faults ctx env_id duration env requested)
              (tick db) (λ e bad. (refl, refl))
              (λ requested asked.
                lift-Post Q E (ok_or bad_ceiling (try_i64 ctx.config.lifecycle.max_ttl))
                  (store_deadline faults ctx env_id duration env requested) (tick db)
                  (λ e bad. (refl, refl))
                  (λ ceiling bounded.
                    stores add requested ceiling (try_i64-some duration (ok_or-eq-ok _ _ added))
                      (checked_add-some env.ttl_deadline add (ok_or-eq-ok _ _ asked))
                      (try_i64-some ctx.config.lifecycle.max_ttl (ok_or-eq-ok _ _ bounded)))))
      where
        too_large : Failure
        too_large = message (lit "duration is too large to add")

        overflows : Failure
        overflows = message (lit "resulting deadline overflows")

        bad_ceiling : Failure
        bad_ceiling = message (lit "configured max_ttl is too large")

        stores :
            (add requested ceiling : ℤ)
            → add ≡ pos duration
            → requested ≡ env.ttl_deadline +ℤ add
            → ceiling ≡ max_ttl
            → Post Q E (store_deadline faults ctx env_id duration env requested ceiling (tick db))
        stores add requested ceiling a r c =
            subst
              (λ z. Post Q E (store_deadline faults ctx env_id duration env requested z (tick db)))
              (sym c)
              (subst
                (λ z. Post Q E (store_deadline faults ctx env_id duration env z max_ttl (tick db)))
                (sym (r ∙ ap (λ z. env.ttl_deadline +ℤ z) a)) store_deadline-Post)

  extend_found-Post :
      (owner : Text) (found : Option Env)
      → ctx.owner ≡ some owner
      → optional_env (find (has_guid env_id) db.envs) ≡ ok found
      → Post Q E (extend_found faults ctx env_id duration owner found (tick db))
  unfolding extend_found
  extend_found-Post owner none named read = (refl, refl)
  extend_found-Post owner (some env) named read =
      raise_if-Post Q E (not (text_eq env.owner owner)) _
        (extend_env faults ctx env_id duration env) (tick db) (λ bad. (refl, refl))
        (λ own.
          extend_env-Post env read
            (named ∙ ap some (sym (ground (arith, text_eq_iff env.owner owner)))))

  -- `extend` answers only for an env of the caller's own, and then it has stored, in the row of that
  -- guid alone, the old deadline plus the duration, or the end of the row's window that this is
  -- beyond; a deadline that was inside the ceiling is never shortened. It fails, in whichever step,
  -- with the tables as they were. The create times are ones that an `i64` holds.
  pub extend_run-Lengthened : Post Q E (extend_run faults ctx env_id duration db)
  unfolding extend_run
  extend_run-Lengthened =
      looked_up-Post Q E faults ctx env_id db (extend_found faults ctx env_id duration)
        (λ e. (refl, refl)) (λ e. (refl, refl)) extend_found-Post
