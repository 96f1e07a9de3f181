-- ===== src/Front/Create/Leased.antt =====
-- What `create` (crates/seadog/src/verbs/create.rs) leaves in the tables.
use seadog.Prelude.{
  ℕ, ◌<◌, ◌≡◌, ◌⊎◌, ◌∙◌, refl, sym, ap, subst, inl, inr, false, some, List, [], ◌∷◌, ◌++◌, any, leb,
  Result, ok, err, ok_or-eq-ok, Text, arith,
}
use seadog.Prelude.Ipv4.{ip_text}
use seadog.Core.Errors.{Fallible}
use seadog.Core.Failure.{Failure, from_core, running, running-Post, raise_if-Post, lift-Post}
use seadog.Core.Models.{Env, vanished}
use seadog.Core.Action.{Acting, pure, raise, lift, ◌>>=◌}
use seadog.Core.Post.{Post, Post-map, bind-Post}
use seadog.Core.Sql.{EnvRow, Db, Faults, Sql, tick}
use seadog.Core.Rows.{has_guid, env_to_row, update_guid, collect_envs}
use seadog.Core.Store.{list_by_owner, mark_vanished, set_provision_signals}
use seadog.Core.Store.Deadline.{Unchanged}
use seadog.Core.Store.Listing.{owned_rows, list_by_owner-Post}
use seadog.Core.Store.Status.{
  Updated, with_status, with_signals, mark_vanished-Post, set_provision_signals-Post,
  update_guid-inserted, any-inserted, Faulted, Missed,
}
use seadog.Core.Alloc.{NewEnv, leased, allocate}
use seadog.Core.Alloc.Lowest.{IsLowestFree}
use seadog.Core.Alloc.Leases.{allocate-Post}
use seadog.Core.Reap.Routing.{World, on_db}
use seadog.Core.Reap.Keeps.{on_db-Post}
use seadog.Front.Context.{Ctx, require_owner}
use seadog.Front.Elevate.{ElevateArgs, ElevateError, elevate_error_text}
use seadog.Front.Mint.{mint_guest_name}
use seadog.Front.Plan.{CreateArgs, Plan, planned, mode_cap}
use seadog.Front.Create.{
  Realized, Creation, effective_mac, fingerprints, effective_vmid, best_effort, new_env,
  provision_request, creation, after_provision, create_leased, create_named, active_of_mode,
  create_capped, create_run,
}

module _ (P : World → Type 0) (E : Failure → World → Type 0) (w : World) where
  abbrev tried : Fallible (Unit {0}) × Db → Result Failure (Unit {0}) × World
  tried r = let (a, d) = r in (ok tt, record w { db = d })

  stored :
      (r : Fallible (Unit {0}) × Db)
      → Post (λ u d. P (record w { db = d })) (λ e d. P (record w { db = d })) r
      → Post (λ u. P) E (tried r)
  stored (ok u, d) h = h
  stored (err e, d) h = h

  best_effort-Post :
      (m : Sql (Unit {0}))
      → Post (λ u d. P (record w { db = d })) (λ e d. P (record w { db = d })) (m w.db)
      → Post (λ u. P) E (best_effort m w)
  best_effort-Post m h = stored (m w.db) h

module _ (faults : Faults) (elevate : ElevateArgs → Acting ElevateError World Realized)
    (opened : Fallible (Unit {0})) (ctx : Ctx) (args : CreateArgs) (guid mac : Text)
    (to_lowercase : ℕ → Text) (token : List ℕ) (parse_duration : Text → Result Text ℕ)
    (w : World) where
  abbrev new_row : Text → Plan → Text → ℕ → EnvRow
  new_row owner plan name ip =
      env_to_row (leased (new_env faults elevate opened ctx args guid mac owner plan name) ip)

  -- What holds of the tables before, where a lease is given.
  pub record Granted (owner : Text) (plan : Plan) (name : Text) (ip : ℕ) : Type 0 where
    pub named : ctx.owner ≡ some owner
    pub plan_made : planned parse_duration ctx args ≡ ok plan
    pub envs : List Env
    pub listed : collect_envs (owned_rows owner w.db) ≡ ok envs
    pub below_cap :
        active_of_mode faults elevate opened ctx args guid mac plan.resolved.mode envs
        < mode_cap ctx.config owner plan.resolved.mode
    pub minted : mint_guest_name to_lowercase owner args.image token ≡ ok name
    pub lowest :
        IsLowestFree ctx.config.allocation.ip_pool.range.0 ctx.config.allocation.ip_pool.range.1
          w.db.envs
          (some ip)
    pub fresh : any (has_guid guid) w.db.envs ≡ false

  -- The tables have that row more, at the end, and nothing else changed.
  abbrev pub Appended : EnvRow → Db → Type 0
  Appended row d = (d.envs ≡ w.db.envs ++ row ∷ []) × (d.notify_state ≡ w.db.notify_state)

  -- The row as it was leased, because a statement was set to fail.
  abbrev pub Unwritten : EnvRow → World → Type 0
  Unwritten row w' = Appended row w'.db × ((d : Db) × Faulted faults d)

  -- The row of a guest, with the signals that are answered, or still without.
  abbrev pub Kept : EnvRow → Creation → World → Type 0
  Kept row r w' =
      ((fps : List Text) × Appended (with_signals r.mac fps r.vmid row) w'.db) ⊎ Unwritten row w'

  abbrev pub Created : Creation → World → Type 0
  Created r w' =
      (owner : Text) × (plan : Plan) × (ip : ℕ) × Granted owner plan r.name ip
      × (r.id ≡ guid)
      × (r.ip ≡ ip_text ip)
      × Kept (new_row owner plan r.name ip) r w'

  -- The row that was leased is given back, unless that fails too.
  abbrev pub RolledBack : EnvRow → World → Type 0
  RolledBack row w' = Appended (with_status vanished row) w'.db ⊎ Unwritten row w'

  abbrev pub Refused : Failure → World → Type 0
  Refused e w' =
      Unchanged w.db w'.db
      ⊎ ((owner : Text) × (plan : Plan) × (name : Text) × (ip : ℕ) × Granted owner plan name ip
          × RolledBack (new_row owner plan name ip) w')

  module _ (owner : Text) (plan : Plan) (name : Text) (ip : ℕ)
      (g : Granted owner plan name ip) where
    abbrev row : EnvRow
    row = new_row owner plan name ip

    updated :
        (f : EnvRow → EnvRow) (d d' : Db)
        → Appended row d
        → Updated guid f d d'
        → Appended (f row) d'
    unfolding env_to_row leased
    updated f d d' (rows, states) (written, same) = (
      written ∙ ap (update_guid guid f) rows ∙ update_guid-inserted f row w.db.envs g.fresh,
      same ∙ states,
    )

    still : (d d' : Db) → Appended row d → Unchanged d d' → Appended row d'
    still d d' (rows, states) (same_rows, same) = (same_rows ∙ rows, same ∙ states)

    missing :
        (d d' : Db)
        → Appended row d
        → Missed faults guid d d'
        → Appended row d' × ((b : Db) × Faulted faults b)
    unfolding env_to_row leased
    missing d d' there (kept, inl fault) = (still d d' there kept, (d, fault))
    missing d d' there (kept, inr gone) = absurd (
        ground (
          arith,
          any-inserted row w.db.envs,
          subst (λ rows. any (has_guid guid) rows ≡ false) there.0 gone,
        ))

    after_provision-Post :
        (r : Result ElevateError Realized) (w' : World)
        → Appended row w'.db
        → Post Created Refused
            (after_provision faults elevate opened ctx args guid mac plan name ip r w')
    unfolding after_provision
    after_provision-Post (ok outcome) w' there =
        bind-Post (λ u. Kept row answer) Created Refused (best_effort signals) (λ u. pure answer) w'
          (best_effort-Post (Kept row answer) Refused w' signals (
            Post-map _ (λ u d. Kept row answer (record w' { db = d })) _
              (λ e d. Kept row answer (record w' { db = d })) _
              (λ u d written. inl (fingerprints outcome, updated _ w'.db d there written))
              (λ e d missed. inr (missing w'.db d there missed))
              (set_provision_signals-Post faults guid w'.db (effective_mac outcome)
                (fingerprints outcome) (effective_vmid outcome))))
          (λ u w'' kept. (owner, plan, ip, g, refl, refl, kept))
      where
        answer : Creation
        answer = creation faults elevate opened ctx args guid mac plan name ip outcome

        signals : Sql (Unit {0})
        signals =
            set_provision_signals faults guid (effective_mac outcome) (fingerprints outcome)
              (effective_vmid outcome)
    after_provision-Post (err e) w' there =
        bind-Post (λ u. RolledBack row) Created Refused (best_effort (mark_vanished faults guid))
          (λ u. raise (Failure.message (elevate_error_text e))) w'
          (best_effort-Post (RolledBack row) Refused w' (mark_vanished faults guid) (
            Post-map _ (λ u d. RolledBack row (record w' { db = d })) _
              (λ e d. RolledBack row (record w' { db = d })) _
              (λ u d written. inl (updated _ w'.db d there written))
              (λ e d missed. inr (missing w'.db d there missed))
              (mark_vanished-Post faults guid w'.db)))
          (λ u w'' back. inr (owner, plan, name, ip, g, back))

  -- The helper's `provision` writes no table.
  abbrev pub Spares : Type 0
  Spares = (req : ElevateArgs) (before : World) → Unchanged before.db (elevate req before).1.db

  module _ (spares : Spares) where
    create_leased-Post :
        (owner : Text) (plan : Plan) (name : Text) (ip : ℕ) (w' : World)
        → Granted owner plan name ip
        → Appended (new_row owner plan name ip) w'.db
        → Post Created Refused
            (create_leased faults elevate opened ctx args guid mac owner plan name ip w')
    unfolding create_leased
    create_leased-Post owner plan name ip w' g there =
        settled (elevate request w')
          (still owner plan name ip g w'.db (elevate request w').1.db there (spares request w'))
      where
        request : ElevateArgs
        request = provision_request faults elevate opened ctx args guid mac owner plan name ip

        settled :
            (r : Result ElevateError Realized × World)
            → Appended (new_row owner plan name ip) r.1.db
            → Post Created Refused (
                let (a, w'') = r in
                after_provision faults elevate opened ctx args guid mac plan name ip a w'')
        settled (r, w'') h = after_provision-Post owner plan name ip g r w'' h

    -- Where nothing is written yet, but a statement was run.
    abbrev w1 : World
    w1 = record w { db = tick w.db }

    -- Everything but the lease is known.
    abbrev Ready : Text → Plan → Text → Type 0
    Ready owner plan name =
        (ip : ℕ)
        → IsLowestFree ctx.config.allocation.ip_pool.range.0 ctx.config.allocation.ip_pool.range.1
            w.db.envs (some ip)
        → any (has_guid guid) w.db.envs ≡ false
        → Granted owner plan name ip

    create_named-Post :
        (owner : Text) (plan : Plan) (name : Text)
        → Ready owner plan name
        → Post Created Refused
            (create_named faults elevate opened ctx args guid mac owner plan name w1)
    unfolding create_named
    create_named-Post owner plan name ready =
        lift-Post Created Refused (from_core opened) (λ u. running (on_db lease) >>= leases) w1
          (λ e bad. inl (refl, refl))
          (λ u good.
            bind-Post Leases Created Refused (running (on_db lease)) leases w1
              (running-Post Leases Refused (on_db lease) w1 (
                on_db-Post Leases (λ e. Refused (Failure.core e)) w1 lease
                  (Post-map _ (λ ip d. Leases ip (record w { db = d })) _
                    (λ e d. Refused (Failure.core e) (record w { db = d })) _
                    (λ ip d (lowest, fresh, rows, states, beats).
                      (ready ip lowest fresh, (rows, states)))
                    (λ e d kept. inl (kept.0, kept.1))
                    (allocate-Post faults pool new (tick w.db)))))
              (λ ip w' (g, there). create_leased-Post owner plan name ip w' g there))
      where
        pool : ℕ × ℕ
        pool = ctx.config.allocation.ip_pool.range

        new : NewEnv
        new = new_env faults elevate opened ctx args guid mac owner plan name

        leases : ℕ → Acting Failure World Creation
        leases = create_leased faults elevate opened ctx args guid mac owner plan name

        lease : Sql ℕ
        lease = allocate faults pool new

        Leases : ℕ → World → Type 0
        Leases ip w' = Granted owner plan name ip × Appended (new_row owner plan name ip) w'.db

    create_capped-Post :
        (owner : Text) (plan : Plan) (envs : List Env)
        → ctx.owner ≡ some owner
        → planned parse_duration ctx args ≡ ok plan
        → collect_envs (owned_rows owner w.db) ≡ ok envs
        → Post Created Refused (
            create_capped faults elevate opened ctx args guid mac to_lowercase token owner plan envs
              w1)
    unfolding create_capped
    create_capped-Post owner plan envs named made read =
        raise_if-Post Created Refused (leb cap count) _ next w1 (λ full. inl (refl, refl))
          (λ below.
            lift-Post Created Refused (mint_guest_name to_lowercase owner args.image token)
              (create_named faults elevate opened ctx args guid mac owner plan) w1
              (λ e bad. inl (refl, refl))
              (λ name minted. create_named-Post owner plan name (λ ip lowest fresh. record {
                named = named;
                plan_made = made;
                envs = envs;
                listed = read;
                below_cap = ground (arith, below);
                minted = minted;
                lowest = lowest;
                fresh = fresh;
              })))
      where
        cap : ℕ
        cap = mode_cap ctx.config owner plan.resolved.mode

        count : ℕ
        count = active_of_mode faults elevate opened ctx args guid mac plan.resolved.mode envs

        next : Acting Failure World Creation
        next =
            lift (mint_guest_name to_lowercase owner args.image token)
            >>= create_named faults elevate opened ctx args guid mac owner plan

    -- `create`, with a helper that writes no table, answers only if the owner was below the cap of
    -- the mode. It then has added one row, active, for the owner under the new guid, with the least
    -- free address of the pool, perhaps with the signals that it answers, and changed no other. If it
    -- fails, the tables are as before, or the row that it added is vanished. Where a row lacks the
    -- signals or is not vanished, a statement on the tables was set to fail.
    pub create_run-Created :
        Post Created Refused
          (create_run faults elevate opened ctx args guid mac to_lowercase token parse_duration w)
    unfolding create_run require_owner
    create_run-Created =
        lift-Post Created Refused (require_owner ctx)
          (λ owner. lift (planned parse_duration ctx args) >>= after owner) w
          (λ e bad. inl (refl, refl))
          (λ owner named.
            lift-Post Created Refused (planned parse_duration ctx args) (after owner) w
              (λ e bad. inl (refl, refl))
              (λ plan made.
                bind-Post (Listed owner) Created Refused
                  (running (on_db (list_by_owner faults owner)))
                  (create_capped faults elevate opened ctx args guid mac to_lowercase token owner
                    plan)
                  w (lists owner)
                  (λ envs w' (same, read).
                    subst
                      (λ w'. Post Created Refused (
                        create_capped faults elevate opened ctx args guid mac to_lowercase token
                          owner plan envs w'))
                      (sym same)
                      (create_capped-Post owner plan envs (ok_or-eq-ok _ ctx.owner named) made
                        read))))
      where
        after : Text → Plan → Acting Failure World Creation
        after owner plan =
            running (on_db (list_by_owner faults owner))
            >>= create_capped faults elevate opened ctx args guid mac to_lowercase token owner plan

        Listed : Text → List Env → World → Type 0
        Listed owner envs w' = (w' ≡ w1) × (collect_envs (owned_rows owner w.db) ≡ ok envs)

        lists :
            (owner : Text)
            → Post (Listed owner) Refused (running (on_db (list_by_owner faults owner)) w)
        lists owner = running-Post (Listed owner) Refused (on_db (list_by_owner faults owner)) w (
            on_db-Post (Listed owner) (λ e. Refused (Failure.core e)) w (list_by_owner faults owner)
              (Post-map _ (λ envs d. Listed owner envs (record w { db = d })) _
                (λ e d. Refused (Failure.core e) (record w { db = d })) _
                (λ envs d (same, read). (ap (λ d. record w { db = d }) same, read))
                (λ e d same.
                  inl (ap (λ (d : Db). d.envs) same, ap (λ (d : Db). d.notify_state) same))
                (list_by_owner-Post faults owner w.db)))
