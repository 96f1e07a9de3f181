-- ===== src/Core/Alloc/Stable.antt =====
-- The processes that share the database, as steps in any order: each runs one operation of
-- crates/core/src/alloc.rs or crates/core/src/store.rs, under its own faults. What the rows keep
-- under each change that these operations make to them, they keep for ever.
use seadog.Prelude.{
  Bool, ◌++◌, ◌∷◌, select, ℕ, ◌^◌, ◌<◌, ◌≡◌, ◌≢◌, refl, subst, sym, false, Option, List, [], arith,
  inl, inr, any, Bool-cases, Option-cases, find, ◌≤◌, Text,
}
use seadog.Prelude.Int.{ℤ, sub_i64}
use seadog.Core.Models.{status_as_str, active, reaped, vanished, Env, EnvStatus, NotifyState}
use seadog.Core.Action.{◌>>◌, pure}
use seadog.Core.Sql.{SameTables, EnvRow, Db, Faults, Sql, statement}
use seadog.Core.Rows.{has_guid, env_to_row, insert_row, update_or_missing, update_guid}
use seadog.Core.Store.{
  insert_env, set_status, mark_reaped, mark_vanished, set_ttl_deadline, set_mac,
  set_provision_signals, prune_terminal, put_notify_state, write_heartbeat, delete_states,
  delete_envs, read_created_at, clamped_deadline, write_deadline,
}
use seadog.Core.Post.{
  Post, Post-map, Keeps, Keeps-bind, Keeps-state, Keeps-statement, Keeps-transaction,
}
use seadog.Core.Alloc.{NewEnv, leased, allocate}
use seadog.Core.Alloc.Lowest.{is_held}
use seadog.Core.Alloc.Leases.{Leased, allocate-Post}

-- One operation by one process.
pub data Step (db : Db) : Db → Type 0 where
  allocates :
      (faults : Faults) (pool : ℕ × ℕ) (new : NewEnv)
      → pool.1 < 2 ^ 32
      → Step db (allocate faults pool new db).1
  readopts : (faults : Faults) (env : Env) → env.ip ≡ [] → Step db (insert_env faults env db).1
  reaps : (faults : Faults) (guid : Text) → Step db (mark_reaped faults guid db).1
  vanishes : (faults : Faults) (guid : Text) → Step db (mark_vanished faults guid db).1
  extends :
      (faults : Faults) (guid : Text) (deadline max_ttl : ℤ)
      → Step db (set_ttl_deadline faults guid deadline max_ttl db).1
  macs : (faults : Faults) (guid mac : Text) → Step db (set_mac faults guid mac db).1
  provisions :
      (faults : Faults) (guid mac : Text) (fps : List Text) (vmid : Option ℕ)
      → Step db (set_provision_signals faults guid mac fps vmid db).1
  prunes :
      (faults : Faults) (now_unix retention : ℤ)
      → Step db (prune_terminal faults now_unix retention db).1
  notes : (faults : Faults) (s : NotifyState) → Step db (put_notify_state faults s db).1
  beats : (faults : Faults) (now_unix : ℤ) → Step db (write_heartbeat faults now_unix db).1

pub data Reach (db : Db) : Db → Type 0 where
  here : Reach db db
  next : {d d' : Db} → Reach db d → Step d d' → Reach db d'

-- What an update of one column, not of these three, leaves as it was.
abbrev pub Spares : (EnvRow → EnvRow) → Type 0
Spares f =
    (row : EnvRow)
    → ((f row).ip ≡ row.ip) × ((f row).mode ≡ row.mode) × ((f row).status ≡ row.status)

abbrev pub with_status : EnvStatus → EnvRow → EnvRow
with_status s row = record row { status = status_as_str s }

-- A property of the rows that outlives each change: a lease of an address that no row holds, the row
-- of an env without an address, a status other than active, an update and a deletion.
pub record Stable (P : List EnvRow → Type 0) : Type 0 where
  pub leases :
      (new : NewEnv) (ip : ℕ) (rows : List EnvRow)
      → ip < 2 ^ 32
      → is_held ip rows ≡ false
      → P rows
      → P (rows ++ env_to_row (leased new ip) ∷ [])
  pub inserts :
      (env : Env) (rows : List EnvRow) → env.ip ≡ [] → P rows → P (rows ++ env_to_row env ∷ [])
  pub marks :
      (guid : Text) (s : EnvStatus) (rows : List EnvRow)
      → s ≢ active
      → P rows
      → P (update_guid guid (with_status s) rows)
  pub updates :
      (guid : Text) (f : EnvRow → EnvRow) (rows : List EnvRow)
      → Spares f
      → P rows
      → P (update_guid guid f rows)
  pub deletes : (p : EnvRow → Bool) (rows : List EnvRow) → P rows → P (select p rows)

module _ (P : List EnvRow → Type 0) (stable : Stable P) where
  abbrev Envs : Db → Type 0
  Envs db = P db.envs

  abbrev Keeping : {A : Type 0} → Sql A → Type 0
  Keeping m = Keeps Envs m

  module _ (faults : Faults) where
    statement-keeps : {A : Type 0} (body : Sql A) → Keeping body → Keeping (statement faults body)
    statement-keeps body = Keeps-statement Envs (λ db n x. x) faults body

    changed-keeps :
        (guid : Text) (f : EnvRow → EnvRow)
        → ((rows : List EnvRow) → P rows → P (update_guid guid f rows))
        → Keeping (statement faults (update_or_missing guid f))
    unfolding update_or_missing
    changed-keeps guid f t = statement-keeps (update_or_missing guid f) (λ db x.
        elim (Bool-cases (any (has_guid guid) db.envs)) [
          | inl found ↦ rw (found, Post) (t db.envs x)
          | inr missing ↦ rw (missing, Post) x
        ])

    update-keeps :
        (guid : Text) (f : EnvRow → EnvRow)
        → Spares f
        → Keeping (statement faults (update_or_missing guid f))
    update-keeps guid f t =
        changed-keeps guid f (λ (rows : List EnvRow) x. stable.updates guid f rows t x)

    allocate-keeps :
        (pool : ℕ × ℕ) (new : NewEnv) → pool.1 < 2 ^ 32 → Keeping (allocate faults pool new)
    allocate-keeps pool new small db x =
        Post-map (Leased pool new db) (λ ip. Envs) (λ e. SameTables db) (λ e. Envs)
          (allocate faults pool new db)
          (λ ip d p. subst P (sym p.2) (stable.leases new ip db.envs (bound p.0.1) p.0.2 x))
          (λ e d p. subst P (sym p.0) x) (allocate-Post faults pool new db)
      where
        bound : {ip : ℕ} → ip ≤ pool.1 → ip < 2 ^ 32
        bound h = omega arith

    insert_env-keeps : (env : Env) → env.ip ≡ [] → Keeping (insert_env faults env)
    unfolding insert_env insert_row
    insert_env-keeps env e = statement-keeps (insert_row (env_to_row env)) (λ db x.
        elim (Bool-cases (any (has_guid (env_to_row env).guid) db.envs)) [
          | inl found ↦ rw (found, Post) x
          | inr missing ↦ rw (missing, Post) (stable.inserts env db.envs e x)
        ])

    set_status-keeps :
        (guid : Text) (s : EnvStatus) → s ≢ active → Keeping (set_status faults guid s)
    unfolding set_status
    set_status-keeps guid s ne =
        changed-keeps guid (with_status s) (λ (rows : List EnvRow) x. stable.marks guid s rows ne x)

    read_created_at-keeps : (guid : Text) → Keeping (read_created_at faults guid)
    unfolding read_created_at
    read_created_at-keeps guid = statement-keeps _ (λ db x.
        elim (Option-cases (find (has_guid guid) db.envs)) [
          | inl missing ↦ rw (missing, Post) x
          | inr (row, found) ↦ rw (found, Post) x
        ])

    set_ttl_deadline-keeps :
        (guid : Text) (deadline max_ttl : ℤ)
        → Keeping (set_ttl_deadline faults guid deadline max_ttl)
    unfolding set_ttl_deadline
    set_ttl_deadline-keeps guid deadline max_ttl =
        Keeps-bind Envs (read_created_at faults guid) (write_deadline faults guid deadline max_ttl)
          (read_created_at-keeps guid)
          (λ created_at.
            Keeps-bind Envs
              (statement faults (
                update_or_missing guid (λ row. record row {
                  ttl_deadline = clamped_deadline deadline max_ttl created_at;
                })))
              (λ u. pure (clamped_deadline deadline max_ttl created_at))
              (update-keeps guid _ (λ row. (refl, refl, refl))) (λ u db x. x))

    prune_terminal-keeps :
        (now_unix retention : ℤ) → Keeping (prune_terminal faults now_unix retention)
    unfolding prune_terminal
    prune_terminal-keeps now_unix retention =
        let cutoff : ℤ = sub_i64 now_unix retention in
        Keeps-transaction Envs (λ db n x. x) faults
          (statement faults (delete_states cutoff) >> statement faults (delete_envs cutoff))
          (Keeps-bind Envs (statement faults (delete_states cutoff))
            (λ u. statement faults (delete_envs cutoff))
            (statement-keeps (delete_states cutoff) (delete_states-keeps cutoff))
            (λ u. statement-keeps (delete_envs cutoff) (delete_envs-keeps cutoff)))
      where
        delete_states-keeps : (cutoff : ℤ) → Keeping (delete_states cutoff)
        delete_states-keeps cutoff db x = x

        delete_envs-keeps : (cutoff : ℤ) → Keeping (delete_envs cutoff)
        delete_envs-keeps cutoff db x = stable.deletes _ db.envs x

  Step-keeps : {db d : Db} → Step db d → P db.envs → P d.envs
  unfolding mark_reaped mark_vanished set_mac set_provision_signals put_notify_state write_heartbeat
  Step-keeps {db} (allocates faults pool new small) x =
      Keeps-state Envs (allocate faults pool new) (allocate-keeps faults pool new small) db x
  Step-keeps {db} (readopts faults env e) x =
      Keeps-state Envs (insert_env faults env) (insert_env-keeps faults env e) db x
  Step-keeps {db} (reaps faults guid) x =
      Keeps-state Envs (set_status faults guid reaped)
        (set_status-keeps faults guid reaped (λ e. cc)) db x
  Step-keeps {db} (vanishes faults guid) x =
      Keeps-state Envs (set_status faults guid vanished)
        (set_status-keeps faults guid vanished (λ e. cc)) db x
  Step-keeps {db} (extends faults guid deadline max_ttl) x =
      Keeps-state Envs (set_ttl_deadline faults guid deadline max_ttl)
        (set_ttl_deadline-keeps faults guid deadline max_ttl) db x
  Step-keeps {db} (macs faults guid mac) x =
      Keeps-state Envs (set_mac faults guid mac)
        (update-keeps faults guid _ (λ row. (refl, refl, refl))) db x
  Step-keeps {db} (provisions faults guid mac fps vmid) x =
      Keeps-state Envs (set_provision_signals faults guid mac fps vmid)
        (update-keeps faults guid _ (λ row. (refl, refl, refl))) db x
  Step-keeps {db} (prunes faults now_unix retention) x =
      Keeps-state Envs (prune_terminal faults now_unix retention)
        (prune_terminal-keeps faults now_unix retention) db x
  Step-keeps {db} (notes faults s) x =
      Keeps-state Envs (put_notify_state faults s) (statement-keeps faults _ (λ d y. y)) db x
  Step-keeps {db} (beats faults now_unix) x =
      Keeps-state Envs (write_heartbeat faults now_unix) (statement-keeps faults _ (λ d y. y)) db x

  pub Reach-Stable : {db d : Db} → Reach db d → P db.envs → P d.envs
  Reach-Stable here x = x
  Reach-Stable (next r st) x = Step-keeps st (Reach-Stable r x)
