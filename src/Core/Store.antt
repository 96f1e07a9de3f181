-- ===== src/Core/Store.antt =====
-- The operations of crates/core/src/store.rs on the database of Sql.antt: the env
-- CRUD, the notify states and the heartbeat. The schema and its migrations are in
-- Schema.antt.
pub mod Alerts
pub mod Deadline
pub mod Listing
pub mod Lookup
pub mod Prune
pub mod Status
pub mod Upsert
use seadog.Prelude.{
  ℕ, not, Option, none, some, List, ok, err, find, any, select, length, Text, text_eq,
}
use seadog.Prelude.Int.{ℤ, sub_i64, saturating_add, clamp_ℤ}
use seadog.Core.Models.{EnvStatus, reaped, vanished, status_as_str, Env, NotifyState}
use seadog.Core.Action.{pure, ◌>>=◌, ◌>>◌}
use seadog.Core.Sql.{Faults, Sql, statement, transaction}
use seadog.Core.Rows.{
  join_fps, env_to_row, has_guid, optional_env, collect_envs, newest_first, unknown_guid,
  update_or_missing, insert_row, prunable, keyed_on, same_key, upsert,
}

abbrev pub clamped_deadline : ℤ → ℤ → ℤ → ℤ
clamped_deadline ttl_deadline max_ttl_secs created_at =
    clamp_ℤ ttl_deadline created_at (saturating_add created_at max_ttl_secs)

-- The two deletions of `prune_terminal`.
unfoldable pub delete_states : ℤ → Sql (Unit {0})
delete_states cutoff db =
    let gone = select (prunable cutoff) db.envs in
    (
      ok tt,
      record db { notify_state = select (λ s. not (any (keyed_on s.guid) gone)) db.notify_state },
    )

unfoldable pub delete_envs : ℤ → Sql ℕ
delete_envs cutoff db = (
  ok (length (select (prunable cutoff) db.envs)),
  record db { envs = select (λ row. not (prunable cutoff row)) db.envs },
)

module _ (faults : Faults) where
  unfoldable pub insert_env : Env → Sql (Unit {0})
  insert_env env = statement faults (insert_row (env_to_row env))

  unfoldable pub get_env : Text → Sql (Option Env)
  get_env guid = statement faults (λ db. (optional_env (find (has_guid guid) db.envs), db))

  unfoldable pub list_by_owner : Text → Sql (List Env)
  list_by_owner owner =
      statement faults
        (λ db. (collect_envs (newest_first (select (λ row. text_eq row.owner owner) db.envs)), db))

  unfoldable pub list_by_status : EnvStatus → Sql (List Env)
  list_by_status status = statement faults (λ db. (
    collect_envs (newest_first (select (λ row. text_eq row.status (status_as_str status)) db.envs)),
    db,
  ))

  unfoldable pub set_status : Text → EnvStatus → Sql (Unit {0})
  set_status guid status =
      statement faults
        (update_or_missing guid (λ row. record row { status = status_as_str status }))

  unfoldable pub mark_reaped : Text → Sql (Unit {0})
  mark_reaped guid = set_status guid reaped

  unfoldable pub mark_vanished : Text → Sql (Unit {0})
  mark_vanished guid = set_status guid vanished

  -- `SELECT created_at FROM envs WHERE guid = ?1`
  unfoldable pub read_created_at : Text → Sql ℤ
  read_created_at guid = statement faults (λ db. elim (find (has_guid guid) db.envs) [
    | none ↦ (err (unknown_guid guid), db)
    | some row ↦ (ok row.created_at, db)
  ])

  -- The second statement of `set_ttl_deadline`.
  unfoldable pub write_deadline : Text → ℤ → ℤ → ℤ → Sql ℤ
  write_deadline guid ttl_deadline max_ttl_secs created_at = do
    let clamped = clamped_deadline ttl_deadline max_ttl_secs created_at
    statement faults (update_or_missing guid (λ row. record row { ttl_deadline = clamped }))
    pure clamped

  unfoldable pub set_ttl_deadline : Text → ℤ → ℤ → Sql ℤ
  unfolding write_deadline
  set_ttl_deadline guid ttl_deadline max_ttl_secs = do
    created_at ← read_created_at guid
    write_deadline guid ttl_deadline max_ttl_secs created_at

  unfoldable pub set_mac : Text → Text → Sql (Unit {0})
  set_mac guid mac = statement faults (update_or_missing guid (λ row. record row { mac = mac }))

  unfoldable pub set_provision_signals : Text → Text → List Text → Option ℕ → Sql (Unit {0})
  set_provision_signals guid mac fps vmid = statement faults (
      update_or_missing guid
        (λ row. record row { mac = mac; ssh_host_key_fps = join_fps fps; vmid = vmid }))

  unfoldable pub prune_terminal : ℤ → ℤ → Sql ℕ
  unfolding delete_states delete_envs
  prune_terminal now_unix retention_secs =
      let cutoff = sub_i64 now_unix retention_secs in
      transaction faults
        (do statement faults (delete_states cutoff); statement faults (delete_envs cutoff))

  unfoldable pub put_notify_state : NotifyState → Sql (Unit {0})
  put_notify_state s =
      statement faults (λ db. (ok tt, record db { notify_state = upsert s db.notify_state }))

  unfoldable pub get_notify_state : Text → Sql (Option NotifyState)
  get_notify_state key = statement faults (λ db. (ok (find (same_key key) db.notify_state), db))

  unfoldable pub write_heartbeat : ℤ → Sql (Unit {0})
  write_heartbeat now_unix =
      statement faults (λ db. (ok tt, record db { heartbeat = some now_unix }))

  unfoldable pub read_heartbeat : Sql (Option ℤ)
  read_heartbeat = statement faults (λ db. (ok db.heartbeat, db))
