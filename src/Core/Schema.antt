-- ===== src/Core/Schema.antt =====
-- The engine of the schema's migrations: `init` and `run_migrations` of crates/core/src/store.rs, on
-- the file of Tables.antt. An index holds no data, but its statement can fail. Which statements fail
-- is given, as in Sql; the batch of a migration, all of it in one transaction, counts as one.
pub mod Stages
pub mod Upgrade
use seadog.Prelude.{
  decimal_ℤ, Bool, ℕ, zero, suc, ◌++◌, ◌||◌, not, ◌&&◌, Option, none, some, List, [], ◌∷◌, map,
  Result, ok, err, if◌then◌else◌, Text, lit, text_eq, to_ascii_lowercase, decimal,
}
use seadog.Prelude.Int.{ℤ, pos, negsuc, leb_ℤ}
use seadog.Core.Errors.{Error, Fallible}
use seadog.Core.Models.{NotifyState}
use seadog.Core.Action.{Action, pure, raise, lift, raise_if, ◌>>=◌, ◌>>◌}
use seadog.Core.Sql.{EnvRow, Faults}
use seadog.Core.Tables.{
  EnvRow1, NotifyRow1, EnvsTable, envs_1, envs_2, NotifyTable, notify_1, notify_2, File, Ddl,
  count_statement, row_2, state_2, no_table, without_fps, rebuilt, rebuild, add_columns,
  create_envs, create_notify_state, create_heartbeat, set_user_version,
}

-- `struct Migration`
pub record Migration : Type 0 where
  pub version : ℤ
  pub up : Ddl

abbrev pub baseline_version : ℤ
baseline_version = pos 1

abbrev pub not_ascending : ℤ → Migration → Error
not_ascending prev m = Error.store (
    lit "migration registry not strictly ascending above baseline "
    ++ (decimal_ℤ baseline_version
        ++ (lit ": version " ++ (decimal_ℤ m.version ++ (lit " follows " ++ decimal_ℤ prev)))))

abbrev pub m2_vmid_nullable_add_fps : Migration
m2_vmid_nullable_add_fps = record { version = pos 2; up = rebuild }

abbrev pub m3_notify_ack_audit : Migration
m3_notify_ack_audit = record { version = pos 3; up = add_columns }

-- `MIGRATIONS`
abbrev pub registry : List Migration
registry = m2_vmid_nullable_add_fps ∷ m3_notify_ack_audit ∷ []

-- The guard of the registry.
unfoldable pub check_ascending : ℤ → List Migration → Fallible (Unit {0})
check_ascending prev [] = ok tt
check_ascending prev (m ∷ migrations) =
    let rest = check_ascending m.version migrations in
    if leb_ℤ m.version prev then err (not_ascending prev m) else rest

module _ (faults : Faults) where
  unfoldable pub ddl : Ddl → Ddl
  ddl body f = elim (faults f.statements) [
    | some e ↦ (err (Error.sqlite e), count_statement f)
    | none ↦ body (count_statement f)
  ]

  -- `BEGIN`, the migration, `COMMIT`; the file as it was if one of them fails.
  unfoldable pub committed : File → Fallible (Unit {0}) × File → Fallible (Unit {0}) × File
  committed before (err e, after) = (err e, record before { statements = after.statements })
  committed before (ok u, after) = elim (faults after.statements) [
    | some e ↦ (err (Error.sqlite e), record before { statements = suc after.statements })
    | none ↦ (ok tt, count_statement after)
  ]

  unfoldable pub in_migration : Ddl → Ddl
  unfolding committed ddl
  in_migration up = ddl (λ f. committed f (ddl up f))

  -- One migration, and its stamp once it is committed.
  unfoldable pub migrate_one : Migration → Ddl
  unfolding in_migration ddl
  migrate_one m = in_migration m.up >> ddl (set_user_version m.version)

  unfoldable pub apply_migrations : ℤ → List Migration → Ddl
  unfolding migrate_one
  apply_migrations current [] = pure tt
  apply_migrations current (m ∷ migrations) =
      let skipped = apply_migrations current migrations in
      let applied = apply_migrations m.version migrations in
      if leb_ℤ m.version current then skipped else migrate_one m >> applied

  -- The three indexes of `envs`.
  unfoldable pub create_indexes : Ddl
  unfolding ddl
  create_indexes = ddl (pure tt) >> (ddl (pure tt) >> ddl (pure tt))

  unfoldable pub create_baseline : Ddl
  unfolding ddl create_indexes
  create_baseline =
      ddl create_envs >> (create_indexes >> (ddl create_notify_state >> ddl create_heartbeat))

  -- The version to go on from: a file that reads 0 is stamped.
  unfoldable pub stamp_baseline : ℤ → Action File ℤ
  unfolding ddl
  stamp_baseline (pos zero) = ddl (set_user_version baseline_version) >> pure baseline_version
  stamp_baseline v = pure v

  unfoldable pub read_user_version : Action File ℤ
  read_user_version f = elim (faults f.statements) [
    | some e ↦ (err (Error.sqlite e), count_statement f)
    | none ↦ (ok f.user_version, count_statement f)
  ]

  -- From the version that was read on: the stamp, the guard, and what is not applied yet.
  unfoldable pub upgrade_from : List Migration → ℤ → Ddl
  unfolding stamp_baseline apply_migrations check_ascending
  upgrade_from migrations version = do
    current ← stamp_baseline version
    lift (check_ascending baseline_version migrations)
    apply_migrations current migrations

  unfoldable pub run_migrations : List Migration → Ddl
  unfolding create_baseline read_user_version upgrade_from
  run_migrations migrations = create_baseline >> (read_user_version >>= upgrade_from migrations)

  unfoldable pub migrate : Ddl
  unfolding run_migrations
  migrate = run_migrations registry

  -- `PRAGMA journal_mode = WAL` answers the mode that is set.
  abbrev pub is_wal : Text → Bool
  is_wal mode =
      text_eq (map to_ascii_lowercase mode) (lit "wal")
      || text_eq (map to_ascii_lowercase mode) (lit "memory")

  unfoldable pub init : Fallible Text → Ddl
  unfolding migrate
  init journal_mode = do
    mode ← lift journal_mode
    raise_if (not (is_wal mode))
        (Error.store (lit "failed to enable WAL (journal_mode = " ++ (mode ++ lit ")")))
    ddl (pure tt)
    ddl (pure tt)
    migrate
