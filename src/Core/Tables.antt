-- ===== src/Core/Tables.antt =====
-- The tables of the database in each version of the schema that crates/core/src/store.rs has had, and
-- what each of its data definition statements does to them. A table has the rows of one of its
-- versions.
use seadog.Prelude.{Bool, ℕ, suc, ◌++◌, Option, none, some, List, [], map, ok, err, Text, lit}
use seadog.Prelude.Int.{ℤ}
use seadog.Core.Errors.{Error}
use seadog.Core.Models.{NotifyState}
use seadog.Core.Action.{Action}
use seadog.Core.Sql.{EnvRow}

-- A row of the baseline's `envs`.
pub record EnvRow1 : Type 0 where
  pub guid : Text
  pub vmid : ℕ
  pub mode : Text
  pub owner : Text
  pub image : Text
  pub name : Text
  pub ip : Text
  pub mac : Text
  pub created_at : ℤ
  pub ttl_deadline : ℤ
  pub soft_deadline : ℤ
  pub status : Text

-- A row of the baseline's `notify_state`.
pub record NotifyRow1 : Type 0 where
  pub guid : Text
  pub last_severity : Text
  pub last_emitted_at : ℤ
  pub acked : Bool

pub data EnvsTable : Type 0 where
  envs_1 : List EnvRow1 → EnvsTable
  envs_2 : List EnvRow → EnvsTable

pub data NotifyTable : Type 0 where
  notify_1 : List NotifyRow1 → NotifyTable
  notify_2 : List NotifyState → NotifyTable

-- A table that is not there is `none`.
pub record File : Type 0 where
  pub envs : Option EnvsTable
  pub notify_state : Option NotifyTable
  pub heartbeat : Option (Option ℤ)
  pub user_version : ℤ
  pub statements : ℕ

abbrev pub Ddl : Type 0
Ddl = Action File (Unit {0})

abbrev pub count_statement : File → File
count_statement f = record f { statements = suc f.statements }

-- The select of `m2_vmid_nullable_add_fps`.
abbrev pub row_2 : EnvRow1 → EnvRow
row_2 row = record {
  guid = row.guid;
  vmid = some row.vmid;
  mode = row.mode;
  owner = row.owner;
  image = row.image;
  name = row.name;
  ip = row.ip;
  mac = row.mac;
  ssh_host_key_fps = [];
  created_at = row.created_at;
  ttl_deadline = row.ttl_deadline;
  soft_deadline = row.soft_deadline;
  status = row.status;
}

-- A row with the columns that `m3_notify_ack_audit` adds.
abbrev pub state_2 : NotifyRow1 → NotifyState
state_2 row = record {
  guid = row.guid;
  last_severity = row.last_severity;
  last_emitted_at = row.last_emitted_at;
  acked = row.acked;
  acked_by = none;
  acked_at = none;
}

abbrev pub no_table : Text → Error
no_table name = Error.sqlite (lit "no such table: " ++ name)

abbrev pub without_fps : EnvRow → EnvRow
without_fps row = record row { ssh_host_key_fps = [] }

abbrev pub rebuilt : EnvsTable → List EnvRow
rebuilt (envs_1 rows) = map row_2 rows
rebuilt (envs_2 rows) = map without_fps rows

-- The rebuild of `envs`, from whatever columns it has.
abbrev pub rebuild : Ddl
rebuild f = elim f.envs [
  | none ↦ (err (no_table (lit "envs")), f)
  | some table ↦ (ok tt, record f { envs = some (envs_2 (rebuilt table)) })
]

-- `ADD COLUMN` fails if the column is there.
abbrev pub add_columns : Ddl
add_columns f = elim f.notify_state [
  | none ↦ (err (no_table (lit "notify_state")), f)
  | some table ↦ elim table [
    | notify_1 rows ↦ (ok tt, record f { notify_state = some (notify_2 (map state_2 rows)) })
    | notify_2 rows ↦ (err (Error.sqlite (lit "duplicate column name: acked_by")), f)
  ]
]

-- `CREATE TABLE IF NOT EXISTS`
abbrev pub create_envs : Ddl
create_envs f = elim f.envs [
  | none ↦ (ok tt, record f { envs = some (envs_1 []) })
  | some table ↦ (ok tt, f)
]

abbrev pub create_notify_state : Ddl
create_notify_state f = elim f.notify_state [
  | none ↦ (ok tt, record f { notify_state = some (notify_1 []) })
  | some table ↦ (ok tt, f)
]

abbrev pub create_heartbeat : Ddl
create_heartbeat f = elim f.heartbeat [
  | none ↦ (ok tt, record f { heartbeat = some none })
  | some table ↦ (ok tt, f)
]

abbrev pub set_user_version : ℤ → Ddl
set_user_version v f = (ok tt, record f { user_version = v })
