-- ===== src/Core/Store/Lookup.antt =====
-- What `get_env` of crates/core/src/store.rs reads.
use seadog.Prelude.{
  ◌≡◌, ◌∙◌, refl, subst, Option, Option-cases, All-Mem, none, some, ok, find, find-All, Text,
  text_eq_iff, Result-cases, inl, inr, arith,
}
use seadog.Core.Models.{Mode, EnvStatus, Env, mode_from_str_opt, status_from_str_opt}
use seadog.Core.Post.{Post, answered, statement-Post}
use seadog.Core.Sql.{EnvRow, Db, Faults, tick}
use seadog.Core.Rows.{has_guid, optional_env, row_to_env, decoded}
use seadog.Core.Store.{get_env}

-- The first row with that guid decodes to that env.
abbrev pub Recorded : Text → Db → Env → Type 0
Recorded guid db env = optional_env (find (has_guid guid) db.envs) ≡ ok (some env)

decoded_row :
    (o : Option EnvRow) (env : Env)
    → optional_env o ≡ ok (some env)
    → (row : EnvRow) × (o ≡ some row) × (row_to_env row ≡ ok env)
unfolding optional_env
decoded_row none env h = cc
decoded_row (some row) env h = elim (Result-cases (row_to_env row)) [
  | inl (e, good) ↦ (row, refl, ground arith)
  | inr (e, bad) ↦ ground arith
]

-- What `row_to_env` copies.
pub record Copied (row : EnvRow) (env : Env) : Type 0 where
  pub same_guid : env.guid ≡ row.guid
  pub same_owner : env.owner ≡ row.owner
  pub same_name : env.name ≡ row.name
  pub same_created_at : env.created_at ≡ row.created_at
  pub same_deadline : env.ttl_deadline ≡ row.ttl_deadline

row_to_env-decoded :
    (row : EnvRow) (env : Env)
    → row_to_env row ≡ ok env
    → (mode : Mode) × (status : EnvStatus) × (decoded row mode status ≡ env)
unfolding row_to_env
row_to_env-decoded row env h = elim (Option-cases (mode_from_str_opt row.mode)) [
  | inl no_mode ↦ ground arith
  | inr (mode, has_mode) ↦ elim (Option-cases (status_from_str_opt row.status)) [
    | inl no_status ↦ ground arith
    | inr (status, has_status) ↦ (mode, status, ground arith)
  ]
]

row_to_env-Copied : (row : EnvRow) (env : Env) → row_to_env row ≡ ok env → Copied row env
unfolding decoded
row_to_env-Copied row env h =
    let (mode, status, same) = row_to_env-decoded row env h in
    subst (Copied row) same (record {
      same_guid = refl;
      same_owner = refl;
      same_name = refl;
      same_created_at = refl;
      same_deadline = refl;
    })

-- A recorded env is copied from the first row of its guid.
pub Recorded-Copied :
    (guid : Text) (db : Db) (env : Env)
    → Recorded guid db env
    → (row : EnvRow) × (find (has_guid guid) db.envs ≡ some row)
      × (env.guid ≡ guid)
      × Copied row env
Recorded-Copied guid db env h =
    let (row, found, decodes) = decoded_row (find (has_guid guid) db.envs) env h in
    let copied = row_to_env-Copied row env decodes in
    (
      row,
      found,
      copied.same_guid
          ∙ (text_eq_iff row.guid guid).0
              (find-All (λ (r : EnvRow). Unit {0}) (has_guid guid) db.envs row
                (All-Mem db.envs (λ r m. tt)) found).1,
      copied,
    )

module _ (faults : Faults) (guid : Text) (db : Db) where
  abbrev Looked : Option Env → Db → Type 0
  Looked found d = (d ≡ tick db) × (optional_env (find (has_guid guid) db.envs) ≡ ok found)

  -- `get_env` changes no table, and answers what the table holds.
  pub get_env-Post : Post Looked (λ e d. d ≡ tick db) (get_env faults guid db)
  unfolding get_env
  get_env-Post =
      statement-Post Looked (λ e d. d ≡ tick db) faults _ db (λ e. refl)
        (answered (optional_env (find (has_guid guid) db.envs)) (tick db))
