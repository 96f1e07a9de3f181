-- ===== src/Core/Sql.antt =====
-- The database that crates/core/src/store.rs keeps: the three tables of its schema, with the
-- columns as they are stored, and what one SQL statement or transaction does to them. SQLite is not
-- part of the repository: which statements fail (a lock that is not freed in time, a full disk) is
-- the parameter `faults`, by the number of statements run before.
use seadog.Prelude.{
  ℕ, suc, Option, none, some, List, ok, err, Text, ◌≡◌, refl, ◌⊎◌, inl, inr, arith, Option-cases,
}
use seadog.Prelude.Int.{ℤ}
use seadog.Core.Errors.{Error, Fallible}
use seadog.Core.Models.{NotifyState}
use seadog.Core.Action.{Action}

-- A row of `envs`.
pub record EnvRow : Type 0 where
  pub guid : Text
  pub vmid : Option ℕ
  pub mode : Text
  pub owner : Text
  pub image : Text
  pub name : Text
  pub ip : Text
  pub mac : Text
  pub ssh_host_key_fps : Text
  pub created_at : ℤ
  pub ttl_deadline : ℤ
  pub soft_deadline : ℤ
  pub status : Text

-- `statements` counts the statements run so far.
pub record Db : Type 0 where
  pub envs : List EnvRow
  pub notify_state : List NotifyState
  pub heartbeat : Option ℤ
  pub statements : ℕ

abbrev pub Faults : Type 0
Faults = ℕ → Option Text

abbrev pub Sql : Type 0 → Type 0
Sql A = Action Db A

abbrev pub tick : Db → Db
tick db = record db { statements = suc db.statements }

-- The three tables are those of another state.
abbrev pub SameTables : Db → Db → Type 0
SameTables db db' =
    (db'.envs ≡ db.envs) × (db'.notify_state ≡ db.notify_state) × (db'.heartbeat ≡ db.heartbeat)

-- The tables as they were before, once a transaction is dropped.
abbrev pub rollback : Db → Db → Db
rollback before after = record before { statements = after.statements }

module _ (faults : Faults) where
  unfoldable pub statement : {A : Type 0} → Sql A → Sql A
  statement body db = elim (faults db.statements) [
    | some e ↦ (err (Error.sqlite e), tick db)
    | none ↦ body (tick db)
  ]

  -- `COMMIT` after the body's work, on the state before and the one to be kept.
  unfoldable pub commit : {A : Type 0} → Db → A → Sql A
  commit before a after = elim (faults after.statements) [
    | some e ↦ (err (Error.sqlite e), rollback before (tick after))
    | none ↦ (ok a, tick after)
  ]

  unfoldable pub in_transaction : {A : Type 0} → Sql A → Sql A
  unfolding commit
  in_transaction body before =
      let (r, after) = body before in
      elim r [ ok a ↦ commit before a after | err e ↦ (err e, rollback before after) ]

  -- `BEGIN`, the body, `COMMIT`; an error in any of them rolls the tables back.
  unfoldable pub transaction : {A : Type 0} → Sql A → Sql A
  unfolding statement in_transaction
  transaction body = statement (in_transaction body)

module _ (faults : Faults) where
  -- A statement fails and leaves the tables alone, or runs.
  pub statement-cases :
      {A : Type 0} (body : Sql A) (db : Db)
      → ((e : Text) × (statement faults body db ≡ (err (Error.sqlite e), tick db)))
        ⊎ (statement faults body db ≡ body (tick db))
  unfolding statement
  statement-cases body db = elim (Option-cases (faults db.statements)) [
    | inl runs ↦ inr (ground arith)
    | inr (e, fails) ↦ inl (e, ground arith)
  ]

  in_transaction-cases :
      {A : Type 0} (r : Fallible A × Db) (body : Sql A) (before : Db)
      → body before ≡ r
      → ((e : Error) × (after : Db) × (in_transaction faults body before
            ≡ (err e, rollback before after)))
        ⊎ ((a : A) × (after : Db) × (body before ≡ (ok a, after))
            × (in_transaction faults body before ≡ (ok a, tick after)))
  unfolding in_transaction
  in_transaction-cases (ok a, after) body before ran =
      elim (Option-cases (faults after.statements)) [
        | inl kept ↦ inr (a, after, ran, ground arith)
        | inr (e, fails) ↦ inl (Error.sqlite e, tick after, ground arith)
      ]
  in_transaction-cases (err e, after) body before ran = inl (e, after, ground arith)

  -- A transaction fails and leaves the tables alone, or its body ran and what it wrote is kept.
  pub transaction-cases :
      {A : Type 0} (body : Sql A) (db : Db)
      → ((e : Error) × (after : Db) × (transaction faults body db
            ≡ (err e, rollback (tick db) after)))
        ⊎ ((a : A) × (after : Db) × (body (tick db) ≡ (ok a, after))
            × (transaction faults body db ≡ (ok a, tick after)))
  unfolding transaction
  transaction-cases body db = elim (Option-cases (faults db.statements)) [
    | inr (e, fails) ↦ inl (Error.sqlite e, tick db, ground arith)
    | inl begun ↦ elim (in_transaction-cases (body (tick db)) body (tick db) refl) [
      | inl (e, after, failed) ↦ inl (e, after, ground arith)
      | inr (a, after, ran, done) ↦ inr (a, after, ran, ground arith)
    ]
  ]
