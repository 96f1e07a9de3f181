-- ===== src/Core/Schema/Stages.antt =====
-- The stages that a file of an earlier release of crates/core/src/store.rs goes through, and what one
-- statement, or one migration, makes of a file at such a stage.
use seadog.Prelude.{
  ℕ, zero, ◌≡◌, refl, Option, none, some, List, [], map, Text, inl, inr, Option-cases, arith, ok,
  err,
}
use seadog.Prelude.Int.{ℤ}
use seadog.Core.Errors.{Error, Fallible}
use seadog.Core.Models.{NotifyState}
use seadog.Core.Action.{Acting, ◌>>=◌, pure}
use seadog.Core.Post.{Post, bind-Post}
use seadog.Core.Sql.{EnvRow, Faults}
use seadog.Core.Schema.{ddl, committed}
use seadog.Core.Tables.{
  EnvsTable, envs_1, envs_2, NotifyTable, notify_1, notify_2, File, Ddl, count_statement, row_2,
  state_2, rebuild, add_columns, create_envs, create_notify_state, create_heartbeat,
  set_user_version,
}

-- The rows of a table as the current schema has them.
abbrev pub envs_rows : Option EnvsTable → List EnvRow
envs_rows none = []
envs_rows (some (envs_1 rows)) = map row_2 rows
envs_rows (some (envs_2 rows)) = rows

abbrev pub notify_rows : Option NotifyTable → List NotifyState
notify_rows none = []
notify_rows (some (notify_1 rows)) = map state_2 rows
notify_rows (some (notify_2 rows)) = rows

abbrev pub swept_at : Option (Option ℤ) → Option ℤ
swept_at none = none
swept_at (some at) = at

-- The version of a table's columns, 0 if it is not there.
abbrev pub envs_version : Option EnvsTable → ℕ
envs_version none = 0
envs_version (some (envs_1 rows)) = 1
envs_version (some (envs_2 rows)) = 2

abbrev pub notify_version : Option NotifyTable → ℕ
notify_version none = 0
notify_version (some (notify_1 rows)) = 1
notify_version (some (notify_2 rows)) = 2

abbrev pub at_least_1 : ℕ → ℕ
at_least_1 zero = 1
at_least_1 n = n

-- The same rows in both files, whatever the versions of their tables.
abbrev pub SameRows : File → File → Type 0
SameRows f g =
    (envs_rows g.envs ≡ envs_rows f.envs)
    × (notify_rows g.notify_state ≡ notify_rows f.notify_state)
    × (swept_at g.heartbeat ≡ swept_at f.heartbeat)

-- The file's version, and those of its two tables.
abbrev pub IsAt : ℤ → ℕ → ℕ → File → Type 0
IsAt v a b f =
    (f.user_version ≡ v) × (envs_version f.envs ≡ a) × (notify_version f.notify_state ≡ b)

-- The error of a statement that failed.
abbrev pub IsFault : Faults → Error → Type 0
IsFault faults e = (n : ℕ) × (x : Text) × (faults n ≡ some x) × (e ≡ Error.sqlite x)

module _ (faults : Faults) (start : File) where
  abbrev pub Staged : ℤ → ℕ → ℕ → File → Type 0
  Staged v a b g = SameRows start g × IsAt v a b g

  abbrev pub Broken : Error → File → Type 0
  Broken e g = IsFault faults e × SameRows start g

  abbrev pub Steps :
      {A : Type 0} → (File → Type 0) → (A → File → Type 0) → Acting Error File A → Type 0
  Steps P Q m = (g : File) → P g → Post Q Broken (m g)

  pub Steps-bind :
      {A B : Type 0} (P : File → Type 0) (Q : A → File → Type 0) (R : B → File → Type 0)
      (m : Acting Error File A) (f : A → Acting Error File B)
      → Steps P Q m
      → ((x : A) → Steps (Q x) R (f x))
      → Steps P R (m >>= f)
  Steps-bind P Q R m f h k g p = bind-Post Q R Broken m f g (h g p) k

  module _ (v : ℤ) (a b : ℕ) (v' : ℤ) (a' b' : ℕ) where
    pub ddl-Steps :
        (body : Ddl)
        → Steps (Staged v a b) (λ u. Staged v' a' b') body
        → Steps (Staged v a b) (λ u. Staged v' a' b') (ddl faults body)
    unfolding ddl
    ddl-Steps body h g p = elim (Option-cases (faults g.statements)) [
      | inl runs ↦ rw (ddl, runs) (h (count_statement g) p)
      | inr (x, fails) ↦ rw (ddl, fails) ((g.statements, x, fails, refl), p.0)
    ]

    pub committed-Post :
        (before : File) (r : Fallible (Unit {0}) × File)
        → SameRows start before
        → Post (λ u. Staged v' a' b') Broken r
        → Post (λ u. Staged v' a' b') Broken (committed faults before r)
    unfolding committed
    committed-Post before (err e, after) same broken = (broken.0, same)
    committed-Post before (ok u, after) same done = elim (Option-cases (faults after.statements)) [
      | inl runs ↦ rw (committed, runs) done
      | inr (x, fails) ↦ rw (committed, fails) ((after.statements, x, fails, refl), same)
    ]

  pub ddl_same-Steps :
      (v : ℤ) (a b : ℕ) → Steps (Staged v a b) (λ u. Staged v a b) (ddl faults (pure tt))
  ddl_same-Steps v a b = ddl-Steps v a b v a b (pure tt) (λ g p. p)

  pub create_envs-Steps :
      (v : ℤ) (a b : ℕ)
      → Steps (Staged v a b) (λ u. Staged v (at_least_1 a) b) (ddl faults create_envs)
  create_envs-Steps v a b = ddl-Steps v a b v (at_least_1 a) b create_envs λ g p. ground arith

  pub create_notify_state-Steps :
      (v : ℤ) (a b : ℕ)
      → Steps (Staged v a b) (λ u. Staged v a (at_least_1 b)) (ddl faults create_notify_state)
  create_notify_state-Steps v a b =
      ddl-Steps v a b v a (at_least_1 b) create_notify_state λ g p. ground arith

  pub create_heartbeat-Steps :
      (v : ℤ) (a b : ℕ) → Steps (Staged v a b) (λ u. Staged v a b) (ddl faults create_heartbeat)
  create_heartbeat-Steps v a b = ddl-Steps v a b v a b create_heartbeat λ g p. ground arith

  pub set_user_version-Steps :
      (v w : ℤ) (a b : ℕ)
      → Steps (Staged v a b) (λ u. Staged w a b) (ddl faults (set_user_version w))
  set_user_version-Steps v w a b =
      ddl-Steps v a b w a b (set_user_version w) λ g p. (p.0, (refl, p.1.1, p.1.2))

  pub rebuild-Steps :
      (v : ℤ) (b : ℕ) → Steps (Staged v 1 b) (λ u. Staged v 2 b) (ddl faults rebuild)
  rebuild-Steps v b = ddl-Steps v 1 b v 2 b rebuild λ g p. ground arith

  pub add_columns-Steps :
      (v : ℤ) (a : ℕ) → Steps (Staged v a 1) (λ u. Staged v a 2) (ddl faults add_columns)
  add_columns-Steps v a = ddl-Steps v a 1 v a 2 add_columns λ g p. ground arith
