-- ===== src/Core/Store/Prune.antt =====
-- What `prune_terminal` of crates/core/src/store.rs removes.
use seadog.Prelude.{
  suc, true, ◌↔◌, ◌⊎◌, lit, text_eq, text_eq_iff, ℕ, ◌≡◌, refl, subst, not, List, [], ◌∷◌, select,
  length, inl, inr, arith, Bool-cases,
}
use seadog.Prelude.Int.{ℤ, sub_i64, ◌<ℤ◌}
use seadog.Core.Errors.{Error}
use seadog.Core.Action.{◌>>◌}
use seadog.Core.Post.{Post, bind-Post, statement-Post, transaction-Post}
use seadog.Core.Sql.{EnvRow, Db, Faults, tick, statement}
use seadog.Core.Rows.{prunable}
use seadog.Core.Store.{delete_states, delete_envs, prune_terminal}

-- A row in a terminal status that was made before the cutoff.
abbrev pub IsOld : ℤ → EnvRow → Type 0
IsOld cutoff row =
    ((row.status ≡ lit "reaped") ⊎ (row.status ≡ lit "vanished")) × (row.created_at <ℤ cutoff)

pub prunable-IsOld : (cutoff : ℤ) (row : EnvRow) → (prunable cutoff row ≡ true) ↔ IsOld cutoff row
prunable-IsOld cutoff row = (
  λ h. (
    elim (Bool-cases (text_eq row.status (lit "reaped"))) [
      | inl hit ↦ inl ((text_eq_iff row.status (lit "reaped")).0 hit)
      | inr miss ↦ inr ((text_eq_iff row.status (lit "vanished")).0 (ground (arith, h, miss)))
    ],
    ground (arith, h),
  ),
  λ (status, before). terminal status before,
)
  where
    terminal :
        (row.status ≡ lit "reaped") ⊎ (row.status ≡ lit "vanished")
        → row.created_at <ℤ cutoff
        → prunable cutoff row ≡ true
    terminal (inl e) before =
        let hit = (text_eq_iff row.status (lit "reaped")).1 e in ground (arith, hit, before)
    terminal (inr e) before =
        let hit = (text_eq_iff row.status (lit "vanished")).1 e in ground (arith, hit, before)

-- The old rows, `n` of them, are gone, and all others are left in their order.
pub data Pruned (cutoff : ℤ) : ℕ → List EnvRow → List EnvRow → Type 0 where
  no_rows : Pruned cutoff 0 [] []
  drops :
      {n : ℕ} {row : EnvRow} {rows rest : List EnvRow}
      → IsOld cutoff row
      → Pruned cutoff n rows rest
      → Pruned cutoff (suc n) (row ∷ rows) rest
  keeps :
      {n : ℕ} {row : EnvRow} {rows rest : List EnvRow}
      → ¬ IsOld cutoff row
      → Pruned cutoff n rows rest
      → Pruned cutoff n (row ∷ rows) (row ∷ rest)

select-Pruned :
    (cutoff : ℤ) (rows : List EnvRow)
    → Pruned cutoff
        (length (select (prunable cutoff) rows))
        rows
        (select (λ row. not (prunable cutoff row)) rows)
select-Pruned cutoff [] = no_rows
select-Pruned cutoff (row ∷ rows) = elim (Bool-cases (prunable cutoff row)) [
  | inl old ↦ rw old (drops ((prunable-IsOld cutoff row).0 old) (select-Pruned cutoff rows))
  | inr young ↦ rw young (
      keeps (λ old. ground (arith, young, (prunable-IsOld cutoff row).1 old))
        (select-Pruned cutoff rows))
]

module _ (faults : Faults) (cutoff : ℤ) (db : Db) where
  abbrev Ignored : Error → Db → Type 0
  Ignored e d = Unit

  abbrev SameRows : Db → Type 0
  SameRows d = d.envs ≡ db.envs

  deletions-Pruned :
      Post
        (λ n d. Pruned cutoff n db.envs d.envs)
        Ignored
        ((statement faults (delete_states cutoff) >> statement faults (delete_envs cutoff))
          (tick db))
  unfolding delete_states delete_envs
  deletions-Pruned =
      bind-Post (λ u. SameRows) (λ n d. Pruned cutoff n db.envs d.envs) Ignored
        (statement faults (delete_states cutoff)) (λ u. statement faults (delete_envs cutoff))
        (tick db)
        (statement-Post (λ u. SameRows) Ignored faults (delete_states cutoff) (tick db) (λ e. tt)
          refl)
        (λ u d same.
          statement-Post (λ n d'. Pruned cutoff n db.envs d'.envs) Ignored faults
            (delete_envs cutoff) d (λ e. tt)
            (subst
              (λ (rows : List EnvRow).
                Pruned cutoff (length (select (prunable cutoff) d.envs)) rows
                  (select (λ row. not (prunable cutoff row)) d.envs))
              same (select-Pruned cutoff d.envs)))

-- `prune_terminal` removes the rows that are reaped or vanished and were made before the cutoff, all of
-- them and no other, returns how many they were, and leaves the others in their order; or it fails, at
-- whichever statement, and leaves the rows and the notify states alone.
pub prune_terminal-Pruned :
    (faults : Faults) (now_unix retention_secs : ℤ) (db : Db)
    → Post
        (λ n d. Pruned (sub_i64 now_unix retention_secs) n db.envs d.envs)
        (λ e d. (d.envs ≡ db.envs) × (d.notify_state ≡ db.notify_state))
        (prune_terminal faults now_unix retention_secs db)
unfolding prune_terminal
prune_terminal-Pruned faults now_unix retention_secs db =
    let cutoff : ℤ = sub_i64 now_unix retention_secs in
    transaction-Post _ _ faults (λ n (d : Db). Pruned cutoff n db.envs d.envs)
      (statement faults (delete_states cutoff) >> statement faults (delete_envs cutoff)) db
      (λ e after. (refl, refl)) (deletions-Pruned faults cutoff db) (λ n after h. h)
