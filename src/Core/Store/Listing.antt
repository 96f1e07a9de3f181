-- ===== src/Core/Store/Listing.antt =====
-- How many envs the listings of crates/core/src/store.rs return.
use seadog.Prelude.{
  ℕ, suc, ◌≡◌, refl, ◌∙◌, List, [], ◌∷◌, Bool, false, ok, err, length, select, arith, ap, All,
  text_eq, Text,
}
use seadog.Core.Errors.{Fallible}
use seadog.Core.Models.{Env, EnvStatus, status_as_str}
use seadog.Core.Post.{Post, Post-map, answered, statement-Post}
use seadog.Core.Sql.{EnvRow, Db, Faults, tick}
use seadog.Core.Rows.{row_to_env, collect_envs, insert_newest, newest_first}
use seadog.Core.Store.{list_by_owner, list_by_status}

insert_newest-length :
    (row : EnvRow) (rows : List EnvRow) → length (insert_newest row rows) ≡ suc (length rows)
unfolding insert_newest
insert_newest-length row [] = refl
insert_newest-length row (r ∷ rows) = ground (arith, insert_newest-length row rows)

newest_first-length : (rows : List EnvRow) → length (newest_first rows) ≡ length rows
unfolding newest_first
newest_first-length [] = refl
newest_first-length (row ∷ rows) =
    insert_newest-length row (newest_first rows) ∙ ap suc (newest_first-length rows)

collected :
    (r : Fallible Env) (rest : Fallible (List Env)) (n : ℕ) (envs : List Env)
    → ((es : List Env) → rest ≡ ok es → length es ≡ n)
    → elim r [ err e ↦ err e | ok env ↦ elim rest [ err e ↦ err e | ok es ↦ ok (env ∷ es) ] ]
      ≡ ok envs
    → length envs ≡ suc n
collected (err e) rest n envs counts h = ground arith
collected (ok env) (err e) n envs counts h = ground arith
collected (ok env) (ok es) n envs counts h = ground (arith, counts es refl)

collect_envs-length :
    (rows : List EnvRow) (envs : List Env) → collect_envs rows ≡ ok envs → length envs ≡ length rows
unfolding collect_envs
collect_envs-length [] envs h = ground arith
collect_envs-length (row ∷ rows) envs h =
    collected (row_to_env row) (collect_envs rows) (length rows) envs (collect_envs-length rows) h

-- No row passes the test.
pub select-none :
    {A : Type 0} (p : A → Bool) (xs : List A) → length (select p xs) ≡ 0 → All (λ x. p x ≡ false) xs
select-none p [] h = tt
select-none p (x ∷ xs) h = ground (arith, select-none p xs)

abbrev pub has_status : EnvStatus → EnvRow → Bool
has_status status row = text_eq row.status (status_as_str status)

-- The listing changes nothing, and returns as many envs as there are rows of that status.
pub list_by_status-Post :
    (faults : Faults) (status : EnvStatus) (db : Db)
    → Post
        (λ envs d. (d ≡ tick db) × (length envs ≡ length (select (has_status status) d.envs)))
        (λ e d. d ≡ tick db)
        (list_by_status faults status db)
unfolding list_by_status
list_by_status-Post faults status db =
    statement-Post _ (λ e d. d ≡ tick db) faults _ db (λ e. refl)
      (Post-map (λ envs d. (d ≡ tick db) × (listed ≡ ok envs)) _ (λ e d. d ≡ tick db) _
        (listed, tick db)
        (λ envs d (same, read). (
          same,
          rw same (
              collect_envs-length _ envs read
              ∙ newest_first-length (select (has_status status) db.envs)),
        ))
        (λ e d same. same) (answered listed (tick db)))
  where
    listed : Fallible (List Env)
    listed = collect_envs (newest_first (select (has_status status) db.envs))

-- What the envs of an owner are decoded from.
abbrev pub owned_rows : Text → Db → List EnvRow
owned_rows owner db = newest_first (select (λ row. text_eq row.owner owner) db.envs)

-- The listing changes nothing, and decodes the owner's rows.
pub list_by_owner-Post :
    (faults : Faults) (owner : Text) (db : Db)
    → Post
        (λ envs d. (d ≡ tick db) × (collect_envs (owned_rows owner db) ≡ ok envs))
        (λ e d. d ≡ tick db)
        (list_by_owner faults owner db)
unfolding list_by_owner
list_by_owner-Post faults owner db =
    statement-Post _ (λ e d. d ≡ tick db) faults _ db (λ e. refl)
      (answered (collect_envs (owned_rows owner db)) (tick db))
