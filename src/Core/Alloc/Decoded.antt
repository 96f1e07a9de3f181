-- ===== src/Core/Alloc/Decoded.antt =====
-- Every row that the processes store can be read: its mode and its status are ones that `row_to_env`
-- of crates/core/src/store.rs knows.
use seadog.Prelude.{
  ◌≡◌, refl, ap, ◌∙◌, Bool, Bool-cases, inl, inr, some, List, [], ◌∷◌, ok, select, All, All-append,
  Text,
}
use seadog.Prelude.Int.{ltb_ℤ}
use seadog.Core.Models.{
  Mode, EnvStatus, Env, mode_from_str_opt, status_from_str_opt, mode_from_str_opt-mode_as_str,
  status_from_str_opt-status_as_str,
}
use seadog.Core.Sql.{EnvRow, Db}
use seadog.Core.Rows.{
  env_to_row, decoded, collect_envs, newest_first, insert_newest, update_guid, has_guid,
}
use seadog.Core.Rows.Codec.{row_to_env-decoded}
use seadog.Core.Alloc.{leased}
use seadog.Core.Alloc.Stable.{Reach, Stable, Spares, with_status, Reach-Stable}

abbrev pub IsReadable : EnvRow → Type 0
IsReadable row =
    ((mode : Mode) × (mode_from_str_opt row.mode ≡ some mode))
    × ((status : EnvStatus) × (status_from_str_opt row.status ≡ some status))

abbrev pub Readable : List EnvRow → Type 0
Readable rows = All IsReadable rows

env_to_row-IsReadable : (env : Env) → IsReadable (env_to_row env)
unfolding env_to_row
env_to_row-IsReadable env = (
  (env.mode, mode_from_str_opt-mode_as_str env.mode),
  (env.status, status_from_str_opt-status_as_str env.status),
)

with_status-IsReadable :
    (s : EnvStatus) (row : EnvRow) → IsReadable row → IsReadable (with_status s row)
with_status-IsReadable s row h = (h.0, (s, status_from_str_opt-status_as_str s))

spared-IsReadable :
    (f : EnvRow → EnvRow) → Spares f → (row : EnvRow) → IsReadable row → IsReadable (f row)
spared-IsReadable f t row h = (
  (h.0.0, ap mode_from_str_opt (t row).1 ∙ h.0.1),
  (h.1.0, ap status_from_str_opt (t row).2 ∙ h.1.1),
)

update-Readable :
    (guid : Text) (f : EnvRow → EnvRow) (rows : List EnvRow)
    → ((row : EnvRow) → IsReadable row → IsReadable (f row))
    → Readable rows
    → Readable (update_guid guid f rows)
unfolding update_guid
update-Readable guid f [] t h = tt
update-Readable guid f (row ∷ rows) t h = elim (Bool-cases (has_guid guid row)) [
  | inl hit ↦ rw hit (t row h.0, update-Readable guid f rows t h.1)
  | inr miss ↦ rw miss (h.0, update-Readable guid f rows t h.1)
]

select-Readable :
    (p : EnvRow → Bool) (rows : List EnvRow) → Readable rows → Readable (select p rows)
select-Readable p [] h = tt
select-Readable p (row ∷ rows) h = elim (Bool-cases (p row)) [
  | inl stays ↦ rw stays (h.0, select-Readable p rows h.1)
  | inr goes ↦ rw goes (select-Readable p rows h.1)
]

Readable-Stable : Stable Readable
Readable-Stable = record {
  leases = λ new ip rows small free h.
      All-append IsReadable rows (env_to_row (leased new ip) ∷ []) h
        (env_to_row-IsReadable (leased new ip), tt);
  inserts = λ env rows e h.
      All-append IsReadable rows (env_to_row env ∷ []) h (env_to_row-IsReadable env, tt);
  marks =
      λ guid s rows ne h. update-Readable guid (with_status s) rows (with_status-IsReadable s) h;
  updates = λ guid f rows t h. update-Readable guid f rows (spared-IsReadable f t) h;
  deletes = λ p rows h. select-Readable p rows h;
}

insert_newest-Readable :
    (row : EnvRow) (rows : List EnvRow)
    → IsReadable row
    → Readable rows
    → Readable (insert_newest row rows)
unfolding insert_newest
insert_newest-Readable row [] h hs = (h, tt)
insert_newest-Readable row (r ∷ rows) h hs = elim (Bool-cases (ltb_ℤ row.created_at r.created_at)) [
  | inl older ↦ rw older (hs.0, insert_newest-Readable row rows h hs.1)
  | inr newer ↦ rw newer (h, hs)
]

newest_first-Readable : (rows : List EnvRow) → Readable rows → Readable (newest_first rows)
unfolding newest_first
newest_first-Readable [] h = tt
newest_first-Readable (row ∷ rows) h =
    insert_newest-Readable row (newest_first rows) h.0 (newest_first-Readable rows h.1)

collect_envs-ok :
    (rows : List EnvRow) → Readable rows → (envs : List Env) × (collect_envs rows ≡ ok envs)
unfolding collect_envs
collect_envs-ok [] h = ([], refl)
collect_envs-ok (row ∷ rows) h =
    let (envs, rest) = collect_envs-ok rows h.1 in
    let read = row_to_env-decoded row h.0.0.0 h.0.1.0 h.0.0.1 h.0.1.1 in
    (decoded row h.0.0.0 h.0.1.0 ∷ envs, rw (collect_envs, read, rest) refl)

-- However the writing operations of the store and the allocator, run by any number of processes,
-- follow one another, and whichever statements fail, if every row had a mode and a status that are
-- known at the start, then every row does, and a listing of any of the rows, newest first, decodes all
-- of them.
pub Reach-Readable :
    {db d : Db} (p : EnvRow → Bool)
    → Reach db d
    → Readable db.envs
    → Readable d.envs
      × (envs : List Env) × (collect_envs (newest_first (select p d.envs)) ≡ ok envs)
Reach-Readable {db} {d} p r h =
    let all = Reach-Stable Readable Readable-Stable r h in
    let listed =
      collect_envs-ok (newest_first (select p d.envs))
        (newest_first-Readable (select p d.envs) (select-Readable p d.envs all)) in
    (all, listed.0, listed.1)
