-- ===== src/Core/Alloc/Leases.antt =====
-- `allocate` of crates/core/src/alloc.rs is atomic, and never leases an address that is held.
use seadog.Prelude.{
  ℕ, ◌≡◌, refl, false, ◌++◌, Option, none, some, [], ◌∷◌, inl, inr, any, Bool-cases,
}
use seadog.Core.Errors.{Error}
use seadog.Core.Action.{pure, ◌>>=◌}
use seadog.Core.Post.{Post, Post-map, bind-Post, statement-Post, transaction-Post}
use seadog.Core.Sql.{SameTables, EnvRow, Db, Faults, tick, statement}
use seadog.Core.Rows.{has_guid, env_to_row, insert_row}
use seadog.Core.Alloc.{NewEnv, leased, or_exhausted, insert_leased, lowest_free_ip, lease, allocate}
use seadog.Core.Alloc.Lowest.{IsLowestFree, lowest_free-IsLowestFree}

-- What a successful allocation has done to the tables.
abbrev pub Leased : ℕ × ℕ → NewEnv → Db → ℕ → Db → Type 0
Leased pool new db ip db' =
    IsLowestFree pool.0 pool.1 db.envs (some ip)
    × (any (has_guid new.guid) db.envs ≡ false)
    × (db'.envs ≡ db.envs ++ env_to_row (leased new ip) ∷ [])
    × (db'.notify_state ≡ db.notify_state)
    × (db'.heartbeat ≡ db.heartbeat)

abbrev Ignored : Error → Db → Type 0
Ignored e db = Unit

guid-leased : (new : NewEnv) (ip : ℕ) → (env_to_row (leased new ip)).guid ≡ new.guid
unfolding env_to_row leased
guid-leased new ip = refl

-- The row is new, and stands behind the ones that were there.
abbrev Inserted : EnvRow → Db → Unit {0} → Db → Type 0
Inserted row d u d' =
    (any (has_guid row.guid) d.envs ≡ false)
    × (d'.envs ≡ d.envs ++ row ∷ [])
    × (d'.notify_state ≡ d.notify_state)
    × (d'.heartbeat ≡ d.heartbeat)

insert_row-Post : (row : EnvRow) (d : Db) → Post (Inserted row d) Ignored (insert_row row d)
unfolding insert_row
insert_row-Post row d = elim (Bool-cases (any (has_guid row.guid) d.envs)) [
  | inl dup ↦ rw (dup, Post) tt
  | inr fresh ↦ rw (fresh, Post) (fresh, refl, refl, refl)
]

-- Between the search and the insert: the address is free, and nothing is written yet.
abbrev Searched : ℕ × ℕ → Db → Option ℕ → Db → Type 0
Searched pool db found d = IsLowestFree pool.0 pool.1 db.envs found × SameTables db d

lowest_free_ip-Post :
    (faults : Faults) (pool : ℕ × ℕ) (db : Db)
    → Post (Searched pool db) Ignored (lowest_free_ip faults pool db)
unfolding lowest_free_ip
lowest_free_ip-Post faults pool db =
    statement-Post (Searched pool db) Ignored faults _ db (λ e. tt)
      (lowest_free-IsLowestFree pool.0 pool.1 db.envs, (refl, refl, refl))

or_exhausted-Post :
    (pool : ℕ × ℕ) (db : Db) (found : Option ℕ) (d : Db)
    → Searched pool db found d
    → Post (λ ip. Searched pool db (some ip)) Ignored (or_exhausted found d)
unfolding or_exhausted
or_exhausted-Post pool db none d h = tt
or_exhausted-Post pool db (some ip) d h = h

insert_leased-Post :
    (faults : Faults) (pool : ℕ × ℕ) (new : NewEnv) (db : Db) (ip : ℕ) (d : Db)
    → Searched pool db (some ip) d
    → Post (Leased pool new db) Ignored (insert_leased faults new ip d)
unfolding insert_leased
insert_leased-Post faults pool new db ip d h =
    bind-Post (λ u. Leased pool new db ip) (Leased pool new db) Ignored
      (statement faults (insert_row (env_to_row (leased new ip)))) (λ u. pure ip) d
      (statement-Post (λ u. Leased pool new db ip) Ignored faults _ d (λ e. tt)
        (Post-map (Inserted (env_to_row (leased new ip)) (tick d)) (λ u. Leased pool new db ip)
          Ignored Ignored _
          (λ u d' p. (
            h.0,
            rw (← guid-leased new ip) (rw h.1.0 at p.0),
            rw h.1.0 at p.1,
            rw h.1.1 at p.2,
            rw h.1.2 at p.3,
          ))
          (λ e d' p. tt) (insert_row-Post (env_to_row (leased new ip)) (tick d))))
      (λ u d' p. p)

lease-Post :
    (faults : Faults) (pool : ℕ × ℕ) (new : NewEnv) (db : Db)
    → Post (Leased pool new db) Ignored (lease faults pool new db)
unfolding lease
lease-Post faults pool new db =
    bind-Post (Searched pool db) (Leased pool new db) Ignored (lowest_free_ip faults pool)
      (λ found. or_exhausted found >>= insert_leased faults new) db
      (lowest_free_ip-Post faults pool db)
      (λ found d h.
        bind-Post (λ ip. Searched pool db (some ip)) (Leased pool new db) Ignored
          (or_exhausted found) (insert_leased faults new) d (or_exhausted-Post pool db found d h)
          (insert_leased-Post faults pool new db))

-- An allocation either leases the least free address of the pool to a new row with a fresh guid,
-- and changes nothing else, or fails, whichever statement failed, and leaves the tables alone.
pub allocate-Post :
    (faults : Faults) (pool : ℕ × ℕ) (new : NewEnv) (db : Db)
    → Post (Leased pool new db) (λ e. SameTables db) (allocate faults pool new db)
unfolding allocate
allocate-Post faults pool new db =
    transaction-Post _ _ faults (Leased pool new db) (lease faults pool new) db
      (λ e after. (refl, refl, refl)) (lease-Post faults pool new (tick db)) (λ ip after h. h)
