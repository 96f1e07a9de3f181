-- ===== src/Core/Store/Deadline.antt =====
-- The deadline that `set_ttl_deadline` of crates/core/src/store.rs stores.
use seadog.Prelude.{
  ◌≡◌, ◌⊎◌, refl, none, some, ok, err, any, find, inl, inr, All, find-All, arith, Bool-cases,
  Option-cases, Text,
}
use seadog.Prelude.Int.{
  ℤ, pos, ◌≤ℤ◌, ◌+ℤ◌, IsI64, saturating_add, saturate, clamp_ℤ, +ℤ_parts, ◌<ℤ◌,
}
use seadog.Core.Errors.{Error}
use seadog.Core.Action.{pure}
use seadog.Core.Post.{Post, bind-Post, statement-Post}
use seadog.Core.Sql.{EnvRow, Db, Faults, tick, statement}
use seadog.Core.Rows.{has_guid, update_guid, update_or_missing, unknown_guid}
use seadog.Core.Store.{clamped_deadline, read_created_at, write_deadline, set_ttl_deadline}

-- A deadline of an env created at `created_at`.
abbrev pub InWindow : ℤ → ℤ → ℤ → Type 0
InWindow created_at max_ttl v = (created_at ≤ℤ v) × (v ≤ℤ saturating_add created_at max_ttl)

saturate-ge : (a z : ℤ) → IsI64 a → a ≤ℤ z → a ≤ℤ saturate z
saturate-ge a z i p = ground arith

saturating_add-ge : (a b : ℤ) → IsI64 a → pos 0 ≤ℤ b → a ≤ℤ saturating_add a b
unfolding saturating_add
saturating_add-ge a b i p = saturate-ge a (a +ℤ b) i (omega (arith, +ℤ_parts a b))

-- The deadline asked for, or the end of the window that it is beyond.
abbrev pub Clamped : ℤ → ℤ → ℤ → ℤ → Type 0
Clamped deadline lo hi v =
    (v ≡ deadline) ⊎ ((deadline <ℤ lo) × (v ≡ lo)) ⊎ ((hi <ℤ deadline) × (v ≡ hi))

-- What a successful call has done.
pub record Extended (guid : Text) (deadline max_ttl : ℤ) (db : Db) (v : ℤ) (d : Db) : Type 0 where
  pub row : EnvRow
  pub found : find (has_guid guid) db.envs ≡ some row
  pub inside : InWindow row.created_at max_ttl v
  pub as_asked : Clamped deadline row.created_at (saturating_add row.created_at max_ttl) v
  pub stored : d.envs ≡ update_guid guid (λ r. record r { ttl_deadline = v }) db.envs
  pub others : d.notify_state ≡ db.notify_state

abbrev pub Unchanged : Db → Db → Type 0
Unchanged db d = (d.envs ≡ db.envs) × (d.notify_state ≡ db.notify_state)

clamp-InWindow :
    (deadline created_at hi : ℤ)
    → created_at ≤ℤ hi
    → (created_at ≤ℤ clamp_ℤ deadline created_at hi) × (clamp_ℤ deadline created_at hi ≤ℤ hi)
clamp-InWindow deadline created_at hi h = ground arith

clamp-Clamped : (deadline lo hi : ℤ) → Clamped deadline lo hi (clamp_ℤ deadline lo hi)
clamp-Clamped deadline lo hi = ground arith

module _ (faults : Faults) (guid : Text) (deadline max_ttl : ℤ) (db : Db) where
  -- After the read: the create time is the row's.
  abbrev Read : ℤ → Db → Type 0
  Read created_at d =
      ((row : EnvRow) × (find (has_guid guid) db.envs ≡ some row) × (row.created_at ≡ created_at))
      × Unchanged db d

  read_created_at-Post : Post Read (λ e. Unchanged db) (read_created_at faults guid db)
  unfolding read_created_at
  read_created_at-Post =
      statement-Post Read (λ e. Unchanged db) faults _ db (λ e. (refl, refl)) looked
    where
      looked :
          Post Read
            (λ (e : Error). Unchanged db)
            (elim (find (has_guid guid) (tick db).envs) [
              | none ↦ (err (unknown_guid guid), tick db)
              | some row ↦ (ok row.created_at, tick db)
            ])
      looked = elim (Option-cases (find (has_guid guid) db.envs)) [
        | inl missing ↦ rw (missing, Post) (refl, refl)
        | inr (row, found) ↦ rw (found, Post) ((row, found, refl), (refl, refl))
      ]

  module _ (i64s : All (λ (r : EnvRow). IsI64 r.created_at) db.envs)
      (some_time : pos 0 ≤ℤ max_ttl) where
    write_deadline-Post :
        (created_at : ℤ) (d : Db)
        → Read created_at d
        → Post
            (Extended guid deadline max_ttl db)
            (λ e. Unchanged db)
            (write_deadline faults guid deadline max_ttl created_at d)
    unfolding write_deadline update_or_missing
    write_deadline-Post created_at d ((row, found, same), before) =
        bind-Post (λ u. Extended guid deadline max_ttl db clamped)
          (Extended guid deadline max_ttl db) (λ e. Unchanged db)
          (statement faults (update_or_missing guid (λ r. record r { ttl_deadline = clamped })))
          (λ u. pure clamped) d
          (statement-Post (λ u. Extended guid deadline max_ttl db clamped) (λ e. Unchanged db)
            faults (update_or_missing guid (λ r. record r { ttl_deadline = clamped })) d
            (λ e. before) written)
          (λ u d' h. h)
      where
        clamped : ℤ
        clamped = clamped_deadline deadline max_ttl created_at

        low : row.created_at ≤ℤ saturating_add row.created_at max_ttl
        low =
            saturating_add-ge row.created_at max_ttl
              (find-All (λ (r : EnvRow). IsI64 r.created_at) (has_guid guid) db.envs row i64s
                found).0
              some_time

        done : Extended guid deadline max_ttl db clamped (record (tick d) {
          envs = update_guid guid (λ r. record r { ttl_deadline = clamped }) d.envs;
        })
        done = record {
          row = row;
          found = found;
          inside = rw (← same) (clamp-InWindow deadline row.created_at _ low);
          as_asked = rw (← same) (clamp-Clamped deadline row.created_at _);
          stored = rw before.0 refl;
          others = before.1;
        }

        written :
            Post
              (λ u. Extended guid deadline max_ttl db clamped)
              (λ e. Unchanged db)
              (update_or_missing guid (λ r. record r { ttl_deadline = clamped }) (tick d))
        written = elim (Bool-cases (any (has_guid guid) d.envs)) [
          | inl there ↦ rw (there, Post) done
          | inr gone ↦ rw (gone, Post) before
        ]

    -- With create times that an `i64` holds and a ceiling that is not negative, `set_ttl_deadline`
    -- stores, in the row of that guid alone, a deadline between the row's create time and that time
    -- plus the ceiling, which is the one asked for unless that is beyond an end, and returns it; or
    -- it fails, for a guid without a row among others, and leaves the tables alone.
    pub set_ttl_deadline-Post :
        Post
          (Extended guid deadline max_ttl db)
          (λ e. Unchanged db)
          (set_ttl_deadline faults guid deadline max_ttl db)
    unfolding set_ttl_deadline
    set_ttl_deadline-Post =
        bind-Post Read (Extended guid deadline max_ttl db) (λ e. Unchanged db)
          (read_created_at faults guid) (write_deadline faults guid deadline max_ttl) db
          read_created_at-Post write_deadline-Post
