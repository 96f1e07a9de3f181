-- ===== src/Core/Store/Status.antt =====
-- What the updates by guid of crates/core/src/store.rs write.
use seadog.Prelude.{
  ℕ, ◌≡◌, refl, ap, ◌⊎◌, some, true, false, err, none, if◌then◌else◌, any, List, [], ◌∷◌, ◌++◌,
  Option, Text, text_eq_refl, Bool-cases, inl, inr, arith,
}
use seadog.Core.Errors.{Error}
use seadog.Core.Models.{EnvStatus, reaped, vanished, status_as_str}
use seadog.Core.Post.{Post, Post-map}
use seadog.Core.Sql.{EnvRow, Db, Faults, Sql, tick, statement}
use seadog.Core.Rows.{join_fps, has_guid, update_guid, update_or_missing}
use seadog.Core.Store.{set_status, mark_reaped, mark_vanished, set_provision_signals}
use seadog.Core.Store.Deadline.{Unchanged}

-- The rows of that guid are updated, and nothing else.
abbrev pub Updated : Text → (EnvRow → EnvRow) → Db → Db → Type 0
Updated guid f db d = (d.envs ≡ update_guid guid f db.envs) × (d.notify_state ≡ db.notify_state)

update_or_missing-Post :
    (guid : Text) (f : EnvRow → EnvRow) (db : Db)
    → Post
        (λ u. Updated guid f db)
        (λ e d. Unchanged db d × (any (has_guid guid) db.envs ≡ false))
        (update_or_missing guid f db)
unfolding update_or_missing
update_or_missing-Post guid f db = elim (Bool-cases (any (has_guid guid) db.envs)) [
  | inl found ↦ rw (found, Post) (refl, refl)
  | inr missing ↦ rw (missing, Post) ((refl, refl), missing)
]

abbrev pub with_status : EnvStatus → EnvRow → EnvRow
with_status status row = record row { status = status_as_str status }

abbrev pub with_signals : Text → List Text → Option ℕ → EnvRow → EnvRow
with_signals mac fps vmid row = record row {
  mac = mac;
  ssh_host_key_fps = join_fps fps;
  vmid = vmid;
}

-- A statement on that state is set to fail.
abbrev pub Faulted : Faults → Db → Type 0
Faulted faults db = (e : Text) × (faults db.statements ≡ some e)

module _ (faults : Faults) (guid : Text) (db : Db) where
  -- Nothing is written: by a fault, or for want of a row.
  abbrev pub Missed : Db → Type 0
  Missed d = Unchanged db d × (Faulted faults db ⊎ (any (has_guid guid) db.envs ≡ false))

  abbrev Writes : (EnvRow → EnvRow) → Sql (Unit {0}) → Type 0
  Writes f m = Post (λ u. Updated guid f db) (λ e. Missed) (m db)

  writes : (f : EnvRow → EnvRow) → Writes f (statement faults (update_or_missing guid f))
  unfolding statement
  writes f = ran (faults db.statements) refl
    where
      ran :
          (o : Option Text)
          → faults db.statements ≡ o
          → Post {X = Error} {S = Db} {A = Unit {0}}
              (λ u. Updated guid f db)
              (λ e. Missed)
              (elim o [
                | some e ↦ (err (Error.sqlite e), tick db)
                | none ↦ update_or_missing guid f (tick db)
              ])
      ran none runs =
          Post-map _ (λ u. Updated guid f db) _ (λ e. Missed) (update_or_missing guid f (tick db))
            (λ u d h. h) (λ e d (kept, missing). (kept, inr missing))
            (update_or_missing-Post guid f (tick db))
      ran (some e) fails = ((refl, refl), inl (e, fails))

  pub mark_reaped-Post : Writes (with_status reaped) (mark_reaped faults guid)
  unfolding mark_reaped set_status
  mark_reaped-Post = writes (with_status reaped)

  pub mark_vanished-Post : Writes (with_status vanished) (mark_vanished faults guid)
  unfolding mark_vanished set_status
  mark_vanished-Post = writes (with_status vanished)

  pub set_provision_signals-Post :
      (mac : Text) (fps : List Text) (vmid : Option ℕ)
      → Writes (with_signals mac fps vmid) (set_provision_signals faults guid mac fps vmid)
  unfolding set_provision_signals
  set_provision_signals-Post mac fps vmid = writes (with_signals mac fps vmid)

-- An update of the row that was just inserted.
pub update_guid-inserted :
    (f : EnvRow → EnvRow) (row : EnvRow) (rows : List EnvRow)
    → any (has_guid row.guid) rows ≡ false
    → update_guid row.guid f (rows ++ row ∷ []) ≡ rows ++ f row ∷ []
unfolding update_guid
update_guid-inserted f row [] fresh =
    ap (λ b. (if b then f row else row) ∷ []) (text_eq_refl row.guid)
update_guid-inserted f row (r ∷ rows) fresh = elim (Bool-cases (has_guid row.guid r)) [
  | inl same ↦ ground (arith, same, fresh)
  | inr other ↦
      rw other
        (ap (λ rest. r ∷ rest) (update_guid-inserted f row rows (ground (arith, other, fresh))))
]

-- The row that was just inserted is found.
pub any-inserted :
    (row : EnvRow) (rows : List EnvRow) → any (has_guid row.guid) (rows ++ row ∷ []) ≡ true
any-inserted row [] = ground (arith, text_eq_refl row.guid)
any-inserted row (r ∷ rows) = ground (arith, any-inserted row rows)
