-- ===== src/Core/Alloc/Exclusive.antt =====
-- Rows of which no two hold one address, and the changes of crates/core/src/store.rs and
-- crates/core/src/alloc.rs that keep them so.
use seadog.Prelude.{
  ℕ, ◌^◌, ◌<◌, ◌≡◌, refl, Bool, true, false, ◌||◌, ◌++◌, List, [], ◌∷◌, arith, inl, inr, select,
  Bool-cases, Text, if◌then◌else◌,
}
use seadog.Prelude.Ipv4.{parse_ip-ip_text}
use seadog.Core.Models.{status_as_str}
use seadog.Core.Sql.{EnvRow}
use seadog.Core.Rows.{has_guid, env_to_row, update_guid}
use seadog.Core.Alloc.{NewEnv, leased}
use seadog.Core.Alloc.Lowest.{is_held, holds}

-- No two rows hold one address.
abbrev pub Exclusive : List EnvRow → Type 0
Exclusive [] = Unit
Exclusive (row ∷ rows) = ((v : ℕ) → holds v row ≡ true → is_held v rows ≡ false) × Exclusive rows

is_held-append :
    (v : ℕ) (row : EnvRow) (rows : List EnvRow)
    → is_held v (rows ++ row ∷ []) ≡ (is_held v rows || holds v row)
is_held-append v row [] = ground arith
is_held-append v row (r ∷ rows) = ground (arith, is_held-append v row rows)

pub Exclusive-append :
    (row : EnvRow) (rows : List EnvRow)
    → Exclusive rows
    → ((v : ℕ) → holds v row ≡ true → is_held v rows ≡ false)
    → Exclusive (rows ++ row ∷ [])
Exclusive-append row [] x fresh = (λ v h. refl, tt)
Exclusive-append row (r ∷ rows) x fresh = (
  λ v h. ground (arith, is_held-append v row rows, x.0 v h, fresh v),
  Exclusive-append row rows x.1 (λ v h. ground (arith, fresh v h)),
)

pub holds-leased :
    (new : NewEnv) (ip v : ℕ) → ip < 2 ^ 32 → holds v (env_to_row (leased new ip)) ≡ true → v ≡ ip
unfolding env_to_row leased status_as_str
holds-leased new ip v small h = ground (arith, parse_ip-ip_text ip small)

-- An update that takes no address keeps what the others hold.
abbrev pub TakesNone : (EnvRow → EnvRow) → Type 0
TakesNone f = (v : ℕ) (row : EnvRow) → holds v (f row) ≡ true → holds v row ≡ true

is_held-update :
    (guid : Text) (f : EnvRow → EnvRow) (v : ℕ) (rows : List EnvRow)
    → TakesNone f
    → is_held v rows ≡ false
    → is_held v (update_guid guid f rows) ≡ false
unfolding update_guid
is_held-update guid f v [] t h = refl
is_held-update guid f v (row ∷ rows) t h = elim (Bool-cases (has_guid guid row)) [
  | inl hit ↦ ground (arith, t v row, is_held-update guid f v rows t)
  | inr miss ↦ ground (arith, is_held-update guid f v rows t)
]

pub Exclusive-update :
    (guid : Text) (f : EnvRow → EnvRow) (rows : List EnvRow)
    → TakesNone f
    → Exclusive rows
    → Exclusive (update_guid guid f rows)
unfolding update_guid
Exclusive-update guid f [] t x = tt
Exclusive-update guid f (row ∷ rows) t x =
    (λ v h. is_held-update guid f v rows t (x.0 v (kept v h)), Exclusive-update guid f rows t x.1)
  where
    kept : (v : ℕ) → holds v (if has_guid guid row then f row else row) ≡ true → holds v row ≡ true
    kept v h = elim (Bool-cases (has_guid guid row)) [
      | inl hit ↦ ground (arith, t v row)
      | inr miss ↦ ground arith
    ]

is_held-select :
    (p : EnvRow → Bool) (v : ℕ) (rows : List EnvRow)
    → is_held v rows ≡ false
    → is_held v (select p rows) ≡ false
is_held-select p v [] h = refl
is_held-select p v (row ∷ rows) h = ground (arith, is_held-select p v rows)

pub Exclusive-select :
    (p : EnvRow → Bool) (rows : List EnvRow) → Exclusive rows → Exclusive (select p rows)
Exclusive-select p [] x = tt
Exclusive-select p (row ∷ rows) x = elim (Bool-cases (p row)) [
  | inl stays ↦ rw stays (λ v h. is_held-select p v rows (x.0 v h), Exclusive-select p rows x.1)
  | inr goes ↦ rw goes (Exclusive-select p rows x.1)
]
