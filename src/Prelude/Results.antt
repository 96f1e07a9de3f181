-- ===== src/Prelude/Results.antt =====
-- `Result<T, E>` with `?` as a `do` block.
use mathlib.Core.Path.{◌≡◌, refl}
use mathlib.Core.Logic.{◌⊎◌, inl, inr}
use mathlib.Core.Bool.{Bool, true, false}
use mathlib.Core.Option.{Option, none, some}
use native.Mathlib.Omega.{arith}

pub data Result {ℓ κ} (Problem : Type κ) (Value : Type ℓ) : Type (ℓ ⊔ κ) where
  err : Problem → Result Problem Value
  ok : Value → Result Problem Value

-- `if bad { return Err(e) }`
abbrev pub fail_if {κ} : {Problem : Type κ} → Bool → Problem → Result Problem (Unit {0})
fail_if bad problem = elim bad [ true ↦ err problem | false ↦ ok tt ]

module _ {ℓ κ} {Problem : Type κ} {Value : Type ℓ} where
  -- `ok_or_else`
  abbrev pub ok_or : Problem → Option Value → Result Problem Value
  ok_or problem found = elim found [ none ↦ err problem | some value ↦ ok value ]

  -- `?`, where the value is needed and where it is not.
  infixl 5 ◌>>=◌ ◌>>◌
  abbrev pub ◌>>=◌ {μ} :
      {Next : Type μ} → Result Problem Value → (Value → Result Problem Next) → Result Problem Next
  result >>= next = elim result [ err problem ↦ err problem | ok value ↦ next value ]

  abbrev pub ◌>>◌ : Result Problem (Unit {0}) → Result Problem Value → Result Problem Value
  checked >> next = elim checked [ err problem ↦ err problem | ok done ↦ next ]

pub Result-cases {ℓ κ} :
    {Problem : Type κ} {Value : Type ℓ} (result : Result Problem Value)
    → ((value : Value) × (result ≡ ok value)) ⊎ ((problem : Problem) × (result ≡ err problem))
Result-cases (ok value) = inl (value, refl)
Result-cases (err problem) = inr (problem, refl)

-- What a chain that succeeds has passed through, with the value that it passed on.
pub >>=-eq-ok {ℓ κ μ} :
    {Problem : Type κ} {Value : Type ℓ} {Next : Type μ} (result : Result Problem Value)
    (next : Value → Result Problem Next) {last : Next}
    → (result >>= next) ≡ ok last
    → (value : Value) × (result ≡ ok value) × (next value ≡ ok last)
>>=-eq-ok (err problem) next done = cc
>>=-eq-ok (ok value) next done = (value, refl, done)

pub ok_or-eq-ok {ℓ κ} :
    {Problem : Type κ} {Value : Type ℓ} (problem : Problem) (found : Option Value) {value : Value}
    → ok_or problem found ≡ ok value
    → found ≡ some value
ok_or-eq-ok problem none done = cc
ok_or-eq-ok problem (some other) done = ground arith

pub >>-eq-ok {ℓ κ} :
    {Problem : Type κ} {Value : Type ℓ} (checked : Result Problem (Unit {0}))
    (next : Result Problem Value) {last : Value}
    → (checked >> next) ≡ ok last
    → (checked ≡ ok tt) × (next ≡ ok last)
>>-eq-ok (err problem) next done = cc
>>-eq-ok (ok u) next done = (refl, done)
