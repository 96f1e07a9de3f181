-- ===== src/Core/Action.antt =====
-- Fallible code that changes a state: what was written before an error stays written. `?` is the
-- bind of a `do` block. `Acting` is for any type of errors, `Action` for the core's `Error`.
use seadog.Prelude.{Bool, true, false, Result, ok, err}
use seadog.Core.Errors.{Error}

abbrev pub Acting : Type 0 → Type 0 → Type 0 → Type 0
Acting X S A = S → Result X A × S

abbrev pub Action : Type 0 → Type 0 → Type 0
Action S A = Acting Error S A

module _ {X S A : Type 0} where
  abbrev pub pure : A → Acting X S A
  pure a s = (ok a, s)

  abbrev pub raise : X → Acting X S A
  raise e s = (err e, s)

  abbrev pub gets : (S → A) → Acting X S A
  gets f s = (ok (f s), s)

  abbrev pub lift : Result X A → Acting X S A
  lift r s = (r, s)

  -- The result as a value, so that the caller goes on after an error.
  abbrev pub attempt : Acting X S A → Acting X S (Result X A)
  attempt m s = let (r, s') = m s in (ok r, s')

infixl 5 ◌>>=◌ ◌>>◌
abbrev pub ◌>>=◌ : {X S A B : Type 0} → Acting X S A → (A → Acting X S B) → Acting X S B
◌>>=◌ m f s = let (r, s') = m s in elim r [ ok a ↦ f a s' | err e ↦ (err e, s') ]

abbrev pub ◌>>◌ : {X S A B : Type 0} → Acting X S A → Acting X S B → Acting X S B
m >> k = m >>= λ _. k

abbrev pub modify : {X S : Type 0} → (S → S) → Acting X S (Unit {0})
modify f s = (ok tt, f s)

abbrev pub raise_if : {X S : Type 0} → Bool → X → Acting X S (Unit {0})
raise_if true e s = (err e, s)
raise_if false e s = (ok tt, s)
