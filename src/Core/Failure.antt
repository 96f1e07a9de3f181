-- ===== src/Core/Failure.antt =====
-- The errors of the two programs on top of the core: `anyhow::Error`, which wraps an error of the
-- core or holds a message of its own, and the steps that `?` takes into it.
use seadog.Prelude.{◌≡◌, refl, Bool, true, false, Result, ok, err, Text, arith}
use seadog.Core.Errors.{Error, Fallible, error_text}
use seadog.Core.Action.{Acting, Action, lift, raise_if, ◌>>=◌, ◌>>◌}
use seadog.Core.Post.{Post}

pub data Failure : Type 0 where
  core : Error → Failure
  message : Text → Failure

unfoldable pub failure_text : Failure → Text
failure_text (core e) = error_text e
failure_text (message m) = m

-- `map_err(anyhow::Error::from)?` of a result, and of code that changes a state.
abbrev pub from_core : {A : Type 0} → Fallible A → Result Failure A
from_core (ok a) = ok a
from_core (err e) = err (core e)

pub from_core-eq-ok : {A : Type 0} (r : Fallible A) {a : A} → from_core r ≡ ok a → r ≡ ok a
from_core-eq-ok (ok b) h = ground arith
from_core-eq-ok (err e) h = ground arith

abbrev pub running : {S A : Type 0} → Action S A → Acting Failure S A
running m s = let (r, s') = m s in (from_core r, s')

module _ {X S A B : Type 0} (Q : B → S → Type 0) (E : X → S → Type 0) where
  -- A result that is passed on, or ends the code with its error.
  pub lift-Post :
      (r : Result X A) (f : A → Acting X S B) (s : S)
      → ((e : X) → r ≡ err e → E e s)
      → ((a : A) → r ≡ ok a → Post Q E (f a s))
      → Post Q E ((lift r >>= f) s)
  lift-Post (ok a) f s stops goes = goes a refl
  lift-Post (err e) f s stops goes = stops e refl

module _ {X S B : Type 0} (Q : B → S → Type 0) (E : X → S → Type 0) where
  -- A test that ends the code.
  pub raise_if-Post :
      (bad : Bool) (e : X) (m : Acting X S B) (s : S)
      → (bad ≡ true → E e s)
      → (bad ≡ false → Post Q E (m s))
      → Post Q E ((raise_if bad e >> m) s)
  raise_if-Post true e m s stops goes = stops refl
  raise_if-Post false e m s stops goes = goes refl

module _ {S A : Type 0} (Q : A → S → Type 0) (E : Failure → S → Type 0) where
  from_core-Post :
      (r : Fallible A × S)
      → Post Q (λ e. E (core e)) r
      → Post Q E (let (a, s) = r in (from_core a, s))
  from_core-Post (ok a, s) h = h
  from_core-Post (err e, s) h = h

  pub running-Post :
      (m : Action S A) (s : S) → Post Q (λ e. E (core e)) (m s) → Post Q E (running m s)
  running-Post m s h = from_core-Post (m s) h
