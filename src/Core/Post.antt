-- ===== src/Core/Post.antt =====
-- Postconditions of actions: one for the value, one for the error, each with the state that is
-- left. A rule for the bind, for a statement and for a transaction; a loop has its own invariant.
use seadog.Prelude.{ℕ, ◌≡◌, refl, inl, inr, subst, sym, Result, ok, err, Text}
use seadog.Core.Errors.{Error}
use seadog.Core.Action.{Acting, ◌>>=◌}
use seadog.Core.Sql.{
  Db, Faults, Sql, tick, rollback, statement, transaction, statement-cases, transaction-cases,
}

module _ {X S A : Type 0} (Q : A → S → Type 0) (E : X → S → Type 0) where
  abbrev pub Post : Result X A × S → Type 0
  Post (ok a, s) = Q a s
  Post (err e, s) = E e s

module _ {X S A B : Type 0} (P : A → S → Type 0) (Q : B → S → Type 0) (E : X → S → Type 0) where
  bind_pair :
      (r : Result X A × S) (f : A → Acting X S B)
      → Post P E r
      → ((a : A) (s : S) → P a s → Post Q E (f a s))
      → Post Q E (let (a, s) = r in elim a [ ok x ↦ f x s | err e ↦ (err e, s) ])
  bind_pair (ok a, s) f h k = k a s h
  bind_pair (err e, s) f h k = h

  pub bind-Post :
      (m : Acting X S A) (f : A → Acting X S B) (s : S)
      → Post P E (m s)
      → ((a : A) (s' : S) → P a s' → Post Q E (f a s'))
      → Post Q E ((m >>= f) s)
  bind-Post m f s h k = bind_pair (m s) f h k

module _ {X S A : Type 0} (P Q : A → S → Type 0) (E F : X → S → Type 0) where
  pub Post-map :
      (r : Result X A × S)
      → ((a : A) (s : S) → P a s → Q a s)
      → ((e : X) (s : S) → E e s → F e s)
      → Post P E r
      → Post Q F r
  Post-map (ok a, s) f g h = f a s h
  Post-map (err e, s) f g h = g e s h

module _ {X S A : Type 0} where
  pub Post-any : (r : Result X A × S) → Post (λ a s. Unit {0}) (λ e s. Unit {0}) r
  Post-any (ok a, s) = tt
  Post-any (err e, s) = tt

  pub Post-both :
      (P Q : A → S → Type 0) (E F : X → S → Type 0) (r : Result X A × S)
      → Post P E r
      → Post Q F r
      → Post (λ a s. P a s × Q a s) (λ e s. E e s × F e s) r
  Post-both P Q E F (ok a, s) h k = (h, k)
  Post-both P Q E F (err e, s) h k = (h, k)

-- A result that a statement answers without a change.
pub answered :
    {X S A : Type 0} (r : Result X A) (s : S)
    → Post (λ a s'. (s' ≡ s) × (r ≡ ok a)) (λ e s'. s' ≡ s) (r, s)
answered (ok a) s = (refl, refl)
answered (err e) s = refl

module _ {A : Type 0} (Q : A → Db → Type 0) (E : Error → Db → Type 0) (faults : Faults) where
  pub statement-Post :
      (body : Sql A) (db : Db)
      → ((e : Text) → E (Error.sqlite e) (tick db))
      → Post Q E (body (tick db))
      → Post Q E (statement faults body db)
  statement-Post body db failed ran = elim (statement-cases faults body db) [
    | inl (e, eq) ↦ subst (Post Q E) (sym eq) (failed e)
    | inr eq ↦ subst (Post Q E) (sym eq) ran
  ]

  pub transaction-Post :
      (P : A → Db → Type 0) (body : Sql A) (db : Db)
      → ((e : Error) (after : Db) → E e (rollback (tick db) after))
      → Post P (λ e after. Unit {0}) (body (tick db))
      → ((a : A) (after : Db) → P a after → Q a (tick after))
      → Post Q E (transaction faults body db)
  transaction-Post P body db failed ran kept = elim (transaction-cases faults body db) [
    | inl (e, after, eq) ↦ subst (Post Q E) (sym eq) (failed e after)
    | inr (a, after, done, eq) ↦
        subst (Post Q E) (sym eq) (kept a after (subst (Post P (λ e d. Unit {0})) done ran))
  ]

-- An invariant that an action keeps, whether it succeeds or fails.
module _ {X S : Type 0} (I : S → Type 0) where
  abbrev pub Keeps : {A : Type 0} → Acting X S A → Type 0
  Keeps m = (s : S) → I s → Post (λ a. I) (λ e. I) (m s)

  pub Keeps-bind :
      {A B : Type 0} (m : Acting X S A) (f : A → Acting X S B)
      → Keeps m
      → ((a : A) → Keeps (f a))
      → Keeps (m >>= f)
  Keeps-bind m f h k s i = bind-Post (λ a. I) (λ b. I) (λ e. I) m f s (h s i) k

  kept : {A : Type 0} (r : Result X A × S) → Post (λ a. I) (λ e. I) r → I r.1
  kept (ok a, s) h = h
  kept (err e, s) h = h

  pub Keeps-state : {A : Type 0} (m : Acting X S A) → Keeps m → (s : S) → I s → I (m s).1
  Keeps-state m h s i = kept (m s) (h s i)

-- An invariant of the tables alone is kept by the count of statements.
module _ (I : Db → Type 0) (steady : (db : Db) (n : ℕ) → I db → I (record db { statements = n }))
    (faults : Faults) where
  pub Keeps-statement : {A : Type 0} (body : Sql A) → Keeps I body → Keeps I (statement faults body)
  Keeps-statement body h db i =
      statement-Post (λ a. I) (λ e. I) faults body db (λ e. steady db _ i)
        (h (tick db) (steady db _ i))

  pub Keeps-transaction :
      {A : Type 0} (body : Sql A) → Keeps I body → Keeps I (transaction faults body)
  Keeps-transaction {A} body h db i =
      transaction-Post (λ a. I) (λ e. I) faults (λ a. I) body db (λ e after. steady db _ i)
        (Post-map (λ (a : A). I) (λ a. I) (λ e. I) (λ e d. Unit {0}) _ (λ a d p. p) (λ e d p. tt)
          (h (tick db) (steady db _ i)))
        (λ a after p. steady after _ p)

-- An invariant that an action keeps if it succeeds, and what is left of it if it fails.
module _ {X S : Type 0} (I E : S → Type 0) where
  abbrev pub Holds : {A : Type 0} → Acting X S A → Type 0
  Holds m = (s : S) → I s → Post (λ a. I) (λ e. E) (m s)

  pub Holds-bind :
      {A B : Type 0} (m : Acting X S A) (f : A → Acting X S B)
      → Holds m
      → ((a : A) → Holds (f a))
      → Holds (m >>= f)
  Holds-bind m f h k s i = bind-Post (λ a. I) (λ b. I) (λ e. E) m f s (h s i) k

  pub Keeps-Holds : {A : Type 0} (m : Acting X S A) → ((s : S) → I s → E s) → Keeps I m → Holds m
  Keeps-Holds m weaken h s i =
      Post-map (λ a. I) (λ a. I) (λ e. I) (λ e. E) (m s) (λ a s' j. j) (λ e s' j. weaken s' j)
        (h s i)
