-- ===== src/Front/Login/Trusted.antt =====
-- Whom a caller acts as who comes in by a forced command (crates/seadog/src/main.rs).
use seadog.Prelude.{
  ◌≡◌, refl, sym, subst, ◌++◌, lit, Option, some, List, [], ◌∷◌, Result, ok, err, ◌>>=◌, Text,
}
use seadog.Core.Failure.{Failure, message}
use seadog.Front.Owner.{owner_from_args}
use seadog.Front.Owner.Forced.{owner_from_args-forced}
use seadog.Front.Login.{splice, tokenize, resolve_argv, forced_owner, identified}

module _ (split : Text → Result Text (List Text)) where
  -- Refused, or identified as that owner, with the words of the client's command.
  abbrev pub ActsAs : Text → Text → Result Failure (Option Text × List Text) → Type 0
  ActsAs owner original (err e) = Unit
  ActsAs owner original (ok (who, words)) = (who ≡ some owner) × (split original ≡ ok words)

  spliced :
      (owner original : Text) (words : List Text)
      → split original ≡ ok words
      → ActsAs owner original (splice (some owner) words >>= λ argv. ok (owner_from_args argv))
  unfolding splice
  spliced owner original [] h = tt
  spliced owner original (v ∷ words) h =
      let same = owner_from_args-forced owner (v ∷ words) in rw (same, ActsAs) (refl, h)

  -- Behind a forced command that names an owner, in its argv or in the command that it passes on,
  -- the caller acts as that owner or is refused, whatever the client's command is; its words are
  -- the verb's, none taken as an owner.
  pub identified-ActsAs :
      (raw : List Text) (owner original : Text)
      → forced_owner split raw ≡ some owner
      → ActsAs owner original (identified split (some original) raw)
  unfolding identified resolve_argv tokenize
  identified-ActsAs raw owner original named =
      subst (λ who. ActsAs owner original (tokenize split original >>= splice who >>= found))
        (sym named) (on_words (split original) refl)
    where
      found : List Text → Result Failure (Option Text × List Text)
      found argv = ok (owner_from_args argv)

      on_words :
          (r : Result Text (List Text))
          → split original ≡ r
          → ActsAs owner original (
              elim r [
                | err e ↦ err (message (lit "could not tokenize command: " ++ e))
                | ok words ↦ ok words
              ]
              >>= splice (some owner)
              >>= found)
      on_words (err e) h = tt
      on_words (ok words) h = spliced owner original words h
