-- ===== src/Front/Owner/Forced.antt =====
-- The owner of a caller who comes in by a forced command (crates/seadog/src/owner.rs).
use seadog.Prelude.{◌≡◌, refl, sym, ap, ◌∙◌, some, List, [], ◌∷◌, ◌++◌, append_assoc, Text, text_eq}
use seadog.Front.Owner.{owner_flag, owner_loop, owner_from_args}

append_nil : (xs : List Text) → xs ++ [] ≡ xs
append_nil [] = refl
append_nil (x ∷ xs) = ap (λ l. x ∷ l) (append_nil xs)

owner_loop-found :
    (owner : Text) (rest argv : List Text)
    → owner_loop (some owner) rest argv ≡ (some owner, rest ++ argv)
unfolding owner_loop
owner_loop-found owner rest [] = ap (λ r. (some owner, r)) (sym (append_nil rest))
owner_loop-found owner rest (a ∷ argv) =
    owner_loop-found owner (rest ++ a ∷ []) argv
    ∙ ap (λ r. (some owner, r)) (append_assoc rest (a ∷ []) argv)

-- An argv that starts with the forced command's own `--owner` names that owner and leaves all the
-- rest as it is: no word behind it, be it `--owner` too, changes the owner or is dropped.
pub owner_from_args-forced :
    (owner : Text) (words : List Text)
    → owner_from_args (owner_flag ∷ owner ∷ words) ≡ (some owner, words)
unfolding owner_from_args owner_loop text_eq
owner_from_args-forced owner words = owner_loop-found owner [] words
