-- ===== src/Front/Owner.antt =====
-- `owner_from_args` of crates/seadog/src/owner.rs: the owner that the forced command names. The
-- arguments that are left are built up as the loop builds them.
pub mod Forced
use seadog.Prelude.{
  Option, none, some, List, [], ◌∷◌, ◌++◌, if◌then◌else◌, Text, lit, text_eq, strip_prefix,
}

abbrev pub owner_flag : Text
owner_flag = lit "--owner"

-- The last argument, before an owner was found.
unfoldable pub last_arg : List Text → Text → Option Text × List Text
last_arg rest a =
    if text_eq a owner_flag then (none, rest) else elim (strip_prefix (lit "--owner=") a) [
      | none ↦ (none, rest ++ a ∷ [])
      | some val ↦ (some val, rest)
    ]

unfoldable pub owner_loop : Option Text → List Text → List Text → Option Text × List Text
unfolding last_arg
owner_loop owner rest [] = (owner, rest)
owner_loop (some owner) rest (a ∷ argv) = owner_loop (some owner) (rest ++ a ∷ []) argv
owner_loop none rest (a ∷ []) = last_arg rest a
owner_loop none rest (a ∷ val ∷ argv) =
    let skipped = owner_loop (some val) rest argv in
    let pushed = owner_loop none (rest ++ a ∷ []) (val ∷ argv) in
    if text_eq a owner_flag then skipped else elim (strip_prefix (lit "--owner=") a) [
      | none ↦ pushed
      | some val' ↦ owner_loop (some val') rest (val ∷ argv)
    ]

unfoldable pub owner_from_args : List Text → Option Text × List Text
unfolding owner_loop
owner_from_args argv = owner_loop none [] argv
