-- ===== src/Priv/Provision/Listed.antt =====
-- What the helper's config says of an image ref, by the checks of crates/seadog-priv/src/provision.rs
-- and of crates/core/src/config.rs.
use mathlib.Core.List.{Mem, mem-cons_self, mem-cons_of_mem}
use seadog.Prelude.{
  Bool, true, false, ◌≡◌, Bool-cases, inl, inr, List, [], ◌∷◌, some, arith, any, unwrap_or, Text,
  text_eq_iff,
}
use seadog.Core.Models.{Mode}
use seadog.Core.Config.{Image, Config, bool_eq, nests_as, nesting_ok_for_ref}
use seadog.Core.Validate.Names.{any-mode_eq}
use seadog.Priv.Provision.{permits}

any-Mem :
    {A : Type 0} (p : A → Bool) (xs : List A) → any p xs ≡ true → (x : A) × Mem x xs × (p x ≡ true)
any-Mem p [] h = absurd (ground arith)
any-Mem p (x ∷ xs) h = elim (Bool-cases (p x)) [
  | inl holds ↦ (x, mem-cons_self, holds)
  | inr fails ↦
      let (y, listed, holds) = any-Mem p xs (ground arith) in (y, mem-cons_of_mem x listed, holds)
]

-- An entry has the ref and lists the mode.
abbrev pub Offers : Config → Text → Mode → Type 0
Offers config image_ref mode =
    (e : Text × Image) × Mem e config.images × (e.1.image_ref ≡ image_ref) × Mem mode e.1.modes

-- The entry permits nesting as asked; without a setting it does not permit it.
abbrev pub NestsAs : Image → Bool → Type 0
NestsAs img true = img.allow_nesting ≡ some true
NestsAs img false = (img.allow_nesting ≡ some true) → ⊥

-- An entry has the ref and that nesting.
abbrev pub Nests : Config → Text → Bool → Type 0
Nests config image_ref nesting =
    (e : Text × Image) × Mem e config.images × (e.1.image_ref ≡ image_ref) × NestsAs e.1 nesting

pub permits-Offers :
    (config : Config) (image_ref : Text) (mode : Mode)
    → any (permits image_ref mode) config.images ≡ true
    → Offers config image_ref mode
permits-Offers config image_ref mode h =
    let (e, listed, permitted) = any-Mem (permits image_ref mode) config.images h in
    (
      e,
      listed,
      ground (arith, text_eq_iff e.1.image_ref image_ref, permitted),
      any-mode_eq mode e.1.modes (ground (arith, permitted)),
    )

nests_lem :
    (img : Image) (nesting : Bool)
    → bool_eq (unwrap_or false img.allow_nesting) nesting ≡ true
    → NestsAs img nesting
nests_lem img true h = ground (arith, h)
nests_lem img false h = ground (arith, h)

pub nesting_ok_for_ref-Nests :
    (config : Config) (image_ref : Text) (nesting : Bool)
    → nesting_ok_for_ref config image_ref nesting ≡ true
    → Nests config image_ref nesting
unfolding nesting_ok_for_ref
nesting_ok_for_ref-Nests config image_ref nesting h =
    let (e, listed, same) = any-Mem (nests_as image_ref nesting) config.images h in
    (
      e,
      listed,
      ground (arith, text_eq_iff e.1.image_ref image_ref, same),
      nests_lem e.1 nesting (ground (arith, same)),
    )
