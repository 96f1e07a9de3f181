-- ===== src/Core/Validate/Names.antt =====
-- What an accepted name or image is: crates/core/src/validate.rs.
use seadog.Prelude.{
  ◌≤◌, ◌≡◌, ◌≢◌, ◌↔◌, refl, true, false, ◌++◌, Option, none, some, List, [], ◌∷◌, arith, inl, inr,
  >>=-eq-ok, ok_or-eq-ok, ok_or, Bool-cases, Option-cases, ok, any, all, lookup, unwrap_or, Text,
  byte_len, contains_char, ends_with_char, starts_with_char, strip_prefix, is_ascii_uppercase,
  append_of_strip_prefix, strip_prefix-append,
}
use mathlib.Core.List.{Mem, mem-cons_self, mem-cons_of_mem}
use seadog.Core.Models.{Mode, mode_eq}
use seadog.Core.Config.{Image, Config, validate, has_no_mode}
use seadog.Core.Config.Users.{validate-Accepted, check_modes-lookup}
use seadog.Core.Validate.{
  is_label_char, name_prefix, name_re_is_match, validate_guest_name, validate_owner_name,
  ResolvedImage, choose_mode, resolve_image,
}

-- An owner name by its rules.
pub record IsOwnerName (name : Text) : Type 0 where
  pub nonempty : name ≢ []
  pub short : byte_len name ≤ 32
  pub chars : all is_label_char name ≡ true
  pub front : starts_with_char b'-' name ≡ false
  pub back : ends_with_char b'-' name ≡ false

-- `validate_owner_name` accepts exactly the texts of 1 to 32 bytes over `[a-z0-9-]` that neither
-- start nor end with a hyphen.
pub validate_owner_name_iff : (name : Text) → (validate_owner_name name ≡ ok tt) ↔ IsOwnerName name
unfolding validate_owner_name
validate_owner_name_iff [] = (λ h. ground arith, λ v. absurd (v.nonempty refl))
validate_owner_name_iff (c ∷ s) = (λ h. ground arith, λ v. ground arith)

-- A label holds no underscore and no capital letter.
label_plain :
    (s : Text)
    → all is_label_char s ≡ true
    → (contains_char b'_' s ≡ false) × (any is_ascii_uppercase s ≡ false)
label_plain [] h = (refl, refl)
label_plain (c ∷ s) h = ground (arith, label_plain s)

-- A guest name by its rules.
pub record IsGuestName (name : Text) : Type 0 where
  pub label : Text
  pub prefixed : name ≡ name_prefix ++ label
  pub nonempty : label ≢ []
  pub short : byte_len name ≤ 63
  pub chars : all is_label_char label ≡ true
  pub back : ends_with_char b'-' name ≡ false

name_re-label :
    (name : Text)
    → name_re_is_match name ≡ true
    → (label : Text) × (name ≡ name_prefix ++ label)
      × (label ≢ [])
      × (all is_label_char label ≡ true)
unfolding name_re_is_match
name_re-label name h = elim (Option-cases (strip_prefix name_prefix name)) [
  | inl other ↦ absurd (ground arith)
  | inr (label, found) ↦
      (label, append_of_strip_prefix name_prefix name label found, λ e. ground arith, ground arith)
]

name_re-append :
    (label : Text)
    → label ≢ []
    → all is_label_char label ≡ true
    → name_re_is_match (name_prefix ++ label) ≡ true
unfolding name_re_is_match
name_re-append [] full chars = absurd (full refl)
name_re-append (c ∷ s) full chars =
    rw (strip_prefix-append name_prefix (c ∷ s), name_re_is_match) chars

name_re-IsGuestName : (name : Text) → IsGuestName name → name_re_is_match name ≡ true
name_re-IsGuestName name v = rw v.prefixed (name_re-append v.label v.nonempty v.chars)

chars-IsGuestName : (name : Text) → IsGuestName name → all is_label_char name ≡ true
chars-IsGuestName name v = rw v.prefixed v.chars

-- `validate_guest_name` accepts exactly the texts of at most 63 bytes that are `seadog-` and one
-- character of `[a-z0-9-]` or more, and do not end with a hyphen.
pub validate_guest_name_iff : (name : Text) → (validate_guest_name name ≡ ok tt) ↔ IsGuestName name
unfolding validate_guest_name
validate_guest_name_iff name = (accepted, back)
  where
    accepted : validate_guest_name name ≡ ok tt → IsGuestName name
    accepted h =
        let (label, e, full, chars) = name_re-label name (ground arith) in
        record {
          label = label;
          prefixed = e;
          nonempty = full;
          short = ground arith;
          chars = chars;
          back = ground arith;
        }

    back : IsGuestName name → validate_guest_name name ≡ ok tt
    back v = ground (arith, name_re-IsGuestName name v, label_plain name (chars-IsGuestName name v))

pub any-mode_eq : (m : Mode) (ms : List Mode) → any (mode_eq m) ms ≡ true → Mem m ms
any-mode_eq m [] h = absurd (ground arith)
any-mode_eq m (n ∷ ms) h = elim (Bool-cases (mode_eq m n)) [
  | inl same ↦ rw (mode_eq-eq m n same) mem-cons_self
  | inr other ↦ mem-cons_of_mem n (any-mode_eq m ms (ground arith))
]
  where
    mode_eq-eq : (m n : Mode) → mode_eq m n ≡ true → m ≡ n
    mode_eq-eq m n h = ground arith

choose_mode-mem :
    (name : Text) (requested : Option Mode) (img : Image) (m : Mode)
    → choose_mode name requested img ≡ ok m
    → Mem m img.modes
unfolding choose_mode
choose_mode-mem name (some n) img m h = elim (Bool-cases (any (mode_eq n) img.modes)) [
  | inl allowed ↦ let e : n ≡ m = ground arith in rw (← e) (any-mode_eq n img.modes allowed)
  | inr other ↦ absurd (ground arith)
]
choose_mode-mem name none img m h = first img.modes refl
  where
    first : (ms : List Mode) → img.modes ≡ ms → Mem m img.modes
    first [] e = absurd (ground arith)
    first (n ∷ ms) e = let same : n ≡ m = ground arith in rw (e, same) mem-cons_self

choose_mode-requested :
    (name : Text) (requested : Option Mode) (img : Image) (m : Mode)
    → choose_mode name requested img ≡ ok m
    → unwrap_or m requested ≡ m
unfolding choose_mode
choose_mode-requested name none img m h = refl
choose_mode-requested name (some n) img m h = ground arith

-- A resolved image is an entry of the allowlist, under the name that was asked for: its ref comes
-- from the config, its mode is one of the entry's, and is the requested one if there was a request.
pub resolve_image-allowed :
    (name : Text) (requested : Option Mode) (config : Config) (r : ResolvedImage)
    → resolve_image name requested config ≡ ok r
    → (img : Image) × (lookup name config.images ≡ some img)
      × (r.image_ref ≡ img.image_ref)
      × Mem r.mode img.modes
      × (unwrap_or r.mode requested ≡ r.mode)
unfolding resolve_image
resolve_image-allowed name requested config r h =
    let (img, found, rest) = >>=-eq-ok (ok_or _ (lookup name config.images)) _ h in
    let (mode, chosen, done) = >>=-eq-ok (choose_mode name requested img) _ rest in
    let same : r.mode ≡ mode = ground arith in
    (
      img,
      ok_or-eq-ok _ _ found,
      ground arith,
      rw same (choose_mode-mem name requested img mode chosen),
      rw same (choose_mode-requested name requested img mode chosen),
    )

choose_mode-default :
    (name : Text) (img : Image)
    → has_no_mode img ≡ false
    → (m : Mode) × (choose_mode name none img ≡ ok m)
unfolding choose_mode
choose_mode-default name img h = first img.modes refl
  where
    first : (ms : List Mode) → img.modes ≡ ms → (m : Mode) × (choose_mode name none img ≡ ok m)
    first [] e = absurd (ground arith)
    first (m ∷ ms) e = (m, ground arith)

-- In an accepted config every allowlisted image resolves when no mode is asked for.
pub resolve_image-default :
    (name : Text) (config : Config) (img : Image)
    → validate config ≡ ok tt
    → lookup name config.images ≡ some img
    → (r : ResolvedImage) × (resolve_image name none config ≡ ok r)
unfolding resolve_image
resolve_image-default name config img valid found =
    let (m, chosen) = choose_mode-default name img has_mode in
    (record { image_ref = img.image_ref; mode = m }, rw (found, chosen))
  where
    has_mode : has_no_mode img ≡ false
    has_mode =
        check_modes-lookup config.images name img (validate-Accepted config valid).modes found
