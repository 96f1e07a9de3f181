-- ===== src/Core/Validate.antt =====
-- Input validation: crates/core/src/validate.rs.
pub mod Names
use seadog.Prelude.{
  ℕ, join, map, Bool, true, false, not, ◌&&◌, ◌||◌, ◌++◌, Option, none, some, List, [], ◌∷◌, ◌>>=◌,
  ◌>>◌, ok, err, ok_or, fail_if, any, all, unwrap_or, lookup, ltb, ◌==◌, if◌then◌else◌, Text, lit,
  is_empty, byte_len, contains_char, ends_with_char, starts_with_char, strip_prefix,
  is_ascii_lowercase, is_ascii_uppercase, is_ascii_digit,
}
use seadog.Core.Models.{Mode, mode_eq, mode_as_str}
use seadog.Core.Errors.{Error, Fallible}
use seadog.Core.Config.{Image, Config}

-- The class `[a-z0-9-]`.
abbrev pub is_label_char : ℕ → Bool
is_label_char c = is_ascii_lowercase c || is_ascii_digit c || c == b'-'

abbrev pub name_prefix : Text
name_prefix = lit "seadog-"

-- A match of `^seadog-[a-z0-9-]{1,}$`: the prefix, then one character of the class or more, to the
-- end of the text.
unfoldable pub name_re_is_match : Text → Bool
name_re_is_match name = elim (strip_prefix name_prefix name) [
  | none ↦ false
  | some rest ↦ not (is_empty rest) && all is_label_char rest
]

abbrev guest_error : Text → Text → Error
guest_error name why = Error.validation (lit "guest name '" ++ (name ++ (lit "' " ++ why)))

unfoldable pub validate_guest_name : Text → Fallible (Unit {0})
validate_guest_name name = do
  fail_if (ltb 63 (byte_len name)) (guest_error name (lit "exceeds 63 chars"))
  fail_if (contains_char b'_' name) (guest_error name (lit "must not contain underscores"))
  fail_if (any is_ascii_uppercase name) (guest_error name (lit "must be lowercase"))
  fail_if (ends_with_char b'-' name) (guest_error name (lit "must not end with a hyphen"))
  fail_if (not (name_re_is_match name)) (guest_error name (lit "is not a valid seadog DNS label"))

abbrev owner_error : Text → Text → Error
owner_error name why = Error.validation (lit "owner name '" ++ (name ++ (lit "' " ++ why)))

unfoldable pub validate_owner_name : Text → Fallible (Unit {0})
validate_owner_name name = do
  fail_if (is_empty name) (Error.validation (lit "owner name must not be empty"))
  fail_if (ltb 32 (byte_len name)) (owner_error name (lit "exceeds 32 chars"))
  fail_if (not (all is_label_char name)) (owner_error name (lit "must be lowercase [a-z0-9-] only"))
  fail_if (starts_with_char b'-' name || ends_with_char b'-' name)
      (owner_error name (lit "must not start or end with a hyphen"))

-- `struct ResolvedImage`
pub record ResolvedImage : Type 0 where
  pub image_ref : Text
  pub mode : Mode

abbrev mode_debug : Mode → Text
mode_debug Mode.lxc = lit "Lxc"
mode_debug Mode.vm = lit "Vm"

-- `{:?}` of the modes.
abbrev debug_modes : List Mode → Text
debug_modes modes = lit "[" ++ (join (lit ", ") (map mode_debug modes) ++ lit "]")

-- The `match requested_mode` of `resolve_image`.
unfoldable pub choose_mode : Text → Option Mode → Image → Fallible Mode
choose_mode name (some m) img =
    if any (mode_eq m) img.modes
    then ok m
    else err (
        Error.validation (
          lit "mode '"
          ++ (mode_as_str m
              ++ (lit "' not allowed for image '"
                  ++ (name ++ (lit "' (allowed: " ++ (debug_modes img.modes ++ lit ")")))))))
choose_mode name none img = elim img.modes [
  | [] ↦ err (Error.validation (lit "image '" ++ (name ++ lit "' has no modes")))
  | m ∷ ms ↦ ok m
]

unfoldable pub resolve_image : Text → Option Mode → Config → Fallible ResolvedImage
unfolding choose_mode
resolve_image name requested_mode config = do
  img ←
      ok_or
        (Error.validation (
          lit "image '"
          ++ (name
              ++ lit "' is not in the allowlist (must be a bare allowlist name, not an OCI ref)")))
        (lookup name config.images)
  mode ← choose_mode name requested_mode img
  ok (record { image_ref = img.image_ref; mode = mode })
