-- ===== src/Front/Fingerprint.antt =====
-- The owner of the key that authenticated: `resolve_owner_from_authinfo` of
-- crates/seadog/src/owner.rs. SHA-256, from the `sha2` crate, is an argument.
pub mod Same
use seadog.Prelude.{
  ℕ, Bool, false, Option, none, some, List, [], ◌∷◌, ◌++◌, ◌||◌, find, if◌then◌else◌, unwrap_or,
  Text, lit, text_eq, is_some, is_empty, starts_with_char, strip_prefix, split_whitespace, trim,
  trim_start, lines,
}
use seadog.Core.AuthKeys.{key_types, first_body, command_of, owner_of_tokens, second}
use seadog.Front.Base64.{decode_standard, encode_standard_nopad}

abbrev pub is_publickey : Text → Bool
is_publickey line = is_some (strip_prefix (lit "publickey") (trim_start line))

-- The two functions that are written as in core's authkeys.rs.
unfoldable pub key_body_of_authorized_line : Text → Option Text
key_body_of_authorized_line line = first_body key_types line

unfoldable pub owner_in_authorized_line : Text → Option Text
owner_in_authorized_line line = elim (command_of line) [
  | none ↦ none
  | some cmd ↦ owner_of_tokens (split_whitespace cmd)
]

-- The key of `SSH_AUTH_INFO_0`, as in a line of the key file.
unfoldable pub key_body_of_info : Text → Text
key_body_of_info info =
    let auth_line = unwrap_or info (find is_publickey (lines info)) in
    elim (strip_prefix (lit "publickey") (trim_start auth_line)) [
      | none ↦ auth_line
      | some rest ↦ trim_start rest
    ]

abbrev pub is_comment : Text → Bool
is_comment line = is_empty line || starts_with_char b'#' line

-- The decoded second word of a line.
unfoldable pub raw_blob : Text → Option (List ℕ)
raw_blob key_line = elim (second (split_whitespace key_line)) [
  | none ↦ none
  | some b64 ↦ decode_standard b64
]

module _ (sha256 : List ℕ → List ℕ) where
  abbrev pub fingerprint_of : List ℕ → Text
  fingerprint_of blob = lit "SHA256:" ++ encode_standard_nopad (sha256 blob)

  abbrev pub blob_fingerprint : Option (List ℕ) → Option Text
  blob_fingerprint none = none
  blob_fingerprint (some blob) = some (fingerprint_of blob)

  unfoldable pub key_fingerprint : Text → Option Text
  unfolding raw_blob
  key_fingerprint key_line = blob_fingerprint (raw_blob key_line)

  -- Whether the key of a line of the file has that fingerprint.
  abbrev pub is_print : Text → Option Text → Bool
  is_print target none = false
  is_print target (some fp) = text_eq fp target

  abbrev pub body_matches : Text → Option Text → Bool
  body_matches target none = false
  body_matches target (some body) = is_print target (key_fingerprint body)

  abbrev pub line_matches : Text → Text → Bool
  line_matches target line = body_matches target (key_body_of_authorized_line line)

  -- The loop over the lines.
  unfoldable pub owner_of_print : Text → List Text → Option Text
  owner_of_print target [] = none
  owner_of_print target (line ∷ more) =
      let rest = owner_of_print target more in
      let trimmed = trim line in
      if is_comment trimmed
      then rest
      else if line_matches target trimmed
      then owner_in_authorized_line trimmed
      else rest

  unfoldable pub resolve_owner_from_authinfo : Text → Text → Option Text
  unfolding key_body_of_info owner_of_print
  resolve_owner_from_authinfo info authorized_keys =
      elim (key_fingerprint (key_body_of_info info)) [
        | none ↦ none
        | some target ↦ owner_of_print target (lines authorized_keys)
      ]
