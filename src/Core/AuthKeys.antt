-- ===== src/Core/AuthKeys.antt =====
-- The lines of the root-owned authorized_keys file: crates/core/src/authkeys.rs.
pub mod Tokens
pub mod OneLine
use seadog.Prelude.{
  ℕ, ◌+◌, ◌/◌, ◌%◌, Bool, true, false, not, ◌&&◌, ◌||◌, Option, none, some, List, [], ◌∷◌, ◌++◌, ok,
  err, ◌>>=◌, ◌>>◌, fail_if, ok_or, find, any, all, ltb, ◌==◌, if◌then◌else◌, Text, lit, text_eq,
  is_empty, is_whitespace, is_ascii_lowercase, is_ascii_uppercase, is_ascii_digit, starts_with_char,
  strip_prefix, trim, split_whitespace,
}
use seadog.Core.Errors.{Error, Fallible}

unfoldable pub forced_command_line : Text → Text → Text → Text
forced_command_line frontend_bin owner key_line =
    lit "command=\""
    ++ (frontend_bin ++ (lit " --owner " ++ (owner ++ (lit "\",restrict " ++ key_line))))

-- The second item.
abbrev pub second : List Text → Option Text
second [] = none
second (a ∷ []) = none
second (a ∷ b ∷ rest) = some b

unfoldable pub key_blob : Text → Option Text
key_blob key_line = second (split_whitespace key_line)

abbrev pub key_types : List Text
key_types =
    lit "ssh-ed25519"
    ∷ lit "ssh-rsa"
    ∷ lit "ssh-dss"
    ∷ lit "ecdsa-sha2-nistp256"
    ∷ lit "ecdsa-sha2-nistp384"
    ∷ lit "ecdsa-sha2-nistp521"
    ∷ lit "sk-ssh-ed25519@openssh.com"
    ∷ lit "sk-ecdsa-sha2-nistp256@openssh.com"
    ∷ []

unfoldable pub is_key_type : Text → Bool
is_key_type t = any (text_eq t) key_types

abbrev pub is_control : ℕ → Bool
is_control c = ltb c 0x20 || c == 0x7f

-- `{:X}` of a digit, and `{:04X}` of a control character.
abbrev hex_digit : ℕ → ℕ
hex_digit d = if ltb d 10 then b'0' + d else b'7' + d

abbrev hex_code : ℕ → Text
hex_code c = b'0' ∷ b'0' ∷ hex_digit (c / 16 % 16) ∷ hex_digit (c % 16) ∷ []

abbrev pub is_base64_char : ℕ → Bool
is_base64_char c =
    is_ascii_lowercase c
    || is_ascii_uppercase c
    || is_ascii_digit c
    || c == b'+'
    || c == b'/'
    || c == b'='

abbrev invalid : Text → Error
invalid why = Error.validation (lit "key line " ++ why)

-- Rule 1, on the first control character that there is.
unfoldable pub check_controls : Option ℕ → Fallible (Unit {0})
check_controls none = ok tt
check_controls (some c) =
    err (invalid (lit "must not contain control characters (found U+" ++ (hex_code c ++ lit ")")))

unfoldable pub check_blob : Text → Fallible (Unit {0})
check_blob blob = do
  fail_if (is_empty blob) (invalid (lit "has an empty key blob"))
  fail_if (not (all is_base64_char blob))
      (Error.validation (lit "key blob '" ++ (blob ++ lit "' contains non-base64 characters")))

-- Rules 2 and 3, on the fields.
unfoldable pub check_fields : List Text → Fallible (Unit {0})
unfolding check_blob is_key_type
check_fields [] = err (invalid (lit "is empty (no key type)"))
check_fields (key_type ∷ fields) =
    fail_if (not (is_key_type key_type))
      (invalid (lit "has unrecognized key type '" ++ (key_type ++ lit "'")))
    >> elim fields [ [] ↦ err (invalid (lit "has no key blob")) | blob ∷ rest ↦ check_blob blob ]

unfoldable pub validate_key_line : Text → Fallible (Unit {0})
unfolding check_controls check_fields
validate_key_line key_line =
    check_controls (find is_control key_line) >> check_fields (split_whitespace (trim key_line))

-- The token behind the first key type.
unfoldable pub blob_after : List Text → Option Text
unfolding is_key_type
blob_after [] = none
blob_after (t ∷ toks) =
    let rest = blob_after toks in
    if is_key_type t then elim toks [ [] ↦ none | blob ∷ more ↦ some blob ] else rest

unfoldable pub key_blob_of_line : Text → Option Text
unfolding blob_after
key_blob_of_line line = blob_after (split_whitespace line)

-- `str::find`: the text before the first occurrence, and the text from there on.
unfoldable pub find_text : Text → Text → Option (Text × Text)
find_text needle [] = if is_empty needle then some ([], []) else none
find_text needle (c ∷ s) =
    let rest = find_text needle s in
    elim (strip_prefix needle (c ∷ s)) [
      | some after ↦ some ([], c ∷ s)
      | none ↦ elim rest [ none ↦ none | some (before, from) ↦ some (c ∷ before, from) ]
    ]

-- The test of the character before the match.
unfoldable pub at_boundary : Text → Bool
at_boundary [] = true
at_boundary (c ∷ []) = is_whitespace c || c == b',' || c == b'"'
at_boundary (c ∷ d ∷ s) = at_boundary (d ∷ s)

unfoldable pub first_body : List Text → Text → Option Text
unfolding find_text at_boundary
first_body [] line = none
first_body (kt ∷ kts) line =
    let rest = first_body kts line in
    elim (find_text kt line) [
      | none ↦ rest
      | some (before, from) ↦ if at_boundary before then some from else rest
    ]

unfoldable pub key_body_of_line : Text → Option Text
unfolding first_body
key_body_of_line line = first_body key_types line

-- The loop over the tokens of the command.
unfoldable pub owner_of_tokens : List Text → Option Text
owner_of_tokens [] = none
owner_of_tokens (t ∷ toks) =
    let rest = owner_of_tokens toks in
    if text_eq t (lit "--owner")
    then elim toks [ [] ↦ none | owner ∷ more ↦ some owner ]
    else elim (strip_prefix (lit "--owner=") t) [ none ↦ rest | some v ↦ some v ]

-- The text up to the first double quote.
unfoldable pub before_quote : Text → Option Text
before_quote [] = none
before_quote (c ∷ s) =
    let rest = before_quote s in
    if c == b'"' then some [] else elim rest [ none ↦ none | some cmd ↦ some (c ∷ cmd) ]

-- The forced command, behind the first `command="`.
unfoldable pub command_of : Text → Option Text
unfolding find_text before_quote
command_of line = elim (find_text (lit "command=\"") line) [
  | none ↦ none
  | some (before, from) ↦ elim (strip_prefix (lit "command=\"") from) [
    | none ↦ none
    | some tail ↦ before_quote tail
  ]
]

unfoldable pub owner_in_line : Text → Option Text
unfolding command_of owner_of_tokens
owner_in_line line = elim (command_of line) [
  | none ↦ none
  | some cmd ↦ owner_of_tokens (split_whitespace cmd)
]

-- `struct OwnerEntry`
pub record OwnerEntry : Type 0 where
  pub owner : Text
  pub key_type : Text
  pub blob : Text
  pub comment : Option Text

-- The text behind the first whitespace character.
unfoldable pub after_blank : Text → Option Text
after_blank [] = none
after_blank (c ∷ s) = let rest = after_blank s in if is_whitespace c then some s else rest

-- The third part of `splitn(3, char::is_whitespace)`, if it is not blank.
unfoldable pub comment_of : Text → Option Text
unfolding after_blank
comment_of body = elim (after_blank body) [
  | none ↦ none
  | some tail ↦ elim (after_blank tail) [
    | none ↦ none
    | some rest ↦ if is_empty (trim rest) then none else some (trim rest)
  ]
]

unfoldable pub entry_of : Text → Text → Option OwnerEntry
unfolding comment_of
entry_of owner body = elim (split_whitespace body) [
  | [] ↦ none
  | key_type ∷ fields ↦ elim fields [
    | [] ↦ none
    | blob ∷ more ↦
        some (record { owner = owner; key_type = key_type; blob = blob; comment = comment_of body })
  ]
]

unfoldable pub parse_trimmed : Text → Option OwnerEntry
unfolding owner_in_line key_body_of_line entry_of
parse_trimmed line =
    if is_empty line || starts_with_char b'#' line then none else elim (owner_in_line line) [
      | none ↦ none
      | some owner ↦ elim (key_body_of_line line) [ none ↦ none | some body ↦ entry_of owner body ]
    ]

unfoldable pub parse_owner_line : Text → Option OwnerEntry
unfolding parse_trimmed
parse_owner_line line = parse_trimmed (trim line)
