-- ===== src/Priv/Owners.antt =====
-- The owners' verbs of the helper: crates/seadog-priv/src/owners.rs. The state is the text of the
-- authorized_keys file, empty if there is none; whether reading and writing it succeed is given. A
-- write that fails leaves the file, which is replaced by a rename.
pub mod Line
pub mod Lines
pub mod Added
use seadog.Prelude.{
  ℕ, Bool, true, false, not, ◌&&◌, Option, none, some, List, [], ◌∷◌, ◌++◌, Result, ok, err, ok_or,
  select, length, map, ltb, if◌then◌else◌, Text, lit, text_eq, is_empty, ends_with_char, join,
  lines, trim,
}
use seadog.Core.Failure.{Failure, message, from_core}
use seadog.Core.Validate.{validate_owner_name}
use seadog.Core.AuthKeys.{
  forced_command_line, key_blob, validate_key_line, key_blob_of_line, key_body_of_line, OwnerEntry,
  parse_owner_line,
}
use seadog.Core.Action.{Acting, pure, lift, modify, gets, ◌>>=◌, ◌>>◌}

abbrev pub Keys : Type 0 → Type 0
Keys A = Acting Failure Text A

abbrev pub frontend_bin : Text
frontend_bin = lit "/usr/lib/seadog/seadog"

abbrev pub is_blob : Text → Option Text → Bool
is_blob blob none = false
is_blob blob (some b) = text_eq b blob

-- The JSON of the answer to `add-owner`.
pub record Addition : Type 0 where
  pub added : Bool
  pub owner : Text
  pub blob : Text

-- A line that holds the blob already: the same owner's, or a conflict.
unfoldable pub clash : Text → Option OwnerEntry → Result Failure Bool
clash owner none = err (
    message
      (lit "key blob already present in authorized_keys under a non-managed or owner-less line"))
clash owner (some entry) =
    if text_eq entry.owner owner
    then ok true
    else err (message (lit "key already mapped to owner '" ++ (entry.owner ++ lit "'")))

-- The loop over the lines: whether the owner has the key already.
unfoldable pub already_there : Text → Text → List Text → Result Failure Bool
unfolding clash
already_there owner blob [] = ok false
already_there owner blob (line ∷ more) =
    let rest = already_there owner blob more in
    if is_blob blob (key_blob_of_line line) then clash owner (parse_owner_line line) else rest

-- The file with the line at its end.
unfoldable pub appended : Text → Text → Text
appended current line =
    (if not (is_empty current) && not (ends_with_char 10 current)
      then current ++ 10 ∷ []
      else current)
    ++ (line ++ 10 ∷ [])

abbrev pub is_owners : Text → Text → Bool
is_owners owner line = elim (parse_owner_line line) [
  | none ↦ false
  | some entry ↦ text_eq entry.owner owner
]

-- The text of the lines that are kept.
unfoldable pub rewritten : List Text → Text
rewritten kept =
    let contents = join (10 ∷ []) kept in
    if is_empty contents then contents else contents ++ 10 ∷ []

unfoldable pub some_bodies : List Text → List Text
some_bodies [] = []
some_bodies (line ∷ more) =
    let rest = some_bodies more in
    elim (key_body_of_line line) [ none ↦ rest | some body ↦ trim body ∷ rest ]

unfoldable pub entries : List Text → List OwnerEntry
entries [] = []
entries (line ∷ more) =
    let rest = entries more in
    elim (parse_owner_line line) [ none ↦ rest | some entry ↦ entry ∷ rest ]

module _ (readable writable : Result Failure (Unit {0})) where
  abbrev pub read_authkeys : Keys Text
  read_authkeys = lift readable >> gets (λ current. current)

  abbrev pub write_authkeys : Text → Keys (Unit {0})
  write_authkeys contents = lift writable >> modify (λ current. contents)

  unfoldable pub add_new : Text → Text → Text → Text → Bool → Keys Addition
  unfolding appended
  add_new owner key blob current true = pure (record { added = false; owner = owner; blob = blob })
  add_new owner key blob current false =
      write_authkeys (appended current (forced_command_line frontend_bin owner key))
      >> pure (record { added = true; owner = owner; blob = blob })

  unfoldable pub add_owner : Text → Text → Keys Addition
  unfolding add_new already_there
  add_owner owner key = do
    lift (from_core (validate_owner_name owner))
    lift (from_core (validate_key_line key))
    blob ← lift (ok_or (message (lit "key line has no decodable blob")) (key_blob key))
    current ← read_authkeys
    there ← lift (already_there owner blob (lines current))
    add_new owner key blob current there

  unfoldable pub list_owners : Keys (List OwnerEntry)
  unfolding entries
  list_owners = read_authkeys >>= λ current. pure (entries (lines current))

  unfoldable pub remove_lines : Text → Text → Keys ℕ
  unfolding rewritten
  remove_lines owner current =
      let removed = length (select (is_owners owner) (lines current)) in
      if ltb 0 removed
      then write_authkeys (rewritten (select (λ line. not (is_owners owner line)) (lines current)))
        >> pure removed
      else pure removed

  unfoldable pub remove_owner : Text → Keys ℕ
  unfolding remove_lines
  remove_owner owner = do
    lift (from_core (validate_owner_name owner))
    current ← read_authkeys
    remove_lines owner current

  unfoldable pub owner_key_bodies : Text → Keys (List Text)
  unfolding some_bodies
  owner_key_bodies owner =
      read_authkeys >>= λ current. pure (some_bodies (select (is_owners owner) (lines current)))
