-- ===== src/Front/Login.antt =====
-- How the login shell finds its argv and the trusted owner in what sshd gives it: `resolve_argv` of
-- crates/seadog/src/main.rs. The tokenizer of the `shell-words` crate is an argument. Of the pair
-- `("--owner", value)` only the value is kept: the flag is always that.
pub mod Trusted
use seadog.Prelude.{
  Bool, not, ◌&&◌, Option, none, some, List, [], ◌∷◌, ◌++◌, Result, ok, err, ◌>>=◌, is_some,
  or_else, if◌then◌else◌, Text, lit, text_eq, strip_prefix,
}
use seadog.Core.Failure.{Failure, message}
use seadog.Front.Owner.{owner_flag, owner_from_args}

pub record Scan : Type 0 where
  pub owner : Option Text
  pub dash_c : Option Text
  pub direct : List Text

abbrev pub push_direct : Scan → Text → Scan
push_direct s a = record s { direct = s.direct ++ a ∷ [] }

-- An argument that is not taken as a flag with the value behind it.
unfoldable pub scan_other : Scan → Text → Scan
scan_other s a =
    if is_some s.owner then push_direct s a else elim (strip_prefix (lit "--owner=") a) [
      | none ↦ push_direct s a
      | some v ↦ record s { owner = some v }
    ]

-- The last argument has no value behind it.
unfoldable pub scan_loop : Scan → List Text → Scan
unfolding scan_other
scan_loop s [] = s
scan_loop s (a ∷ []) = scan_other s a
scan_loop s (a ∷ v ∷ tail) =
    let owned = scan_loop (record s { owner = some v }) tail in
    let commanded = scan_loop (record s { dash_c = some v }) tail in
    let other = scan_loop (scan_other s a) (v ∷ tail) in
    if text_eq a owner_flag && not (is_some s.owner)
    then owned
    else if text_eq a (lit "-c") && not (is_some s.dash_c)
    then commanded
    else other

unfoldable pub scan_login_argv : List Text → Scan
unfolding scan_loop
scan_login_argv tail = scan_loop (record { owner = none; dash_c = none; direct = [] }) tail

abbrev pub no_command : Failure
no_command = message (
    lit
      "no command supplied (seadog is a non-interactive login shell; use a verb like `ls`, `health`, or `create --image <name>`)")

abbrev pub real_tail : List Text → List Text
real_tail [] = []
real_tail (argv0 ∷ tail) = tail

-- The owner in front of the verb, if there is a verb.
unfoldable pub splice : Option Text → List Text → Result Failure (List Text)
splice owner [] = err no_command
splice none (v ∷ verb) = ok (v ∷ verb)
splice (some o) (v ∷ verb) = ok (owner_flag ∷ o ∷ v ∷ verb)

module _ (split : Text → Result Text (List Text)) where
  unfoldable pub tokenize : Text → Result Failure (List Text)
  tokenize cmd = elim (split cmd) [
    | err e ↦ err (message (lit "could not tokenize command: " ++ e))
    | ok words ↦ ok words
  ]

  unfoldable pub owner_pair_from_cmd : Text → Option Text
  owner_pair_from_cmd cmd = elim (split cmd) [ err e ↦ none | ok words ↦ (owner_from_args words).0 ]

  -- `dash_c.and_then(owner_pair_from_cmd)`
  abbrev pub mined : Option Text → Option Text
  mined none = none
  mined (some cmd) = owner_pair_from_cmd cmd

  -- The owner that the forced command names.
  unfoldable pub forced_owner : List Text → Option Text
  unfolding owner_pair_from_cmd scan_login_argv
  forced_owner raw = let s = scan_login_argv (real_tail raw) in or_else s.owner (mined s.dash_c)

  -- The words of the client's command, or the argv itself.
  unfoldable pub plain_verb : Scan → Result Failure (List Text)
  unfolding tokenize
  plain_verb s = elim s.dash_c [ none ↦ ok s.direct | some cmd ↦ tokenize cmd ]

  -- On the value of `SSH_ORIGINAL_COMMAND`.
  unfoldable pub resolve_argv : Option Text → List Text → Result Failure (List Text)
  unfolding tokenize splice forced_owner plain_verb
  resolve_argv (some original) raw = tokenize original >>= splice (forced_owner raw)
  resolve_argv none raw = let s = scan_login_argv (real_tail raw) in plain_verb s >>= splice s.owner

  -- What `run` goes on with: the owner, and the argv of the verb.
  unfoldable pub identified : Option Text → List Text → Result Failure (Option Text × List Text)
  unfolding resolve_argv
  identified original raw = resolve_argv original raw >>= λ argv. ok (owner_from_args argv)
