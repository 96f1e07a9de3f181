-- ===== src/Front/Host.antt =====
-- What the front-end is started with, and the verbs: crates/seadog/src/main.rs.
use seadog.Prelude.{
  ℕ, Bool, true, false, ◌++◌, Option, none, some, List, Result, ok, err, ◌>>=◌, ◌>>◌, ok_or,
  or_else, Text, lit,
}
use seadog.Prelude.Int.{ℤ, try_i64}
use seadog.Core.Errors.{Fallible}
use seadog.Core.Failure.{Failure, message, from_core}
use seadog.Core.Config.{Config, validate}
use seadog.Front.Fingerprint.{resolve_owner_from_authinfo}
use seadog.Front.Plan.{CreateArgs}

-- `enum Verb`
pub data Command : Type 0 where
  ls : Bool → Command
  show : Text → Command
  health : Command
  history : Option Text → Command
  stats : Command
  images : Command
  extend : (env_id duration : Text) → Command
  ack : Text → Command
  create : CreateArgs → Command
  destroy : Text → Command

pub data VerbClass : Type 0 where
  config_only read_only privileged : VerbClass

unfoldable pub verb_class : Command → VerbClass
verb_class images = config_only
verb_class (ls all) = read_only
verb_class (show env_id) = read_only
verb_class health = read_only
verb_class (history window) = read_only
verb_class stats = read_only
verb_class (create args) = privileged
verb_class (destroy env_id) = privileged
verb_class (extend env_id duration) = privileged
verb_class (ack env_id) = privileged

abbrev pub is_privileged : Command → Bool
is_privileged v = elim (verb_class v) [ privileged ↦ true | _ ↦ false ]

-- What `clap` makes of an argv: a verb, a help or version text that it prints before the process
-- exits, or an error.
pub data Parsed : Type 0 where
  parsed : Command → Parsed
  displayed : Parsed
  refused : Text → Parsed

pub record Host : Type 0 where
  pub argv : List Text
  pub ssh_original_command : Option Text
  pub ssh_auth_info : Option Text
  pub authorized_keys : Option Text
  pub is_root : Bool
  pub config : Fallible Config
  pub opened : Fallible (Unit {0})
  pub now_unix : ℤ
  pub guid : Text
  pub mac : Text
  pub token : List ℕ

unfoldable pub load_config : Fallible Config → Result Failure Config
load_config config = from_core (config >>= λ cfg. validate cfg >> ok cfg)

-- `resolve_owner_fallback`: the variable and the file are there.
abbrev pub fallback : (List ℕ → List ℕ) → Option Text → Option Text → Option Text
fallback sha256 none file = none
fallback sha256 (some info) none = none
fallback sha256 (some info) (some file) = resolve_owner_from_authinfo sha256 info file

-- The owner of the argv, or the one of the key.
unfoldable pub acting_owner : (List ℕ → List ℕ) → Host → Option Text → Option Text
acting_owner sha256 host owner_flag =
    or_else owner_flag (fallback sha256 host.ssh_auth_info host.authorized_keys)

unfoldable pub parse_duration_secs : (Text → Result Text ℕ) → Text → Result Failure ℤ
parse_duration_secs parse_duration s = elim (parse_duration s) [
  | err e ↦ err (message (lit "invalid duration '" ++ (s ++ (lit "': " ++ e))))
  | ok d ↦ ok_or (message (lit "duration '" ++ (s ++ lit "' is too large"))) (try_i64 d)
]

-- The window of `history`, and the duration of `extend`.
unfoldable pub window_secs : (Text → Result Text ℕ) → Option Text → Result Failure (Option ℤ)
unfolding parse_duration_secs
window_secs parse_duration none = ok none
window_secs parse_duration (some w) =
    parse_duration_secs parse_duration w >>= λ secs. ok (some secs)

unfoldable pub extension_secs : (Text → Result Text ℕ) → Text → Result Failure ℕ
extension_secs parse_duration s = elim (parse_duration s) [
  | err e ↦ err (message (lit "invalid duration '" ++ (s ++ (lit "': " ++ e))))
  | ok d ↦ ok d
]
