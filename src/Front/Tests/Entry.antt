-- ===== src/Front/Tests/Entry.antt =====
-- An instance of each result about whom a caller acts as, and runs of the login shell.
use mathlib.Core.List.{foldl}
use seadog.Prelude.{
  true, ℕ, ◌+◌, ◌%◌, ◌≡◌, refl, false, if◌then◌else◌, none, some, List, [], ◌∷◌, Result, ok, err,
  Text, lit, text_eq, strip_prefix, split_whitespace, split_blank, push_first, is_whitespace, trim,
  arith,
}
use seadog.Prelude.Int.{pos}
use seadog.Core.Action.{Acting}
use seadog.Core.Reap.Routing.{World}
use seadog.Core.Models.{lxc, mode_from_str_opt, status_from_str_opt}
use seadog.Core.Store.{list_by_owner}
use seadog.Core.Rows.{collect_envs, newest_first, row_to_env}
use seadog.Core.Sql.{statement}
use seadog.Core.Tests.Data.{no_faults, config, world}
use seadog.Front.Elevate.{ElevateArgs, ElevateError}
use seadog.Core.Json.{Json, null}
use seadog.Front.Elevate.Run.{Output, build_argv, elevate, spawn_watcher}
use seadog.Front.Listings.{ls_run}
use seadog.Front.Owner.{owner_from_args, owner_loop, last_arg}
use seadog.Front.Login.{
  scan_other, scan_loop, scan_login_argv, forced_owner, splice, tokenize, plain_verb,
  owner_pair_from_cmd, resolve_argv, identified,
}
use seadog.Front.Login.Trusted.{ActsAs, identified-ActsAs}
use seadog.Front.Base64.{std, rev, decode_loop, decode_standard, encode_standard_nopad}
use seadog.Front.Base64.RoundTrip.{decode_standard-encode_standard_nopad}
use seadog.Front.Host.{ls, health, destroy, Parsed, parsed, displayed, refused, Host}
use seadog.Front.Main.{ctx_of, dispatch}

-- A tokenizer for commands without quotes.
abbrev words : Text → Result Text (List Text)
words s = ok (split_whitespace s)

abbrev forced_argv : List Text
forced_argv = lit "seadog" ∷ lit "-c" ∷ lit "seadog --owner ci" ∷ []

forced_by_dash_c : forced_owner words forced_argv ≡ some (lit "ci")
unfolding forced_owner scan_login_argv scan_loop scan_other owner_pair_from_cmd owner_from_args
    owner_loop split_whitespace split_blank push_first is_whitespace text_eq strip_prefix
forced_by_dash_c = refl

identified-ActsAs_example :
    ActsAs words
      (lit "ci")
      (lit "ls --owner root")
      (identified words (some (lit "ls --owner root")) forced_argv)
identified-ActsAs_example =
    identified-ActsAs words forced_argv (lit "ci") (lit "ls --owner root") forced_by_dash_c

-- Without a forced command, the client's own words name the owner.
client_names_owner :
    identified words none (lit "seadog" ∷ lit "-c" ∷ lit "ls --owner root" ∷ [])
    ≡ ok (some (lit "root"), lit "ls" ∷ [])
unfolding identified resolve_argv plain_verb tokenize splice scan_login_argv scan_loop scan_other
    owner_from_args owner_loop last_arg split_whitespace split_blank push_first is_whitespace
    text_eq strip_prefix
client_names_owner = refl

decode_standard-encode_standard_nopad_example :
    decode_standard (encode_standard_nopad (0 ∷ 255 ∷ 16 ∷ 7 ∷ [])) ≡ some (0 ∷ 255 ∷ 16 ∷ 7 ∷ [])
decode_standard-encode_standard_nopad_example =
    decode_standard-encode_standard_nopad (0 ∷ 255 ∷ 16 ∷ 7 ∷ []) (omega arith)

base64_encoded : encode_standard_nopad (lit "seadog!") ≡ lit "c2VhZG9nIQ"
unfolding encode_standard_nopad std
base64_encoded = refl

base64_decoded : decode_standard (lit "c2VhZG9nIQ==") ≡ some (lit "seadog!")
unfolding decode_standard decode_loop rev
base64_decoded = refl

-- A digest of one byte.
abbrev checksum : List ℕ → List ℕ
checksum blob = foldl (λ a b. a + b) 0 blob % 256 ∷ []

abbrev auth_info : Text
auth_info = lit "publickey ssh-rsa c2VhZG9nIQ"

abbrev key_file : Text
key_file = lit "command=\"seadog --owner ci\",restrict ssh-rsa c2VhZG9nIQ== x"

-- A parser of two verbs.
abbrev parse : List Text → Parsed
parse [] = displayed
parse (verb ∷ []) = if text_eq verb (lit "health") then parsed health else refused verb
parse (verb ∷ env_id ∷ rest) =
    if text_eq verb (lit "destroy") then parsed (destroy env_id) else refused verb

abbrev host : Host
host = record {
  argv = forced_argv;
  ssh_original_command = some (lit "destroy g1");
  ssh_auth_info = none;
  authorized_keys = none;
  is_root = false;
  config = ok config;
  opened = ok tt;
  now_unix = pos 1500;
  guid = lit "g2";
  mac = lit "02:00:00:00:00:01";
  token = 0 ∷ 27 ∷ [];
}

abbrev ten_minutes : Text → Result Text ℕ
ten_minutes s = ok 600

abbrev keep : ℕ → Text
keep c = c ∷ []

abbrev no_helper : {V : Type 0} → ElevateArgs → Acting ElevateError World V
no_helper req w = (err (ElevateError.spawn req.verb []), w)

-- The watcher cannot be started.
abbrev no_watcher : List Text → Acting Text World (Unit {0})
no_watcher argv w = (err (lit "no such file"), w)

-- A watcher that has torn down n1 by the time that the listing reads.
abbrev reaping_watcher : List Text → Acting Text World (Unit {0})
reaping_watcher argv w = (ok tt, record w { teardowns = (lit "n1", lxc) ∷ w.teardowns })

listing_starts_watcher :
    (dispatch {V = Unit {0}} no_faults ten_minutes keep reaping_watcher no_helper no_helper host
      (ctx_of host (some (lit "ci")) config)
      (ls false)
      world).1.teardowns
    ≡ (lit "n1", lxc) ∷ world.teardowns
unfolding dispatch spawn_watcher ls_run list_by_owner statement collect_envs newest_first row_to_env
    mode_from_str_opt status_from_str_opt text_eq
listing_starts_watcher = refl

abbrev list_request : ElevateArgs
list_request = record { verb = lit "list-owners"; owner = lit "ci"; args = [] }

abbrev printing : Text → List Text → Result Text Output
printing out argv = ok (record { success = true; code = some (pos 0); stdout = out; stderr = [] })

abbrev reads_null : Text → Result Text Json
reads_null t = if text_eq t (lit "null") then ok null else err (lit "expected value")

request_argv :
    build_argv list_request
    ≡ lit "/usr/bin/sudo"
      ∷ lit "/usr/lib/seadog/seadog-priv"
      ∷ lit "list-owners"
      ∷ lit "--owner"
      ∷ lit "ci"
      ∷ []
unfolding build_argv
request_argv = refl

answer_read :
    elevate (printing (lit " null\n")) reads_null list_request
    ≡ ok (record { verb = lit "list-owners"; result = null })
unfolding elevate text_eq trim is_whitespace
answer_read = refl

answer_unread :
    elevate (printing []) reads_null list_request
    ≡ err (ElevateError.bad_json (lit "list-owners") (lit "expected value"))
unfolding elevate text_eq trim is_whitespace
answer_unread = refl
