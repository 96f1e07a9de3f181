-- ===== src/Front/Tests.antt =====
-- An instance of each result about the front-end, at small inputs.
pub mod Entry
use seadog.Prelude.{
  ℕ, ◌≡◌, refl, none, some, [], ◌∷◌, join, Result, ok, err, Text, lit, text_eq, strip_prefix,
  ends_with_char, byte_len, utf8_width, arith,
}
use seadog.Prelude.Int.{pos}
use seadog.Core.Failure.{Failure}
use seadog.Core.Action.{Acting}
use seadog.Core.Post.{Post}
use seadog.Core.Store.Deadline.{Unchanged}
use seadog.Core.Reap.Routing.{World}
use seadog.Core.Tests.Data.{no_faults, config, kento, world, due_db}
use seadog.Priv.Teardown.{TeardownArgs, TeardownReport, teardown_run}
use seadog.Priv.Provision.{validate_mac}
use seadog.Core.Validate.{validate_guest_name, name_re_is_match}
use seadog.Front.Context.{Ctx}
use seadog.Front.Extend.{extend_run}
use seadog.Front.Extend.Window.{Lengthened, extend_run-Lengthened}
use seadog.Front.Ack.{ack_run}
use seadog.Front.Ack.Keys.{Spared}
use seadog.Front.Ack.Quiet.{alerts_of, Acked, ack_run-Acked}
use seadog.Front.Elevate.{ElevateArgs, ElevateError}
use seadog.Front.Owner.{owner_from_args, owner_loop, last_arg}
use seadog.Front.Mint.{
  mint_mac, mint_guest_name, dns_label, label_loop, pushed, flat_map, trim_start_hyphens,
  trim_end_hyphens, bounded_name, truncate,
}
use seadog.Front.Mint.Accepted.{mint_mac-validate_mac}
use seadog.Front.Plan.{CreateArgs}
use seadog.Front.Create.{Realized, create_run}
use seadog.Front.Create.Leased
use seadog.Front.Create.Leased.{Created, create_run-Created}
use seadog.Front.Destroy.{destroy_run}
use seadog.Front.Destroy.Owned.{Alike, Serves, destroy_run-Post}
use seadog.Front.Destroy.Owned

abbrev ctx : Ctx
ctx = record { owner = some (lit "ci"); config = config; now_unix = pos 1500 }

extend_run-Lengthened_example :
    Post
      (Lengthened ctx (lit "g1") 600 due_db)
      (λ e. Unchanged due_db)
      (extend_run no_faults ctx (lit "g1") 600 due_db)
extend_run-Lengthened_example =
    extend_run-Lengthened no_faults ctx (lit "g1") 600 due_db (omega arith, tt)

ack_run-Acked_example :
    Post
      (Acked ctx (lit "g1") due_db)
      (λ e. Spared (alerts_of (lit "g1")) due_db)
      (ack_run no_faults ctx (lit "g1") due_db)
ack_run-Acked_example = ack_run-Acked no_faults ctx (lit "g1") due_db

-- A helper in the same process: the flags' values are the arguments of `teardown_run`.
abbrev reply : Result Failure TeardownReport → Result ElevateError (Unit {0})
reply (ok r) = ok tt
reply (err e) = err (ElevateError.helper (lit "teardown") (some (lit "1")) [])

abbrev args_of : Text → Text → Text → TeardownArgs
args_of owner guid mode = record { owner = owner; guid = guid; mode = mode }

abbrev serve : ElevateArgs → Acting ElevateError World (Unit {0})
serve req w = elim req.args [
  | guid_flag ∷ guid ∷ mode_flag ∷ mode ∷ [] ↦
      let (r, w') =
        teardown_run kento (args_of req.owner guid mode) no_faults (lit "/db") (ok tt) w in
      (reply r, w')
  | _ ↦ (err (ElevateError.bad_json req.verb []), w)
]

Alike-reply : (r : Result Failure TeardownReport) → Alike (reply r) r
Alike-reply (ok r) = tt
Alike-reply (err e) = tt

serve-Serves : Serves no_faults kento (lit "/db") (ok tt) serve
serve-Serves = record {
  leaves = λ owner guid mode w. refl;
  says = λ owner guid mode w. Alike-reply _;
}

destroy_run-Post_example :
    Post
      (Owned.Q no_faults kento (lit "/db") (ok tt) serve ctx (lit "g1") world)
      (Owned.E no_faults kento (lit "/db") (ok tt) serve ctx (lit "g1") world)
      (destroy_run no_faults serve ctx (lit "g1") world)
destroy_run-Post_example =
    destroy_run-Post no_faults kento (lit "/db") (ok tt) serve ctx (lit "g1") world serve-Serves

-- `create`, with a helper that answers what an LXC does.
abbrev request_of : CreateArgs
request_of = record {
  image = lit "deb";
  mode = none;
  ttl = none;
  duration = some (lit "600");
  memory = some 16384;
  cores = none;
}

abbrev realize : ElevateArgs → Acting ElevateError World Realized
realize req w = (ok (record { mac = none; ssh_host_key_fps = none; vmid = none }), w)

abbrev ten_minutes : Text → Result Text ℕ
ten_minutes s = ok 600

abbrev keep : ℕ → Text
keep c = c ∷ []

create_run-Created_example :
    Post
      (Created no_faults realize
        (ok tt)
        ctx
        request_of
        (lit "g2")
        (lit "02:00:00:00:00:01")
        keep
        (0 ∷ 27 ∷ [])
        ten_minutes
        world)
      (Leased.Refused no_faults realize
        (ok tt)
        ctx
        request_of
        (lit "g2")
        (lit "02:00:00:00:00:01")
        keep
        (0 ∷ 27 ∷ [])
        ten_minutes
        world)
      (create_run no_faults realize
        (ok tt)
        ctx
        request_of
        (lit "g2")
        (lit "02:00:00:00:00:01")
        keep
        (0 ∷ 27 ∷ [])
        ten_minutes
        world)
create_run-Created_example =
    create_run-Created no_faults realize (ok tt) ctx request_of (lit "g2") (lit "02:00:00:00:00:01")
      keep (0 ∷ 27 ∷ []) ten_minutes world (λ req before. (refl, refl))

mint_mac-validate_mac_example : validate_mac (mint_mac 255 1 2 3 4 0xab) ≡ ok tt
mint_mac-validate_mac_example =
    mint_mac-validate_mac 255 1 2 3 4 0xab (omega arith) (omega arith) (omega arith) (omega arith)
      (omega arith) (omega arith)

minted : mint_mac 255 1 2 3 4 0xab ≡ lit "fe:01:02:03:04:ab"
unfolding mint_mac join
minted = refl

minted_name :
    mint_guest_name keep (lit "ci") (lit "my_image.x") (0 ∷ 27 ∷ [])
    ≡ ok (lit "seadog-ci-my-image-x-a1")
unfolding mint_guest_name dns_label label_loop pushed flat_map trim_start_hyphens trim_end_hyphens
    bounded_name truncate validate_guest_name name_re_is_match strip_prefix text_eq ends_with_char
    byte_len utf8_width
minted_name = refl

owner_by_equals :
    owner_from_args (lit "ls" ∷ lit "--owner=ci" ∷ lit "--owner" ∷ [])
    ≡ (some (lit "ci"), lit "ls" ∷ lit "--owner" ∷ [])
unfolding owner_from_args owner_loop last_arg text_eq strip_prefix
owner_by_equals = refl

owner_without_value : owner_from_args (lit "ls" ∷ lit "--owner" ∷ []) ≡ (none, lit "ls" ∷ [])
unfolding owner_from_args owner_loop last_arg text_eq strip_prefix
owner_without_value = refl
