-- ===== src/Priv/Tests/Main.antt =====
-- Runs of the helper from its entry point, and an instance of what they may change.
use seadog.Prelude.{
  true, ◌∷◌, byte_len, utf8_width, ends_with_char, text_eq, decimal_on, ◌≡◌, refl, none, some, [],
  ok, err, lit,
}
use seadog.Prelude.Int.{pos}
use seadog.Core.Errors.{Error}
use seadog.Core.Failure.{core, message}
use seadog.Core.Config.{Config, nesting_ok_for_ref, validate, check_modes, check_users}
use seadog.Core.Sql.{tick, statement}
use seadog.Core.Models.{lxc, vm, mode_from_str_opt, status_from_str_opt}
use seadog.Core.Validate.{validate_owner_name}
use seadog.Core.Store.{get_env}
use seadog.Core.Rows.{optional_env, row_to_env}
use seadog.Core.Tests.Data.{no_faults, any_uuid, config, kento, world}
use seadog.Priv.Teardown.{TeardownArgs, teardown_run, parse_mode, open_db}
use seadog.Priv.Sweep.{already_held}
use seadog.Priv.Provision.{validate_image_ref}
use seadog.Priv.Main.{
  teardown, watch, Machine, Root, helper_run, already_running, no_backend, no_backend_err,
}

abbrev root : Root
root = record {
  euid = 0;
  config_path = lit "config.yaml";
  config = ok config;
  db_path = lit "seadog.db";
  opened = ok tt;
  lock = ok already_held;
  readable = ok tt;
  writable = ok tt;
  ssh_key_file = none;
  kento = λ n. kento;
  clock = λ n. pos 5000;
  provision = λ before spec. err (Error.kento (lit "image not found"));
}

abbrev machine : Machine
machine = record { world = world; keys = []; requests = [] }

abbrev gone : TeardownArgs
gone = record { owner = lit "ci"; guid = lit "g1"; mode = lit "lxc" }

not_root :
    helper_run no_faults any_uuid (record root { euid = 1000 }) 0 (teardown gone) machine
    ≡ some (err (message (lit "seadog-priv must run as root (euid 0), but euid is 1000")), machine)
unfolding helper_run decimal_on
not_root = refl

watcher_there :
    helper_run no_faults any_uuid root 0 watch machine ≡ some (ok already_running, machine)
unfolding helper_run validate check_modes check_users
watcher_there = refl

-- A build without the backend refuses at its first question to kento, after one statement.
without_backend :
    helper_run no_faults any_uuid (no_backend root) 0 (teardown gone) machine
    ≡ some
        (err (core no_backend_err), record machine { world = record world { db = tick world.db } })
unfolding helper_run validate check_modes check_users teardown_run parse_mode mode_from_str_opt
    text_eq validate_owner_name byte_len utf8_width ends_with_char open_db get_env statement
    optional_env row_to_env status_from_str_opt
without_backend = refl

-- One ref under two aliases: nesting is permitted for containers alone.
abbrev two_aliases : Config
two_aliases = record config {
  images =
      (
        lit "nest",
        record { image_ref = lit "r"; modes = lxc ∷ []; user = none; allow_nesting = some true },
      )
      ∷ (
        lit "plain",
        record { image_ref = lit "r"; modes = vm ∷ []; user = none; allow_nesting = none },
      )
      ∷ [];
}

-- A machine with nesting passes both checks.
aliases_mixed :
    (validate_image_ref (lit "r") vm two_aliases ≡ ok tt)
    × (nesting_ok_for_ref two_aliases (lit "r") true ≡ true)
unfolding validate_image_ref nesting_ok_for_ref text_eq
aliases_mixed = (refl, refl)
