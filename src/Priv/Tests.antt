-- ===== src/Priv/Tests.antt =====
-- An instance of each result about the helper, at small inputs.
pub mod Main
use seadog.Prelude.{
  decimal_on, ℕ, ◌≡◌, refl, true, false, none, some, [], ◌∷◌, strip_prefix, ok, arith, any, Text,
  lit, text_eq, split_char, is_whitespace, List, byte_len, utf8_width, ends_with_char, trim,
  trim_start, trim_end, split_whitespace, split_blank, push_first, lines, closed_lines,
}
use seadog.Prelude.Int.{ℤ, pos}
use seadog.Core.Errors.{Fallible}
use seadog.Core.Post.{Post}
use seadog.Core.Models.{lxc, mode_as_str}
use seadog.Core.Kento.{provision_argv, ProvisionSpec, ProvisionOutcome}
use seadog.Core.AuthKeys.{
  forced_command_line, is_control, owner_in_line, key_blob_of_line, key_blob, validate_key_line,
  parse_owner_line, parse_trimmed, command_of, find_text, before_quote, owner_of_tokens,
  key_body_of_line, first_body, at_boundary, entry_of, comment_of, after_blank, check_controls,
  check_fields, check_blob, is_key_type,
}
use seadog.Core.Validate.{validate_owner_name}
use seadog.Core.Reap.Routing.{Kento}
use seadog.Core.Tests.Data.{no_faults, any_uuid, config, kento, world}
use seadog.Priv.Teardown.{TeardownArgs, teardown_run}
use seadog.Priv.Teardown.Safety.{Answered, Refused, teardown_run-Post}
use seadog.Priv.Watch.{at_start, run_loop}
use seadog.Priv.Watch.Bound.{EndsBy, run_loop-EndsBy}
use seadog.Priv.Watch.Idle.{Stopped, run_loop-NoneActive}
use seadog.Priv.Sweep.{already_held, run_gated}
use seadog.Priv.Sweep.Gate.{Gated, Stays, run_gated-Gated}
use seadog.Priv.Owners.{frontend_bin, add_owner}
use seadog.Priv.Owners.Line.{forced_command_line-OneLine}
use seadog.Priv.Owners.Lines.{nothing}
use seadog.Priv.Owners.Added.{IsSound, Kept, add_owner-Kept}
use seadog.Priv.Provision.{ProvisionArgs, provision_run}
use seadog.Priv.Provision.Checked.{Requested, provision_run-Validated}
use seadog.Priv.Provision.Checked

abbrev teardown_args : TeardownArgs
teardown_args = record { owner = lit "ci"; guid = lit "g1"; mode = lit "lxc" }

teardown_run-Post_example :
    Post
      (Answered kento teardown_args world.db [])
      (Refused kento teardown_args world.db [])
      (teardown_run kento teardown_args no_faults (lit "/db") (ok tt) world)
teardown_run-Post_example =
    teardown_run-Post no_faults kento (lit "/db") (ok tt) teardown_args world

abbrev kento_at : ℕ → Kento
kento_at n = kento

abbrev clock : ℕ → ℤ
clock n = pos 5000

run_loop-EndsBy_example :
    EndsBy 3 (run_loop no_faults config any_uuid kento_at clock (some 3) 4 0 at_start world)
run_loop-EndsBy_example =
    run_loop-EndsBy no_faults config any_uuid kento_at clock 3 world (omega arith)

run_loop-NoneActive_example :
    Stopped no_faults config any_uuid kento_at clock none
      (run_loop no_faults config any_uuid kento_at clock none 5 0 at_start world)
run_loop-NoneActive_example =
    run_loop-NoneActive no_faults config any_uuid kento_at clock none 5 0 at_start world

run_gated-Gated_example :
    Post
      (Gated no_faults config any_uuid kento (pos 5000) world (ok already_held))
      (Stays no_faults config any_uuid kento (pos 5000) world (ok already_held))
      (run_gated no_faults config any_uuid kento (pos 5000) (ok already_held) world)
run_gated-Gated_example =
    run_gated-Gated no_faults config any_uuid kento (pos 5000) world (ok already_held)

abbrev key_line : Text
key_line = lit "ssh-ed25519 AAAAC3 ci@host"

valid_owner : validate_owner_name (lit "ci") ≡ ok tt
unfolding validate_owner_name byte_len utf8_width ends_with_char
valid_owner = refl

valid_key : validate_key_line key_line ≡ ok tt
unfolding validate_key_line check_controls check_fields check_blob is_key_type trim trim_start
    trim_end split_whitespace split_blank push_first is_whitespace text_eq
valid_key = refl

forced_command_line-OneLine_example :
    let line = forced_command_line frontend_bin (lit "ci") key_line in
    (any is_control line ≡ false)
    × (owner_in_line line ≡ some (lit "ci"))
    × (key_blob_of_line line ≡ key_blob key_line)
forced_command_line-OneLine_example =
    forced_command_line-OneLine (lit "ci") key_line valid_owner valid_key

empty_file-IsSound : IsSound []
unfolding lines closed_lines split_char
empty_file-IsSound = record { closed = nothing; each = tt }

add_owner-Kept_example :
    Post
      (Kept (lit "ci") key_line [])
      (λ e w. w ≡ [])
      (add_owner (ok tt) (ok tt) (lit "ci") key_line [])
add_owner-Kept_example = add_owner-Kept (ok tt) (ok tt) (lit "ci") key_line [] empty_file-IsSound

abbrev provision_args : ProvisionArgs
provision_args = record {
  owner = lit "ci";
  guid = lit "g1";
  ip = lit "192.168.99.200";
  mac = lit "aa:bb:cc:dd:ee:ff";
  name = lit "seadog-ci-a";
  mode = lit "lxc";
  image_ref = lit "debian";
  allow_nesting = false;
  memory = some 4096;
  cores = none;
}

abbrev provisions : List ProvisionSpec → ProvisionSpec → Fallible ProvisionOutcome
provisions before spec = ok (record { mac = none; ssh_host_key_fps = []; vmid = none })

provision_run-Validated_example :
    Post
      (λ o. Requested config provision_args none [])
      (Checked.Refused config provision_args none [])
      (provision_run config provision_args provisions none [])
provision_run-Validated_example = provision_run-Validated config provision_args none provisions []

-- A comment that names a key type hides the key from the parser.
comment_hides_key :
    parse_owner_line (forced_command_line frontend_bin (lit "ci") (lit "ssh-rsa AAAA ssh-ed25519"))
    ≡ none
unfolding parse_owner_line parse_trimmed owner_in_line command_of find_text before_quote
    owner_of_tokens key_body_of_line first_body at_boundary entry_of forced_command_line trim
    trim_start trim_end split_whitespace split_blank push_first is_whitespace text_eq strip_prefix
comment_hides_key = refl

-- An owner that is named as a key type is taken for the key.
owner_named_as_type :
    parse_owner_line (forced_command_line frontend_bin (lit "ssh-rsa") (lit "ssh-dss AAAA"))
    ≡ some (record {
      owner = lit "ssh-rsa";
      key_type = lit "ssh-rsa\",restrict";
      blob = lit "ssh-dss";
      comment = some (lit "AAAA");
    })
unfolding parse_owner_line parse_trimmed owner_in_line command_of find_text before_quote
    owner_of_tokens key_body_of_line first_body at_boundary entry_of comment_of after_blank
    forced_command_line trim trim_start trim_end split_whitespace split_blank push_first
    is_whitespace text_eq strip_prefix
owner_named_as_type = refl

-- What kento is asked for an LXC and for a VM: only the VM is given its MAC.
abbrev small_spec : ProvisionSpec
small_spec = record {
  mode = lxc;
  image_ref = lit "debian";
  name = lit "seadog-a";
  mac = lit "aa";
  ip = lit "10.0.0.1";
  prefix = 24;
  gateway = lit "10.0.0.254";
  bridge = lit "vmbr0";
  guid = lit "g1";
  owner = lit "ci";
  ssh_key_file = none;
  ssh_key_user = lit "root";
  allow_nesting = true;
  memory = some 64;
  cores = none;
}

provision_argv_lxc :
    provision_argv small_spec
    ≡ lit "lxc"
      ∷ lit "create"
      ∷ lit "--name"
      ∷ lit "seadog-a"
      ∷ lit "--network"
      ∷ lit "bridge=vmbr0"
      ∷ lit "--ip"
      ∷ lit "10.0.0.1/24"
      ∷ lit "--gateway"
      ∷ lit "10.0.0.254"
      ∷ lit "--ssh-host-keys"
      ∷ lit "--start"
      ∷ lit "--env"
      ∷ lit "SEADOG_GUID=g1"
      ∷ lit "--env"
      ∷ lit "SEADOG_OWNER=ci"
      ∷ lit "--allow-nesting"
      ∷ lit "--memory"
      ∷ lit "64"
      ∷ lit "debian"
      ∷ []
unfolding provision_argv mode_as_str decimal_on
provision_argv_lxc = refl
