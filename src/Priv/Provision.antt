-- ===== src/Priv/Provision.antt =====
-- `provision` of the helper: crates/seadog-priv/src/provision.rs. What kento answers to a request,
-- and the path of the temporary file that the owner's keys are written to, are arguments.
pub mod Checked
pub mod Listed
use seadog.Prelude.{
  ℕ, zero, suc, Bool, true, false, not, ◌&&◌, ◌||◌, Option, none, some, List, [], ◌∷◌, ◌++◌, Result,
  ok, err, ◌>>=◌, ◌>>◌, fail_if, any, leb, ◌==◌, if◌then◌else◌, Text, lit, text_eq, is_empty,
  is_ascii_digit, trim,
}
use seadog.Prelude.Ipv4.{parse_ip, ip_text}
use seadog.Core.Errors.{Fallible}
use seadog.Core.Failure.{Failure, message, from_core}
use seadog.Core.Models.{Mode, mode_eq, mode_as_str}
use seadog.Core.Config.{Image, Config, login_user_for_ref, nesting_ok_for_ref}
use seadog.Core.Validate.{validate_guest_name, validate_owner_name}
use seadog.Core.Kento.{ProvisionSpec, ProvisionOutcome}
use seadog.Core.Action.{Acting}
use seadog.Priv.Teardown.{parse_mode}

pub record ProvisionArgs : Type 0 where
  pub owner : Text
  pub guid : Text
  pub ip : Text
  pub mac : Text
  pub name : Text
  pub mode : Text
  pub image_ref : Text
  pub allow_nesting : Bool
  pub memory : Option ℕ
  pub cores : Option ℕ

-- `[0-9a-f]`
abbrev pub is_hex : ℕ → Bool
is_hex c = is_ascii_digit c || (leb b'a' c && leb c b'f')

-- `([0-9a-f]{2}:){n}[0-9a-f]{2}$`
unfoldable pub mac_from : ℕ → Text → Bool
mac_from zero (a ∷ b ∷ []) = is_hex a && is_hex b
mac_from (suc n) (a ∷ b ∷ c ∷ rest) = is_hex a && is_hex b && c == b':' && mac_from n rest
mac_from n s = false

unfoldable pub validate_mac : Text → Result Failure (Unit {0})
unfolding mac_from
validate_mac mac =
    if mac_from 5 mac
    then ok tt
    else err
        (message (lit "mac '" ++ (mac ++ lit "' is not a lowercase xx:xx:xx:xx:xx:xx address")))

-- An entry of the allowlist with that ref and mode.
abbrev pub permits : Text → Mode → (Text × Image) → Bool
permits image_ref mode e = text_eq e.1.image_ref image_ref && any (mode_eq mode) e.1.modes

unfoldable pub validate_image_ref : Text → Mode → Config → Result Failure (Unit {0})
validate_image_ref image_ref mode config =
    if any (permits image_ref mode) config.images
    then ok tt
    else err (
        message (
          lit "image-ref '"
          ++ (image_ref
              ++ (lit "' is not allowlisted for mode '"
                  ++ (mode_as_str mode ++ lit "' (rejecting arbitrary ref)")))))

unfoldable pub clamp_resource : Option ℕ → ℕ → Text → Result Failure (Option ℕ)
clamp_resource none ceiling label = ok none
clamp_resource (some zero) ceiling label =
    err (message (lit "--" ++ (label ++ lit " must be >= 1")))
clamp_resource (some (suc v)) ceiling label =
    ok (some (if ceiling == 0 then suc v else if leb (suc v) ceiling then suc v else ceiling))

module _ (config : Config) (args : ProvisionArgs) where
  abbrev pub ip_error : Failure
  ip_error =
      message (
        lit "ip '" ++ (args.ip ++ lit "' is not a valid IPv4 address: invalid IPv4 address syntax"))

  unfoldable pub check_ip : Result Failure (Unit {0})
  check_ip = elim (parse_ip args.ip) [ none ↦ err ip_error | some ip ↦ ok tt ]

  -- The request, with the file of the owner's keys if there is one.
  abbrev pub spec_of : Option Text → Mode → Option ℕ → Option ℕ → ProvisionSpec
  spec_of ssh_key_file mode memory cores = record {
    mode = mode;
    image_ref = args.image_ref;
    name = args.name;
    mac = args.mac;
    ip = args.ip;
    prefix = config.allocation.ip_pool.prefix;
    gateway = ip_text config.allocation.ip_pool.gateway;
    bridge = config.allocation.bridge;
    guid = args.guid;
    owner = args.owner;
    ssh_key_file = ssh_key_file;
    ssh_key_user = login_user_for_ref config args.image_ref;
    allow_nesting = args.allow_nesting;
    memory = memory;
    cores = cores;
  }

  -- Everything that `run` checks before it asks kento.
  unfoldable pub checked_spec : Option Text → Result Failure ProvisionSpec
  unfolding check_ip
  checked_spec ssh_key_file = do
    mode ← parse_mode args.mode
    from_core (validate_guest_name args.name)
    validate_mac args.mac
    check_ip
    fail_if (is_empty (trim args.guid)) (message (lit "guid must not be empty"))
    from_core (validate_owner_name args.owner)
    validate_image_ref args.image_ref mode config
    fail_if (not (nesting_ok_for_ref config args.image_ref args.allow_nesting))
        (message (lit "nesting setting not permitted for image"))
    memory ← clamp_resource args.memory config.allocation.caps.max_memory_mb (lit "memory")
    cores ← clamp_resource args.cores config.allocation.caps.max_cores (lit "cores")
    ok (spec_of ssh_key_file mode memory cores)

  -- `kento.provision`, by what it says: the requests made so far are the state.
  unfoldable pub asked :
      ProvisionSpec
      → Fallible ProvisionOutcome
      → Acting Failure (List ProvisionSpec) ProvisionOutcome
  asked spec answer before = (from_core answer, spec ∷ before)

  unfoldable pub provision_run :
      (List ProvisionSpec → ProvisionSpec → Fallible ProvisionOutcome)
      → Option Text
      → Acting Failure (List ProvisionSpec) ProvisionOutcome
  unfolding checked_spec asked
  provision_run provision ssh_key_file before = elim (checked_spec ssh_key_file) [
    | err e ↦ (err e, before)
    | ok spec ↦ asked spec (provision before spec) before
  ]
