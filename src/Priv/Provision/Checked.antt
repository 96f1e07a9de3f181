-- ===== src/Priv/Provision/Checked.antt =====
-- Which requests the helper (crates/seadog-priv/src/provision.rs) makes to kento.
use seadog.Prelude.{
  ℕ, zero, suc, ◌≤◌, ◌≡◌, refl, ap, subst, not, lit, leb, ◌==◌, if◌then◌else◌, ◌⊎◌, inl, inr, Bool,
  true, false, Option, none, some, List, ◌∷◌, Result, ok, err, fail_if, any, >>=-eq-ok, >>-eq-ok,
  ok_or-eq-ok, Text, is_empty, trim, arith,
}
use seadog.Prelude.Ipv4.{parse_ip, ip_text}
use seadog.Core.Errors.{Fallible}
use seadog.Core.Failure.{Failure, message, from_core, from_core-eq-ok}
use seadog.Core.Models.{Mode, mode_from_str_opt}
use seadog.Core.Config.{Config, login_user_for_ref, nesting_ok_for_ref}
use seadog.Core.Validate.{validate_guest_name, validate_owner_name}
use seadog.Core.Validate.Names.{
  IsGuestName, IsOwnerName, validate_guest_name_iff, validate_owner_name_iff,
}
use seadog.Core.Kento.{ProvisionSpec, ProvisionOutcome}
use seadog.Core.Post.{Post}
use seadog.Priv.Teardown.{parse_mode}
use seadog.Priv.Provision.Listed.{Offers, Nests, permits-Offers, nesting_ok_for_ref-Nests}
use seadog.Priv.Provision.{
  ProvisionArgs, mac_from, validate_mac, permits, validate_image_ref, clamp_resource, ip_error,
  check_ip, spec_of, checked_spec, asked, provision_run,
}

-- A size is the kento's own, or at least 1 and within the ceiling, of which 0 is none.
abbrev pub Within : ℕ → Option ℕ → Type 0
Within ceiling none = Unit {0}
Within ceiling (some v) = (1 ≤ v) × ((ceiling ≡ 0) ⊎ (v ≤ ceiling))

module _ (config : Config) (args : ProvisionArgs) where
  pub record Validated (spec : ProvisionSpec) : Type 0 where
    pub mode : mode_from_str_opt args.mode ≡ some spec.mode
    pub name : IsGuestName spec.name
    pub owner : IsOwnerName spec.owner
    pub mac : mac_from 5 spec.mac ≡ true
    pub ip : (u : ℕ) × (parse_ip spec.ip ≡ some u)
    pub guid : is_empty (trim spec.guid) ≡ false
    pub image : Offers config spec.image_ref spec.mode
    pub nesting : Nests config spec.image_ref spec.allow_nesting
    pub user : spec.ssh_key_user ≡ login_user_for_ref config spec.image_ref
    pub gateway : spec.gateway ≡ ip_text config.allocation.ip_pool.gateway
    pub bridge : spec.bridge ≡ config.allocation.bridge
    pub memory : Within config.allocation.caps.max_memory_mb spec.memory
    pub cores : Within config.allocation.caps.max_cores spec.cores

clamped_lem :
    (ceiling n : ℕ)
    → Within ceiling
        (some (if ceiling == 0 then suc n else if leb (suc n) ceiling then suc n else ceiling))
clamped_lem ceiling n = ground arith

clamp_resource-Within :
    (req : Option ℕ) (ceiling : ℕ) (label : Text) (v : Option ℕ)
    → clamp_resource req ceiling label ≡ ok v
    → Within ceiling v
unfolding clamp_resource
clamp_resource-Within none ceiling label v h =
    subst (Within ceiling) (ap (λ r. elim r [ ok a ↦ a | err e ↦ none ]) h) tt
clamp_resource-Within (some zero) ceiling label v h = cc
clamp_resource-Within (some (suc n)) ceiling label v h =
    subst (Within ceiling) (ap (λ r. elim r [ ok a ↦ a | err e ↦ none ]) h) (clamped_lem ceiling n)

abbrev Passes : Result Failure (Unit {0}) → Type 0
Passes r = r ≡ ok tt

if-ok : (good : Bool) (e : Failure) → Passes (if good then ok tt else err e) → good ≡ true
if-ok true e h = refl
if-ok false e h = cc

fail_if-ok : (bad : Bool) (e : Failure) → fail_if bad e ≡ ok tt → bad ≡ false
fail_if-ok true e h = cc
fail_if-ok false e h = refl

module _ (config : Config) (args : ProvisionArgs) (ssh_key_file : Option Text) where
  validated :
      (mode : Mode) (memory cores : Option ℕ)
      → parse_mode args.mode ≡ ok mode
      → from_core (validate_guest_name args.name) ≡ ok tt
      → validate_mac args.mac ≡ ok tt
      → check_ip config args ≡ ok tt
      → fail_if (is_empty (trim args.guid)) (message (lit "guid must not be empty")) ≡ ok tt
      → from_core (validate_owner_name args.owner) ≡ ok tt
      → validate_image_ref args.image_ref mode config ≡ ok tt
      → fail_if
          (not (nesting_ok_for_ref config args.image_ref args.allow_nesting))
          (message (lit "nesting setting not permitted for image"))
        ≡ ok tt
      → Within config.allocation.caps.max_memory_mb memory
      → Within config.allocation.caps.max_cores cores
      → Validated config args (spec_of config args ssh_key_file mode memory cores)
  unfolding parse_mode validate_mac check_ip validate_image_ref
  validated mode memory cores parsed named mac_ok ip_ok guid_ok owned image_ok nest_ok m c =
      record {
        mode = ok_or-eq-ok _ (mode_from_str_opt args.mode) parsed;
        name =
            (validate_guest_name_iff args.name).0
              (from_core-eq-ok (validate_guest_name args.name) named);
        owner =
            (validate_owner_name_iff args.owner).0
              (from_core-eq-ok (validate_owner_name args.owner) owned);
        mac = if-ok (mac_from 5 args.mac) _ mac_ok;
        ip = parsed_ip (parse_ip args.ip) ip_ok;
        guid = fail_if-ok (is_empty (trim args.guid)) _ guid_ok;
        image =
            permits-Offers config args.image_ref mode
              (if-ok (any (permits args.image_ref mode) config.images) _ image_ok);
        nesting = nesting_ok_for_ref-Nests config args.image_ref args.allow_nesting (
            ground (
              arith,
              fail_if-ok (not (nesting_ok_for_ref config args.image_ref args.allow_nesting)) _
                  nest_ok,
            ));
        user = refl;
        gateway = refl;
        bridge = refl;
        memory = m;
        cores = c;
      }
    where
      parsed_ip :
          (found : Option ℕ)
          → Passes (elim found [ none ↦ err (ip_error config args) | some ip ↦ ok tt ])
          → (u : ℕ) × (found ≡ some u)
      parsed_ip none h = cc
      parsed_ip (some u) h = (u, refl)

  checked_spec-Validated :
      (spec : ProvisionSpec)
      → checked_spec config args ssh_key_file ≡ ok spec
      → Validated config args spec
  unfolding checked_spec
  checked_spec-Validated spec h0 =
      let (mode, parsed, h1) = >>=-eq-ok (parse_mode args.mode) _ h0 in
      let (named, h2) = >>-eq-ok (from_core (validate_guest_name args.name)) _ h1 in
      let (mac_ok, h3) = >>-eq-ok (validate_mac args.mac) _ h2 in
      let (ip_ok, h4) = >>-eq-ok (check_ip config args) _ h3 in
      let (guid_ok, h5) = >>-eq-ok (fail_if (is_empty (trim args.guid)) _) _ h4 in
      let (owned, h6) = >>-eq-ok (from_core (validate_owner_name args.owner)) _ h5 in
      let (image_ok, h7) = >>-eq-ok (validate_image_ref args.image_ref mode config) _ h6 in
      let (nest_ok, h8) =
        >>-eq-ok (fail_if (not (nesting_ok_for_ref config args.image_ref args.allow_nesting)) _) _
          h7 in
      let (memory, memory_ok, h9) =
        >>=-eq-ok (clamp_resource args.memory config.allocation.caps.max_memory_mb (lit "memory")) _
          h8 in
      let (cores, cores_ok, h10) =
        >>=-eq-ok (clamp_resource args.cores config.allocation.caps.max_cores (lit "cores")) _ h9 in
      subst (Validated config args) (ap (λ r. elim r [ ok a ↦ a | err e ↦ spec ]) h10) (
        validated mode memory cores parsed named mac_ok ip_ok guid_ok owned image_ok nest_ok
          (clamp_resource-Within args.memory _ _ memory memory_ok)
          (clamp_resource-Within args.cores _ _ cores cores_ok))

  -- The request that was made.
  abbrev pub Requested : List ProvisionSpec → List ProvisionSpec → Type 0
  Requested before after =
      (spec : ProvisionSpec) × (after ≡ spec ∷ before) × Validated config args spec

  abbrev pub Refused : List ProvisionSpec → Failure → List ProvisionSpec → Type 0
  Refused before e after = (after ≡ before) ⊎ Requested before after

  module _ (provision : List ProvisionSpec → ProvisionSpec → Fallible ProvisionOutcome)
      (before : List ProvisionSpec) where
    requested :
        (r : Result Failure ProvisionSpec)
        → checked_spec config args ssh_key_file ≡ r
        → Post
            (λ (o : ProvisionOutcome). Requested before)
            (Refused before)
            (elim r [
              | err e ↦ (err e, before)
              | ok spec ↦ asked config args spec (provision before spec) before
            ])
    unfolding asked
    requested (err e) h = inl refl
    requested (ok spec) h =
        answered_lem (provision before spec) (spec, refl, checked_spec-Validated spec h)
      where
        answered_lem :
            (answer : Fallible ProvisionOutcome)
            → Requested before (spec ∷ before)
            → Post (λ o. Requested before) (Refused before) (from_core answer, spec ∷ before)
        answered_lem (ok o) made = made
        answered_lem (err e) made = inr made

    -- The helper makes at most one request to kento, and none if it refuses. Whatever the front-end
    -- sent, the request names a guest and an owner by valid names, has a well-formed MAC and address
    -- and a guid that is not blank, an image ref that the helper's own config lists with that mode, a
    -- nesting setting that some entry of that ref has, though perhaps not the one with that mode, the
    -- login user, bridge and gateway of that config, and sizes of at least 1 within its ceilings.
    pub provision_run-Validated :
        Post
          (λ o. Requested before)
          (Refused before)
          (provision_run config args provision ssh_key_file before)
    unfolding provision_run
    provision_run-Validated = requested (checked_spec config args ssh_key_file) refl
