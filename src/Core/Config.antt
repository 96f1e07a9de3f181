-- ===== src/Core/Config.antt =====
-- The configuration of crates/core/src/config.rs. A duration is its whole seconds (`as_secs`), an
-- address its `u32`, and a map the list of its entries in the order in which it is walked. The
-- parse from YAML is the serde crate's, and is not modelled.
pub mod Users
use seadog.Prelude.{
  ℕ, Bool, true, false, ◌&&◌, ◌++◌, Option, none, some, List, [], ◌∷◌, ◌>>=◌, ◌>>◌, ok, err,
  fail_if, find, any, all, unwrap_or, lookup, leb, if◌then◌else◌, Text, lit, text_eq, is_whitespace,
}
use seadog.Prelude.Ipv4.{ip_text}
use seadog.Core.Models.{Mode}
use seadog.Core.Errors.{Error, Fallible}

pub record Caps : Type 0 where
  pub max_lxc_per_owner : ℕ
  pub max_vm_per_owner : ℕ
  pub max_memory_mb : ℕ
  pub max_cores : ℕ

pub record IpPool : Type 0 where
  pub range : ℕ × ℕ
  pub gateway : ℕ
  pub prefix : ℕ

pub record Allocation : Type 0 where
  pub bridge : Text
  pub ip_pool : IpPool
  pub caps : Caps

pub record Image : Type 0 where
  pub image_ref : Text
  pub modes : List Mode
  pub user : Option Text
  pub allow_nesting : Option Bool

pub record OwnerOverride : Type 0 where
  pub max_lxc : Option ℕ
  pub max_vm : Option ℕ

pub record Lifecycle : Type 0 where
  pub age_floor : ℕ
  pub default_duration : ℕ
  pub default_ttl : ℕ
  pub max_ttl : ℕ
  pub grace : ℕ
  pub herd_cap : ℕ

pub record Retention : Type 0 where
  pub terminal : ℕ

pub record Notify : Type 0 where
  pub journald : Bool
  pub command : Option Text
  pub dir : Option Text
  pub reescalate : ℕ

pub record Cadence : Type 0 where
  pub fast : ℕ
  pub idle : ℕ

pub record Config : Type 0 where
  pub reaper_enabled : Bool
  pub cadence : Cadence
  pub allocation : Allocation
  pub images : List (Text × Image)
  pub default_user : Text
  pub kento_path : Option Text
  pub owners : List (Text × OwnerOverride)
  pub lifecycle : Lifecycle
  pub retention : Retention
  pub notify : Notify

-- The `Default` of each section.
abbrev pub default_lifecycle : Lifecycle
default_lifecycle = record {
  age_floor = 300;
  default_duration = 1800;
  default_ttl = 3600;
  max_ttl = 604800;
  grace = 600;
  herd_cap = 10;
}

abbrev pub default_caps : Caps
default_caps = record {
  max_lxc_per_owner = 8;
  max_vm_per_owner = 3;
  max_memory_mb = 8192;
  max_cores = 8;
}

abbrev pub default_notify : Notify
default_notify = record { journald = true; command = none; dir = none; reescalate = 1800 }

abbrev pub default_allocation : Allocation
default_allocation = record {
  bridge = lit "vmbr0";
  ip_pool = record { range = (0xc0a863c0, 0xc0a863fe); gateway = 0xc0a86301; prefix = 24 };
  caps = default_caps;
}

-- The user that an entry pins, or the default one.
abbrev pub effective_user : Text → Image → Text
effective_user default_user img = unwrap_or default_user img.user

abbrev pub has_no_mode : Image → Bool
has_no_mode img = elim img.modes [ [] ↦ true | m ∷ ms ↦ false ]

-- The loop of `validate` over the modes.
unfoldable pub check_modes : List (Text × Image) → Fallible (Unit {0})
check_modes [] = ok tt
check_modes ((name, img) ∷ images) =
    if has_no_mode img
    then err
        (Error.config_validation (lit "image '" ++ (name ++ lit "' must allow at least one mode")))
    else check_modes images

-- The loop of `validate` over the users; `seen` maps a ref to the first alias and its user.
unfoldable pub check_users :
    Text → List (Text × Image) → List (Text × (Text × Text)) → Fallible (Unit {0})
check_users default_user [] seen = ok tt
check_users default_user ((name, img) ∷ images) seen =
    let user = effective_user default_user img in
    let fresh = check_users default_user images ((img.image_ref, (name, user)) ∷ seen) in
    let known = check_users default_user images seen in
    elim (lookup img.image_ref seen) [
      | none ↦ fresh
      | some first ↦
          if text_eq first.1 user
          then known
          else err (
              Error.config_validation (
                lit "images '"
                ++ (first.0
                    ++ (lit "' and '"
                        ++ (name
                            ++ (lit "' share ref '"
                                ++ (img.image_ref
                                    ++ (lit "' but pin different login users ('"
                                        ++ (first.1
                                            ++ (lit "' vs '"
                                                ++ (user
                                                    ++ lit
                                                        "'); aliases sharing a ref must agree on user (login_user_for_ref resolves by ref alone)")))))))))))
    ]

abbrev no_images : List (Text × Image) → Bool
no_images [] = true
no_images (e ∷ images) = false

-- `p.trim().is_empty()` of a path that is set.
abbrev blank_path : Option Text → Bool
blank_path none = false
blank_path (some p) = all is_whitespace p

unfoldable pub validate : Config → Fallible (Unit {0})
validate c = do
  fail_if (no_images c.images) (Error.config_validation (lit "images allowlist must not be empty"))
  check_modes c.images
  check_users c.default_user c.images []
  let range = c.allocation.ip_pool.range
  fail_if (leb range.1 range.0) (
      Error.config_validation (
        lit "ip_pool.range low ("
        ++ (ip_text range.0 ++ (lit ") must be < high (" ++ (ip_text range.1 ++ lit ")")))))
  fail_if (blank_path c.kento_path)
      (Error.config_validation (lit "kento_path, when set, must not be empty"))

unfoldable pub login_user_for_image : Config → Text → Text
login_user_for_image c name = elim (lookup name c.images) [
  | none ↦ c.default_user
  | some img ↦ unwrap_or c.default_user img.user
]

abbrev pub has_ref : Text → Text × Image → Bool
has_ref image_ref (name, img) = text_eq img.image_ref image_ref

unfoldable pub login_user_for_ref : Config → Text → Text
login_user_for_ref c image_ref = elim (find (has_ref image_ref) c.images) [
  | none ↦ c.default_user
  | some e ↦ unwrap_or c.default_user e.1.user
]

abbrev pub bool_eq : Bool → Bool → Bool
bool_eq true true = true
bool_eq false false = true
bool_eq _ _ = false

abbrev pub nests_as : Text → Bool → Text × Image → Bool
nests_as image_ref requested (name, img) =
    text_eq img.image_ref image_ref && bool_eq (unwrap_or false img.allow_nesting) requested

unfoldable pub nesting_ok_for_ref : Config → Text → Bool → Bool
nesting_ok_for_ref c image_ref requested = any (nests_as image_ref requested) c.images
