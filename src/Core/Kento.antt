-- ===== src/Core/Kento.antt =====
-- What kento is asked for: the requests and the argument vectors of crates/core/src/kento.rs.
pub mod Anchor
pub mod Fake
pub mod Parse
pub mod Quorum
pub mod Real
pub mod Seen
pub mod Storable
use seadog.Prelude.{
  ℕ, Bool, true, false, Option, none, some, List, [], ◌∷◌, ◌++◌, Text, lit, decimal,
}
use seadog.Core.Models.{Mode, lxc, vm, mode_as_str}

-- `struct ProvisionSpec`
pub record ProvisionSpec : Type 0 where
  pub mode : Mode
  pub image_ref : Text
  pub name : Text
  pub mac : Text
  pub ip : Text
  pub prefix : ℕ
  pub gateway : Text
  pub bridge : Text
  pub guid : Text
  pub owner : Text
  pub ssh_key_file : Option Text
  pub ssh_key_user : Text
  pub allow_nesting : Bool
  pub memory : Option ℕ
  pub cores : Option ℕ

-- `struct ProvisionOutcome`
pub record ProvisionOutcome : Type 0 where
  pub mac : Option Text
  pub ssh_host_key_fps : List Text
  pub vmid : Option ℕ

-- The optional blocks, in their order.
abbrev pub key_args : ProvisionSpec → List Text
key_args spec = elim spec.ssh_key_file [
  | none ↦ []
  | some file ↦
      lit "--ssh-key"
      ∷ file
      ∷ lit "--ssh-key-user"
      ∷ spec.ssh_key_user
      ∷ lit "--config-mode"
      ∷ lit "auto"
      ∷ []
]

abbrev pub mac_args : ProvisionSpec → List Text
mac_args spec = elim spec.mode [ vm ↦ lit "--mac" ∷ spec.mac ∷ [] | lxc ↦ [] ]

abbrev pub nesting_args : ProvisionSpec → List Text
nesting_args spec = elim spec.allow_nesting [ true ↦ lit "--allow-nesting" ∷ [] | false ↦ [] ]

abbrev pub size_args : Text → Option ℕ → List Text
size_args flag none = []
size_args flag (some v) = flag ∷ decimal v ∷ []

-- The identity anchor, as kento injects it.
abbrev pub guid_entry : ProvisionSpec → Text
guid_entry spec = lit "SEADOG_GUID=" ++ spec.guid

abbrev pub owner_entry : ProvisionSpec → Text
owner_entry spec = lit "SEADOG_OWNER=" ++ spec.owner

unfoldable pub provision_argv : ProvisionSpec → List Text
provision_argv spec =
    mode_as_str spec.mode
    ∷ lit "create"
    ∷ lit "--name"
    ∷ spec.name
    ∷ lit "--network"
    ∷ (lit "bridge=" ++ spec.bridge)
    ∷ lit "--ip"
    ∷ (spec.ip ++ (lit "/" ++ decimal spec.prefix))
    ∷ lit "--gateway"
    ∷ spec.gateway
    ∷ lit "--ssh-host-keys"
    ∷ lit "--start"
    ∷ lit "--env"
    ∷ guid_entry spec
    ∷ lit "--env"
    ∷ owner_entry spec
    ∷ (key_args spec
        ++ (mac_args spec
            ++ (nesting_args spec
                ++ (size_args (lit "--memory") spec.memory
                    ++ (size_args (lit "--cores") spec.cores ++ spec.image_ref ∷ [])))))

unfoldable pub teardown_argv : Text → Mode → List Text
teardown_argv name mode = mode_as_str mode ∷ lit "destroy" ∷ lit "-f" ∷ name ∷ []

unfoldable pub inspect_argv : Text → List Text
inspect_argv name = lit "inspect" ∷ name ∷ lit "--json" ∷ []

unfoldable pub list_json_argv : List Text
list_json_argv = lit "list" ∷ lit "--json" ∷ []
