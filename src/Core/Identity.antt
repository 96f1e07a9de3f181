-- ===== src/Core/Identity.antt =====
-- The classification of a live instance: crates/core/src/identity.rs. What the `uuid` crate accepts
-- is the parameter `is_uuid`.
pub mod Laws
use seadog.Prelude.{
  Bool, true, false, not, ◌&&◌, ◌++◌, Option, none, some, List, [], ◌∷◌, ok, err, Result, any,
  unwrap_or, if◌then◌else◌, Text, lit, text_eq, is_empty, eq_ignore_ascii_case,
}
use seadog.Core.Models.{Env, InstanceSignals}
use seadog.Core.Validate.{validate_guest_name}

pub data Reason : Type 0 where
  name_mismatch mac_mismatch host_key_mismatch : Reason

pub data Classification : Type 0 where
  foreign : Classification
  orphan : (guid : Text) (owner : Option Text) → Classification
  anomaly : (reason : Reason) (detail : Text) → Classification
  reap_eligible : (guid : Text) (host_key_mismatch : Bool) → Classification

unfoldable pub mac_eq : Text → Text → Bool
mac_eq a b = eq_ignore_ascii_case a b

abbrev pub is_ok {ℓ κ} : {E : Type κ} {A : Type ℓ} → Result E A → Bool
is_ok (ok a) = true
is_ok (err e) = false

-- `!env.mac.is_empty() && !mac_eq(live_mac, &env.mac)`, where the instance shows a MAC at all.
unfoldable pub mac_disagrees : Option Text → Text → Bool
unfolding mac_eq
mac_disagrees none mac = false
mac_disagrees (some live_mac) mac = not (is_empty mac) && not (mac_eq live_mac mac)

abbrev pub no_texts : List Text → Bool
no_texts [] = true
no_texts (t ∷ ts) = false

unfoldable pub host_keys_disagree : InstanceSignals → Env → Bool
host_keys_disagree signals env =
    not (no_texts env.ssh_host_key_fps)
    && not (no_texts signals.ssh_host_key_fps)
    && not (any (λ fp. any (text_eq fp) env.ssh_host_key_fps) signals.ssh_host_key_fps)

module _ (is_uuid : Text → Bool) where
  -- The instance carries a guid that no row backs.
  unfoldable pub classify_unmatched : InstanceSignals → Text → Classification
  classify_unmatched signals guid =
      if is_uuid guid && is_ok (validate_guest_name signals.name)
      then orphan guid signals.owner
      else foreign

  -- The instance carries a guid, and the row `env` has it.
  unfoldable pub classify_matched : InstanceSignals → Text → Env → Classification
  classify_matched signals guid env =
      if not (text_eq env.name signals.name)
      then anomaly name_mismatch (
          lit "instance "
          ++ (signals.name
              ++ (lit " (guid "
                  ++ (guid ++ (lit ") name disagrees with DB row name " ++ env.name)))))
      else if mac_disagrees signals.mac env.mac
      then anomaly mac_mismatch (
          lit "instance "
          ++ (signals.name
              ++ (lit " (guid "
                  ++ (guid
                      ++ (lit ") MAC "
                          ++ (unwrap_or [] signals.mac
                              ++ (lit " disagrees with DB row MAC " ++ env.mac)))))))
      else reap_eligible guid (host_keys_disagree signals env)

  unfoldable pub classify : InstanceSignals → Option Env → Classification
  unfolding classify_unmatched classify_matched
  classify signals db_row = elim signals.guid [
    | none ↦ foreign
    | some guid ↦ elim db_row [
      | none ↦ classify_unmatched signals guid
      | some env ↦ classify_matched signals guid env
    ]
  ]
