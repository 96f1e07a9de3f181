-- ===== src/Core/Identity/Laws.antt =====
-- What each verdict of `classify` (crates/core/src/identity.rs) means.
use seadog.Prelude.{
  [], ◌∷◌, ◌⊎◌, inl, inr, eq_ignore_ascii_case, true, ◌≡◌, ◌≢◌, ◌↔◌, refl, Bool, false, Option,
  none, some, arith, ok, err, Text, text_eq_iff,
}
use seadog.Core.Models.{Env, InstanceSignals}
use seadog.Core.Errors.{Fallible}
use seadog.Core.Validate.{validate_guest_name}
use seadog.Core.Validate.Names.{IsGuestName, validate_guest_name_iff}
use seadog.Core.Identity.{
  mac_eq, orphan, reap_eligible, mac_disagrees, host_keys_disagree, classify, is_ok,
}

-- The MACs do not contradict each other: one side shows none, or they are equal up to case.
abbrev pub MacAgrees : Option Text → Text → Type 0
MacAgrees none mac = Unit
MacAgrees (some live_mac) mac = (mac ≡ []) ⊎ (eq_ignore_ascii_case live_mac mac ≡ true)

mac_disagrees_iff :
    (live : Option Text) (mac : Text) → (mac_disagrees live mac ≡ false) ↔ MacAgrees live mac
unfolding mac_disagrees mac_eq
mac_disagrees_iff none mac = (λ h. tt, λ h. refl)
mac_disagrees_iff (some live_mac) [] = (λ h. inl refl, λ h. refl)
mac_disagrees_iff (some live_mac) (c ∷ s) = (λ h. inr (ground arith), λ h. ground arith)

module _ (is_uuid : Text → Bool) where
  -- The hard confirmers of a row agree with what the instance shows.
  pub record Confirms (signals : InstanceSignals) (env : Env) : Type 0 where
    pub name : env.name ≡ signals.name
    pub mac : MacAgrees signals.mac env.mac

  reap_eligible-inv :
      (signals : InstanceSignals) (env : Env) (guid : Text) (keys : Bool)
      → classify is_uuid signals (some env) ≡ reap_eligible guid keys
      → (signals.guid ≡ some guid) × Confirms signals env × (keys ≡ host_keys_disagree signals env)
  unfolding classify
  reap_eligible-inv signals env guid keys h = (
    ground arith,
    record {
      name = ground (arith, text_eq_iff env.name signals.name);
      mac = (mac_disagrees_iff signals.mac env.mac).0 (ground arith);
    },
    ground arith,
  )

  unmatched-not_eligible :
      (signals : InstanceSignals) (guid : Text) (keys : Bool)
      → classify is_uuid signals none ≢ reap_eligible guid keys
  unfolding classify
  unmatched-not_eligible signals guid keys h = ground arith

  reap_eligible-intro :
      (signals : InstanceSignals) (env : Env) (guid : Text)
      → signals.guid ≡ some guid
      → Confirms signals env
      → classify is_uuid signals (some env) ≡ reap_eligible guid (host_keys_disagree signals env)
  unfolding classify
  reap_eligible-intro signals env guid g c =
      let agrees = (mac_disagrees_iff signals.mac env.mac).1 c.mac in
      let named = c.name in ground (arith, text_eq_iff env.name signals.name)

  -- A verdict is reap-eligible exactly when the instance carries the guid, a row backs it, and the
  -- row's name and MAC agree with the instance; the flag is whether the host keys disagree, which
  -- decides nothing else.
  pub classify-reap_eligible_iff :
      (signals : InstanceSignals) (db_row : Option Env) (guid : Text) (keys : Bool)
      → (classify is_uuid signals db_row ≡ reap_eligible guid keys) ↔ (
          (env : Env) × (db_row ≡ some env)
          × (signals.guid ≡ some guid)
          × Confirms signals env
          × (keys ≡ host_keys_disagree signals env))
  classify-reap_eligible_iff signals none guid keys =
      (λ h. absurd (unmatched-not_eligible signals guid keys h), λ h. ground arith)
  classify-reap_eligible_iff signals (some env) guid keys = (
    λ h. let (g, c, k) = reap_eligible-inv signals env guid keys h in (env, refl, g, c, k),
    λ h.
        let same : h.0 ≡ env = ground arith in
        rw h.4 (rw (← same) (reap_eligible-intro signals h.0 guid h.2 h.3)),
  )

  is_ok_iff : (r : Fallible (Unit {0})) → (is_ok r ≡ true) ↔ (r ≡ ok tt)
  is_ok_iff (ok u) = (λ h. refl, λ h. refl)
  is_ok_iff (err e) = (λ h. cc, λ h. cc)

  orphan-inv :
      (signals : InstanceSignals) (guid : Text) (owner : Option Text)
      → classify is_uuid signals none ≡ orphan guid owner
      → (◌≡◌ {A = Option Env} none none)
        × (signals.guid ≡ some guid)
        × (is_uuid guid ≡ true)
        × IsGuestName signals.name
        × (owner ≡ signals.owner)
  unfolding classify
  orphan-inv signals guid owner h = (
    refl,
    ground arith,
    ground arith,
    (validate_guest_name_iff signals.name).0
        ((is_ok_iff (validate_guest_name signals.name)).0 (ground arith)),
    ground arith,
  )

  orphan-intro :
      (signals : InstanceSignals) (guid : Text) (owner : Option Text)
      → signals.guid ≡ some guid
      → is_uuid guid ≡ true
      → IsGuestName signals.name
      → owner ≡ signals.owner
      → classify is_uuid signals none ≡ orphan guid owner
  unfolding classify
  orphan-intro signals guid owner g u n o =
      let named = (validate_guest_name_iff signals.name).1 n in ground arith

  matched-not_orphan :
      (signals : InstanceSignals) (env : Env) (guid : Text) (owner : Option Text)
      → classify is_uuid signals (some env) ≢ orphan guid owner
  unfolding classify
  matched-not_orphan signals env guid owner h = ground arith

  -- A verdict is orphan exactly when the instance carries the guid, no row backs it, the guid is a
  -- UUID and the instance's name is a guest name.
  pub classify-orphan_iff :
      (signals : InstanceSignals) (db_row : Option Env) (guid : Text) (owner : Option Text)
      → (classify is_uuid signals db_row ≡ orphan guid owner) ↔ (
          (db_row ≡ none)
          × (signals.guid ≡ some guid)
          × (is_uuid guid ≡ true)
          × IsGuestName signals.name
          × (owner ≡ signals.owner))
  classify-orphan_iff signals none guid owner =
      (orphan-inv signals guid owner, λ h. orphan-intro signals guid owner h.1 h.2 h.3 h.4)
  classify-orphan_iff signals (some env) guid owner =
      (λ h. absurd (matched-not_orphan signals env guid owner h), λ h. ground arith)
