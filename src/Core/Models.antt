-- ===== src/Core/Models.antt =====
-- The data types of crates/core/src/models.rs, and the signals of crates/core/src/kento.rs that
-- the sweep observes. Timestamps are `i64` values, as integers.
use seadog.Prelude.{ℕ, ◌↔◌, ◌≡◌, refl, Bool, true, false, Option, none, some, List, arith}
use seadog.Prelude.{Text, lit, text_eq, text_eq_iff, if◌then◌else◌}
use seadog.Prelude.Int.{ℤ}

-- `enum Mode`
pub data Mode : Type 0 where
  lxc vm : Mode

unfoldable pub mode_as_str : Mode → Text
mode_as_str lxc = lit "lxc"
mode_as_str vm = lit "vm"

unfoldable pub mode_from_str_opt : Text → Option Mode
mode_from_str_opt s =
    if text_eq s (lit "lxc") then some lxc else if text_eq s (lit "vm") then some vm else none

-- `derive(PartialEq)` of `Mode`
abbrev pub mode_eq : Mode → Mode → Bool
mode_eq lxc lxc = true
mode_eq vm vm = true
mode_eq _ _ = false

-- `enum EnvStatus`
pub data EnvStatus : Type 0 where
  active reaped vanished flagged : EnvStatus

unfoldable pub status_as_str : EnvStatus → Text
status_as_str active = lit "active"
status_as_str reaped = lit "reaped"
status_as_str vanished = lit "vanished"
status_as_str flagged = lit "flagged"

unfoldable pub status_from_str_opt : Text → Option EnvStatus
status_from_str_opt s =
    if text_eq s (lit "active")
    then some active
    else if text_eq s (lit "reaped")
    then some reaped
    else if text_eq s (lit "vanished")
    then some vanished
    else if text_eq s (lit "flagged")
    then some flagged
    else none

unfoldable pub is_active : EnvStatus → Bool
is_active active = true
is_active _ = false

-- `derive(PartialEq)` of `EnvStatus`
abbrev pub status_eq : EnvStatus → EnvStatus → Bool
status_eq active active = true
status_eq reaped reaped = true
status_eq vanished vanished = true
status_eq flagged flagged = true
status_eq _ _ = false

-- `struct Env`
pub record Env : Type 0 where
  pub guid : Text
  pub vmid : Option ℕ
  pub mode : Mode
  pub owner : Text
  pub image : Text
  pub name : Text
  pub ip : Text
  pub mac : Text
  pub ssh_host_key_fps : List Text
  pub created_at : ℤ
  pub ttl_deadline : ℤ
  pub soft_deadline : ℤ
  pub status : EnvStatus

-- `struct NotifyState`
pub record NotifyState : Type 0 where
  pub guid : Text
  pub last_severity : Text
  pub last_emitted_at : ℤ
  pub acked : Bool
  pub acked_by : Option Text
  pub acked_at : Option ℤ

-- `struct InstanceSignals`
pub record InstanceSignals : Type 0 where
  pub name : Text
  pub guid : Option Text
  pub owner : Option Text
  pub mac : Option Text
  pub ssh_host_key_fps : List Text
  pub image : Text
  pub status : Text
  pub mode : Mode
  pub vmid : Option ℕ

pub mode_from_str_opt-mode_as_str : (m : Mode) → mode_from_str_opt (mode_as_str m) ≡ some m
unfolding mode_from_str_opt mode_as_str text_eq
mode_from_str_opt-mode_as_str lxc = refl
mode_from_str_opt-mode_as_str vm = refl

pub status_from_str_opt-status_as_str :
    (s : EnvStatus) → status_from_str_opt (status_as_str s) ≡ some s
unfolding status_from_str_opt status_as_str text_eq
status_from_str_opt-status_as_str active = refl
status_from_str_opt-status_as_str reaped = refl
status_from_str_opt-status_as_str vanished = refl
status_from_str_opt-status_as_str flagged = refl

pub mode_as_str_of_from : (s : Text) (m : Mode) → mode_from_str_opt s ≡ some m → s ≡ mode_as_str m
unfolding mode_from_str_opt mode_as_str
mode_as_str_of_from s lxc h = ground (arith, text_eq_iff s (lit "lxc"), text_eq_iff s (lit "vm"))
mode_as_str_of_from s vm h = ground (arith, text_eq_iff s (lit "lxc"), text_eq_iff s (lit "vm"))

status_tests :
    (s : Text)
    → ((text_eq s (lit "active") ≡ true) ↔ (s ≡ lit "active"))
      × ((text_eq s (lit "reaped") ≡ true) ↔ (s ≡ lit "reaped"))
      × ((text_eq s (lit "vanished") ≡ true) ↔ (s ≡ lit "vanished"))
      × ((text_eq s (lit "flagged") ≡ true) ↔ (s ≡ lit "flagged"))
status_tests s = (
  text_eq_iff s (lit "active"),
  text_eq_iff s (lit "reaped"),
  text_eq_iff s (lit "vanished"),
  text_eq_iff s (lit "flagged"),
)

-- The status column is decoded to a status exactly when it holds that status's name.
pub status_as_str_of_from :
    (s : Text) (e : EnvStatus) → status_from_str_opt s ≡ some e → s ≡ status_as_str e
unfolding status_from_str_opt status_as_str
status_as_str_of_from s active h = ground (arith, status_tests s)
status_as_str_of_from s e h = ground (arith, status_tests s)
