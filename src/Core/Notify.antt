-- ===== src/Core/Notify.antt =====
-- The notification policy of crates/core/src/notify.rs: `decide` is pure, and what `emit` sends to
-- the journal and to the push sinks is recorded as an `Emission`. The sinks themselves (a child
-- process, a file) are not modelled: their failures are swallowed by the source.
pub mod Laws
use seadog.Prelude.{
  ℕ, Bool, true, false, not, ◌&&◌, ◌||◌, ◌++◌, Option, none, some, List, [], ◌∷◌, map, unwrap_or,
  is_some, if◌then◌else◌, Text, lit, text_eq, is_ascii_lowercase, is_ascii_uppercase,
  is_ascii_digit, ◌==◌,
}
use seadog.Prelude.Int.{ℤ, ltb_ℤ, sub_i64, as_i64}
use seadog.Core.Models.{NotifyState}
use seadog.Core.Config.{Config}

pub data Severity : Type 0 where
  info notice warning crit : Severity

unfoldable pub severity_as_str : Severity → Text
severity_as_str info = lit "info"
severity_as_str notice = lit "notice"
severity_as_str warning = lit "warning"
severity_as_str crit = lit "crit"

unfoldable pub severity_from_str_opt : Text → Option Severity
severity_from_str_opt s =
    if text_eq s (lit "info")
    then some info
    else if text_eq s (lit "notice")
    then some notice
    else if text_eq s (lit "warning")
    then some warning
    else if text_eq s (lit "crit")
    then some crit
    else none

unfoldable pub climb : Severity → Severity
climb info = notice
climb notice = warning
climb warning = crit
climb crit = crit

pub data Event : Type 0 where
  foreign_heads_up : (guid_or_vmid : Text) (detail : Text) → Event
  anomaly overdue_unreaped grace_warning vanished host_key_regen reaped :
      (guid : Text) (detail : Text) → Event
  sweeper_degraded : (detail : Text) → Event

unfoldable pub event_key : Event → Text
event_key (foreign_heads_up token detail) = token
event_key (anomaly guid detail) = guid ++ lit ":anomaly"
event_key (overdue_unreaped guid detail) = guid ++ lit ":overdue"
event_key (grace_warning guid detail) = guid ++ lit ":grace"
event_key (vanished guid detail) = guid ++ lit ":vanished"
event_key (host_key_regen guid detail) = guid ++ lit ":hostkey"
event_key (reaped guid detail) = guid ++ lit ":reaped"
event_key (sweeper_degraded detail) = lit "sweeper"

unfoldable pub event_detail : Event → Text
event_detail (foreign_heads_up token detail) = detail
event_detail (anomaly guid detail) = detail
event_detail (overdue_unreaped guid detail) = detail
event_detail (grace_warning guid detail) = detail
event_detail (vanished guid detail) = detail
event_detail (host_key_regen guid detail) = detail
event_detail (reaped guid detail) = detail
event_detail (sweeper_degraded detail) = detail

unfoldable pub escalates : Event → Bool
escalates (anomaly guid detail) = true
escalates (overdue_unreaped guid detail) = true
escalates _ = false

unfoldable pub base_severity : Event → Severity
base_severity (foreign_heads_up token detail) = info
base_severity (anomaly guid detail) = warning
base_severity (sweeper_degraded detail) = crit
base_severity _ = notice

pub record NotifyDecision : Type 0 where
  pub severity : Severity
  pub emit : Bool
  pub fire_push : Bool
  pub new_state : NotifyState

-- `prior_sev`, at a state that there is.
unfoldable pub prior_sev : NotifyState → Event → Severity
prior_sev p event = unwrap_or (base_severity event) (severity_from_str_opt p.last_severity)

-- The three shapes of verdict that `decide` builds.
abbrev pub quiet : Severity → NotifyState → NotifyDecision
quiet severity p = record { severity = severity; emit = false; fire_push = false; new_state = p }

abbrev pub speak : Event → Severity → ℤ → NotifyDecision
speak event severity now_unix = record {
  severity = severity;
  emit = true;
  fire_push = true;
  new_state = record {
    guid = event_key event;
    last_severity = severity_as_str severity;
    last_emitted_at = now_unix;
    acked = false;
    acked_by = none;
    acked_at = none;
  };
}

unfoldable pub decide : Event → Option NotifyState → Config → ℤ → NotifyDecision
unfolding prior_sev
decide event none config now_unix = speak event (base_severity event) now_unix
decide event (some p) config now_unix =
    if p.acked
    then quiet (prior_sev p event) p
    else if escalates event
    then if ltb_ℤ (sub_i64 now_unix p.last_emitted_at) (as_i64 config.notify.reescalate)
      then quiet (prior_sev p event) p
      else speak event (climb (prior_sev p event)) now_unix
    else quiet (base_severity event) p

-- What one emission sends: a journal line with its key, and whether the push sinks fire.
pub record Emission : Type 0 where
  pub severity : Severity
  pub key : Text
  pub detail : Text
  pub push : Bool

unfoldable pub emit : Event → NotifyDecision → List Emission → List Emission
emit event decision sent =
    if not decision.emit
    then sent
    else record {
      severity = decision.severity;
      key = event_key event;
      detail = event_detail event;
      push = decision.fire_push;
    }
      ∷ sent

-- `sanitize_key`, for a file name.
unfoldable pub sanitize_char : ℕ → ℕ
sanitize_char c =
    if is_ascii_lowercase c || is_ascii_uppercase c || is_ascii_digit c || c == b'_' || c == b'-'
    then c
    else b'_'

unfoldable pub sanitize_key : Text → Text
unfolding sanitize_char
sanitize_key key = map sanitize_char key
