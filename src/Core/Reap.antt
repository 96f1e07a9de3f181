-- ===== src/Core/Reap.antt =====
-- The sweep of crates/core/src/reap.rs, on the state of Routing.antt. The clock is the argument
-- `now_unix`, as in the source; log lines are not modelled.
pub mod Routing
pub mod Keeps
pub mod Returned
pub mod Sweeps
pub mod Safety
pub mod Herd
pub mod Alarm
pub mod Quorum
use seadog.Prelude.{
  ℕ, ◌+◌, ◌%◌, ◌^◌, Bool, true, false, not, ◌&&◌, ◌||◌, ◌++◌, Option, none, some, List, [], ◌∷◌, ok,
  err, any, unwrap_or, or_else, is_some, leb, ◌==◌, if◌then◌else◌, Text, lit, text_eq, decimal,
}
use seadog.Prelude.Int.{ℤ, ltb_ℤ, leb_ℤ, add_i64, sub_i64, as_i64}
use seadog.Core.Errors.{Error, error_text, Fallible}
use seadog.Core.Models.{Mode, active, Env, NotifyState, InstanceSignals}
use seadog.Core.Config.{Config}
use seadog.Core.Identity.{Classification, Reason, classify}
use seadog.Core.Notify.{Event, event_key, Emission, NotifyDecision, decide, emit}
use seadog.Core.Action.{Action, pure, raise, gets, attempt, modify, ◌>>=◌, ◌>>◌}
use seadog.Core.Sql.{Db, Faults, Sql}
use seadog.Core.Store.{
  insert_env, get_env, list_by_status, mark_reaped, mark_vanished, put_notify_state,
  get_notify_state, write_heartbeat,
}
unfoldable pub use Routing.*

module _ (faults : Faults) (config : Config) (now_unix : ℤ) where
  abbrev pub too_young : Env → Bool
  too_young env = ltb_ℤ (sub_i64 now_unix env.created_at) (as_i64 config.lifecycle.age_floor)

  -- The row of a re-adopted orphan.
  unfoldable pub readopted_env : InstanceSignals → Text → Option Text → Env
  readopted_env sig guid owner = record {
    guid = guid;
    vmid = sig.vmid;
    mode = sig.mode;
    owner = unwrap_or (lit "unknown") owner;
    image = sig.image;
    name = sig.name;
    ip = [];
    mac = unwrap_or [] sig.mac;
    ssh_host_key_fps = sig.ssh_host_key_fps;
    created_at = now_unix;
    ttl_deadline = add_i64 now_unix (as_i64 config.lifecycle.default_ttl);
    soft_deadline = add_i64 now_unix (as_i64 config.lifecycle.default_duration);
    status = active;
  }

  unfoldable pub after_insert : InstanceSignals → Text → Fallible (Unit {0}) → Sweep (Unit {0})
  after_insert sig guid (err e) =
      count count_flagged
      >> route faults config now_unix (
          Event.anomaly guid (
            lit "failed to re-adopt orphan "
            ++ (guid ++ (lit " (" ++ (sig.name ++ (lit "): " ++ error_text e))))))
  after_insert sig guid (ok u) =
      count (λ o. count_flagged (count_readopted o))
      >> route faults config now_unix (
          Event.anomaly guid (
            lit "re-adopted orphan "
            ++ (guid
                ++ (lit " (" ++ (sig.name ++ lit ") with no DB row; fresh ttl deadline set")))))

  unfoldable pub readopt_orphan : InstanceSignals → Text → Option Text → Sweep (Unit {0})
  unfolding readopted_env after_insert
  readopt_orphan sig guid owner =
      attempt (on_db (insert_env faults (readopted_env sig guid owner))) >>= after_insert sig guid

  -- The guid of an anomaly's event.
  abbrev pub anomaly_guid : InstanceSignals → Option Env → Text
  anomaly_guid sig none = unwrap_or (lit "name-" ++ sig.name) sig.guid
  anomaly_guid sig (some env) = env.guid

  abbrev pub row_too_young : Option Env → Bool
  row_too_young none = false
  row_too_young (some env) = too_young env

  unfoldable pub handle_anomaly : InstanceSignals → Option Env → Text → Sweep (Unit {0})
  handle_anomaly sig db_row detail =
      if row_too_young db_row
      then pure tt
      else count count_flagged
        >> route faults config now_unix (Event.anomaly (anomaly_guid sig db_row) detail)

  unfoldable pub warn_in_grace : InstanceSignals → Env → Text → Sweep (Unit {0})
  warn_in_grace sig env guid =
      if leb_ℤ (sub_i64 env.ttl_deadline (as_i64 config.lifecycle.grace)) now_unix
      then route faults config now_unix (
          Event.grace_warning guid (env_label guid sig.name ++ lit " within grace of ttl deadline"))
      else pure tt

  unfoldable pub at_herd_cap : ℕ → Bool
  at_herd_cap reaped = not (config.lifecycle.herd_cap == 0) && leb config.lifecycle.herd_cap reaped

  unfoldable pub defer_by_cap : InstanceSignals → Text → Sweep (Unit {0})
  defer_by_cap sig guid =
      count count_deferred
      >> route faults config now_unix (
          Event.overdue_unreaped guid (
            env_label guid sig.name
            ++ (lit " overdue but deferred by herd cap ("
                ++ (decimal config.lifecycle.herd_cap ++ lit "/sweep)"))))

  -- The match on what the teardown answered.
  unfoldable pub after_teardown : InstanceSignals → Text → Fallible (Unit {0}) → Sweep (Unit {0})
  after_teardown sig guid (ok u) =
      on_db (mark_reaped faults guid)
      >> (count count_reaped
          >> route faults config now_unix
              (Event.reaped guid (lit "reaped " ++ (env_label guid sig.name ++ lit " past ttl"))))
  after_teardown sig guid (err (Error.quorum_lost msg)) =
      surface_quorum_loss faults config now_unix msg >> count (lose_quorum msg)
  after_teardown sig guid (err e) =
      count count_deferred
      >> route faults config now_unix (
          Event.overdue_unreaped guid
            (lit "teardown of " ++ (env_label guid sig.name ++ (lit " failed: " ++ error_text e))))

  -- The part of the loop over the vanished rows that acts.
  unfoldable pub after_mark : Env → Fallible (Unit {0}) → Sweep (Unit {0})
  after_mark env (ok u) =
      count count_vanished
      >> route faults config now_unix (
          Event.vanished env.guid (
            env_label env.guid env.name
            ++ lit " vanished: no live kento instance carries its guid"))
  after_mark env (err e) = pure tt

  unfoldable pub vanish : List Text → Env → Sweep (Unit {0})
  unfolding after_mark
  vanish live env =
      if any (text_eq env.guid) live
      then pure tt
      else if too_young env
      then pure tt
      else attempt (on_db (mark_vanished faults env.guid)) >>= after_mark env

  unfoldable pub vanish_all : List Text → List Env → Sweep (Unit {0})
  unfolding vanish
  vanish_all live [] = pure tt
  vanish_all live (env ∷ envs) = vanish live env >> vanish_all live envs

  unfoldable pub vanished_pass : List InstanceSignals → Sweep (Unit {0})
  vanished_pass instances w =
      if is_some w.outcome.quorum_lost
      then (ok tt, w)
      else (on_db (list_by_status faults active) >>= vanish_all (live_guids instances)) w

  -- The end of a sweep: the heartbeat, and the outcome.
  unfoldable pub finish : Sweep SweepOutcome
  finish = on_db (write_heartbeat faults now_unix) >> gets (λ w. w.outcome)

  -- A sweep whose list failed.
  unfoldable pub list_failed : Error → Sweep SweepOutcome
  list_failed (Error.quorum_lost msg) =
      surface_quorum_loss faults config now_unix msg >> (count (lose_quorum msg) >> finish)
  list_failed e = raise e

  module _ (kento : Kento) where
    unfoldable pub tear_down : InstanceSignals → Env → Text → Sweep (Unit {0})
    tear_down sig env guid w =
        after_teardown sig guid (kento.teardown w.teardowns sig.name env.mode)
          (record w { teardowns = (sig.name, env.mode) ∷ w.teardowns })

    unfoldable pub handle_reap_candidate : InstanceSignals → Env → Text → Sweep (Unit {0})
    handle_reap_candidate sig env guid w =
        if too_young env
        then (ok tt, w)
        else if ltb_ℤ now_unix env.ttl_deadline
        then warn_in_grace sig env guid w
        else if at_herd_cap w.outcome.reaped_count
        then defer_by_cap sig guid w
        else tear_down sig env guid w

    unfoldable pub note_host_keys : InstanceSignals → Text → Bool → Sweep (Unit {0})
    note_host_keys sig guid false = pure tt
    note_host_keys sig guid true = route faults config now_unix (
        Event.host_key_regen guid (
          env_label guid sig.name
          ++ lit " ssh host-key fingerprints regenerated (soft signal); reaping unaffected"))

    -- Whether the loop breaks.
    abbrev pub quorum_gone : Sweep Bool
    quorum_gone = gets (λ w. is_some w.outcome.quorum_lost)

    -- What the loop does for one verdict; `true` is its `break`.
    unfoldable pub act : InstanceSignals → Option Env → Classification → Sweep Bool
    act sig db_row Classification.foreign = pure false
    act sig db_row (Classification.orphan guid owner) = readopt_orphan sig guid owner >> pure false
    act sig db_row (Classification.anomaly reason detail) =
        handle_anomaly sig db_row detail >> pure false
    act sig none (Classification.reap_eligible guid keys) = pure false
    act sig (some env) (Classification.reap_eligible guid keys) =
        note_host_keys sig guid keys >> (handle_reap_candidate sig env guid >> quorum_gone)

    unfoldable pub read_row : Option Text → Sweep (Option Env)
    read_row none = pure none
    read_row (some guid) = on_db (get_env faults guid)

    -- The join of an instance to its row.
    abbrev pub row_of : InstanceSignals → Sweep (Option Env)
    row_of sig = read_row sig.guid

    module _ (is_uuid : Text → Bool) where
      unfoldable pub judge : InstanceSignals → Option Env → Sweep Bool
      unfolding act
      judge sig db_row = act sig db_row (classify is_uuid sig db_row)

      -- The loop over the live instances.
      unfoldable pub visit_all : List InstanceSignals → Sweep (Unit {0})
      unfolding judge
      visit_all [] = pure tt
      visit_all (sig ∷ instances) =
          let rest : Sweep (Unit {0}) = visit_all instances in
          (row_of sig >>= judge sig) >>= λ stop. if stop then pure tt else rest

      unfoldable pub after_list : Fallible (List InstanceSignals) → Sweep SweepOutcome
      unfolding list_failed
      after_list (err e) = list_failed e
      after_list (ok instances) = visit_all instances >> (vanished_pass instances >> finish)

      unfoldable pub sweep : Sweep SweepOutcome
      unfolding after_list
      sweep w = after_list kento.list_instances (record w { outcome = default_outcome })
