-- ===== src/Front/Ack.antt =====
-- `ack`: crates/seadog/src/verbs/ack.rs.
pub mod Keys
pub mod Quiet
use seadog.Prelude.{
  Bool, true, not, ◌&&◌, Option, none, some, List, [], ◌∷◌, ◌++◌, Text, lit, text_eq,
}
use seadog.Core.Failure.{Failure, message, running}
use seadog.Core.Models.{Env, EnvStatus, flagged, status_eq, NotifyState}
use seadog.Core.Action.{pure, raise, lift, raise_if, ◌>>=◌, ◌>>◌}
use seadog.Core.Sql.{Faults}
use seadog.Core.Store.{get_env, get_notify_state, put_notify_state}
use seadog.Front.Context.{Ctx, Verb, require_owner}

-- The JSON of the answer; its `acked` is always true.
pub record Acknowledgement : Type 0 where
  pub guid : Text
  pub acked : Bool

abbrev pub alert_keys : Env → List Text
alert_keys env = (env.guid ++ lit ":anomaly") ∷ (env.guid ++ lit ":overdue") ∷ []

module _ (faults : Faults) (ctx : Ctx) (env_id : Text) where
  -- The state that is put under a key, by what stands there.
  unfoldable pub acked_state : Text → Text → Option NotifyState → NotifyState
  acked_state owner key (some s) = record s {
    acked = true;
    acked_by = some owner;
    acked_at = some ctx.now_unix;
  }
  acked_state owner key none = record {
    guid = key;
    last_severity = [];
    last_emitted_at = ctx.now_unix;
    acked = true;
    acked_by = some owner;
    acked_at = some ctx.now_unix;
  }

  unfoldable pub ack_key : Text → Text → Verb (Unit {0})
  unfolding acked_state
  ack_key owner key = running (get_notify_state faults key) >>= λ prior.
      running (put_notify_state faults (acked_state owner key prior))

  unfoldable pub ack_keys : Text → List Text → Verb (Unit {0})
  unfolding ack_key
  ack_keys owner [] = pure tt
  ack_keys owner (key ∷ keys) = ack_key owner key >> ack_keys owner keys

  abbrev pub not_yours : Failure
  not_yours = message (lit "env '" ++ (env_id ++ lit "' is not yours and not flagged; cannot ack"))

  unfoldable pub ack_found : Text → Option Env → Verb Acknowledgement
  unfolding ack_keys
  ack_found owner none = raise (message (lit "env '" ++ (env_id ++ lit "' not found")))
  ack_found owner (some env) =
      raise_if (not (text_eq env.owner owner) && not (status_eq env.status flagged)) not_yours
      >> (ack_keys owner (alert_keys env) >> pure (record { guid = env.guid; acked = true }))

  unfoldable pub ack_run : Verb Acknowledgement
  unfolding ack_found
  ack_run = do
    owner ← lift (require_owner ctx)
    found ← running (get_env faults env_id)
    ack_found owner found
