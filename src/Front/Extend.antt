-- ===== src/Front/Extend.antt =====
-- `extend`: crates/seadog/src/verbs/extend.rs.
pub mod Window
use seadog.Prelude.{ℕ, not, Option, none, some, ok_or, ◌++◌, Text, lit, text_eq}
use seadog.Prelude.Int.{ℤ, try_i64, checked_add, sub_i64}
use seadog.Core.Failure.{Failure, message, running}
use seadog.Core.Models.{Env}
use seadog.Core.Action.{pure, raise, lift, raise_if, ◌>>=◌, ◌>>◌}
use seadog.Core.Sql.{Faults}
use seadog.Core.Store.{get_env, set_ttl_deadline}
use seadog.Front.Context.{Ctx, Verb, require_owner}

-- The JSON of the answer.
pub record Extension : Type 0 where
  pub guid : Text
  pub previous_ttl_deadline : ℤ
  pub ttl_deadline : ℤ
  pub extended_by_secs : ℤ

abbrev pub extension : Env → ℤ → Extension
extension env stored = record {
  guid = env.guid;
  previous_ttl_deadline = env.ttl_deadline;
  ttl_deadline = stored;
  extended_by_secs = sub_i64 stored env.ttl_deadline;
}

abbrev pub no_env : Text → Failure
no_env env_id = message (lit "no env with id '" ++ (env_id ++ lit "'"))

abbrev pub not_owned : Text → Text → Failure
not_owned env_id owner =
    message
      (lit "env '" ++ (env_id ++ (lit "' is not owned by '" ++ (owner ++ lit "'; cannot extend"))))

module _ (faults : Faults) (ctx : Ctx) (env_id : Text) (duration : ℕ) where
  -- The deadline asked for, and the ceiling.
  unfoldable pub store_deadline : Env → ℤ → ℤ → Verb Extension
  store_deadline env requested max_ttl_secs =
      running (set_ttl_deadline faults env_id requested max_ttl_secs) >>= λ stored.
      pure (extension env stored)

  unfoldable pub extend_env : Env → Verb Extension
  unfolding store_deadline
  extend_env env = do
    add ← lift (ok_or (message (lit "duration is too large to add")) (try_i64 duration))
    requested ←
        lift
          (ok_or (message (lit "resulting deadline overflows")) (checked_add env.ttl_deadline add))
    max_ttl_secs ← lift (
        ok_or (message (lit "configured max_ttl is too large"))
          (try_i64 ctx.config.lifecycle.max_ttl))
    store_deadline env requested max_ttl_secs

  -- On what `get_env` found.
  unfoldable pub extend_found : Text → Option Env → Verb Extension
  unfolding extend_env
  extend_found owner none = raise (no_env env_id)
  extend_found owner (some env) =
      raise_if (not (text_eq env.owner owner)) (not_owned env_id owner) >> extend_env env

  unfoldable pub extend_run : Verb Extension
  unfolding extend_found
  extend_run = do
    owner ← lift (require_owner ctx)
    found ← running (get_env faults env_id)
    extend_found owner found
