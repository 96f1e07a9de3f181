-- ===== src/Front/Destroy.antt =====
-- `destroy`: crates/seadog/src/verbs/destroy.rs. The helper that it elevates to is an argument, and
-- so is the JSON that this prints. The watcher, which it starts once it has an owner, is started in
-- Front/Main, by `hooked_by`.
pub mod Owned
use seadog.Prelude.{
  ℕ, Bool, true, false, not, Option, none, some, List, [], ◌∷◌, ◌++◌, Result, ok, err, Text, lit,
  text_eq,
}
use seadog.Core.Failure.{Failure, message, running}
use seadog.Core.Models.{Mode, mode_as_str, EnvStatus, active, status_eq, Env}
use seadog.Core.Action.{Acting, pure, raise, lift, raise_if, ◌>>=◌, ◌>>◌}
use seadog.Core.Sql.{Faults}
use seadog.Core.Store.{get_env, mark_reaped}
use seadog.Core.Reap.Routing.{World, on_db}
use seadog.Front.Context.{Ctx, require_owner}
use seadog.Front.Elevate.{ElevateArgs, ElevateError, elevate_error_text}

-- The JSON of the answer; its `status` is always `reaped`.
pub record Destruction (V : Type 0) : Type 0 where
  pub id : Text
  pub vmid : Option ℕ
  pub mode : Mode
  pub helper : V

-- The request for a teardown.
abbrev pub teardown_request : Text → Text → Mode → ElevateArgs
teardown_request owner guid mode = record {
  verb = lit "teardown";
  owner = owner;
  args = lit "--guid" ∷ guid ∷ lit "--mode" ∷ mode_as_str mode ∷ [];
}

module _ {V : Type 0} (faults : Faults) (elevate : ElevateArgs → Acting ElevateError World V)
    (ctx : Ctx) (env_id : Text) where
  -- `map_err(|e| anyhow!(e))`
  abbrev pub told : {A : Type 0} → Result ElevateError A → Result Failure A
  told (ok a) = ok a
  told (err e) = err (message (elevate_error_text e))

  abbrev pub elevated : ElevateArgs → Acting Failure World V
  elevated req w = let (r, w') = elevate req w in (told r, w')

  abbrev pub destruction : Env → V → Destruction V
  destruction env outcome = record {
    id = env.guid;
    vmid = env.vmid;
    mode = env.mode;
    helper = outcome;
  }

  unfoldable pub mark_if : Bool → Text → Acting Failure World (Unit {0})
  mark_if true guid = running (on_db (mark_reaped faults guid))
  mark_if false guid = pure tt

  -- Once the helper succeeded: only an active row is marked.
  unfoldable pub after_helper : Env → V → Acting Failure World (Destruction V)
  unfolding mark_if
  after_helper env outcome =
      mark_if (status_eq env.status active) env.guid >> pure (destruction env outcome)

  unfoldable pub destroy_found : Text → Option Env → Acting Failure World (Destruction V)
  unfolding after_helper
  destroy_found owner none = raise (message (lit "env '" ++ (env_id ++ lit "' not found")))
  destroy_found owner (some env) =
      raise_if (not (text_eq env.owner owner))
        (message (lit "env '" ++ (env_id ++ (lit "' is not owned by '" ++ (owner ++ lit "'")))))
      >> (elevated (teardown_request owner env.guid env.mode) >>= after_helper env)

  unfoldable pub destroy_run : Acting Failure World (Destruction V)
  unfolding destroy_found
  destroy_run = do
    owner ← lift (require_owner ctx)
    found ← running (on_db (get_env faults env_id))
    destroy_found owner found
