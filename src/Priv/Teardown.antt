-- ===== src/Priv/Teardown.antt =====
-- `teardown` of the helper: crates/seadog-priv/src/teardown.rs, with the `parse_mode` of main.rs and
-- the `open_db` of sweep.rs. It trusts nothing that the front-end says about an env.
pub mod Safety
use seadog.Prelude.{
  Bool, not, false, Option, none, some, List, ◌∷◌, find, Result, ok, err, ok_or, Text, lit, ◌++◌,
  text_eq,
}
use seadog.Core.Errors.{Fallible, error_text}
use seadog.Core.Failure.{Failure, message, from_core, running}
use seadog.Core.Models.{Mode, mode_from_str_opt, Env, InstanceSignals}
use seadog.Core.Validate.{validate_owner_name}
use seadog.Core.Action.{Acting, pure, raise, lift, raise_if, ◌>>=◌, ◌>>◌}
use seadog.Core.Sql.{Faults}
use seadog.Core.Store.{get_env}
use seadog.Core.Reap.Routing.{Kento, World, on_db}

abbrev pub Privileged : Type 0 → Type 0
Privileged A = Acting Failure World A

unfoldable pub parse_mode : Text → Result Failure Mode
parse_mode s =
    ok_or (message (lit "invalid mode '" ++ (s ++ lit "' (expected lxc|vm)"))) (mode_from_str_opt s)

-- What `store::open` answers is an argument.
unfoldable pub open_db : Text → Fallible (Unit {0}) → Result Failure (Unit {0})
open_db path (ok u) = ok u
open_db path (err e) =
    err (message (lit "opening seadog DB " ++ (path ++ (lit ": " ++ error_text e))))

pub record TeardownArgs : Type 0 where
  pub owner : Text
  pub guid : Text
  pub mode : Text

pub data TeardownStatus : Type 0 where
  already_gone reaped : TeardownStatus

-- The JSON of the answer.
pub record TeardownReport : Type 0 where
  pub mode : Mode
  pub guid : Text
  pub owner : Text
  pub status : TeardownStatus

abbrev pub carries : Text → InstanceSignals → Bool
carries guid i = elim i.guid [ none ↦ false | some g ↦ text_eq g guid ]

module _ (kento : Kento) (args : TeardownArgs) where
  abbrev pub report : Mode → TeardownStatus → TeardownReport
  report mode status = record { mode = mode; guid = args.guid; owner = args.owner; status = status }

  abbrev pub unknown_lease : Failure
  unknown_lease =
      message
        (lit "refusing teardown: no env row for guid " ++ (args.guid ++ lit " (unknown lease)"))

  abbrev pub owner_mismatch : Failure
  owner_mismatch = message (
      lit "refusing teardown: env "
      ++ (args.guid ++ (lit " is not owned by '" ++ (args.owner ++ lit "' (owner mismatch)"))))

  abbrev pub name_mismatch : InstanceSignals → Env → Failure
  name_mismatch instance row = message (
      lit "refusing teardown: live instance for guid "
      ++ (args.guid
          ++ (lit " has name '"
              ++ (instance.name
                  ++ (lit "' but the row records '" ++ (row.name ++ lit "' (name mismatch)"))))))

  -- The answer, by what `kento.teardown(&instance.name, mode)` said.
  unfoldable pub destroyed : Mode → Fallible (Unit {0}) → Privileged TeardownReport
  destroyed mode (ok u) = pure (report mode reaped)
  destroyed mode (err e) = raise (Failure.core e)

  unfoldable pub destroy_live : Mode → InstanceSignals → Privileged TeardownReport
  unfolding destroyed
  destroy_live mode instance w =
      destroyed mode (kento.teardown w.teardowns instance.name mode)
        (record w { teardowns = (instance.name, mode) ∷ w.teardowns })

  -- Once the row is cleared: on the live instance of that guid.
  unfoldable pub teardown_live : Mode → Env → Option InstanceSignals → Privileged TeardownReport
  unfolding destroy_live
  teardown_live mode row none = pure (report mode already_gone)
  teardown_live mode row (some instance) =
      raise_if (not (text_eq instance.name row.name)) (name_mismatch instance row)
      >> destroy_live mode instance

  -- On what `get_env` found.
  unfoldable pub teardown_row : Mode → Option Env → Privileged TeardownReport
  unfolding teardown_live
  teardown_row mode none = raise unknown_lease
  teardown_row mode (some row) = do
    raise_if (not (text_eq row.owner args.owner)) owner_mismatch
    live ← lift (from_core kento.list_instances)
    teardown_live mode row (find (carries args.guid) live)

  unfoldable pub teardown_run : Faults → Text → Fallible (Unit {0}) → Privileged TeardownReport
  unfolding teardown_row
  teardown_run faults path opened = do
    mode ← lift (parse_mode args.mode)
    lift (from_core (validate_owner_name args.owner))
    lift (open_db path opened)
    found ← running (on_db (get_env faults args.guid))
    teardown_row mode found
