-- ===== src/Priv/Main.antt =====
-- The entry point of the helper: crates/seadog-priv/src/main.rs, with the `run` of sweep.rs and of
-- watch.rs. What the system answers is the record `Root`; writing the audit line of `log_op` and the
-- JSON text that is printed is left out, the values that they are made of are not.
pub mod Separate
use seadog.Prelude.{
  Bool, ℕ, zero, suc, ◌==◌, Option, none, some, List, [], ◌∷◌, ◌++◌, Result, ok, err, if◌then◌else◌,
  Text, lit, decimal,
}
use seadog.Prelude.Int.{ℤ}
use seadog.Core.Errors.{Error, Fallible, error_text}
use seadog.Core.Failure.{Failure, message}
use seadog.Core.Config.{Config, validate}
use seadog.Core.Action.{Acting, pure, lift, ◌>>=◌, ◌>>◌}
use seadog.Core.Sql.{Faults}
use seadog.Core.Kento.{ProvisionSpec, ProvisionOutcome}
use seadog.Core.Reap.Routing.{Kento, World}
use seadog.Priv.Teardown.{Privileged, TeardownArgs, TeardownReport, teardown_run, open_db}
use seadog.Priv.Provision.{ProvisionArgs, provision_run}
use seadog.Priv.Sweep.{LockOutcome, acquired, already_held, SweepReport, run_gated}
use seadog.Priv.Watch.{LoopSummary, at_start, run_loop}
use seadog.Priv.Owners.{Keys, Addition}
use seadog.Priv.Owners
use seadog.Core.AuthKeys.{OwnerEntry}

-- `enum Verb`
pub data Verb : Type 0 where
  provision : ProvisionArgs → Verb
  teardown : TeardownArgs → Verb
  watch sweep : Verb
  add_owner : Text → Text → Verb
  list_owners : Verb
  remove_owner : Text → Verb

abbrev pub verb_name : Verb → Text
verb_name (provision args) = lit "provision"
verb_name (teardown args) = lit "teardown"
verb_name watch = lit "watch"
verb_name sweep = lit "sweep"
verb_name (add_owner owner key) = lit "add-owner"
verb_name list_owners = lit "list-owners"
verb_name (remove_owner owner) = lit "remove-owner"

-- The owner, the verb and the target of the audit line.
abbrev pub log_op : Verb → Text × Text × Text
log_op (provision a) = (a.owner, lit "provision", lit "name " ++ a.name)
log_op (teardown a) = (a.owner, lit "teardown", lit "guid " ++ a.guid)
log_op (add_owner owner key) = (owner, lit "add-owner", owner)
log_op (remove_owner owner) = (owner, lit "remove-owner", owner)
log_op v = (lit "-", verb_name v, lit "-")

-- What the verb answers.
pub data Answer : Type 0 where
  provisioned : ProvisionOutcome → Answer
  torn_down : TeardownReport → Answer
  swept : SweepReport → Answer
  already_running : Answer
  watched : LoopSummary → Answer
  added : Addition → Answer
  listed : List OwnerEntry → Answer
  removed : ℕ → Answer

-- What the verbs change: the database and the instances, the key file, and what kento was asked for.
pub record Machine : Type 0 where
  pub world : World
  pub keys : Text
  pub requests : List ProvisionSpec

pub record Root : Type 0 where
  pub euid : ℕ
  pub config_path : Text
  pub config : Fallible Config
  pub db_path : Text
  pub opened : Fallible (Unit {0})
  pub lock : Result Failure LockOutcome
  pub readable : Result Failure (Unit {0})
  pub writable : Result Failure (Unit {0})
  pub ssh_key_file : Option Text
  pub kento : ℕ → Kento
  pub clock : ℕ → ℤ
  pub provision : List ProvisionSpec → ProvisionSpec → Fallible ProvisionOutcome

unfoldable pub ensure_root : ℕ → Result Failure (Unit {0})
ensure_root euid =
    if euid == 0
    then ok tt
    else err (message (lit "seadog-priv must run as root (euid 0), but euid is " ++ decimal euid))

abbrev pub validated : Text → Config → Result Failure Config
validated path config = elim (validate config) [
  | ok u ↦ ok config
  | err e ↦ err (message (lit "config " ++ (path ++ (lit " is invalid: " ++ error_text e))))
]

unfoldable pub load_own_config : Text → Fallible Config → Result Failure Config
load_own_config path (ok config) = validated path config
load_own_config path (err e) =
    err (message (lit "loading config " ++ (path ++ (lit ": " ++ error_text e))))

abbrev pub mapped : {A B S : Type 0} → (A → B) → Result Failure A × S → Result Failure B × S
mapped f (ok a, s) = (ok (f a), s)
mapped f (err e, s) = (err e, s)

abbrev pub on_world : {A : Type 0} → (A → Answer) → Privileged A → Acting Failure Machine Answer
on_world f m machine = let (r, w) = mapped f (m machine.world) in (r, record machine { world = w })

abbrev pub on_keys : {A : Type 0} → (A → Answer) → Keys A → Acting Failure Machine Answer
on_keys f m machine = let (r, k) = mapped f (m machine.keys) in (r, record machine { keys = k })

abbrev pub on_requests :
    {A : Type 0}
    → (A → Answer)
    → Acting Failure (List ProvisionSpec) A
    → Acting Failure Machine Answer
on_requests f m machine =
    let (r, q) = mapped f (m machine.requests) in (r, record machine { requests = q })

-- `NoBackend`, the kento of a build without the feature.
abbrev pub no_backend_err : Error
no_backend_err =
    Error.kento (
      lit
        "seadog-priv was built without the real-kento backend; rebuild with --features real-kento")

abbrev pub no_backend : Root → Root
no_backend root = record root {
  kento = λ n. record {
    list_instances = err no_backend_err;
    teardown = λ before name mode. err no_backend_err;
  };
  provision = λ before spec. err no_backend_err;
}

module _ (faults : Faults) (is_uuid : Text → Bool) (root : Root) where
  -- `sweep::run`
  unfoldable pub sweep_run : Config → Privileged SweepReport
  sweep_run config =
      lift (open_db root.db_path root.opened)
      >> run_gated faults config is_uuid (root.kento 0) (root.clock 0) root.lock

  abbrev pub looped : World → Option (LoopSummary × World) → Option (Result Failure Answer × World)
  looped w none = none
  looped w (some (summary, w')) = some (ok (watched summary), w')

  abbrev pub behind_open :
      ℕ → Config → World → Result Failure (Unit {0}) → Option (Result Failure Answer × World)
  behind_open fuel config w (err e) = some (err e, w)
  behind_open fuel config w (ok u) =
      looped w (run_loop faults config is_uuid root.kento root.clock none fuel 0 at_start w)

  -- `watch::run`; none if the loop still goes on after as many turns as the fuel gives.
  unfoldable pub watch_run :
      ℕ → Config → World → Result Failure LockOutcome → Option (Result Failure Answer × World)
  watch_run fuel config w (err e) = some (err e, w)
  watch_run fuel config w (ok already_held) = some (ok already_running, w)
  watch_run fuel config w (ok acquired) =
      behind_open fuel config w (open_db root.db_path root.opened)

  abbrev pub with_world :
      Machine → Option (Result Failure Answer × World) → Option (Result Failure Answer × Machine)
  with_world machine none = none
  with_world machine (some (r, w)) = some (r, record machine { world = w })

  unfoldable pub dispatch_verb :
      ℕ → Config → Verb → Machine → Option (Result Failure Answer × Machine)
  unfolding sweep_run watch_run
  dispatch_verb fuel config (provision args) machine =
      some (
        on_requests provisioned (provision_run config args root.provision root.ssh_key_file)
          machine)
  dispatch_verb fuel config (teardown args) machine = some (
      on_world torn_down (teardown_run (root.kento 0) args faults root.db_path root.opened) machine)
  dispatch_verb fuel config sweep machine = some (on_world swept (sweep_run config) machine)
  dispatch_verb fuel config watch machine =
      with_world machine (watch_run fuel config machine.world root.lock)
  dispatch_verb fuel config (add_owner owner key) machine =
      some (on_keys added (Owners.add_owner root.readable root.writable owner key) machine)
  dispatch_verb fuel config list_owners machine =
      some (on_keys listed (Owners.list_owners root.readable root.writable) machine)
  dispatch_verb fuel config (remove_owner owner) machine =
      some (on_keys removed (Owners.remove_owner root.readable root.writable owner) machine)

  abbrev pub with_config :
      ℕ → Verb → Machine → Result Failure Config → Option (Result Failure Answer × Machine)
  with_config fuel v machine (err e) = some (err e, machine)
  with_config fuel v machine (ok config) = dispatch_verb fuel config v machine

  abbrev pub as_root :
      ℕ → Verb → Machine → Result Failure (Unit {0}) → Option (Result Failure Answer × Machine)
  as_root fuel v machine (err e) = some (err e, machine)
  as_root fuel v machine (ok u) =
      with_config fuel v machine (load_own_config root.config_path root.config)

  -- `main`
  unfoldable pub helper_run : ℕ → Verb → Machine → Option (Result Failure Answer × Machine)
  unfolding dispatch_verb ensure_root load_own_config
  helper_run fuel v machine = as_root fuel v machine (ensure_root root.euid)
