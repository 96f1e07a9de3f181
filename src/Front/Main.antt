-- ===== src/Front/Main.antt =====
-- The front-end from the process's argv to a verb: `run` and `dispatch` of
-- crates/seadog/src/main.rs. The crates `shell-words`, `clap`, `humantime` and `sha2` are arguments,
-- and so is the helper, by each of the two verbs that elevate to it, and the start of the watcher.
pub mod Gated
use seadog.Prelude.{
  ℕ, Bool, not, ◌&&◌, Option, none, some, List, [], ◌∷◌, Result, ok, err, is_some, Text, lit,
}
use seadog.Core.Failure.{Failure, message, from_core}
use seadog.Core.Models.{Env}
use seadog.Core.Config.{Config, Image}
use seadog.Core.Action.{Acting, pure, raise, lift, raise_if, ◌>>=◌, ◌>>◌}
use seadog.Core.Sql.{Faults}
use seadog.Core.Reap.Routing.{World}
use seadog.Front.Context.{Ctx, Verb}
use seadog.Front.Elevate.{ElevateArgs, ElevateError}
use seadog.Front.Elevate.Run.{spawn_watcher}
use seadog.Front.Login.{identified}
use seadog.Front.Host.{
  Command, ls, show, health, history, stats, images, extend, ack, create, destroy, VerbClass,
  config_only, verb_class, is_privileged, Parsed, parsed, displayed, refused, Host, load_config,
  acting_owner, window_secs, extension_secs,
}
use seadog.Front.Listings.{
  EnvList, History, Health, Stats, show_run, history_run, health_run, stats_run, ls_run,
}
use seadog.Front.Extend.{Extension, extend_run}
use seadog.Front.Ack.{Acknowledgement, ack_run}
use seadog.Front.Create.{Realized, Creation, create_run}
use seadog.Front.Destroy.{Destruction, destroy_run}

-- The JSON that is printed, by the verb.
pub data Answer (V : Type 0) : Type 0 where
  nothing : Answer V
  catalog : List (Text × Image) → Answer V
  listed : EnvList → Answer V
  shown : Env → Answer V
  healthy : Health → Answer V
  past : History → Answer V
  counted : Stats → Answer V
  extended : Extension → Answer V
  acked : Acknowledgement → Answer V
  created : Creation → Answer V
  destroyed : Destruction V → Answer V

abbrev pub on_tables : {A : Type 0} → Verb A → Acting Failure World A
on_tables m w = let (r, d) = m w.db in (r, record w { db = d })

-- The JSON of a verb's answer.
abbrev pub answer : {A B : Type 0} → (A → B) → Acting Failure World A → Acting Failure World B
answer f m = m >>= λ a. pure (f a)

abbrev pub root_refused : Failure
root_refused = message (lit "seadog must not run privileged verbs as root")

abbrev pub no_owner : Failure
no_owner = message (lit "could not resolve owner (no --owner, no key match)")

abbrev pub ctx_of : Host → Option Text → Config → Ctx
ctx_of host owner config = record { owner = owner; config = config; now_unix = host.now_unix }

module _ {V : Type 0} (faults : Faults) (parse_duration : Text → Result Text ℕ)
    (to_lowercase : ℕ → Text) (start : List Text → Acting Text World (Unit {0}))
    (provision : ElevateArgs → Acting ElevateError World Realized)
    (teardown : ElevateArgs → Acting ElevateError World V) (host : Host) where
  -- A verb behind the opportunistic start of the watcher, whose failure is dropped.
  abbrev pub hooked : {A : Type 0} → Acting Failure World A → Acting Failure World A
  hooked m w = m (spawn_watcher start w).1

  -- The verbs that require an owner start the watcher once they have one.
  abbrev pub hooked_by :
      {A : Type 0} → Option Text → Acting Failure World A → Acting Failure World A
  hooked_by none m = m
  hooked_by (some owner) m = hooked m

  unfoldable pub dispatch : Ctx → Command → Acting Failure World (Answer V)
  dispatch ctx (ls all) = hooked (answer listed (on_tables (ls_run faults ctx all)))
  dispatch ctx (show env_id) = answer shown (on_tables (show_run faults ctx env_id))
  dispatch ctx health = answer healthy (on_tables (health_run faults ctx))
  dispatch ctx (history window) = lift (window_secs parse_duration window) >>= λ secs.
      answer past (on_tables (history_run faults ctx secs))
  dispatch ctx stats = answer counted (on_tables (stats_run faults))
  dispatch ctx images = pure (catalog ctx.config.images)
  dispatch ctx (extend env_id duration) = lift (extension_secs parse_duration duration) >>= λ d.
      answer extended (on_tables (extend_run faults ctx env_id d))
  dispatch ctx (ack env_id) = answer acked (on_tables (ack_run faults ctx env_id))
  dispatch ctx (create args) = hooked_by ctx.owner (
      answer created (
        create_run faults provision host.opened ctx args host.guid host.mac to_lowercase host.token
          parse_duration))
  dispatch ctx (destroy env_id) =
      hooked_by ctx.owner (answer destroyed (destroy_run faults teardown ctx env_id))

  -- `images` needs no owner and no database.
  abbrev pub images_run : Acting Failure World (Answer V)
  images_run = lift (load_config host.config) >>= λ config. pure (catalog config.images)

  unfoldable pub run_owned : Option Text → Command → Acting Failure World (Answer V)
  unfolding dispatch
  run_owned owner v = do
    raise_if (is_privileged v && not (is_some owner)) no_owner
    config ← lift (load_config host.config)
    lift (from_core host.opened)
    dispatch (ctx_of host owner config) v

  module _ (sha256 : List ℕ → List ℕ) (split : Text → Result Text (List Text))
      (parse : List Text → Parsed) where
    -- On the class of the verb.
    unfoldable pub run_classed : Option Text → Command → VerbClass → Acting Failure World (Answer V)
    unfolding run_owned
    run_classed owner_flag v config_only = images_run
    run_classed owner_flag v class = run_owned (acting_owner sha256 host owner_flag) v

    unfoldable pub run_parsed : Option Text → Parsed → Acting Failure World (Answer V)
    unfolding run_classed
    run_parsed owner_flag (refused e) = raise (message e)
    run_parsed owner_flag displayed = pure nothing
    run_parsed owner_flag (parsed v) =
        raise_if (is_privileged v && host.is_root) root_refused
        >> run_classed owner_flag v (verb_class v)

    unfoldable pub front_run : Acting Failure World (Answer V)
    unfolding run_parsed
    front_run = lift (identified split host.ssh_original_command host.argv) >>= λ who.
        run_parsed who.0 (parse who.1)
