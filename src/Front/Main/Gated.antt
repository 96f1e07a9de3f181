-- ===== src/Front/Main/Gated.antt =====
-- When a run of the front-end (crates/seadog/src/main.rs) may change anything.
use seadog.Prelude.{ℕ, Bool, false, ◌≡◌, ◌⊎◌, Option, some, List, Result, ok, Text}
use seadog.Core.Failure.{Failure}
use seadog.Core.Config.{Config}
use seadog.Core.Action.{Acting}
use seadog.Core.Sql.{SameTables, Faults}
use seadog.Core.Reap.Routing.{World}
use seadog.Front.Elevate.{ElevateArgs, ElevateError}
use seadog.Front.Elevate.Run.{spawn_watcher}
use seadog.Front.Login.{identified}
use seadog.Front.Host.{
  Command, ls, privileged, verb_class, Parsed, parsed, Host, load_config, acting_owner,
}
use seadog.Front.Listings.Reads.{Reads}
use seadog.Front.Create.{Realized}
use seadog.Front.Main.{Answer, ctx_of, dispatch}

-- No table is written, the heartbeat's included, and no teardown is called.
abbrev pub Quiet : World → World → Type 0
Quiet w w' = SameTables w.db w'.db × (w'.teardowns ≡ w.teardowns)

module _ {V : Type 0} (faults : Faults) (parse_duration : Text → Result Text ℕ)
    (to_lowercase : ℕ → Text) (start : List Text → Acting Text World (Unit {0}))
    (provision : ElevateArgs → Acting ElevateError World Realized)
    (teardown : ElevateArgs → Acting ElevateError World V) (host : Host) (w : World) where
  abbrev dispatched : Option Text → Config → Command → Result Failure (Answer V) × World
  dispatched owner config v =
      dispatch faults parse_duration to_lowercase start provision teardown host
        (ctx_of host owner config) v w

  -- The listing, which starts the watcher first, changes nothing behind that.
  abbrev pub Watched : Command → World → Type 0
  Watched v w' = (all : Bool) × (v ≡ ls all) × Quiet (spawn_watcher start w).1 w'

  module _ (sha256 : List ℕ → List ℕ) (split : Text → Result Text (List Text))
      (parse : List Text → Parsed) where
    -- A privileged verb that is carried out: by whom, and with what config.
    pub record Acted (r : Result Failure (Answer V) × World) : Type 0 where
      pub owner_flag : Option Text
      pub words : List Text
      pub identity : identified split host.ssh_original_command host.argv ≡ ok (owner_flag, words)
      pub v : Command
      pub verb : parse words ≡ parsed v
      pub class : verb_class v ≡ privileged
      pub unprivileged : host.is_root ≡ false
      pub owner : Text
      pub acting : acting_owner sha256 host owner_flag ≡ some owner
      pub config : Config
      pub loaded : load_config host.config ≡ ok config
      pub done : r ≡ dispatched (some owner) config v

    abbrev pub Fate : Result Failure (Answer V) × World → Type 0
    Fate r =
        Quiet w r.1
        ⊎ ((owner_flag : Option Text) × (words : List Text) × (v : Command) × (identified split
                host.ssh_original_command host.argv
              ≡ ok (owner_flag, words))
            × (parse words ≡ parsed v)
            × Watched v r.1)
        ⊎ Acted r
