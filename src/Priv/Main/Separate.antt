-- ===== src/Priv/Main/Separate.antt =====
-- What a run of the helper (crates/seadog-priv/src/main.rs) may change, by its verb.
use seadog.Prelude.{Bool, ◌≡◌, ◌⊎◌, Option, none, some, Result, ok, err, Text}
use seadog.Core.Failure.{Failure}
use seadog.Core.Config.{Config, validate}
use seadog.Core.Sql.{Faults}
use seadog.Priv.Owners.{list_owners}
use seadog.Priv.Main.{Verb, provision, watch, add_owner, remove_owner, Answer, Machine, Root}

-- What is left alone, by the verb.
abbrev pub LeftAlone : Verb → Machine → Machine → Type 0
LeftAlone (provision args) m m' = (m'.world ≡ m.world) × (m'.keys ≡ m.keys)
LeftAlone (add_owner owner key) m m' = (m'.world ≡ m.world) × (m'.requests ≡ m.requests)
LeftAlone (remove_owner owner) m m' = (m'.world ≡ m.world) × (m'.requests ≡ m.requests)
LeftAlone Verb.list_owners m m' = m' ≡ m
LeftAlone v m m' = (m'.keys ≡ m.keys) × (m'.requests ≡ m.requests)

module _ (faults : Faults) (is_uuid : Text → Bool) (root : Root) (m : Machine) where
  abbrev pub Dispatched : Verb → Option (Result Failure Answer × Machine) → Type 0
  Dispatched v none = v ≡ watch
  Dispatched v (some (r, m')) = LeftAlone v m m'

  -- No effect with an error; or the helper was root, its config was valid, and it left alone what
  -- the verb is not about.
  abbrev pub Ended : Verb → Option (Result Failure Answer × Machine) → Type 0
  Ended v none = v ≡ watch
  Ended v (some (r, m')) =
      ((m' ≡ m) × (e : Failure) × (r ≡ err e))
      ⊎ ((root.euid ≡ 0)
          × (config : Config) × (root.config ≡ ok config)
          × (validate config ≡ ok tt)
          × LeftAlone v m m')
