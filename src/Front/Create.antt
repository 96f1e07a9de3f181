-- ===== src/Front/Create.antt =====
-- `create`: crates/seadog/src/verbs/create.rs. The guid, the MAC that `mint_mac` makes, the indices
-- drawn for the token, the answer of `store::open` and the helper that it elevates to are arguments.
-- The watcher, which it starts once it has an owner, is started in Front/Main, by `hooked_by`; that
-- it prints a warning does nothing to the verb.
pub mod Leased
use seadog.Prelude.{
  ℕ, ◌%◌, ◌^◌, Bool, false, ◌&&◌, ◌++◌, Option, none, some, List, [], ◌∷◌, Result, ok, err, select,
  length, leb, unwrap_or, lookup, if◌then◌else◌, Text, lit, decimal,
}
use seadog.Prelude.Int.{ℤ}
use seadog.Prelude.Ipv4.{ip_text}
use seadog.Core.Errors.{Fallible}
use seadog.Core.Failure.{Failure, message, from_core, running}
use seadog.Core.Models.{Mode, mode_eq, mode_as_str, active, status_eq, Env}
use seadog.Core.Config.{Config}
use seadog.Core.Action.{Acting, pure, raise, lift, raise_if, ◌>>=◌, ◌>>◌}
use seadog.Core.Sql.{Faults, Sql}
use seadog.Core.Store.{list_by_owner, mark_vanished, set_provision_signals}
use seadog.Core.Alloc.{NewEnv, allocate}
use seadog.Core.Reap.Routing.{World, on_db}
use seadog.Front.Context.{Ctx, require_owner}
use seadog.Front.Elevate.{ElevateArgs, ElevateError, elevate_error_text}
use seadog.Front.Mint.{mint_guest_name}
use seadog.Front.Plan.{CreateArgs, Plan, planned, mode_cap}

-- What the helper's JSON has under the three keys: `as_str`, `as_array`, and `as_u64`.
pub record Realized : Type 0 where
  pub mac : Option Text
  pub ssh_host_key_fps : Option (List (Option Text))
  pub vmid : Option ℕ

-- The JSON of the answer.
pub record Creation : Type 0 where
  pub id : Text
  pub ip : Text
  pub name : Text
  pub vmid : Option ℕ
  pub mode : Mode
  pub mac : Text
  pub ttl_deadline : ℤ
  pub memory : Option ℕ
  pub cores : Option ℕ

-- `filter_map(|v| v.as_str())`
unfoldable pub strings : List (Option Text) → List Text
strings [] = []
strings (v ∷ more) = let rest = strings more in elim v [ none ↦ rest | some s ↦ s ∷ rest ]

abbrev pub effective_mac : Realized → Text
effective_mac outcome = unwrap_or [] outcome.mac

abbrev pub fingerprints : Realized → List Text
fingerprints outcome = elim outcome.ssh_host_key_fps [ none ↦ [] | some vs ↦ strings vs ]

-- `v as u32`
abbrev pub effective_vmid : Realized → Option ℕ
effective_vmid outcome = elim outcome.vmid [ none ↦ none | some v ↦ some (v % 2 ^ 32) ]

abbrev pub counted : Mode → Env → Bool
counted mode env = status_eq env.status active && mode_eq env.mode mode

-- A flag that is left out without a value.
abbrev pub sizing : Text → Option ℕ → List Text
sizing flag none = []
sizing flag (some v) = flag ∷ decimal v ∷ []

abbrev pub true_or_false : Bool → Text
true_or_false b = if b then lit "true" else lit "false"

abbrev pub nesting_of : Config → Text → Bool
nesting_of config image = elim (lookup image config.images) [
  | none ↦ false
  | some img ↦ unwrap_or false img.allow_nesting
]

-- An update whose failure is only printed.
abbrev pub best_effort : Sql (Unit {0}) → Acting Failure World (Unit {0})
best_effort m w = let (r, d) = m w.db in (ok tt, record w { db = d })

module _ (faults : Faults) (elevate : ElevateArgs → Acting ElevateError World Realized)
    (opened : Fallible (Unit {0})) (ctx : Ctx) (args : CreateArgs) (guid mac : Text) where
  abbrev pub new_env : Text → Plan → Text → NewEnv
  new_env owner plan name = record {
    guid = guid;
    mode = plan.resolved.mode;
    owner = owner;
    image = args.image;
    name = name;
    mac = mac;
    created_at = ctx.now_unix;
    ttl_deadline = plan.ttl_deadline;
    soft_deadline = plan.soft_deadline;
  }

  unfoldable pub provision_request : Text → Plan → Text → ℕ → ElevateArgs
  provision_request owner plan name ip = record {
    verb = lit "provision";
    owner = owner;
    args =
        lit "--guid"
        ∷ guid
        ∷ lit "--ip"
        ∷ ip_text ip
        ∷ lit "--mac"
        ∷ mac
        ∷ lit "--name"
        ∷ name
        ∷ lit "--mode"
        ∷ mode_as_str plan.resolved.mode
        ∷ lit "--image-ref"
        ∷ plan.resolved.image_ref
        ∷ lit "--allow-nesting"
        ∷ true_or_false (nesting_of ctx.config args.image)
        ∷ (sizing (lit "--memory") plan.memory ++ sizing (lit "--cores") plan.cores);
  }

  abbrev pub creation : Plan → Text → ℕ → Realized → Creation
  creation plan name ip outcome = record {
    id = guid;
    ip = ip_text ip;
    name = name;
    vmid = effective_vmid outcome;
    mode = plan.resolved.mode;
    mac = effective_mac outcome;
    ttl_deadline = plan.ttl_deadline;
    memory = plan.memory;
    cores = plan.cores;
  }

  -- The `match elevate(&req)`: the signals are recorded, or the lease is given back.
  unfoldable pub after_provision :
      Plan → Text → ℕ → Result ElevateError Realized → Acting Failure World Creation
  after_provision plan name ip (ok outcome) =
      best_effort (
        set_provision_signals faults guid (effective_mac outcome) (fingerprints outcome)
          (effective_vmid outcome))
      >> pure (creation plan name ip outcome)
  after_provision plan name ip (err e) =
      best_effort (mark_vanished faults guid) >> raise (message (elevate_error_text e))

  unfoldable pub create_leased : Text → Plan → Text → ℕ → Acting Failure World Creation
  unfolding after_provision
  create_leased owner plan name ip w =
      let (r, w') = elevate (provision_request owner plan name ip) w in
      after_provision plan name ip r w'

  unfoldable pub create_named : Text → Plan → Text → Acting Failure World Creation
  unfolding create_leased
  create_named owner plan name = do
    lift (from_core opened)
    ip ←
        running
          (on_db (allocate faults ctx.config.allocation.ip_pool.range (new_env owner plan name)))
    create_leased owner plan name ip

  abbrev pub at_cap : Text → Mode → Text → Failure
  at_cap owner mode counts = message (
      lit "owner '"
      ++ (owner
          ++ (lit "' is at the "
              ++ (mode_as_str mode
                  ++ (lit " cap (" ++ (counts ++ lit "); destroy an env first"))))))

  abbrev pub active_of_mode : Mode → List Env → ℕ
  active_of_mode mode envs = length (select (counted mode) envs) % 2 ^ 32

  module _ (to_lowercase : ℕ → Text) (token : List ℕ) where
    -- On the owner's envs: the cap, then the name, the lease and the guest.
    unfoldable pub create_capped : Text → Plan → List Env → Acting Failure World Creation
    unfolding create_named
    create_capped owner plan envs = do
      let mode = plan.resolved.mode
      let cap = mode_cap ctx.config owner mode
      raise_if (leb cap (active_of_mode mode envs))
          (at_cap owner mode (decimal (active_of_mode mode envs) ++ (lit "/" ++ decimal cap)))
      name ← lift (mint_guest_name to_lowercase owner args.image token)
      create_named owner plan name

    unfoldable pub create_run : (Text → Result Text ℕ) → Acting Failure World Creation
    unfolding create_capped
    create_run parse_duration = do
      owner ← lift (require_owner ctx)
      plan ← lift (planned parse_duration ctx args)
      envs ← running (on_db (list_by_owner faults owner))
      create_capped owner plan envs
