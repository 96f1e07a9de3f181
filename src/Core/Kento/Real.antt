-- ===== src/Core/Kento/Real.antt =====
-- Running kento: `RealKento` of crates/core/src/kento.rs. What a run of the program comes to is given,
-- by the runs before; the process, its pipes and its clock are not part of the repository.
use seadog.Prelude.{
  Bool, true, ◌++◌, Option, none, some, List, [], ◌∷◌, ok, err, Result, any, if◌then◌else◌, Text,
  lit, decimal_ℤ, strip_prefix, is_empty, trim,
}
use seadog.Prelude.Int.{ℤ}
use seadog.Core.Errors.{Error, Fallible}
use seadog.Core.Models.{Mode, InstanceSignals}
use seadog.Core.Action.{Action, pure, lift, ◌>>=◌, ◌>>◌}
use seadog.Core.Json.{Json}
use seadog.Core.Kento.{
  ProvisionSpec, ProvisionOutcome, provision_argv, teardown_argv, inspect_argv, list_json_argv,
}
use seadog.Core.Kento.Parse.{parse_kento_inspect, parse_kento_list_json}

-- `kento_bin`, from the config.
unfoldable pub from_config : Option Text → Text
from_config none = lit "kento"
from_config (some p) = if is_empty (trim p) then lit "kento" else p

pub record ExitStatus : Type 0 where
  pub success : Bool
  pub code : Option ℤ

-- What a run comes to: where it stops with an error, or how it ended and what it printed.
pub data Ran : Type 0 where
  spawn_failed : Text → Ran
  wait_failed : Text → Ran
  timed_out : Ran
  collect_failed : Text → Ran
  ended : ExitStatus → Text → Text → Ran

-- `str::contains`
unfoldable pub contains_text : Text → Text → Bool
unfolding strip_prefix
contains_text needle [] = is_empty needle
contains_text needle (c ∷ s) = elim (strip_prefix needle (c ∷ s)) [
  | some rest ↦ true
  | none ↦ contains_text needle s
]

abbrev pub quorum_markers : List Text
quorum_markers =
    lit "no quorum"
    ∷ lit "cluster not ready"
    ∷ lit "Read-only file system"
    ∷ lit "permission denied - not part of cluster"
    ∷ []

-- `{:?}` of the code
abbrev pub code_text : Option ℤ → Text
code_text none = lit "None"
code_text (some z) = lit "Some(" ++ (decimal_ℤ z ++ lit ")")

-- The runs so far, the last one first.
abbrev pub Runs : Type 0
Runs = List (List Text)

module _ (parse : Text → Result Text Json) where
  abbrev pub listed_from : Text → Fallible (List InstanceSignals)
  listed_from out = elim (parse_kento_list_json parse out) [
    | ok instances ↦ ok instances
    | err e ↦ err (Error.kento e)
  ]

  abbrev pub inspected : Text → Text → Fallible ProvisionOutcome
  inspected name json = elim (parse_kento_inspect parse json) [
    | ok signals ↦ ok (record {
      mac = signals.mac;
      ssh_host_key_fps = signals.ssh_host_key_fps;
      vmid = signals.vmid;
    })
    | err e ↦ err (Error.kento (lit "parsing inspect " ++ (name ++ (lit ": " ++ e))))
  ]

module _ (to_lowercase : Text → Text) (program : Text) where
  unfoldable pub reports_quorum_loss : Text → Text → Bool
  unfolding contains_text
  reports_quorum_loss stdout stderr =
      any (λ m. contains_text (to_lowercase m) (to_lowercase (stdout ++ (lit "\n" ++ stderr))))
        quorum_markers

  unfoldable pub failure : ExitStatus → Text → Text → Error
  unfolding reports_quorum_loss
  failure status stdout stderr =
      if reports_quorum_loss stdout stderr
      then Error.quorum_lost (program ++ (lit " reported quorum loss: " ++ trim stderr))
      else Error.kento
          (program ++ (lit " exited " ++ (code_text status.code ++ (lit ": " ++ trim stderr))))

  unfoldable pub result : Ran → Fallible Text
  unfolding failure
  result (spawn_failed e) = err (Error.kento (lit "spawn " ++ (program ++ (lit ": " ++ e))))
  result (wait_failed e) = err (Error.kento (lit "wait " ++ (program ++ (lit ": " ++ e))))
  result timed_out = err (Error.kento (program ++ lit " timed out after 30s"))
  result (collect_failed e) = err (Error.kento (lit "collect " ++ (program ++ (lit ": " ++ e))))
  result (ended status stdout stderr) =
      if status.success then ok stdout else err (failure status stdout stderr)

  module _ (child : Runs → List Text → Ran) where
    unfoldable pub run : List Text → Action Runs Text
    unfolding result
    run argv runs = (result (child runs argv), argv ∷ runs)

    unfoldable pub teardown : Text → Mode → Action Runs (Unit {0})
    unfolding run teardown_argv
    teardown name mode = run (teardown_argv name mode) >> pure tt

    module _ (parse : Text → Result Text Json) where
      unfoldable pub list_instances : Action Runs (List InstanceSignals)
      unfolding run parse_kento_list_json
      list_instances = do out ← run list_json_argv; lift (listed_from parse out)

      unfoldable pub provision : ProvisionSpec → Action Runs ProvisionOutcome
      unfolding run parse_kento_inspect provision_argv inspect_argv
      provision spec = do
        run (provision_argv spec)
        json ← run (inspect_argv spec.name)
        lift (inspected parse spec.name json)
