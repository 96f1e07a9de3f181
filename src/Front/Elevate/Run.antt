-- ===== src/Front/Elevate/Run.antt =====
-- Running the helper: `elevate` and `spawn_watcher` of crates/seadog/src/elevate.rs, in a production
-- build. What the child process comes to, and what its text is as JSON, are arguments; that its
-- environment is cleared is not modelled.
use seadog.Prelude.{
  Bool, Option, none, some, List, [], ◌∷◌, Result, ok, err, if◌then◌else◌, Text, lit, decimal_ℤ,
  trim,
}
use seadog.Prelude.Int.{ℤ}
use seadog.Core.Action.{Acting}
use seadog.Core.Json.{Json}
use seadog.Core.Reap.Routing.{World}
use seadog.Front.Elevate.{ElevateArgs, ElevateError, spawn, helper, bad_json, build_argv_with}

abbrev pub prod_priv_bin : Text
prod_priv_bin = lit "/usr/lib/seadog/seadog-priv"

abbrev pub prod_sudo : Text
prod_sudo = lit "/usr/bin/sudo"

abbrev pub prod_setsid : Text
prod_setsid = lit "/usr/bin/setsid"

unfoldable pub build_argv : ElevateArgs → List Text
unfolding build_argv_with
build_argv req = build_argv_with prod_sudo prod_priv_bin req

unfoldable pub watcher_argv : List Text
watcher_argv = prod_setsid ∷ prod_sudo ∷ prod_priv_bin ∷ lit "watch" ∷ []

-- `std::process::Output`, as texts.
pub record Output : Type 0 where
  pub success : Bool
  pub code : Option ℤ
  pub stdout : Text
  pub stderr : Text

pub record ElevateOutcome : Type 0 where
  pub verb : Text
  pub result : Json

abbrev pub printed_code : Option ℤ → Option Text
printed_code none = none
printed_code (some z) = some (decimal_ℤ z)

abbrev pub outcome_of : Text → Result Text Json → Result ElevateError ElevateOutcome
outcome_of verb (ok v) = ok (record { verb = verb; result = v })
outcome_of verb (err e) = err (bad_json verb e)

module _ (child : List Text → Result Text Output) (parse : Text → Result Text Json) where
  abbrev pub finished : Text → Result Text Output → Result ElevateError ElevateOutcome
  finished verb (err e) = err (spawn verb e)
  finished verb (ok output) =
      if output.success
      then outcome_of verb (parse (trim output.stdout))
      else err (helper verb (printed_code output.code) output.stderr)

  unfoldable pub elevate : ElevateArgs → Result ElevateError ElevateOutcome
  unfolding build_argv
  elevate req = finished req.verb (child (build_argv req))

-- Whether the watcher could be started. Its run is not waited for: `start` says what it has done by
-- the time that the caller goes on.
unfoldable pub spawn_watcher :
    (List Text → Acting Text World (Unit {0})) → Acting ElevateError World (Unit {0})
unfolding watcher_argv
spawn_watcher start w =
    let (r, after) = start watcher_argv w in
    (elim r [ ok u ↦ ok tt | err e ↦ err (spawn (lit "watch") e) ], after)
