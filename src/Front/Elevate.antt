-- ===== src/Front/Elevate.antt =====
-- The request to the helper: crates/seadog/src/elevate.rs. Running the child process, with the
-- environment it gets and the JSON it prints, is an argument of the verbs that elevate; Run is about
-- that process.
pub mod Run
use seadog.Prelude.{List, ◌∷◌, ◌++◌, Option, Text, lit, is_empty, if◌then◌else◌, trim, unwrap_or}

-- `struct ElevateArgs`
pub record ElevateArgs : Type 0 where
  pub verb : Text
  pub owner : Text
  pub args : List Text

-- `enum ElevateError`; the exit code as it is printed.
pub data ElevateError : Type 0 where
  spawn : (verb problem : Text) → ElevateError
  helper : (verb : Text) (code : Option Text) (stderr : Text) → ElevateError
  bad_json : (verb problem : Text) → ElevateError

-- Its `Display`.
unfoldable pub elevate_error_text : ElevateError → Text
elevate_error_text (spawn verb problem) =
    lit "could not invoke privileged helper for '" ++ (verb ++ (lit "': " ++ problem))
elevate_error_text (helper verb code stderr) =
    lit "privileged helper '"
    ++ (verb
        ++ (lit "' failed (exit " ++ (unwrap_or (lit "signal") code ++ (lit "): " ++ trim stderr))))
elevate_error_text (bad_json verb problem) =
    lit "privileged helper '" ++ (verb ++ (lit "' returned unparseable output: " ++ problem))

-- `build_argv_with`: `sudo` is empty where it is skipped.
unfoldable pub build_argv_with : Text → Text → ElevateArgs → List Text
build_argv_with sudo priv_bin req =
    let tail = priv_bin ∷ req.verb ∷ lit "--owner" ∷ req.owner ∷ req.args in
    if is_empty sudo then tail else sudo ∷ tail
