-- ===== src/Core/Kento/Seen.antt =====
-- When the list of instances of crates/core/src/kento.rs answers, and what a provision has run.
use seadog.Prelude.{
  true, false, ◌≡◌, refl, subst, inl, inr, ◌⊎◌, Bool-cases, List, ◌∷◌, ok, err, Result, Text,
}
use seadog.Core.Errors.{Error, Fallible}
use seadog.Core.Action.{lift}
use seadog.Core.Post.{Post, Post-map, bind-Post}
use seadog.Core.Json.{Json, null, boolean, number, string, object, Items, array}
use seadog.Core.Kento.{list_json_argv}
use seadog.Core.Kento.Parse.{parse_kento_list_json}
use seadog.Core.Kento.Quorum.{Marked, reports_quorum_loss-Marked, ObjectsOf, objects-ObjectsOf}
use seadog.Core.Kento.Real.{
  Ran, spawn_failed, wait_failed, timed_out, collect_failed, ended, ExitStatus, Runs, result,
  failure, reports_quorum_loss, run, list_instances, listed_from,
}

module _ (to_lowercase : Text → Text) (program : Text) (child : Runs → List Text → Ran) where
  -- A run that ended well, with what it printed; and one that ended with a sign of quorum loss.
  abbrev pub Succeeded : Runs → List Text → Text → Type 0
  Succeeded runs argv out =
      (status : ExitStatus) × (stderr : Text) × (child runs argv ≡ ended status out stderr)
      × (status.success ≡ true)

  abbrev pub LostQuorum : Runs → List Text → Type 0
  LostQuorum runs argv =
      (status : ExitStatus) × (stdout : Text) × (stderr : Text) × (child runs argv
        ≡ ended status stdout stderr)
      × (status.success ≡ false)
      × Marked to_lowercase stdout stderr

  abbrev pub Failed : Runs → List Text → Error → Type 0
  Failed runs argv e =
      ((out : Text) → Succeeded runs argv out → ⊥)
      × ((LostQuorum runs argv × (m : Text) × (e ≡ Error.quorum_lost m))
          ⊎ ((LostQuorum runs argv → ⊥) × (m : Text) × (e ≡ Error.kento m)))

  abbrev Answered : Runs → List Text → Fallible Text → Type 0
  Answered runs argv (ok out) = Succeeded runs argv out
  Answered runs argv (err e) = Failed runs argv e

  same_output :
      {r : Ran} {st st' : ExitStatus} {out out' stderr stderr' : Text}
      → r ≡ ended st out stderr
      → r ≡ ended st' out' stderr'
      → out ≡ out'
  same_output h k = cc

  one_status :
      {r : Ran} {st st' : ExitStatus} {out out' stderr stderr' : Text}
      → r ≡ ended st out stderr
      → st.success ≡ true
      → r ≡ ended st' out' stderr'
      → st'.success ≡ false
      → ⊥
  one_status h well k badly = cc

  -- A run that did not come to an end.
  not_ended-Failed :
      (runs : Runs) (argv : List Text) (m : Text)
      → ((status : ExitStatus) (out stderr : Text) → child runs argv ≡ ended status out stderr → ⊥)
      → Failed runs argv (Error.kento m)
  not_ended-Failed runs argv m never =
      (λ out s. never s.0 out s.1 s.2, inr (λ l. never l.0 l.1 l.2 l.3, m, refl))

  -- A run that ended without a sign has not lost its quorum.
  unmarked :
      (runs : Runs) (argv : List Text) (status : ExitStatus) (stdout stderr : Text)
      → child runs argv ≡ ended status stdout stderr
      → reports_quorum_loss to_lowercase program stdout stderr ≡ false
      → LostQuorum runs argv
      → ⊥
  unmarked runs argv status stdout stderr ran kept (st, out, stderr', ran', badly, marked) =
      let signs = (reports_quorum_loss-Marked to_lowercase program out stderr').1 marked in cc

  ended-Answered :
      (runs : Runs) (argv : List Text) (status : ExitStatus) (stdout stderr : Text)
      → child runs argv ≡ ended status stdout stderr
      → Answered runs argv (result to_lowercase program (ended status stdout stderr))
  unfolding result failure
  ended-Answered runs argv status stdout stderr ran = elim (Bool-cases status.success) [
    | inl well ↦ rw (Answered, result, well) (status, stderr, ran, well)
    | inr badly ↦ elim (Bool-cases (reports_quorum_loss to_lowercase program stdout stderr)) [
      | inl lost ↦
          rw (Answered, result, failure, badly, lost)
            (
              λ out s. cc,
              inl (
                (
                  status,
                  stdout,
                  stderr,
                  ran,
                  badly,
                  (reports_quorum_loss-Marked to_lowercase program stdout stderr).0 lost,
                ),
                _,
                refl,
              ),
            )
      | inr kept ↦
          rw (Answered, result, failure, badly, kept)
            (λ out s. cc, inr (λ l. unmarked runs argv status stdout stderr ran kept l, _, refl))
    ]
  ]

  result-Answered :
      (runs : Runs) (argv : List Text) (r : Ran)
      → child runs argv ≡ r
      → Answered runs argv (result to_lowercase program r)
  unfolding result
  result-Answered runs argv (spawn_failed e) ran = not_ended-Failed runs argv _ (λ s o x h. cc)
  result-Answered runs argv (wait_failed e) ran = not_ended-Failed runs argv _ (λ s o x h. cc)
  result-Answered runs argv timed_out ran = not_ended-Failed runs argv _ (λ s o x h. cc)
  result-Answered runs argv (collect_failed e) ran = not_ended-Failed runs argv _ (λ s o x h. cc)
  result-Answered runs argv (ended status stdout stderr) ran =
      ended-Answered runs argv status stdout stderr ran

  result-Post :
      (runs : Runs) (argv : List Text) (r : Fallible Text)
      → Answered runs argv r
      → Post
          (λ out after. (after ≡ argv ∷ runs) × Succeeded runs argv out)
          (λ e after. (after ≡ argv ∷ runs) × Failed runs argv e)
          (r, argv ∷ runs)
  result-Post runs argv (ok out) h = (refl, h)
  result-Post runs argv (err e) h = (refl, h)

  pub run-Post :
      (argv : List Text) (runs : Runs)
      → Post
          (λ out after. (after ≡ argv ∷ runs) × Succeeded runs argv out)
          (λ e after. (after ≡ argv ∷ runs) × Failed runs argv e)
          (run to_lowercase program child argv runs)
  unfolding run
  run-Post argv runs =
      result-Post runs argv (result to_lowercase program (child runs argv))
        (result-Answered runs argv (child runs argv) refl)

  module _ (parse : Text → Result Text Json) where
    -- What `kento list` printed, as an array.
    abbrev pub Printed : Runs → Items → Type 0
    Printed runs items =
        (out : Text) × Succeeded runs list_json_argv out × (parse out ≡ ok (array items))

    abbrev pub Unseen : Runs → Error → Type 0
    Unseen runs e =
        ((items : Items) → Printed runs items → ⊥)
        × ((LostQuorum runs list_json_argv × (m : Text) × (e ≡ Error.quorum_lost m))
            ⊎ ((LostQuorum runs list_json_argv → ⊥) × (m : Text) × (e ≡ Error.kento m)))

    -- What is printed is no array.
    not_array-Unseen :
        (runs : Runs) (out m : Text)
        → Succeeded runs list_json_argv out
        → ((items : Items) → parse out ≡ ok (array items) → ⊥)
        → Unseen runs (Error.kento m)
    not_array-Unseen runs out m s other = (
      λ items p. other items (subst (λ o. parse o ≡ ok (array items)) (same_output p.1.2 s.2) p.2),
      inr (λ l. one_status s.2 s.3 l.3 l.4, m, refl),
    )

    parsed-Post :
        (runs after : Runs) (out : Text) (r : Result Text Json)
        → parse out ≡ r
        → Succeeded runs list_json_argv out
        → Post
            (λ instances a. (items : Items) × Printed runs items × ObjectsOf items instances)
            (λ e a. Unseen runs e)
            (listed_from parse out, after)
    unfolding parse_kento_list_json
    parsed-Post runs after out (err e) read s =
        rw (listed_from, parse_kento_list_json, read) (not_array-Unseen runs out e s λ i h. cc)
    parsed-Post runs after out (ok (array items)) read s =
        rw (listed_from, parse_kento_list_json, read)
          (items, (out, s, read), objects-ObjectsOf items)
    parsed-Post runs after out (ok null) read s =
        rw (listed_from, parse_kento_list_json, read) (not_array-Unseen runs out _ s λ i h. cc)
    parsed-Post runs after out (ok (boolean b)) read s =
        rw (listed_from, parse_kento_list_json, read) (not_array-Unseen runs out _ s λ i h. cc)
    parsed-Post runs after out (ok (number n)) read s =
        rw (listed_from, parse_kento_list_json, read) (not_array-Unseen runs out _ s λ i h. cc)
    parsed-Post runs after out (ok (string t)) read s =
        rw (listed_from, parse_kento_list_json, read) (not_array-Unseen runs out _ s λ i h. cc)
    parsed-Post runs after out (ok (object o)) read s =
        rw (listed_from, parse_kento_list_json, read) (not_array-Unseen runs out _ s λ i h. cc)

    -- The list answers exactly if kento ended well and printed a JSON array, with the signals of
    -- each object in that array, in its order; otherwise it fails, with the error of a lost quorum
    -- exactly if kento ended badly and one of the four messages stands, in whatever case, in what it
    -- printed on its two outputs.
    pub list_instances-Seen :
        (runs : Runs)
        → Post
            (λ instances a. (items : Items) × Printed runs items × ObjectsOf items instances)
            (λ e a. Unseen runs e)
            (list_instances to_lowercase program child parse runs)
    unfolding list_instances
    list_instances-Seen runs =
        bind-Post (λ out after. (after ≡ list_json_argv ∷ runs) × Succeeded runs list_json_argv out)
          (λ instances a. (items : Items) × Printed runs items × ObjectsOf items instances)
          (λ e a. Unseen runs e) (run to_lowercase program child list_json_argv)
          (λ out. lift (listed_from parse out)) runs
          (Post-map _ _ (λ e after. (after ≡ list_json_argv ∷ runs) × Failed runs list_json_argv e)
            (λ e a. Unseen runs e) (run to_lowercase program child list_json_argv runs)
            (λ out after p. p) (λ e after p. (λ items q. p.1.0 q.0 q.1, p.1.1))
            (run-Post list_json_argv runs))
          (λ out after p. parsed-Post runs after out (parse out) refl p.1)
