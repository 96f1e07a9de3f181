-- ===== src/Front/Listings/Reads.antt =====
-- The verbs that print (crates/seadog/src/verbs) write no table.
use seadog.Prelude.{
  Bool, true, false, ◌||◌, not, is_some, Option, none, some, List, [], ◌∷◌, ◌++◌, ok, err, Text,
}
use seadog.Prelude.Int.{ℤ}
use seadog.Core.Errors.{Fallible}
use seadog.Core.Failure.{running, running-Post}
use seadog.Core.Models.{Env, EnvStatus, active, reaped, vanished, flagged}
use seadog.Core.Action.{pure, ◌>>=◌}
use seadog.Core.Post.{Post, Keeps, Keeps-bind, Keeps-statement}
use seadog.Core.Sql.{SameTables, Db, Faults, statement}
use seadog.Core.Store.{get_env, list_by_owner, list_by_status, read_heartbeat}
use seadog.Front.Context.{Ctx, Verb}
use seadog.Front.Listings.{
  all_statuses, count_envs, no_stats, Stats, list_statuses, count_statuses, stats_run, shown,
  show_run, history_of, history_run, health_of, health_run, own_list, operator_list, ls_of, ls_run,
}

module _ (faults : Faults) (before : Db) where
  abbrev Same : Db → Type 0
  Same = SameTables before

  abbrev pub Reads : {A : Type 0} → Verb A → Type 0
  Reads m = Keeps Same m

  answers : {A : Type 0} (r : Fallible A) (d : Db) → Same d → Post (λ a. Same) (λ e. Same) (r, d)
  answers (ok a) d i = i
  answers (err e) d i = i

  reads : {A : Type 0} (f : Db → Fallible A) → Reads (running (statement faults (λ db. (f db, db))))
  reads f d i =
      running-Post (λ a. Same) (λ e. Same) (statement faults (λ db. (f db, db))) d
        (Keeps-statement Same (λ db n j. j) faults (λ db. (f db, db)) (λ db j. answers (f db) db j)
          d i)

  get_env-Reads : (guid : Text) → Reads (running (get_env faults guid))
  unfolding get_env
  get_env-Reads guid = reads _

  list_by_status-Reads : (status : EnvStatus) → Reads (running (list_by_status faults status))
  unfolding list_by_status
  list_by_status-Reads status = reads _

  list_by_owner-Reads : (owner : Text) → Reads (running (list_by_owner faults owner))
  unfolding list_by_owner
  list_by_owner-Reads owner = reads _

  read_heartbeat-Reads : Reads (running (read_heartbeat faults))
  unfolding read_heartbeat
  read_heartbeat-Reads = reads _

  finishes : {A B : Type 0} (m : Verb A) (f : A → B) → Reads m → Reads (m >>= λ a. pure (f a))
  finishes m f h = Keeps-bind Same m (λ a. pure (f a)) h (λ a d i. i)

  list_statuses-Reads : (statuses : List EnvStatus) → Reads (list_statuses faults statuses)
  unfolding list_statuses
  list_statuses-Reads [] = λ d i. i
  list_statuses-Reads (status ∷ statuses) =
      Keeps-bind Same _ _ (list_by_status-Reads status) (λ envs.
        finishes (list_statuses faults statuses) (λ more. envs ++ more)
          (list_statuses-Reads statuses))

  count_statuses-Reads :
      (statuses : List EnvStatus) (s : Stats) → Reads (count_statuses faults statuses s)
  unfolding count_statuses
  count_statuses-Reads [] s = λ d i. i
  count_statuses-Reads (status ∷ statuses) s =
      Keeps-bind Same (running (list_by_status faults status))
        (λ rows. count_statuses faults statuses (count_envs status rows s))
        (list_by_status-Reads status)
        (λ rows. count_statuses-Reads statuses (count_envs status rows s))

  pub stats_run-Reads : Reads (stats_run faults)
  unfolding stats_run
  stats_run-Reads = count_statuses-Reads all_statuses no_stats

  module _ (ctx : Ctx) where
    shown-Reads : (env_id : Text) (found : Option Env) → Reads (shown faults ctx env_id found)
    shown-Reads env_id none d i = i
    shown-Reads env_id (some env) d i = i

    pub show_run-Reads : (env_id : Text) → Reads (show_run faults ctx env_id)
    unfolding show_run
    show_run-Reads env_id = Keeps-bind Same _ _ (get_env-Reads env_id) (shown-Reads env_id)

    pub history_run-Reads : (window : Option ℤ) → Reads (history_run faults ctx window)
    unfolding history_run
    history_run-Reads window =
        finishes (list_statuses faults (reaped ∷ vanished ∷ [])) (history_of faults ctx window)
          (list_statuses-Reads (reaped ∷ vanished ∷ []))

    pub health_run-Reads : Reads (health_run faults ctx)
    unfolding health_run
    health_run-Reads = Keeps-bind Same _ _ (list_by_status-Reads active) (λ a.
        Keeps-bind Same _ _ (list_by_status-Reads reaped) (λ r.
          Keeps-bind Same _ _ (list_by_status-Reads vanished) (λ v.
            Keeps-bind Same _ _ (list_by_status-Reads flagged) (λ f.
              finishes (running (read_heartbeat faults)) (health_of faults ctx a r v f)
                read_heartbeat-Reads))))

    operator_list-Reads :
        Reads (list_statuses faults all_statuses >>= λ envs. pure (operator_list faults ctx envs))
    operator_list-Reads =
        finishes (list_statuses faults all_statuses) (operator_list faults ctx)
          (list_statuses-Reads all_statuses)

    ls_of-Reads : (all : Bool) (owner : Option Text) → Reads (ls_of faults ctx all owner)
    unfolding ls_of
    ls_of-Reads false (some owner) =
        finishes (running (list_by_owner faults owner)) (own_list faults ctx)
          (list_by_owner-Reads owner)
    ls_of-Reads true owner = operator_list-Reads
    ls_of-Reads false none = operator_list-Reads

    pub ls_run-Reads : (all : Bool) → Reads (ls_run faults ctx all)
    unfolding ls_run
    ls_run-Reads all = ls_of-Reads (all || not (is_some ctx.owner)) ctx.owner
