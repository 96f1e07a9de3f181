-- ===== src/Front/Listings.antt =====
-- The verbs that only print: show.rs, history.rs, health.rs, stats.rs and ls.rs of
-- crates/seadog/src/verbs. The JSON of each answer is a record; a map in it is the list of its
-- entries, in the order in which they are made. The watcher, which `ls` starts first, is started in
-- Front/Main, by `hooked`.
pub mod Reads
use seadog.Prelude.{
  ℕ, suc, ◌+◌, Bool, true, false, ◌||◌, Option, none, some, List, [], ◌∷◌, ◌++◌, select, length,
  is_some, not, if◌then◌else◌, Text, lit, text_eq,
}
use mathlib.Core.List.{foldl}
use seadog.Prelude.Int.{ℤ, ltb_ℤ, leb_ℤ, sub_i64, saturating_sub}
use seadog.Core.Failure.{Failure, message, running}
use seadog.Core.Models.{Env, EnvStatus, active, reaped, vanished, flagged, status_eq, status_as_str}
use seadog.Core.Action.{pure, raise, ◌>>=◌}
use seadog.Core.Sql.{Faults}
use seadog.Core.Store.{get_env, list_by_owner, list_by_status, read_heartbeat}
use seadog.Front.Context.{Ctx, Verb}

-- `sort_by_key(|e| Reverse(e.created_at))`, which is stable.
unfoldable pub insert_env_newest : Env → List Env → List Env
insert_env_newest env [] = env ∷ []
insert_env_newest env (e ∷ envs) =
    if ltb_ℤ env.created_at e.created_at then e ∷ insert_env_newest env envs else env ∷ e ∷ envs

unfoldable pub envs_newest_first : List Env → List Env
unfolding insert_env_newest
envs_newest_first [] = []
envs_newest_first (env ∷ envs) = insert_env_newest env (envs_newest_first envs)

abbrev pub all_statuses : List EnvStatus
all_statuses = active ∷ reaped ∷ vanished ∷ flagged ∷ []

pub record EnvList : Type 0 where
  pub envs : List Env
  pub count : ℕ
  pub all : Bool

pub record History : Type 0 where
  pub envs : List Env
  pub count : ℕ
  pub window_secs : Option ℤ

pub record Heartbeat : Type 0 where
  pub last_sweep_at : ℤ
  pub age_secs : ℤ

pub record Counts : Type 0 where
  pub active : ℕ
  pub reaped : ℕ
  pub vanished : ℕ
  pub flagged : ℕ
  pub total : ℕ

-- The version, which is fixed when the program is built, is left out.
pub record Health : Type 0 where
  pub now_unix : ℤ
  pub heartbeat : Option Heartbeat
  pub counts : Counts

pub record Stats : Type 0 where
  pub total : ℕ
  pub by_status : List (Text × ℕ)
  pub by_owner : List (Text × ℕ)
  pub active_by_owner : List (Text × ℕ)

abbrev pub no_stats : Stats
no_stats = record { total = 0; by_status = []; by_owner = []; active_by_owner = [] }

-- `*map.entry(key).or_default() += 1`
unfoldable pub add_one : Text → List (Text × ℕ) → List (Text × ℕ)
add_one key [] = (key, 1) ∷ []
add_one key ((k, n) ∷ entries) =
    if text_eq k key then (k, suc n) ∷ entries else (k, n) ∷ add_one key entries

-- One row of the listing of that status.
unfoldable pub count_env : EnvStatus → Stats → Env → Stats
unfolding add_one
count_env status s e = record s {
  total = suc s.total;
  by_owner = add_one e.owner s.by_owner;
  active_by_owner =
      if status_eq status active then add_one e.owner s.active_by_owner else s.active_by_owner;
}

unfoldable pub count_envs : EnvStatus → List Env → Stats → Stats
unfolding count_env
count_envs status rows s =
    foldl (count_env status)
      (record s { by_status = s.by_status ++ (status_as_str status, length rows) ∷ [] }) rows

-- `created_at >= cutoff`, where there is a cutoff.
abbrev pub in_window : Option ℤ → Env → Bool
in_window none e = true
in_window (some cutoff) e = leb_ℤ cutoff e.created_at

abbrev pub beat : ℤ → Option ℤ → Option Heartbeat
beat now_unix none = none
beat now_unix (some ts) = some (record { last_sweep_at = ts; age_secs = sub_i64 now_unix ts })

module _ (faults : Faults) where
  -- The envs of those statuses, one listing behind the other.
  unfoldable pub list_statuses : List EnvStatus → Verb (List Env)
  list_statuses [] = pure []
  list_statuses (status ∷ statuses) = running (list_by_status faults status) >>= λ envs.
      list_statuses statuses >>= λ more. pure (envs ++ more)

  unfoldable pub count_statuses : List EnvStatus → Stats → Verb Stats
  unfolding count_envs
  count_statuses [] s = pure s
  count_statuses (status ∷ statuses) s = running (list_by_status faults status) >>= λ rows.
      count_statuses statuses (count_envs status rows s)

  unfoldable pub stats_run : Verb Stats
  unfolding count_statuses
  stats_run = count_statuses all_statuses no_stats

  module _ (ctx : Ctx) where
    abbrev pub shown : Text → Option Env → Verb Env
    shown env_id none = raise (message (lit "no env with id '" ++ (env_id ++ lit "'")))
    shown env_id (some env) = pure env

    unfoldable pub show_run : Text → Verb Env
    show_run env_id = running (get_env faults env_id) >>= shown env_id

    abbrev pub cutoff_of : Option ℤ → Option ℤ
    cutoff_of none = none
    cutoff_of (some w) = some (saturating_sub ctx.now_unix w)

    abbrev pub history_of : Option ℤ → List Env → History
    history_of window_secs listed =
        let envs = envs_newest_first (select (in_window (cutoff_of window_secs)) listed) in
        record { envs = envs; count = length envs; window_secs = window_secs }

    unfoldable pub history_run : Option ℤ → Verb History
    unfolding list_statuses
    history_run window_secs =
        list_statuses (reaped ∷ vanished ∷ []) >>= λ listed. pure (history_of window_secs listed)

    abbrev pub health_of : (actives reapeds vanisheds flaggeds : List Env) → Option ℤ → Health
    health_of actives reapeds vanisheds flaggeds heartbeat = record {
      now_unix = ctx.now_unix;
      heartbeat = beat ctx.now_unix heartbeat;
      counts = record {
        active = length actives;
        reaped = length reapeds;
        vanished = length vanisheds;
        flagged = length flaggeds;
        total = length actives + length reapeds + length vanisheds + length flaggeds;
      };
    }

    unfoldable pub health_run : Verb Health
    health_run = do
      actives ← running (list_by_status faults active)
      reapeds ← running (list_by_status faults reaped)
      vanisheds ← running (list_by_status faults vanished)
      flaggeds ← running (list_by_status faults flagged)
      heartbeat ← running (read_heartbeat faults)
      pure (health_of actives reapeds vanisheds flaggeds heartbeat)

    abbrev pub env_list : Bool → List Env → EnvList
    env_list all envs = record { envs = envs; count = length envs; all = all }

    abbrev pub own_list : List Env → EnvList
    own_list envs = env_list false (select (λ e. status_eq e.status active) envs)

    abbrev pub operator_list : List Env → EnvList
    operator_list envs = env_list true (envs_newest_first envs)

    -- The operator's view, and the owner's.
    unfoldable pub ls_of : Bool → Option Text → Verb EnvList
    unfolding list_statuses
    ls_of false (some owner) = running (list_by_owner faults owner) >>= λ envs. pure (own_list envs)
    ls_of operator_view owner = list_statuses all_statuses >>= λ envs. pure (operator_list envs)

    unfoldable pub ls_run : Bool → Verb EnvList
    unfolding ls_of
    ls_run all = ls_of (all || not (is_some ctx.owner)) ctx.owner
