-- ===== src/Core/Rows.antt =====
-- What one SQL text of crates/core/src/store.rs does to the rows of a table, and how an env is
-- stored in its columns. Where SQL leaves the order of rows open, it is the order of the table.
pub mod Codec
use seadog.Prelude.{
  ℕ, Bool, false, ◌&&◌, ◌||◌, ◌++◌, Option, none, some, List, [], ◌∷◌, ok, err, any, if◌then◌else◌,
  ◌==◌, Text, lit, text_eq, join, split_char, is_empty, to_ascii_lowercase,
}
use seadog.Prelude.Int.{ℤ, ltb_ℤ}
use seadog.Core.Errors.{Error, Fallible}
use seadog.Core.Models.{
  Mode, mode_as_str, mode_from_str_opt, EnvStatus, status_as_str, status_from_str_opt, Env,
  NotifyState,
}
use seadog.Core.Sql.{EnvRow, Sql}

unfoldable pub join_fps : List Text → Text
join_fps fps = join (lit ",") fps

unfoldable pub split_fps : Text → List Text
split_fps [] = []
split_fps (c ∷ s) = split_char b',' (c ∷ s)

-- The parameters of the `INSERT`.
unfoldable pub env_to_row : Env → EnvRow
unfolding join_fps
env_to_row env = record {
  guid = env.guid;
  vmid = env.vmid;
  mode = mode_as_str env.mode;
  owner = env.owner;
  image = env.image;
  name = env.name;
  ip = env.ip;
  mac = env.mac;
  ssh_host_key_fps = join_fps env.ssh_host_key_fps;
  created_at = env.created_at;
  ttl_deadline = env.ttl_deadline;
  soft_deadline = env.soft_deadline;
  status = status_as_str env.status;
}

unfoldable pub decoded : EnvRow → Mode → EnvStatus → Env
unfolding split_fps
decoded row mode status = record {
  guid = row.guid;
  vmid = row.vmid;
  mode = mode;
  owner = row.owner;
  image = row.image;
  name = row.name;
  ip = row.ip;
  mac = row.mac;
  ssh_host_key_fps = split_fps row.ssh_host_key_fps;
  created_at = row.created_at;
  ttl_deadline = row.ttl_deadline;
  soft_deadline = row.soft_deadline;
  status = status;
}

unfoldable pub row_to_env : EnvRow → Fallible Env
unfolding decoded
row_to_env row = elim (mode_from_str_opt row.mode) [
  | none ↦ err (Error.sqlite (lit "bad mode '" ++ (row.mode ++ lit "'")))
  | some mode ↦ elim (status_from_str_opt row.status) [
    | none ↦ err (Error.sqlite (lit "bad status '" ++ (row.status ++ lit "'")))
    | some status ↦ ok (decoded row mode status)
  ]
]

abbrev pub has_guid : Text → EnvRow → Bool
has_guid guid row = text_eq row.guid guid

-- `.optional()`
unfoldable pub optional_env : Option EnvRow → Fallible (Option Env)
optional_env none = ok none
optional_env (some row) = elim (row_to_env row) [ ok env ↦ ok (some env) | err e ↦ err e ]

unfoldable pub collect_envs : List EnvRow → Fallible (List Env)
collect_envs [] = ok []
collect_envs (row ∷ rows) =
    let rest = collect_envs rows in
    elim (row_to_env row) [
      | err e ↦ err e
      | ok env ↦ elim rest [ err e ↦ err e | ok envs ↦ ok (env ∷ envs) ]
    ]

-- `ORDER BY created_at DESC`
unfoldable pub insert_newest : EnvRow → List EnvRow → List EnvRow
insert_newest row [] = row ∷ []
insert_newest row (r ∷ rows) =
    if ltb_ℤ row.created_at r.created_at then r ∷ insert_newest row rows else row ∷ r ∷ rows

unfoldable pub newest_first : List EnvRow → List EnvRow
unfolding insert_newest
newest_first [] = []
newest_first (row ∷ rows) = insert_newest row (newest_first rows)

-- `UPDATE envs SET … WHERE guid = ?`
unfoldable pub update_guid : Text → (EnvRow → EnvRow) → List EnvRow → List EnvRow
update_guid guid f [] = []
update_guid guid f (row ∷ rows) =
    (if has_guid guid row then f row else row) ∷ update_guid guid f rows

abbrev pub unknown_guid : Text → Error
unknown_guid guid = Error.not_found (lit "env guid '" ++ (guid ++ lit "'"))

-- An update by guid, with the `n == 0` test behind it.
unfoldable pub update_or_missing : Text → (EnvRow → EnvRow) → Sql (Unit {0})
unfolding update_guid
update_or_missing guid f db =
    if any (has_guid guid) db.envs
    then (ok tt, record db { envs = update_guid guid f db.envs })
    else (err (unknown_guid guid), db)

-- The primary key of `envs` is `guid`.
unfoldable pub insert_row : EnvRow → Sql (Unit {0})
insert_row row db =
    if any (has_guid row.guid) db.envs
    then (err (Error.sqlite (lit "UNIQUE constraint failed: envs.guid")), db)
    else (ok tt, record db { envs = db.envs ++ row ∷ [] })

abbrev pub is_terminal : Text → Bool
is_terminal status = text_eq status (lit "reaped") || text_eq status (lit "vanished")

abbrev pub prunable : ℤ → EnvRow → Bool
prunable cutoff row = is_terminal row.status && ltb_ℤ row.created_at cutoff

-- `text LIKE pattern`: `%` is any text, `_` one character, and letters match in either case.
unfoldable pub some_suffix : (Text → Bool) → Text → Bool
some_suffix f [] = f []
some_suffix f (c ∷ s) = f (c ∷ s) || some_suffix f s

unfoldable pub first_matches : ℕ → (Text → Bool) → Text → Bool
first_matches p f [] = false
first_matches p f (c ∷ s) = (p == b'_' || to_ascii_lowercase p == to_ascii_lowercase c) && f s

unfoldable pub like : Text → Text → Bool
unfolding some_suffix first_matches
like [] text = is_empty text
like (p ∷ pattern) text =
    if p == b'%' then some_suffix (like pattern) text else first_matches p (like pattern) text

-- The notify states that `prune_terminal` drops with the envs: the bare guid, and `{guid}:…`.
unfoldable pub keyed_on : Text → EnvRow → Bool
unfolding like
keyed_on key row = text_eq key row.guid || like (row.guid ++ lit ":%") key

abbrev pub same_key : Text → NotifyState → Bool
same_key key s = text_eq s.guid key

-- `INSERT … ON CONFLICT(guid) DO UPDATE`
unfoldable pub upsert : NotifyState → List NotifyState → List NotifyState
upsert s [] = s ∷ []
upsert s (t ∷ states) = if same_key s.guid t then s ∷ states else t ∷ upsert s states
