-- ===== src/Core/Tests/Schema.antt =====
-- Upgrades of small files, and an instance of the result on them.
use seadog.Prelude.{
  false, text_eq, ℕ, ◌≡◌, refl, if◌then◌else◌, ◌==◌, none, some, [], ◌∷◌, ok, err, lit,
}
use seadog.Prelude.Int.{pos}
use seadog.Core.Errors.{Error}
use seadog.Core.Post.{Post}
use seadog.Core.Sql.{Faults}
use seadog.Core.Tables.{
  EnvRow1, NotifyRow1, envs_1, envs_2, notify_1, notify_2, File, row_2, state_2,
}
use seadog.Core.Schema.{migrate, init}
use seadog.Core.Schema.Stages.{SameRows, IsAt, IsFault}
use seadog.Core.Schema.Upgrade.{unstamped, migrate-Upgrades}
use seadog.Core.Tests.Data.{no_faults}

abbrev row_1 : EnvRow1
row_1 = record {
  guid = lit "a1";
  vmid = 101;
  mode = lit "lxc";
  owner = lit "ci";
  image = lit "debian";
  name = lit "ci-a1";
  ip = lit "10.0.0.2";
  mac = lit "02:00:00:00:00:01";
  created_at = pos 100;
  ttl_deadline = pos 900;
  soft_deadline = pos 500;
  status = lit "active";
}

abbrev notified_1 : NotifyRow1
notified_1 = record {
  guid = lit "a1";
  last_severity = lit "info";
  last_emitted_at = pos 200;
  acked = false;
}

abbrev old_file : File
old_file = record {
  envs = some (envs_1 (row_1 ∷ []));
  notify_state = some (notify_1 (notified_1 ∷ []));
  heartbeat = some (some (pos 300));
  user_version = pos 0;
  statements = 0;
}

abbrev empty_file : File
empty_file = record {
  envs = none;
  notify_state = none;
  heartbeat = none;
  user_version = pos 0;
  statements = 0;
}

-- The `n`-th statement fails.
abbrev failing : ℕ → Faults
failing n k = if k == n then some (lit "disk full") else none

upgraded : migrate no_faults old_file ≡ (
  ok tt,
  record {
    envs = some (envs_2 (row_2 row_1 ∷ []));
    notify_state = some (notify_2 (state_2 notified_1 ∷ []));
    heartbeat = some (some (pos 300));
    user_version = pos 3;
    statements = 16;
  },
)
unfolding migrate
upgraded = refl

created : init no_faults (ok (lit "WAL")) empty_file ≡ (
  ok tt,
  record {
    envs = some (envs_2 []);
    notify_state = some (notify_2 []);
    heartbeat = some none;
    user_version = pos 3;
    statements = 18;
  },
)
unfolding init text_eq
created = refl

not_wal :
    init no_faults (ok (lit "delete")) empty_file
    ≡ (err (Error.store (lit "failed to enable WAL (journal_mode = delete)")), empty_file)
unfolding init text_eq
not_wal = refl

-- The stamp of version 3 fails after its migration is committed.
abbrev unstamped_3 : File
unstamped_3 = record {
  envs = some (envs_2 (row_2 row_1 ∷ []));
  notify_state = some (notify_2 (state_2 notified_1 ∷ []));
  heartbeat = some (some (pos 300));
  user_version = pos 2;
  statements = 16;
}

stamp_lost : migrate (failing 15) old_file ≡ (err (Error.sqlite (lit "disk full")), unstamped_3)
unfolding migrate
stamp_lost = refl

-- From then on no open succeeds.
stamp_lost_again :
    (migrate no_faults unstamped_3).0 ≡ err (Error.sqlite (lit "duplicate column name: acked_by"))
unfolding migrate
stamp_lost_again = refl

migrate-Upgrades_example :
    Post
      (λ u g. IsAt (pos 3) 2 2 g × SameRows old_file g)
      (λ e g. IsFault (failing 10) e × SameRows old_file g)
      (migrate (failing 10) old_file)
migrate-Upgrades_example = migrate-Upgrades (failing 10) old_file (unstamped refl refl)
