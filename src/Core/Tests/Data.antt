-- ===== src/Core/Tests/Data.antt =====
-- The inputs of the tests.
use seadog.Prelude.{ℕ, Bool, true, none, some, [], ◌∷◌, ok, err, Text, lit}
use seadog.Prelude.Int.{pos}
use seadog.Core.Errors.{Error}
use seadog.Core.Models.{lxc, vm, active, Env, InstanceSignals, NotifyState}
use seadog.Core.Config.{Config, Image, default_allocation, default_lifecycle, default_notify}
use seadog.Core.Notify.{Event}
use seadog.Core.Sql.{EnvRow, Db, Faults}
use seadog.Core.Alloc.{NewEnv}
use seadog.Core.Reap.{Kento, World, default_outcome}

abbrev pub no_faults : Faults
no_faults n = none

abbrev pub any_uuid : Text → Bool
any_uuid s = true

abbrev pub image : Image
image = record {
  image_ref = lit "debian";
  modes = lxc ∷ vm ∷ [];
  user = some (lit "droste");
  allow_nesting = none;
}

abbrev pub config : Config
config = record {
  reaper_enabled = true;
  cadence = record { fast = 30; idle = 300 };
  allocation = default_allocation;
  images = (lit "deb", image) ∷ [];
  default_user = lit "root";
  kento_path = none;
  owners = [];
  lifecycle = default_lifecycle;
  retention = record { terminal = 2592000 };
  notify = default_notify;
}

abbrev pub due_row : EnvRow
due_row = record {
  guid = lit "g1";
  vmid = none;
  mode = lit "lxc";
  owner = lit "ci";
  image = lit "debian";
  name = lit "seadog-a";
  ip = lit "192.168.99.192";
  mac = lit "AA:BB";
  ssh_host_key_fps = [];
  created_at = pos 1000;
  ttl_deadline = pos 2000;
  soft_deadline = pos 2000;
  status = lit "active";
}

abbrev pub due_env : Env
due_env = record {
  guid = lit "g1";
  vmid = none;
  mode = lxc;
  owner = lit "ci";
  image = lit "debian";
  name = lit "seadog-a";
  ip = lit "192.168.99.192";
  mac = lit "AA:BB";
  ssh_host_key_fps = [];
  created_at = pos 1000;
  ttl_deadline = pos 2000;
  soft_deadline = pos 2000;
  status = active;
}

abbrev pub live : InstanceSignals
live = record {
  name = lit "seadog-a";
  guid = some (lit "g1");
  owner = some (lit "ci");
  mac = some (lit "aa:bb");
  ssh_host_key_fps = [];
  image = lit "debian";
  status = lit "running";
  mode = lxc;
  vmid = none;
}

-- A guest that no row backs.
abbrev pub stray : InstanceSignals
stray = record live { name = lit "seadog-b"; guid = some (lit "g2") }

abbrev pub kento : Kento
kento = record { list_instances = ok (live ∷ stray ∷ []); teardown = λ before name mode. ok tt }

abbrev pub due_db : Db
due_db = record { envs = due_row ∷ []; notify_state = []; heartbeat = none; statements = 0 }

abbrev pub world : World
world = record { db = due_db; teardowns = []; sent = []; outcome = default_outcome }

abbrev pub pool : ℕ × ℕ
pool = (0xc0a863c0, 0xc0a863c3)

abbrev pub new_env : NewEnv
new_env = record {
  guid = lit "g3";
  mode = lxc;
  owner = lit "ci";
  image = lit "debian";
  name = lit "seadog-c";
  mac = [];
  created_at = pos 5000;
  ttl_deadline = pos 8600;
  soft_deadline = pos 6800;
}

abbrev pub problem : Event
problem = Event.overdue_unreaped (lit "g1") (lit "stuck")

abbrev pub problem_state : NotifyState
problem_state = record {
  guid = lit "g1:overdue";
  last_severity = lit "notice";
  last_emitted_at = pos 5000;
  acked = true;
  acked_by = none;
  acked_at = none;
}

-- Kento without a quorum.
abbrev pub lost_kento : Kento
lost_kento = record kento { list_instances = err (Error.quorum_lost (lit "no quorum")) }

-- A reaped env, and the states of one of its alerts and of the sweeper.
abbrev pub reaped_db : Db
reaped_db = record due_db {
  envs = record due_row { status = lit "reaped" } ∷ [];
  notify_state = problem_state ∷ record problem_state { guid = lit "sweeper" } ∷ [];
}
