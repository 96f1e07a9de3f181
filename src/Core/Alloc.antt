-- ===== src/Core/Alloc.antt =====
-- The allocator of crates/core/src/alloc.rs: the lowest free address of the pool, and the insert of
-- the leased row, in one transaction.
pub mod Decoded
pub mod Lowest
pub mod Leases
pub mod Exclusive
pub mod Stable
pub mod System
use seadog.Prelude.{
  ℕ, ◌+◌, Bool, true, false, not, ◌&&◌, ◌++◌, Option, none, some, List, [], ◌∷◌, ok, err, any,
  is_some, ltb, leb, ◌==◌, if◌then◌else◌, Text, lit, text_eq,
}
use seadog.Prelude.Int.{ℤ}
use seadog.Prelude.Ipv4.{ip_text, parse_ip}
use seadog.Core.Errors.{Error}
use seadog.Core.Models.{Mode, active, Env}
use seadog.Core.Action.{Action, pure, raise, lift, ◌>>=◌, ◌>>◌}
use seadog.Core.Sql.{EnvRow, Db, Faults, Sql, statement, transaction}
use seadog.Core.Rows.{env_to_row, insert_row}

pub record NewEnv : Type 0 where
  pub guid : Text
  pub mode : Mode
  pub owner : Text
  pub image : Text
  pub name : Text
  pub mac : Text
  pub created_at : ℤ
  pub ttl_deadline : ℤ
  pub soft_deadline : ℤ

abbrev pub in_pool : ℕ → ℕ → ℕ → Bool
in_pool lo hi v = leb lo v && leb v hi

abbrev pub row_is_active : EnvRow → Bool
row_is_active row = text_eq row.status (lit "active")

abbrev pub push_in_pool : ℕ → ℕ → Option ℕ → List ℕ → List ℕ
push_in_pool lo hi none occupied = occupied
push_in_pool lo hi (some v) occupied = if in_pool lo hi v then v ∷ occupied else occupied

-- The addresses of the pool that the active rows hold.
unfoldable pub occupied_ips : ℕ → ℕ → List EnvRow → List ℕ
occupied_ips lo hi [] = []
occupied_ips lo hi (row ∷ rows) =
    let rest = occupied_ips lo hi rows in
    if row_is_active row then push_in_pool lo hi (parse_ip row.ip) rest else rest

-- `sort_unstable`
unfoldable pub insert_sorted : ℕ → List ℕ → List ℕ
insert_sorted v [] = v ∷ []
insert_sorted v (u ∷ us) = if leb v u then v ∷ u ∷ us else u ∷ insert_sorted v us

unfoldable pub sort : List ℕ → List ℕ
unfolding insert_sorted
sort [] = []
sort (v ∷ vs) = insert_sorted v (sort vs)

-- What the loop over the occupied addresses leaves: `none` for its early return.
unfoldable pub scan : ℕ → ℕ → List ℕ → Option ℕ
scan hi candidate [] = some candidate
scan hi candidate (used ∷ occupied) =
    let taken = scan hi (candidate + 1) occupied in
    let next = scan hi candidate occupied in
    if ltb candidate used
    then some candidate
    else if used == candidate
    then (if candidate == hi then none else taken)
    else next

unfoldable pub below_top : ℕ → Option ℕ → Option ℕ
below_top hi none = none
below_top hi (some candidate) = if leb candidate hi then some candidate else none

-- `lowest_free_ip`, on the addresses in use.
unfoldable pub lowest_free : ℕ → ℕ → List ℕ → Option ℕ
unfolding scan below_top
lowest_free lo hi occupied = below_top hi (scan hi lo (sort occupied))

-- The row that is leased.
unfoldable pub leased : NewEnv → ℕ → Env
leased new ip = record {
  guid = new.guid;
  vmid = none;
  mode = new.mode;
  owner = new.owner;
  image = new.image;
  name = new.name;
  ip = ip_text ip;
  mac = new.mac;
  ssh_host_key_fps = [];
  created_at = new.created_at;
  ttl_deadline = new.ttl_deadline;
  soft_deadline = new.soft_deadline;
  status = active;
}

unfoldable pub or_exhausted : Option ℕ → Sql ℕ
or_exhausted none = raise (Error.exhausted (lit "ip pool"))
or_exhausted (some ip) = pure ip

module _ (faults : Faults) where
  unfoldable pub lowest_free_ip : ℕ × ℕ → Sql (Option ℕ)
  lowest_free_ip pool =
      statement faults
        (λ db. (ok (lowest_free pool.0 pool.1 (occupied_ips pool.0 pool.1 db.envs)), db))

  unfoldable pub insert_leased : NewEnv → ℕ → Sql ℕ
  insert_leased new ip = do statement faults (insert_row (env_to_row (leased new ip))); pure ip

  -- The body of the transaction.
  unfoldable pub lease : ℕ × ℕ → NewEnv → Sql ℕ
  lease pool new = do found ← lowest_free_ip pool; ip ← or_exhausted found; insert_leased new ip

  unfoldable pub allocate : ℕ × ℕ → NewEnv → Sql ℕ
  allocate pool new = transaction faults (lease pool new)

  unfoldable pub name_in_use : Text → Sql Bool
  name_in_use name =
      statement faults
        (λ db. (ok (any (λ row. row_is_active row && text_eq row.name name) db.envs), db))
