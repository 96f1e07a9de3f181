-- ===== src/Core/Alloc/System.antt =====
-- No two active rows come to hold one address, whatever the processes that share the database do: the
-- writing operations of crates/core/src/alloc.rs and crates/core/src/store.rs in any order.
use seadog.Prelude.{
  ℕ, ◌≡◌, ◌≢◌, refl, subst, sym, true, false, none, [], arith, text_eq, split_char,
}
use seadog.Prelude.Ipv4.{parse_ip, parse_parts}
use seadog.Core.Models.{status_as_str, active, reaped, vanished, flagged, Env, EnvStatus}
use seadog.Core.Sql.{EnvRow, Db}
use seadog.Core.Rows.{env_to_row}
use seadog.Core.Alloc.{leased}
use seadog.Core.Alloc.Lowest.{is_held, holds}
use seadog.Core.Alloc.Exclusive.{
  Exclusive, Exclusive-append, holds-leased, TakesNone, Exclusive-update, Exclusive-select,
}
use seadog.Core.Alloc.Stable.{Reach, Stable, Spares, with_status, Reach-Stable}

-- A status other than active holds nothing.
status-TakesNone :
    (s : EnvStatus) → s ≢ active → TakesNone (λ row. record row { status = status_as_str s })
unfolding status_as_str text_eq
status-TakesNone active ne v row h = absurd (ne refl)
status-TakesNone reaped ne v row h = ground arith
status-TakesNone vanished ne v row h = ground arith
status-TakesNone flagged ne v row h = ground arith

no_ip-holds : (env : Env) (v : ℕ) → env.ip ≡ [] → holds v (env_to_row env) ≢ true
unfolding env_to_row parse_ip split_char parse_parts
no_ip-holds env v e h = let nothing : parse_ip env.ip ≡ none = rw e refl in ground arith

spared-TakesNone : (f : EnvRow → EnvRow) → Spares f → TakesNone f
spared-TakesNone f t v row h = ground (arith, t row)

Exclusive-Stable : Stable Exclusive
Exclusive-Stable = record {
  leases = λ new ip rows small free x.
      Exclusive-append (env_to_row (leased new ip)) rows x (λ v h.
        subst (λ (u : ℕ). is_held u rows ≡ false) (sym (holds-leased new ip v small h)) free);
  inserts = λ env rows e x.
      Exclusive-append (env_to_row env) rows x (λ v h. absurd (no_ip-holds env v e h));
  marks = λ guid s rows ne x. Exclusive-update guid (with_status s) rows (status-TakesNone s ne) x;
  updates = λ guid f rows t x. Exclusive-update guid f rows (spared-TakesNone f t) x;
  deletes = λ p rows x. Exclusive-select p rows x;
}

-- However the writing operations of the store and the allocator, run by any number of processes,
-- follow one another, and whichever statements fail, no two active rows come to hold one address if
-- none did at the start. An allocation is from a pool of IPv4 addresses, and an insert outside it is
-- of an env without an address, as in a re-adoption.
pub Reach-Exclusive : {db d : Db} → Reach db d → Exclusive db.envs → Exclusive d.envs
Reach-Exclusive = Reach-Stable Exclusive Exclusive-Stable
