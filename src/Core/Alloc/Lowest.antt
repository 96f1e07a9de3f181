-- ===== src/Core/Alloc/Lowest.antt =====
-- `lowest_free_ip` of crates/core/src/alloc.rs finds the least address of the pool that is free.
use seadog.Prelude.{
  ℕ, suc, ◌+◌, ◌≤◌, ◌<◌, ◌≡◌, inl, inr, refl, sym, ◌∙◌, Bool, true, false, ◌&&◌, ◌||◌, Option, none,
  some, List, [], ◌∷◌, arith, any, All, ltb, leb, ◌==◌, ==_iff, if◌then◌else◌, Bool-cases,
}
use native.Mathlib.Decide.{dec_lt}
use native.Mathlib.Nat.{le_refl}
use seadog.Prelude.Ipv4.{parse_ip}
use seadog.Core.Sql.{EnvRow}
use seadog.Core.Alloc.{
  insert_sorted, sort, scan, below_top, lowest_free, occupied_ips, row_is_active, push_in_pool,
}

-- `v` is among the addresses.
abbrev pub Taken : ℕ → List ℕ → Type 0
Taken v us = any (◌==◌ v) us ≡ true

abbrev Sorted : List ℕ → Type 0
Sorted [] = Unit
Sorted (u ∷ us) = All (λ v. u ≤ v) us × Sorted us

any-insert_sorted :
    (v x : ℕ) (us : List ℕ) → any (◌==◌ v) (insert_sorted x us) ≡ (v == x || any (◌==◌ v) us)
unfolding insert_sorted
any-insert_sorted v x [] = refl
any-insert_sorted v x (u ∷ us) = ground (arith, any-insert_sorted v x us)

any-sort : (v : ℕ) (us : List ℕ) → any (◌==◌ v) (sort us) ≡ any (◌==◌ v) us
unfolding sort
any-sort v [] = refl
any-sort v (u ∷ us) = ground (arith, any-insert_sorted v u (sort us), any-sort v us)

All-insert_sorted :
    (w v : ℕ) (us : List ℕ) → w ≤ v → All (λ u. w ≤ u) us → All (λ u. w ≤ u) (insert_sorted v us)
unfolding insert_sorted
All-insert_sorted w v [] h a = (h, tt)
All-insert_sorted w v (u ∷ us) h a = ground (arith, All-insert_sorted w v us h a.1)

All-le : (v w : ℕ) (us : List ℕ) → v ≤ w → All (λ u. w ≤ u) us → All (λ u. v ≤ u) us
All-le v w [] h a = tt
All-le v w (u ∷ us) h a = (omega arith, All-le v w us h a.1)

insert_sorted-Sorted : (v : ℕ) (us : List ℕ) → Sorted us → Sorted (insert_sorted v us)
unfolding insert_sorted
insert_sorted-Sorted v [] s = (tt, tt)
insert_sorted-Sorted v (u ∷ us) s = elim (Bool-cases (leb v u)) [
  | inl le ↦ rw le ((ground arith, All-le v u us (ground arith) s.0), s)
  | inr gt ↦ rw gt (All-insert_sorted u v us (ground arith) s.0, insert_sorted-Sorted v us s.1)
]

sort-Sorted : (us : List ℕ) → Sorted (sort us)
unfolding sort
sort-Sorted [] = tt
sort-Sorted (u ∷ us) = insert_sorted-Sorted u (sort us) (sort-Sorted us)

-- Where the scan stops: at a free address, all the ones before it from the start being in use; or
-- at the top of the pool, with everything from the start in use.
abbrev Stops : ℕ → ℕ → List ℕ → Option ℕ → Type 0
Stops hi from us none = (v : ℕ) → from ≤ v → v ≤ hi → Taken v us
Stops hi from us (some c) =
    (from ≤ c) × (any (◌==◌ c) us ≡ false) × ((v : ℕ) → from ≤ v → v < c → Taken v us)

not_taken_below : (v : ℕ) (us : List ℕ) → All (λ u. v < u) us → any (◌==◌ v) us ≡ false
not_taken_below v [] a = refl
not_taken_below v (u ∷ us) a = ground (arith, not_taken_below v us a.1)

Taken-here : (v u : ℕ) (us : List ℕ) → v ≡ u → Taken v (u ∷ us)
Taken-here v u us h = ground arith

Taken-later : (v u : ℕ) (us : List ℕ) → Taken v us → Taken v (u ∷ us)
Taken-later v u us h = ground arith

-- The start itself is in use.
Stops-taken :
    (hi from : ℕ) (us : List ℕ) (r : Option ℕ)
    → Stops hi (from + 1) us r
    → Stops hi from (from ∷ us) r
Stops-taken hi from us none h = λ v p q. elim (dec_lt from v) [
  | yes lt ↦ Taken-later v from us (h v (omega arith) q)
  | no ge ↦ Taken-here v from us (omega arith)
]
Stops-taken hi from us (some c) h = (
  ground (arith, h.0),
  ground (arith, h.0, h.1),
  λ v p q. elim (dec_lt from v) [
    | yes lt ↦ Taken-later v from us (h.2 v (omega arith) q)
    | no ge ↦ Taken-here v from us (omega arith)
  ],
)

-- An address before the start changes nothing.
Stops-past :
    (hi from used : ℕ) (us : List ℕ) (r : Option ℕ)
    → used < from
    → Stops hi from us r
    → Stops hi from (used ∷ us) r
Stops-past hi from used us none lt h = λ v p q. Taken-later v used us (h v p q)
Stops-past hi from used us (some c) lt h =
    (h.0, ground (arith, h.0, h.1), λ v p q. Taken-later v used us (h.2 v p q))

scan-Stops :
    (hi from : ℕ) (us : List ℕ)
    → Sorted us
    → All (λ u. u ≤ hi) us
    → Stops hi from us (scan hi from us)
unfolding scan
scan-Stops hi from [] s a = (omega arith, refl, λ v p q. absurd (omega arith))
scan-Stops hi from (used ∷ us) s a = elim (Bool-cases (ltb from used)) [
  | inl before ↦ rw before (
    le_refl from,
    not_taken_below from (used ∷ us) (ground arith, All-le (suc from) used us (ground arith) s.0),
    λ v p q. absurd (omega arith),
  )
  | inr reached ↦ rw reached (elim (Bool-cases (used == from)) [
    | inl same ↦
        let e : used ≡ from = (==_iff used from).0 same in
        rw same (elim (Bool-cases (from == hi)) [
          | inl top ↦ rw top (λ v p q. Taken-here v used us (ground arith))
          | inr more ↦ rw more (
              rw e (
                Stops-taken hi from us (scan hi (from + 1) us)
                  (scan-Stops hi (from + 1) us s.1 a.1)))
        ])
    | inr other ↦ rw other (
        Stops-past hi from used us (scan hi from us) (ground arith) (scan-Stops hi from us s.1 a.1))
  ])
]

-- An active row holds the address `v`.
abbrev pub parses_to : ℕ → Option ℕ → Bool
parses_to v none = false
parses_to v (some u) = v == u

abbrev pub holds : ℕ → EnvRow → Bool
holds v row = row_is_active row && parses_to v (parse_ip row.ip)

abbrev pub is_held : ℕ → List EnvRow → Bool
is_held v rows = any (holds v) rows

occupied_ips-All : (lo hi : ℕ) (rows : List EnvRow) → All (λ u. u ≤ hi) (occupied_ips lo hi rows)
unfolding occupied_ips
occupied_ips-All lo hi [] = tt
occupied_ips-All lo hi (row ∷ rows) = keep (parse_ip row.ip) (occupied_ips-All lo hi rows)
  where
    keep :
        (o : Option ℕ)
        → All (λ u. u ≤ hi) (occupied_ips lo hi rows)
        → All
            (λ u. u ≤ hi)
            (if row_is_active row
              then push_in_pool lo hi o (occupied_ips lo hi rows)
              else occupied_ips lo hi rows)
    keep none rest = ground arith
    keep (some u) rest = ground arith

-- Within the pool, the occupied addresses are those that active rows hold.
occupied_ips-held :
    (lo hi v : ℕ) (rows : List EnvRow)
    → lo ≤ v
    → v ≤ hi
    → any (◌==◌ v) (occupied_ips lo hi rows) ≡ is_held v rows
unfolding occupied_ips
occupied_ips-held lo hi v [] p q = refl
occupied_ips-held lo hi v (row ∷ rows) p q =
    keep (parse_ip row.ip) (occupied_ips-held lo hi v rows p q)
  where
    keep :
        (o : Option ℕ)
        → any (◌==◌ v) (occupied_ips lo hi rows) ≡ is_held v rows
        → any (◌==◌ v) (
            if row_is_active row
            then push_in_pool lo hi o (occupied_ips lo hi rows)
            else occupied_ips lo hi rows)
          ≡ ((row_is_active row && parses_to v o) || is_held v rows)
    keep none rest = ground arith
    keep (some u) rest = ground arith

-- What the allocator's answer says of the pool.
abbrev pub IsLowestFree : ℕ → ℕ → List EnvRow → Option ℕ → Type 0
IsLowestFree lo hi rows none = (v : ℕ) → lo ≤ v → v ≤ hi → is_held v rows ≡ true
IsLowestFree lo hi rows (some c) =
    (lo ≤ c)
    × (c ≤ hi)
    × (is_held c rows ≡ false)
    × ((v : ℕ) → lo ≤ v → v < c → is_held v rows ≡ true)

All-insert_le :
    (hi v : ℕ) (us : List ℕ)
    → v ≤ hi
    → All (λ u. u ≤ hi) us
    → All (λ u. u ≤ hi) (insert_sorted v us)
unfolding insert_sorted
All-insert_le hi v [] h a = (h, tt)
All-insert_le hi v (u ∷ us) h a = ground (arith, All-insert_le hi v us h a.1)

All-sort : (hi : ℕ) (us : List ℕ) → All (λ u. u ≤ hi) us → All (λ u. u ≤ hi) (sort us)
unfolding sort
All-sort hi [] a = tt
All-sort hi (u ∷ us) a = All-insert_le hi u (sort us) a.0 (All-sort hi us a.1)

module _ (lo hi : ℕ) (rows : List EnvRow) where
  sorted_held :
      (v : ℕ) → lo ≤ v → v ≤ hi → any (◌==◌ v) (sort (occupied_ips lo hi rows)) ≡ is_held v rows
  sorted_held v p q = any-sort v (occupied_ips lo hi rows) ∙ occupied_ips-held lo hi v rows p q

  below_top-IsLowestFree :
      (r : Option ℕ)
      → Stops hi lo (sort (occupied_ips lo hi rows)) r
      → IsLowestFree lo hi rows (below_top hi r)
  unfolding below_top
  below_top-IsLowestFree none stops = λ v p q. sym (sorted_held v p q) ∙ stops v p q
  below_top-IsLowestFree (some c) stops = elim (Bool-cases (leb c hi)) [
    | inl inside ↦ rw inside (
      stops.0,
      ground arith,
      sym (sorted_held c stops.0 (ground arith)) ∙ stops.1,
      λ v p q. sym (sorted_held v p (ground arith)) ∙ stops.2 v p q,
    )
    | inr outside ↦ rw outside (λ v p q. sym (sorted_held v p q) ∙ stops.2 v p (ground arith))
  ]

-- The allocator picks the least address of the pool that no active row holds, and answers none
-- exactly when every address of the pool is held, whatever the rows and the bounds.
pub lowest_free-IsLowestFree :
    (lo hi : ℕ) (rows : List EnvRow)
    → IsLowestFree lo hi rows (lowest_free lo hi (occupied_ips lo hi rows))
unfolding lowest_free
lowest_free-IsLowestFree lo hi rows = below_top-IsLowestFree lo hi rows _ (
    scan-Stops hi lo _ (sort-Sorted (occupied_ips lo hi rows))
      (All-sort hi (occupied_ips lo hi rows) (occupied_ips-All lo hi rows)))
