-- ===== src/Core/Schema/Upgrade.antt =====
-- What `migrate` of crates/core/src/store.rs leaves of a file that an earlier release wrote.
use seadog.Prelude.{ℕ, ◌≡◌, refl, sym, subst, [], ◌∷◌, inl, inr, Option-cases}
use seadog.Prelude.Int.{ℤ, pos}
use seadog.Core.Action.{◌>>=◌, ◌>>◌, pure, lift}
use seadog.Core.Post.{Post, Post-map}
use seadog.Core.Sql.{Faults}
use seadog.Core.Schema.{
  baseline_version, Migration, ddl, committed, in_migration, migrate_one, apply_migrations,
  create_indexes, create_baseline, upgrade_from, stamp_baseline, read_user_version, run_migrations,
  registry, migrate, m2_vmid_nullable_add_fps, m3_notify_ack_audit, check_ascending,
}
use seadog.Core.Tables.{
  File, Ddl, create_envs, create_notify_state, create_heartbeat, set_user_version,
}
use seadog.Core.Schema.Stages.{
  envs_version, notify_version, at_least_1, SameRows, IsAt, IsFault, Staged, Broken, Steps,
  Steps-bind, ddl-Steps, committed-Post, ddl_same-Steps, create_envs-Steps,
  create_notify_state-Steps, create_heartbeat-Steps, set_user_version-Steps, rebuild-Steps,
  add_columns-Steps,
}

-- The versions of a release's file and of its two tables: a table of an unstamped file, or of one at
-- the baseline, may be missing.
pub data IsRelease : ℤ → ℕ → ℕ → Type 0 where
  unstamped : {a b : ℕ} → at_least_1 a ≡ 1 → at_least_1 b ≡ 1 → IsRelease (pos 0) a b
  at_baseline : {a b : ℕ} → at_least_1 a ≡ 1 → at_least_1 b ≡ 1 → IsRelease (pos 1) a b
  at_2 : {b : ℕ} → at_least_1 b ≡ 1 → IsRelease (pos 2) 2 b
  at_3 : IsRelease (pos 3) 2 2

module _ (faults : Faults) (start : File) where
  in_migration-Steps :
      (v : ℤ) (a b : ℕ) (v' : ℤ) (a' b' : ℕ) (up : Ddl)
      → Steps faults start
          (Staged faults start v a b)
          (λ u. Staged faults start v' a' b')
          (ddl faults up)
      → Steps faults start
          (Staged faults start v a b)
          (λ u. Staged faults start v' a' b')
          (in_migration faults up)
  unfolding in_migration
  in_migration-Steps v a b v' a' b' up h =
      ddl-Steps faults start v a b v' a' b' (λ f. committed faults f (ddl faults up f))
        λ g p. committed-Post faults start v a b v' a' b' g (ddl faults up g) p.0 (h g p)

  migrate_one-Steps :
      (m : Migration) (v : ℤ) (a b a' b' : ℕ)
      → Steps faults start
          (Staged faults start v a b)
          (λ u. Staged faults start v a' b')
          (ddl faults m.up)
      → Steps faults start
          (Staged faults start v a b)
          (λ u. Staged faults start m.version a' b')
          (migrate_one faults m)
  unfolding migrate_one
  migrate_one-Steps m v a b a' b' h =
      Steps-bind faults start (Staged faults start v a b) (λ u. Staged faults start v a' b')
        (λ u. Staged faults start m.version a' b') (in_migration faults m.up)
        (λ u. ddl faults (set_user_version m.version)) (in_migration-Steps v a b v a' b' m.up h)
        (λ u. set_user_version-Steps faults start v m.version a' b')

  abbrev Current : Unit {0} → File → Type 0
  Current u = Staged faults start (pos 3) 2 2

  from_3-Steps :
      Steps faults start
        (Staged faults start (pos 3) 2 2)
        Current
        (apply_migrations faults (pos 3) registry)
  unfolding apply_migrations
  from_3-Steps g p = p

  from_2-Steps :
      Steps faults start
        (Staged faults start (pos 2) 2 1)
        Current
        (apply_migrations faults (pos 2) registry)
  unfolding apply_migrations
  from_2-Steps =
      Steps-bind faults start (Staged faults start (pos 2) 2 1) Current Current
        (migrate_one faults m3_notify_ack_audit) (λ u. pure tt)
        (migrate_one-Steps m3_notify_ack_audit (pos 2) 2 1 2 2
          (add_columns-Steps faults start (pos 2) 2))
        (λ u g p. p)

  from_1-Steps :
      Steps faults start
        (Staged faults start (pos 1) 1 1)
        Current
        (apply_migrations faults (pos 1) registry)
  unfolding apply_migrations
  from_1-Steps =
      Steps-bind faults start (Staged faults start (pos 1) 1 1)
        (λ u. Staged faults start (pos 2) 2 1) Current (migrate_one faults m2_vmid_nullable_add_fps)
        (λ u. apply_migrations faults (pos 2) (m3_notify_ack_audit ∷ []))
        (migrate_one-Steps m2_vmid_nullable_add_fps (pos 1) 1 1 2 1
          (rebuild-Steps faults start (pos 1) 1))
        (λ u. from_2-Steps)

  then-Steps :
      (P Q R : File → Type 0) (m k : Ddl)
      → Steps faults start P (λ u. Q) m
      → Steps faults start Q (λ u. R) k
      → Steps faults start P (λ u. R) (m >> k)
  then-Steps P Q R m k h l = Steps-bind faults start P (λ u. Q) (λ u. R) m (λ u. k) h (λ u. l)

  create_indexes-Steps :
      (v : ℤ) (a b : ℕ)
      → Steps faults start
          (Staged faults start v a b)
          (λ u. Staged faults start v a b)
          (create_indexes faults)
  unfolding create_indexes
  create_indexes-Steps v a b =
      let P = Staged faults start v a b in
      let same = ddl_same-Steps faults start v a b in
      let index = ddl faults (pure tt) in
      then-Steps P P P index (index >> index) same (then-Steps P P P index index same same)

  create_baseline-Steps :
      (v : ℤ) (a b : ℕ)
      → Steps faults start
          (Staged faults start v a b)
          (λ u. Staged faults start v (at_least_1 a) (at_least_1 b))
          (create_baseline faults)
  unfolding create_baseline
  create_baseline-Steps v a b =
      let P = Staged faults start v (at_least_1 a) b in
      let Q = Staged faults start v (at_least_1 a) (at_least_1 b) in
      let notify = ddl faults create_notify_state >> ddl faults create_heartbeat in
      then-Steps (Staged faults start v a b) P Q (ddl faults create_envs)
        (create_indexes faults >> notify) (create_envs-Steps faults start v a b)
        (then-Steps P P Q (create_indexes faults) notify (create_indexes-Steps v (at_least_1 a) b) (
          then-Steps P Q Q (ddl faults create_notify_state) (ddl faults create_heartbeat)
            (create_notify_state-Steps faults start v (at_least_1 a) b)
            (create_heartbeat-Steps faults start v (at_least_1 a) (at_least_1 b))))

  read_user_version-Steps :
      (v : ℤ) (a b : ℕ)
      → Steps faults start
          (Staged faults start v a b)
          (λ w g. (v ≡ w) × Staged faults start v a b g)
          (read_user_version faults)
  unfolding read_user_version
  read_user_version-Steps v a b g p = elim (Option-cases (faults g.statements)) [
    | inl runs ↦ rw (read_user_version, runs) (sym p.1.0, p)
    | inr (x, fails) ↦ rw (read_user_version, fails) ((g.statements, x, fails, refl), p.0)
  ]

  stamp_baseline-Steps :
      Steps faults start
        (Staged faults start (pos 0) 1 1)
        (λ c g. (c ≡ pos 1) × Staged faults start (pos 1) 1 1 g)
        (stamp_baseline faults (pos 0))
  unfolding stamp_baseline
  stamp_baseline-Steps =
      Steps-bind faults start (Staged faults start (pos 0) 1 1)
        (λ u. Staged faults start (pos 1) 1 1)
        (λ c g. (c ≡ pos 1) × Staged faults start (pos 1) 1 1 g)
        (ddl faults (set_user_version (pos 1))) (λ u. pure (pos 1))
        (set_user_version-Steps faults start (pos 0) (pos 1) 1 1) (λ u g p. (refl, p))

  -- The guard and the migrations, from a version that is known.
  abbrev guarded : ℤ → Ddl
  guarded c = lift (check_ascending baseline_version registry) >> apply_migrations faults c registry

  from_unstamped-Steps :
      Steps faults start
        (Staged faults start (pos 0) 1 1)
        Current
        (upgrade_from faults registry (pos 0))
  unfolding upgrade_from check_ascending
  from_unstamped-Steps =
      Steps-bind faults start (Staged faults start (pos 0) 1 1)
        (λ c g. (c ≡ pos 1) × Staged faults start (pos 1) 1 1 g) Current
        (stamp_baseline faults (pos 0)) guarded stamp_baseline-Steps
        λ c g q.
          subst (λ w. Post Current (Broken faults start) (guarded w g)) (sym q.0)
            (from_1-Steps g q.1)

  upgrade_from-Steps :
      (v : ℤ) (a b : ℕ)
      → IsRelease v a b
      → Steps faults start
          (Staged faults start v (at_least_1 a) (at_least_1 b))
          Current
          (upgrade_from faults registry v)
  unfolding upgrade_from stamp_baseline check_ascending
  upgrade_from-Steps _ _ _ (unstamped p q) = rw (p, q) from_unstamped-Steps
  upgrade_from-Steps _ _ _ (at_baseline p q) = rw (p, q) from_1-Steps
  upgrade_from-Steps _ _ _ (at_2 q) = rw q from_2-Steps
  upgrade_from-Steps _ _ _ at_3 = from_3-Steps

  upgraded-Steps :
      (v : ℤ) (a b : ℕ)
      → IsRelease v a b
      → Steps faults start (Staged faults start v a b) Current (run_migrations faults registry)
  unfolding run_migrations
  upgraded-Steps v a b released =
      let P = Staged faults start v (at_least_1 a) (at_least_1 b) in
      then-Steps (Staged faults start v a b) P (Staged faults start (pos 3) 2 2)
        (create_baseline faults) (read_user_version faults >>= upgrade_from faults registry)
        (create_baseline-Steps v a b)
        (Steps-bind faults start P (λ w g. (v ≡ w) × P g) Current (read_user_version faults)
          (upgrade_from faults registry) (read_user_version-Steps v (at_least_1 a) (at_least_1 b))
          λ w g q.
            subst (λ x. Post Current (Broken faults start) (upgrade_from faults registry x g)) q.0
              (upgrade_from-Steps v a b released g q.1))

-- A file of any release - unstamped, at the baseline, at version 2 or at version 3 - whichever of the
-- statements fail: if `migrate` succeeds, the file has version 3 and both tables have the columns of
-- today; if it fails, it is with the error of a statement that failed. Either way the tables have the
-- rows they had, with the columns that were added empty.
pub migrate-Upgrades :
    (faults : Faults) (f : File)
    → IsRelease f.user_version (envs_version f.envs) (notify_version f.notify_state)
    → Post
        (λ u g. IsAt (pos 3) 2 2 g × SameRows f g)
        (λ e g. IsFault faults e × SameRows f g)
        (migrate faults f)
unfolding migrate
migrate-Upgrades faults f released =
    Post-map (Current faults f) _ (Broken faults f) _ (run_migrations faults registry f)
      (λ u g p. (p.1, p.0)) (λ e g p. p)
      (upgraded-Steps faults f _ _ _ released f ((refl, refl, refl), (refl, refl, refl)))
