-- ===== src/Core/Tests.antt =====
-- Runs of the core on small inputs, and an instance of each result that has hypotheses.
pub mod Data
pub mod Kento
pub mod Runs
pub mod Schema
use seadog.Prelude.{
  contains_char, subst, sym, find, any, select, true, text_eq, ℕ, ◌<◌, ◌^◌, ◌≡◌, ◌↔◌, ◌⊎◌, refl,
  inl, inr, Bool, false, Option, none, some, List, [], ◌∷◌, ◌++◌, ok, err, arith, lit, Text, lookup,
  All, unwrap_or,
}
use seadog.Prelude.Int.{wrap_i64, ◌-ℤ◌, sub_i64, ℤ, pos}
use mathlib.Core.List.{Mem}
use seadog.Core.Models.{mode_from_str_opt, status_from_str_opt, lxc, vm, active, Env, NotifyState}
use seadog.Core.Identity.{host_keys_disagree, reap_eligible, orphan, classify}
use seadog.Core.Identity.Laws.{Confirms, classify-reap_eligible_iff, classify-orphan_iff}
use seadog.Core.Notify.{
  Event, Severity, escalates, event_key, severity_from_str_opt, decide, warning, base_severity,
}
use seadog.Core.Notify.Laws.{
  Elapsed, alerts, Escalating, BeginsAt, rung, alerts_escalate, decide-emit_iff,
}
use seadog.Core.Validate.{
  validate_guest_name, validate_owner_name, resolve_image, choose_mode, ResolvedImage,
}
use seadog.Core.Validate.Names.{
  IsGuestName, IsOwnerName, validate_guest_name_iff, validate_owner_name_iff, resolve_image-allowed,
  resolve_image-default,
}
use seadog.Core.Config.{
  Image, check_modes, check_users, validate, login_user_for_ref, login_user_for_image,
}
use seadog.Core.Config.Users.{login_user_for_ref-login_user_for_image}
use seadog.Core.Post.{Post}
use seadog.Core.Sql.{SameTables, EnvRow, Db}
use seadog.Core.Store.{mark_reaped}
use seadog.Core.Alloc.{allocate, lowest_free, occupied_ips}
use seadog.Core.Alloc.Lowest.{IsLowestFree, lowest_free-IsLowestFree}
use seadog.Core.Alloc.Leases.{Leased, allocate-Post}
use seadog.Core.Alloc.Exclusive.{Exclusive}
use seadog.Core.Alloc.Stable.{Reach, here, next, allocates, reaps}
use seadog.Core.Alloc.System.{Reach-Exclusive}
use seadog.Core.Alloc.Decoded.{Readable, Reach-Readable}
use seadog.Core.Rows.{collect_envs, newest_first}
use seadog.Core.Reap.{sweep, default_outcome}
use seadog.Core.Reap.Herd.{WithinCap, TornWithinCap, sweep-WithinCap}
use seadog.Core.Reap.Safety.{Due, sweep-Due}
use seadog.Core.Rows.{
  keyed_on, like, some_suffix, first_matches, prunable, same_key, env_to_row, row_to_env,
}
use seadog.Core.Rows.Codec.{IsStorable, row_to_env-env_to_row}
use seadog.Core.Store.{set_ttl_deadline, prune_terminal}
use seadog.Core.Store.Deadline.{Extended, Unchanged, set_ttl_deadline-Post}
use seadog.Core.Store.Prune.{Pruned, prune_terminal-Pruned}
use seadog.Core.Store.Alerts.{IsKeyOf, Unclaimed, prune_terminal-SameState}
use seadog.Core.Reap.Quorum.{Surfaced, Unbeaten, sweep-Surfaced}
use seadog.Core.Tests.Data.{
  reaped_db, lost_kento, no_faults, any_uuid, config, image, kento, due_row, due_env, live, stray,
  due_db, world, new_env, pool, problem, config, problem_state,
}

Reach-Exclusive_example :
    Exclusive (mark_reaped no_faults (lit "g1") (allocate no_faults pool new_env due_db).1).1.envs
Reach-Exclusive_example =
    Reach-Exclusive
      (next (next here (allocates no_faults pool new_env (omega arith)))
        (reaps no_faults (lit "g1")))
      (λ v h. refl, tt)

Reach-Readable_example :
    let d = (allocate no_faults pool new_env due_db).1 in
    Readable d.envs
    × (envs : List Env) × (collect_envs (newest_first (select (λ row. true) d.envs)) ≡ ok envs)
unfolding mode_from_str_opt status_from_str_opt text_eq
Reach-Readable_example =
    Reach-Readable (λ row. true) (next here (allocates no_faults pool new_env (omega arith)))
      (((lxc, refl), (active, refl)), tt)

sweep-Due_example :
    Post
      (λ o w. All (Due no_faults config (pos 5000) kento any_uuid due_db) w.teardowns)
      (λ e w. All (Due no_faults config (pos 5000) kento any_uuid due_db) w.teardowns)
      (sweep no_faults config (pos 5000) kento any_uuid world)
sweep-Due_example = sweep-Due no_faults config (pos 5000) kento any_uuid due_db world refl refl

sweep-WithinCap_example :
    Post
      (λ o w. WithinCap no_faults config (pos 5000) kento any_uuid o w.teardowns)
      (λ e w. TornWithinCap no_faults config (pos 5000) kento any_uuid w.outcome w.teardowns)
      (sweep no_faults config (pos 5000) kento any_uuid world)
sweep-WithinCap_example =
    sweep-WithinCap no_faults config (pos 5000) kento any_uuid (omega arith) world refl

allocate-Post_example :
    Post
      (Leased pool new_env due_db)
      (λ e. SameTables due_db)
      (allocate no_faults pool new_env due_db)
allocate-Post_example = allocate-Post no_faults pool new_env due_db

lowest_free-IsLowestFree_example :
    IsLowestFree 0xc0a863c0 0xc0a863c3
      (due_row ∷ [])
      (lowest_free 0xc0a863c0 0xc0a863c3 (occupied_ips 0xc0a863c0 0xc0a863c3 (due_row ∷ [])))
lowest_free-IsLowestFree_example = lowest_free-IsLowestFree 0xc0a863c0 0xc0a863c3 (due_row ∷ [])

classify-reap_eligible_iff_example :
    (classify any_uuid live (some due_env) ≡ reap_eligible (lit "g1") false) ↔ (
      (env : Env) × (some due_env ≡ some env)
      × (live.guid ≡ some (lit "g1"))
      × Confirms any_uuid live env
      × (false ≡ host_keys_disagree live env))
classify-reap_eligible_iff_example =
    classify-reap_eligible_iff any_uuid live (some due_env) (lit "g1") false

classify-orphan_iff_example :
    (classify any_uuid stray none ≡ orphan (lit "g2") (some (lit "ci"))) ↔ (
      (◌≡◌ {A = Option Env} none none)
      × (stray.guid ≡ some (lit "g2"))
      × (any_uuid (lit "g2") ≡ true)
      × IsGuestName stray.name
      × (some (lit "ci") ≡ stray.owner))
classify-orphan_iff_example = classify-orphan_iff any_uuid stray none (lit "g2") (some (lit "ci"))

decide-emit_iff_example : ((decide problem (some problem_state) config (pos 9000)).emit ≡ true) ↔ (
    (some problem_state ≡ none)
    ⊎ ((p : NotifyState) × (some problem_state ≡ some p)
        × (p.acked ≡ false)
        × (escalates problem ≡ true)
        × Elapsed p config (pos 9000)))
decide-emit_iff_example = decide-emit_iff problem (some problem_state) config (pos 9000)

alerts_escalate_example :
    (first : Severity) × (rest : List (ℤ × Severity)) × (alerts problem config none
        (pos 5000 ∷ pos 5001 ∷ pos 7000 ∷ [])
      ≡ (pos 5000, first) ∷ rest)
    × BeginsAt problem (rung first)
    × Escalating config (pos 5000, first) rest
alerts_escalate_example = alerts_escalate problem config (pos 5000) (pos 5001 ∷ pos 7000 ∷ [])

resolve_image-allowed_example :
    (img : Image) × (lookup (lit "deb") config.images ≡ some img)
    × (lit "debian" ≡ img.image_ref)
    × Mem vm img.modes
    × (unwrap_or vm (some vm) ≡ vm)
unfolding resolve_image choose_mode text_eq
resolve_image-allowed_example =
    resolve_image-allowed (lit "deb") (some vm) config
      (record { image_ref = lit "debian"; mode = vm }) refl

config-valid : validate config ≡ ok tt
unfolding validate check_modes check_users
config-valid = refl

resolve_image-default_example : (r : ResolvedImage) × (resolve_image (lit "deb") none config ≡ ok r)
unfolding text_eq
resolve_image-default_example = resolve_image-default (lit "deb") config image config-valid refl

login_user_for_ref-login_user_for_image_example :
    login_user_for_ref config (lit "debian") ≡ login_user_for_image config (lit "deb")
unfolding text_eq
login_user_for_ref-login_user_for_image_example =
    login_user_for_ref-login_user_for_image config (lit "deb") image config-valid refl

validate_guest_name_iff_example :
    (validate_guest_name (lit "seadog-a") ≡ ok tt) ↔ IsGuestName (lit "seadog-a")
validate_guest_name_iff_example = validate_guest_name_iff (lit "seadog-a")

validate_owner_name_iff_example : (validate_owner_name (lit "ci") ≡ ok tt) ↔ IsOwnerName (lit "ci")
validate_owner_name_iff_example = validate_owner_name_iff (lit "ci")

row_to_env-env_to_row_example : row_to_env (env_to_row due_env) ≡ ok due_env
row_to_env-env_to_row_example =
    row_to_env-env_to_row due_env (record { plain = tt; told_apart = λ e. cc })

prune_terminal-Pruned_example :
    Post
      (λ n d. Pruned (sub_i64 (pos 9000) (pos 600)) n reaped_db.envs d.envs)
      (λ e d. (d.envs ≡ reaped_db.envs) × (d.notify_state ≡ reaped_db.notify_state))
      (prune_terminal no_faults (pos 9000) (pos 600) reaped_db)
prune_terminal-Pruned_example = prune_terminal-Pruned no_faults (pos 9000) (pos 600) reaped_db

sweep-Surfaced_example :
    Post
      (Surfaced no_faults config (pos 5000) lost_kento any_uuid world (lit "no quorum"))
      (Unbeaten no_faults config (pos 5000) lost_kento any_uuid world (lit "no quorum"))
      (sweep no_faults config (pos 5000) lost_kento any_uuid world)
sweep-Surfaced_example =
    sweep-Surfaced no_faults config (pos 5000) lost_kento any_uuid world (lit "no quorum") refl

-- The alert is dropped with its env.
pruned_alert :
    any (keyed_on (lit "g1:overdue")) (select (prunable (pos 8400)) reaped_db.envs) ≡ true
unfolding text_eq keyed_on like some_suffix first_matches
pruned_alert = refl

has_colon : (s rest : Text) → contains_char b':' (s ++ (b':' ∷ rest)) ≡ true
has_colon [] rest = refl
has_colon (c ∷ s) rest = ground (arith, has_colon s rest)

sweeper-Unclaimed : Unclaimed (pos 8400) (lit "sweeper") reaped_db.envs
sweeper-Unclaimed = (λ old key. unclaimed (record due_row { status = lit "reaped" }) key refl, tt)
  where
    unclaimed : (row : EnvRow) → IsKeyOf (lit "sweeper") row → row.guid ≡ lit "g1" → ⊥
    unclaimed row (inl same) g = cc
    unclaimed row (inr (s, rest, cut, matched)) g =
        let colon =
          subst (λ (t : Text). contains_char b':' t ≡ true) (sym cut) (has_colon s rest) in
        cc

prune_terminal-SameState_example :
    Post
      (λ n d.
        find (same_key (lit "sweeper")) d.notify_state
        ≡ find (same_key (lit "sweeper")) reaped_db.notify_state)
      (λ e d.
        find (same_key (lit "sweeper")) d.notify_state
        ≡ find (same_key (lit "sweeper")) reaped_db.notify_state)
      (prune_terminal no_faults (pos 9000) (pos 600) reaped_db)
unfolding text_eq keyed_on like some_suffix first_matches sub_i64 wrap_i64 ◌-ℤ◌
prune_terminal-SameState_example =
    prune_terminal-SameState no_faults (lit "sweeper") reaped_db (pos 9000) (pos 600)
      sweeper-Unclaimed
