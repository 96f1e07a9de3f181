-- ===== src/Front/Plan.antt =====
-- What `create` works out before it reads the database: crates/seadog/src/verbs/create.rs. The
-- `humantime` crate's parser of durations is an argument.
use seadog.Prelude.{
  ℕ, zero, suc, ◌++◌, Option, none, some, Result, ok, err, ok_or, ◌>>=◌, unwrap_or, lookup, leb,
  ◌==◌, if◌then◌else◌, Text, lit,
}
use seadog.Prelude.Int.{ℤ, try_i64, checked_add, min_ℤ, as_i64}
use seadog.Core.Failure.{Failure, message, from_core}
use seadog.Core.Models.{Mode, lxc, vm, mode_from_str_opt}
use seadog.Core.Config.{Config, OwnerOverride}
use seadog.Core.Validate.{ResolvedImage, resolve_image}
use seadog.Front.Context.{Ctx}

-- `struct CreateArgs`
pub record CreateArgs : Type 0 where
  pub image : Text
  pub mode : Option Text
  pub ttl : Option Text
  pub duration : Option Text
  pub memory : Option ℕ
  pub cores : Option ℕ

unfoldable pub requested_mode : Option Text → Result Failure (Option Mode)
requested_mode none = ok none
requested_mode (some m) = do
  mode ←
      ok_or (message (lit "invalid mode '" ++ (m ++ lit "' (expected lxc|vm)")))
        (mode_from_str_opt m)
  ok (some mode)

-- The override of the owner, if there is one.
abbrev pub max_override : (OwnerOverride → Option ℕ) → Option OwnerOverride → Option ℕ
max_override field none = none
max_override field (some o) = field o

unfoldable pub mode_cap : Config → Text → Mode → ℕ
mode_cap config owner lxc =
    unwrap_or config.allocation.caps.max_lxc_per_owner
      (max_override (λ o. o.max_lxc) (lookup owner config.owners))
mode_cap config owner vm =
    unwrap_or config.allocation.caps.max_vm_per_owner
      (max_override (λ o. o.max_vm) (lookup owner config.owners))

unfoldable pub clamp_request : Option ℕ → ℕ → Text → Result Failure (Option ℕ)
clamp_request none ceiling label = ok none
clamp_request (some zero) ceiling label = err (message (label ++ lit " must be >= 1 (got 0)"))
clamp_request (some (suc v)) ceiling label =
    ok (some (if ceiling == 0 then suc v else if leb (suc v) ceiling then suc v else ceiling))

pub record Plan : Type 0 where
  pub resolved : ResolvedImage
  pub ttl_deadline : ℤ
  pub soft_deadline : ℤ
  pub memory : Option ℕ
  pub cores : Option ℕ

module _ (parse_duration : Text → Result Text ℕ) where
  unfoldable pub parse_secs : Text → Result Failure ℤ
  parse_secs s = elim (parse_duration s) [
    | err e ↦ err (message (lit "invalid duration '" ++ (s ++ (lit "': " ++ e))))
    | ok d ↦ ok_or (message (lit "duration '" ++ (s ++ lit "' is too large"))) (try_i64 d)
  ]

  -- The duration asked for, or the default, which is cast.
  unfoldable pub secs_or : Option Text → ℕ → Result Failure ℤ
  unfolding parse_secs
  secs_or none default = ok (as_i64 default)
  secs_or (some s) default = parse_secs s

  unfoldable pub planned : Ctx → CreateArgs → Result Failure Plan
  unfolding requested_mode clamp_request secs_or
  planned ctx args = do
    mode ← requested_mode args.mode
    resolved ← from_core (resolve_image args.image mode ctx.config)
    ttl_secs ← secs_or args.ttl ctx.config.lifecycle.default_ttl
    max_ttl_secs ←
        ok_or (message (lit "configured max_ttl is too large"))
          (try_i64 ctx.config.lifecycle.max_ttl)
    dur_secs ← secs_or args.duration ctx.config.lifecycle.default_duration
    ttl_deadline ←
        ok_or (message (lit "ttl deadline overflows"))
          (checked_add ctx.now_unix (min_ℤ ttl_secs max_ttl_secs))
    soft_deadline ←
        ok_or (message (lit "soft deadline overflows")) (checked_add ctx.now_unix dur_secs)
    memory ← clamp_request args.memory ctx.config.allocation.caps.max_memory_mb (lit "memory")
    cores ← clamp_request args.cores ctx.config.allocation.caps.max_cores (lit "cores")
    ok (record {
      resolved = resolved;
      ttl_deadline = ttl_deadline;
      soft_deadline = soft_deadline;
      memory = memory;
      cores = cores;
    })
