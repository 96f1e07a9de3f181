-- ===== src/Prelude/Int.antt =====
-- Signed integers over the native numbers, and the arithmetic of `i64` on them: a release build
-- wraps on overflow, and `checked_*` and `saturating_*` are written out.
use seadog.Prelude.Tests.{ltb, leb, if◌then◌else◌}
use Prim.Native.Nat.{ℕ, suc, ◌+◌, ◌-◌, ◌*◌, ◌%◌, ◌^◌, ◌≤◌, ◌<◌}
use mathlib.Core.Path.{◌≡◌}
use mathlib.Core.Bool.{Bool, ◌&&◌}
use mathlib.Core.Option.{Option, none, some}
use native.Mathlib.Omega.{arith}

-- `negsuc n` is -(n + 1).
pub data ℤ : Type 0 where
  pos : ℕ → ℤ
  negsuc : ℕ → ℤ

abbrev pub pos_part : ℤ → ℕ
pos_part (pos n) = n
pos_part (negsuc n) = 0

abbrev pub neg_part : ℤ → ℕ
neg_part (pos n) = 0
neg_part (negsuc n) = suc n

abbrev pub sub_ℕ : ℕ → ℕ → ℤ
sub_ℕ a b = if leb b a then pos (a - b) else negsuc (b - a - 1)

infixl 65 ◌+ℤ◌ ◌-ℤ◌
infix 50 ◌≤ℤ◌ ◌<ℤ◌
unfoldable pub ◌+ℤ◌ : ℤ → ℤ → ℤ
a +ℤ b = sub_ℕ (pos_part a + pos_part b) (neg_part a + neg_part b)

unfoldable pub ◌-ℤ◌ : ℤ → ℤ → ℤ
a -ℤ b = sub_ℕ (pos_part a + neg_part b) (neg_part a + pos_part b)

abbrev pub ◌≤ℤ◌ : ℤ → ℤ → Type 0
a ≤ℤ b = pos_part a + neg_part b ≤ pos_part b + neg_part a

abbrev pub ◌<ℤ◌ : ℤ → ℤ → Type 0
a <ℤ b = pos_part a + neg_part b < pos_part b + neg_part a

abbrev pub ltb_ℤ : ℤ → ℤ → Bool
ltb_ℤ a b = ltb (pos_part a + neg_part b) (pos_part b + neg_part a)

abbrev pub leb_ℤ : ℤ → ℤ → Bool
leb_ℤ a b = leb (pos_part a + neg_part b) (pos_part b + neg_part a)

pub +ℤ_parts :
    (a b : ℤ)
    → pos_part (a +ℤ b) + neg_part a + neg_part b ≡ neg_part (a +ℤ b) + pos_part a + pos_part b
unfolding ◌+ℤ◌
+ℤ_parts a b = ground arith

pub -ℤ_parts :
    (a b : ℤ)
    → pos_part (a -ℤ b) + neg_part a + pos_part b ≡ neg_part (a -ℤ b) + pos_part a + neg_part b
unfolding ◌-ℤ◌
-ℤ_parts a b = ground arith

pub eq_of_parts : (a b : ℤ) → pos_part a + neg_part b ≡ pos_part b + neg_part a → a ≡ b
eq_of_parts a b h = ground arith

pub ruleset int_laws = (arith, +ℤ_parts, -ℤ_parts, eq_of_parts)

abbrev pub i64_max : ℤ
i64_max = pos 0x7fff_ffff_ffff_ffff

abbrev pub i64_min : ℤ
i64_min = negsuc 0x7fff_ffff_ffff_ffff

-- What an `i64` can hold.
abbrev pub IsI64 : ℤ → Type 0
IsI64 z = (i64_min ≤ℤ z) × (z ≤ℤ i64_max)

-- A residue modulo 2 ^ 64, read as signed; and its negation less one.
wrap_pos : ℕ → ℤ
wrap_pos m = if ltb m 0x8000_0000_0000_0000 then pos m else negsuc (0xffff_ffff_ffff_ffff - m)

wrap_negsuc : ℕ → ℤ
wrap_negsuc m = if ltb m 0x8000_0000_0000_0000 then negsuc m else pos (0xffff_ffff_ffff_ffff - m)

-- The value modulo 2 ^ 64, read as signed.
unfoldable pub wrap_i64 : ℤ → ℤ
unfolding wrap_pos wrap_negsuc
wrap_i64 (pos n) = wrap_pos (n % 2 ^ 64)
wrap_i64 (negsuc n) = wrap_negsuc (n % 2 ^ 64)

pub wrap_i64_id : (z : ℤ) → IsI64 z → wrap_i64 z ≡ z
unfolding wrap_i64
wrap_i64_id (pos n) h = ground arith
wrap_i64_id (negsuc n) h = ground arith

pub wrap_i64-IsI64 : (z : ℤ) → IsI64 (wrap_i64 z)
unfolding wrap_i64
wrap_i64-IsI64 (pos n) = ground arith
wrap_i64-IsI64 (negsuc n) = ground arith

-- `a + b`, `a - b` and `n as i64` (of a `u64`) in a release build.
unfoldable pub add_i64 : ℤ → ℤ → ℤ
add_i64 a b = wrap_i64 (a +ℤ b)

unfoldable pub sub_i64 : ℤ → ℤ → ℤ
sub_i64 a b = wrap_i64 (a -ℤ b)

-- `k * a`
unfoldable pub mul_i64 : ℕ → ℤ → ℤ
mul_i64 k (pos n) = wrap_i64 (pos (k * n))
mul_i64 k (negsuc n) = wrap_i64 (sub_ℕ 0 (k * suc n))

unfoldable pub as_i64 : ℕ → ℤ
as_i64 n = wrap_i64 (pos n)

-- `i64::try_from` of a `u64`, `checked_add`, `saturating_add`, `saturating_sub`, `min`, `clamp`.
unfoldable pub try_i64 : ℕ → Option ℤ
try_i64 n = if leb n 0x7fff_ffff_ffff_ffff then some (pos n) else none

unfoldable pub checked_add : ℤ → ℤ → Option ℤ
checked_add a b = if leb_ℤ i64_min (a +ℤ b) && leb_ℤ (a +ℤ b) i64_max then some (a +ℤ b) else none

pub try_i64-some : (n : ℕ) {z : ℤ} → try_i64 n ≡ some z → z ≡ pos n
unfolding try_i64
try_i64-some n h = ground arith

pub checked_add-some : (a b : ℤ) {z : ℤ} → checked_add a b ≡ some z → z ≡ a +ℤ b
unfolding checked_add
checked_add-some a b h = ground arith

abbrev pub saturate : ℤ → ℤ
saturate z = if ltb_ℤ z i64_min then i64_min else if ltb_ℤ i64_max z then i64_max else z

unfoldable pub saturating_add : ℤ → ℤ → ℤ
saturating_add a b = saturate (a +ℤ b)

unfoldable pub saturating_sub : ℤ → ℤ → ℤ
saturating_sub a b = saturate (a -ℤ b)

abbrev pub min_ℤ : ℤ → ℤ → ℤ
min_ℤ a b = if leb_ℤ a b then a else b

-- `Ord::clamp` panics if `lo > hi`; this is its value otherwise.
abbrev pub clamp_ℤ : ℤ → ℤ → ℤ → ℤ
clamp_ℤ z lo hi = if ltb_ℤ z lo then lo else if ltb_ℤ hi z then hi else z
