-- ===== src/Base/Int.antt =====
-- Signed integers over the native numbers, and the arithmetic of `i64` and `u32` that the program
-- writes out: checked, saturating, and the comparisons.
use Prim.Native.Nat.{ℕ, suc, ◌+◌, ◌-◌, ◌*◌, ◌^◌, ◌≤◌, ◌<◌, compare, Ordering, min}
use Prim.Native.Nat.Ordering.{lt, gt}
use mathlib.Core.Path.{◌≡◌}
use mathlib.Core.Logic.{◌≢◌}
use mathlib.Core.Bool.{Bool, true, false, ◌&&◌}
use mathlib.Core.Option.{Option, none, some}
use native.Mathlib.Omega.{arith}
use ko_ls.Base.Tests.{leb, if◌then◌else◌}
use ko_ls.Base.Order.{Ord, IsTotal}

-- `negsuc n` is -(n + 1).
pub data ℤ : Type 0 where
  pos : ℕ → ℤ
  negsuc : ℕ → ℤ

abbrev pub pos_part : ℤ → ℕ
pos_part (pos n) = n
pos_part (negsuc n) = 0

abbrev pub neg_part : ℤ → ℕ
neg_part (pos n) = 0
neg_part (negsuc n) = suc n

-- The integer a - b of two numbers.
abbrev pub sub_ℕ : ℕ → ℕ → ℤ
sub_ℕ a b = if leb b a then pos (a - b) else negsuc (b - a - 1)

infixl 65 ◌+ℤ◌ ◌-ℤ◌
unfoldable pub ◌+ℤ◌ : ℤ → ℤ → ℤ
a +ℤ b = sub_ℕ (pos_part a + pos_part b) (neg_part a + neg_part b)

unfoldable pub ◌-ℤ◌ : ℤ → ℤ → ℤ
a -ℤ b = sub_ℕ (pos_part a + neg_part b) (neg_part a + pos_part b)

infix 50 ◌≤ℤ◌ ◌<ℤ◌
abbrev pub ◌≤ℤ◌ : ℤ → ℤ → Type 0
a ≤ℤ b = pos_part a + neg_part b ≤ pos_part b + neg_part a

abbrev pub ◌<ℤ◌ : ℤ → ℤ → Type 0
a <ℤ b = pos_part a + neg_part b < pos_part b + neg_part a

unfoldable pub cmp_ℤ : ℤ → ℤ → Ordering
cmp_ℤ a b = compare (pos_part a + neg_part b) (pos_part b + neg_part a)

-- An integer is decided by its two parts.
pub eq_of_parts : (a b : ℤ) → pos_part a + neg_part b ≡ pos_part b + neg_part a → a ≡ b
eq_of_parts a b h = ground arith

pub cmp_ℤ-IsTotal : IsTotal cmp_ℤ
unfolding cmp_ℤ
cmp_ℤ-IsTotal = record {
  flipped = λ a b. ground arith;
  same_eq = λ a b h. eq_of_parts a b (ground arith);
  chained = λ a b c h k. ground arith;
}

instance abbrev pub int_ord : Ord ℤ
int_ord = record { cmp = cmp_ℤ; total = cmp_ℤ-IsTotal }

pub lt_of_cmp_ℤ : (a b : ℤ) → cmp_ℤ a b ≡ lt → a <ℤ b
unfolding cmp_ℤ
lt_of_cmp_ℤ a b h = ground arith

pub le_of_cmp_ℤ : (a b : ℤ) → cmp_ℤ b a ≢ lt → a ≤ℤ b
unfolding cmp_ℤ
le_of_cmp_ℤ a b h = ground arith

abbrev pub leb_ℤ : ℤ → ℤ → Bool
leb_ℤ a b = elim (cmp_ℤ a b) [ gt ↦ false | _ ↦ true ]

abbrev pub i64_max : ℤ
i64_max = pos (2 ^ 63 - 1)

abbrev pub i64_min : ℤ
i64_min = negsuc (2 ^ 63 - 1)

-- The integer as `i64` holds it, if it does.
abbrev pub fits_i64 : ℤ → Bool
fits_i64 a = leb_ℤ i64_min a && leb_ℤ a i64_max

-- `i64::checked_add`
unfoldable pub checked_add : ℤ → ℤ → Option ℤ
checked_add a b = if fits_i64 (a +ℤ b) then some (a +ℤ b) else none

-- The nearest value that `i64` holds.
unfoldable pub clamp_i64 : ℤ → ℤ
clamp_i64 a = if leb_ℤ a i64_max then (if leb_ℤ i64_min a then a else i64_min) else i64_max

-- `i64::saturating_sub`
unfoldable pub saturating_sub : ℤ → ℤ → ℤ
unfolding clamp_i64
saturating_sub a b = clamp_i64 (a -ℤ b)

-- `i64::from(seconds).saturating_mul(1_000)`, of a `u32`
unfoldable pub seconds_to_millis : ℕ → ℤ
unfolding clamp_i64
seconds_to_millis seconds = clamp_i64 (pos (seconds * 1000))

abbrev pub u32_max : ℕ
u32_max = 2 ^ 32 - 1

-- `u32::saturating_add`
unfoldable pub saturating_add_u32 : ℕ → ℕ → ℕ
saturating_add_u32 a b = min (a + b) u32_max
