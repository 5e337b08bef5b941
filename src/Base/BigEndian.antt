-- ===== src/Base/BigEndian.antt =====
-- `to_be_bytes` and `from_be_bytes` of the standard library's integers.
use Prim.Native.Nat.{ℕ, zero, suc, ◌+◌, ◌-◌, ◌*◌, ◌/◌, ◌%◌, ◌^◌, ◌<◌}
use mathlib.Core.Path.{◌≡◌, ◌∙◌, refl, ap}
use mathlib.Core.Bool.{true}
use mathlib.Core.List.{[], ◌∷◌, ◌++◌}
use native.Mathlib.Omega.{arith}
use ko_ls.Base.Tests.{ltb, if◌then◌else◌}
use ko_ls.Base.Lists.{length, length-append}
use ko_ls.Base.Order.{Bytes}
use ko_ls.Base.Int.{ℤ, pos, negsuc, fits_i64, cmp_ℤ}

-- The last `n` bytes of a number, the highest first.
unfoldable pub to_be_bytes : ℕ → ℕ → Bytes
to_be_bytes zero v = []
to_be_bytes (suc n) v = to_be_bytes n (v / 256) ++ v % 256 ∷ []

-- The number of these bytes behind the higher ones read so far.
unfoldable pub from_be_bytes : ℕ → Bytes → ℕ
from_be_bytes high [] = high
from_be_bytes high (b ∷ rest) = from_be_bytes (high * 256 + b) rest

-- An `i64` as the `u64` of the same bits, and back.
unfoldable pub bits_i64 : ℤ → ℕ
bits_i64 (pos n) = n % 2 ^ 64
bits_i64 (negsuc n) = (2 ^ 64 - suc n) % 2 ^ 64

unfoldable pub i64_of_bits : ℕ → ℤ
i64_of_bits w = if ltb w (2 ^ 63) then pos w else negsuc (2 ^ 64 - suc w)

pub i64_of_bits-bits_i64 : (a : ℤ) → fits_i64 a ≡ true → i64_of_bits (bits_i64 a) ≡ a
unfolding bits_i64 i64_of_bits cmp_ℤ
i64_of_bits-bits_i64 (pos n) h = ground arith
i64_of_bits-bits_i64 (negsuc n) h = ground arith

pub bits_i64-lt : (a : ℤ) → bits_i64 a < 2 ^ 64
unfolding bits_i64
bits_i64-lt (pos n) = omega arith
bits_i64-lt (negsuc n) = omega arith

pub length-to_be_bytes : (n v : ℕ) → length (to_be_bytes n v) ≡ n
unfolding to_be_bytes
length-to_be_bytes zero v = refl
length-to_be_bytes (suc n) v =
    omega (
      arith,
      length-append (to_be_bytes n (v / 256)) (v % 256 ∷ []),
      length-to_be_bytes n (v / 256),
    )

from_be_bytes-append :
    (high : ℕ) (a b : Bytes) → from_be_bytes high (a ++ b) ≡ from_be_bytes (from_be_bytes high a) b
unfolding from_be_bytes
from_be_bytes-append high [] b = refl
from_be_bytes-append high (x ∷ a) b = from_be_bytes-append (high * 256 + x) a b

pub from_be_bytes-to_be_bytes : (n v : ℕ) → v < 256 ^ n → from_be_bytes 0 (to_be_bytes n v) ≡ v
unfolding to_be_bytes from_be_bytes
from_be_bytes-to_be_bytes zero v h = omega arith
from_be_bytes-to_be_bytes (suc n) v h =
    let higher : v / 256 < 256 ^ n = omega arith in
    let e = from_be_bytes-to_be_bytes n (v / 256) higher in
    from_be_bytes-append 0 (to_be_bytes n (v / 256)) (v % 256 ∷ [])
    ∙ (ap (λ w. w * 256 + v % 256) e ∙ omega arith)
