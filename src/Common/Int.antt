-- ===== src/Common/Int.antt =====
-- Go's `int` and `int64` as integers over the native numbers, with their wrap-around written out.
use Prim.Native.Nat.{ℕ, suc, ◌+◌, ◌-◌, ◌%◌, ◌≤◌, ◌<◌}
use mathlib.Core.Path.{◌≡◌, refl}
use mathlib.Core.Bool.{Bool}
use native.Mathlib.Omega.{arith}
use hacp_sidecar.Common.Tests.{ltb, leb, if◌then◌else◌}

-- `negsuc n` is -(n + 1).
pub data ℤ : Type 0 where
  pos : ℕ → ℤ
  negsuc : ℕ → ℤ

abbrev pub pos_part : ℤ → ℕ
pos_part (pos n) = n
pos_part (negsuc n) = 0

abbrev pub neg_part : ℤ → ℕ
neg_part (pos n) = 0
neg_part (negsuc n) = suc n

-- a - b, as an integer.
abbrev pub sub_ℕ : ℕ → ℕ → ℤ
sub_ℕ a b = if leb b a then pos (a - b) else negsuc (b - a - 1)

infix 50 ◌≤ℤ◌ ◌<ℤ◌
abbrev pub ◌≤ℤ◌ : ℤ → ℤ → Type 0
a ≤ℤ b = pos_part a + neg_part b ≤ pos_part b + neg_part a

abbrev pub ◌<ℤ◌ : ℤ → ℤ → Type 0
a <ℤ b = pos_part a + neg_part b < pos_part b + neg_part a

abbrev pub ltb_ℤ : ℤ → ℤ → Bool
ltb_ℤ a b = ltb (pos_part a + neg_part b) (pos_part b + neg_part a)

abbrev pub leb_ℤ : ℤ → ℤ → Bool
leb_ℤ a b = leb (pos_part a + neg_part b) (pos_part b + neg_part a)

abbrev pub two_63 : ℕ
two_63 = 9223372036854775808

abbrev pub two_64 : ℕ
two_64 = 18446744073709551616

-- The bit pattern of a number of 64 bits, read as a signed one.
abbrev pub of_bits : ℕ → ℤ
of_bits n = if ltb n two_63 then pos n else negsuc (two_64 - n - 1)

-- `a + b` on `int64`: the sum of the bit patterns, read back.
unfoldable pub add_int64 : ℤ → ℤ → ℤ
add_int64 a b =
    of_bits ((pos_part a + pos_part b + two_64 + two_64 - neg_part a - neg_part b) % two_64)

-- The values of `int64`.
abbrev pub IsInt64 : ℤ → Type 0
IsInt64 a = (pos_part a < two_63) × (neg_part a ≤ two_63)

-- Where the sum fits, nothing wraps.
pub add_int64_exact :
    (a b : ℤ)
    → IsInt64 a
    → IsInt64 b
    → pos_part a + pos_part b < two_63 + neg_part a + neg_part b
    → neg_part a + neg_part b ≤ two_63 + pos_part a + pos_part b
    → add_int64 a b ≡ sub_ℕ (pos_part a + pos_part b) (neg_part a + neg_part b)
unfolding add_int64
add_int64_exact a b ha hb hi lo = ground arith

wraps : add_int64 (pos 9223372036854775807) (pos 5) ≡ negsuc 9223372036854775803
unfolding add_int64
wraps = refl

sums : add_int64 (negsuc 9) (pos 5) ≡ negsuc 4
unfolding add_int64
sums = refl
