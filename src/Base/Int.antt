-- ===== src/Base/Int.antt =====
-- Signed integers over the native numbers, and the `i64` operations of the program.
use Prim.Native.Nat.{ℕ, suc, ◌+◌, ◌-◌, ◌*◌, ◌%◌, ◌≤◌, ◌<◌}
use mathlib.Core.Path.{◌≡◌}
use mathlib.Core.Bool.{Bool}
use native.Mathlib.Omega.{arith}
use di_pecs.Base.Tests.{ltb, leb, if◌then◌else◌}

-- `negsuc n` is -(n + 1).
pub data ℤ : Type 0 where
  pos : ℕ → ℤ
  negsuc : ℕ → ℤ

abbrev pub pos_part : ℤ → ℕ
pos_part (pos n) = n
pos_part (negsuc n) = 0

abbrev pub neg_part : ℤ → ℕ
neg_part (pos n) = 0
neg_part (negsuc n) = suc n

-- a - b, as an integer.
abbrev pub sub_ℕ : ℕ → ℕ → ℤ
sub_ℕ a b = if leb b a then pos (a - b) else negsuc (b - a - 1)

infixl 65 ◌-ℤ◌ ◌+ℤ◌
infix 50 ◌≤ℤ◌
unfoldable pub ◌-ℤ◌ : ℤ → ℤ → ℤ
a -ℤ b = sub_ℕ (pos_part a + neg_part b) (neg_part a + pos_part b)

unfoldable pub ◌+ℤ◌ : ℤ → ℤ → ℤ
a +ℤ b = sub_ℕ (pos_part a + pos_part b) (neg_part a + neg_part b)

abbrev pub ◌≤ℤ◌ : ℤ → ℤ → Type 0
a ≤ℤ b = pos_part a + neg_part b ≤ pos_part b + neg_part a

abbrev pub leb_ℤ : ℤ → ℤ → Bool
leb_ℤ a b = leb (pos_part a + neg_part b) (pos_part b + neg_part a)

-- 2 ^ 63
abbrev pub i64_bound : ℕ
i64_bound = 9223372036854775808

-- A value that an `i64` holds.
abbrev pub IsI64 : ℤ → Type 0
IsI64 (pos n) = n < i64_bound
IsI64 (negsuc n) = n < i64_bound

-- the nearest value that an `i64` holds
unfoldable pub clamp_i64 : ℤ → ℤ
clamp_i64 (pos n) = if ltb n i64_bound then pos n else pos (i64_bound - 1)
clamp_i64 (negsuc n) = if ltb n i64_bound then negsuc n else negsuc (i64_bound - 1)

-- `a.saturating_sub(b)`
unfoldable pub saturating_sub : ℤ → ℤ → ℤ
unfolding clamp_i64 ◌-ℤ◌
saturating_sub a b = clamp_i64 (a -ℤ b)

-- the low 64 bits, read as a signed number: a cast to `i64`, and release arithmetic
abbrev pub from_bits : ℕ → ℤ
from_bits n = if ltb n i64_bound then pos n else negsuc (2 * i64_bound - 1 - n)

unfoldable pub wrap_i64 : ℤ → ℤ
wrap_i64 (pos n) = from_bits (n % 18446744073709551616)
wrap_i64 (negsuc n) = from_bits (18446744073709551615 - n % 18446744073709551616)

pub wrap_i64_of_IsI64 : (a : ℤ) → IsI64 a → wrap_i64 a ≡ a
unfolding wrap_i64
wrap_i64_of_IsI64 (pos n) h = ground arith
wrap_i64_of_IsI64 (negsuc n) h = ground arith
