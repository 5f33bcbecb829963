-- ===== src/Common/Int.antt =====
-- Signed integers over the native numbers, and Rust's `i64`.
use Prim.Native.Nat.{ℕ, suc, ◌+◌, ◌-◌, ◌%◌, ◌^◌}
use mathlib.Core.Path.{◌≡◌}
use mathlib.Core.Bool.{Bool}
use native.Mathlib.Omega.{arith}
use agent_sandbox.Common.Tests.{ltb, leb, if◌then◌else◌, u64_mod}

-- `negsuc n` is -(n + 1).
pub data ℤ : Type 0 where
  pos : ℕ → ℤ
  negsuc : ℕ → ℤ

abbrev pub pos_part : ℤ → ℕ
pos_part (pos n) = n
pos_part (negsuc n) = 0

abbrev pub neg_part : ℤ → ℕ
neg_part (pos n) = 0
neg_part (negsuc n) = suc n

abbrev pub leb_ℤ : ℤ → ℤ → Bool
leb_ℤ a b = leb (pos_part a + neg_part b) (pos_part b + neg_part a)

-- The value of a 64-bit pattern in two's complement.
unfoldable pub of_bits : ℕ → ℤ
of_bits b = if ltb b (2 ^ 63) then pos b else negsuc (u64_mod - b - 1)

-- The bit pattern of an integer.
unfoldable pub to_bits : ℤ → ℕ
to_bits (pos n) = n % u64_mod
to_bits (negsuc n) = u64_mod - 1 - n % u64_mod

-- `a + b as i64` in wrapping arithmetic, for an `i64` and a `u64`.
unfoldable pub add_u64 : ℤ → ℕ → ℤ
unfolding of_bits to_bits
add_u64 a b = of_bits ((to_bits a + b) % u64_mod)

-- Without a wrap it is the sum.
pub add_u64_lem : (a b : ℕ) → ltb (a + b) (2 ^ 63) ≡ Bool.true → add_u64 (pos a) b ≡ pos (a + b)
unfolding add_u64
add_u64_lem a b h = ground arith
