-- ===== src/Base/Int.antt =====
-- Signed integers, their order as a test, and Go's `int64` sum.
use Prim.Native.Nat.{ℕ, suc, ◌+◌, ◌-◌, ◌%◌, ◌^◌, ◌≤◌}
use mathlib.Core.Bool.{Bool}
use rassberry.Base.Tests.{ltb, if◌then◌else◌}

-- `negsuc n` is -(n + 1).
pub data ℤ : Type 0 where
  pos : ℕ → ℤ
  negsuc : ℕ → ℤ

abbrev pub pos_part : ℤ → ℕ
pos_part (pos n) = n
pos_part (negsuc n) = 0

abbrev pub neg_part : ℤ → ℕ
neg_part (pos n) = 0
neg_part (negsuc n) = suc n

infix 50 ◌≤ℤ◌
abbrev pub ◌≤ℤ◌ : ℤ → ℤ → Type 0
a ≤ℤ b = pos_part a + neg_part b ≤ pos_part b + neg_part a

-- `a < b`
abbrev pub less : ℤ → ℤ → Bool
less a b = ltb (pos_part a + neg_part b) (pos_part b + neg_part a)

abbrev pub is_positive : ℤ → Bool
is_positive a = less (pos 0) a

-- The `int64` whose two's complement is the number `n` below 2^64.
abbrev pub of_bits : ℕ → ℤ
of_bits n = if ltb n (2 ^ 63) then pos n else negsuc (2 ^ 64 - n - 1)

-- The sum of two `int64`s, which wraps.
unfoldable pub add64 : ℤ → ℤ → ℤ
add64 a b = of_bits ((pos_part a + pos_part b + 2 ^ 65 - neg_part a - neg_part b) % 2 ^ 64)
