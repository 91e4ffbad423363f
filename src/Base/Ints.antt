-- ===== src/Base/Ints.antt =====
-- Go's signed numbers, and the tests of the source on them.
use Prim.Native.Nat.{ℕ, zero, suc}
use mathlib.Core.Bool.{Bool, true, false}
use vlf_proto.Base.Tests.{ltb}

-- `negsuc n` is the number below zero by one more than n.
pub data ℤ : Type 0 where
  pos : ℕ → ℤ
  negsuc : ℕ → ℤ

unfoldable pub is_zero : ℤ → Bool
is_zero (pos zero) = true
is_zero (pos (suc n)) = false
is_zero (negsuc n) = false

unfoldable pub is_negative : ℤ → Bool
is_negative (pos n) = false
is_negative (negsuc n) = true

-- `x + 1` and `x - 1`
unfoldable pub plus_one : ℤ → ℤ
plus_one (pos n) = pos (suc n)
plus_one (negsuc zero) = pos zero
plus_one (negsuc (suc n)) = negsuc n

unfoldable pub minus_one : ℤ → ℤ
minus_one (pos zero) = negsuc zero
minus_one (pos (suc n)) = pos n
minus_one (negsuc n) = negsuc (suc n)

-- `x < n`
unfoldable pub is_below : ℤ → ℕ → Bool
is_below (pos m) n = ltb m n
is_below (negsuc m) n = true

-- `x <= 0`
abbrev pub is_at_most_zero : ℤ → Bool
is_at_most_zero x = is_below x 1
