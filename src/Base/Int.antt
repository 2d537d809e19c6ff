-- ===== src/Base/Int.antt =====
-- Go's `int`, under the library's name for the integers. The program compares its integers with 0
-- and hands them on; it adds to none but a retry counter, which is a natural number.
use Prim.Native.Nat.{ℕ}
use mathlib.Core.Bool.{Bool, true, false}

-- `negsuc n` is -(n + 1).
pub data ℤ : Type 0 where
  pos : ℕ → ℤ
  negsuc : ℕ → ℤ

-- `i > 0`
abbrev pub is_positive : ℤ → Bool
is_positive (pos ℕ.zero) = false
is_positive (pos (ℕ.suc n)) = true
is_positive (negsuc n) = false

-- `i < 0`
abbrev pub is_negative : ℤ → Bool
is_negative (pos n) = false
is_negative (negsuc n) = true

-- The number of elements that a query of limit `i` takes.
abbrev pub pos_part : ℤ → ℕ
pos_part (pos n) = n
pos_part (negsuc n) = 0
