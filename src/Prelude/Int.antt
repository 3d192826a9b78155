-- ===== src/Prelude/Int.antt =====
-- C's `int` where the code tests its sign; `negsuc n` is -(n + 1).
use Prim.Native.Nat.{ℕ, zero, suc}
use mathlib.Core.Bool.{Bool, true, false}

pub data ℤ : Type 0 where
  pos : ℕ → ℤ
  negsuc : ℕ → ℤ

abbrev pub is_negative : ℤ → Bool
is_negative (negsuc n) = true
is_negative (pos n) = false

abbrev pub is_positive : ℤ → Bool
is_positive (negsuc n) = false
is_positive (pos zero) = false
is_positive (pos (suc n)) = true

abbrev pub is_zero : ℤ → Bool
is_zero (negsuc n) = false
is_zero (pos zero) = true
is_zero (pos (suc n)) = false
