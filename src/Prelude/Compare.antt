-- ===== src/Prelude/Compare.antt =====
-- A comparison of numbers, as the functions of libc/stdlib/ that take one expect it.
use mathlib.Core.Path.{◌≡◌, refl, ◌∙◌}
use mathlib.Core.Logic.{inl, inr}
use native.Mathlib.Omega.{arith}
use Prim.Native.Nat.{ℕ, zero, suc, ◌-◌}
use rhombus.Prelude.Int.{ℤ, pos, negsuc, is_negative, is_positive}
use rhombus.Prelude.Tests.{ltb, Bool-cases, if◌then◌else◌}

abbrev pub compare_numbers : ℕ → ℕ → ℤ
compare_numbers a b = if ltb a b then negsuc (b - a - 1) else pos (a - b)

pub negative_lem : (a b : ℕ) → is_negative (compare_numbers a b) ≡ ltb a b
negative_lem a b = elim (Bool-cases (ltb a b)) [ inl h ↦ rw h refl | inr h ↦ rw h refl ]

positive_step : (n : ℕ) → is_positive (pos n) ≡ ltb 0 n
positive_step zero = refl
positive_step (suc n) = ground arith

pub positive_lem : (a b : ℕ) → is_positive (compare_numbers a b) ≡ ltb b a
positive_lem a b = elim (Bool-cases (ltb a b)) [
  | inl h ↦ rw h (ground arith)
  | inr h ↦ rw h (positive_step (a - b) ∙ ground arith)
]
