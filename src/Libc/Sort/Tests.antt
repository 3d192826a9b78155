-- ===== src/Libc/Sort/Tests.antt =====
-- Runs of qsort on numbers, and what qsort-Sorts says of one.
use rhombus.Prelude.{
  ℕ, ◌≡◌, refl, sym, ◌∙◌, Option, none, some, List, [], ◌∷◌, get_or, Option, arith,
}
use rhombus.Prelude.Compare.{compare_numbers, negative_lem, positive_lem}
use rhombus.Libc.Sort.{qsort}
use rhombus.Libc.Sort.Scan.{IsOrder}
use rhombus.Libc.Sort.Sorted.{Sorts, qsort-Sorts}

abbrev unsorted : ℕ → ℕ
unsorted i = get_or (5 ∷ 3 ∷ 9 ∷ 3 ∷ 7 ∷ 1 ∷ []) i 0

abbrev elements : Option (ℕ → ℕ) → List ℕ
elements none = []
elements (some m) = m 0 ∷ m 1 ∷ m 2 ∷ m 3 ∷ m 4 ∷ m 5 ∷ m 6 ∷ []

sort_six : elements (qsort compare_numbers 6 unsorted 0 6) ≡ 1 ∷ 3 ∷ 3 ∷ 5 ∷ 7 ∷ 9 ∷ 0 ∷ []
unfolding qsort
sort_six = refl

sort_four_behind : elements (qsort compare_numbers 6 unsorted 1 4) ≡ 5 ∷ 3 ∷ 3 ∷ 7 ∷ 9 ∷ 1 ∷ 0 ∷ []
unfolding qsort
sort_four_behind = refl

numbers-IsOrder : IsOrder compare_numbers
numbers-IsOrder = record {
  opposite = λ a b. negative_lem a b ∙ sym (positive_lem b a);
  between = λ a b c h k. ground (arith, h, k, positive_lem a b, positive_lem b c, positive_lem a c);
}

qsort-Sorts_example :
    Sorts compare_numbers numbers-IsOrder 0 6 unsorted (qsort compare_numbers 6 unsorted 0 6)
qsort-Sorts_example = qsort-Sorts compare_numbers numbers-IsOrder 6 0 6 unsorted (omega arith)
