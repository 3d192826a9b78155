-- ===== src/Libc/Search/Tests.antt =====
-- Runs of bsearch on the even numbers, and what bsearch-Found says there.
use rhombus.Prelude.{ℕ, ◌*◌, ◌≡◌, refl, none, some, arith}
use rhombus.Prelude.Compare.{compare_numbers, negative_lem, positive_lem}
use rhombus.Libc.Search.{bsearch}
use rhombus.Libc.Search.Found.{InOrder, Found, bsearch-Found}

abbrev even_number : ℕ → ℕ
even_number i = 2 * i

find_six : bsearch 8 6 even_number 7 compare_numbers ≡ some 3
unfolding bsearch
find_six = refl

never_finds_seven : bsearch 100 7 even_number 7 compare_numbers ≡ none
unfolding bsearch
never_finds_seven = refl

even-InOrder : InOrder compare_numbers 6 even_number 7
even-InOrder = record {
  less_after = λ i j b c h. ground (arith, negative_lem 6 (2 * i), negative_lem 6 (2 * j));
  greater_before = λ i j b c h. ground (arith, positive_lem 6 (2 * i), positive_lem 6 (2 * j));
}

bsearch-Found_example :
    Found compare_numbers 6 even_number 7 (bsearch 8 6 even_number 7 compare_numbers)
bsearch-Found_example =
    bsearch-Found compare_numbers 6 even_number 7 3 (omega arith) even-InOrder (omega arith) refl
