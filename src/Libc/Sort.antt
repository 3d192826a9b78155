-- ===== src/Libc/Sort.antt =====
-- Sorting, libc/stdlib/qsort.c. The function that compares is a parameter, and the memory of the array
-- is a function from the indices of its elements.
pub mod Scan
pub mod Swaps
pub mod Split
pub mod Divide
pub mod Sorted
mod Tests
use rhombus.Prelude.{
  ℕ, zero, suc, ◌+◌, ◌-◌, ◌*◌, ◌/◌, Bool, true, false, Option, none, some, ◌==◌, leb, if◌then◌else◌,
}
use rhombus.Prelude.Int.{ℤ, is_negative, is_positive, is_zero}

-- The copy of an element into the array.
pub copied {ℓ} : {A : Type ℓ} → (ℕ → A) → ℕ → A → (ℕ → A)
copied base i x = λ k. if k == i then x else base k

-- The three copies that swap two elements.
pub swapped {ℓ} : {A : Type ℓ} → (ℕ → A) → ℕ → ℕ → (ℕ → A)
unfolding copied
swapped base left right = let t = base right in copied (copied base right (base left)) left t

module _ {ℓ} {A : Type ℓ} (compar : A → A → ℤ) where
  -- The loop over `left`, with the number of the elements from `left` on.
  pub scan_left : (ℕ → A) → ℕ → A → ℕ → ℕ → ℕ
  scan_left base start pivot zero left = left
  scan_left base start pivot (suc rest) left =
      let further = scan_left base start pivot rest (suc left) in
      if is_negative (compar (base (start + left)) pivot) then further else left

  -- The loop over `right`.
  pub scan_right : (ℕ → A) → ℕ → A → ℕ → ℕ
  scan_right base start pivot zero = zero
  scan_right base start pivot (suc right) =
      let further = scan_right base start pivot right in
      if is_positive (compar (base (start + suc right)) pivot) then further else suc right

  -- The loop that divides the elements, with the array and the `left` it ends with; none where it has
  -- not ended after `fuel` rounds.
  pub divide : ℕ → A → ℕ → ℕ → (ℕ → A) → ℕ → ℕ → Option ((ℕ → A) × ℕ)
  unfolding scan_left scan_right swapped
  divide zero pivot start nmemb base left right = none
  divide (suc fuel) pivot start nmemb base left right =
      let left' = scan_left base start pivot (nmemb - left) left in
      let right' = scan_right base start pivot right in
      elim (leb right' left') [
        | true ↦ some (base, left')
        | false ↦ elim (is_zero (compar (base (start + left')) (base (start + right')))) [
          | true ↦ divide fuel pivot start nmemb base (suc left') right'
          | false ↦
              divide fuel pivot start nmemb (swapped base (start + left') (start + right')) left'
                right'
        ]
      ]

  -- `qsort` of the elements from `start` on. Each call takes one of its elements out, so their number is
  -- enough fuel for the depth of the calls; a loop has twice that.
  pub qsort : ℕ → (ℕ → A) → ℕ → ℕ → Option (ℕ → A)
  unfolding divide
  qsort zero base start nmemb = if leb nmemb 1 then some base else none
  qsort (suc fuel) base start nmemb = elim (leb nmemb 1) [
    | true ↦ some base
    | false ↦
        let pivot = base (start + (0 + (nmemb - 1)) / 2) in
        elim (divide (2 * nmemb) pivot start nmemb base 0 (nmemb - 1)) [
          | none ↦ none
          | some (divided, left) ↦ elim (qsort fuel divided start left) [
            | none ↦ none
            | some lower ↦ qsort fuel lower (start + left + 1) (nmemb - left - 1)
          ]
        ]
  ]
