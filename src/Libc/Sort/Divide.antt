-- ===== src/Libc/Sort/Divide.antt =====
-- The loop of qsort that divides the elements by a pivot.
use mathlib.Core.Path.{subst}
use rhombus.Prelude.{
  ℕ, zero, suc, ◌+◌, ◌-◌, ◌*◌, ◌≤◌, ◌<◌, ◌≡◌, ◌⊎◌, inl, inr, refl, ap, sym, ◌∙◌, true, false,
  Option, some, leb, arith, Bool-cases,
}
use rhombus.Prelude.Int.{ℤ, is_negative, is_positive, is_zero}
use rhombus.Libc.Sort.{scan_left, scan_right, swapped, divide}
use rhombus.Libc.Sort.Swaps.{same, after, Swaps-Swaps, swapped_left, swapped_right}
use rhombus.Libc.Sort.Scan.{
  IsOrder, Before, Before-Before, not_less-Before, not_greater-Before, Before-equal, apart, is_less,
  is_greater, LeftEnd, RightEnd, scan_left-LeftEnd, scan_right-RightEnd, Before-not_less,
  Before-not_greater,
}
use rhombus.Libc.Sort.Split.{Split, Divided, scanned-Split, skipped-Split, swapped-Split}

module _ {ℓ} {A : Type ℓ} (compar : A → A → ℤ) (order : IsOrder compar) (start nmemb : ℕ)
    (pivot : A) where
  abbrev left_of : (ℕ → A) → ℕ → ℕ
  left_of m left = scan_left compar m start pivot (nmemb - left) left

  abbrev right_of : (ℕ → A) → ℕ → ℕ
  right_of m right = scan_right compar m start pivot right

  divide_ends :
      (fuel : ℕ) (m : ℕ → A) (left right : ℕ)
      → leb (right_of m right) (left_of m left) ≡ true
      → divide compar (suc fuel) pivot start nmemb m left right ≡ some (m, left_of m left)
  unfolding divide
  divide_ends fuel m left right h = rw (divide, h) refl

  divide_skips :
      (fuel : ℕ) (m : ℕ → A) (left right : ℕ)
      → (let l = left_of m left in
          let r = right_of m right in
          leb r l ≡ false
          → is_zero (compar (m (start + l)) (m (start + r))) ≡ true
          → divide compar (suc fuel) pivot start nmemb m left right
            ≡ divide compar fuel pivot start nmemb m (suc l) r)
  unfolding divide
  divide_skips fuel m left right h g = rw (divide, h, g) refl

  divide_swaps :
      (fuel : ℕ) (m : ℕ → A) (left right : ℕ)
      → (let l = left_of m left in
          let r = right_of m right in
          leb r l ≡ false
          → is_zero (compar (m (start + l)) (m (start + r))) ≡ false
          → divide compar (suc fuel) pivot start nmemb m left right
            ≡ divide compar fuel pivot start nmemb (swapped m (start + l) (start + r)) l r)
  unfolding divide
  divide_swaps fuel m left right h g = rw (divide, h, g) refl

  -- What the loop gives.
  unfoldable pub Gives : (ℕ → A) → Option ((ℕ → A) × ℕ) → Type ℓ
  Gives m o =
      (m' : ℕ → A) × (l : ℕ) × (o ≡ some (m', l)) × Divided compar order start nmemb pivot m m' l

  Gives-later : (m : ℕ → A) (o o' : Option ((ℕ → A) × ℕ)) → o ≡ o' → Gives m o' → Gives m o
  unfolding Gives
  Gives-later m o o' e (m', l, f, d) = (m', l, e ∙ f, d)

  -- The loop needs two rounds for each element between its bounds, and one less if a bound moves.
  abbrev pub Enough : ℕ → (ℕ → A) → ℕ → ℕ → Type 0
  Enough fuel m left right =
      (2 * (right - left) + 1 < fuel)
      ⊎ ((2 * (right - left) < fuel)
          × ((is_less compar m start pivot left ≡ true)
              ⊎ (is_greater compar m start pivot right ≡ true)))

  -- Of two elements that are not equal, one is not equal to the pivot.
  moves :
      (m : ℕ → A) (l r : ℕ)
      → is_zero (compar (m (start + l)) (m (start + r))) ≡ false
      → Before compar order pivot (m (start + l))
      → Before compar order (m (start + r)) pivot
      → (is_negative (compar (m (start + r)) pivot) ≡ true)
        ⊎ (is_positive (compar (m (start + l)) pivot) ≡ true)
  moves m l r e c d = elim (Bool-cases (is_negative (compar (m (start + r)) pivot))) [
    | inl h ↦ inl h
    | inr h ↦ elim (Bool-cases (is_positive (compar (m (start + l)) pivot))) [
      | inl k ↦ inr k
      | inr k ↦
          let to_right =
            Before-Before compar order _ _ _ (not_greater-Before compar order _ _ k)
              (not_less-Before compar order _ _ h) in
          let to_left = Before-Before compar order _ _ _ d c in
          let clash : true ≡ false = sym (Before-equal compar order _ _ to_right to_left) ∙ e in
          absurd (ground arith)
    ]
  ]

  -- After a swap one of the bounds moves.
  swapped-moves :
      (m : ℕ → A) (l r : ℕ)
      → l < r
      → is_zero (compar (m (start + l)) (m (start + r))) ≡ false
      → Before compar order pivot (m (start + l))
      → Before compar order (m (start + r)) pivot
      → (let m' = swapped m (start + l) (start + r) in
          (is_less compar m' start pivot l ≡ true) ⊎ (is_greater compar m' start pivot r ≡ true))
  swapped-moves m l r b e c d =
      let to_left = swapped_left m (start + l) (start + r) (start + l) (ground arith) in
      let to_right =
        swapped_right m (start + l) (start + r) (start + r) (ground arith) (ground arith) in
      elim (moves m l r e c d) [
        | inl h ↦ inl (ap (λ x. is_negative (compar x pivot)) to_left ∙ h)
        | inr h ↦ inr (ap (λ x. is_positive (compar x pivot)) to_right ∙ h)
      ]

  -- The fuel that is left when a round has not ended the loop.
  next-Enough :
      (fuel : ℕ) (m : ℕ → A) (left right l r : ℕ)
      → Enough (suc fuel) m left right
      → left ≤ l
      → r ≤ right
      → l < r
      → is_less compar m start pivot l ≡ false
      → is_greater compar m start pivot r ≡ false
      → (2 * (r - suc l) + 1 < fuel) × (2 * (r - l) < fuel)
  next-Enough fuel m left right l r (inl f) a b c g h = (omega arith, omega arith)
  next-Enough fuel m left right l r (inr (f, inl moved)) a b c g h =
      let other = apart (is_less compar m start pivot) left l moved g in (omega arith, ground arith)
  next-Enough fuel m left right l r (inr (f, inr moved)) a b c g h =
      let other = apart (is_greater compar m start pivot) right r moved h in
      (omega arith, ground arith)

  ended-Divided :
      (m : ℕ → A) (l r k : ℕ)
      → Split compar order start nmemb pivot m l r k
      → r ≤ l
      → Divided compar order start nmemb pivot m m l
  ended-Divided m l r k s b =
      let e : k ≡ l = omega (arith, s.before, s.behind) in
      record {
        inside = omega (arith, s.before, s.behind, s.inside);
        swaps = same;
        lower = s.lower;
        upper = λ i c d. s.upper i (omega arith) d;
        at_most = subst (λ i. Before compar order (m (start + i)) pivot) e s.at_most;
        at_least = subst (λ i. Before compar order pivot (m (start + i))) e s.at_least;
      }

  swapped-Divided :
      (m m' : ℕ → A) (l r left : ℕ)
      → l < nmemb
      → r < nmemb
      → Divided compar order start nmemb pivot (swapped m (start + l) (start + r)) m' left
      → Divided compar order start nmemb pivot m m' left
  swapped-Divided m m' l r left b c d = record {
    inside = d.inside;
    swaps =
        Swaps-Swaps start nmemb m (swapped m (start + l) (start + r)) m' (after m l r b c same)
          d.swaps;
    lower = d.lower;
    upper = d.upper;
    at_most = d.at_most;
    at_least = d.at_least;
  }

  -- The loop ends, with the elements divided.
  pub divide-Gives :
      (fuel : ℕ) (m : ℕ → A) (left right k : ℕ)
      → Split compar order start nmemb pivot m left right k
      → Enough fuel m left right
      → Gives m (divide compar fuel pivot start nmemb m left right)
  unfolding Gives LeftEnd RightEnd
  divide-Gives zero m left right k s (inl f) = absurd (omega arith)
  divide-Gives zero m left right k s (inr (f, g)) = absurd (omega arith)
  divide-Gives (suc fuel) m left right k s f =
      let l = left_of m left in
      let r = right_of m right in
      let left_end =
        scan_left-LeftEnd compar m start pivot (nmemb - left) left k s.before
          (omega (arith, s.inside, s.behind, s.before))
          (Before-not_less compar order _ _ s.at_least) in
      let right_end =
        scan_right-RightEnd compar m start pivot right k s.behind
          (Before-not_greater compar order _ _ s.at_most) in
      let scanned =
        scanned-Split compar order start nmemb pivot m left right k l r s left_end right_end in
      let (a, to_l, less, not_less) = left_end in
      let (to_r, b, greater, not_greater) = right_end in
      let from_left = not_less-Before compar order (m (start + l)) pivot not_less in
      let from_right = not_greater-Before compar order (m (start + r)) pivot not_greater in
      elim (Bool-cases (leb r l)) [
        | inl h ↦
            (m, l, divide_ends fuel m left right h, ended-Divided m l r k scanned (ground arith))
        | inr h ↦
            let apart_bounds : l < r = ground arith in
            let (skip_fuel, swap_fuel) =
              next-Enough fuel m left right l r f a b apart_bounds not_less not_greater in
            elim (Bool-cases (is_zero (compar (m (start + l)) (m (start + r))))) [
              | inl z ↦ Gives-later m _ _ (divide_skips fuel m left right h z) (
                  divide-Gives fuel m (suc l) r r
                    (skipped-Split compar order start nmemb pivot m l r k scanned apart_bounds z
                      from_left from_right)
                    (inl skip_fuel))
              | inr z ↦
                  let (k', s') = swapped-Split compar order start nmemb pivot m l r k scanned in
                  let (m', left', e, d) =
                    divide-Gives fuel (swapped m (start + l) (start + r)) l r k' s'
                      (inr (swap_fuel, swapped-moves m l r apart_bounds z from_left from_right)) in
                  (
                    m',
                    left',
                    divide_swaps fuel m left right h z ∙ e,
                    swapped-Divided m m' l r left' (omega (arith, scanned.inside)) scanned.inside d,
                  )
            ]
      ]
