-- ===== src/Libc/Sort/Sorted.antt =====
-- qsort sorts.
use mathlib.Core.Path.{subst}
use rhombus.Prelude.{
  ℕ, zero, suc, ◌+◌, ◌-◌, ◌*◌, ◌/◌, ◌≤◌, ◌<◌, ◌≡◌, inl, inr, refl, sym, ◌∙◌, true, false, Option,
  some, ◌==◌, ltb, leb, arith, Bool-cases, ==_iff,
}
use rhombus.Prelude.Int.{ℤ}
use rhombus.Libc.Sort.{divide, qsort}
use rhombus.Libc.Sort.Swaps.{Swaps, same, Swaps-Swaps, Swaps-part, Swaps-every, Swaps-outside}
use rhombus.Libc.Sort.Scan.{IsOrder, Before, Before-Before, Before-self}
use rhombus.Libc.Sort.Split.{Split, Divided}
use rhombus.Libc.Sort.Divide.{Gives, divide-Gives}

module _ {ℓ} {A : Type ℓ} (compar : A → A → ℤ) (order : IsOrder compar) where
  -- The elements of the range are in order.
  unfoldable pub Ascending : ℕ → ℕ → (ℕ → A) → Type 0
  Ascending start nmemb m =
      (i j : ℕ) → i < j → j < nmemb → Before compar order (m (start + i)) (m (start + j))

  -- Elements that are divided at `l`, and then sorted on both sides.
  record Both (start nmemb l : ℕ) (pivot : A) (m1 m2 m3 : ℕ → A) : Type ℓ where
    lower : (i : ℕ) → i < l → Before compar order (m3 (start + i)) pivot
    upper : (i : ℕ) → l < i → i < nmemb → Before compar order pivot (m3 (start + i))
    at_most : Before compar order (m3 (start + l)) pivot
    at_least : Before compar order pivot (m3 (start + l))
    lower_order : (i j : ℕ) → i < j → j < l → Before compar order (m3 (start + i)) (m3 (start + j))
    upper_order :
        (i j : ℕ)
        → l < i
        → i < j
        → j < nmemb
        → Before compar order (m3 (start + i)) (m3 (start + j))

  sorted-Both :
      (start nmemb l : ℕ) (pivot : A) (m m1 m2 m3 : ℕ → A)
      → Divided compar order start nmemb pivot m m1 l
      → Swaps start l m1 m2
      → Ascending start l m2
      → Swaps (start + l + 1) (nmemb - l - 1) m2 m3
      → Ascending (start + l + 1) (nmemb - l - 1) m3
      → Both start nmemb l pivot m1 m2 m3
  unfolding Ascending
  sorted-Both start nmemb l pivot m m1 m2 m3 d s a t b =
      let low : (i : ℕ) → i < l → m3 (start + i) ≡ m2 (start + i) = λ i c.
        Swaps-outside (start + l + 1) (nmemb - l - 1) m2 m3 (start + i) t (inl (omega arith)) in
      let middle : m3 (start + l) ≡ m1 (start + l) =
        Swaps-outside (start + l + 1) (nmemb - l - 1) m2 m3 (start + l) t (inl (omega arith))
        ∙ Swaps-outside start l m1 m2 (start + l) s (inr (omega arith)) in
      let shift : (i : ℕ) → l < i → start + l + 1 + (i - l - 1) ≡ start + i = λ i c. omega arith in
      let high : (i : ℕ) → i < nmemb - l - 1 → Before compar order pivot (m2 (start + l + 1 + i)) =
        λ i c.
          let place : start + l + 1 + i ≡ start + (l + 1 + i) = omega arith in
          subst (Before compar order pivot)
            (sym (Swaps-outside start l m1 m2 (start + l + 1 + i) s (inr (omega arith))))
            (subst (λ k. Before compar order pivot (m1 k)) (sym place)
              (d.upper (l + 1 + i) (omega arith) (omega arith))) in
      record {
        lower = λ i c.
            subst (λ x. Before compar order x pivot) (sym (low i c))
              (Swaps-every start l m1 m2 (λ x. Before compar order x pivot) s d.lower i c);
        upper = λ i c e.
            subst (λ k. Before compar order pivot (m3 k)) (shift i c)
              (Swaps-every (start + l + 1) (nmemb - l - 1) m2 m3 (Before compar order pivot) t high
                (i - l - 1) (omega arith));
        at_most = subst (λ x. Before compar order x pivot) (sym middle) d.at_most;
        at_least = subst (Before compar order pivot) (sym middle) d.at_least;
        lower_order = λ i j c e.
            subst (λ x. Before compar order x (m3 (start + j))) (sym (low i (omega arith)))
              (subst (Before compar order (m2 (start + i))) (sym (low j e)) (a i j c e));
        upper_order = λ i j c e f.
            subst (λ k. Before compar order (m3 k) (m3 (start + j))) (shift i c)
              (subst (λ k. Before compar order (m3 (start + l + 1 + (i - l - 1))) (m3 k))
                (shift j (omega arith)) (b (i - l - 1) (j - l - 1) (omega arith) (omega arith)));
      }

  Both-up_to :
      (start nmemb l : ℕ) (pivot : A) (m1 m2 m3 : ℕ → A)
      → Both start nmemb l pivot m1 m2 m3
      → (i : ℕ) → i ≤ l
      → Before compar order (m3 (start + i)) pivot
  Both-up_to start nmemb l pivot m1 m2 m3 h i b = elim (Bool-cases (i == l)) [
    | inl e ↦
        subst (λ i. Before compar order (m3 (start + i)) pivot) (sym ((==_iff i l).0 e)) h.at_most
    | inr e ↦ h.lower i (ground arith)
  ]

  Both-from :
      (start nmemb l : ℕ) (pivot : A) (m1 m2 m3 : ℕ → A)
      → Both start nmemb l pivot m1 m2 m3
      → (i : ℕ) → l ≤ i
      → i < nmemb
      → Before compar order pivot (m3 (start + i))
  Both-from start nmemb l pivot m1 m2 m3 h i b c = elim (Bool-cases (i == l)) [
    | inl e ↦
        subst (λ i. Before compar order pivot (m3 (start + i))) (sym ((==_iff i l).0 e)) h.at_least
    | inr e ↦ h.upper i (ground arith) c
  ]

  Both-Ascending :
      (start nmemb l : ℕ) (pivot : A) (m1 m2 m3 : ℕ → A)
      → Both start nmemb l pivot m1 m2 m3
      → Ascending start nmemb m3
  unfolding Ascending
  Both-Ascending start nmemb l pivot m1 m2 m3 h = λ i j c d. elim (Bool-cases (ltb j l)) [
    | inl e ↦ h.lower_order i j c (ground arith)
    | inr e ↦ elim (Bool-cases (ltb l i)) [
      | inl f ↦ h.upper_order i j (ground arith) c d
      | inr f ↦
          Before-Before compar order _ _ _
            (Both-up_to start nmemb l pivot m1 m2 m3 h i (ground arith))
            (Both-from start nmemb l pivot m1 m2 m3 h j (ground arith) d)
    ]
  ]

  -- A sorted array, of the elements that the range had.
  unfoldable pub Sorts : ℕ → ℕ → (ℕ → A) → Option (ℕ → A) → Type ℓ
  Sorts start nmemb base o =
      (m : ℕ → A) × (o ≡ some m) × Swaps start nmemb base m × Ascending start nmemb m

  few_left : (start nmemb : ℕ) (base : ℕ → A) → nmemb ≤ 1 → Ascending start nmemb base
  unfolding Ascending
  few_left start nmemb base b = λ i j c d. absurd (omega arith)

  qsort_few :
      (fuel start nmemb : ℕ) (base : ℕ → A)
      → leb nmemb 1 ≡ true
      → qsort compar fuel base start nmemb ≡ some base
  unfolding qsort
  qsort_few zero start nmemb base h = rw h refl
  qsort_few (suc fuel) start nmemb base h = rw (qsort, h) refl

  qsort_step :
      (fuel start nmemb l : ℕ) (base m1 m2 : ℕ → A)
      → leb nmemb 1 ≡ false
      → divide compar
          (2 * nmemb)
          (base (start + (0 + (nmemb - 1)) / 2))
          start
          nmemb
          base
          0
          (nmemb - 1)
        ≡ some (m1, l)
      → qsort compar fuel m1 start l ≡ some m2
      → qsort compar (suc fuel) base start nmemb
        ≡ qsort compar fuel m2 (start + l + 1) (nmemb - l - 1)
  unfolding qsort
  qsort_step fuel start nmemb l base m1 m2 h e f = rw (qsort, h, e, f) refl

  pub first-Split :
      (start nmemb : ℕ) (base : ℕ → A)
      → 1 < nmemb
      → Split compar order start nmemb
          (base (start + (0 + (nmemb - 1)) / 2))
          base
          0
          (nmemb - 1)
          ((0 + (nmemb - 1)) / 2)
  first-Split start nmemb base b =
      let self = Before-self compar order (base (start + (0 + (nmemb - 1)) / 2)) in
      record {
        before = omega arith;
        behind = omega arith;
        inside = omega arith;
        lower = λ i c. absurd (omega arith);
        upper = λ i c d. absurd (omega arith);
        at_most = self;
        at_least = self;
      }

  -- qsort of elements that compar orders returns, and its calls of itself are nested no deeper than there are
  -- elements. Then the elements are in order, and the array comes from the one before by swaps of elements in
  -- the range.
  pub qsort-Sorts :
      (fuel start nmemb : ℕ) (base : ℕ → A)
      → nmemb ≤ fuel
      → Sorts start nmemb base (qsort compar fuel base start nmemb)
  unfolding Sorts Gives
  qsort-Sorts zero start nmemb base b = (
    base,
    qsort_few 0 start nmemb base (ground arith),
    same,
    few_left start nmemb base (omega arith),
  )
  qsort-Sorts (suc fuel) start nmemb base b = elim (Bool-cases (leb nmemb 1)) [
    | inl h ↦ (
      base,
      qsort_few (suc fuel) start nmemb base h,
      same,
      few_left start nmemb base (ground arith),
    )
    | inr h ↦
        let pivot = base (start + (0 + (nmemb - 1)) / 2) in
        let (m1, l, e, d) =
          divide-Gives compar order start nmemb pivot (2 * nmemb) base 0 (nmemb - 1)
            ((0 + (nmemb - 1)) / 2) (first-Split start nmemb base (ground arith))
            (inl (ground arith)) in
        let (m2, f, s, a) = qsort-Sorts fuel start l m1 (omega (arith, d.inside)) in
        let (m3, g, t, c) =
          qsort-Sorts fuel (start + l + 1) (nmemb - l - 1) m2 (omega (arith, d.inside)) in
        (
          m3,
          qsort_step fuel start nmemb l base m1 m2 h e f ∙ g,
          Swaps-Swaps start nmemb base m2 m3
              (Swaps-Swaps start nmemb base m1 m2 d.swaps
                (Swaps-part start nmemb 0 l start m1 m2 (omega arith) (omega (arith, d.inside)) s))
              (Swaps-part start nmemb (l + 1) (nmemb - l - 1) (start + l + 1) m2 m3 (omega arith)
                (omega (arith, d.inside)) t),
          Both-Ascending start nmemb l pivot m1 m2 m3
              (sorted-Both start nmemb l pivot base m1 m2 m3 d s a t c),
        )
  ]
