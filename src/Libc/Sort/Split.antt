-- ===== src/Libc/Sort/Split.antt =====
-- What holds of the elements in the loop of qsort that divides them.
use mathlib.Core.Path.{subst}
use rhombus.Prelude.{
  ℕ, suc, ◌+◌, ◌≤◌, ◌<◌, ◌≡◌, inl, inr, ap, sym, ◌∙◌, true, ◌==◌, ltb, arith, Bool-cases, ==_iff,
}
use rhombus.Prelude.Int.{ℤ, is_zero}
use rhombus.Libc.Sort.{swapped}
use rhombus.Libc.Sort.Swaps.{Swaps, swapped_left, swapped_right, swapped_other}
use rhombus.Libc.Sort.Scan.{
  IsOrder, Before, Before-Before, less-Before, greater-Before, equal-Before, LeftEnd, RightEnd,
}

module _ {ℓ} {A : Type ℓ} (compar : A → A → ℤ) (order : IsOrder compar) (start nmemb : ℕ)
    (pivot : A) where
  -- What holds before each round: `k` is equal to the pivot, and outside of `left` and `right` the elements
  -- are where they belong.
  pub record Split (m : ℕ → A) (left right k : ℕ) : Type ℓ where
    pub before : left ≤ k
    pub behind : k ≤ right
    pub inside : right < nmemb
    pub lower : (i : ℕ) → i < left → Before compar order (m (start + i)) pivot
    pub upper : (i : ℕ) → right < i → i < nmemb → Before compar order pivot (m (start + i))
    pub at_most : Before compar order (m (start + k)) pivot
    pub at_least : Before compar order pivot (m (start + k))

  -- Elements divided at `left`, where one is equal to the pivot.
  pub record Divided (m m' : ℕ → A) (left : ℕ) : Type ℓ where
    pub inside : left < nmemb
    pub swaps : Swaps start nmemb m m'
    pub lower : (i : ℕ) → i < left → Before compar order (m' (start + i)) pivot
    pub upper : (i : ℕ) → left < i → i < nmemb → Before compar order pivot (m' (start + i))
    pub at_most : Before compar order (m' (start + left)) pivot
    pub at_least : Before compar order pivot (m' (start + left))

  -- The bounds after the two scans.
  pub scanned-Split :
      (m : ℕ → A) (left right k l r : ℕ)
      → Split m left right k
      → LeftEnd compar m start pivot left k l
      → RightEnd compar m start pivot right k r
      → Split m l r k
  unfolding LeftEnd RightEnd
  scanned-Split m left right k l r s (a, b, every, g) (a', b', every', g') = record {
    before = b;
    behind = a';
    inside = omega (arith, s.inside);
    lower = λ i c. elim (Bool-cases (ltb i left)) [
      | inl h ↦ s.lower i (ground arith)
      | inr h ↦ less-Before compar order (m (start + i)) pivot (every i (ground arith) c)
    ];
    upper = λ i c d. elim (Bool-cases (ltb right i)) [
      | inl h ↦ s.upper i (ground arith) d
      | inr h ↦ greater-Before compar order (m (start + i)) pivot (every' i c (ground arith))
    ];
    at_most = s.at_most;
    at_least = s.at_least;
  }

  -- A round that skips an element.
  pub skipped-Split :
      (m : ℕ → A) (l r k : ℕ)
      → Split m l r k
      → l < r
      → is_zero (compar (m (start + l)) (m (start + r))) ≡ true
      → Before compar order pivot (m (start + l))
      → Before compar order (m (start + r)) pivot
      → Split m (suc l) r r
  skipped-Split m l r k s b e from_left from_right =
      let (to_right, to_left) = equal-Before compar order (m (start + l)) (m (start + r)) e in
      let at_left = Before-Before compar order _ _ _ to_right from_right in
      record {
        before = b;
        behind = omega arith;
        inside = s.inside;
        lower = λ i c. elim (Bool-cases (i == l)) [
          | inl h ↦
              subst (λ i. Before compar order (m (start + i)) pivot) (sym ((==_iff i l).0 h))
                at_left
          | inr h ↦ s.lower i (ground arith)
        ];
        upper = s.upper;
        at_most = from_right;
        at_least = Before-Before compar order _ _ _ from_left to_right;
      }

  -- Where an element goes when two are swapped.
  moved :
      (m : ℕ → A) (l r k : ℕ)
      → l ≤ k
      → k ≤ r
      → (k' : ℕ) × (l ≤ k')
        × (k' ≤ r)
        × (swapped m (start + l) (start + r) (start + k') ≡ m (start + k))
  moved m l r k a b = elim (Bool-cases (k == l)) [
    | inl e ↦ elim (Bool-cases (r == l)) [
      | inl f ↦ (
        l,
        omega arith,
        omega arith,
        swapped_left m (start + l) (start + r) (start + l) (ground arith)
            ∙ ap (λ i. m (start + i)) (ground arith),
      )
      | inr f ↦ (
        r,
        omega arith,
        omega arith,
        swapped_right m (start + l) (start + r) (start + r) (ground arith) (ground arith)
            ∙ ap (λ i. m (start + i)) (ground arith),
      )
    ]
    | inr e ↦ elim (Bool-cases (k == r)) [
      | inl f ↦ (
        l,
        omega arith,
        omega arith,
        swapped_left m (start + l) (start + r) (start + l) (ground arith)
            ∙ ap (λ i. m (start + i)) (ground arith),
      )
      | inr f ↦ (
        k,
        a,
        b,
        swapped_other m (start + l) (start + r) (start + k) (ground arith) (ground arith),
      )
    ]
  ]

  -- A round that swaps.
  pub swapped-Split :
      (m : ℕ → A) (l r k : ℕ)
      → Split m l r k
      → (k' : ℕ) × Split (swapped m (start + l) (start + r)) l r k'
  swapped-Split m l r k s =
      let (k', a, b, e) = moved m l r k s.before s.behind in
      let m' = swapped m (start + l) (start + r) in
      (
        k',
        record {
          before = a;
          behind = b;
          inside = s.inside;
          lower = λ i c.
              subst (λ x. Before compar order x pivot)
                (sym (
                  swapped_other m (start + l) (start + r) (start + i) (ground arith)
                    (ground (arith, s.before, s.behind))))
                (s.lower i c);
          upper = λ i c d.
              subst (λ x. Before compar order pivot x)
                (sym (
                  swapped_other m (start + l) (start + r) (start + i)
                    (ground (arith, s.before, s.behind)) (ground arith)))
                (s.upper i c d);
          at_most = subst (λ x. Before compar order x pivot) (sym e) s.at_most;
          at_least = subst (λ x. Before compar order pivot x) (sym e) s.at_least;
        },
      )
