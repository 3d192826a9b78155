-- ===== src/Libc/Sort/Scan.antt =====
-- The order of a comparison, and the two scans of the loop of qsort.
use mathlib.Core.Path.{subst}
use rhombus.Prelude.{
  ℕ, zero, suc, ◌+◌, ◌≤◌, ◌<◌, ◌≡◌, inl, inr, refl, ap, sym, ◌∙◌, Bool, true, false, ◌==◌, arith,
  Bool-cases, ==_iff,
}
use rhombus.Prelude.Int.{ℤ, pos, negsuc, is_negative, is_positive, is_zero}
use rhombus.Libc.Sort.{scan_left, scan_right}

-- The C standard, 7.22.5: what compar has to do, to define a total order of classes of equal elements.
pub record IsOrder {ℓ} {A : Type ℓ} (compar : A → A → ℤ) : Type ℓ where
  pub opposite : (a b : A) → is_negative (compar a b) ≡ is_positive (compar b a)
  pub between :
      (a b c : A)
      → is_positive (compar a b) ≡ false
      → is_positive (compar b c) ≡ false
      → is_positive (compar a c) ≡ false

negative_positive : (z : ℤ) → is_negative z ≡ true → is_positive z ≡ false
negative_positive (negsuc n) h = refl
negative_positive (pos n) h = ground arith

zero_positive : (z : ℤ) → is_zero z ≡ true → (is_positive z ≡ false) × (is_negative z ≡ false)
zero_positive (negsuc n) h = ground arith
zero_positive (pos zero) h = (refl, refl)
zero_positive (pos (suc n)) h = ground arith

zero_between : (z : ℤ) → is_positive z ≡ false → is_negative z ≡ false → is_zero z ≡ true
zero_between (negsuc n) h k = ground arith
zero_between (pos zero) h k = refl
zero_between (pos (suc n)) h k = ground arith

module _ {ℓ} {A : Type ℓ} (compar : A → A → ℤ) (order : IsOrder compar) where
  -- `a` may stand before `b`.
  unfoldable pub Before : A → A → Type 0
  Before a b = is_positive (compar a b) ≡ false

  pub Before-self : (x : A) → Before x x
  unfolding Before
  Before-self x = elim (Bool-cases (is_positive (compar x x))) [
    | inl h ↦ negative_positive (compar x x) (order.opposite x x ∙ h)
    | inr h ↦ h
  ]

  pub Before-Before : (a b c : A) → Before a b → Before b c → Before a c
  unfolding Before
  Before-Before a b c = order.between a b c

  pub less-Before : (a b : A) → is_negative (compar a b) ≡ true → Before a b
  unfolding Before
  less-Before a b = negative_positive (compar a b)

  pub not_less-Before : (a b : A) → is_negative (compar a b) ≡ false → Before b a
  unfolding Before
  not_less-Before a b h = sym (order.opposite a b) ∙ h

  pub not_greater-Before : (a b : A) → is_positive (compar a b) ≡ false → Before a b
  unfolding Before
  not_greater-Before a b h = h

  pub greater-Before : (a b : A) → is_positive (compar a b) ≡ true → Before b a
  unfolding Before
  greater-Before a b h = less-Before b a (order.opposite b a ∙ h)

  pub Before-not_less : (a b : A) → Before b a → is_negative (compar a b) ≡ false
  unfolding Before
  Before-not_less a b h = order.opposite a b ∙ h

  pub Before-not_greater : (a b : A) → Before a b → is_positive (compar a b) ≡ false
  unfolding Before
  Before-not_greater a b h = h

  pub equal-Before : (a b : A) → is_zero (compar a b) ≡ true → Before a b × Before b a
  unfolding Before
  equal-Before a b h =
      let (positive, negative) = zero_positive (compar a b) h in
      (positive, not_less-Before a b negative)

  pub Before-equal : (a b : A) → Before a b → Before b a → is_zero (compar a b) ≡ true
  unfolding Before
  Before-equal a b h k = zero_between (compar a b) h (Before-not_less a b k)

-- Two places that a test tells apart.
pub apart : (test : ℕ → Bool) (i j : ℕ) → test i ≡ true → test j ≡ false → (i == j) ≡ false
apart test i j h k = elim (Bool-cases (i == j)) [
  | inl e ↦
      let clash : true ≡ false = sym h ∙ (ap test ((==_iff i j).0 e) ∙ k) in absurd (ground arith)
  | inr e ↦ e
]

-- A range that a test holds in, with one more place.
more_left :
    (test : ℕ → Bool) (left bound : ℕ)
    → test left ≡ true
    → ((i : ℕ) → suc left ≤ i → i < bound → test i ≡ true)
    → (i : ℕ) → left ≤ i
    → i < bound
    → test i ≡ true
more_left test left bound h every i a b = elim (Bool-cases (left == i)) [
  | inl e ↦ ap test (sym ((==_iff left i).0 e)) ∙ h
  | inr e ↦ every i (ground arith) b
]

more_right :
    (test : ℕ → Bool) (bound right : ℕ)
    → test (suc right) ≡ true
    → ((i : ℕ) → bound < i → i ≤ right → test i ≡ true)
    → (i : ℕ) → bound < i
    → i ≤ suc right
    → test i ≡ true
more_right test bound right h every i a b = elim (Bool-cases (i == suc right)) [
  | inl e ↦ ap test ((==_iff i (suc right)).0 e) ∙ h
  | inr e ↦ every i a (ground arith)
]

module _ {ℓ} {A : Type ℓ} (compar : A → A → ℤ) (base : ℕ → A) (start : ℕ) (pivot : A) where
  abbrev pub is_less : ℕ → Bool
  is_less i = is_negative (compar (base (start + i)) pivot)

  abbrev pub is_greater : ℕ → Bool
  is_greater i = is_positive (compar (base (start + i)) pivot)

  scan_left_on :
      (rest left : ℕ)
      → is_less left ≡ true
      → scan_left compar base start pivot (suc rest) left
        ≡ scan_left compar base start pivot rest (suc left)
  unfolding scan_left
  scan_left_on rest left e = rw e refl

  scan_left_stop :
      (rest left : ℕ)
      → is_less left ≡ false
      → scan_left compar base start pivot (suc rest) left ≡ left
  unfolding scan_left
  scan_left_stop rest left e = rw e refl

  scan_right_on :
      (right : ℕ)
      → is_greater (suc right) ≡ true
      → scan_right compar base start pivot (suc right) ≡ scan_right compar base start pivot right
  unfolding scan_right
  scan_right_on right e = rw e refl

  scan_right_stop :
      (right : ℕ)
      → is_greater (suc right) ≡ false
      → scan_right compar base start pivot (suc right) ≡ suc right
  unfolding scan_right
  scan_right_stop right e = rw e refl

  scan_right_zero : scan_right compar base start pivot 0 ≡ 0
  unfolding scan_right
  scan_right_zero = refl

  -- Where the scan from the left ends, before an element `k` that is not less than the pivot.
  unfoldable pub LeftEnd : ℕ → ℕ → ℕ → Type 0
  LeftEnd left k l =
      (left ≤ l) × (l ≤ k) × ((i : ℕ) → left ≤ i → i < l → is_less i ≡ true) × (is_less l ≡ false)

  unfoldable pub RightEnd : ℕ → ℕ → ℕ → Type 0
  RightEnd right k r =
      (k ≤ r)
      × (r ≤ right)
      × ((i : ℕ) → r < i → i ≤ right → is_greater i ≡ true)
      × (is_greater r ≡ false)

  pub scan_left-LeftEnd :
      (rest left k : ℕ)
      → left ≤ k
      → k < left + rest
      → is_less k ≡ false
      → LeftEnd left k (scan_left compar base start pivot rest left)
  unfolding LeftEnd
  scan_left-LeftEnd zero left k a b h = absurd (omega arith)
  scan_left-LeftEnd (suc rest) left k a b h = elim (Bool-cases (is_less left)) [
    | inr e ↦
        subst (LeftEnd left k) (sym (scan_left_stop rest left e))
          (omega arith, a, λ i c d. absurd (omega arith), e)
    | inl e ↦
        let l = scan_left compar base start pivot rest (suc left) in
        let other = apart is_less left k e h in
        let (c, d, every, g) = scan_left-LeftEnd rest (suc left) k (ground arith) (omega arith) h in
        subst (LeftEnd left k) (sym (scan_left_on rest left e))
          (omega arith, d, more_left is_less left l e every, g)
  ]

  pub scan_right-RightEnd :
      (right k : ℕ)
      → k ≤ right
      → is_greater k ≡ false
      → RightEnd right k (scan_right compar base start pivot right)
  unfolding RightEnd
  scan_right-RightEnd zero k a h =
      let e : k ≡ 0 = omega arith in
      subst (RightEnd 0 k) (sym scan_right_zero)
        (a, omega arith, λ i c d. absurd (omega arith), ap is_greater (sym e) ∙ h)
  scan_right-RightEnd (suc right) k a h = elim (Bool-cases (is_greater (suc right))) [
    | inr e ↦
        subst (RightEnd (suc right) k) (sym (scan_right_stop right e))
          (a, omega arith, λ i c d. absurd (omega arith), e)
    | inl e ↦
        let r = scan_right compar base start pivot right in
        let other = apart is_greater (suc right) k e h in
        let (c, d, every, g) = scan_right-RightEnd right k (ground arith) h in
        subst (RightEnd (suc right) k) (sym (scan_right_on right e))
          (c, omega arith, more_right is_greater r right e every, g)
  ]
