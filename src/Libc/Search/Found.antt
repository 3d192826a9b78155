-- ===== src/Libc/Search/Found.antt =====
-- bsearch finds a key that is in its array.
use rhombus.Prelude.{
  ℕ, zero, suc, ◌+◌, ◌^◌, ltb, Bool-cases, ◌≤◌, ◌<◌, ◌≡◌, ◌⊎◌, inl, inr, refl, ap, ◌∙◌, true,
  Option, some, arith,
}
use rhombus.Prelude.Int.{ℤ, pos, negsuc, is_negative, is_positive}
use rhombus.Libc.Search.{middle, search_loop, bsearch}

-- The C standard, 7.22.5.1: the elements that the key is greater than, equal to and less than, in that order.
pub record InOrder {ℓ} {A : Type ℓ} (cmp : A → A → ℤ) (key : A) (base : ℕ → A) (nmemb : ℕ)
    : Type 0 where
  pub less_after :
      (i j : ℕ)
      → i ≤ j
      → j < nmemb
      → is_negative (cmp key (base i)) ≡ true
      → is_negative (cmp key (base j)) ≡ true
  pub greater_before :
      (i j : ℕ)
      → i ≤ j
      → j < nmemb
      → is_positive (cmp key (base j)) ≡ true
      → is_positive (cmp key (base i)) ≡ true

sign-cases : (z : ℤ) → ((n : ℕ) × (z ≡ negsuc n)) ⊎ ((z ≡ pos 0) ⊎ ((n : ℕ) × (z ≡ pos (suc n))))
sign-cases (negsuc n) = inl (n, refl)
sign-cases (pos zero) = inr (inl refl)
sign-cases (pos (suc n)) = inr (inr (n, refl))

module _ {ℓ} {A : Type ℓ} (cmp : A → A → ℤ) (key : A) (base : ℕ → A) where
  search_loop_step :
      (fuel lower upper : ℕ) (z : ℤ)
      → cmp key (base (middle lower upper)) ≡ z
      → search_loop cmp key base (suc fuel) lower upper ≡ elim z [
        | negsuc n ↦ search_loop cmp key base fuel lower (middle lower upper)
        | pos n ↦ elim n [
          | zero ↦ some (middle lower upper)
          | suc m ↦ search_loop cmp key base fuel (1 + middle lower upper) upper
        ]
      ]
  unfolding search_loop
  search_loop_step fuel lower upper z e =
      ap
        (λ z. elim z [
          | negsuc n ↦ search_loop cmp key base fuel lower (middle lower upper)
          | pos n ↦ elim n [
            | zero ↦ some (middle lower upper)
            | suc m ↦ search_loop cmp key base fuel (1 + middle lower upper) upper
          ]
        ])
        e

  -- What the loop finds between its bounds.
  pub Found : ℕ → Option ℕ → Type 0
  Found nmemb o = (i : ℕ) × (i < nmemb) × (o ≡ some i) × (cmp key (base i) ≡ pos 0)

  Found-later : (nmemb : ℕ) (o o' : Option ℕ) → o ≡ o' → Found nmemb o' → Found nmemb o
  unfolding Found
  Found-later nmemb o o' e (i, b, f, h) = (i, b, e ∙ f, h)

  no_less : (i : ℕ) → cmp key (base i) ≡ pos 0 → is_negative (cmp key (base i)) ≡ true → ⊥
  no_less i e h = grind arith

  no_greater : (i : ℕ) → cmp key (base i) ≡ pos 0 → is_positive (cmp key (base i)) ≡ true → ⊥
  no_greater i e h = grind arith

  key_before :
      (nmemb k i m : ℕ)
      → InOrder cmp key base nmemb
      → k < nmemb
      → cmp key (base k) ≡ pos 0
      → cmp key (base i) ≡ negsuc m
      → k < i
  key_before nmemb k i m o b e f = elim (Bool-cases (ltb k i)) [
    | inl h ↦ ground arith
    | inr h ↦ absurd (no_less k e (o.less_after i k (ground arith) b (ap is_negative f)))
  ]

  key_behind :
      (nmemb k i m : ℕ)
      → InOrder cmp key base nmemb
      → i < nmemb
      → cmp key (base k) ≡ pos 0
      → cmp key (base i) ≡ pos (suc m)
      → i < k
  key_behind nmemb k i m o b e f = elim (Bool-cases (ltb i k)) [
    | inl h ↦ ground arith
    | inr h ↦ absurd (no_greater k e (o.greater_before k i (ground arith) b (ap is_positive f)))
  ]

  search_loop-Found :
      (nmemb k fuel lower upper : ℕ)
      → nmemb ≤ 2 ^ 31
      → InOrder cmp key base nmemb
      → cmp key (base k) ≡ pos 0
      → lower ≤ k
      → k < upper
      → upper ≤ nmemb
      → upper < lower + fuel
      → Found nmemb (search_loop cmp key base fuel lower upper)
  unfolding Found
  search_loop-Found nmemb k zero lower upper n o e a b c d = absurd (omega arith)
  search_loop-Found nmemb k (suc fuel) lower upper n o e a b c d =
      let mid = middle lower upper in
      elim (sign-cases (cmp key (base mid))) [
        | inl (m, f) ↦ Found-later nmemb _ _ (search_loop_step fuel lower upper (negsuc m) f) (
            search_loop-Found nmemb k fuel lower mid n o e a
              (key_before nmemb k mid m o (omega arith) e f) (omega arith) (omega arith))
        | inr (inl f) ↦ (mid, omega arith, search_loop_step fuel lower upper (pos 0) f, f)
        | inr (inr (m, f)) ↦
            Found-later nmemb _ _ (search_loop_step fuel lower upper (pos (suc m)) f) (
              search_loop-Found nmemb k fuel (1 + mid) upper n o e
                (omega (arith, key_behind nmemb k mid m o (omega arith) e f)) b c (omega arith))
      ]

  -- On an array of at most 2 ^ 31 elements that are in order for the key, where one of them is equal
  -- to it, bsearch returns after at most one round more than there are elements, and returns one
  -- that is equal to the key.
  pub bsearch-Found :
      (nmemb k : ℕ)
      → nmemb ≤ 2 ^ 31
      → InOrder cmp key base nmemb
      → k < nmemb
      → cmp key (base k) ≡ pos 0
      → Found nmemb (bsearch (suc nmemb) key base nmemb cmp)
  unfolding bsearch
  bsearch-Found nmemb k n o b e =
      search_loop-Found nmemb k (suc nmemb) 0 nmemb n o e (omega arith) b (omega arith)
        (omega arith)
