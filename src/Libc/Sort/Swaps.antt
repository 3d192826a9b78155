-- ===== src/Libc/Sort/Swaps.antt =====
-- Arrays that come from each other by swaps of elements in a range.
use mathlib.Core.Path.{subst}
use rhombus.Prelude.{
  ℕ, ◌+◌, ◌≤◌, ◌<◌, ◌≡◌, ◌⊎◌, inl, inr, refl, sym, ◌∙◌, true, false, ◌==◌, arith, Bool-cases,
}
use rhombus.Libc.Sort.{swapped, copied}

-- The array comes from `base` by swaps of two of the `nmemb` elements from `start` on.
pub data Swaps {ℓ} {A : Type ℓ} (start nmemb : ℕ) (base : ℕ → A) : (ℕ → A) → Type ℓ where
  same : Swaps start nmemb base base
  after :
      (m : ℕ → A) (i j : ℕ)
      → i < nmemb
      → j < nmemb
      → Swaps start nmemb base m
      → Swaps start nmemb base (swapped m (start + i) (start + j))

module _ {ℓ} {A : Type ℓ} where
  pub swapped_left : (m : ℕ → A) (i j k : ℕ) → (k == i) ≡ true → swapped m i j k ≡ m j
  unfolding swapped copied
  swapped_left m i j k e = rw e refl

  pub swapped_right :
      (m : ℕ → A) (i j k : ℕ) → (k == i) ≡ false → (k == j) ≡ true → swapped m i j k ≡ m i
  unfolding swapped copied
  swapped_right m i j k e f = rw (e, f) refl

  pub swapped_other :
      (m : ℕ → A) (i j k : ℕ) → (k == i) ≡ false → (k == j) ≡ false → swapped m i j k ≡ m k
  unfolding swapped copied
  swapped_other m i j k e f = rw (e, f) refl

  pub Swaps-Swaps :
      (start nmemb : ℕ) (m m' m'' : ℕ → A)
      → Swaps start nmemb m m'
      → Swaps start nmemb m' m''
      → Swaps start nmemb m m''
  Swaps-Swaps start nmemb m m' m'' s same = s
  Swaps-Swaps start nmemb m m' m'' s (after m1 i j h k t) =
      after m1 i j h k (Swaps-Swaps start nmemb m m' m1 s t)

  -- Swaps in a part of the range.
  pub Swaps-part :
      (start nmemb from part place : ℕ) (m m' : ℕ → A)
      → place ≡ start + from
      → from + part ≤ nmemb
      → Swaps place part m m'
      → Swaps start nmemb m m'
  Swaps-part start nmemb from part place m m' e b same = same
  Swaps-part start nmemb from part place m m' e b (after m1 i j h k t) =
      let left : place + i ≡ start + (from + i) = omega arith in
      let right : place + j ≡ start + (from + j) = omega arith in
      rw (left, right)
        (after m1 (from + i) (from + j) (omega arith) (omega arith)
          (Swaps-part start nmemb from part place m m1 e b t))

  -- What holds of every element of the range holds after the swaps.
  pub Swaps-every {ℓ'} :
      (start nmemb : ℕ) (m m' : ℕ → A) (P : A → Type ℓ')
      → Swaps start nmemb m m'
      → ((i : ℕ) → i < nmemb → P (m (start + i)))
      → (i : ℕ) → i < nmemb
      → P (m' (start + i))
  Swaps-every start nmemb m m' P same h i b = h i b
  Swaps-every start nmemb m m' P (after m1 j k c d t) h i b =
      let every = Swaps-every start nmemb m m1 P t h in
      elim (Bool-cases (i == j)) [
        | inl e ↦
            subst P (sym (swapped_left m1 (start + j) (start + k) (start + i) (ground arith)))
              (every k d)
        | inr e ↦ elim (Bool-cases (i == k)) [
          | inl f ↦
              subst P
                (sym (
                  swapped_right m1 (start + j) (start + k) (start + i) (ground arith)
                    (ground arith)))
                (every j c)
          | inr f ↦
              subst P
                (sym (
                  swapped_other m1 (start + j) (start + k) (start + i) (ground arith)
                    (ground arith)))
                (every i b)
        ]
      ]

  -- Elements out of the range stay.
  pub Swaps-outside :
      (start nmemb : ℕ) (m m' : ℕ → A) (k : ℕ)
      → Swaps start nmemb m m'
      → (k < start) ⊎ (start + nmemb ≤ k)
      → m' k ≡ m k
  Swaps-outside start nmemb m m' k same out = refl
  Swaps-outside start nmemb m m' k (after m1 i j h g t) out =
      swapped_other m1 (start + i) (start + j) k (ground arith) (ground arith)
      ∙ Swaps-outside start nmemb m m1 k t out
