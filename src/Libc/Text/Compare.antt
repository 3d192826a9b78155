-- ===== src/Libc/Text/Compare.antt =====
-- The order of strcmp and strncmp, libc/string/strcmp.c and strncmp.c.
use mathlib.Core.Path.{subst}
use rhombus.Prelude.{
  sym, ◌∙◌, ◌<◌, ◌≢◌, All, ℕ, zero, suc, ◌≡◌, ◌⊎◌, inl, inr, refl, ap, true, false, [], ◌∷◌, ◌==◌,
  arith, Bool-cases, take,
}
use rhombus.Prelude.Int.{pos, negsuc}
use rhombus.Libc.Text.{Text, char_lt, strcmp, strncmp}

-- `s` comes first in the lexicographic order, its bytes read as signed.
pub data Before : Text → Text → Type 0 where
  ends : (b : ℕ) (t : Text) → Before [] (b ∷ t)
  smaller : (a b : ℕ) (s t : Text) → char_lt a b ≡ true → Before (a ∷ s) (b ∷ t)
  same : (a : ℕ) (s t : Text) → Before s t → Before (a ∷ s) (a ∷ t)

-- Two different bytes are in one order or in the other.
char_lt_total : (a b : ℕ) → a < 256 → b < 256 → a ≢ b → char_lt a b ≡ false → char_lt b a ≡ true
unfolding char_lt
char_lt_total a b p q ne h = ground arith

strcmp-same : (a : ℕ) (s t : Text) → strcmp (a ∷ s) (a ∷ t) ≡ strcmp s t
unfolding strcmp
strcmp-same a s t = let e : (a == a) ≡ true = ground arith in rw e refl

-- strcmp of two texts gives 0 if they are equal, -1 if the first is before the second in the
-- lexicographic order of signed bytes, 1 if it is after it.
pub strcmp-Before :
    (s t : Text)
    → All (λ c. c < 256) s
    → All (λ c. c < 256) t
    → ((strcmp s t ≡ pos 0) × (s ≡ t))
      ⊎ (((strcmp s t ≡ negsuc 0) × Before s t) ⊎ ((strcmp s t ≡ pos 1) × Before t s))
unfolding strcmp
strcmp-Before [] [] p q = inl (refl, refl)
strcmp-Before [] (b ∷ t) p q = inr (inl (refl, ends b t))
strcmp-Before (a ∷ s) [] p q = inr (inr (refl, ends a s))
strcmp-Before (a ∷ s) (b ∷ t) p q = elim (Bool-cases (a == b)) [
  | inl eq ↦
      let e : b ≡ a = ground arith in
      subst
        (λ b.
          ((strcmp (a ∷ s) (b ∷ t) ≡ pos 0) × (a ∷ s ≡ b ∷ t))
          ⊎ (((strcmp (a ∷ s) (b ∷ t) ≡ negsuc 0) × Before (a ∷ s) (b ∷ t))
              ⊎ ((strcmp (a ∷ s) (b ∷ t) ≡ pos 1) × Before (b ∷ t) (a ∷ s))))
        (sym e)
        (elim (strcmp-Before s t p.1 q.1) [
          | inl (z, same_text) ↦ inl (strcmp-same a s t ∙ z, ap (λ l. a ∷ l) same_text)
          | inr (inl (z, before)) ↦ inr (inl (strcmp-same a s t ∙ z, same a s t before))
          | inr (inr (z, after)) ↦ inr (inr (strcmp-same a s t ∙ z, same a t s after))
        ])
  | inr ne ↦ elim (Bool-cases (char_lt a b)) [
    | inl lt ↦ inr (inl (rw (ne, lt) refl, smaller a b s t lt))
    | inr ge ↦
        let gt : char_lt b a ≡ true = char_lt_total a b p.0 q.0 (ground arith) ge in
        inr (inr (rw (ne, ge) refl, smaller b a t s gt))
  ]
]

-- strncmp is strcmp of the first `n` bytes of each text.
pub strncmp-strcmp : (s t : Text) (n : ℕ) → strncmp s t n ≡ strcmp (take n s) (take n t)
unfolding strncmp strcmp
strncmp-strcmp s t zero = refl
strncmp-strcmp [] [] (suc n) = refl
strncmp-strcmp [] (b ∷ t) (suc n) = refl
strncmp-strcmp (a ∷ s) [] (suc n) = refl
strncmp-strcmp (a ∷ s) (b ∷ t) (suc n) = rw (strncmp-strcmp s t n) refl
