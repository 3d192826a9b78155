-- ===== src/Kernel/Syscall/Page/Loop.antt =====
-- The loops of syscall_page over a region: one body at each page, which touches no other page.
use mathlib.Core.Path.{subst}
use rhombus.Prelude.{
  ℕ, zero, suc, ◌+◌, ◌*◌, ◌%◌, ◌^◌, ◌≤◌, ◌<◌, ◌≡◌, ◌⊎◌, refl, sym, ◌∙◌, true, false, Option, some,
  inl, inr, ltb, arith, Bool-cases,
}
use rhombus.Kernel.Frame.{page_size}
use rhombus.Kernel.Page.{Space, page_get}
use rhombus.Kernel.Syscall.Page.{kernel_space, each}

-- The pages of `s'` are those of `s`, except that on the pages of the region the old and the new
-- entry are related by `Q`.
pub record Remaps (Q : ℕ → ℕ → Type 0) (from limit : ℕ) (s s' : Space) : Type 0 where
  pub inside : (q : ℕ) → from ≤ q → q < limit → Q (page_get s q) (page_get s' q)
  pub outside : (q : ℕ) → q < from ⊎ limit ≤ q → page_get s' q ≡ page_get s q

each-step :
    (body : ℕ → Space → Option Space) (k i limit : ℕ) (s s' : Space)
    → i < limit
    → body i s ≡ some s'
    → each body page_size (suc k) i limit s
      ≡ each body page_size k ((i + page_size) % 2 ^ 32) limit s'
unfolding each
each-step body k i limit s s' h e =
    let more : ltb i limit ≡ true = ground arith in rw (more, e) refl

each-end :
    (body : ℕ → Space → Option Space) (k i limit : ℕ) (s : Space)
    → limit ≤ i
    → each body page_size (suc k) i limit s ≡ some s
unfolding each
each-end body k i limit s h = let over : ltb i limit ≡ false = ground arith in rw over refl

module _ (body : ℕ → Space → Option Space) (Q : ℕ → ℕ → Type 0) where
  -- What a loop needs of its body.
  abbrev pub IsLocal : Type 0
  IsLocal =
      (i : ℕ) (s : Space)
      → i % page_size ≡ 0
      → i < kernel_space
      → (s' : Space) × (body i s ≡ some s') × Remaps Q i (i + page_size) s s'

  joined :
      (i limit : ℕ) (s t s' : Space)
      → i % page_size ≡ 0
      → limit % page_size ≡ 0
      → i < limit
      → Remaps Q i (i + page_size) s t
      → Remaps Q (i + page_size) limit t s'
      → Remaps Q i limit s s'
  joined i limit s t s' a b l r r' = record {
    inside = λ q h k. elim (Bool-cases (ltb q (i + page_size))) [
      | inl here ↦
          subst (λ v. Q (page_get s q) v) (sym (r'.outside q (inl (ground arith))))
            (r.inside q h (ground arith))
      | inr later ↦
          subst (λ v. Q v (page_get s' q)) (r.outside q (inr (ground arith)))
            (r'.inside q (ground arith) k)
    ];
    outside = λ q h.
        r'.outside q (elim h [ inl u ↦ inl (omega arith) | inr u ↦ inr u ])
        ∙ r.outside q (elim h [ inl u ↦ inl u | inr u ↦ inr (omega arith) ]);
  }

  untouched : (i limit : ℕ) (s : Space) → limit ≤ i → Remaps Q i limit s s
  untouched i limit s h = record { inside = λ q k l. absurd (omega arith); outside = λ q k. refl }

  -- Enough fuel for one turn at each page of a region below the kernel ends the loop, and each page
  -- has been changed once.
  pub each-Remaps :
      IsLocal
      → (k i limit : ℕ) (s : Space) → i % page_size ≡ 0
      → limit % page_size ≡ 0
      → limit < kernel_space
      → limit ≤ i + k * page_size
      → (s' : Space) × (each body page_size (suc k) i limit s ≡ some s') × Remaps Q i limit s s'
  each-Remaps local zero i limit s a b c d =
      (s, each-end body zero i limit s (omega arith), untouched i limit s (omega arith))
  each-Remaps local (suc k) i limit s a b c d = elim (Bool-cases (ltb i limit)) [
    | inl more ↦
        let (t, e, r) = local i s a (ground arith) in
        let (s', e', r') =
          each-Remaps local k (i + page_size) limit t (omega arith) b c (omega arith) in
        let next : (i + page_size) % 2 ^ 32 ≡ i + page_size = ground arith in
        let rest = subst (λ j. each body page_size (suc k) j limit t ≡ some s') (sym next) e' in
        (
          s',
          each-step body (suc k) i limit s t (ground arith) e ∙ rest,
          joined i limit s t s' a b (ground arith) r r',
        )
    | inr over ↦
        (s, each-end body (suc k) i limit s (ground arith), untouched i limit s (ground arith))
  ]
