-- ===== src/Libc/Memory/Scan.antt =====
-- What memchr finds.
use rhombus.Prelude.{
  ℕ, zero, suc, ◌+◌, ◌<◌, ◌≤◌, ◌≢◌, ◌⊎◌, inl, inr, ◌≡◌, refl, none, some, arith, ◌==◌, Bool-cases,
}
use rhombus.Libc.Memory.{Memory, scan, memchr}

-- `p` is the first address of the `n` from `s` on that holds `c`.
pub record First (m : Memory) (s c n p : ℕ) : Type 0 where
  pub above : s ≤ p
  pub below : p < s + n
  pub right : m p ≡ c
  pub before : (x : ℕ) → s ≤ x → x < p → m x ≢ c

scan-First :
    (n : ℕ) (m : Memory) (s c i : ℕ)
    → ((scan m s c i n ≡ none) × ((x : ℕ) → s + i ≤ x → x < s + i + n → m x ≢ c))
      ⊎ ((p : ℕ) × (scan m s c i n ≡ some p) × First m (s + i) c n p)
unfolding scan
scan-First zero m s c i = inl (refl, λ x a b. absurd (omega arith))
scan-First (suc n) m s c i = elim (Bool-cases (m (s + i) == c)) [
  | inl hit ↦ inr (
    s + i,
    rw hit refl,
    record {
      above = omega arith;
      below = omega arith;
      right = ground arith;
      before = λ x a b. absurd (omega arith);
    },
  )
  | inr miss ↦ elim (scan-First n m s c (suc i)) [
    | inl (e, k) ↦ inl (rw (miss, e) refl, λ x a b. ground (arith, k x))
    | inr (p, e, f) ↦ inr (
      p,
      rw (miss, e) refl,
      record {
        above = omega (arith, f.above);
        below = omega (arith, f.below);
        right = f.right;
        before = λ x a b. ground (arith, f.before x);
      },
    )
  ]
]

pub memchr-First :
    (m : Memory) (s c n : ℕ)
    → ((memchr m s c n ≡ none) × ((x : ℕ) → s + 0 ≤ x → x < s + 0 + n → m x ≢ c))
      ⊎ ((p : ℕ) × (memchr m s c n ≡ some p) × First m (s + 0) c n p)
unfolding memchr
memchr-First m s c n = scan-First n m s c 0
