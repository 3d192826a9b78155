-- ===== src/Libc/Contab/Counts.antt =====
-- An entry of the table of connections gets a connection and loses it.
use rhombus.Prelude.{
  ℕ, ◌+◌, ◌-◌, ◌/◌, ◌%◌, ◌^◌, ◌<◌, ◌≡◌, inl, inr, refl, ap, ◌∙◌, true, List, [], ◌∷◌, ◌==◌, arith,
  All, Bool-cases,
}
use rhombus.Libc.Fdtab.{rp_null}
use rhombus.Libc.Contab.{Con, is_above_zero, raise, lower, counted, discounted}

-- An entry in use: its counts are words, and its reference count is positive and not the last one.
pub record IsCon (c : Con) : Type 0 where
  pub words : All (λ n. n < 2 ^ 32) c.status_count
  pub some_ref : 0 < c.refc
  pub few_refs : c.refc + 1 < 2 ^ 31

word_back : (n : ℕ) → n < 2 ^ 32 → ((n + 1) % 2 ^ 32 + 2 ^ 32 - 1) % 2 ^ 32 ≡ n
word_back n h = omega arith

lower-raise :
    (status : ℕ) (cs : List ℕ) → All (λ n. n < 2 ^ 32) cs → lower status (raise status cs) ≡ cs
unfolding lower raise
lower-raise status [] h = refl
lower-raise status (c ∷ cs) h = elim (Bool-cases (status % 2 == 1)) [
  | inl e ↦ rw e (
      ap (λ n. n ∷ lower (status / 2) (raise (status / 2) cs)) (word_back c h.0)
      ∙ ap (λ l. c ∷ l) (lower-raise (status / 2) cs h.1))
  | inr e ↦ rw e (ap (λ l. c ∷ l) (lower-raise (status / 2) cs h.1))
]

pub discounted-counted : (status : ℕ) (c : Con) → IsCon c → discounted status (counted status c) ≡ c
unfolding discounted counted
discounted-counted status c h =
    let refs : ((c.refc + 1) % 2 ^ 32 + 2 ^ 32 - 1) % 2 ^ 32 ≡ c.refc = omega (arith, h.few_refs) in
    let live : is_above_zero c.refc ≡ true = ground (arith, h.some_ref, h.few_refs) in
    rw (lower-raise status c.status_count h.words, refs, live) refl

pub discounted_last : (status : ℕ) (c : Con) → c.refc ≡ 1 → (discounted status c).rp ≡ rp_null
unfolding discounted
discounted_last status c e = rw e refl
