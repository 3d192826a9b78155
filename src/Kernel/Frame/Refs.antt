-- ===== src/Kernel/Frame/Refs.antt =====
-- The counts of all frames in kernel/mem/frame.c, and the state that keeps them.
use mathlib.Core.Path.{subst}
use rhombus.Prelude.{
  ℕ, ◌/◌, ◌<◌, ◌≡◌, refl, sym, ap, ◌∙◌, true, false, List, [], ◌∷◌, inl, inr, arith, ◌==◌,
  if◌then◌else◌, Bool-cases, All, length, get_or, get_or-set,
}
use rhombus.Kernel.Frame.{Chain, Frames, bucket, chain_at, with_chain, frame_refc, page_size}
use rhombus.Kernel.Frame.Chain.{count, IsChain, DistinctAddrs, count-look}

-- The references to the page with this number, as the hash has them.
abbrev pub refs : Frames → ℕ → ℕ
refs m a = count (chain_at m a) a

-- The page numbers of a list of frames.
abbrev pub addrs : Chain → List ℕ
addrs [] = []
addrs (f ∷ c) = f.addr ∷ addrs c

-- The hash has 256 chains, and no free frame is counted.
pub record IsFrames (m : Frames) : Type 0 where
  pub hashed : length m.hash ≡ 256
  pub chain : (i : ℕ) → i < 256 → IsChain i (get_or m.hash i [])
  pub spare : All (λ f. refs m f.addr ≡ 0) m.free_list
  pub distinct : DistinctAddrs m.free_list

pub frame_refc_lem : (m : Frames) (frame : ℕ) → frame_refc m frame ≡ refs m (frame / page_size)
unfolding frame_refc
frame_refc_lem m frame = sym (count-look (chain_at m (frame / page_size)) (frame / page_size))

refs-with_chain :
    (m : Frames) (a b : ℕ) (c : Chain)
    → length m.hash ≡ 256
    → refs (with_chain m a c) b ≡ (if bucket b == bucket a then count c b else refs m b)
refs-with_chain m a b c h = elim (Bool-cases (bucket b == bucket a)) [
  | inl hit ↦ rw (get_or-set m.hash (bucket a) (bucket b) c [] (omega arith), hit) refl
  | inr miss ↦ rw (get_or-set m.hash (bucket a) (bucket b) c [] (omega arith), miss) refl
]

-- A new chain that differs in the count of `a` only changes that count only.
pub refs-change :
    (m : Frames) (a n b : ℕ) (c : Chain)
    → length m.hash ≡ 256
    → ((b : ℕ) → count c b ≡ (if b == a then n else count (chain_at m a) b))
    → refs (with_chain m a c) b ≡ (if b == a then n else refs m b)
refs-change m a n b c h k = elim (Bool-cases (bucket b == bucket a)) [
  | inl hit ↦
      let e : chain_at m a ≡ chain_at m b = ap (λ u. get_or m.hash u []) (ground arith) in
      rw (refs-with_chain m a b c h, hit, k b, e) refl
  | inr miss ↦
      let ne : (b == a) ≡ false = elim (Bool-cases (b == a)) [ inl y ↦ ground arith | inr n ↦ n ] in
      rw (refs-with_chain m a b c h, miss, ne) refl
]

pub chain-with_chain :
    (m : Frames) (a : ℕ) (c : Chain)
    → IsFrames m
    → IsChain (bucket a) c
    → (i : ℕ) → i < 256
    → IsChain i (get_or (with_chain m a c).hash i [])
chain-with_chain m a c v k i h = elim (Bool-cases (i == bucket a)) [
  | inl hit ↦
      let e : bucket a ≡ i = ground arith in
      rw (get_or-set m.hash (bucket a) i c [] (omega (arith, v.hashed)), hit)
        (subst (λ u. IsChain u c) e k)
  | inr miss ↦
      rw (get_or-set m.hash (bucket a) i c [] (omega (arith, v.hashed)), miss) (v.chain i h)
]

-- `m'` counts `n` references to page `a`, and what `m` counts to any other.
pub record Recounts (m : Frames) (a n : ℕ) (m' : Frames) : Type 0 where
  pub frames : IsFrames m'
  pub counts : (b : ℕ) → refs m' b ≡ (if b == a then n else refs m b)

pub recounted : {m : Frames} {a n : ℕ} {m' : Frames} → Recounts m a n m' → refs m' a ≡ n
recounted {m = m} {a = a} {n = n} r =
    let self : (a == a) ≡ true = ground arith in
    r.counts a ∙ ap (λ b. if b then n else refs m a) self
