-- ===== src/Kernel/Frame/Chain.antt =====
-- Chains of the frame hash in kernel/mem/frame.c, as maps from addresses to counts.
use mathlib.Core.Path.{subst}
use rhombus.Prelude.{
  ℕ, ◌^◌, ◌<◌, ◌≡◌, ◌≢◌, refl, none, some, [], ◌∷◌, inl, inr, arith, ◌==◌, if◌then◌else◌,
  Bool-cases, All,
}
use rhombus.Kernel.Frame.{Frame, Chain, bucket, look, recount, pull}

-- The count that a chain has for an address.
unfoldable pub count : Chain → ℕ → ℕ
count [] a = 0
count (f ∷ c) a = if f.addr == a then f.refc else count c a

-- A counted frame belongs to the chain `i`, and its count is a positive 32-bit number.
pub record IsCounted (i : ℕ) (f : Frame) : Type 0 where
  pub belongs : bucket f.addr ≡ i
  pub positive : 0 < f.refc
  pub small : f.refc < 2 ^ 32

-- No address stands twice.
abbrev pub DistinctAddrs : Chain → Type 0
DistinctAddrs [] = Unit
DistinctAddrs (f ∷ c) = All (λ g. g.addr ≢ f.addr) c × DistinctAddrs c

pub count-look : (c : Chain) (a : ℕ) → count c a ≡ (elim (look c a) [ none ↦ 0 | some f ↦ f.refc ])
unfolding count look
count-look [] a = refl
count-look (f ∷ c) a = ground (arith, count-look c a)

pub look-addr : (c : Chain) (a : ℕ) {f : Frame} → look c a ≡ some f → f.addr ≡ a
unfolding look
look-addr [] a h = cc
look-addr (g ∷ c) a {f} h = elim (Bool-cases (g.addr == a)) [
  | inl hit ↦ ground arith
  | inr miss ↦ look-addr c a {f = f} (ground arith)
]

pub look-counted :
    (i : ℕ) (c : Chain) (a : ℕ) {f : Frame}
    → All (IsCounted i) c
    → look c a ≡ some f
    → IsCounted i f
unfolding look
look-counted i [] a k h = cc
look-counted i (g ∷ c) a {f} k h = elim (Bool-cases (g.addr == a)) [
  | inl hit ↦ let e : g ≡ f = ground arith in subst (λ u. IsCounted i u) e k.0
  | inr miss ↦ look-counted i c a k.1 (ground arith)
]

absent-count : (c : Chain) (a : ℕ) → All (λ g. g.addr ≢ a) c → count c a ≡ 0
unfolding count
absent-count [] a h = refl
absent-count (f ∷ c) a h = ground (arith, absent-count c a h.1, h.0)

-- A frame that a chain does not count is not in it.
absent_of_count :
    (i : ℕ) (c : Chain) (a : ℕ) → All (IsCounted i) c → count c a ≡ 0 → All (λ g. g.addr ≢ a) c
unfolding count
absent_of_count i [] a k h = tt
absent_of_count i (f ∷ c) a k h = elim (Bool-cases (f.addr == a)) [
  | inl hit ↦ let p = k.0.positive in ground arith
  | inr miss ↦ (ground arith, absent_of_count i c a k.1 (ground arith))
]

pub count-recount :
    (c : Chain) (a n b : ℕ) {f : Frame}
    → look c a ≡ some f
    → count (recount c a n) b ≡ (if b == a then n else count c b)
unfolding count recount look
count-recount [] a n b h = cc
count-recount (g ∷ c) a n b {f} h = elim (Bool-cases (g.addr == a)) [
  | inl hit ↦ ground arith
  | inr miss ↦ ground (arith, count-recount c a n b {f = f} (ground arith))
]

pub count-pull :
    (c : Chain) (a b : ℕ) → DistinctAddrs c → count (pull c a) b ≡ (if b == a then 0 else count c b)
unfolding count pull
count-pull [] a b d = ground arith
count-pull (g ∷ c) a b d = elim (Bool-cases (g.addr == a)) [
  | inl hit ↦
      let z =
        absent-count c a (subst (λ u. All (λ (x : Frame). x.addr ≢ u) c) (ground arith) d.0) in
      ground (arith, z)
  | inr miss ↦ ground (arith, count-pull c a b d.1)
]

-- What `frame_hash[i]` is.
pub record IsChain (i : ℕ) (c : Chain) : Type 0 where
  pub counted : All (IsCounted i) c
  pub distinct : DistinctAddrs c

All-pull : (P : Frame → Type 0) (c : Chain) (a : ℕ) → All P c → All P (pull c a)
unfolding pull
All-pull P [] a k = tt
All-pull P (f ∷ c) a k = elim (Bool-cases (f.addr == a)) [
  | inl hit ↦ rw hit k.1
  | inr miss ↦ rw miss (k.0, All-pull P c a k.1)
]

distinct-pull : (c : Chain) (a : ℕ) → DistinctAddrs c → DistinctAddrs (pull c a)
unfolding pull
distinct-pull [] a d = tt
distinct-pull (f ∷ c) a d = elim (Bool-cases (f.addr == a)) [
  | inl hit ↦ rw hit d.1
  | inr miss ↦ rw miss (All-pull _ c a d.0, distinct-pull c a d.1)
]

pub pull-IsChain : {i : ℕ} {c : Chain} (a : ℕ) → IsChain i c → IsChain i (pull c a)
pull-IsChain {c = c} a v = record {
  counted = All-pull _ c a v.counted;
  distinct = distinct-pull c a v.distinct;
}

counted-recount :
    (i : ℕ) (c : Chain) (a n : ℕ)
    → 0 < n
    → n < 2 ^ 32
    → All (IsCounted i) c
    → All (IsCounted i) (recount c a n)
unfolding recount
counted-recount i [] a n p s k = tt
counted-recount i (f ∷ c) a n p s k = elim (Bool-cases (f.addr == a)) [
  | inl hit ↦ rw hit (record { belongs = k.0.belongs; positive = p; small = s }, k.1)
  | inr miss ↦ rw miss (k.0, counted-recount i c a n p s k.1)
]

other-recount :
    (c : Chain) (a n b : ℕ) → All (λ g. g.addr ≢ b) c → All (λ g. g.addr ≢ b) (recount c a n)
unfolding recount
other-recount [] a n b k = tt
other-recount (f ∷ c) a n b k = elim (Bool-cases (f.addr == a)) [
  | inl hit ↦ rw hit (k.0, k.1)
  | inr miss ↦ rw miss (k.0, other-recount c a n b k.1)
]

distinct-recount : (c : Chain) (a n : ℕ) → DistinctAddrs c → DistinctAddrs (recount c a n)
unfolding recount
distinct-recount [] a n d = tt
distinct-recount (f ∷ c) a n d = elim (Bool-cases (f.addr == a)) [
  | inl hit ↦ rw hit (d.0, d.1)
  | inr miss ↦ rw miss (other-recount c a n f.addr d.0, distinct-recount c a n d.1)
]

pub recount-IsChain :
    {i : ℕ} {c : Chain} (a n : ℕ) → 0 < n → n < 2 ^ 32 → IsChain i c → IsChain i (recount c a n)
recount-IsChain {i = i} {c = c} a n p s v = record {
  counted = counted-recount i c a n p s v.counted;
  distinct = distinct-recount c a n v.distinct;
}

pub push-IsChain :
    {i : ℕ} {c : Chain} {f : Frame}
    → IsCounted i f
    → count c f.addr ≡ 0
    → IsChain i c
    → IsChain i (f ∷ c)
push-IsChain {i = i} {c = c} {f = f} k z v = record {
  counted = (k, v.counted);
  distinct = (absent_of_count i c f.addr v.counted z, v.distinct);
}

pub count-push :
    (f : Frame) (c : Chain) (b : ℕ) → count (f ∷ c) b ≡ (if b == f.addr then f.refc else count c b)
unfolding count
count-push f c b = ground arith
