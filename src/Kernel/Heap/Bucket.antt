-- ===== src/Kernel/Heap/Bucket.antt =====
-- The search of a bucket for a size, in kernel/mem/heap.c.
use mathlib.Core.Path.{subst}
use native.Mathlib.Nat.{pow-le-pow_right, two-pow-succ, one-le-pow}
use rhombus.Prelude.{
  ℕ, zero, suc, ◌+◌, ◌^◌, ◌≤◌, ◌<◌, ◌≡◌, refl, sym, true, false, inl, inr, arith, ◌==◌, leb,
  Bool-cases,
}
use rhombus.Kernel.Heap.{block_size, bucket_from, bucket_of}

-- A found bucket is one of those searched, and its blocks are large enough.
bucket_from-fits :
    (n i size : ℕ)
    → bucket_from n i size < 17
    → (size ≤ block_size (bucket_from n i size)) × (bucket_from n i size < i + n)
unfolding bucket_from
bucket_from-fits zero i size h = absurd (omega arith)
bucket_from-fits (suc n) i size h = elim (Bool-cases (leb size (block_size i))) [
  | inl fits ↦ rw fits (ground arith, omega arith)
  | inr small ↦
      let (f, l) = bucket_from-fits n (i + 1) size (ground arith) in rw small (f, omega arith)
]

two_pow-lt : (i j : ℕ) → i < j → 2 ^ i < 2 ^ j
two_pow-lt i j h =
    let p = pow-le-pow_right {n = 2} (omega arith) {i = suc i} {j = j} (omega arith) in
    omega (arith, two-pow-succ i, one-le-pow i 2 (omega arith))

-- The bucket of a size of blocks is the bucket of these blocks.
pub bucket_from-exact : (n i b : ℕ) → i ≤ b → b < i + n → bucket_from n i (block_size b) ≡ b
unfolding bucket_from
bucket_from-exact zero i b l h = absurd (omega arith)
bucket_from-exact (suc n) i b l h = elim (Bool-cases (i == b)) [
  | inl same ↦
      let e : b ≡ i = ground arith in
      let fits : leb (block_size i) (block_size i) ≡ true = ground arith in rw (e, fits) refl
  | inr more ↦
      let p = two_pow-lt i b (ground arith) in
      let small : leb (block_size b) (block_size i) ≡ false = ground arith in
      rw small (bucket_from-exact n (i + 1) b (ground arith) (omega arith))
]

pub later :
    (i b size : ℕ) → i ≤ b → size ≤ block_size b → leb size (block_size i) ≡ false → i + 1 ≤ b
later i b size l f small = elim (Bool-cases (i == b)) [
  | inl same ↦
      let e : i ≡ b = ground arith in
      absurd (let g = subst (λ j. size ≤ block_size j) (sym e) f in ground arith)
  | inr other ↦ ground arith
]

-- The search ends at a bucket that is large enough.
bucket_from-least :
    (n i b size : ℕ) → i ≤ b → b < i + n → size ≤ block_size b → bucket_from n i size ≤ b
unfolding bucket_from
bucket_from-least zero i b size l k f = absurd (omega arith)
bucket_from-least (suc n) i b size l k f = elim (Bool-cases (leb size (block_size i))) [
  | inl fits ↦ rw fits l
  | inr small ↦
      rw small (bucket_from-least n (i + 1) b size (later i b size l f small) (omega arith) f)
]

-- It ends at 17 if every bucket is too small.
pub bucket_from-past :
    (n i size : ℕ) → ((j : ℕ) → j < i + n → block_size j < size) → bucket_from n i size ≡ 17
unfolding bucket_from
bucket_from-past zero i size k = refl
bucket_from-past (suc n) i size k =
    let small : leb size (block_size i) ≡ false = let s = k i (omega arith) in ground arith in
    rw small (bucket_from-past n (i + 1) size (λ j l. k j (omega arith)))

pub fitting :
    (size : ℕ) → size ≤ 0x20000 → (bucket_of size < 16) × (size ≤ block_size (bucket_of size))
fitting size h =
    let least = bucket_from-least 16 0 15 size (omega arith) (omega arith) h in
    let fits = bucket_from-fits 16 0 size (omega arith) in (omega arith, fits.0)
