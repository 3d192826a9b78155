-- ===== src/Kernel/Heap/Slab.antt =====
-- The loop of heap_new_slab in kernel/mem/heap.c.
use mathlib.Core.Path.{subst}
use native.Mathlib.Nat.{one-le-pow}
use rhombus.Prelude.{
  ℕ, zero, suc, ◌+◌, ◌*◌, ◌/◌, ◌^◌, ◌≤◌, ◌<◌, ◌≡◌, ◌⊎◌, refl, ap, ◌∙◌, true, false, some, [], ◌∷◌,
  inl, inr, arith, ltb, get_or, length, length-set,
}
use rhombus.Kernel.Heap.{Heap, block_size, bucket_of, push, heap_free, slab_size, dump}
use rhombus.Kernel.Heap.Cover.{covers, cover_free, cover_free-set_0, cover-cons, get_or-set_self}
use rhombus.Kernel.Heap.Bucket.{bucket_from-exact}

-- The number of blocks of a slab.
pub slab-blocks : (b : ℕ) → b < 16 → (n : ℕ) × (n ≤ 1024) × (slab_size b / 4 ≡ n * 2 ^ b)
slab-blocks zero h = (1024, omega arith, refl)
slab-blocks (suc zero) h = (512, omega arith, refl)
slab-blocks (suc (suc zero)) h = (256, omega arith, refl)
slab-blocks (suc (suc (suc zero))) h = (128, omega arith, refl)
slab-blocks (suc (suc (suc (suc zero)))) h = (64, omega arith, refl)
slab-blocks (suc (suc (suc (suc (suc zero))))) h = (32, omega arith, refl)
slab-blocks (suc (suc (suc (suc (suc (suc zero)))))) h = (16, omega arith, refl)
slab-blocks (suc (suc (suc (suc (suc (suc (suc zero))))))) h = (8, omega arith, refl)
slab-blocks (suc (suc (suc (suc (suc (suc (suc (suc zero)))))))) h = (4, omega arith, refl)
slab-blocks (suc (suc (suc (suc (suc (suc (suc (suc (suc zero))))))))) h = (2, omega arith, refl)
slab-blocks (suc (suc (suc (suc (suc (suc (suc (suc (suc (suc zero)))))))))) h =
    (1, omega arith, refl)
slab-blocks (suc (suc (suc (suc (suc (suc (suc (suc (suc (suc (suc zero))))))))))) h =
    (4, omega arith, refl)
slab-blocks (suc (suc (suc (suc (suc (suc (suc (suc (suc (suc (suc (suc zero)))))))))))) h =
    (4, omega arith, refl)
slab-blocks (suc (suc (suc (suc (suc (suc (suc (suc (suc (suc (suc (suc (suc zero))))))))))))) h =
    (4, omega arith, refl)
slab-blocks (suc (suc (suc (suc (suc (suc (suc (suc (suc (suc (suc (suc (suc (suc zero))))))))))))))
      h =
    (4, omega arith, refl)
slab-blocks
      (suc (suc (suc (suc (suc (suc (suc (suc (suc (suc (suc (suc (suc (suc (suc zero)))))))))))))))
      h =
    (4, omega arith, refl)
slab-blocks
      (suc
        (suc (suc (suc (suc (suc (suc (suc (suc (suc (suc (suc (suc (suc (suc (suc b))))))))))))))))
      h =
    absurd (omega arith)

covers-join : (p s t x : ℕ) → covers p s x + covers (p + s) t x ≡ covers p (s + t) x
covers-join p s t x = ground arith

abbrev pub stock : Heap → ℕ → ℕ
stock h b = length (get_or h.buckets b [])

-- What is free in `h'` is what is free in `h` and `size` bytes from `p` on, in bucket `b`.
pub record Adds (b p size : ℕ) (h h' : Heap) : Type 0 where
  pub more : stock h b ≤ stock h' b
  pub grown : (size ≡ 0) ⊎ (0 < stock h' b)
  pub brk : h'.brk ≡ h.brk
  pub sixteen : length h'.buckets ≡ length h.buckets
  pub cover : (x : ℕ) → cover_free 0 h'.buckets x ≡ cover_free 0 h.buckets x + covers p size x

pub push-Adds :
    (h : Heap) (b p : ℕ) → length h.buckets ≡ 16 → b < 16 → Adds b p (block_size b) h (push h b p)
unfolding push
push-Adds h b p l k =
    let in_place =
      ap length (get_or-set_self h.buckets b (p ∷ get_or h.buckets b []) (omega arith)) in
    record {
      more = omega (arith, in_place);
      grown = inr (omega (arith, in_place));
      brk = refl;
      sixteen = length-set h.buckets b (p ∷ get_or h.buckets b []);
      cover = λ x. omega (
        arith,
        cover_free-set_0 h.buckets b (p ∷ get_or h.buckets b []) x (omega arith),
        cover-cons b p (get_or h.buckets b []) x,
      );
    }

-- heap_free of a block of some bucket puts it there.
pub heap_free-push :
    (h : Heap) (p size b : ℕ) → bucket_of size ≡ b → b < 16 → heap_free h p size ≡ some (push h b p)
unfolding heap_free
heap_free-push h p size b e k =
    let near : ltb 17 b ≡ false = ground arith in
    let there : ltb b 16 ≡ true = ground arith in rw (e, near, there) refl

joined-Adds :
    (b p s t : ℕ) (h h' h'' : Heap)
    → Adds b p s h h'
    → Adds b (p + s) t h' h''
    → Adds b p (s + t) h h''
joined-Adds b p s t h h' h'' a a' = record {
  more = omega (arith, a.more, a'.more);
  grown = elim a'.grown [
    | inl no_t ↦ elim a.grown [
      | inl no_s ↦ inl (omega arith)
      | inr some_s ↦ inr (omega (arith, a'.more))
    ]
    | inr some_t ↦ inr some_t
  ];
  brk = a'.brk ∙ a.brk;
  sixteen = a'.sixteen ∙ a.sixteen;
  cover = λ x. omega (arith, a.cover x, a'.cover x, covers-join p s t x);
}

dump-step :
    (k b slab i : ℕ) (h : Heap)
    → i < slab_size b / 4
    → b < 16
    → dump (suc k) b slab i h ≡ dump k b slab (i + 2 ^ b) (push h b (slab + 4 * i))
unfolding dump
dump-step k b slab i h l s =
    let more : ltb i (slab_size b / 4) ≡ true = ground arith in
    rw
      (
        more,
        heap_free-push h (slab + 4 * i) (block_size b) b
            (bucket_from-exact 16 0 b (omega arith) (omega arith)) s,
      )
      refl

dump-end : (k b slab i : ℕ) (h : Heap) → slab_size b / 4 ≤ i → dump (suc k) b slab i h ≡ some h
unfolding dump
dump-end k b slab i h l = let over : ltb i (slab_size b / 4) ≡ false = ground arith in rw over refl

pub dump-Adds :
    (n k b slab i : ℕ) (h : Heap)
    → b < 16
    → length h.buckets ≡ 16
    → slab_size b / 4 ≡ i + n * 2 ^ b
    → n ≤ k
    → (h' : Heap) × (dump (suc k) b slab i h ≡ some h')
      × Adds b (slab + 4 * i) (4 * (n * 2 ^ b)) h h'
dump-Adds zero k b slab i h s l w f = (
  h,
  dump-end k b slab i h (omega arith),
  record {
    more = omega arith;
    grown = inl (omega arith);
    brk = refl;
    sixteen = refl;
    cover = λ x. ground arith;
  },
)
dump-Adds (suc n) zero b slab i h s l w f = absurd (omega arith)
dump-Adds (suc n) (suc k) b slab i h s l w f =
    let h1 = push h b (slab + 4 * i) in
    let split : suc n * 2 ^ b ≡ 2 ^ b + n * 2 ^ b = omega arith in
    let a1 = push-Adds h b (slab + 4 * i) l s in
    let (h', e, a) =
      dump-Adds n k b slab (i + 2 ^ b) h1 s (a1.sixteen ∙ l) (omega (arith, w, split))
        (omega arith) in
    let next : slab + 4 * (i + 2 ^ b) ≡ slab + 4 * i + block_size b = omega arith in
    let size : block_size b + 4 * (n * 2 ^ b) ≡ 4 * (suc n * 2 ^ b) = omega (arith, split) in
    let rest = subst (λ q. Adds b q (4 * (n * 2 ^ b)) h1 h') next a in
    let total =
      subst (λ t. Adds b (slab + 4 * i) t h h') size
        (joined-Adds b (slab + 4 * i) (block_size b) (4 * (n * 2 ^ b)) h h1 h' a1 rest) in
    (
      h',
      dump-step (suc k) b slab i h (omega (arith, w, split, one-le-pow b 2 (omega arith))) s ∙ e,
      total,
    )
