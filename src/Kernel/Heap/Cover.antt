-- ===== src/Kernel/Heap/Cover.antt =====
-- Blocks of the kernel heap in kernel/mem/heap.c, by the bytes that they cover.
use mathlib.Core.Path.{subst}
use rhombus.Prelude.{
  true, ap, ◌∙◌, ◌==◌, get_or-set, ℕ, zero, suc, ◌+◌, ◌≤◌, ◌<◌, ◌≡◌, refl, List, [], ◌∷◌, arith,
  ltb, leb, ◌&&◌, if◌then◌else◌, get_or, set, length,
}
use rhombus.Kernel.Heap.{Heap, initial, heap_start, block_size}

-- One if the byte `x` is in the `size` bytes from `p` on.
abbrev pub covers : ℕ → ℕ → ℕ → ℕ
covers p size x = if leb p x && ltb x (p + size) then 1 else 0

-- How many blocks of a bucket cover a byte.
pub cover : ℕ → List ℕ → ℕ → ℕ
cover b [] x = 0
cover b (p ∷ ps) x = covers p (block_size b) x + cover b ps x

-- How many free blocks cover it, in the buckets from `b` on.
pub cover_free : ℕ → List (List ℕ) → ℕ → ℕ
unfolding cover
cover_free b [] x = 0
cover_free b (c ∷ cs) x = cover b c x + cover_free (b + 1) cs x

-- How many of the blocks in use, each with its bucket, cover it.
pub cover_used : List (ℕ × ℕ) → ℕ → ℕ
cover_used [] x = 0
cover_used ((p, b) ∷ us) x = covers p (block_size b) x + cover_used us x

-- With the blocks `used` in use, no byte is in two blocks, and the blocks lie between the start of
-- the heap and `brk`.
pub record IsHeap (h : Heap) (used : List (ℕ × ℕ)) : Type 0 where
  pub sixteen : length h.buckets ≡ 16
  pub started : heap_start ≤ h.brk
  pub once :
      (x : ℕ)
      → cover_free 0 h.buckets x + cover_used used x
        ≤ (if leb heap_start x && ltb x h.brk then 1 else 0)

pub cover-cons :
    (b p : ℕ) (ps : List ℕ) (x : ℕ) → cover b (p ∷ ps) x ≡ covers p (block_size b) x + cover b ps x
unfolding cover
cover-cons b p ps x = refl

pub cover_used-cons :
    (p b : ℕ) (us : List (ℕ × ℕ)) (x : ℕ)
    → cover_used ((p, b) ∷ us) x ≡ covers p (block_size b) x + cover_used us x
unfolding cover_used
cover_used-cons p b us x = refl

-- A new bucket in place of an old one.
cover_free-set :
    (b : ℕ) (cs : List (List ℕ)) (i : ℕ) (c : List ℕ) (x : ℕ)
    → i < length cs
    → cover_free b (set cs i c) x + cover (b + i) (get_or cs i []) x
      ≡ cover_free b cs x + cover (b + i) c x
unfolding cover_free
cover_free-set b [] i c x h = absurd (omega arith)
cover_free-set b (d ∷ cs) zero c x h = let e : b + 0 ≡ b = omega arith in rw e (omega arith)
cover_free-set b (d ∷ cs) (suc i) c x h =
    let e : b + suc i ≡ b + 1 + i = omega arith in
    rw e (omega (arith, cover_free-set (b + 1) cs i c x (omega arith)))

pub get_or-set_self :
    (cs : List (List ℕ)) (i : ℕ) (c : List ℕ) → i < length cs → get_or (set cs i c) i [] ≡ c
get_or-set_self cs i c h =
    let self : (i == i) ≡ true = ground arith in
    get_or-set cs i i c [] h ∙ ap (λ b. if b then c else get_or cs i []) self

pub cover_free-set_0 :
    (cs : List (List ℕ)) (i : ℕ) (c : List ℕ) (x : ℕ)
    → i < length cs
    → cover_free 0 (set cs i c) x + cover i (get_or cs i []) x ≡ cover_free 0 cs x + cover i c x
cover_free-set_0 cs i c x h =
    let e : 0 + i ≡ i = omega arith in
    subst
      (λ j.
        cover_free 0 (set cs i c) x + cover j (get_or cs i []) x ≡ cover_free 0 cs x + cover j c x)
      e (cover_free-set 0 cs i c x h)

-- At boot no block exists.
pub initial-IsHeap : IsHeap initial []
unfolding initial cover_free cover_used
initial-IsHeap = record { sixteen = refl; started = omega arith; once = λ x. omega arith }
