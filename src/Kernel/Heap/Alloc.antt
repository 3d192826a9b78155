-- ===== src/Kernel/Heap/Alloc.antt =====
-- heap_alloc and heap_free of kernel/mem/heap.c.
use native.Mathlib.Nat.{pow-le-pow_right}
use rhombus.Prelude.{
  ℕ, ◌+◌, ◌≤◌, ◌<◌, ◌≡◌, refl, ap, ◌∙◌, false, none, some, List, [], ◌∷◌, inl, inr, arith, ltb, leb,
  ◌&&◌, if◌then◌else◌, Bool-cases, get_or, set, length, length-set,
}
use rhombus.Kernel.Heap.{
  Heap, heap_start, heap_end, block_size, bucket_of, push, heap_free, slab_size, pop, refilled,
  heap_alloc,
}
use rhombus.Kernel.Heap.Cover.{
  covers, cover, cover_free, get_or-set_self, cover_free-set_0, cover-cons, cover_used,
  cover_used-cons, IsHeap,
}
use rhombus.Kernel.Heap.Bucket.{bucket_from-past, fitting}
use rhombus.Kernel.Heap.Slab.{stock, push-Adds, heap_free-push}
use rhombus.Kernel.Heap.Refill.{heap_new_slab-IsHeap}

-- The first block of a bucket is taken.
pop-IsHeap :
    (h : Heap) (b p : ℕ) (ps : List ℕ) (used : List (ℕ × ℕ))
    → IsHeap h used
    → b < 16
    → get_or h.buckets b [] ≡ p ∷ ps
    → IsHeap (record h { buckets = set h.buckets b ps }) ((p, b) ∷ used)
pop-IsHeap h b p ps used v s e = record {
  sixteen = length-set h.buckets b ps ∙ v.sixteen;
  started = v.started;
  once = λ x.
      let moved = cover_free-set_0 h.buckets b ps x (omega (arith, v.sixteen)) in
      let first : cover b (get_or h.buckets b []) x ≡ covers p (block_size b) x + cover b ps x =
        ap (λ c. cover b c x) e ∙ cover-cons b p ps x in
      omega (arith, v.once x, moved, first, cover_used-cons p b used x);
}

-- A block that has just been handed out.
abbrev pub Fresh : Heap → List (ℕ × ℕ) → ℕ → ℕ → Type 0
Fresh h used p size =
    (x : ℕ) → p ≤ x → x < p + size → (heap_start ≤ x) × (x < h.brk) × (cover_used used x ≡ 0)

covered :
    (c d start brk x p s : ℕ)
    → p ≤ x
    → x < p + s
    → c + (covers p s x + d) ≤ (if leb start x && ltb x brk then 1 else 0)
    → (start ≤ x) × (x < brk) × (d ≡ 0)
covered c d start brk x p s l k h = elim (Bool-cases (leb start x && ltb x brk)) [
  | inl inside ↦ (ground arith, ground arith, ground arith)
  | inr outside ↦ absurd (ground arith)
]

fresh :
    (h : Heap) (used : List (ℕ × ℕ)) (p b size : ℕ)
    → IsHeap h ((p, b) ∷ used)
    → size ≤ block_size b
    → Fresh h used p size
fresh h used p b size v s x l k =
    covered (cover_free 0 h.buckets x) (cover_used used x) heap_start h.brk x p (block_size b) l
      (omega arith) (omega (arith, v.once x, cover_used-cons p b used x))

alloc-step :
    (h h' : Heap) (size : ℕ)
    → bucket_of size < 16
    → refilled h (bucket_of size) (get_or h.buckets (bucket_of size) []) ≡ some h'
    → heap_alloc h size ≡ some (pop h' (bucket_of size) (get_or h'.buckets (bucket_of size) []))
unfolding heap_alloc
alloc-step h h' size s e =
    let near : ltb 16 (bucket_of size) ≡ false = ground arith in rw (near, e) refl

-- The bucket of `heap_alloc` has a block, after a slab where it had none.
refilled-IsHeap :
    (h : Heap) (b : ℕ) (used : List (ℕ × ℕ)) (c : List ℕ)
    → IsHeap h used
    → b < 16
    → h.brk + slab_size b < heap_end
    → get_or h.buckets b [] ≡ c
    → (h' : Heap) × (refilled h b c ≡ some h') × IsHeap h' used × (0 < stock h' b)
refilled-IsHeap h b used [] v s room e = heap_new_slab-IsHeap h b used v s room
refilled-IsHeap h b used (p ∷ ps) v s room e = (h, refl, v, omega (arith, ap length e))

popped :
    (h : Heap) (b : ℕ) (used : List (ℕ × ℕ)) (c : List ℕ)
    → IsHeap h used
    → b < 16
    → 0 < length c
    → get_or h.buckets b [] ≡ c
    → (p : ℕ) × (h' : Heap) × (pop h b c ≡ (p, h')) × IsHeap h' ((p, b) ∷ used)
popped h b used [] v s l e = absurd (omega arith)
popped h b used (p ∷ ps) v s l e =
    (p, record h { buckets = set h.buckets b ps }, refl, pop-IsHeap h b p ps used v s e)

-- heap_alloc of at most 128 KiB, while the address range of the heap has room for a slab, returns a
-- block of at least that size between the start of the heap and `brk`, none of whose bytes is in
-- a block in use; and with the new block in use the heap is well formed again.
pub heap_alloc-IsHeap :
    (h : Heap) (used : List (ℕ × ℕ)) (size : ℕ)
    → IsHeap h used
    → size ≤ 0x20000
    → h.brk + slab_size (bucket_of size) < heap_end
    → (p : ℕ) × (h' : Heap) × (heap_alloc h size ≡ some (p, h'))
      × IsHeap h' ((p, bucket_of size) ∷ used)
      × Fresh h' used p size
heap_alloc-IsHeap h used size v l room =
    let b = bucket_of size in
    let (s, fits) = fitting size l in
    let (h1, e1, v1, full) = refilled-IsHeap h b used (get_or h.buckets b []) v s room refl in
    let (p, h', e2, v2) = popped h1 b used (get_or h1.buckets b []) v1 s full refl in
    (p, h', alloc-step h h1 size s e1 ∙ ap some e2, v2, fresh h' used p b size v2 fits)

-- heap_alloc where the bucket has a block.
alloc_first :
    (h : Heap) (size p : ℕ) (ps : List ℕ)
    → bucket_of size < 16
    → get_or h.buckets (bucket_of size) [] ≡ p ∷ ps
    → heap_alloc h size ≡ some (p, record h { buckets = set h.buckets (bucket_of size) ps })
alloc_first h size p ps s e =
    alloc-step h h size s (ap (refilled h (bucket_of size)) e)
    ∙ ap (λ c. some (pop h (bucket_of size) c)) e

-- heap_free of a block in use, with a size of its bucket, puts it back: the heap is well formed
-- with the other blocks in use, the free blocks are those from before and this one, and the next
-- heap_alloc of that size returns it.
pub heap_free-IsHeap :
    (h : Heap) (used : List (ℕ × ℕ)) (p size : ℕ)
    → IsHeap h ((p, bucket_of size) ∷ used)
    → size ≤ 0x20000
    → (h' : Heap) × (heap_free h p size ≡ some h')
      × IsHeap h' used
      × ((x : ℕ)
          → cover_free 0 h'.buckets x
            ≡ cover_free 0 h.buckets x + covers p (block_size (bucket_of size)) x)
      × ((h'' : Heap) × (heap_alloc h' size ≡ some (p, h'')))
unfolding push
heap_free-IsHeap h used p size v l =
    let b = bucket_of size in
    let (s, fits) = fitting size l in
    let a = push-Adds h b p v.sixteen s in
    let ps = get_or h.buckets b [] in
    let first = get_or-set_self h.buckets b (p ∷ ps) (omega (arith, s, v.sixteen)) in
    (
      push h b p,
      heap_free-push h p size b refl s,
      record {
        sixteen = a.sixteen ∙ v.sixteen;
        started = v.started;
        once = λ x. omega (arith, v.once x, a.cover x, cover_used-cons p b used x);
      },
      λ x. omega (arith, a.cover x),
      (
        record h { buckets = set (set h.buckets b (p ∷ ps)) b ps },
        alloc_first (push h b p) size p ps s first,
      ),
    )

-- A block of more than 128 KiB: heap_alloc returns null and changes nothing, but heap_free, whose
-- test lets bucket 17 through, writes past the array of buckets.
pub heap_free-past :
    (h : Heap) (p size : ℕ)
    → 0x20000 < size
    → (heap_alloc h size ≡ some (0, h)) × (heap_free h p size ≡ none)
unfolding heap_alloc heap_free
heap_free-past h p size l =
    let e : bucket_of size ≡ 17 = bucket_from-past 16 0 size (λ j k.
      omega (arith, pow-le-pow_right {n = 2} (omega arith) {i = j} {j = 15} (omega arith))) in
    (rw e refl, rw e refl)
