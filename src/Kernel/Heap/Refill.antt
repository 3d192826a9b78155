-- ===== src/Kernel/Heap/Refill.antt =====
-- heap_new_slab of kernel/mem/heap.c.
use mathlib.Core.Path.{subst}
use native.Mathlib.Nat.{one-le-pow}
use rhombus.Prelude.{
  ℕ, ◌+◌, ◌*◌, ◌/◌, ◌^◌, ◌≤◌, ◌<◌, ◌≡◌, refl, sym, ap, ◌∙◌, false, none, some, List, inl, inr,
  arith, ltb, leb, ◌&&◌, if◌then◌else◌, Bool-cases, length,
}
use rhombus.Kernel.Heap.{Heap, heap_start, heap_end, heap_valloc, slab_size, dump, heap_new_slab}
use rhombus.Kernel.Heap.Cover.{covers, cover_free, cover_used, IsHeap}
use rhombus.Kernel.Heap.Slab.{slab-blocks, stock, Adds, dump-Adds}

below : (a b : ℕ) → b < a → leb a b ≡ false
below a b h = ground arith

slab_size-words : (b : ℕ) → 4 * (slab_size b / 4) ≡ slab_size b
slab_size-words b = elim (Bool-cases (leb b 10)) [
  | inl small ↦ rw small refl
  | inr large ↦ rw large (omega arith)
]

slab_size-positive : (b : ℕ) → 0 < slab_size b
slab_size-positive b = elim (Bool-cases (leb b 10)) [
  | inl small ↦ rw small (omega arith)
  | inr large ↦ rw large (omega (arith, one-le-pow b 2 (omega arith)))
]

-- Fresh memory behind `brk` is in no block.
extended :
    (c start brk size x : ℕ)
    → start ≤ brk
    → c ≤ (if leb start x && ltb x brk then 1 else 0)
    → c + covers brk size x ≤ (if leb start x && ltb x (brk + size) then 1 else 0)
extended c start brk size x h k = ground arith

heap_valloc-fits :
    (h : Heap) (size : ℕ)
    → leb heap_end (h.brk + size) ≡ false
    → heap_valloc h size ≡ some (h.brk, record h { brk = h.brk + size })
unfolding heap_valloc
heap_valloc-fits h size fits =
    ap (λ t. if t then none else some (h.brk, record h { brk = h.brk + size })) fits

heap_new_slab_step :
    (h : Heap) (b : ℕ)
    → heap_new_slab h b ≡ (elim (heap_valloc h (slab_size b)) [
      | none ↦ none
      | some (slab, h') ↦ dump 1025 b slab 0 h'
    ])
unfolding heap_new_slab
heap_new_slab_step h b = refl

new_slab-run :
    (h h' : Heap) (b : ℕ)
    → leb heap_end (h.brk + slab_size b) ≡ false
    → dump 1025 b h.brk 0 (record h { brk = h.brk + slab_size b }) ≡ some h'
    → heap_new_slab h b ≡ some h'
new_slab-run h h' b fits e = rw (heap_new_slab_step h b, heap_valloc-fits h (slab_size b) fits) e

heap_new_slab-Adds :
    (h : Heap) (b : ℕ)
    → b < 16
    → length h.buckets ≡ 16
    → h.brk + slab_size b < heap_end
    → (h' : Heap) × (heap_new_slab h b ≡ some h')
      × Adds b h.brk (slab_size b) (record h { brk = h.brk + slab_size b }) h'
heap_new_slab-Adds h b s l room =
    let (n, few, words) = slab-blocks b s in
    let start : Heap = record h { brk = h.brk + slab_size b } in
    let (h', e, a) = dump-Adds n 1024 b h.brk 0 start s l (omega (arith, words)) few in
    let first : h.brk + 4 * 0 ≡ h.brk = omega arith in
    let size : 4 * (n * 2 ^ b) ≡ slab_size b = ap (λ w. 4 * w) (sym words) ∙ slab_size-words b in
    (
      h',
      new_slab-run h h' b (below heap_end (h.brk + slab_size b) room) e,
      subst (λ t. Adds b h.brk t start h') size
          (subst (λ q. Adds b q (4 * (n * 2 ^ b)) start h') first a),
    )

-- heap_new_slab takes fresh memory for the blocks of its bucket, which has one then.
pub heap_new_slab-IsHeap :
    (h : Heap) (b : ℕ) (used : List (ℕ × ℕ))
    → IsHeap h used
    → b < 16
    → h.brk + slab_size b < heap_end
    → (h' : Heap) × (heap_new_slab h b ≡ some h') × IsHeap h' used × (0 < stock h' b)
heap_new_slab-IsHeap h b used v s room =
    let (h', e, a) = heap_new_slab-Adds h b s v.sixteen room in
    (
      h',
      e,
      record {
        sixteen = a.sixteen ∙ v.sixteen;
        started = omega (arith, v.started, a.brk);
        once = λ x.
            let fresh =
              extended (cover_free 0 h.buckets x + cover_used used x) heap_start h.brk (slab_size b)
                x v.started (v.once x) in
            let same : h'.brk ≡ h.brk + slab_size b = a.brk in
            rw same (omega (arith, a.cover x, fresh));
      },
      elim a.grown [ inl empty ↦ absurd (omega (arith, slab_size-positive b)) | inr full ↦ full ],
    )
