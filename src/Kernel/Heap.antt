-- ===== src/Kernel/Heap.antt =====
-- The kernel heap, kernel/mem/heap.c. A block is its address; the list in bucket `n` has the free
-- blocks of 4 * 2^n bytes. `none` is a call of debug_panic, or an access past the sixteen buckets;
-- that heap_valloc maps the pages it hands out, and that heap_alloc clears them, is not modelled.
pub mod Cover
pub mod Bucket
pub mod Slab
pub mod Refill
pub mod Alloc
mod Tests
use rhombus.Prelude.{
  ℕ, zero, suc, ◌+◌, ◌*◌, ◌/◌, ◌^◌, Bool, Option, none, some, List, [], ◌∷◌, ◌==◌, ltb, leb,
  if◌then◌else◌, get_or, set, replicate,
}

-- KERNEL_HEAP
abbrev pub heap_start : ℕ
heap_start = 0xF1000000

-- KERNEL_HEAP_END
abbrev pub heap_end : ℕ
heap_end = 0xF8000000

-- `heap_bucket`, and `brk` of `heap_valloc`.
pub record Heap : Type 0 where
  pub buckets : List (List ℕ)
  pub brk : ℕ

-- `sizeof(uintptr_t) * (1 << i)`
abbrev pub block_size : ℕ → ℕ
block_size i = 4 * 2 ^ i

-- The search of `heap_alloc` and `heap_free`, with `n` buckets left from `i` on.
pub bucket_from : ℕ → ℕ → ℕ → ℕ
bucket_from zero i size = 17
bucket_from (suc n) i size =
    let rest = bucket_from n (i + 1) size in if leb size (block_size i) then i else rest

abbrev pub bucket_of : ℕ → ℕ
bucket_of size = bucket_from 16 0 size

-- A block enters its bucket: the end of `heap_free`.
pub push : Heap → ℕ → ℕ → Heap
push h bucket p = record h { buckets = set h.buckets bucket (p ∷ get_or h.buckets bucket []) }

-- `heap_free`: for bucket 17 it writes past `heap_bucket`.
pub heap_free : Heap → ℕ → ℕ → Option Heap
unfolding bucket_from push
heap_free h p size =
    let bucket = bucket_of size in
    if ltb 17 bucket then some h else if ltb bucket 16 then some (push h bucket p) else none

-- `heap_valloc`
pub heap_valloc : Heap → ℕ → Option (ℕ × Heap)
heap_valloc h size =
    if leb heap_end (h.brk + size) then none else some (h.brk, record h { brk = h.brk + size })

-- `slabsize`
abbrev pub slab_size : ℕ → ℕ
slab_size bucket = if leb bucket 10 then 4096 else 4 * 2 ^ bucket * 4

-- The loop of `heap_new_slab`, on fuel.
pub dump : ℕ → ℕ → ℕ → ℕ → Heap → Option Heap
unfolding heap_free
dump zero bucket slab i h = none
dump (suc k) bucket slab i h =
    if ltb i (slab_size bucket / 4)
    then (elim (heap_free h (slab + 4 * i) (block_size bucket)) [
      | none ↦ none
      | some h' ↦ dump k bucket slab (i + 2 ^ bucket) h'
    ])
    else some h

-- `heap_new_slab`: a slab has at most 1024 blocks.
pub heap_new_slab : Heap → ℕ → Option Heap
unfolding heap_valloc dump
heap_new_slab h bucket = elim (heap_valloc h (slab_size bucket)) [
  | none ↦ none
  | some (slab, h') ↦ dump 1025 bucket slab 0 h'
]

-- The end of `heap_alloc`: the first block of the bucket, or zero, the null pointer.
abbrev pub pop : Heap → ℕ → List ℕ → ℕ × Heap
pop h bucket [] = (0, h)
pop h bucket (p ∷ ps) = (p, record h { buckets = set h.buckets bucket ps })

abbrev pub refilled : Heap → ℕ → List ℕ → Option Heap
refilled h bucket [] = heap_new_slab h bucket
refilled h bucket (p ∷ ps) = some h

-- `heap_alloc`; no bucket is 16.
pub heap_alloc : Heap → ℕ → Option (ℕ × Heap)
unfolding bucket_from heap_new_slab
heap_alloc h size =
    let bucket = bucket_of size in
    if ltb 16 bucket then some (0, h) else elim (refilled h bucket (get_or h.buckets bucket [])) [
      | none ↦ none
      | some h' ↦ some (pop h' bucket (get_or h'.buckets bucket []))
    ]

-- The static variables before the first call.
pub initial : Heap
initial = record { buckets = replicate 16 []; brk = heap_start }
