-- ===== src/Libc/Malloc/Tests.antt =====
-- The user heap at the first allocations.
use rhombus.Prelude.{
  ℕ, ◌*◌, ◌^◌, ◌≤◌, ◌<◌, ◌≡◌, refl, Bool, true, Option, some, arith, ltb, leb, ◌&&◌, if◌then◌else◌,
}
use rhombus.Libc.Malloc.{Heap, heap_start, heap_end, initial, ilog2, malloc, aalloc}
use rhombus.Libc.Malloc.Nodes.{nothing, IsHeap}
use rhombus.Libc.Malloc.Initial.{initial-IsHeap}
use rhombus.Libc.Malloc.Alloc.{Allocated, malloc-IsHeap}
use rhombus.Libc.Malloc.Find.Plant.{in_use}
use rhombus.Libc.Malloc.Undo.{Undone, free-malloc}

abbrev memory : ℕ → ℕ → Bool
memory base size = true

ilog2_runs : (ilog2 1 ≡ 0) × (ilog2 100 ≡ 7) × (ilog2 128 ≡ 7) × (ilog2 129 ≡ 8)
unfolding ilog2
ilog2_runs = (refl, refl, refl, refl)

malloc_first : (malloc memory 100 initial).0 ≡ some heap_start
unfolding malloc initial
malloc_first = refl

-- Half of the heap and more is one block, which stands at the start of the heap, and that is no
-- multiple of its size.
aalloc_aligned_to_half : (aalloc memory 1 0x20000000 initial).0 ≡ some 0x10000000
unfolding aalloc initial
aalloc_aligned_to_half = refl

malloc-IsHeap_example :
    (o : Option ℕ) × (h' : Heap) × (malloc memory 100 initial ≡ (o, h'))
    × IsHeap h' nothing
    × Allocated memory initial h' (ilog2 100) o
    × (100 ≤ 2 ^ ilog2 100)
    × (2 ^ ilog2 100 < 2 * 100)
    × ((x : ℕ) → in_use h' x ≤ (if leb heap_start x && ltb x heap_end then 1 else 0))
malloc-IsHeap_example = malloc-IsHeap memory 100 initial (omega arith) (omega arith) initial-IsHeap

abbrev after_first : Heap
after_first = (malloc memory 100 initial).1

malloc_first_whole : malloc memory 100 initial ≡ (some heap_start, after_first)
unfolding malloc initial
malloc_first_whole = refl

free-malloc_example : Undone initial after_first heap_start (ilog2 100)
free-malloc_example =
    free-malloc memory 100 initial after_first heap_start (omega arith) (omega arith) initial-IsHeap
      malloc_first_whole
