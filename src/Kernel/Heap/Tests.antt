-- ===== src/Kernel/Heap/Tests.antt =====
-- The theorems on the kernel heap at its first allocation.
use rhombus.Prelude.{ℕ, ◌+◌, ◌≡◌, some, [], ◌∷◌, arith}
use rhombus.Kernel.Heap.{Heap, block_size, bucket_from, bucket_of, heap_free, heap_alloc, initial}
use rhombus.Kernel.Heap.Cover.{covers, cover_free, IsHeap, initial-IsHeap}
use rhombus.Kernel.Heap.Alloc.{Fresh, heap_alloc-IsHeap, heap_free-IsHeap}

allocated :
    (p : ℕ) × (h' : Heap) × (heap_alloc initial 24 ≡ some (p, h'))
    × IsHeap h' ((p, bucket_of 24) ∷ [])
    × Fresh h' [] p 24
unfolding initial bucket_from
allocated = heap_alloc-IsHeap initial [] 24 initial-IsHeap (omega arith) (omega arith)

heap_alloc-IsHeap_example :
    (p : ℕ) × (h' : Heap) × (heap_alloc initial 24 ≡ some (p, h'))
    × IsHeap h' ((p, bucket_of 24) ∷ [])
    × Fresh h' [] p 24
unfolding initial bucket_from
heap_alloc-IsHeap_example =
    heap_alloc-IsHeap initial [] 24 initial-IsHeap (omega arith) (omega arith)

heap_free-IsHeap_example :
    (h' : Heap) × (heap_free allocated.1 allocated.0 24 ≡ some h')
    × IsHeap h' []
    × ((x : ℕ)
        → cover_free 0 h'.buckets x
          ≡ cover_free 0 (allocated.1).buckets x + covers allocated.0 (block_size (bucket_of 24)) x)
    × ((h'' : Heap) × (heap_alloc h' 24 ≡ some (allocated.0, h'')))
heap_free-IsHeap_example = heap_free-IsHeap allocated.1 [] allocated.0 24 allocated.3 (omega arith)
