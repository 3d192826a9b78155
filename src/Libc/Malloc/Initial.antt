-- ===== src/Libc/Malloc/Initial.antt =====
-- The heap before the first malloc is well formed, and no byte is ever in two blocks in use.
use rhombus.Prelude.{
  ℕ, zero, suc, ◌≤◌, ◌≡◌, refl, inl, inr, List, [], ◌∷◌, ◌==◌, ltb, leb, ◌&&◌, arith, if◌then◌else◌,
  get_or, replicate, Bool-cases,
}
use rhombus.Libc.Malloc.{Node, Heap, heap_start, heap_end, initial}
use rhombus.Libc.Malloc.Nodes.{leaf_covers, used_covers, total, count, nothing, IsHeap, count-nil}
use rhombus.Libc.Malloc.Find.Plant.{in_use}

used_covers-le : (x : ℕ) (m : Node) → used_covers x m ≤ leaf_covers x m
used_covers-le x m = elim (Bool-cases (m.status == 0)) [
  | inl unused ↦ rw unused (omega arith)
  | inr used ↦ rw used (omega arith)
]

total-le : (x : ℕ) (ns : List Node) → total (used_covers x) ns ≤ total (leaf_covers x) ns
unfolding total
total-le x [] = omega arith
total-le x (n ∷ ns) = omega (arith, used_covers-le x n, total-le x ns)

pub in_use-once :
    (h : Heap) (x : ℕ)
    → IsHeap h nothing
    → in_use h x ≤ (if leb heap_start x && ltb x heap_end then 1 else 0)
in_use-once h x w = omega (arith, total-le x h.nodes, w.once x)

empty_lists : (n i k : ℕ) → count i (get_or (replicate n []) k []) ≡ 0
empty_lists zero i k = count-nil i
empty_lists (suc n) i zero = count-nil i
empty_lists (suc n) i (suc k) = empty_lists n i k

pub initial-IsHeap : IsHeap initial nothing
unfolding initial total
initial-IsHeap = record {
  wide = refl;
  rooted = inl (refl, refl);
  queued = λ i k. omega (arith, empty_lists 32 i k);
  once = λ x. omega arith;
  halves = λ i l r k e. absurd (omega arith);
}
