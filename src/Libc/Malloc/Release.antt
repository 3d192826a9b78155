-- ===== src/Libc/Malloc/Release.antt =====
-- A block in use goes back to its free list; libc/stdlib/malloc.c.
use native.Mathlib.Nat.{pow-le-pow_right, one-le-pow}
use rhombus.Prelude.{
  ℕ, ◌+◌, ◌-◌, ◌^◌, ◌≤◌, ◌<◌, ◌≡◌, inl, inr, refl, ap, ◌∙◌, none, List, [], ◌∷◌, ltb, leb, ◌&&◌,
  arith, if◌then◌else◌, get_or, set, Bool-cases, length-set,
}
use rhombus.Libc.Malloc.{
  Node, Heap, heap_start, heap_end, no_node, node_at, list_at, with_status, add_to_list,
}
use rhombus.Libc.Malloc.Nodes.{
  covers, leaf_covers, used_covers, free_in, count, nothing, total-set, total-one, IsHeap,
  count-cons,
}
use rhombus.Libc.Malloc.Find.{count-set}
use rhombus.Libc.Malloc.Find.Plant.{in_use}
use rhombus.Libc.Malloc.Use.{remarked, kept, remarked-IsHeap}
use rhombus.Libc.Malloc.Take.{UsedLeaf, free_marked, leaf_marked, used_marked}
use rhombus.Libc.Malloc.Search.{LeafAt}

pub UsedLeaf-LeafAt : {ns : List Node} {n p k : ℕ} → UsedLeaf ns n p k → LeafAt ns n p
UsedLeaf-LeafAt u = record { inside = u.inside; leaf = u.leaf; base = u.base }

-- A block lies in the heap, so its size has a free list.
covers_last : (base k : ℕ) → covers base k (base + 2 ^ k - 1) ≡ 1
covers_last base k = ground (arith, one-le-pow k 2 (omega arith))

covers_of_leaf : (x : ℕ) (m : Node) → m.children ≡ none → leaf_covers x m ≡ covers m.base m.size x
covers_of_leaf x m e = rw e refl

size-bound : (h : Heap) (n p k : ℕ) → IsHeap h nothing → UsedLeaf h.nodes n p k → k < 32
size-bound h n p k w u =
    let x = (node_at h n).base + 2 ^ (node_at h n).size - 1 in
    let one : leaf_covers x (node_at h n) ≡ 1 =
      covers_of_leaf x (node_at h n) u.leaf ∙ covers_last (node_at h n).base (node_at h n).size in
    let within : 1 ≤ (if leb heap_start x && ltb x heap_end then 1 else 0) =
      omega (arith, w.once x, total-one (leaf_covers x) h.nodes n u.inside, one) in
    let below : x < heap_end = ground arith in
    elim (Bool-cases (ltb k 32)) [
      | inl small ↦ ground arith
      | inr large ↦
          let huge : 2 ^ 32 ≤ 2 ^ (node_at h n).size =
            pow-le-pow_right {n = 2} (omega arith) {i = 32} (ground (arith, u.size)) in
          absurd (omega arith)
    ]

-- The heap after the last steps of free.
abbrev pub released : Heap → ℕ → ℕ → Heap
released h n k = record h { nodes = remarked 0 n h.nodes; lists = set h.lists k (n ∷ list_at h k) }

pub add_to_list-released :
    (h : Heap) (n p k : ℕ)
    → UsedLeaf h.nodes n p k
    → add_to_list n (with_status 0 n h) ≡ released h n k
unfolding add_to_list
add_to_list-released h n p k u =
    ap (λ k. released h n k)
      (kept (λ (m : Node). m.size) 0 n n h.nodes (λ m. refl) u.inside ∙ u.size)

free_in_used : (j : ℕ) (m : Node) → m.children ≡ none → m.status ≡ 1 → free_in j m ≡ 0
free_in_used j m e f = rw (e, f) refl

released_count :
    (h : Heap) (n p k i j : ℕ)
    → IsHeap h nothing
    → UsedLeaf h.nodes n p k
    → count i (get_or (set h.lists k (n ∷ list_at h k)) j []) + 0
      ≡ free_in j (get_or (remarked 0 n h.nodes) i no_node)
released_count h n p k i j w u =
    let lists =
      count-set h.lists k j i (n ∷ list_at h k) (omega (arith, size-bound h n p k w u, w.wide)) in
    let added = count-cons i n (list_at h k) in
    let node = free_marked 0 n i j h.nodes u.inside in
    let new = leaf_marked 0 j (node_at h n) u.leaf in
    let old = free_in_used j (node_at h n) u.leaf u.used in
    let here = w.queued i j in
    let own = λ (e : i ≡ n). ap (λ i. free_in j (node_at h i)) e in
    let same = λ (e : j ≡ k). ap (λ j. count i (list_at h j)) e in ground (arith, own, same, u.size)

-- A block in use goes back to its free list.
pub release-IsHeap :
    (h : Heap) (n p k : ℕ)
    → IsHeap h nothing
    → UsedLeaf h.nodes n p k
    → IsHeap (released h n k) nothing
release-IsHeap h n p k w u =
    remarked-IsHeap h 0 n (set h.lists k (n ∷ list_at h k)) nothing w u.inside
      (length-set h.lists k (n ∷ list_at h k) ∙ w.wide) (λ i j. released_count h n p k i j w u)

used_covers_leaf :
    (x : ℕ) (m : Node) → m.children ≡ none → m.status ≡ 1 → used_covers x m ≡ covers m.base m.size x
used_covers_leaf x m e f = rw (f, e) refl

pub release_used :
    (h : Heap) (n p k x : ℕ)
    → UsedLeaf h.nodes n p k
    → in_use (released h n k) x + covers p k x ≡ in_use h x
release_used h n p k x u =
    let block : covers (node_at h n).base (node_at h n).size x ≡ covers p k x =
      rw (u.base, u.size) refl in
    omega (
      arith,
      total-set (used_covers x) h.nodes n (record (node_at h n) { status = 0 }) u.inside,
      used_covers_leaf x (node_at h n) u.leaf u.used,
      used_marked 0 x (node_at h n) u.leaf,
      block,
    )
