-- ===== src/Libc/Malloc/Find.antt =====
-- _find_node of libc/stdlib/malloc.c keeps the heap well formed and the blocks in use.
pub mod Split
pub mod Grown
pub mod Plant
pub mod Whole
use mathlib.Core.Path.{subst}
use rhombus.Prelude.{
  ℕ, zero, suc, ◌+◌, ◌-◌, ◌^◌, ◌≤◌, ◌<◌, ◌≡◌, ◌≢◌, ◌⊎◌, inl, inr, refl, ap, sym, ◌∙◌, Bool, true,
  false, Option, none, some, List, [], ◌∷◌, ◌++◌, ◌==◌, ltb, leb, ◌&&◌, arith, if◌then◌else◌,
  length, get_or, set, Bool-cases, ltb→lt, Option-cases, get_or-set, length-append, length-set,
}
use rhombus.Libc.Malloc.{
  Node, Heap, heap_start, heap_end, no_node, node_at, list_at, half, ilog2, add_to_list, plant,
  split_node, halve, find_node,
}
use rhombus.Libc.Malloc.Nodes.{
  covers, leaf_covers, used_covers, free_in, total, count, Out, nothing, single, Halves, Root,
  IsHeap, total-append, total-set, get_or-append_two, get_or-past, list-past, count-nil, count-cons,
}

-- A free leaf of size `k`.
pub record FreeLeaf (ns : List Node) (n k : ℕ) : Type 0 where
  pub inside : n < length ns
  pub leaf : (get_or ns n no_node).children ≡ none
  pub unused : (get_or ns n no_node).status ≡ 0
  pub size : (get_or ns n no_node).size ≡ k

free_in-children : (k : ℕ) (m : Node) (c : ℕ × ℕ) → m.children ≡ some c → free_in k m ≡ 0
free_in-children k m c e = rw e refl

pub free_in-leaf :
    (k : ℕ) (m : Node)
    → m.children ≡ none
    → free_in k m ≡ (if m.status == 0 then (if m.size == k then 1 else 0) else 0)
free_in-leaf k m e = rw e refl

pub free_in-FreeLeaf :
    (ns : List Node) (n k c : ℕ) → free_in k (get_or ns n no_node) ≡ suc c → FreeLeaf ns n k
free_in-FreeLeaf ns n k c e = elim (Bool-cases (ltb n (length ns))) [
  | inr out ↦ absurd (ground (arith, ap (free_in k) (get_or-past ns n (ground arith))))
  | inl below ↦ elim (Option-cases (get_or ns n no_node).children) [
    | inr (c, inner) ↦ absurd (ground (arith, free_in-children k (get_or ns n no_node) c inner))
    | inl leaf ↦
        let f = free_in-leaf k (get_or ns n no_node) leaf in
        record { inside = ground arith; leaf = leaf; unused = ground arith; size = ground arith }
  ]
]

-- The count of a node in a list when one list is replaced.
pub count-set :
    (lists : List (List ℕ)) (k j i : ℕ) (l : List ℕ)
    → k < length lists
    → count i (get_or (set lists k l) j [])
      ≡ (if j == k then count i l else count i (get_or lists j []))
count-set lists k j i l h = elim (Bool-cases (j == k)) [
  | inl same ↦ rw same (ap (count i) (get_or-set lists k j l [] h ∙ rw same refl))
  | inr other ↦ rw other (ap (count i) (get_or-set lists k j l [] h ∙ rw other refl))
]

pop_count :
    (h : Heap) (k n : ℕ) (rest : List ℕ) (i j : ℕ)
    → IsHeap h nothing
    → k < length h.lists
    → list_at h k ≡ n ∷ rest
    → count i (get_or (set h.lists k rest) j []) + single n k i j ≡ free_in j (node_at h i)
pop_count h k n rest i j w below e = elim (Bool-cases (j == k)) [
  | inl same ↦
      let eq : j ≡ k = ground arith in
      ground (
        arith,
        count-set h.lists k j i rest below,
        w.queued i j,
        ap (λ j. count i (list_at h j)) eq,
        ap (count i) e,
        count-cons i n rest,
      )
  | inr other ↦ ground (arith, count-set h.lists k j i rest below, w.queued i j)
]

-- The first node of a free list is taken out of it.
pub pop-IsHeap :
    (h : Heap) (k n : ℕ) (rest : List ℕ)
    → IsHeap h nothing
    → list_at h k ≡ n ∷ rest
    → IsHeap (record h { lists = set h.lists k rest }) (single n k)
pop-IsHeap h k n rest w e = elim (Bool-cases (ltb k 32)) [
  | inr out ↦ absurd (cc (list-past h.lists k (ground (arith, w.wide)), e))
  | inl below ↦ record {
    wide = length-set h.lists k rest ∙ w.wide;
    rooted = elim w.rooted [
      | inl none_yet ↦ inl none_yet
      | inr r ↦
          inr (record { first = r.first; some_node = r.some_node; base = r.base; size = r.size })
    ];
    queued = λ i j. pop_count h k n rest i j w (omega (arith, ltb→lt k 32 below, w.wide)) e;
    once = w.once;
    halves = w.halves;
  }
]
