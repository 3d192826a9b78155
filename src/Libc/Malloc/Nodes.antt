-- ===== src/Libc/Malloc/Nodes.antt =====
-- The well-formed heaps of libc/stdlib/malloc.c: the leaves of the tree cover every byte at most
-- once, and the free lists hold exactly the free leaves.
use rhombus.Prelude.{
  ℕ, zero, suc, ◌+◌, ◌^◌, ◌≤◌, ◌<◌, ◌≡◌, ◌⊎◌, refl, ap, none, some, List, [], ◌∷◌, ◌++◌, ◌==◌, ltb,
  leb, ◌&&◌, arith, if◌then◌else◌, length, get_or, set,
}
use rhombus.Libc.Malloc.{Node, Heap, heap_start, heap_end, no_node, node_at, list_at}

-- One if the byte `x` is in the block of a node.
abbrev pub covers : ℕ → ℕ → ℕ → ℕ
covers base size x = if leb base x && ltb x (base + 2 ^ size) then 1 else 0

-- The same for a leaf, zero for an inner node.
abbrev pub leaf_covers : ℕ → Node → ℕ
leaf_covers x n = elim n.children [ none ↦ covers n.base n.size x | some c ↦ 0 ]

-- The same for a leaf in use.
abbrev pub used_covers : ℕ → Node → ℕ
used_covers x n = if n.status == 0 then 0 else leaf_covers x n

-- One if the node is a free leaf of size `k`.
abbrev pub free_in : ℕ → Node → ℕ
free_in k n = elim n.children [
  | none ↦ if n.status == 0 then (if n.size == k then 1 else 0) else 0
  | some c ↦ 0
]

-- A sum over all nodes.
unfoldable pub total : (Node → ℕ) → List Node → ℕ
total w [] = 0
total w (n ∷ ns) = w n + total w ns

-- How often a node stands in a free list.
pub count : ℕ → List ℕ → ℕ
count i [] = 0
count i (j ∷ js) = (if j == i then 1 else 0) + count i js

-- Nodes that are out of the free lists though they are free: how often each, by its size.
abbrev pub Out : Type 0
Out = ℕ → ℕ → ℕ

abbrev pub nothing : Out
nothing i k = 0

abbrev pub single : ℕ → ℕ → Out
single n size i k = if i == n && k == size then 1 else 0

-- A node with children is before them, and they halve its block.
pub record Halves (ns : List Node) (i l r : ℕ) : Type 0 where
  pub left_after : i < l
  pub right_after : i < r
  pub left_in : l < length ns
  pub right_in : r < length ns
  pub left_base : (get_or ns l no_node).base ≡ (get_or ns i no_node).base
  pub left_size : suc (get_or ns l no_node).size ≡ (get_or ns i no_node).size
  pub right_base :
      (get_or ns r no_node).base ≡ (get_or ns i no_node).base + 2 ^ (get_or ns r no_node).size
  pub right_size : suc (get_or ns r no_node).size ≡ (get_or ns i no_node).size

-- The root, if there is one.
pub record Root (h : Heap) : Type 0 where
  pub first : h.tree ≡ some 0
  pub some_node : 0 < length h.nodes
  pub base : (node_at h 0).base ≡ heap_start
  pub size : (node_at h 0).size ≡ 29

pub record IsHeap (h : Heap) (out : Out) : Type 0 where
  pub wide : length h.lists ≡ 32
  pub rooted : ((h.tree ≡ none) × (h.nodes ≡ [])) ⊎ Root h
  pub queued : (i k : ℕ) → count i (list_at h k) + out i k ≡ free_in k (node_at h i)
  pub once :
      (x : ℕ)
      → total (leaf_covers x) h.nodes ≤ (if leb heap_start x && ltb x heap_end then 1 else 0)
  pub halves :
      (i l r : ℕ) → i < length h.nodes → (node_at h i).children ≡ some (l, r) → Halves h.nodes i l r

pub total-append : (w : Node → ℕ) (xs ys : List Node) → total w (xs ++ ys) ≡ total w xs + total w ys
unfolding total
total-append w [] ys = omega arith
total-append w (x ∷ xs) ys = omega (arith, total-append w xs ys)

pub total-set :
    (w : Node → ℕ) (xs : List Node) (i : ℕ) (n : Node)
    → i < length xs
    → total w (set xs i n) + w (get_or xs i no_node) ≡ total w xs + w n
unfolding total
total-set w [] i n h = absurd (omega arith)
total-set w (x ∷ xs) zero n h = omega arith
total-set w (x ∷ xs) (suc i) n h = omega (arith, total-set w xs i n (omega arith))

-- The nodes when two are added.
pub get_or-append_two :
    (xs : List Node) (a b : Node) (i : ℕ)
    → get_or (xs ++ (a ∷ b ∷ [])) i no_node ≡ (
        if ltb i (length xs)
        then get_or xs i no_node
        else (if i == length xs then a else (if i == suc (length xs) then b else no_node)))
get_or-append_two [] a b zero = ground arith
get_or-append_two [] a b (suc zero) = ground arith
get_or-append_two [] a b (suc (suc i)) = ground arith
get_or-append_two (x ∷ xs) a b zero = ground arith
get_or-append_two (x ∷ xs) a b (suc i) = ground (arith, get_or-append_two xs a b i)

pub get_or-past : (xs : List Node) (i : ℕ) → length xs ≤ i → get_or xs i no_node ≡ no_node
get_or-past [] i h = refl
get_or-past (x ∷ xs) zero h = absurd (omega arith)
get_or-past (x ∷ xs) (suc i) h = get_or-past xs i (omega arith)

pub list-past : (xs : List (List ℕ)) (i : ℕ) → length xs ≤ i → get_or xs i [] ≡ []
list-past [] i h = refl
list-past (x ∷ xs) zero h = absurd (omega arith)
list-past (x ∷ xs) (suc i) h = list-past xs i (omega arith)

pub count-nil : (i : ℕ) → count i [] ≡ 0
unfolding count
count-nil i = refl

pub count-cons : (i j : ℕ) (js : List ℕ) → count i (j ∷ js) ≡ (if j == i then 1 else 0) + count i js
unfolding count
count-cons i j js = refl

-- A node in a free list is a free leaf of the size of the list.
pub queued-leaf :
    {h : Heap} {out : Out} (k n : ℕ) (rest : List ℕ)
    → IsHeap h out
    → list_at h k ≡ n ∷ rest
    → free_in k (node_at h n) ≡ suc (count n rest + out n k)
queued-leaf {h = h} k n rest w e = ground (arith, w.queued n k, ap (count n) e, count-cons n n rest)

pub total-one :
    (w : Node → ℕ) (xs : List Node) (j : ℕ) → j < length xs → w (get_or xs j no_node) ≤ total w xs
unfolding total
total-one w [] j q = absurd (omega arith)
total-one w (x ∷ xs) zero q = omega arith
total-one w (x ∷ xs) (suc j) q = omega (arith, total-one w xs j (omega arith))

-- Two leaves do not share a byte.
pub total-two :
    (w : Node → ℕ) (xs : List Node) (i j : ℕ)
    → i < j
    → j < length xs
    → w (get_or xs i no_node) + w (get_or xs j no_node) ≤ total w xs
unfolding total
total-two w [] i j p q = absurd (omega arith)
total-two w (x ∷ xs) zero zero p q = absurd (omega arith)
total-two w (x ∷ xs) (suc i) zero p q = absurd (omega arith)
total-two w (x ∷ xs) zero (suc j) p q = omega (arith, total-one w xs j (omega arith))
total-two w (x ∷ xs) (suc i) (suc j) p q =
    omega (arith, total-two w xs i j (omega arith) (omega arith))
