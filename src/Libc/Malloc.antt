-- ===== src/Libc/Malloc.antt =====
-- The user heap, libc/stdlib/malloc.c. A node is its index in a list to which new_heap_node adds;
-- a free list is the list of its nodes from the head on, which stands for `next` and `prev`. The
-- functions hold `_mutex` while they use the tree and the lists.
pub mod Log
pub mod Nodes
pub mod Find
pub mod Use
pub mod Take
pub mod Alloc
pub mod Initial
pub mod Search
pub mod Release
pub mod Undo
mod Tests
use rhombus.Prelude.{
  ℕ, zero, suc, ◌+◌, ◌-◌, ◌*◌, ◌/◌, ◌%◌, ◌^◌, Bool, true, false, not, Option, none, some, List, [],
  ◌∷◌, ◌++◌, ◌==◌, ltb, leb, if◌then◌else◌, length, get_or, set, replicate,
}

-- `struct heap_node`; `left` and `right` are set together.
pub record Node : Type 0 where
  pub children : Option (ℕ × ℕ)
  pub status : ℕ
  pub base : ℕ
  pub size : ℕ

-- `_tree` and `_list`, with the nodes they point to.
pub record Heap : Type 0 where
  pub nodes : List Node
  pub tree : Option ℕ
  pub lists : List (List ℕ)

-- HEAP_START and HEAP_END
abbrev pub heap_start : ℕ
heap_start = 0x10000000

abbrev pub heap_end : ℕ
heap_end = 0x30000000

pub initial : Heap
initial = record { nodes = []; tree = none; lists = replicate 32 [] }

-- `n & mask`, for the mask of the `count` bits from `from` on.
pub any_bit : ℕ → ℕ → ℕ → Bool
any_bit n from count = not ((n / 2 ^ from) % 2 ^ count == 0)

-- One of the five tests of `ilog2`.
pub narrow : ℕ → ℕ × ℕ → ℕ × ℕ
unfolding any_bit
narrow b (n, r) = if any_bit n b b then (n / 2 ^ b, r + b) else (n, r)

-- `ilog2`
pub ilog2 : ℕ → ℕ
unfolding narrow
ilog2 n =
    let (_, r) = narrow 1 (narrow 2 (narrow 4 (narrow 8 (narrow 16 (n, 0))))) in
    if 2 ^ r == n then r else r + 1

-- Out of bounds there is no free node.
abbrev pub no_node : Node
no_node = record { children = some (0, 0); status = 1; base = 0; size = 0 }

abbrev pub node_at : Heap → ℕ → Node
node_at h i = get_or h.nodes i no_node

abbrev pub list_at : Heap → ℕ → List ℕ
list_at h k = get_or h.lists k []

-- `_add_to_list`
pub add_to_list : ℕ → Heap → Heap
add_to_list i h = let k = (node_at h i).size in record h { lists = set h.lists k (i ∷ list_at h k) }

-- The construction of the tree in `_find_node`, on the first allocation. The memory of its node is taken
-- to be clear, since the children are not set.
pub plant : Heap → Heap
unfolding add_to_list ilog2
plant h = elim h.tree [
  | some t ↦ h
  | none ↦
      let root : Node = record {
        children = none;
        status = 0;
        base = heap_start;
        size = ilog2 (heap_end - heap_start);
      } in
      add_to_list (length h.nodes)
        (record h { nodes = h.nodes ++ (root ∷ []); tree = some (length h.nodes) })
]

-- The two halves of a node that `_find_node` splits.
abbrev pub half : ℕ → ℕ → Node
half base index = record { children = none; status = 0; base = base; size = index }

-- The part of `_find_node` that splits the node `n` into two of size `index`.
pub split_node : ℕ → ℕ → Heap → Heap
unfolding add_to_list
split_node n index h =
    let node = node_at h n in
    let left = length h.nodes in
    let right = suc left in
    let parent = record node { children = some (left, right) } in
    let halves = half node.base index ∷ half (node.base + 2 ^ index) index ∷ [] in
    add_to_list right (record h { nodes = set h.nodes n parent ++ halves })

-- What `_find_node` does with the larger node that it asked for.
pub halve : ℕ → Option ℕ × Heap → Option ℕ × Heap
unfolding split_node
halve index (none, h) = (none, h)
halve index (some n, h) = (some (length h.nodes), split_node n index h)

-- `_find_node`, for `left` sizes from `index` on; at 32 there are none.
pub find_node : ℕ → ℕ → Heap → Option ℕ × Heap
unfolding plant halve
find_node zero index h = (none, h)
find_node (suc left) index h =
    let h1 = plant h in
    elim (list_at h1 index) [
      | n ∷ rest ↦ (some n, record h1 { lists = set h1.lists index rest })
      | [] ↦ halve index (find_node left (suc index) h1)
    ]

abbrev pub with_status : ℕ → ℕ → Heap → Heap
with_status v n h = record h { nodes = set h.nodes n (record (node_at h n) { status = v }) }

-- `malloc`, with the answer of `page_anon`, whether it succeeds for a base and a size.
pub malloc : (ℕ → ℕ → Bool) → ℕ → Heap → Option ℕ × Heap
unfolding ilog2 find_node
malloc anon size h =
    let index = ilog2 size in
    let (found, h1) = find_node (32 - index) index h in
    elim found [
      | none ↦ (none, h1)
      | some n ↦
          let h2 = with_status 1 n h1 in
          let base = (node_at h2 n).base in
          if anon base (2 ^ index) then (some base, h2) else (none, h2)
    ]

-- `aalloc`
pub aalloc : (ℕ → ℕ → Bool) → ℕ → ℕ → Heap → Option ℕ × Heap
unfolding malloc ilog2
aalloc anon size align h =
    if align == 0
    then malloc anon size h
    else (if align == 2 ^ ilog2 align
        then malloc anon (if ltb align size then size else align) h
        else (none, h))

-- The loop of `_get_by_addr` from the node `i` on.
pub walk : ℕ → List Node → ℕ → ℕ → Option ℕ
walk zero nodes i addr = none
walk (suc fuel) nodes i addr =
    let node = get_or nodes i no_node in
    elim node.children [
      | none ↦ if addr == node.base then some i else none
      | some (l, r) ↦ walk fuel nodes (if ltb addr (get_or nodes r no_node).base then l else r) addr
    ]

-- `_get_by_addr`: a child stands behind its parent, so the number of nodes is enough fuel.
pub get_by_addr : Heap → ℕ → Option ℕ
unfolding walk
get_by_addr h addr = elim h.tree [
  | none ↦ none
  | some root ↦ walk (suc (length h.nodes)) h.nodes root addr
]

-- `msize`
pub msize : Heap → ℕ → ℕ
unfolding get_by_addr
msize h addr = elim (get_by_addr h addr) [
  | none ↦ 0
  | some n ↦ if (node_at h n).status == 1 then 2 ^ (node_at h n).size else 0
]

-- How `free` ends: with the heap, and what it asks `page_free` for, or in `abort`.
pub data Freed : Type 0 where
  finished : Heap → Option (ℕ × ℕ) → Freed
  aborted : Freed

-- `free`
pub free : Heap → ℕ → Freed
unfolding get_by_addr add_to_list
free h addr = elim (get_by_addr h addr) [
  | none ↦ if addr == 0 then finished h none else aborted
  | some n ↦
      let node = node_at h n in
      if node.status == 0
      then aborted
      else finished (add_to_list n (with_status 0 n h))
          (if leb 12 node.size then some (node.base, 2 ^ node.size) else none)
]
