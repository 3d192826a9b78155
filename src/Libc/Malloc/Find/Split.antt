-- ===== src/Libc/Malloc/Find/Split.antt =====
-- The split of a node in _find_node keeps the heap well formed.
use rhombus.Prelude.{
  ℕ, suc, ◌+◌, ◌^◌, ◌≤◌, ◌<◌, ◌≡◌, inl, inr, refl, ap, ◌∙◌, some, List, [], ◌∷◌, ◌++◌, ◌==◌, ltb,
  ◌&&◌, ◌||◌, arith, if◌then◌else◌, length, get_or, set, Bool-cases, get_or-set, length-set,
}
use rhombus.Libc.Malloc.{Node, Heap, no_node, node_at, list_at, half, add_to_list, split_node}
use rhombus.Libc.Malloc.Nodes.{
  free_in, count, single, IsHeap, get_or-append_two, get_or-past, count-cons,
}
use rhombus.Libc.Malloc.Find.{FreeLeaf, free_in-leaf, count-set}

-- The nodes after the split of `n`.
abbrev pub parent : List Node → ℕ → Node
parent ns n = record (get_or ns n no_node) { children = some (length ns, suc (length ns)) }

abbrev pub lower : List Node → ℕ → ℕ → Node
lower ns n index = half (get_or ns n no_node).base index

abbrev pub upper : List Node → ℕ → ℕ → Node
upper ns n index = half ((get_or ns n no_node).base + 2 ^ index) index

abbrev pub grown : List Node → ℕ → ℕ → List Node
grown ns n index = set ns n (parent ns n) ++ (lower ns n index ∷ upper ns n index ∷ [])

abbrev pub split_heap : ℕ → ℕ → Heap → Heap
split_heap n index h = record h {
  nodes = grown h.nodes n index;
  lists = set h.lists index (suc (length h.nodes) ∷ list_at h index);
}

-- What stands at an index after the split.
pub grown_at :
    (ns : List Node) (n index i : ℕ)
    → n < length ns
    → get_or (grown ns n index) i no_node ≡ (
        if ltb i (length ns)
        then (if i == n then parent ns n else get_or ns i no_node)
        else (if i == length ns
            then lower ns n index
            else (if i == suc (length ns) then upper ns n index else no_node)))
grown_at ns n index i h =
    get_or-append_two (set ns n (parent ns n)) (lower ns n index) (upper ns n index) i
    ∙ rw (length-set ns n (parent ns n), get_or-set ns n i (parent ns n) no_node h) refl

pub split_node-split_heap :
    (n index : ℕ) (h : Heap) → n < length h.nodes → split_node n index h ≡ split_heap n index h
unfolding split_node add_to_list
split_node-split_heap n index h below =
    let at : get_or (grown h.nodes n index) (suc (length h.nodes)) no_node ≡ upper h.nodes n index =
      grown_at h.nodes n index (suc (length h.nodes)) below ∙ ground arith in
    ap
      (λ (m : Node). record {
        nodes = grown h.nodes n index;
        tree = h.tree;
        lists = set h.lists m.size (suc (length h.nodes) ∷ list_at h m.size);
      })
      at

-- The free leaves after the split.
free_grown :
    (ns : List Node) (n index i j : ℕ)
    → n < length ns
    → free_in j (get_or (grown ns n index) i no_node) ≡ (
        if ltb i (length ns)
        then (if i == n then 0 else free_in j (get_or ns i no_node))
        else (if i == length ns || i == suc (length ns) then (if index == j then 1 else 0) else 0))
free_grown ns n index i j below =
    ap (free_in j) (grown_at ns n index i below) ∙ (elim (Bool-cases (ltb i (length ns))) [
      | inl low ↦ elim (Bool-cases (i == n)) [
        | inl at_n ↦ rw (low, at_n) refl
        | inr elsewhere ↦ rw (low, elsewhere) refl
      ]
      | inr high ↦ elim (Bool-cases (i == length ns)) [
        | inl first ↦ rw (high, first) refl
        | inr other ↦ elim (Bool-cases (i == suc (length ns))) [
          | inl second ↦ rw (high, other, second) refl
          | inr past ↦ rw (high, other, past) refl
        ]
      ]
    ])

free_in-FreeLeaf_self :
    (ns : List Node) (n k j : ℕ)
    → FreeLeaf ns n k
    → free_in j (get_or ns n no_node) ≡ (if k == j then 1 else 0)
free_in-FreeLeaf_self ns n k j f =
    free_in-leaf j (get_or ns n no_node) f.leaf ∙ rw (f.unused, f.size) refl

split_lists :
    (lists : List (List ℕ)) (r index i j : ℕ)
    → index < length lists
    → count i (get_or (set lists index (r ∷ get_or lists index [])) j [])
      ≡ count i (get_or lists j []) + (if j == index && i == r then 1 else 0)
split_lists lists r index i j below =
    count-set lists index j i (r ∷ get_or lists index []) below ∙ (elim (Bool-cases (j == index)) [
      | inl same ↦
          let e : j ≡ index = ground arith in
          ground
            (arith, count-cons i r (get_or lists index []), ap (λ j. count i (get_or lists j [])) e)
      | inr other ↦ ground arith
    ])

-- The numbers of one node and one list: its count before and after, whether it is a free leaf of the
-- size of the list before and after.
balanced :
    (len n i j index c c' f f' : ℕ)
    → c' ≡ c + (if j == index && i == suc len then 1 else 0)
    → c + single n (suc index) i j ≡ f
    → f' ≡ (
        if ltb i len
        then (if i == n then 0 else f)
        else (if i == len || i == suc len then (if index == j then 1 else 0) else 0))
    → n < len
    → ((i ≡ n) → f ≡ (if suc index == j then 1 else 0))
    → (len ≤ i → f ≡ 0)
    → c' + single len index i j ≡ f'
balanced len n i j index c c' f f' lists old node inside own past = ground (arith, own, past)

pub split_count :
    (h : Heap) (n index i j : ℕ)
    → IsHeap h (single n (suc index))
    → FreeLeaf h.nodes n (suc index)
    → index < length h.lists
    → count i (list_at (split_heap n index h) j) + single (length h.nodes) index i j
      ≡ free_in j (node_at (split_heap n index h) i)
split_count h n index i j w f below =
    balanced (length h.nodes) n i j index (count i (list_at h j)) _ (free_in j (node_at h i)) _
      (split_lists h.lists (suc (length h.nodes)) index i j below) (w.queued i j)
      (free_grown h.nodes n index i j f.inside) f.inside
      (λ e. ap (λ i. free_in j (node_at h i)) e ∙ free_in-FreeLeaf_self h.nodes n (suc index) j f)
      (λ past. ap (free_in j) (get_or-past h.nodes i past))
