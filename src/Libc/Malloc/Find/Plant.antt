-- ===== src/Libc/Malloc/Find/Plant.antt =====
-- The first line of _find_node of libc/stdlib/malloc.c: the tree on the first allocation.
use mathlib.Core.Path.{subst}
use rhombus.Prelude.{
  ℕ, zero, suc, ◌+◌, ◌<◌, ◌≡◌, inl, inr, refl, ap, sym, ◌∙◌, none, some, List, [], ◌∷◌, ◌==◌, ◌&&◌,
  arith, if◌then◌else◌, get_or, set, length-set,
}
use rhombus.Libc.Malloc.{
  Node, Heap, heap_start, no_node, node_at, list_at, half, plant, add_to_list, ilog2,
}
use rhombus.Libc.Malloc.Nodes.{
  covers, leaf_covers, used_covers, free_in, count, nothing, total, Halves, IsHeap, count-cons,
}
use rhombus.Libc.Malloc.Find.{count-set}

-- How many blocks in use cover a byte.
abbrev pub in_use : Heap → ℕ → ℕ
in_use h x = total (used_covers x) h.nodes

abbrev root : Node
root = half heap_start 29

abbrev planted : List (List ℕ) → Heap
planted lists = record {
  nodes = root ∷ [];
  tree = some 0;
  lists = set lists 29 (0 ∷ get_or lists 29 []);
}

plant_empty :
    (lists : List (List ℕ))
    → plant (record { nodes = []; tree = none; lists = lists }) ≡ planted lists
unfolding plant add_to_list ilog2
plant_empty lists = refl

plant-planted : (h : Heap) → h.tree ≡ none → h.nodes ≡ [] → plant h ≡ planted h.lists
plant-planted h t n =
    ap (λ ns. plant (record { nodes = ns; tree = h.tree; lists = h.lists })) n
    ∙ (ap (λ t. plant (record { nodes = []; tree = t; lists = h.lists })) t ∙ plant_empty h.lists)

pub plant_again : (h : Heap) (t : ℕ) → h.tree ≡ some t → plant h ≡ h
unfolding plant
plant_again h t e = rw e refl

root_alone :
    (i j : ℕ) → free_in j (get_or (root ∷ []) i no_node) ≡ (if i == 0 && 29 == j then 1 else 0)
root_alone zero j = ground arith
root_alone (suc i) j = ground arith

planted_count :
    (h : Heap) (i j : ℕ)
    → IsHeap h nothing
    → h.nodes ≡ []
    → count i (list_at (planted h.lists) j) + 0 ≡ free_in j (node_at (planted h.lists) i)
planted_count h i j w n =
    let old : count i (list_at h j) ≡ 0 =
      omega (arith, w.queued i j, ap (λ ns. free_in j (get_or ns i no_node)) n) in
    let old29 : count i (list_at h 29) ≡ 0 =
      omega (arith, w.queued i 29, ap (λ ns. free_in 29 (get_or ns i no_node)) n) in
    ground (
      arith,
      count-set h.lists 29 j i (0 ∷ list_at h 29) (omega (arith, w.wide)),
      count-cons i 0 (list_at h 29),
      root_alone i j,
    )

root-covers : (x : ℕ) → total (leaf_covers x) (root ∷ []) ≡ covers heap_start 29 x
unfolding total
root-covers x = omega arith

root_unused : (x : ℕ) → total (used_covers x) (root ∷ []) ≡ 0
unfolding total
root_unused x = refl

-- What the first line of _find_node leaves.
pub record Planted (h h' : Heap) : Type 0 where
  pub whole : IsHeap h' nothing
  pub tree : h'.tree ≡ some 0
  pub used : (x : ℕ) → in_use h' x ≡ in_use h x

root_inner :
    (i l r : ℕ)
    → (get_or (root ∷ []) i no_node).children ≡ some (l, r)
    → i < 1
    → Halves (root ∷ []) i l r
root_inner zero l r e h = cc e
root_inner (suc i) l r e h = absurd (omega arith)

planted-IsHeap : (h : Heap) → IsHeap h nothing → h.nodes ≡ [] → IsHeap (planted h.lists) nothing
planted-IsHeap h w n = record {
  wide = length-set h.lists 29 _ ∙ w.wide;
  rooted = inr (record { first = refl; some_node = omega arith; base = refl; size = refl });
  queued = λ i j. planted_count h i j w n;
  once = λ x. ground (arith, root-covers x);
  halves = λ i l r k e. root_inner i l r e k;
}

pub plant-Planted : (h : Heap) → IsHeap h nothing → Planted h (plant h)
unfolding total
plant-Planted h w = elim w.rooted [
  | inr r ↦
      subst (Planted h) (sym (plant_again h 0 r.first))
        (record { whole = w; tree = r.first; used = λ x. refl })
  | inl (t, n) ↦ subst (Planted h) (sym (plant-planted h t n)) (record {
    whole = planted-IsHeap h w n;
    tree = refl;
    used = λ x. root_unused x ∙ sym (ap (total (used_covers x)) n);
  })
]
