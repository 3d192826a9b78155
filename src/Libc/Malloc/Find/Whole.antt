-- ===== src/Libc/Malloc/Find/Whole.antt =====
-- _find_node as a whole: the search from one size to the next.
use rhombus.Prelude.{
  ℕ, zero, suc, ◌+◌, ◌≤◌, ◌<◌, ◌≡◌, ◌⊎◌, inl, inr, refl, ap, ◌∙◌, Option, none, some, List, [], ◌∷◌,
  ◌==◌, arith, length, get_or, set, Bool-cases,
}
use rhombus.Libc.Malloc.{Node, Heap, no_node, list_at, plant, halve, find_node}
use rhombus.Libc.Malloc.Nodes.{nothing, single, IsHeap, list-past, queued-leaf}
use rhombus.Libc.Malloc.Find.{FreeLeaf, free_in-FreeLeaf, pop-IsHeap}
use rhombus.Libc.Malloc.Find.Split.{lower, grown, split_heap, grown_at, split_node-split_heap}
use rhombus.Libc.Malloc.Find.Grown.{split_used, split-IsHeap, length-grown}
use rhombus.Libc.Malloc.Find.Plant.{in_use, Planted, plant-Planted, plant_again}

-- How _find_node ends: with a free leaf of the size, out of the free lists, or with none, where no
-- list from that size on has a node.
pub data Found (h h' : Heap) (index : ℕ) : Option ℕ → Type 0 where
  hit : (n : ℕ) → IsHeap h' (single n index) → FreeLeaf h'.nodes n index → Found h h' index (some n)
  miss :
      IsHeap h' nothing
      → (h' ≡ h) ⊎ (h' ≡ plant h)
      → ((k : ℕ) → index ≤ k → list_at h' k ≡ [])
      → Found h h' index none

-- The same with the blocks in use.
pub record Search (h h' : Heap) (index : ℕ) (o : Option ℕ) : Type 0 where
  pub found : Found h h' index o
  pub used : (x : ℕ) → in_use h' x ≡ in_use h x

find_node_end : (index : ℕ) (h : Heap) → find_node 0 index h ≡ (none, h)
unfolding find_node
find_node_end index h = refl

List-cases : (l : List ℕ) → (l ≡ []) ⊎ ((n : ℕ) × (rest : List ℕ) × (l ≡ n ∷ rest))
List-cases [] = inl refl
List-cases (n ∷ rest) = inr (n, rest, refl)

find_node_pop :
    (left index : ℕ) (h : Heap) (n : ℕ) (rest : List ℕ)
    → list_at (plant h) index ≡ n ∷ rest
    → find_node (suc left) index h
      ≡ (some n, record (plant h) { lists = set (plant h).lists index rest })
unfolding find_node
find_node_pop left index h n rest e =
    ap
      (λ l. elim l [
        | n ∷ rest ↦ (some n, record (plant h) { lists = set (plant h).lists index rest })
        | [] ↦ halve index (find_node left (suc index) (plant h))
      ])
      e

find_node-halve :
    (left index : ℕ) (h : Heap)
    → list_at (plant h) index ≡ []
    → find_node (suc left) index h ≡ halve index (find_node left (suc index) (plant h))
unfolding find_node
find_node-halve left index h e =
    ap
      (λ l. elim l [
        | n ∷ rest ↦ (some n, record (plant h) { lists = set (plant h).lists index rest })
        | [] ↦ halve index (find_node left (suc index) (plant h))
      ])
      e

halve_none : (h : Heap) (index : ℕ) → halve index (none, h) ≡ (none, h)
unfolding halve
halve_none h index = refl

halve-some :
    (h : Heap) (index n : ℕ)
    → n < length h.nodes
    → halve index (some n, h) ≡ (some (length h.nodes), split_heap n index h)
unfolding halve
halve-some h index n below =
    ap (λ h'. (some (length h.nodes), h')) (split_node-split_heap n index h below)

lower-FreeLeaf :
    (h : Heap) (n index : ℕ)
    → FreeLeaf h.nodes n (suc index)
    → FreeLeaf (grown h.nodes n index) (length h.nodes) index
lower-FreeLeaf h n index f =
    let node : get_or (grown h.nodes n index) (length h.nodes) no_node ≡ lower h.nodes n index =
      grown_at h.nodes n index (length h.nodes) f.inside ∙ ground arith in
    record {
      inside = omega (arith, length-grown h.nodes n index);
      leaf = ap (λ (m : Node). m.children) node;
      unused = ap (λ (m : Node). m.status) node;
      size = ap (λ (m : Node). m.size) node;
    }

-- From size 32 on a search ends at once; below it, after the first line.
empty_from :
    (h : Heap) (index : ℕ)
    → list_at h index ≡ []
    → ((k : ℕ) → suc index ≤ k → list_at h k ≡ [])
    → (k : ℕ) → index ≤ k
    → list_at h k ≡ []
empty_from h index here above k le = elim (Bool-cases (k == index)) [
  | inl same ↦ let e : k ≡ index = ground arith in ap (list_at h) e ∙ here
  | inr other ↦ above k (ground arith)
]

halve-Search :
    (h h2 : Heap) (index : ℕ) (o : Option ℕ)
    → index < 32
    → Planted h (plant h)
    → list_at (plant h) index ≡ []
    → Search (plant h) h2 (suc index) o
    → (o' : Option ℕ) × (h' : Heap) × (halve index (o, h2) ≡ (o', h')) × Search h h' index o'
halve-Search h h2 index none below p e s = elim s.found [
  | miss w same empty ↦
      let is_planted : h2 ≡ plant h = elim same [
        | inl q ↦ q
        | inr q ↦ q ∙ plant_again (plant h) 0 p.tree
      ] in
      (
        none,
        h2,
        halve_none h2 index,
        record {
          found =
              miss w (inr is_planted)
                (empty_from h2 index (ap (λ h. list_at h index) is_planted ∙ e) empty);
          used = λ x. s.used x ∙ p.used x;
        },
      )
]
halve-Search h h2 index (some m) below p e s = elim s.found [
  | hit n w f ↦ (
    some (length h2.nodes),
    split_heap n index h2,
    halve-some h2 index n f.inside,
    record {
      found =
          hit (length h2.nodes) (split-IsHeap h2 n index w f below) (lower-FreeLeaf h2 n index f);
      used = λ x. split_used h2.nodes n index x f ∙ (s.used x ∙ p.used x);
    },
  )
]

pop-Search :
    (h : Heap) (index n : ℕ) (rest : List ℕ)
    → Planted h (plant h)
    → list_at (plant h) index ≡ n ∷ rest
    → Search h (record (plant h) { lists = set (plant h).lists index rest }) index (some n)
pop-Search h index n rest p e = record {
  found =
      hit n (pop-IsHeap (plant h) index n rest p.whole e)
        (free_in-FreeLeaf (plant h).nodes n index _ (queued-leaf index n rest p.whole e));
  used = p.used;
}

-- From a well-formed heap _find_node returns with a well-formed heap, the same blocks in use, and
-- a free leaf of the size if any list from that size on has a node.
pub find_node-Search :
    (left index : ℕ) (h : Heap)
    → left + index ≡ 32
    → IsHeap h nothing
    → (o : Option ℕ) × (h' : Heap) × (find_node left index h ≡ (o, h')) × Search h h' index o
find_node-Search zero index h e w = (
  none,
  h,
  find_node_end index h,
  record {
    found = miss w (inl refl) (λ k le. list-past h.lists k (omega (arith, w.wide)));
    used = λ x. refl;
  },
)
find_node-Search (suc left) index h e w =
    let p = plant-Planted h w in
    elim (List-cases (list_at (plant h) index)) [
      | inl empty ↦
          let (o, h2, r, s) = find_node-Search left (suc index) (plant h) (omega arith) p.whole in
          let (o', h', r', s') = halve-Search h h2 index o (omega arith) p empty s in
          (o', h', find_node-halve left index h empty ∙ (ap (halve index) r ∙ r'), s')
      | inr (n, rest, first) ↦ (
        some n,
        record (plant h) { lists = set (plant h).lists index rest },
        find_node_pop left index h n rest first,
        pop-Search h index n rest p first,
      )
    ]
