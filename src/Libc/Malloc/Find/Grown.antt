-- ===== src/Libc/Malloc/Find/Grown.antt =====
-- The tree and the bytes of its leaves after a split in _find_node.
use native.Mathlib.Nat.{two-pow-succ}
use rhombus.Prelude.{
  ℕ, suc, ◌+◌, ◌^◌, ◌<◌, ◌≡◌, ◌⊎◌, inl, inr, refl, ap, sym, ◌∙◌, true, none, some, List, [], ◌∷◌,
  ◌==◌, ltb, arith, length, get_or, set, Bool-cases, ==_iff, length-append, length-set,
}
use rhombus.Libc.Malloc.{Node, Heap, no_node}
use rhombus.Libc.Malloc.Nodes.{
  covers, leaf_covers, used_covers, total, single, Halves, Root, IsHeap, total-append, total-set,
}
use rhombus.Libc.Malloc.Find.{FreeLeaf}
use rhombus.Libc.Malloc.Find.Split.{parent, lower, upper, grown, split_heap, grown_at, split_count}

split_total :
    (w : Node → ℕ) (ns : List Node) (n index : ℕ)
    → n < length ns
    → total w (grown ns n index) + w (get_or ns n no_node)
      ≡ total w ns + w (parent ns n) + (w (lower ns n index) + w (upper ns n index))
unfolding total
split_total w ns n index h = omega (
  arith,
  total-append w (set ns n (parent ns n)) (lower ns n index ∷ upper ns n index ∷ []),
  total-set w ns n (parent ns n) h,
)

covers-half : (base k x : ℕ) → covers base (suc k) x ≡ covers base k x + covers (base + 2 ^ k) k x
covers-half base k x = ground (arith, two-pow-succ k)

covers_leaf : (x : ℕ) (m : Node) → m.children ≡ none → leaf_covers x m ≡ covers m.base m.size x
covers_leaf x m e = rw e refl

used_free : (x : ℕ) (m : Node) → m.status ≡ 0 → used_covers x m ≡ 0
used_free x m e = rw e refl

-- The leaves cover what they covered.
pub split_leaves :
    (ns : List Node) (n index x : ℕ)
    → FreeLeaf ns n (suc index)
    → total (leaf_covers x) (grown ns n index) ≡ total (leaf_covers x) ns
split_leaves ns n index x f =
    let own : leaf_covers x (get_or ns n no_node)
        ≡ covers (get_or ns n no_node).base (suc index) x =
      covers_leaf x (get_or ns n no_node) f.leaf
      ∙ ap (λ k. covers (get_or ns n no_node).base k x) f.size in
    omega (
      arith,
      split_total (leaf_covers x) ns n index f.inside,
      own,
      covers-half (get_or ns n no_node).base index x,
    )

-- The blocks in use cover what they covered.
pub split_used :
    (ns : List Node) (n index x : ℕ)
    → FreeLeaf ns n (suc index)
    → total (used_covers x) (grown ns n index) ≡ total (used_covers x) ns
split_used ns n index x f = omega (
  arith,
  split_total (used_covers x) ns n index f.inside,
  used_free x (get_or ns n no_node) f.unused,
  used_free x (parent ns n) f.unused,
)

pub length-grown :
    (ns : List Node) (n index : ℕ) → length (grown ns n index) ≡ suc (suc (length ns))
length-grown ns n index = omega (
  arith,
  length-append (set ns n (parent ns n)) (lower ns n index ∷ upper ns n index ∷ []),
  length-set ns n (parent ns n),
)

-- The block of a node that was there is the same.
record SameBlock (ns : List Node) (n index i : ℕ) : Type 0 where
  base : (get_or (grown ns n index) i no_node).base ≡ (get_or ns i no_node).base
  size : (get_or (grown ns n index) i no_node).size ≡ (get_or ns i no_node).size

grown-SameBlock :
    (ns : List Node) (n index i : ℕ) → n < length ns → i < length ns → SameBlock ns n index i
grown-SameBlock ns n index i h k =
    let at = grown_at ns n index i h in
    elim (Bool-cases (i == n)) [
      | inl at_n ↦
          let e : n ≡ i = ground arith in
          let low : ltb i (length ns) ≡ true = ground arith in
          let node : get_or (grown ns n index) i no_node ≡ parent ns n = at ∙ rw (low, at_n) refl in
          record {
            base = ap (λ (m : Node). m.base) node ∙ ap (λ i. (get_or ns i no_node).base) e;
            size = ap (λ (m : Node). m.size) node ∙ ap (λ i. (get_or ns i no_node).size) e;
          }
      | inr elsewhere ↦
          let low : ltb i (length ns) ≡ true = ground arith in
          let node : get_or (grown ns n index) i no_node ≡ get_or ns i no_node =
            at ∙ rw (low, elsewhere) refl in
          record { base = ap (λ (m : Node). m.base) node; size = ap (λ (m : Node). m.size) node }
    ]

kept-Halves :
    (ns : List Node) (n index i l r : ℕ)
    → n < length ns
    → i < length ns
    → Halves ns i l r
    → Halves (grown ns n index) i l r
kept-Halves ns n index i l r h k v =
    let si = grown-SameBlock ns n index i h k in
    let sl = grown-SameBlock ns n index l h v.left_in in
    let sr = grown-SameBlock ns n index r h v.right_in in
    let len = length-grown ns n index in
    record {
      left_after = v.left_after;
      right_after = v.right_after;
      left_in = omega (arith, v.left_in);
      right_in = omega (arith, v.right_in);
      left_base = sl.base ∙ (v.left_base ∙ sym si.base);
      left_size = ap suc sl.size ∙ (v.left_size ∙ sym si.size);
      right_base =
          sr.base
          ∙ (v.right_base
              ∙ (ap (λ b. b + 2 ^ (get_or ns r no_node).size) (sym si.base)
                  ∙ ap (λ k. (get_or (grown ns n index) i no_node).base + 2 ^ k) (sym sr.size)));
      right_size = ap suc sr.size ∙ (v.right_size ∙ sym si.size);
    }

-- The node that was split.
new-Halves :
    (ns : List Node) (n index : ℕ)
    → FreeLeaf ns n (suc index)
    → Halves (grown ns n index) n (length ns) (suc (length ns))
new-Halves ns n index f =
    let inside = f.inside in
    let same = grown-SameBlock ns n index n inside inside in
    let len = length-grown ns n index in
    let left : get_or (grown ns n index) (length ns) no_node ≡ lower ns n index =
      grown_at ns n index (length ns) inside ∙ ground arith in
    let right : get_or (grown ns n index) (suc (length ns)) no_node ≡ upper ns n index =
      grown_at ns n index (suc (length ns)) inside ∙ ground arith in
    let size : suc index ≡ (get_or (grown ns n index) n no_node).size = sym (same.size ∙ f.size) in
    record {
      left_after = inside;
      right_after = omega arith;
      left_in = omega arith;
      right_in = omega arith;
      left_base = ap (λ (m : Node). m.base) left ∙ sym same.base;
      left_size = ap (λ (m : Node). suc m.size) left ∙ size;
      right_base =
          ap (λ (m : Node). m.base) right
          ∙ (ap (λ b. b + 2 ^ index) (sym same.base)
              ∙ ap (λ (m : Node). (get_or (grown ns n index) n no_node).base + 2 ^ m.size)
                  (sym right));
      right_size = ap (λ (m : Node). suc m.size) right ∙ size;
    }

-- A child pair after the split is an old one or the new one.
grown_children :
    (ns : List Node) (n index i l r : ℕ)
    → n < length ns
    → (get_or (grown ns n index) i no_node).children ≡ some (l, r)
    → i < length (grown ns n index)
    → ((i < length ns) × ((get_or ns i no_node).children ≡ some (l, r)))
      ⊎ ((i ≡ n) × (l ≡ length ns) × (r ≡ suc (length ns)))
grown_children ns n index i l r h e k =
    let at = grown_at ns n index i h in
    let len = length-grown ns n index in
    elim (Bool-cases (ltb i (length ns))) [
      | inl low ↦ elim (Bool-cases (i == n)) [
        | inl at_n ↦
            let node : get_or (grown ns n index) i no_node ≡ parent ns n =
              at ∙ rw (low, at_n) refl in
            let pair : some (length ns, suc (length ns)) ≡ some (l, r) =
              sym (ap (λ (m : Node). m.children) node) ∙ e in
            inr ((==_iff i n).0 at_n, cc pair, cc pair)
        | inr elsewhere ↦
            let node : get_or (grown ns n index) i no_node ≡ get_or ns i no_node =
              at ∙ rw (low, elsewhere) refl in
            inl (ground arith, sym (ap (λ (m : Node). m.children) node) ∙ e)
      ]
      | inr high ↦ elim (Bool-cases (i == length ns)) [
        | inl first ↦
            let node : get_or (grown ns n index) i no_node ≡ lower ns n index =
              at ∙ rw (high, first) refl in
            absurd (cc (ap (λ (m : Node). m.children) node, e))
        | inr other ↦
            let second : (i == suc (length ns)) ≡ true = ground arith in
            let node : get_or (grown ns n index) i no_node ≡ upper ns n index =
              at ∙ rw (high, other, second) refl in
            absurd (cc (ap (λ (m : Node). m.children) node, e))
      ]
    ]

grown-Halves :
    (ns : List Node) (n index i l r : ℕ)
    → FreeLeaf ns n (suc index)
    → ((i l r : ℕ) → i < length ns → (get_or ns i no_node).children ≡ some (l, r) → Halves ns i l r)
    → i < length (grown ns n index)
    → (get_or (grown ns n index) i no_node).children ≡ some (l, r)
    → Halves (grown ns n index) i l r
grown-Halves ns n index i l r f old k e = elim (grown_children ns n index i l r f.inside e k) [
  | inl (low, c) ↦ kept-Halves ns n index i l r f.inside low (old i l r low c)
  | inr (at_n, left, right) ↦ rw (at_n, left, right) (new-Halves ns n index f)
]

grown-Root :
    (h : Heap) (n index : ℕ) → FreeLeaf h.nodes n (suc index) → Root h → Root (split_heap n index h)
grown-Root h n index f r =
    let same = grown-SameBlock h.nodes n index 0 f.inside r.some_node in
    record {
      first = r.first;
      some_node = omega (arith, length-grown h.nodes n index);
      base = same.base ∙ r.base;
      size = same.size ∙ r.size;
    }

-- A split of a free leaf leaves a well-formed heap in which the lower half is out of the free lists.
pub split-IsHeap :
    (h : Heap) (n index : ℕ)
    → IsHeap h (single n (suc index))
    → FreeLeaf h.nodes n (suc index)
    → index < 32
    → IsHeap (split_heap n index h) (single (length h.nodes) index)
split-IsHeap h n index w f below = record {
  wide = length-set h.lists index _ ∙ w.wide;
  rooted = elim w.rooted [
    | inl (no_tree, empty) ↦ absurd (omega (arith, f.inside, ap length empty))
    | inr r ↦ inr (grown-Root h n index f r)
  ];
  queued = λ i j. split_count h n index i j w f (omega (arith, w.wide));
  once = λ x. omega (arith, w.once x, split_leaves h.nodes n index x f);
  halves = λ i l r k e. grown-Halves h.nodes n index i l r f w.halves k e;
}
