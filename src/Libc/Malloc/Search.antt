-- ===== src/Libc/Malloc/Search.antt =====
-- _get_by_addr of libc/stdlib/malloc.c finds every block by its address.
use native.Mathlib.Nat.{two-pow-succ, one-le-pow}
use rhombus.Prelude.{
  ℕ, zero, suc, ◌+◌, ◌^◌, ◌≤◌, ◌<◌, ◌≡◌, inl, inr, refl, ap, sym, ◌∙◌, true, none, some, List, ◌==◌,
  ltb, leb, ◌&&◌, arith, if◌then◌else◌, length, get_or, Bool-cases, ==_iff, Option-cases,
}
use rhombus.Libc.Malloc.{Node, Heap, heap_start, heap_end, no_node, node_at, walk, get_by_addr}
use rhombus.Libc.Malloc.Nodes.{
  covers, leaf_covers, total, total-two, total-one, Halves, Root, IsHeap,
}

-- A leaf at the address `p`.
pub record LeafAt (ns : List Node) (n p : ℕ) : Type 0 where
  pub inside : n < length ns
  pub leaf : (get_or ns n no_node).children ≡ none
  pub base : (get_or ns n no_node).base ≡ p

-- The block of the node holds the address.
record Around (ns : List Node) (j p : ℕ) : Type 0 where
  inside : j < length ns
  low : (get_or ns j no_node).base ≤ p
  high : p < (get_or ns j no_node).base + 2 ^ (get_or ns j no_node).size

covers_leaf : (x : ℕ) (m : Node) → m.children ≡ none → leaf_covers x m ≡ covers m.base m.size x
covers_leaf x m e = rw e refl

leaf_covers-one :
    (ns : List Node) (j p : ℕ)
    → Around ns j p
    → (get_or ns j no_node).children ≡ none
    → leaf_covers p (get_or ns j no_node) ≡ 1
leaf_covers-one ns j p a leaf =
    let m = get_or ns j no_node in
    let low = a.low in let high = a.high in covers_leaf p m leaf ∙ ground arith

LeafAt-Around : (ns : List Node) (n p : ℕ) → LeafAt ns n p → Around ns n p
LeafAt-Around ns n p f = record {
  inside = f.inside;
  low = omega (arith, f.base);
  high = omega (arith, f.base, one-le-pow (get_or ns n no_node).size 2 (omega arith));
}

-- Only one leaf holds an address.
only_leaf :
    {h : Heap} {out : ℕ → ℕ → ℕ} (j n p : ℕ)
    → IsHeap h out
    → Around h.nodes j p
    → (node_at h j).children ≡ none
    → LeafAt h.nodes n p
    → j ≡ n
only_leaf {h = h} j n p w a leaf f =
    let wj = leaf_covers-one h.nodes j p a leaf in
    let wn = leaf_covers-one h.nodes n p (LeafAt-Around h.nodes n p f) f.leaf in
    let once : total (leaf_covers p) h.nodes ≤ 1 = ground (arith, w.once p) in
    let before = λ (lt : j < n). total-two (leaf_covers p) h.nodes j n lt f.inside in
    let after = λ (lt : n < j). total-two (leaf_covers p) h.nodes n j lt a.inside in
    ground (arith, before, after)

-- The child by the address.
child-Around :
    (ns : List Node) (j l r p : ℕ)
    → Around ns j p
    → Halves ns j l r
    → Around ns (if ltb p (get_or ns r no_node).base then l else r) p
child-Around ns j l r p a v =
    let sizes : (get_or ns l no_node).size ≡ (get_or ns r no_node).size =
      omega (arith, v.left_size, v.right_size) in
    let half_left : 2 ^ (get_or ns l no_node).size ≡ 2 ^ (get_or ns r no_node).size =
      ap (λ k. 2 ^ k) sizes in
    let whole : 2 ^ (get_or ns j no_node).size
        ≡ 2 ^ (get_or ns r no_node).size + 2 ^ (get_or ns r no_node).size =
      ap (λ k. 2 ^ k) (sym v.right_size) ∙ two-pow-succ (get_or ns r no_node).size in
    elim (Bool-cases (ltb p (get_or ns r no_node).base)) [
      | inl low ↦ rw low (record {
        inside = v.left_in;
        low = omega (arith, v.left_base, a.low);
        high = ground (arith, v.left_base, v.right_base);
      })
      | inr high ↦ rw high (record {
        inside = v.right_in;
        low = ground arith;
        high = omega (arith, v.right_base, a.high);
      })
    ]

walk_leaf :
    (fuel : ℕ) (ns : List Node) (j p : ℕ)
    → (get_or ns j no_node).children ≡ none
    → walk (suc fuel) ns j p ≡ (if p == (get_or ns j no_node).base then some j else none)
unfolding walk
walk_leaf fuel ns j p e =
    ap
      (λ c. elim c [
        | none ↦ if p == (get_or ns j no_node).base then some j else none
        | some (l, r) ↦ walk fuel ns (if ltb p (get_or ns r no_node).base then l else r) p
      ])
      e

walk_child :
    (fuel : ℕ) (ns : List Node) (j l r p : ℕ)
    → (get_or ns j no_node).children ≡ some (l, r)
    → walk (suc fuel) ns j p ≡ walk fuel ns (if ltb p (get_or ns r no_node).base then l else r) p
unfolding walk
walk_child fuel ns j l r p e =
    ap
      (λ c. elim c [
        | none ↦ if p == (get_or ns j no_node).base then some j else none
        | some (l, r) ↦ walk fuel ns (if ltb p (get_or ns r no_node).base then l else r) p
      ])
      e

walk-LeafAt :
    (h : Heap) (out : ℕ → ℕ → ℕ) (fuel j n p : ℕ)
    → IsHeap h out
    → LeafAt h.nodes n p
    → length h.nodes ≤ fuel + j
    → Around h.nodes j p
    → walk fuel h.nodes j p ≡ some n
walk-LeafAt h out zero j n p w f enough a = absurd (omega (arith, a.inside))
walk-LeafAt h out (suc fuel) j n p w f enough a = elim (Option-cases (node_at h j).children) [
  | inl leaf ↦
      let e = only_leaf j n p w a leaf f in
      let at : (p == (node_at h j).base) ≡ true =
        (==_iff p (node_at h j).base).1 (sym (ap (λ j. (node_at h j).base) e ∙ f.base)) in
      walk_leaf fuel h.nodes j p leaf ∙ rw at (ap some e)
  | inr ((l, r), inner) ↦
      let v = w.halves j l r a.inside inner in
      let next = if ltb p (node_at h r).base then l else r in
      let later : j < next = ground (arith, v.left_after, v.right_after) in
      walk_child fuel h.nodes j l r p inner
      ∙ walk-LeafAt h out fuel next n p w f (omega arith) (child-Around h.nodes j l r p a v)
]

get_by_addr_step :
    (h : Heap) (p : ℕ) → h.tree ≡ some 0 → get_by_addr h p ≡ walk (suc (length h.nodes)) h.nodes 0 p
unfolding get_by_addr
get_by_addr_step h p e =
    ap (λ t. elim t [ none ↦ none | some root ↦ walk (suc (length h.nodes)) h.nodes root p ]) e

Root-Around :
    (h : Heap) (out : ℕ → ℕ → ℕ) (n p : ℕ)
    → IsHeap h out
    → Root h
    → LeafAt h.nodes n p
    → Around h.nodes 0 p
Root-Around h out n p w r f =
    let one = leaf_covers-one h.nodes n p (LeafAt-Around h.nodes n p f) f.leaf in
    let within : 1 ≤ (if leb heap_start p && ltb p heap_end then 1 else 0) =
      omega (arith, w.once p, total-one (leaf_covers p) h.nodes n f.inside, one) in
    let size : 2 ^ (node_at h 0).size ≡ 0x20000000 = ap (λ k. 2 ^ k) r.size in
    record { inside = r.some_node; low = ground (arith, r.base); high = ground (arith, r.base) }

-- _get_by_addr finds each leaf of a well-formed heap by its address.
pub get_by_addr-LeafAt :
    (h : Heap) (out : ℕ → ℕ → ℕ) (n p : ℕ)
    → IsHeap h out
    → LeafAt h.nodes n p
    → get_by_addr h p ≡ some n
get_by_addr-LeafAt h out n p w f = elim w.rooted [
  | inl (t, empty) ↦ absurd (omega (arith, f.inside, ap length empty))
  | inr r ↦
      get_by_addr_step h p r.first
      ∙ walk-LeafAt h out (suc (length h.nodes)) 0 n p w f (omega arith)
          (Root-Around h out n p w r f)
]
