-- ===== src/Libc/Malloc/Take.antt =====
-- A free leaf of the heap in libc/stdlib/malloc.c goes into use.
use rhombus.Prelude.{
  ℕ, ◌+◌, ◌<◌, ◌≡◌, inl, inr, refl, ap, ◌∙◌, true, none, List, ◌==◌, arith, if◌then◌else◌, length,
  get_or, Bool-cases, ==_iff, length-set, get_or-set,
}
use rhombus.Libc.Malloc.{Node, Heap, no_node, node_at, list_at, with_status}
use rhombus.Libc.Malloc.Find.Plant.{in_use}
use rhombus.Libc.Malloc.Nodes.{
  covers, used_covers, free_in, count, nothing, single, total-set, IsHeap,
}
use rhombus.Libc.Malloc.Find.{FreeLeaf, free_in-leaf}
use rhombus.Libc.Malloc.Use.{remarked, kept, remarked-IsHeap}

pub free_marked :
    (v n i j : ℕ) (ns : List Node)
    → n < length ns
    → free_in j (get_or (remarked v n ns) i no_node) ≡ (
        if i == n
        then free_in j (record (get_or ns n no_node) { status = v })
        else free_in j (get_or ns i no_node))
free_marked v n i j ns h =
    ap (free_in j) (get_or-set ns n i (record (get_or ns n no_node) { status = v }) no_node h)
    ∙ (elim (Bool-cases (i == n)) [ inl at_n ↦ rw at_n refl | inr elsewhere ↦ rw elsewhere refl ])

-- A leaf whose status is `v`.
pub leaf_marked :
    (v j : ℕ) (m : Node)
    → m.children ≡ none
    → free_in j (record m { status = v }) ≡ (if v == 0 then (if m.size == j then 1 else 0) else 0)
leaf_marked v j m e = rw e refl

pub used_marked :
    (v x : ℕ) (m : Node)
    → m.children ≡ none
    → used_covers x (record m { status = v }) ≡ (if v == 0 then 0 else covers m.base m.size x)
used_marked v x m e = rw e refl

-- The numbers of a node that goes into use.
taken_count :
    (h : Heap) (n k i j : ℕ)
    → IsHeap h (single n k)
    → FreeLeaf h.nodes n k
    → count i (list_at h j) + 0 ≡ free_in j (get_or (remarked 1 n h.nodes) i no_node)
taken_count h n k i j w f = elim (Bool-cases (i == n)) [
  | inl at_n ↦
      let e : i ≡ n = (==_iff i n).0 at_n in
      let before : free_in j (node_at h i) ≡ (if (node_at h n).size == j then 1 else 0) =
        ap (λ i. free_in j (node_at h i)) e
        ∙ (free_in-leaf j (node_at h n) f.leaf ∙ rw f.unused refl) in
      ground (
        arith,
        free_marked 1 n i j h.nodes f.inside,
        leaf_marked 1 j (node_at h n) f.leaf,
        w.queued i j,
        before,
        f.size,
      )
  | inr elsewhere ↦ ground (arith, free_marked 1 n i j h.nodes f.inside, w.queued i j)
]

-- A free leaf that is out of the free lists goes into use.
pub take-IsHeap :
    (h : Heap) (n k : ℕ)
    → IsHeap h (single n k)
    → FreeLeaf h.nodes n k
    → IsHeap (with_status 1 n h) nothing
take-IsHeap h n k w f =
    remarked-IsHeap h 1 n h.lists (single n k) w f.inside w.wide (λ i j. taken_count h n k i j w f)

pub take_used :
    (h : Heap) (n k x : ℕ)
    → FreeLeaf h.nodes n k
    → in_use (with_status 1 n h) x ≡ in_use h x + covers (node_at h n).base k x
take_used h n k x f =
    let before : used_covers x (node_at h n) ≡ 0 = rw f.unused refl in
    omega (
      arith,
      total-set (used_covers x) h.nodes n (record (node_at h n) { status = 1 }) f.inside,
      before,
      used_marked 1 x (node_at h n) f.leaf,
      ap (λ k. covers (node_at h n).base k x) f.size,
    )

-- A block in use, of 2 ^ `k` bytes.
pub record UsedLeaf (ns : List Node) (n p k : ℕ) : Type 0 where
  pub inside : n < length ns
  pub leaf : (get_or ns n no_node).children ≡ none
  pub used : (get_or ns n no_node).status ≡ 1
  pub base : (get_or ns n no_node).base ≡ p
  pub size : (get_or ns n no_node).size ≡ k

pub remarked-UsedLeaf :
    (ns : List Node) (n k : ℕ)
    → FreeLeaf ns n k
    → UsedLeaf (remarked 1 n ns) n (get_or (remarked 1 n ns) n no_node).base k
remarked-UsedLeaf ns n k f =
    let self : (n == n) ≡ true = ground arith in
    let status : (get_or (remarked 1 n ns) n no_node).status ≡ 1 =
      ap (λ (m : Node). m.status)
        (get_or-set ns n n (record (get_or ns n no_node) { status = 1 }) no_node f.inside)
      ∙ rw self refl in
    record {
      inside =
          omega (arith, f.inside, length-set ns n (record (get_or ns n no_node) { status = 1 }));
      leaf = kept (λ (m : Node). m.children) 1 n n ns (λ m. refl) f.inside ∙ f.leaf;
      used = status;
      base = refl;
      size = kept (λ (m : Node). m.size) 1 n n ns (λ m. refl) f.inside ∙ f.size;
    }
