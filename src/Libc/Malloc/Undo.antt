-- ===== src/Libc/Malloc/Undo.antt =====
-- free of libc/stdlib/malloc.c undoes malloc.
use mathlib.Core.Path.{subst}
use rhombus.Prelude.{
  ℕ, ◌^◌, ◌<◌, ◌≡◌, refl, ap, sym, ◌∙◌, Bool, true, false, Option, none, some, ◌==◌, leb, arith,
  if◌then◌else◌, length-set, get_or-set,
}
use rhombus.Libc.Malloc.{
  Node, Heap, no_node, node_at, with_status, add_to_list, get_by_addr, msize, malloc, ilog2, Freed,
  finished, aborted, free,
}
use rhombus.Libc.Malloc.Nodes.{nothing, IsHeap}
use rhombus.Libc.Malloc.Find.Plant.{in_use}
use rhombus.Libc.Malloc.Use.{kept}
use rhombus.Libc.Malloc.Alloc.{Allocated, got, malloc-IsHeap}
use rhombus.Libc.Malloc.Take.{UsedLeaf}
use rhombus.Libc.Malloc.Search.{LeafAt, get_by_addr-LeafAt}
use rhombus.Libc.Malloc.Release.{
  released, UsedLeaf-LeafAt, add_to_list-released, release-IsHeap, release_used,
}

-- What free asks page_free for: blocks of a page or more.
abbrev asked : ℕ → ℕ → Option (ℕ × ℕ)
asked base size = if leb 12 size then some (base, 2 ^ size) else none

-- The rest of free for the node that it found.
abbrev finish : Heap → ℕ → Option ℕ → Freed
finish h addr none = if addr == 0 then finished h none else aborted
finish h addr (some n) =
    if (node_at h n).status == 0
    then aborted
    else finished (add_to_list n (with_status 0 n h)) (asked (node_at h n).base (node_at h n).size)

free-finish : (h : Heap) (p : ℕ) (o : Option ℕ) → get_by_addr h p ≡ o → free h p ≡ finish h p o
unfolding free
free-finish h p none e =
    ap
      (λ o. elim o [
        | none ↦ if p == 0 then finished h none else aborted
        | some n ↦ finish h p (some n)
      ])
      e
free-finish h p (some n) e =
    ap
      (λ o. elim o [
        | none ↦ if p == 0 then finished h none else aborted
        | some n ↦ finish h p (some n)
      ])
      e

free_used :
    (h : Heap) (n p k : ℕ)
    → IsHeap h nothing
    → UsedLeaf h.nodes n p k
    → free h p ≡ finished (released h n k) (asked p k)
free_used h n p k w u =
    let live : ((node_at h n).status == 0) ≡ false = ground (arith, u.used) in
    free-finish h p (some n) (get_by_addr-LeafAt h nothing n p w (UsedLeaf-LeafAt u))
    ∙ rw live (
        ap (λ h'. finished h' (asked (node_at h n).base (node_at h n).size))
          (add_to_list-released h n p k u)
        ∙ (ap (λ s. finished (released h n k) (asked (node_at h n).base s)) u.size
            ∙ ap (λ b. finished (released h n k) (asked b k)) u.base))

free_twice :
    (h : Heap) (n p : ℕ)
    → IsHeap h nothing
    → LeafAt h.nodes n p
    → (node_at h n).status ≡ 0
    → free h p ≡ aborted
free_twice h n p w f e =
    let dead : ((node_at h n).status == 0) ≡ true = ground arith in
    free-finish h p (some n) (get_by_addr-LeafAt h nothing n p w f) ∙ rw dead refl

released-LeafAt :
    (h : Heap) (n p k : ℕ)
    → UsedLeaf h.nodes n p k
    → LeafAt (released h n k).nodes n p × ((node_at (released h n k) n).status ≡ 0)
released-LeafAt h n p k u =
    let self : (n == n) ≡ true = ground arith in
    (
      record {
        inside =
            omega (arith, u.inside, length-set h.nodes n (record (node_at h n) { status = 0 }));
        leaf = kept (λ (m : Node). m.children) 0 n n h.nodes (λ m. refl) u.inside ∙ u.leaf;
        base = kept (λ (m : Node). m.base) 0 n n h.nodes (λ m. refl) u.inside ∙ u.base;
      },
      ap (λ (m : Node). m.status)
            (get_or-set h.nodes n n (record (node_at h n) { status = 0 }) no_node u.inside)
          ∙ rw self refl,
    )

msize_used : (h : Heap) (n p k : ℕ) → IsHeap h nothing → UsedLeaf h.nodes n p k → msize h p ≡ 2 ^ k
unfolding msize
msize_used h n p k w u =
    ap
      (λ o. elim o [
        | none ↦ 0
        | some n ↦ if (node_at h n).status == 1 then 2 ^ (node_at h n).size else 0
      ])
      (get_by_addr-LeafAt h nothing n p w (UsedLeaf-LeafAt u))
    ∙ rw (u.used, u.size) refl

-- What follows a malloc that gave the block `p` of 2 ^ `index` bytes out of the heap `h`.
abbrev pub Undone : Heap → Heap → ℕ → ℕ → Type 0
Undone h h' p index =
    (h'' : Heap) × (msize h' p ≡ 2 ^ index)
    × (free h' p ≡ finished h'' (asked p index))
    × IsHeap h'' nothing
    × ((x : ℕ) → in_use h'' x ≡ in_use h x)
    × (free h'' p ≡ aborted)

Allocated-Undone :
    (anon : ℕ → ℕ → Bool) (h h' : Heap) (p index : ℕ)
    → IsHeap h' nothing
    → Allocated anon h h' index (some p)
    → Undone h h' p index
Allocated-Undone anon h h' p index w a = elim a [
  | got p n yes_pages u used ↦
      let (at, dead) = released-LeafAt h' n p index u in
      let w'' = release-IsHeap h' n p index w u in
      (
        released h' n index,
        msize_used h' n p index w u,
        free_used h' n p index w u,
        w'',
        λ x. omega (arith, release_used h' n p index x u, used x),
        free_twice (released h' n index) n p w'' at dead,
      )
]

-- A block that malloc gave for a size other than zero that fits into 32 bits: msize is the power of two that it was rounded up to, free gives it back,
-- so that the blocks in use are again those before malloc and the heap is well formed, asks
-- page_free for its pages if it is a page or more, and a second free of it aborts.
pub free-malloc :
    (anon : ℕ → ℕ → Bool) (size : ℕ) (h h' : Heap) (p : ℕ)
    → 0 < size
    → size < 2 ^ 32
    → IsHeap h nothing
    → malloc anon size h ≡ (some p, h')
    → Undone h h' p (ilog2 size)
free-malloc anon size h h' p some_size word w e =
    let (o, h1, f, w1, a, long, short, once) = malloc-IsHeap anon size h some_size word w in
    let (w2, a2) =
      subst (λ q. IsHeap q.1 nothing × Allocated anon h q.1 (ilog2 size) q.0) (sym f ∙ e) (w1, a) in
    Allocated-Undone anon h h' p (ilog2 size) w2 a2
