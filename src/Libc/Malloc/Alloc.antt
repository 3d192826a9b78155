-- ===== src/Libc/Malloc/Alloc.antt =====
-- What malloc of libc/stdlib/malloc.c gives.
use rhombus.Prelude.{
  ℕ, ◌+◌, ◌-◌, ◌*◌, ◌^◌, ◌≤◌, ◌<◌, ◌≡◌, inl, inr, refl, ap, sym, ◌∙◌, Bool, true, false, Option,
  none, some, [], ltb, leb, ◌&&◌, arith, if◌then◌else◌, Bool-cases,
}
use rhombus.Libc.Malloc.{
  Node, Heap, heap_start, heap_end, node_at, list_at, with_status, ilog2, narrow, find_node, malloc,
}
use rhombus.Libc.Malloc.Log.{ilog2_lem}
use rhombus.Libc.Malloc.Find.Plant.{in_use}
use rhombus.Libc.Malloc.Nodes.{covers, nothing, IsHeap}
use rhombus.Libc.Malloc.Find.Whole.{hit, miss, Search, find_node-Search}
use rhombus.Libc.Malloc.Initial.{in_use-once}
use rhombus.Libc.Malloc.Use.{kept}
use rhombus.Libc.Malloc.Take.{UsedLeaf, remarked-UsedLeaf, take-IsHeap, take_used}

-- How malloc ends: without a free block of the size or larger; with a block that page_anon refuses
-- memory for, which stays in use; or with a block, which is then in use.
pub data Allocated (anon : ℕ → ℕ → Bool) (h h' : Heap) (index : ℕ) : Option ℕ → Type 0 where
  full :
      ((k : ℕ) → index ≤ k → list_at h' k ≡ [])
      → ((x : ℕ) → in_use h' x ≡ in_use h x)
      → Allocated anon h h' index none
  refused :
      (p : ℕ)
      → anon p (2 ^ index) ≡ false
      → ((x : ℕ) → in_use h' x ≡ in_use h x + covers p index x)
      → Allocated anon h h' index none
  got :
      (p n : ℕ)
      → anon p (2 ^ index) ≡ true
      → UsedLeaf h'.nodes n p index
      → ((x : ℕ) → in_use h' x ≡ in_use h x + covers p index x)
      → Allocated anon h h' index (some p)

narrow-bound : (k : ℕ) (p : ℕ × ℕ) → (narrow k p).1 ≤ p.1 + k
unfolding narrow
narrow-bound k (n, r) = ground arith

ilog2-bound : (n : ℕ) → ilog2 n ≤ 32
unfolding ilog2
ilog2-bound n =
    let p1 = narrow 16 (n, 0) in
    let p2 = narrow 8 p1 in
    let p3 = narrow 4 p2 in
    let p4 = narrow 2 p3 in
    ground (
      arith,
      narrow-bound 16 (n, 0),
      narrow-bound 8 p1,
      narrow-bound 4 p2,
      narrow-bound 2 p3,
      narrow-bound 1 p4,
    )

-- The rest of malloc for the node that it found.
abbrev given : (ℕ → ℕ → Bool) → ℕ → Option ℕ → Heap → Option ℕ × Heap
given anon index none h1 = (none, h1)
given anon index (some n) h1 =
    let h2 = with_status 1 n h1 in
    if anon (node_at h2 n).base (2 ^ index) then (some (node_at h2 n).base, h2) else (none, h2)

malloc-given :
    (anon : ℕ → ℕ → Bool) (size : ℕ) (h h1 : Heap) (o : Option ℕ)
    → find_node (32 - ilog2 size) (ilog2 size) h ≡ (o, h1)
    → malloc anon size h ≡ given anon (ilog2 size) o h1
unfolding malloc
malloc-given anon size h h1 none e =
    ap
      (λ p. elim p.0 [
        | none ↦ (none, p.1)
        | some n ↦
            (let h2 = with_status 1 n p.1 in
              if anon (node_at h2 n).base (2 ^ ilog2 size)
              then (some (node_at h2 n).base, h2)
              else (none, h2))
      ])
      e
malloc-given anon size h h1 (some n) e =
    ap
      (λ p. elim p.0 [
        | none ↦ (none, p.1)
        | some n ↦
            (let h2 = with_status 1 n p.1 in
              if anon (node_at h2 n).base (2 ^ ilog2 size)
              then (some (node_at h2 n).base, h2)
              else (none, h2))
      ])
      e

given-Allocated :
    (anon : ℕ → ℕ → Bool) (index : ℕ) (h h1 : Heap) (o : Option ℕ)
    → Search h h1 index o
    → (o' : Option ℕ) × (h' : Heap) × (given anon index o h1 ≡ (o', h'))
      × IsHeap h' nothing
      × Allocated anon h h' index o'
given-Allocated anon index h h1 none s = elim s.found [
  | miss w same empty ↦ (none, h1, refl, w, full empty s.used)
]
given-Allocated anon index h h1 (some m) s = elim s.found [
  | hit n w f ↦
      let h2 = with_status 1 n h1 in
      let same_base : (node_at h2 n).base ≡ (node_at h1 n).base =
        kept (λ (m : Node). m.base) 1 n n h1.nodes (λ m. refl) f.inside in
      let used : (x : ℕ) → in_use h2 x ≡ in_use h x + covers (node_at h2 n).base index x = λ x.
        take_used h1 n index x f
        ∙ (ap (λ b. in_use h1 x + covers b index x) (sym same_base)
            ∙ ap (λ u. u + covers (node_at h2 n).base index x) (s.used x)) in
      elim (Bool-cases (anon (node_at h2 n).base (2 ^ index))) [
        | inl yes_pages ↦ (
          some (node_at h2 n).base,
          h2,
          rw yes_pages refl,
          take-IsHeap h1 n index w f,
          got (node_at h2 n).base n yes_pages (remarked-UsedLeaf h1.nodes n index f) used,
        )
        | inr no_pages ↦ (
          none,
          h2,
          rw no_pages refl,
          take-IsHeap h1 n index w f,
          refused (node_at h2 n).base no_pages used,
        )
      ]
]

-- malloc of a size other than zero that fits into 32 bits keeps the heap well formed. It either fails with the
-- blocks in use as they were, when no list from the logarithm of the size on has a free block; or
-- takes into use one block of that power of two more, which it returns if page_anon gives memory for
-- it, and which stays in use though it fails if page_anon does not. Such a block is long enough for
-- the size and less than twice as long. No byte is in two blocks in use, or outside the heap.
pub malloc-IsHeap :
    (anon : ℕ → ℕ → Bool) (size : ℕ) (h : Heap)
    → 0 < size
    → size < 2 ^ 32
    → IsHeap h nothing
    → (o : Option ℕ) × (h' : Heap) × (malloc anon size h ≡ (o, h'))
      × IsHeap h' nothing
      × Allocated anon h h' (ilog2 size) o
      × (size ≤ 2 ^ ilog2 size)
      × (2 ^ ilog2 size < 2 * size)
      × ((x : ℕ) → in_use h' x ≤ (if leb heap_start x && ltb x heap_end then 1 else 0))
malloc-IsHeap anon size h some_size word w =
    let bound = ilog2-bound size in
    let (long, short) = ilog2_lem size some_size word in
    let (o, h1, e, s) = find_node-Search (32 - ilog2 size) (ilog2 size) h (omega arith) w in
    let (o', h', g, w', a) = given-Allocated anon (ilog2 size) h h1 o s in
    (o', h', malloc-given anon size h h1 o e ∙ g, w', a, long, short, λ x. in_use-once h' x w')
