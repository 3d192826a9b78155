-- ===== src/Libc/Malloc/Use.antt =====
-- malloc and the last steps of free keep the heap well formed; libc/stdlib/malloc.c.
use rhombus.Prelude.{
  ℕ, suc, ◌+◌, ◌^◌, ◌<◌, ◌≡◌, inl, inr, refl, ap, sym, ◌∙◌, List, [], ◌==◌, arith, length, get_or,
  set, Bool-cases, ==_iff, length-set, get_or-set,
}
use rhombus.Libc.Malloc.{Node, Heap, no_node, node_at}
use rhombus.Libc.Malloc.Nodes.{leaf_covers, free_in, count, nothing, total-set, Halves, IsHeap}

-- The nodes after a change of one status.
abbrev pub remarked : ℕ → ℕ → List Node → List Node
remarked v n ns = set ns n (record (get_or ns n no_node) { status = v })

-- What does not read the status is the same.
pub kept {ℓ} :
    {A : Type ℓ} (f : Node → A) (v n i : ℕ) (ns : List Node)
    → ((m : Node) → f (record m { status = v }) ≡ f m)
    → n < length ns
    → f (get_or (remarked v n ns) i no_node) ≡ f (get_or ns i no_node)
kept f v n i ns same h =
    ap f (get_or-set ns n i (record (get_or ns n no_node) { status = v }) no_node h)
    ∙ (elim (Bool-cases (i == n)) [
      | inl at_n ↦
          let e : n ≡ i = sym ((==_iff i n).0 at_n) in
          rw at_n (same (get_or ns n no_node) ∙ ap (λ i. f (get_or ns i no_node)) e)
      | inr elsewhere ↦ rw elsewhere refl
    ])

remarked-Halves :
    (v n i l r : ℕ) (ns : List Node)
    → n < length ns
    → Halves ns i l r
    → Halves (remarked v n ns) i l r
remarked-Halves v n i l r ns h hv =
    let base : (i : ℕ) → (get_or (remarked v n ns) i no_node).base ≡ (get_or ns i no_node).base =
      λ i. kept (λ (m : Node). m.base) v n i ns (λ m. refl) h in
    let size : (i : ℕ) → (get_or (remarked v n ns) i no_node).size ≡ (get_or ns i no_node).size =
      λ i. kept (λ (m : Node). m.size) v n i ns (λ m. refl) h in
    let len = length-set ns n (record (get_or ns n no_node) { status = v }) in
    record {
      left_after = hv.left_after;
      right_after = hv.right_after;
      left_in = omega (arith, hv.left_in);
      right_in = omega (arith, hv.right_in);
      left_base = base l ∙ (hv.left_base ∙ sym (base i));
      left_size = ap suc (size l) ∙ (hv.left_size ∙ sym (size i));
      right_base =
          base r
          ∙ (hv.right_base
              ∙ (ap (λ b. b + 2 ^ (get_or ns r no_node).size) (sym (base i))
                  ∙ ap (λ k. (get_or (remarked v n ns) i no_node).base + 2 ^ k) (sym (size r))));
      right_size = ap suc (size r) ∙ (hv.right_size ∙ sym (size i));
    }

-- A change of the status of a node, and of the lists, with the counts checked.
pub remarked-IsHeap :
    (h : Heap) (v n : ℕ) (lists : List (List ℕ)) (out : ℕ → ℕ → ℕ)
    → IsHeap h out
    → n < length h.nodes
    → length lists ≡ 32
    → ((i k : ℕ)
        → count i (get_or lists k []) + 0 ≡ free_in k (get_or (remarked v n h.nodes) i no_node))
    → IsHeap (record h { nodes = remarked v n h.nodes; lists = lists }) nothing
remarked-IsHeap h v n lists out w inside wide queued = record {
  wide = wide;
  rooted = elim w.rooted [
    | inl (t, empty) ↦ absurd (omega (arith, ap length empty))
    | inr r ↦ inr (record {
      first = r.first;
      some_node =
          omega (arith, r.some_node, length-set h.nodes n (record (node_at h n) { status = v }));
      base = kept (λ (m : Node). m.base) v n 0 h.nodes (λ m. refl) inside ∙ r.base;
      size = kept (λ (m : Node). m.size) v n 0 h.nodes (λ m. refl) inside ∙ r.size;
    })
  ];
  queued = queued;
  once = λ x. omega (
    arith,
    w.once x,
    total-set (leaf_covers x) h.nodes n (record (node_at h n) { status = v }) inside,
  );
  halves = λ i l r k e. remarked-Halves v n i l r h.nodes inside (
      w.halves i l r (omega (arith, length-set h.nodes n (record (node_at h n) { status = v })))
        (sym (kept (λ (m : Node). m.children) v n i h.nodes (λ m. refl) inside) ∙ e));
}
