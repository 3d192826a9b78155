-- ===== src/Libc/Struct/Table/Resize.antt =====
-- `_resize` of libc/struct/table.c: every pair of the old table, and no other, is in the new one.
use native.Mathlib.Decide.{dec_lt}
use rhombus.Prelude.{
  ℕ, zero, suc, ◌+◌, ◌-◌, ◌^◌, ◌≤◌, ◌<◌, ◌≡◌, ◌≢◌, refl, sym, ap, ◌∙◌, none, List, [], ◌∷◌, ◌++◌,
  inl, inr, arith, Bool-cases, All, length, get_or, All-append, All-map,
}
use rhombus.Libc.Struct.Table.{
  Key, hash, Entry, Table, cons, empty_slots, index, matches, chain_get, find, add_chain, add_slots,
  resize,
}
use rhombus.Libc.Struct.Table.Chain.{IsHashed, DistinctKeys, eq_of_str_eq}
use rhombus.Libc.Struct.Table.Slots.{BelongsTo, Placed, used}
use rhombus.Libc.Struct.Table.Inv.{IsTable}
use rhombus.Libc.Struct.Table.Merge.{
  or_else, Merged, add_chain-Merged, chain_get-append, DistinctKeys-append,
}

module _ {ℓ} (D : Type ℓ) where
  length-empty_slots : (n : ℕ) → length (empty_slots {D = D} n) ≡ n
  length-empty_slots zero = refl
  length-empty_slots (suc n) = ap suc (length-empty_slots n)

  Placed-empty_slots : (size i n : ℕ) → Placed size i (empty_slots {D = D} n)
  Placed-empty_slots size i zero = tt
  Placed-empty_slots size i (suc n) = (tt, Placed-empty_slots size (i + 1) n)

  distinct-empty_slots : (n : ℕ) → All DistinctKeys (empty_slots {D = D} n)
  distinct-empty_slots zero = tt
  distinct-empty_slots (suc n) = (tt, distinct-empty_slots n)

  used-empty_slots : (n : ℕ) → used (empty_slots {D = D} n) ≡ 0
  used-empty_slots zero = refl
  used-empty_slots (suc n) = omega (arith, used-empty_slots n)

module _ {ℓ} {D : Type ℓ} where
  -- The entries of all slots, in the order of the loops of `_resize`.
  abbrev pub joined : List (List (Entry D)) → List (Entry D)
  joined [] = []
  joined (c ∷ cs) = c ++ joined cs

  add_chain-append :
      (c d : List (Entry D)) (t : Table D) → add_chain t (c ++ d) ≡ add_chain (add_chain t c) d
  unfolding add_chain
  add_chain-append [] d t = refl
  add_chain-append (e ∷ c) d t = add_chain-append c d _

  add_slots-joined :
      (cs : List (List (Entry D))) (t : Table D) → add_slots t cs ≡ add_chain t (joined cs)
  unfolding add_slots
  add_slots-joined [] t = refl
  add_slots-joined (c ∷ cs) t =
      add_slots-joined cs (add_chain t c) ∙ sym (add_chain-append c (joined cs) t)

  -- A key of another slot is not in the chain.
  chain_get-elsewhere :
      (size i : ℕ) (c : List (Entry D)) (k : Key)
      → All (BelongsTo size i) c
      → index size (hash k) ≢ i
      → chain_get c k ≡ none
  unfolding chain_get
  chain_get-elsewhere size i [] k h ne = refl
  chain_get-elsewhere size i (e ∷ c) k h ne = elim (Bool-cases (matches e k)) [
    | inl hit ↦ absurd (
        ne (
          ap (λ s. index size (hash s)) (sym (eq_of_str_eq e.key k (ground arith)))
          ∙ ap (index size) (sym h.0.0)
          ∙ h.0.1))
    | inr miss ↦ rw miss (chain_get-elsewhere size i c k h.1 ne)
  ]

  joined-below :
      (size i : ℕ) (cs : List (List (Entry D))) (k : Key)
      → Placed size i cs
      → index size (hash k) < i
      → chain_get (joined cs) k ≡ none
  unfolding chain_get
  joined-below size i [] k p h = refl
  joined-below size i (c ∷ cs) k p h = ground (
    arith,
    chain_get-append c (joined cs) k,
    chain_get-elsewhere size i c k p.0 (omega arith),
    joined-below size (i + 1) cs k p.1 (omega arith),
  )

  pub joined-IsHashed :
      (size i : ℕ) (cs : List (List (Entry D))) → Placed size i cs → All IsHashed (joined cs)
  joined-IsHashed size i [] p = tt
  joined-IsHashed size i (c ∷ cs) p =
      All-append IsHashed c (joined cs) (All-map (λ e h. h.0) c p.0)
        (joined-IsHashed size (i + 1) cs p.1)

  joined-DistinctKeys :
      (size i : ℕ) (cs : List (List (Entry D)))
      → Placed size i cs
      → All DistinctKeys cs
      → DistinctKeys (joined cs)
  joined-DistinctKeys size i [] p d = tt
  joined-DistinctKeys size i (c ∷ cs) p d =
      DistinctKeys-append c (joined cs) d.0 (joined-DistinctKeys size (i + 1) cs p.1 d.1) (
        All-map
          (λ e h. joined-below size (i + 1) cs e.key p.1 (omega (arith, ap (index size) h.0, h.1)))
          c p.0)

  -- A lookup among all entries is a lookup in the slot of the key.
  joined-slot :
      (size i : ℕ) (cs : List (List (Entry D))) (k : Key)
      → Placed size i cs
      → i ≤ index size (hash k)
      → chain_get (joined cs) k ≡ chain_get (get_or cs (index size (hash k) - i) []) k
  unfolding chain_get
  joined-slot size i [] k p h = refl
  joined-slot size i (c ∷ cs) k p h = elim (dec_lt i (index size (hash k))) [
    | yes later ↦
        let at : index size (hash k) - i ≡ suc (index size (hash k) - (i + 1)) = omega arith in
        rw at (
          ground (
            arith,
            chain_get-append c (joined cs) k,
            chain_get-elsewhere size i c k p.0 (omega arith),
            joined-slot size (i + 1) cs k p.1 (omega arith),
          ))
    | no here ↦
        let at : index size (hash k) - i ≡ 0 = omega arith in
        rw at (
          ground (
            arith,
            chain_get-append c (joined cs) k,
            joined-below size (i + 1) cs k p.1 (omega arith),
          ))
  ]

  get_or-empty_slots : (n j : ℕ) → get_or (empty_slots {D = D} n) j [] ≡ []
  get_or-empty_slots zero j = refl
  get_or-empty_slots (suc n) zero = refl
  get_or-empty_slots (suc n) (suc j) = get_or-empty_slots n j

  pub cons-IsTable : (size : ℕ) → IsTable (cons {D = D} size)
  unfolding cons
  cons-IsTable size = record {
    width = length-empty_slots D (2 ^ size);
    placed = Placed-empty_slots D size 0 (2 ^ size);
    distinct = distinct-empty_slots D (2 ^ size);
    counted = sym (used-empty_slots D (2 ^ size));
  }

  pub find-cons : (size : ℕ) (k : Key) → find (cons {D = D} size) k ≡ none
  unfolding cons find chain_get
  find-cons size k = rw (get_or-empty_slots (2 ^ size) (index size (hash k)))

  size-add_chain : (c : List (Entry D)) (t : Table D) → (add_chain t c).size ≡ t.size
  unfolding add_chain
  size-add_chain [] t = refl
  size-add_chain (e ∷ c) t = size-add_chain c _

  pub find-joined : {t : Table D} → IsTable t → (k : Key) → chain_get (joined t.slots) k ≡ find t k
  unfolding find
  find-joined {t} v k =
      joined-slot t.size 0 t.slots k v.placed (omega arith)
      ∙ ap (λ n. chain_get (get_or t.slots n []) k) (omega arith)

  size-resize : (t : Table D) (size : ℕ) → (resize t size).size ≡ size
  unfolding resize cons
  size-resize t size =
      ap (λ (u : Table D). u.size) (add_slots-joined t.slots (cons size))
      ∙ size-add_chain (joined t.slots) (cons size)

  resize-Merged :
      {t : Table D} (size : ℕ) → IsTable t → Merged (cons size) (joined t.slots) (resize t size)
  unfolding resize
  resize-Merged {t} size v = rw (add_slots-joined t.slots (cons size)) (
      add_chain-Merged (joined t.slots) (record {
        table = cons-IsTable size;
        hashed = joined-IsHashed t.size 0 t.slots v.placed;
        distinct = joined-DistinctKeys t.size 0 t.slots v.placed v.distinct;
        new = All-new (joined t.slots);
      }))
    where
      All-new : (c : List (Entry D)) → All (λ e. find (cons {D = D} size) e.key ≡ none) c
      All-new [] = tt
      All-new (e ∷ c) = (find-cons size e.key, All-new c)

  -- `_resize` gives a sound table of the new size, in which each key finds what it found before.
  pub resize_lem :
      {t : Table D} (size : ℕ)
      → IsTable t
      → IsTable (resize t size)
        × ((resize t size).size ≡ size)
        × ((j : Key) → find (resize t size) j ≡ find t j)
  resize_lem {t} size v =
      let m = resize-Merged size v in
      (
        m.table,
        size-resize t size,
        λ j.
            m.found j
            ∙ ap (λ o. or_else o (chain_get (joined t.slots) j)) (find-cons size j)
            ∙ find-joined v j,
      )
