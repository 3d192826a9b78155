-- ===== src/Libc/Struct/Table/Inv.antt =====
-- The invariant of the table in libc/struct/table.c, and lookups after `_set` and `_del`.
use rhombus.Prelude.{
  ℕ, ◌+◌, ◌^◌, ◌≤◌, ◌<◌, ◌≡◌, refl, sym, ap, ◌∙◌, true, false, Option, none, some, List, [], ◌∷◌,
  inl, inr, arith, ◌==◌, ==_iff, if◌then◌else◌, Bool-cases, All, length, get_or, set, length-set,
  get_or-set, All-set, All-get_or, All-map,
}
use rhombus.Libc.Struct.Table.{
  Key, str_eq, hash, Entry, Table, index, chain_at, grown_load, shrunk_load, matches, chain_set,
  chain_del, chain_get, put, del, find,
}
use rhombus.Libc.Struct.Table.Chain.{
  IsHashed, DistinctKeys, eq_of_str_eq, chain_get-set, chain_get-del,
}
use rhombus.Libc.Struct.Table.Slots.{
  index-lt, BelongsTo, Placed, in_use, used, Placed-get_zero, Placed-set_zero, in_use-le-used,
  used-set, BelongsTo-chain_set, All-chain_del, DistinctKeys-chain_set, DistinctKeys-chain_del,
}

module _ {ℓ} {D : Type ℓ} where
  -- `2 ^ size` slots, entries in the slots of their hashes, no key twice, and an exact `load`.
  pub record IsTable (t : Table D) : Type ℓ where
    pub width : length t.slots ≡ 2 ^ t.size
    pub placed : Placed t.size 0 t.slots
    pub distinct : All DistinctKeys t.slots
    pub counted : t.load ≡ used t.slots

  -- The table with another chain in the slot of a key.
  abbrev pub with_chain : Table D → Key → List (Entry D) → ℕ → Table D
  with_chain t k c load = record t { load = load; slots = set t.slots (index t.size (hash k)) c }

  put_count :
      (c : List (Entry D)) (k : Key) (w : D) (n : ℕ)
      → grown_load c n + in_use c ≡ n + in_use (chain_set c k w)
  unfolding chain_set
  put_count [] k w n = omega arith
  put_count (e ∷ c) k w n = elim (Bool-cases (matches e k)) [
    | inl hit ↦ rw hit refl
    | inr miss ↦ rw miss refl
  ]

  del_count :
      (c : List (Entry D)) (k : Key) (n : ℕ)
      → in_use c ≤ n
      → shrunk_load c (chain_del c k) n + in_use c ≡ n + in_use (chain_del c k)
  unfolding chain_del
  del_count [] k n h = refl
  del_count (e ∷ c) k n h = elim (Bool-cases (matches e k)) [
    | inl hit ↦ rw hit (shrunk c)
    | inr miss ↦ rw miss refl
  ]
    where
      shrunk : (d : List (Entry D)) → shrunk_load (e ∷ c) d n + 1 ≡ n + in_use d
      shrunk [] = omega arith
      shrunk (x ∷ d) = refl

  module _ {t : Table D} (v : IsTable t) (k : Key) where
    slot_in : index t.size (hash k) < length t.slots
    slot_in = omega (arith, index-lt t.size (hash k), v.width)

    pub chain_belongs : All (BelongsTo t.size (index t.size (hash k))) (chain_at t (hash k))
    chain_belongs = Placed-get_zero t.size (index t.size (hash k)) t.slots v.placed

    pub chain_distinct : DistinctKeys (chain_at t (hash k))
    chain_distinct = All-get_or DistinctKeys t.slots (index t.size (hash k)) [] v.distinct slot_in

    find-with_chain :
        (c : List (Entry D)) (load : ℕ) (j : Key)
        → find (with_chain t k c load) j
          ≡ (if index t.size (hash j) == index t.size (hash k) then chain_get c j else find t j)
    unfolding find
    find-with_chain c load j =
        ground
          (arith, get_or-set t.slots (index t.size (hash k)) (index t.size (hash j)) c [] slot_in)

    pub IsTable-with_chain :
        (c : List (Entry D)) (load : ℕ)
        → All (BelongsTo t.size (index t.size (hash k))) c
        → DistinctKeys c
        → load + in_use (chain_at t (hash k)) ≡ t.load + in_use c
        → IsTable (with_chain t k c load)
    IsTable-with_chain c load b d e = record {
      width = length-set t.slots (index t.size (hash k)) c ∙ v.width;
      placed = Placed-set_zero t.size (index t.size (hash k)) t.slots c v.placed b;
      distinct = All-set DistinctKeys t.slots (index t.size (hash k)) c d v.distinct;
      counted = omega (arith, e, v.counted, used-set t.slots (index t.size (hash k)) c slot_in);
    }

    pub chain-IsHashed : All IsHashed (chain_at t (hash k))
    chain-IsHashed = All-map (λ e h. h.0) (chain_at t (hash k)) chain_belongs

    same_slot :
        (i : Key)
        → (index t.size (hash i) == index t.size (hash k)) ≡ true
        → chain_get (chain_at t (hash k)) i ≡ find t i
    unfolding find
    same_slot i e =
        ap (λ n. chain_get (get_or t.slots n []) i)
          (sym ((==_iff (index t.size (hash i)) (index t.size (hash k))).0 e))

    other_slot :
        (i : Key) → (index t.size (hash i) == index t.size (hash k)) ≡ false → str_eq k i ≡ false
    other_slot i e = elim (Bool-cases (str_eq k i)) [
      | inl same ↦ ground (arith, ap (λ x. index t.size (hash x)) (eq_of_str_eq k i same))
      | inr other ↦ other
    ]

    -- A lookup in the changed table, where the changed chain answers for `k` alone.
    pub find_changed :
        (c : List (Entry D)) (load : ℕ) (o : Option D) (j : Key)
        → chain_get c j ≡ (if str_eq k j then o else chain_get (chain_at t (hash k)) j)
        → find (with_chain t k c load) j ≡ (if str_eq k j then o else find t j)
    find_changed c load o j h =
        find-with_chain c load j
        ∙ elim (Bool-cases (index t.size (hash j) == index t.size (hash k))) [
          | inl same ↦ rw same (h ∙ ap (λ x. if str_eq k j then o else x) (same_slot j same))
          | inr other ↦ rw (other, other_slot j other)
        ]

    pub find-put :
        (w : D) (j : Key) → find (put t k w) j ≡ (if str_eq k j then some w else find t j)
    unfolding put
    find-put w j =
        find_changed (chain_set (chain_at t (hash k)) k w) (grown_load (chain_at t (hash k)) t.load)
          (some w) j (chain_get-set (chain_at t (hash k)) k j w)

    pub find-del : (j : Key) → find (del t k) j ≡ (if str_eq k j then none else find t j)
    unfolding del
    find-del j =
        find_changed (chain_del (chain_at t (hash k)) k)
          (shrunk_load (chain_at t (hash k)) (chain_del (chain_at t (hash k)) k) t.load) none j
          (chain_get-del (chain_at t (hash k)) k j chain_distinct)

    pub put-IsTable : (w : D) → IsTable (put t k w)
    unfolding put
    put-IsTable w =
        IsTable-with_chain (chain_set (chain_at t (hash k)) k w)
          (grown_load (chain_at t (hash k)) t.load)
          (BelongsTo-chain_set t.size (index t.size (hash k)) (chain_at t (hash k)) k w refl
            chain_belongs)
          (DistinctKeys-chain_set (chain_at t (hash k)) k w chain-IsHashed chain_distinct)
          (put_count (chain_at t (hash k)) k w t.load)

    pub del-IsTable : IsTable (del t k)
    unfolding del
    del-IsTable =
        IsTable-with_chain (chain_del (chain_at t (hash k)) k)
          (shrunk_load (chain_at t (hash k)) (chain_del (chain_at t (hash k)) k) t.load)
          (All-chain_del (BelongsTo t.size (index t.size (hash k))) (chain_at t (hash k)) k
            chain_belongs)
          (DistinctKeys-chain_del (chain_at t (hash k)) k chain_distinct)
          (del_count (chain_at t (hash k)) k t.load
            (omega (arith, v.counted, in_use-le-used t.slots (index t.size (hash k)))))
