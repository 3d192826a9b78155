-- ===== src/Libc/Struct/Table/Map.antt =====
-- The interface of libc/struct/table.c as a finite map from keys to values.
use rhombus.Prelude.{
  ℕ, ◌+◌, ◌-◌, ◌*◌, ◌/◌, ◌^◌, ◌≤◌, ◌≡◌, refl, sym, ap, ◌∙◌, ◌&&◌, Option, none, some, List, [], ◌∷◌,
  ◌++◌, inl, inr, arith, if◌then◌else◌, ltb, Bool-cases, All,
}
use rhombus.Libc.Struct.Table.{
  Key, str_eq, Entry, Table, cons, chain_get, put, del, find, resize, update, s_table_set,
  s_table_get, iter_chain, iter,
}
use rhombus.Libc.Struct.Table.Chain.{IsHashed, matches-str_eq}
use rhombus.Libc.Struct.Table.Inv.{IsTable, put-IsTable, del-IsTable, find-put, find-del}
use rhombus.Libc.Struct.Table.Merge.{or_else}
use rhombus.Libc.Struct.Table.Resize.{
  joined, joined-IsHashed, cons-IsTable, find-cons, find-joined, resize_lem,
}

module _ {ℓ} {D : Type ℓ} where
  -- What the caller holds: null, or a sound table of at least 64 slots.
  abbrev pub IsMap : Option (Table D) → Type ℓ
  IsMap none = Unit
  IsMap (some t) = IsTable t × (6 ≤ t.size)

  -- `u` answers as `t` does, but with `o` at the key `k`.
  record Updated (t : Table D) (k : Key) (o : Option D) (u : Table D) : Type ℓ where
    table : IsTable u
    big : 6 ≤ u.size
    found : (j : Key) → find u j ≡ (if str_eq k j then o else find t j)

  resized :
      (t u : Table D) (k : Key) (o : Option D) (size : ℕ)
      → 6 ≤ size
      → Updated t k o u
      → Updated t k o (resize u size)
  resized t u k o size big up =
      let (table, sized, same) = resize_lem size up.table in
      record { table = table; big = omega (arith, sized); found = λ j. same j ∙ up.found j }

  update-Updated :
      (t : Table D) (k : Key) (o : Option D) → IsTable t → 6 ≤ t.size → Updated t k o (update t k o)
  unfolding update
  update-Updated t k (some w) v big =
      let up : Updated t k (some w) (put t k w) = record {
        table = put-IsTable v k w;
        big = big;
        found = find-put v k w;
      } in
      elim (Bool-cases (ltb (3 * 2 ^ (put t k w).size / 4) (put t k w).load)) [
        | inl full ↦
            rw full
              (resized t (put t k w) k (some w) ((put t k w).size + 1) (omega (arith, up.big)) up)
        | inr fits ↦ rw fits up
      ]
  update-Updated t k none v big =
      let up : Updated t k none (del t k) = record {
        table = del-IsTable v k;
        big = big;
        found = find-del v k;
      } in
      elim (Bool-cases (ltb 6 (del t k).size && ltb (del t k).load (2 ^ (del t k).size / 8))) [
        | inl sparse ↦ rw sparse (resized t (del t k) k none ((del t k).size - 1) (ground arith) up)
        | inr fits ↦ rw fits up
      ]

  -- `s_table_set` behaves as an update of a finite map, through insertion, replacement, deletion
  -- and both resizings, and from a null table: afterwards the key finds what was set (nothing, if
  -- that was null), every other key finds what it found before, and the table is sound.
  pub s_table_get-set :
      (t : Option (Table D)) (k : Key) (o : Option D)
      → IsMap t
      → IsMap (s_table_set t (some k) o)
        × ((j : Key)
            → s_table_get (s_table_set t (some k) o) (some j)
              ≡ (if str_eq k j then o else s_table_get t (some j)))
  unfolding s_table_set s_table_get
  s_table_get-set none k o v =
      let up = update-Updated (cons 6) k o (cons-IsTable 6) (omega arith) in
      ((up.table, up.big), λ j. up.found j ∙ ap (λ x. if str_eq k j then o else x) (find-cons 6 j))
  s_table_get-set (some t) k o v =
      let up = update-Updated t k o v.0 v.1 in ((up.table, up.big), up.found)

  -- The first pair with the key.
  abbrev pub assoc : List (Key × D) → Key → Option D
  assoc [] j = none
  assoc ((k, w) ∷ l) j = if str_eq k j then some w else assoc l j

  assoc-append :
      (l m : List (Key × D)) (j : Key) → assoc (l ++ m) j ≡ or_else (assoc l j) (assoc m j)
  assoc-append [] m j = refl
  assoc-append ((k, w) ∷ l) m j = ground (arith, assoc-append l m j)

  iter_chain-append : (c d : List (Entry D)) → iter_chain (c ++ d) ≡ iter_chain c ++ iter_chain d
  unfolding iter_chain
  iter_chain-append [] d = refl
  iter_chain-append (e ∷ c) d = ap (λ l. (e.key, e.value) ∷ l) (iter_chain-append c d)

  iter-joined : (cs : List (List (Entry D))) → iter cs ≡ iter_chain (joined cs)
  unfolding iter
  iter-joined [] = refl
  iter-joined (c ∷ cs) =
      ap (λ l. iter_chain c ++ l) (iter-joined cs) ∙ sym (iter_chain-append c (joined cs))

  assoc-iter_chain :
      (c : List (Entry D)) (j : Key) → All IsHashed c → assoc (iter_chain c) j ≡ chain_get c j
  unfolding iter_chain chain_get
  assoc-iter_chain [] j h = refl
  assoc-iter_chain (e ∷ c) j h = ground (arith, matches-str_eq e j h.0, assoc-iter_chain c j h.1)

  -- `s_table_iter` shows each key with the value that `s_table_get` finds for it, and no other key.
  pub assoc-iter :
      {t : Table D} → IsTable t → (j : Key) → assoc (iter t.slots) j ≡ s_table_get (some t) (some j)
  unfolding s_table_get
  assoc-iter {t} v j =
      ap (λ l. assoc l j) (iter-joined t.slots)
      ∙ assoc-iter_chain (joined t.slots) j (joined-IsHashed t.size 0 t.slots v.placed)
      ∙ find-joined v j
