-- ===== src/Libc/Struct/Table/Merge.antt =====
-- `_add` of libc/struct/table.c, once and over a chain of entries with new keys.
use rhombus.Prelude.{
  ℕ, ◌+◌, ◌≡◌, refl, ap, ◌∙◌, false, Option, none, some, List, [], ◌∷◌, ◌++◌, inl, inr, arith,
  if◌then◌else◌, Bool-cases, All, set, All-append, All-map,
}
use rhombus.Libc.Struct.Table.{
  Key, str_eq, hash, Entry, Table, index, chain_at, grown_load, chain_get, find, add, add_chain,
}
use rhombus.Libc.Struct.Table.Chain.{
  IsHashed, DistinctKeys, eq_of_str_eq, str_eq_comm, str_eq_refl, matches-str_eq,
}
use rhombus.Libc.Struct.Table.Slots.{BelongsTo, in_use}
use rhombus.Libc.Struct.Table.Inv.{
  IsTable, with_chain, IsTable-with_chain, chain_belongs, chain-IsHashed, chain_distinct,
  find_changed,
}

module _ {ℓ} {D : Type ℓ} where
  -- The first answer, or else the second.
  abbrev pub or_else : Option D → Option D → Option D
  or_else none o = o
  or_else (some v) o = some v

  or_else_assoc : (a b c : Option D) → or_else (or_else a b) c ≡ or_else a (or_else b c)
  or_else_assoc none b c = refl
  or_else_assoc (some v) b c = refl

  pub chain_get-append :
      (c d : List (Entry D)) (k : Key)
      → chain_get (c ++ d) k ≡ or_else (chain_get c k) (chain_get d k)
  unfolding chain_get
  chain_get-append [] d k = refl
  chain_get-append (e ∷ c) d k = ground (arith, chain_get-append c d k)

  pub DistinctKeys-append :
      (c d : List (Entry D))
      → DistinctKeys c
      → DistinctKeys d
      → All (λ e. chain_get d e.key ≡ none) c
      → DistinctKeys (c ++ d)
  DistinctKeys-append [] d hc hd apart = hd
  DistinctKeys-append (e ∷ c) d hc hd apart =
      (ground (arith, chain_get-append c d e.key), DistinctKeys-append c d hc.1 hd apart.1)

  pub none_apart :
      (c : List (Entry D)) (k : Key)
      → All IsHashed c
      → chain_get c k ≡ none
      → All (λ e. str_eq k e.key ≡ false) c
  unfolding chain_get
  none_apart [] k h n = tt
  none_apart (e ∷ c) k h n = (
    ground (arith, matches-str_eq e k h.0, str_eq_comm k e.key),
    none_apart c k h.1 (ground arith),
  )

  add-with_chain :
      (t : Table D) (e : Entry D)
      → IsHashed e
      → add t e
        ≡ with_chain t e.key
            (chain_at t (hash e.key) ++ (e ∷ []))
            (grown_load (chain_at t (hash e.key)) t.load)
  unfolding add
  add-with_chain t e h =
      ap
        (λ n.
          let c = chain_at t n in
          let u : Table D = record t {
            load = grown_load c t.load;
            slots = set t.slots (index t.size n) (c ++ (e ∷ []));
          } in
          u)
        h

  in_use-append :
      (c : List (Entry D)) (e : Entry D) (n : ℕ)
      → grown_load c n + in_use c ≡ n + in_use (c ++ (e ∷ []))
  in_use-append [] e n = omega arith
  in_use-append (x ∷ c) e n = refl

  module _ {t : Table D} (v : IsTable t) (e : Entry D) (hashed : IsHashed e)
      (new : find t e.key ≡ none) where
    new_in_chain : chain_get (chain_at t (hash e.key)) e.key ≡ none
    unfolding find
    new_in_chain = new

    chain_get-snoc :
        (j : Key)
        → chain_get (chain_at t (hash e.key) ++ (e ∷ [])) j
          ≡ (if str_eq e.key j then some e.value else chain_get (chain_at t (hash e.key)) j)
    unfolding chain_get
    chain_get-snoc j = elim (Bool-cases (str_eq e.key j)) [
      | inl same ↦ rw same (
          rw (← eq_of_str_eq e.key j same) (
            ground (
              arith,
              chain_get-append (chain_at t (hash e.key)) (e ∷ []) e.key,
              new_in_chain,
              matches-str_eq e e.key hashed,
              str_eq_refl e.key,
            )))
      | inr other ↦ ground (arith, chain_get-append (chain_at t (hash e.key)) (e ∷ []) j)
    ]

    pub find-add :
        (j : Key) → find (add t e) j ≡ (if str_eq e.key j then some e.value else find t j)
    find-add j = rw (add-with_chain t e hashed) (
        find_changed v e.key (chain_at t (hash e.key) ++ (e ∷ []))
          (grown_load (chain_at t (hash e.key)) t.load) (some e.value) j (chain_get-snoc j))

    pub add-IsTable : IsTable (add t e)
    unfolding chain_get
    add-IsTable = rw (add-with_chain t e hashed) (
        IsTable-with_chain v e.key (chain_at t (hash e.key) ++ (e ∷ []))
          (grown_load (chain_at t (hash e.key)) t.load)
          (All-append (BelongsTo t.size (index t.size (hash e.key))) (chain_at t (hash e.key))
            (e ∷ []) (chain_belongs v e.key) ((hashed, ap (index t.size) hashed), tt))
          (DistinctKeys-append (chain_at t (hash e.key)) (e ∷ []) (chain_distinct v e.key)
            (refl, tt)
            (All-map (λ x h. ground (arith, matches-str_eq e x.key hashed))
              (chain_at t (hash e.key))
              (none_apart (chain_at t (hash e.key)) e.key (chain-IsHashed v e.key) new_in_chain)))
          (in_use-append (chain_at t (hash e.key)) e t.load))

  -- `Rest t c`: the entries of `c` can be added to `t` one after the other.
  pub record Rest (t : Table D) (c : List (Entry D)) : Type ℓ where
    pub table : IsTable t
    pub hashed : All IsHashed c
    pub distinct : DistinctKeys c
    pub new : All (λ e. find t e.key ≡ none) c

  -- The table holds what `t` held, and then what `c` holds.
  pub record Merged (t : Table D) (c : List (Entry D)) (u : Table D) : Type ℓ where
    pub table : IsTable u
    pub found : (j : Key) → find u j ≡ or_else (find t j) (chain_get c j)

  Rest-add : {t : Table D} {e : Entry D} {c : List (Entry D)} → Rest t (e ∷ c) → Rest (add t e) c
  Rest-add {t} {e} {c} r = record {
    table = add-IsTable r.table e r.hashed.0 r.new.0;
    hashed = r.hashed.1;
    distinct = r.distinct.1;
    new = still_new c r.new.1 (none_apart c e.key r.hashed.1 r.distinct.0);
  }
    where
      still_new :
          (d : List (Entry D))
          → All (λ x. find t x.key ≡ none) d
          → All (λ x. str_eq e.key x.key ≡ false) d
          → All (λ x. find (add t e) x.key ≡ none) d
      still_new [] h k = tt
      still_new (x ∷ d) h k =
          (rw (find-add r.table e r.hashed.0 r.new.0 x.key, k.0) h.0, still_new d h.1 k.1)

  Merged-cons :
      {t u : Table D} {e : Entry D} {c : List (Entry D)}
      → Rest t (e ∷ c)
      → Merged (add t e) c u
      → Merged t (e ∷ c) u
  unfolding chain_get
  Merged-cons {t} {u} {e} {c} r m = record {
    table = m.table;
    found = λ j. m.found j ∙ found_cons j;
  }
    where
      found_cons :
          (j : Key)
          → or_else (find (add t e) j) (chain_get c j) ≡ or_else (find t j) (chain_get (e ∷ c) j)
      found_cons j = elim (Bool-cases (str_eq e.key j)) [
        | inl same ↦ ground (
          arith,
          find-add r.table e r.hashed.0 r.new.0 j,
          matches-str_eq e j r.hashed.0,
          ap (find t) (eq_of_str_eq e.key j same),
          r.new.0,
        )
        | inr other ↦
            ground (arith, find-add r.table e r.hashed.0 r.new.0 j, matches-str_eq e j r.hashed.0)
      ]

  or_else-none : (o : Option D) → o ≡ or_else o none
  or_else-none none = refl
  or_else-none (some v) = refl

  pub add_chain-Merged : (c : List (Entry D)) {t : Table D} → Rest t c → Merged t c (add_chain t c)
  unfolding add_chain chain_get
  add_chain-Merged [] {t} r = record { table = r.table; found = λ j. or_else-none (find t j) }
  add_chain-Merged (e ∷ c) r = Merged-cons r (add_chain-Merged c (Rest-add r))
