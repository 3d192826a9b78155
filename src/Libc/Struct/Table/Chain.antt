-- ===== src/Libc/Struct/Table/Chain.antt =====
-- The walks of `_set`, `_del` and `_get` along one chain of libc/struct/table.c.
use rhombus.Prelude.{
  ◌≡◌, refl, ap, ◌∙◌, true, false, none, some, List, [], ◌∷◌, inl, inr, arith, if◌then◌else◌,
  Bool-cases,
}
use rhombus.Libc.Struct.Table.{Key, str_eq, hash, Entry, matches, chain_set, chain_del, chain_get}

pub str_eq_refl : (s : Key) → str_eq s s ≡ true
str_eq_refl [] = refl
str_eq_refl (x ∷ s) = ground (arith, str_eq_refl s)

pub eq_of_str_eq : (s t : Key) → str_eq s t ≡ true → s ≡ t
eq_of_str_eq [] [] h = refl
eq_of_str_eq [] (y ∷ t) h = cc
eq_of_str_eq (x ∷ s) [] h = cc
eq_of_str_eq (x ∷ s) (y ∷ t) h = ground (arith, eq_of_str_eq s t)

pub str_eq_comm : (s t : Key) → str_eq s t ≡ str_eq t s
str_eq_comm [] [] = refl
str_eq_comm [] (y ∷ t) = refl
str_eq_comm (x ∷ s) [] = refl
str_eq_comm (x ∷ s) (y ∷ t) = ground (arith, str_eq_comm s t)

module _ {ℓ} {D : Type ℓ} where
  -- The stored hash is that of the stored key.
  abbrev pub IsHashed : Entry D → Type 0
  IsHashed e = e.code ≡ hash e.key

  -- No key stands twice in a chain.
  abbrev pub DistinctKeys : List (Entry D) → Type ℓ
  DistinctKeys [] = Unit
  DistinctKeys (e ∷ c) = (chain_get c e.key ≡ none) × DistinctKeys c

  pub matches-str_eq : (e : Entry D) (k : Key) → IsHashed e → matches e k ≡ str_eq e.key k
  matches-str_eq e k h = elim (Bool-cases (str_eq e.key k)) [
    | inl same ↦ rw (same, h) (ground (arith, ap hash (eq_of_str_eq e.key k same)))
    | inr other ↦ ground arith
  ]

  chain_get-set_self :
      (c : List (Entry D)) (k : Key) (v : D) → chain_get (chain_set c k v) k ≡ some v
  unfolding chain_get chain_set
  chain_get-set_self [] k v = ground (arith, str_eq_refl k)
  chain_get-set_self (e ∷ c) k v = ground (arith, chain_get-set_self c k v)

  chain_get-set_ne :
      (c : List (Entry D)) (k j : Key) (v : D)
      → str_eq k j ≡ false
      → chain_get (chain_set c k v) j ≡ chain_get c j
  unfolding chain_get chain_set
  chain_get-set_ne [] k j v h = ground arith
  chain_get-set_ne (e ∷ c) k j v h = elim (Bool-cases (matches e k)) [
    | inl hit ↦
        let other : str_eq e.key j ≡ false =
          ap (λ s. str_eq s j) (eq_of_str_eq e.key k (ground arith)) ∙ h in
        rw hit (ground arith)
    | inr miss ↦ rw (miss, chain_get-set_ne c k j v h)
  ]

  -- A lookup after a write in the same chain.
  pub chain_get-set :
      (c : List (Entry D)) (k j : Key) (v : D)
      → chain_get (chain_set c k v) j ≡ (if str_eq k j then some v else chain_get c j)
  chain_get-set c k j v = elim (Bool-cases (str_eq k j)) [
    | inl same ↦ rw (same, ← eq_of_str_eq k j same) (chain_get-set_self c k v)
    | inr other ↦ rw other (chain_get-set_ne c k j v other)
  ]

  chain_get-del_self :
      (c : List (Entry D)) (k : Key) → DistinctKeys c → chain_get (chain_del c k) k ≡ none
  unfolding chain_get chain_del
  chain_get-del_self [] k d = refl
  chain_get-del_self (e ∷ c) k d = elim (Bool-cases (matches e k)) [
    | inl hit ↦ rw hit (rw (← eq_of_str_eq e.key k (ground arith)) d.0)
    | inr miss ↦ rw miss (rw miss (chain_get-del_self c k d.1))
  ]

  chain_get-del_ne :
      (c : List (Entry D)) (k j : Key)
      → str_eq k j ≡ false
      → chain_get (chain_del c k) j ≡ chain_get c j
  unfolding chain_get chain_del
  chain_get-del_ne [] k j h = refl
  chain_get-del_ne (e ∷ c) k j h = elim (Bool-cases (matches e k)) [
    | inl hit ↦
        let other : str_eq e.key j ≡ false =
          ap (λ s. str_eq s j) (eq_of_str_eq e.key k (ground arith)) ∙ h in
        rw hit (ground arith)
    | inr miss ↦ rw (miss, chain_get-del_ne c k j h)
  ]

  -- A lookup after a deletion in the same chain.
  pub chain_get-del :
      (c : List (Entry D)) (k j : Key)
      → DistinctKeys c
      → chain_get (chain_del c k) j ≡ (if str_eq k j then none else chain_get c j)
  chain_get-del c k j d = elim (Bool-cases (str_eq k j)) [
    | inl same ↦ rw (same, ← eq_of_str_eq k j same) (chain_get-del_self c k d)
    | inr other ↦ rw other (chain_get-del_ne c k j other)
  ]
