-- ===== src/Libc/Struct/Table/Slots.antt =====
-- The slots of the table in libc/struct/table.c: what stands where, and how many are in use.
use mathlib.Core.Path.{subst}
use native.Mathlib.Nat.{pow-le-pow_right}
use rhombus.Prelude.{
  ℕ, zero, suc, ◌+◌, ◌^◌, ◌≤◌, ◌<◌, ◌≡◌, refl, List, [], ◌∷◌, inl, inr, arith, Bool-cases, All,
  length, get_or, set,
}
use rhombus.Libc.Struct.Table.{Key, hash, Entry, index, matches, chain_set, chain_del, chain_get}
use rhombus.Libc.Struct.Table.Chain.{
  IsHashed, DistinctKeys, matches-str_eq, str_eq_comm, chain_get-set, chain_get-del,
}

pub pow_pos : (n : ℕ) → 0 < 2 ^ n
pow_pos n = pow-le-pow_right {n = 2} (omega arith) {i = 0} {j = n} (omega arith)

pub index-lt : (size h : ℕ) → index size h < 2 ^ size
index-lt size h = omega (arith, pow_pos size)

module _ {ℓ} {D : Type ℓ} where
  -- The entry carries its hash and belongs into slot `i` of `2 ^ size`.
  abbrev pub BelongsTo : ℕ → ℕ → Entry D → Type 0
  BelongsTo size i e = IsHashed e × (index size e.code ≡ i)

  -- The entries of the slots `i`, `i + 1`, ... belong there.
  abbrev pub Placed : ℕ → ℕ → List (List (Entry D)) → Type 0
  Placed size i [] = Unit
  Placed size i (c ∷ cs) = All (BelongsTo size i) c × Placed size (i + 1) cs

  abbrev pub in_use : List (Entry D) → ℕ
  in_use [] = 0
  in_use (e ∷ c) = 1

  -- The number of slots in use.
  abbrev pub used : List (List (Entry D)) → ℕ
  used [] = 0
  used (c ∷ cs) = in_use c + used cs

  pub Placed-get :
      (size i j : ℕ) (cs : List (List (Entry D)))
      → Placed size i cs
      → All (BelongsTo size (i + j)) (get_or cs j [])
  Placed-get size i j [] p = tt
  Placed-get size i zero (c ∷ cs) p = subst (λ n. All (BelongsTo size n) c) (omega arith) p.0
  Placed-get size i (suc j) (c ∷ cs) p =
      subst (λ n. All (BelongsTo size n) (get_or cs j [])) (omega arith)
        (Placed-get size (i + 1) j cs p.1)

  pub Placed-set :
      (size i j : ℕ) (cs : List (List (Entry D))) (c : List (Entry D))
      → Placed size i cs
      → All (BelongsTo size (i + j)) c
      → Placed size i (set cs j c)
  Placed-set size i j [] c p h = tt
  Placed-set size i zero (d ∷ cs) c p h =
      (subst (λ n. All (BelongsTo size n) c) (omega arith) h, p.1)
  Placed-set size i (suc j) (d ∷ cs) c p h = (
    p.0,
    Placed-set size (i + 1) j cs c p.1 (subst (λ n. All (BelongsTo size n) c) (omega arith) h),
  )

  pub Placed-get_zero :
      (size j : ℕ) (cs : List (List (Entry D)))
      → Placed size 0 cs
      → All (BelongsTo size j) (get_or cs j [])
  Placed-get_zero size j cs p =
      subst (λ n. All (BelongsTo size n) (get_or cs j [])) (omega arith) (Placed-get size 0 j cs p)

  pub Placed-set_zero :
      (size j : ℕ) (cs : List (List (Entry D))) (c : List (Entry D))
      → Placed size 0 cs
      → All (BelongsTo size j) c
      → Placed size 0 (set cs j c)
  Placed-set_zero size j cs c p h =
      Placed-set size 0 j cs c p (subst (λ n. All (BelongsTo size n) c) (omega arith) h)

  pub in_use-le-used : (cs : List (List (Entry D))) (j : ℕ) → in_use (get_or cs j []) ≤ used cs
  in_use-le-used [] j = omega arith
  in_use-le-used (d ∷ cs) zero = omega arith
  in_use-le-used (d ∷ cs) (suc j) = omega (arith, in_use-le-used cs j)

  pub used-set :
      (cs : List (List (Entry D))) (j : ℕ) (c : List (Entry D))
      → j < length cs
      → used (set cs j c) + in_use (get_or cs j []) ≡ used cs + in_use c
  used-set [] j c h = absurd (omega arith)
  used-set (d ∷ cs) zero c h = omega arith
  used-set (d ∷ cs) (suc j) c h = omega (arith, used-set cs j c)

  pub BelongsTo-chain_set :
      (size i : ℕ) (c : List (Entry D)) (k : Key) (v : D)
      → index size (hash k) ≡ i
      → All (BelongsTo size i) c
      → All (BelongsTo size i) (chain_set c k v)
  unfolding chain_set
  BelongsTo-chain_set size i [] k v e h = ((refl, e), tt)
  BelongsTo-chain_set size i (x ∷ c) k v e h = elim (Bool-cases (matches x k)) [
    | inl hit ↦ rw hit h
    | inr miss ↦ rw miss (h.0, BelongsTo-chain_set size i c k v e h.1)
  ]

  pub All-chain_del :
      (P : Entry D → Type 0) (c : List (Entry D)) (k : Key) → All P c → All P (chain_del c k)
  unfolding chain_del
  All-chain_del P [] k h = tt
  All-chain_del P (x ∷ c) k h = elim (Bool-cases (matches x k)) [
    | inl hit ↦ rw hit h.1
    | inr miss ↦ rw miss (h.0, All-chain_del P c k h.1)
  ]

  pub DistinctKeys-chain_set :
      (c : List (Entry D)) (k : Key) (v : D)
      → All IsHashed c
      → DistinctKeys c
      → DistinctKeys (chain_set c k v)
  unfolding chain_set chain_get
  DistinctKeys-chain_set [] k v h d = (refl, tt)
  DistinctKeys-chain_set (x ∷ c) k v h d = elim (Bool-cases (matches x k)) [
    | inl hit ↦ rw hit d
    | inr miss ↦ rw miss (
      ground (arith, chain_get-set c k x.key v, matches-str_eq x k h.0, str_eq_comm k x.key),
      DistinctKeys-chain_set c k v h.1 d.1,
    )
  ]

  pub DistinctKeys-chain_del :
      (c : List (Entry D)) (k : Key) → DistinctKeys c → DistinctKeys (chain_del c k)
  unfolding chain_del
  DistinctKeys-chain_del [] k d = tt
  DistinctKeys-chain_del (x ∷ c) k d = elim (Bool-cases (matches x k)) [
    | inl hit ↦ rw hit d.1
    | inr miss ↦
        rw miss (ground (arith, chain_get-del c k x.key d.1), DistinctKeys-chain_del c k d.1)
  ]
