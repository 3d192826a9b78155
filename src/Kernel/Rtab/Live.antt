-- ===== src/Kernel/Rtab/Live.antt =====
-- `rtab_open` and `rtab_close` against the collection of open connections.
use mathlib.Core.List.{Perm, perm_middle, append-nil}
use mathlib.Core.List.Perm
use rhombus.Prelude.{
  ℕ, ◌≡◌, ◌≢◌, refl, ap, Bool, true, false, ◌&&◌, ◌||◌, Option, none, some, List, [], ◌∷◌, ◌++◌,
  ◌⊎◌, inl, inr, arith, ◌==◌, if◌then◌else◌, replicate, Bool-cases,
}
use rhombus.Kernel.Rtab.{Entry, entry, blank, Table, keep, place, grow, open_fuel}

-- The connections that a table holds open, in slot order.
abbrev pub live : Table → Table
live [] = []
live (e ∷ t) = if e.a == 0 then live t else e ∷ live t

-- Whether some slot holds the connection.
abbrev pub holds : Table → ℕ → ℕ → Bool
holds [] a b = false
holds (e ∷ t) a b = ((e.a == a) && (e.b == b)) || holds t a b

-- Whether some slot has the source `a`, or the target `b`.
abbrev pub shares : Table → ℕ → ℕ → Bool
shares [] a b = false
shares (e ∷ t) a b = ((e.a == a) || (e.b == b)) || shares t a b

-- The effect of an `open` that found `t'`: nothing if the connection was seen, else one more.
abbrev pub Opened : Table → ℕ → ℕ → Table → Type 0
Opened t a b t' = (holds t' a b ≡ true) × ((t' ≡ t) ⊎ Perm (live t') (entry a b ∷ live t))

live-append : (t u : Table) → live (t ++ u) ≡ live t ++ live u
live-append [] u = refl
live-append (e ∷ t) u = ground (arith, live-append t u)

pub perm_under {ℓ} :
    {A : Type ℓ} (x y : A) {u v : List A} → Perm u (x ∷ v) → Perm (y ∷ u) (x ∷ y ∷ v)
perm_under x y {v} p = Perm.trans (Perm.cons y p) (Perm.swap x y v)

module _ (a b : ℕ) (ne : a ≢ 0) where
  pub live-entry : (t : Table) → live (entry a b ∷ t) ≡ entry a b ∷ live t
  live-entry t = ground arith

  Opened-cons :
      (e : Entry) (t u : Table) → (e.a == 0) ≡ false → Opened t a b u → Opened (e ∷ t) a b (e ∷ u)
  Opened-cons e t u used (has, inl same) = (ground arith, inl (ap (λ x. e ∷ x) same))
  Opened-cons e t u used (has, inr p) = (ground arith, inr (rw used (perm_under (entry a b) e p)))

  live-entry-append : (t u : Table) → Perm (live (t ++ (entry a b ∷ u))) (entry a b ∷ live (t ++ u))
  live-entry-append t u = rw (live-append, live-append, live-entry) (perm_middle (live t) (live u))

  -- What `place` answers: a table, or that it met neither the connection nor a free slot.
  Placed : Table → Option Table → Type 0
  Placed t none = (u : Table) → place (t ++ (blank ∷ u)) a b ≡ some (t ++ (entry a b ∷ u))
  Placed t (some t') = Opened t a b t'

  Placed-keep :
      (e : Entry) (t : Table) (o : Option Table)
      → ((e.a == a) && (e.b == b)) ≡ false
      → (e.a == 0) ≡ false
      → Placed t o
      → Placed (e ∷ t) (keep e o)
  unfolding place Placed
  Placed-keep e t none new used p = λ u. rw (new, used, p u)
  Placed-keep e t (some t') new used p = Opened-cons e t t' used p

  place-Placed : (t : Table) → Placed t (place t a b)
  unfolding place Placed
  place-Placed [] = λ u. ground arith
  place-Placed (e ∷ t) = elim (Bool-cases ((e.a == a) && (e.b == b))) [
    | inl seen ↦ rw seen (rw seen refl, inl refl)
    | inr new ↦ elim (Bool-cases (e.a == 0)) [
      | inl free ↦
          rw (new, free)
            (ground arith, inr (rw (free, live-entry) (Perm.refl (entry a b ∷ live t))))
      | inr used ↦ rw (new, used) (Placed-keep e t (place t a b) new used (place-Placed t))
    ]
  ]

  live-grow : (t : Table) → live (t ++ replicate 15 blank) ≡ live t
  live-grow t = rw live-append (append-nil (live t))

  holds-append : (t u : Table) → holds (t ++ (entry a b ∷ u)) a b ≡ true
  holds-append [] u = ground arith
  holds-append (e ∷ t) u = ground (arith, holds-append t u)

  open_from :
      (t : Table) (o : Option Table)
      → place t a b ≡ o
      → Placed t o
      → (t' : Table) × (open_fuel 2 t a b ≡ some t') × Opened t a b t'
  unfolding open_fuel grow Placed
  open_from t none e p =
      let room = replicate 15 blank in
      (
        t ++ (entry a b ∷ room),
        rw (e, open_fuel) (rw (p room)),
        (holds-append t room, inr (rw (← live-grow t) (live-entry-append t room))),
      )
  open_from t (some t') e p = (t', rw (e, open_fuel), p)

  -- Two calls are enough for `rtab_open`. Afterwards the table holds the connection, and either it
  -- is the table from before, or its live entries are those from before and the new connection.
  pub open-Opened : (t : Table) → (t' : Table) × (open_fuel 2 t a b ≡ some t') × Opened t a b t'
  open-Opened t = open_from t (place t a b) refl (place-Placed t)
