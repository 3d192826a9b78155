-- ===== src/Kernel/Rtab/Close.antt =====
-- `rtab_close`: which slot it clears, and what that means for the open connections.
use mathlib.Core.List.{Perm}
use mathlib.Core.List.Perm
use rhombus.Prelude.{
  ℕ, zero, suc, ◌≡◌, ◌≢◌, refl, ap, Bool, true, false, ◌&&◌, ◌||◌, Option, none, some, [], ◌∷◌,
  ◌++◌, ◌⊎◌, inl, inr, arith, ◌==◌, replicate, Bool-cases, All, All-append, All-replicate,
}
use rhombus.Kernel.Rtab.{Entry, entry, blank, Table, keep, place, close, grow, open_fuel}
use rhombus.Kernel.Rtab.Live.{live, holds, shares, open-Opened, live-entry, perm_under}

-- The test of `rtab_close`.
abbrev pub touches : Entry → ℕ → ℕ → Bool
touches e a b = (e.a == a) || (e.b == b)

-- `close` cleared the first slot that shares an endpoint, and sent one notice.
pub record Cleared (t : Table) (a b : ℕ) : Type 0 where
  pub pre : Table
  pub hit : Entry
  pub post : Table
  pub split : t ≡ pre ++ (hit ∷ post)
  pub first : shares pre a b ≡ false
  pub meets : touches hit a b ≡ true
  pub result : close t a b ≡ (pre ++ (blank ∷ post), record { target = b; source = a } ∷ [])

Cleared-cons :
    (e : Entry) (t : Table) (a b : ℕ) → touches e a b ≡ false → Cleared t a b → Cleared (e ∷ t) a b
unfolding close
Cleared-cons e t a b new c = record {
  pre = e ∷ c.pre;
  hit = c.hit;
  post = c.post;
  split = ap (λ x. e ∷ x) c.split;
  first = rw (new) c.first;
  meets = c.meets;
  result = rw (new, c.result);
}

-- `rtab_close` leaves a table without either endpoint alone and sends nothing. Otherwise it frees
-- the first slot that has the source or the target, keeps all others, and notifies the target once.
pub close-first :
    (t : Table) (a b : ℕ) → ((shares t a b ≡ false) × (close t a b ≡ (t, []))) ⊎ Cleared t a b
unfolding close
close-first [] a b = inl (refl, refl)
close-first (e ∷ t) a b = elim (Bool-cases (touches e a b)) [
  | inl hit ↦ inr (record {
    pre = [];
    hit = e;
    post = t;
    split = refl;
    first = refl;
    meets = hit;
    result = rw hit;
  })
  | inr new ↦ elim (close-first t a b) [
    | inl (none_shares, same) ↦ inl (rw new none_shares, rw (new, same))
    | inr c ↦ inr (Cleared-cons e t a b new c)
  ]
]

-- No slot has just one of the two endpoints.
abbrev pub Exclusive : Table → ℕ → ℕ → Type 0
Exclusive t a b = All (λ e. touches e a b ≡ true → e ≡ entry a b) t

close-hit :
    (e : Entry) (t : Table) (a b : ℕ)
    → a ≢ 0
    → touches e a b ≡ true
    → e ≡ entry a b
    → Perm (live (e ∷ t)) (entry a b ∷ live (close (e ∷ t) a b).0)
unfolding close
close-hit e t a b ne hit same =
    rw hit (rw same (rw (live-entry a b ne t) (Perm.refl (entry a b ∷ live t))))

-- Where no other connection shares an endpoint, `rtab_close` of an open connection takes exactly
-- that connection out of the live entries.
pub close-live :
    (t : Table) (a b : ℕ)
    → a ≢ 0
    → Exclusive t a b
    → holds t a b ≡ true
    → Perm (live t) (entry a b ∷ live (close t a b).0)
unfolding close
close-live [] a b ne ex has = cc
close-live (e ∷ t) a b ne ex has = elim (Bool-cases (touches e a b)) [
  | inl hit ↦ close-hit e t a b ne hit (ex.0 hit)
  | inr new ↦
      let rest = close-live t a b ne ex.1 (ground arith) in
      elim (Bool-cases (e.a == 0)) [
        | inl free ↦ rw (new, free) rest
        | inr used ↦ rw (new, used) (perm_under (entry a b) e rest)
      ]
]

-- What `place` keeps of a property of all slots.
AllOf : (Entry → Type 0) → Option Table → Type 0
AllOf P none = Unit
AllOf P (some t) = All P t

keep-AllOf :
    (P : Entry → Type 0) (e : Entry) (o : Option Table) → P e → AllOf P o → AllOf P (keep e o)
unfolding AllOf
keep-AllOf P e none h k = tt
keep-AllOf P e (some t) h k = (h, k)

module _ (P : Entry → Type 0) (a b : ℕ) (new : P (entry a b)) (free : P blank) where
  place-AllOf : (t : Table) → All P t → AllOf P (place t a b)
  unfolding place AllOf
  place-AllOf [] h = tt
  place-AllOf (e ∷ t) h = elim (Bool-cases ((e.a == a) && (e.b == b))) [
    | inl seen ↦ rw seen h
    | inr other ↦ elim (Bool-cases (e.a == 0)) [
      | inl vacant ↦ rw (other, vacant) (new, h.1)
      | inr used ↦ rw (other, used) (keep-AllOf P e (place t a b) h.0 (place-AllOf t h.1))
    ]
  ]

  open_step :
      (k : ℕ) (t : Table) (o : Option Table)
      → place t a b ≡ o
      → AllOf P o
      → AllOf P (open_fuel k (grow t) a b)
      → AllOf P (open_fuel (suc k) t a b)
  unfolding open_fuel
  open_step k t none e h again = rw (e, open_fuel) again
  open_step k t (some t') e h again = rw (e, open_fuel) h

  open-AllOf : (k : ℕ) (t : Table) → All P t → AllOf P (open_fuel k t a b)
  unfolding open_fuel grow AllOf
  open-AllOf zero t h = tt
  open-AllOf (suc k) t h = open_step k t (place t a b) refl (place-AllOf t h) (
      open-AllOf k (grow t) (All-append P t (replicate 16 blank) h (All-replicate P 16 blank free)))

apart-Exclusive : (t : Table) (a b : ℕ) → shares t a b ≡ false → Exclusive t a b
apart-Exclusive [] a b h = tt
apart-Exclusive (e ∷ t) a b h = (ground arith, apart-Exclusive t a b (ground arith))

holds_of_apart : (t : Table) (a b : ℕ) → shares t a b ≡ false → holds t a b ≡ false
holds_of_apart [] a b h = refl
holds_of_apart (e ∷ t) a b h = ground (arith, holds_of_apart t a b)

closed_again :
    (t t' : Table) (a b : ℕ)
    → shares t a b ≡ false
    → holds t' a b ≡ true
    → ((t' ≡ t) ⊎ Perm (live t') (entry a b ∷ live t))
    → Perm (live t') (entry a b ∷ live (close t' a b).0)
    → Perm (live (close t' a b).0) (live t)
closed_again t t' a b apart has (inl same) p =
    absurd (ground (arith, holds_of_apart t a b, ap (λ x. holds x a b) same))
closed_again t t' a b apart has (inr more) p = Perm.cons_inv (Perm.trans (Perm.symm p) more)

-- Opening a new connection that shares no endpoint with the table, and closing it again, gives
-- back the connections that were open, in some order.
pub close-open :
    (t : Table) (a b : ℕ)
    → a ≢ 0
    → b ≢ 0
    → shares t a b ≡ false
    → (t' : Table) × (open_fuel 2 t a b ≡ some t') × Perm (live (close t' a b).0) (live t)
unfolding AllOf
close-open t a b na nb apart =
    let (t', opened, change) = open-Opened a b na t in
    let only = λ (e : Entry). touches e a b ≡ true → e ≡ entry a b in
    let kept =
      open-AllOf only a b (λ _. refl) (λ h. absurd (ground arith)) 2 t
        (apart-Exclusive t a b apart) in
    let ex = rw opened at kept in
    (t', opened, closed_again t t' a b apart change.0 change.1 (close-live t' a b na ex change.0))

-- Where the first slot that has the source leads to another target, `rtab_close` drops that other
-- connection, and the one it was asked to close stays open.
pub close_wrong_slot :
    (a b b' : ℕ) (t : Table)
    → a ≢ 0
    → b ≢ b'
    → let t' = (close (entry a b' ∷ entry a b ∷ t) a b).0 in
      (holds t' a b ≡ true) × (holds t' a b' ≡ holds t a b')
unfolding close
close_wrong_slot a b b' t na ne = ground arith
