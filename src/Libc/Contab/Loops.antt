-- ===== src/Libc/Contab/Loops.antt =====
-- The loops of _contab_add and _contab_del, one after the other, on the table of libc/rhombus/contab.c.
use rhombus.Prelude.{
  ℕ, ◌≡◌, ◌⊎◌, inl, inr, refl, ap, sym, ◌∙◌, true, false, none, some, List, [], ◌∷◌, ◌++◌, ◌==◌,
  arith, All, Bool-cases,
}
use rhombus.Libc.Fdtab.{rp_null}
use rhombus.Libc.Contab.{
  Con, converted, used, counted, add_loop, discounted, del_loop, contab_get, status_of,
}
use rhombus.Libc.Contab.Counts.{IsCon, discounted-counted, discounted_last}

-- Every entry is empty or in use.
abbrev pub IsContab : List Con → Type 0
IsContab t = All (λ c. ((c.rp == rp_null) ≡ true) ⊎ IsCon c) t

-- Tables with the same status of each connection.
unfoldable pub SameStatus : List Con → List Con → Type 0
SameStatus t t' = (rp : ℕ) → (rp == rp_null) ≡ false → contab_get rp t ≡ contab_get rp t'

get_here :
    (rp : ℕ) (c : Con) (t : List Con)
    → (c.rp == rp) ≡ true
    → contab_get rp (c ∷ t) ≡ status_of c.status_count
unfolding contab_get
get_here rp c t e = rw e refl

get_later :
    (rp : ℕ) (c : Con) (t : List Con)
    → (c.rp == rp) ≡ false
    → contab_get rp (c ∷ t) ≡ contab_get rp t
unfolding contab_get
get_later rp c t e = rw e refl

get_empty : (c : Con) (t : List Con) → (c.rp == rp_null) ≡ true → SameStatus (c ∷ t) t
unfolding SameStatus
get_empty c t e = λ rp h. get_later rp c t (ground arith)

same_under : (c : Con) (t t' : List Con) → SameStatus t t' → SameStatus (c ∷ t) (c ∷ t')
unfolding SameStatus contab_get
same_under c t t' s =
    λ rp h. elim (Bool-cases (c.rp == rp)) [ inl e ↦ rw e refl | inr e ↦ rw e (s rp h) ]

pub get-append_empty :
    (t empty : List Con) → All (λ c. (c.rp == rp_null) ≡ true) empty → SameStatus (t ++ empty) t
unfolding SameStatus
get-append_empty [] [] h = λ rp k. refl
get-append_empty [] (c ∷ empty) h =
    λ rp k. get_empty c empty h.0 rp k ∙ get-append_empty [] empty h.1 rp k
get-append_empty (c ∷ t) empty h = same_under c (t ++ empty) t (get-append_empty t empty h)

add_here :
    (rp status : ℕ) (c : Con) (t : List Con)
    → ((used rp c).rp == rp) ≡ true
    → add_loop rp status (c ∷ t) ≡ some (counted status (used rp c) ∷ t)
unfolding add_loop
add_here rp status c t e = rw (add_loop, e) refl

add_later :
    (rp status : ℕ) (c : Con) (t : List Con)
    → ((used rp c).rp == rp) ≡ false
    → add_loop rp status (c ∷ t)
      ≡ elim (add_loop rp status t) [ none ↦ none | some t' ↦ some (used rp c ∷ t') ]
unfolding add_loop
add_later rp status c t e = rw (add_loop, e) refl

pub del_here :
    (rp status : ℕ) (c : Con) (t : List Con)
    → (c.rp == rp) ≡ true
    → del_loop rp status (c ∷ t) ≡ some (discounted status c ∷ t)
unfolding del_loop
del_here rp status c t e = rw e refl

pub del_later :
    (rp status : ℕ) (c : Con) (t : List Con)
    → (c.rp == rp) ≡ false
    → del_loop rp status (c ∷ t)
      ≡ elim (del_loop rp status t) [ none ↦ none | some t' ↦ some (c ∷ t') ]
unfolding del_loop
del_later rp status c t e = rw e refl

used_empty : (rp : ℕ) (c : Con) → (c.rp == rp_null) ≡ true → used rp c ≡ converted rp c
unfolding used
used_empty rp c e = rw e refl

used_other : (rp : ℕ) (c : Con) → (c.rp == rp_null) ≡ false → used rp c ≡ c
unfolding used
used_other rp c e = rw e refl

counted_rp : (status : ℕ) (c : Con) → (counted status c).rp ≡ c.rp
unfolding counted
counted_rp status c = refl

discounted-converted :
    (rp status : ℕ) (c : Con) → (discounted status (counted status (converted rp c))).rp ≡ rp_null
unfolding converted counted
discounted-converted rp status c = discounted_last status (counted status (converted rp c)) refl

converted_rp : (rp : ℕ) (c : Con) → (converted rp c).rp ≡ rp
unfolding converted
converted_rp rp c = refl

pub self_equal : (n : ℕ) → (n == n) ≡ true
self_equal n = ground arith

-- The two loops, where one finds an entry and where none does.
abbrev pub LoopsUndo : ℕ → ℕ → List Con → Type 0
LoopsUndo rp status t =
    ((t' t'' : List Con) × (add_loop rp status t ≡ some t')
      × (del_loop rp status t' ≡ some t'')
      × SameStatus t'' t)
    ⊎ ((add_loop rp status t ≡ none) × All (λ c. (c.rp == rp) ≡ false) t)

-- An entry that the loop finds, and that is then removed or as before.
found-LoopsUndo :
    (rp status : ℕ) (c c' : Con) (t : List Con)
    → (rp == rp_null) ≡ false
    → ((used rp c).rp == rp) ≡ true
    → discounted status (counted status (used rp c)) ≡ c'
    → SameStatus (c' ∷ t) (c ∷ t)
    → LoopsUndo rp status (c ∷ t)
found-LoopsUndo rp status c c' t h e back s = inl (
  counted status (used rp c) ∷ t,
  c' ∷ t,
  add_here rp status c t e,
  del_here rp status (counted status (used rp c)) t
        (ap (λ n. n == rp) (counted_rp status (used rp c)) ∙ e)
      ∙ ap (λ d. some (d ∷ t)) back,
  s,
)

empty-LoopsUndo :
    (rp status : ℕ) (c : Con) (t : List Con)
    → (rp == rp_null) ≡ false
    → (c.rp == rp_null) ≡ true
    → LoopsUndo rp status (c ∷ t)
unfolding SameStatus
empty-LoopsUndo rp status c t h e =
    let gone = discounted status (counted status (used rp c)) in
    let place : (used rp c).rp ≡ rp = ap (λ d. d.rp) (used_empty rp c e) ∙ converted_rp rp c in
    let last : gone.rp ≡ rp_null =
      ap (λ d. (discounted status (counted status d)).rp) (used_empty rp c e)
      ∙ discounted-converted rp status c in
    found-LoopsUndo rp status c gone t h (ap (λ n. n == rp) place ∙ self_equal rp) refl
      (λ rp' k. get_empty gone t (ap (λ n. n == rp_null) last) rp' k ∙ sym (get_empty c t e rp' k))

used-LoopsUndo :
    (rp status : ℕ) (c : Con) (t : List Con)
    → (rp == rp_null) ≡ false
    → IsCon c
    → (c.rp == rp_null) ≡ false
    → (c.rp == rp) ≡ true
    → LoopsUndo rp status (c ∷ t)
unfolding SameStatus
used-LoopsUndo rp status c t h con e f =
    let entry = used_other rp c e in
    found-LoopsUndo rp status c c t h (ap (λ d. d.rp == rp) entry ∙ f)
      (ap (λ d. discounted status (counted status d)) entry ∙ discounted-counted status c con)
      (λ rp' k. refl)

later-LoopsUndo :
    (rp status : ℕ) (c : Con) (t : List Con)
    → (c.rp == rp_null) ≡ false
    → (c.rp == rp) ≡ false
    → LoopsUndo rp status t
    → LoopsUndo rp status (c ∷ t)
later-LoopsUndo rp status c t e f rest =
    let entry = used_other rp c e in
    let add = add_later rp status c t (ap (λ d. d.rp == rp) entry ∙ f) in
    let del : (l : List Con)
        → del_loop rp status (c ∷ l)
          ≡ elim (del_loop rp status l) [ none ↦ none | some t' ↦ some (c ∷ t') ] =
      λ l. del_later rp status c l f in
    elim rest [
      | inl (t', t'', g, d, s) ↦ inl (
        c ∷ t',
        c ∷ t'',
        add
            ∙ (ap (λ o. elim o [ none ↦ none | some t' ↦ some (used rp c ∷ t') ]) g
                ∙ ap (λ d. some (d ∷ t')) entry),
        del t' ∙ ap (λ o. elim o [ none ↦ none | some t' ↦ some (c ∷ t') ]) d,
        same_under c t'' t s,
      )
      | inr (g, d) ↦
          inr (add ∙ ap (λ o. elim o [ none ↦ none | some t' ↦ some (used rp c ∷ t') ]) g, (f, d))
    ]

nothing_added : (rp status : ℕ) → add_loop rp status [] ≡ none
unfolding add_loop
nothing_added rp status = refl

pub loops-LoopsUndo :
    (rp status : ℕ) (t : List Con) → (rp == rp_null) ≡ false → IsContab t → LoopsUndo rp status t
loops-LoopsUndo rp status [] h k = inr (nothing_added rp status, tt)
loops-LoopsUndo rp status (c ∷ t) h k = elim (Bool-cases (c.rp == rp_null)) [
  | inl e ↦ empty-LoopsUndo rp status c t h e
  | inr e ↦ elim (Bool-cases (c.rp == rp)) [
    | inr f ↦ later-LoopsUndo rp status c t e f (loops-LoopsUndo rp status t h k.1)
    | inl f ↦ elim k.0 [
      | inl empty ↦ absurd (ground arith)
      | inr con ↦ used-LoopsUndo rp status c t h con e f
    ]
  ]
]
