-- ===== src/Libc/Contab/Undo.antt =====
-- _contab_del after _contab_add, libc/rhombus/contab.c.
use rhombus.Prelude.{
  ℕ, suc, ◌≡◌, ◌⊎◌, inl, inr, refl, ap, ◌∙◌, Bool, true, false, none, some, List, [], ◌∷◌, ◌++◌,
  ◌==◌, arith, All, All-replicate, Bool-cases, replicate,
}
use rhombus.Libc.Fdtab.{rp_null}
use rhombus.Libc.Contab.{
  Con, add_loop, new_entry, first_entry, entered, discounted, del_loop, contab_get, contab_add,
  contab_del, with_open, rp_getstat, rp_setstat, rp_clrstat,
}
use rhombus.Libc.Contab.Counts.{discounted_last}
use rhombus.Libc.Contab.Loops.{
  IsContab, SameStatus, get-append_empty, del_here, del_later, self_equal, loops-LoopsUndo,
}

-- Where the table grows.
entered_found :
    (junk : Con) (rp status : ℕ) (t t' : List Con)
    → add_loop rp status t ≡ some t'
    → entered junk rp status t ≡ t'
unfolding entered
entered_found junk rp status t t' e = rw (entered, e) refl

added : Con → ℕ → ℕ → List Con
added junk rp status = first_entry rp status ∷ replicate 15 (new_entry junk)

entered_grown :
    (junk : Con) (rp status : ℕ) (t : List Con)
    → add_loop rp status t ≡ none
    → entered junk rp status t ≡ t ++ added junk rp status
unfolding entered added
entered_grown junk rp status t e = rw (entered, e) refl

del-append :
    (rp status : ℕ) (t : List Con) (c : Con) (l : List Con)
    → All (λ c. (c.rp == rp) ≡ false) t
    → (c.rp == rp) ≡ true
    → del_loop rp status (t ++ (c ∷ l)) ≡ some (t ++ (discounted status c ∷ l))
del-append rp status [] c l h e = del_here rp status c l e
del-append rp status (d ∷ t) c l h e =
    del_later rp status d (t ++ (c ∷ l)) h.0
    ∙ ap (λ o. elim o [ none ↦ none | some t' ↦ some (d ∷ t') ]) (del-append rp status t c l h.1 e)

first_rp : (rp status : ℕ) → ((first_entry rp status).rp ≡ rp) × ((first_entry rp status).refc ≡ 1)
unfolding first_entry
first_rp rp status = (refl, refl)

new_rp : (junk : Con) → (new_entry junk).rp ≡ rp_null
unfolding new_entry
new_rp junk = refl

-- The table of a connection that is entered and taken out.
loops_restore :
    (junk : Con) (rp status : ℕ) (t : List Con)
    → (rp == rp_null) ≡ false
    → IsContab t
    → (t'' : List Con) × (del_loop rp status (entered junk rp status t) ≡ some t'')
      × SameStatus t'' t
unfolding added
loops_restore junk rp status t h k = elim (loops-LoopsUndo rp status t h k) [
  | inl (t', t'', g, d, s) ↦
      (t'', ap (del_loop rp status) (entered_found junk rp status t t' g) ∙ d, s)
  | inr (g, other) ↦
      let first = first_entry rp status in
      let (place, refs) = first_rp rp status in
      let rest = replicate 15 (new_entry junk) in
      (
        t ++ (discounted status first ∷ rest),
        ap (del_loop rp status) (entered_grown junk rp status t g)
            ∙ del-append rp status t first rest other (ap (λ n. n == rp) place ∙ self_equal rp),
        get-append_empty t (discounted status first ∷ rest) (
          ap (λ n. n == rp_null) (discounted_last status first refs),
          All-replicate (λ c. (c.rp == rp_null) ≡ true) 15 (new_entry junk)
              (ap (λ n. n == rp_null) (new_rp junk)),
        ),
      )
]

-- The answer of a connection, whose other side may refuse.
del_step :
    (fuel : ℕ) (refused : ℕ → ℕ → Bool) (rp status : ℕ) (t t'' : List Con)
    → (status == 0) ≡ false
    → del_loop rp status t ≡ some t''
    → refused rp (contab_get rp t'') ≡ false
    → contab_del (suc fuel) refused rp status t ≡ some (0, t'')
unfolding contab_del
del_step fuel refused rp status t t'' h e f = rw (contab_del, h, e, f) refl

add_accepted :
    (fuel : ℕ) (refused : ℕ → ℕ → Bool) (junk : Con) (rp status : ℕ) (t : List Con)
    → (status == 0) ≡ false
    → refused rp (contab_get rp (entered junk rp status t)) ≡ false
    → contab_add fuel refused junk rp status t ≡ some (0, entered junk rp status t)
unfolding contab_add
add_accepted fuel refused junk rp status t h e = rw (contab_add, h, e) refl

add_refused :
    (fuel : ℕ) (refused : ℕ → ℕ → Bool) (junk : Con) (rp status : ℕ) (t t'' : List Con)
    → (status == 0) ≡ false
    → refused rp (contab_get rp (entered junk rp status t)) ≡ true
    → contab_del fuel refused rp status (entered junk rp status t) ≡ some (0, t'')
    → contab_add fuel refused junk rp status t ≡ some (1, t'')
unfolding contab_add
add_refused fuel refused junk rp status t t'' h e f = rw (contab_add, h, e, f) refl

-- A connection refused, or made and given up.
abbrev pub Restores : (ℕ → ℕ → Bool) → Con → ℕ → ℕ → List Con → List Con → Type 0
Restores refused junk rp status t t'' =
    (rp_setstat 1 refused junk rp status t ≡ some (1, t''))
    ⊎ ((t' : List Con) × (rp_setstat 1 refused junk rp status t ≡ some (0, t'))
        × (rp_clrstat 1 refused rp status t' ≡ some (0, t'')))

-- Where the other side does not refuse the status that a connection has, rp_setstat for any status fails,
-- or rp_clrstat of the same status does not; and then rp_getstat gives for every resource what it gave before
-- both.
pub rp_clrstat-rp_setstat :
    (refused : ℕ → ℕ → Bool) (junk : Con) (rp status : ℕ) (t : List Con)
    → (rp == rp_null) ≡ false
    → IsContab t
    → refused rp (rp_getstat rp t) ≡ false
    → (rp' : ℕ) → (rp' == rp_null) ≡ false
    → (t'' : List Con) × Restores refused junk rp status t t''
      × (rp_getstat rp' t'' ≡ rp_getstat rp' t)
unfolding rp_getstat rp_setstat rp_clrstat SameStatus
rp_clrstat-rp_setstat refused junk rp status t h k accepted rp' other =
    let all = with_open status in
    let (t'', del, same) = loops_restore junk rp all t h k in
    let opened : (all == 0) ≡ false = ground arith in
    let back =
      del_step 0 refused rp all (entered junk rp all t) t'' opened del
        (ap (refused rp) (same rp h) ∙ accepted) in
    elim (Bool-cases (refused rp (contab_get rp (entered junk rp all t)))) [
      | inl e ↦ (t'', inl (add_refused 1 refused junk rp all t t'' opened e back), same rp' other)
      | inr e ↦ (
        t'',
        inr (entered junk rp all t, add_accepted 1 refused junk rp all t opened e, back),
        same rp' other,
      )
    ]
