-- ===== src/Libc/Contab/Tests.antt =====
-- Runs of the table of connections, and what rp_clrstat-rp_setstat says of one.
use rhombus.Prelude.{
  ℕ, ◌≡◌, ◌==◌, refl, inr, Bool, true, false, Option, none, some, List, [], ◌∷◌, arith,
}
use rhombus.Libc.Contab.{Con, rp_getstat, rp_setstat}
use rhombus.Libc.Contab.Loops.{IsContab}
use rhombus.Libc.Contab.Undo.{Restores, rp_clrstat-rp_setstat}

abbrev connection : ℕ → List ℕ → Con
connection rp counts = record { status_count = counts; refc = 1; rp = rp }

abbrev two : List Con
two = connection 7 (1 ∷ 0 ∷ 1 ∷ []) ∷ connection 9 (1 ∷ 1 ∷ 0 ∷ []) ∷ []

abbrev accepts : ℕ → ℕ → Bool
accepts rp status = false

abbrev refuses_three : ℕ → ℕ → Bool
refuses_three rp status = status == 7

abbrev table_of : Option (ℕ × List Con) → List Con
table_of none = []
table_of (some (err, t)) = t

set_status : rp_getstat 7 (table_of (rp_setstat 1 accepts (connection 5 []) 7 2 two)) ≡ 7
unfolding rp_setstat rp_getstat
set_status = refl

-- The empty entry before the one of resource 9 becomes a second entry for it.
split_connection :
    rp_getstat 9 (table_of (rp_setstat 1 accepts (connection 5 []) 9 4 (connection 0 [] ∷ two))) ≡ 5
unfolding rp_setstat rp_getstat
split_connection = refl

-- Two refusals take the counts of another connection to resource 9 away.
refused_twice :
    rp_getstat 9 (table_of (rp_setstat 5 (λ rp status. true) (connection 5 []) 9 4 two)) ≡ 0
unfolding rp_setstat rp_getstat
refused_twice = refl

two-IsContab : IsContab two
two-IsContab = (
  inr (record { words = omega arith; some_ref = omega arith; few_refs = omega arith }),
  (inr (record { words = omega arith; some_ref = omega arith; few_refs = omega arith }), tt),
)

accepted_before : refuses_three 9 (rp_getstat 9 two) ≡ false
unfolding rp_getstat
accepted_before = refl

rp_clrstat-rp_setstat_example :
    (t'' : List Con) × Restores refuses_three (connection 5 []) 9 4 two t''
    × (rp_getstat 7 t'' ≡ rp_getstat 7 two)
rp_clrstat-rp_setstat_example =
    rp_clrstat-rp_setstat refuses_three (connection 5 []) 9 4 two refl two-IsContab accepted_before
      7 refl
