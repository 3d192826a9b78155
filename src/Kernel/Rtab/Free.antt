-- ===== src/Kernel/Rtab/Free.antt =====
-- `rtab_free`: whom it notifies.
use mathlib.Core.List.{append_assoc}
use rhombus.Prelude.{
  ℕ, suc, ◌+◌, ◌≡◌, refl, ◌∙◌, ap, List, [], ◌∷◌, ◌++◌, inl, inr, some, map, arith, ◌==◌,
  if◌then◌else◌, Bool-cases, length, get_elem?, get_elem?-append, length-append,
}
use rhombus.Kernel.Rtab.{Entry, Table, Notice, close, free_loop, free}
use rhombus.Kernel.Rtab.Live.{live}
use rhombus.Kernel.Rtab.Close.{touches}

-- The notice that closing an entry sends.
abbrev pub notice : Entry → Notice
notice e = record { target = e.b; source = e.a }

-- Closing the entry at some index sends its notice, and leaves what lies behind the index alone.
close-at :
    (pre post : Table) (e : Entry)
    → (pre' : Table) × (e' : Entry) × (close (pre ++ (e ∷ post)) e.a e.b
        ≡ (pre' ++ (e' ∷ post), notice e ∷ []))
      × (length pre' ≡ length pre)
unfolding close
close-at [] post e = ([], record { a = 0; b = 0 }, ground arith, refl)
close-at (x ∷ pre) post e = elim (Bool-cases (touches x e.a e.b)) [
  | inl hit ↦ (record { a = 0; b = 0 } ∷ pre, e, rw hit, refl)
  | inr new ↦
      let (pre', e', result, same) = close-at pre post e in
      (x ∷ pre', e', rw (new, result), ap suc same)
]

free_loop_step :
    (k i : ℕ) (t : Table) (e : Entry)
    → get_elem? t i ≡ some e
    → free_loop (suc k) i t ≡ (
        if e.a == 0
        then free_loop k (i + 1) t
        else (close t e.a e.b).1 ++ free_loop k (i + 1) (close t e.a e.b).0)
unfolding free_loop
free_loop_step k i t e h = rw (h, free_loop)

-- The index moves on by one when an entry joins the part that is done.
free_loop_snoc :
    (k : ℕ) (pre post : Table) (e : Entry) (n : ℕ)
    → length pre ≡ n
    → free_loop k (n + 1) (pre ++ (e ∷ post))
      ≡ free_loop k (length (pre ++ (e ∷ []))) ((pre ++ (e ∷ [])) ++ post)
free_loop_snoc k pre post e n h = rw (append_assoc pre (e ∷ []) post, length-append pre (e ∷ []), h)

free_loop-notice :
    (pre post : Table) → free_loop (length post) (length pre) (pre ++ post) ≡ map notice (live post)
unfolding free_loop
free_loop-notice pre [] = refl
free_loop-notice pre (e ∷ post) =
    let (pre', e', result, same) = close-at pre post e in
    let step =
      free_loop_step (length post) (length pre) (pre ++ (e ∷ post)) e
        (get_elem?-append pre e post) in
    elim (Bool-cases (e.a == 0)) [
      | inl free ↦
          step
          ∙ rw free (
              free_loop_snoc (length post) pre post e (length pre) refl
              ∙ free_loop-notice (pre ++ (e ∷ [])) post)
      | inr used ↦
          step
          ∙ rw (used, result)
              (ap (λ x. notice e ∷ x)
                (free_loop_snoc (length post) pre' post e' (length pre) same
                  ∙ free_loop-notice (pre' ++ (e' ∷ [])) post))
    ]

-- `rtab_free` empties the table, and sends one notice for each open connection, in slot order.
pub free-notice : (t : Table) → free t ≡ ([], map notice (live t))
unfolding free
free-notice t = ap (λ (x : List Notice). ([], x)) (free_loop-notice [] t)
