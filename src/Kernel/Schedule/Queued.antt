-- ===== src/Kernel/Schedule/Queued.antt =====
-- The queue of kernel/thread/schedule.c as a list of threads.
use mathlib.Core.Path.{subst}
use rhombus.Prelude.{
  ◌≡◌, ◌≢◌, refl, sym, ap, Bool, true, false, ◌||◌, List, [], ◌∷◌, ◌++◌, inl, inr, arith, ◌==◌,
  ==_iff, Bool-cases,
}
use rhombus.Kernel.Schedule.{Thread, null, Queue, assign}

abbrev pub waiting : Thread → List Thread → Bool
waiting t [] = false
waiting t (x ∷ xs) = (t == x) || waiting t xs

-- From `p` the field `next` leads through the distinct threads `xs` to null.
abbrev pub Linked : (Thread → Thread) → Thread → List Thread → Type 0
Linked next p [] = p ≡ null
Linked next p (x ∷ xs) = (p ≡ x) × (x ≢ null) × (waiting x xs ≡ false) × Linked next (next x) xs

abbrev pub last : List Thread → Thread
last [] = null
last (x ∷ []) = x
last (x ∷ y ∷ xs) = last (y ∷ xs)

-- The queue holds the threads `xs`, the next one to run first.
pub record Queued (q : Queue) (xs : List Thread) : Type 0 where
  pub linked : Linked q.next q.out xs
  pub back : q.into ≡ last xs

-- A change of the links of other threads does not matter.
pub Linked-other :
    (next next' : Thread → Thread) (p : Thread) (xs : List Thread)
    → ((t : Thread) → waiting t xs ≡ true → next' t ≡ next t)
    → Linked next p xs
    → Linked next' p xs
Linked-other next next' p [] same h = h
Linked-other next next' p (x ∷ xs) same h = (
  h.0,
  h.1,
  h.2,
  rw (same x (ground arith))
      (Linked-other next next' (next x) xs (λ t w. same t (ground arith)) h.3),
)

waiting-append :
    (t : Thread) (xs ys : List Thread) → waiting t (xs ++ ys) ≡ (waiting t xs || waiting t ys)
waiting-append t [] ys = refl
waiting-append t (x ∷ xs) ys = ground (arith, waiting-append t xs ys)

waiting-last : (x : Thread) (xs : List Thread) → waiting (last (x ∷ xs)) (x ∷ xs) ≡ true
waiting-last x [] = ground arith
waiting-last x (y ∷ xs) = ground (arith, waiting-last y xs)

pub last-ne :
    (t x : Thread) (xs : List Thread) → waiting t (x ∷ xs) ≡ false → (t == last (x ∷ xs)) ≡ false
last-ne t x xs h = elim (Bool-cases (t == last (x ∷ xs))) [
  | inl same ↦
      ground
        (arith, waiting-last x xs, ap (λ u. waiting u (x ∷ xs)) ((==_iff t (last (x ∷ xs))).0 same))
  | inr other ↦ other
]

pub last-snoc : (xs : List Thread) (t : Thread) → last (xs ++ (t ∷ [])) ≡ t
last-snoc [] t = refl
last-snoc (x ∷ []) t = refl
last-snoc (x ∷ y ∷ xs) t = last-snoc (y ∷ xs) t

-- Linking a new thread behind the last one.
pub Linked-snoc :
    (next : Thread → Thread) (p t : Thread) (x : Thread) (xs : List Thread)
    → t ≢ null
    → waiting t (x ∷ xs) ≡ false
    → Linked next p (x ∷ xs)
    → Linked (assign (assign next (last (x ∷ xs)) t) t null) p ((x ∷ xs) ++ (t ∷ []))
Linked-snoc next p t x [] ne new h = ground arith
Linked-snoc next p t x (y ∷ xs) ne new h =
    let next' = assign (assign next (last (y ∷ xs)) t) t null in
    let same : next' x ≡ next x = ground (arith, last-ne x y xs) in
    (
      h.0,
      h.1,
      ground (arith, waiting-append x xs (t ∷ [])),
      subst (λ u. Linked next' u ((y ∷ xs) ++ (t ∷ []))) (sym same)
          (Linked-snoc next (next x) t y xs ne (ground arith) h.3),
    )

pub last-ne-null :
    (next : Thread → Thread) (p x : Thread) (xs : List Thread)
    → Linked next p (x ∷ xs)
    → last (x ∷ xs) ≢ null
last-ne-null next p x [] h = h.1
last-ne-null next p x (y ∷ xs) h = last-ne-null next (next x) y xs h.3
