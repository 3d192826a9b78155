-- ===== src/Kernel/Schedule/Erase.antt =====
-- Lists of threads without one of them, for schedule_remove of kernel/thread/schedule.c.
use rhombus.Prelude.{
  ◌≡◌, refl, ap, ◌∙◌, true, false, List, [], ◌∷◌, inl, inr, arith, ◌==◌, ==_iff, if◌then◌else◌,
  Bool-cases,
}
use rhombus.Kernel.Schedule.{Thread}
use rhombus.Kernel.Schedule.Queued.{waiting, Linked, last, last-ne}

-- The queue without its first `t`.
abbrev pub erase : Thread → List Thread → List Thread
erase t [] = []
erase t (x ∷ xs) = if x == t then xs else x ∷ erase t xs

-- The thread in front of `t`, if `x` stands in front of `xs`.
abbrev pub before : Thread → Thread → List Thread → Thread
before t x [] = x
before t x (y ∷ xs) = if y == t then x else before t y xs

pub apart :
    (u v : Thread) (xs : List Thread)
    → waiting u xs ≡ true
    → waiting v xs ≡ false
    → (u == v) ≡ false
apart u v xs h k = elim (Bool-cases (u == v)) [
  | inl same ↦ ground (arith, ap (λ x. waiting x xs) ((==_iff u v).0 same))
  | inr other ↦ other
]

pub before_miss :
    (t x y : Thread) (xs : List Thread) → (y == t) ≡ false → before t x (y ∷ xs) ≡ before t y xs
before_miss t x y xs miss = rw miss

pub before_hit : (t x y : Thread) (xs : List Thread) → (y == t) ≡ true → before t x (y ∷ xs) ≡ x
before_hit t x y xs hit = rw hit

pub waiting-before : (t x : Thread) (xs : List Thread) → waiting (before t x xs) (x ∷ xs) ≡ true
waiting-before t x [] = ground arith
waiting-before t x (y ∷ xs) = elim (Bool-cases (y == t)) [
  | inl hit ↦ rw hit (ground arith)
  | inr miss ↦
      ap (λ u. waiting u (x ∷ y ∷ xs)) (before_miss t x y xs miss)
      ∙ ground (arith, waiting-before t y xs)
]

pub waiting-erase :
    (u t : Thread) (xs : List Thread) → waiting u xs ≡ false → waiting u (erase t xs) ≡ false
waiting-erase u t [] h = refl
waiting-erase u t (x ∷ xs) h = elim (Bool-cases (x == t)) [
  | inl hit ↦ rw hit (ground arith)
  | inr miss ↦ rw miss (ground (arith, waiting-erase u t xs))
]

pub last-erase :
    (next : Thread → Thread) (p t x : Thread) (xs : List Thread)
    → Linked next p (x ∷ xs)
    → waiting t xs ≡ true
    → last (x ∷ erase t xs) ≡ (if last (x ∷ xs) == t then before t x xs else last (x ∷ xs))
last-erase next p t x [] h w = cc
last-erase next p t x (y ∷ []) h w = ground arith
last-erase next p t x (y ∷ z ∷ xs) h w = elim (Bool-cases (y == t)) [
  | inl hit ↦ rw hit (ground (arith, last-ne y z xs h.3.2))
  | inr miss ↦ rw miss (last-erase next (next x) t y (z ∷ xs) h.3 (ground arith))
]

pub erase-absent : (t : Thread) (xs : List Thread) → waiting t xs ≡ false → erase t xs ≡ xs
erase-absent t [] h = refl
erase-absent t (x ∷ xs) h = ground (arith, erase-absent t xs)
