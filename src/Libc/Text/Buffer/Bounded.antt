-- ===== src/Libc/Text/Buffer/Bounded.antt =====
-- strlcpy and strlcat stay inside the size they are given, and terminate what they write.
use mathlib.Core.Path.{subst}
use rhombus.Prelude.{
  inl, inr, ◌⊎◌, Option-cases, ℕ, zero, suc, ◌+◌, ◌-◌, ◌≤◌, ◌<◌, ◌≡◌, ◌≢◌, refl, ap, sym, ◌∙◌, true,
  false, Option, none, some, [], ◌∷◌, ◌++◌, ◌==◌, arith, Bool-cases, All, length, take, drop,
  if◌then◌else◌,
}
use rhombus.Libc.Text.{Text, strlen}
use rhombus.Libc.Text.Buffer.{
  Array, push, push_counted, copy_bounded, strlcpy, append_bounded, strlcat,
}

-- The text at a pointer: the bytes before the first terminator, if the array has one.
unfoldable pub text : Array → Option Text
unfolding push
text [] = none
text (x ∷ d) = let rest = push x (text d) in if x == 0 then some [] else rest

-- The array `d'` holds the text `t`, and is `d` from index `n` on.
record Holds (d' : Array) (t : Text) (d : Array) (n : ℕ) : Type 0 where
  reads : text d' ≡ some t
  behind : drop n d' ≡ drop n d

text-cons : (c : ℕ) (d : Array) (t : Text) → c ≢ 0 → text d ≡ some t → text (c ∷ d) ≡ some (c ∷ t)
unfolding text push
text-cons c d t h e = let other : (c == 0) ≡ false = ground arith in rw other (ap (push c) e)

text-zero : (d : Array) → text (0 ∷ d) ≡ some []
unfolding text
text-zero d = refl

copy_bounded-Holds :
    (d : Array) (s : Text) (n : ℕ)
    → n < length d
    → All (λ c. c ≢ 0) s
    → (d' : Array) × (copy_bounded d s n ≡ some (d', strlen s)) × Holds d' (take n s) d (suc n)
unfolding copy_bounded push_counted strlen
copy_bounded-Holds [] s n h k = absurd (omega arith)
copy_bounded-Holds (x ∷ d) s zero h k = (0 ∷ d, refl, record { reads = text-zero d; behind = refl })
copy_bounded-Holds (x ∷ d) [] (suc n) h k =
    (0 ∷ d, refl, record { reads = text-zero d; behind = refl })
copy_bounded-Holds (x ∷ d) (c ∷ s) (suc n) h k =
    let (d', e, holds) = copy_bounded-Holds d s n (omega arith) k.1 in
    (
      c ∷ d',
      ap (push_counted c) e,
      record { reads = text-cons c d' (take n s) k.0 holds.reads; behind = holds.behind },
    )

append_bounded-Holds :
    (d : Array) (s : Text) (n : ℕ)
    → n < length d
    → All (λ c. c ≢ 0) s
    → (d' : Array) × (append_bounded d s n ≡ some (d', strlen s)) × Holds d' (take n s) d (suc n)
unfolding append_bounded push_counted strlen
append_bounded-Holds [] s n h k = absurd (omega arith)
append_bounded-Holds (x ∷ d) [] zero h k =
    (0 ∷ d, refl, record { reads = text-zero d; behind = refl })
append_bounded-Holds (x ∷ d) [] (suc n) h k =
    (0 ∷ d, refl, record { reads = text-zero d; behind = refl })
append_bounded-Holds (x ∷ d) (c ∷ s) zero h k =
    (0 ∷ d, refl, record { reads = text-zero d; behind = refl })
append_bounded-Holds (x ∷ d) (c ∷ s) (suc n) h k =
    let (d', e, holds) = append_bounded-Holds d s n (omega arith) k.1 in
    (
      c ∷ d',
      ap (push_counted c) e,
      record { reads = text-cons c d' (take n s) k.0 holds.reads; behind = holds.behind },
    )

-- strlcpy into an array that has the size it is given, which is not zero: it returns the length of
-- the text, the array then holds the text cut to one byte less than the size, and it is as it was
-- behind the size.
pub strlcpy-text :
    (d : Array) (s : Text) (siz : ℕ)
    → 0 < siz
    → siz ≤ length d
    → All (λ c. c ≢ 0) s
    → (d' : Array) × (strlcpy d s siz ≡ some (d', strlen s))
      × (text d' ≡ some (take (siz - 1) s))
      × (drop siz d' ≡ drop siz d)
unfolding strlcpy
strlcpy-text d s zero pos_size h k = absurd (omega arith)
strlcpy-text d s (suc n) pos_size h k =
    let (d', e, holds) = copy_bounded-Holds d s n (omega arith) k in
    let n_less : suc n - 1 ≡ n = omega arith in
    (d', e, holds.reads ∙ ap (λ m. some (take m s)) (sym n_less), holds.behind)

text_end : (x : ℕ) (d : Array) → (x == 0) ≡ true → text (x ∷ d) ≡ some []
unfolding text
text_end x d e = rw e refl

text_more : (x : ℕ) (d : Array) → (x == 0) ≡ false → text (x ∷ d) ≡ push x (text d)
unfolding text
text_more x d e = rw e refl

pub text-cases :
    (x : ℕ) (d : Array) (t : Text)
    → text (x ∷ d) ≡ some t
    → (((x == 0) ≡ true) × (t ≡ []))
      ⊎ (((x == 0) ≡ false) × (u : Text) × (text d ≡ some u) × (t ≡ x ∷ u))
unfolding text push
text-cases x d t e = elim (Bool-cases (x == 0)) [
  | inl end ↦ inl (end, cc (sym (text_end x d end) ∙ e))
  | inr more ↦ elim (Option-cases (text d)) [
    | inl none_there ↦ absurd (cc (text_more x d more ∙ ap (push x) none_there, e))
    | inr (u, f) ↦ inr (more, u, f, cc (text_more x d more ∙ ap (push x) f, e))
  ]
]

pub strlcat_here :
    (x : ℕ) (d : Array) (s : Text) (n : ℕ)
    → (x == 0) ≡ true
    → strlcat (x ∷ d) s (suc n) ≡ append_bounded (x ∷ d) s n
unfolding strlcat
strlcat_here x d s n e = rw e refl

pub strlcat_later :
    (x : ℕ) (d : Array) (s : Text) (n : ℕ)
    → (x == 0) ≡ false
    → strlcat (x ∷ d) s (suc n) ≡ push_counted x (strlcat d s n)
unfolding strlcat
strlcat_later x d s n e = rw e refl

-- What strlcat to the text `t` gives.
abbrev Joins : Array → Text → ℕ → Text → Type 0
Joins d s n t =
    (d' : Array) × (strlcat d s n ≡ some (d', strlen t + strlen s))
    × Holds d' (t ++ take (n - 1 - strlen t) s) d n

strlcat-Joins :
    (d : Array) (s t : Text) (n : ℕ)
    → text d ≡ some t
    → strlen t < n
    → n ≤ length d
    → All (λ c. c ≢ 0) s
    → Joins d s n t
unfolding strlen push_counted
strlcat-Joins d s t zero e f h k = absurd (omega arith)
strlcat-Joins [] s t (suc n) e f h k = absurd (omega arith)
strlcat-Joins (x ∷ d) s t (suc n) e f h k = elim (text-cases x d t e) [
  | inl (end, empty) ↦
      let (d', g, holds) = append_bounded-Holds (x ∷ d) s n (omega arith) k in
      let count : strlen s ≡ 0 + strlen s = omega arith in
      let room : n ≡ suc n - 1 - 0 = omega arith in
      subst (Joins (x ∷ d) s (suc n)) (sym empty) (
        d',
        strlcat_here x d s n end ∙ (g ∙ ap (λ m. some (d', m)) count),
        record { reads = holds.reads ∙ ap (λ m. some (take m s)) room; behind = holds.behind },
      )
  | inr (more, u, g, split) ↦
      let shorter : suc (strlen u) < suc n = omega (arith, ap strlen (sym split)) in
      let (d', r, holds) = strlcat-Joins d s u n g (omega arith) (omega arith) k in
      let count : suc (strlen u + strlen s) ≡ suc (strlen u) + strlen s = omega arith in
      let room : n - 1 - strlen u ≡ suc n - 1 - suc (strlen u) = omega arith in
      subst (Joins (x ∷ d) s (suc n)) (sym split) (
        x ∷ d',
        strlcat_later x d s n more ∙ (ap (push_counted x) r ∙ ap (λ m. some (x ∷ d', m)) count),
        record {
          reads =
              text-cons x d' _ (λ z. ground arith) holds.reads
              ∙ ap (λ m. some (x ∷ (u ++ take m s))) room;
          behind = holds.behind;
        },
      )
]

-- strlcat to an array that has the size it is given and whose text ends inside that size: it returns
-- the sum of the lengths, the array then holds the text with as much of the other behind it as
-- leaves one byte of the size for the terminator, and it is as it was behind the size.
pub strlcat-text :
    (d : Array) (s t : Text) (siz : ℕ)
    → text d ≡ some t
    → strlen t < siz
    → siz ≤ length d
    → All (λ c. c ≢ 0) s
    → (d' : Array) × (strlcat d s siz ≡ some (d', strlen t + strlen s))
      × (text d' ≡ some (t ++ take (siz - 1 - strlen t) s))
      × (drop siz d' ≡ drop siz d)
strlcat-text d s t siz e f h k =
    let (d', g, holds) = strlcat-Joins d s t siz e f h k in (d', g, holds.reads, holds.behind)
