-- ===== src/Libc/Text/Buffer/Unbounded.antt =====
-- strcpy, strcat and strncat next to the functions with a size, and past the end of the array.
use rhombus.Prelude.{
  ℕ, zero, suc, ◌+◌, ◌≤◌, ◌<◌, ◌≡◌, refl, ap, sym, ◌∙◌, Option, none, some, [], ◌∷◌, arith, length,
  ◌==◌, inl, inr, true, false,
}
use rhombus.Libc.Text.{Text, strlen}
use rhombus.Libc.Text.Buffer.Bounded.{text, text-cases, strlcat_here, strlcat_later}
use rhombus.Libc.Text.Buffer.{
  Array, push, push_counted, strcpy, copy_some, strncat, copy_bounded, strlcpy, append_bounded,
  strlcat,
}

-- The array without the count.
abbrev pub array : Option (Array × ℕ) → Option Array
array none = none
array (some (d, n)) = some d

array-push_counted : (c : ℕ) (o : Option (Array × ℕ)) → array (push_counted c o) ≡ push c (array o)
unfolding push_counted push
array-push_counted c none = refl
array-push_counted c (some (d, n)) = refl

copy_bounded-strcpy :
    (d : Array) (s : Text) (n : ℕ) → strlen s ≤ n → array (copy_bounded d s n) ≡ strcpy d s
unfolding copy_bounded strcpy strlen
copy_bounded-strcpy [] s n h = refl
copy_bounded-strcpy (x ∷ d) [] zero h = refl
copy_bounded-strcpy (x ∷ d) (c ∷ s) zero h = absurd (omega arith)
copy_bounded-strcpy (x ∷ d) [] (suc n) h = refl
copy_bounded-strcpy (x ∷ d) (c ∷ s) (suc n) h =
    array-push_counted c (copy_bounded d s n)
    ∙ ap (push c) (copy_bounded-strcpy d s n (omega arith))

append_bounded-copy_some :
    (d : Array) (s : Text) (n : ℕ) → array (append_bounded d s n) ≡ copy_some d s n
unfolding append_bounded copy_some strlen
append_bounded-copy_some [] s n = refl
append_bounded-copy_some (x ∷ d) [] n = refl
append_bounded-copy_some (x ∷ d) (c ∷ s) zero = refl
append_bounded-copy_some (x ∷ d) (c ∷ s) (suc n) =
    array-push_counted c (append_bounded d s n) ∙ ap (push c) (append_bounded-copy_some d s n)

text_of_none : (t : Text) → text [] ≡ some t → ⊥
unfolding text
text_of_none t e = cc e

strncat_here :
    (x : ℕ) (d : Array) (s : Text) (n : ℕ)
    → (x == 0) ≡ true
    → strncat (x ∷ d) s n ≡ copy_some (x ∷ d) s n
unfolding strncat
strncat_here x d s n e = rw e refl

strncat_later :
    (x : ℕ) (d : Array) (s : Text) (n : ℕ)
    → (x == 0) ≡ false
    → strncat (x ∷ d) s n ≡ push x (strncat d s n)
unfolding strncat
strncat_later x d s n e = rw e refl

-- strncat of up to `n` bytes is strlcat with a size that has room for them and the terminator.
pub strncat-strlcat :
    (d : Array) (s t : Text) (n siz : ℕ)
    → text d ≡ some t
    → strlen t + suc n ≡ siz
    → array (strlcat d s siz) ≡ strncat d s n
unfolding strlen
strncat-strlcat d s t n zero e f = absurd (omega arith)
strncat-strlcat [] s t n (suc m) e f = absurd (text_of_none t e)
strncat-strlcat (x ∷ d) s t n (suc m) e f = elim (text-cases x d t e) [
  | inl (end, empty) ↦
      let size : m ≡ n = omega (arith, ap strlen empty) in
      ap array (strlcat_here x d s m end)
      ∙ (append_bounded-copy_some (x ∷ d) s m
          ∙ (ap (copy_some (x ∷ d) s) size ∙ sym (strncat_here x d s n end)))
  | inr (more, u, g, split) ↦
      ap array (strlcat_later x d s m more)
      ∙ (array-push_counted x (strlcat d s m)
          ∙ (ap (push x) (strncat-strlcat d s u n m g (omega (arith, ap strlen split)))
              ∙ sym (strncat_later x d s n more)))
]

-- strcpy leaves the array when the text with its terminator is longer.
strcpy-overflow : (d : Array) (s : Text) → length d ≤ strlen s → strcpy d s ≡ none
unfolding strcpy strlen push
strcpy-overflow [] s h = refl
strcpy-overflow (x ∷ d) [] h = absurd (omega arith)
strcpy-overflow (x ∷ d) (c ∷ s) h = ap (push c) (strcpy-overflow d s (omega arith))

-- strlcpy with a size above the length of the text writes what strcpy writes; strcpy has no size,
-- and leaves an array that is not longer than the text.
pub strcpy-strlcpy :
    (d : Array) (s : Text) (siz : ℕ)
    → strlen s < siz
    → (array (strlcpy d s siz) ≡ strcpy d s) × (length d ≤ strlen s → strcpy d s ≡ none)
unfolding strlcpy
strcpy-strlcpy d s zero h = absurd (omega arith)
strcpy-strlcpy d s (suc n) h = (copy_bounded-strcpy d s n (omega arith), strcpy-overflow d s)
