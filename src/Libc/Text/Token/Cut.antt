-- ===== src/Libc/Text/Token/Cut.antt =====
-- Where strtok_r cuts a text.
use rhombus.Prelude.{
  ℕ, suc, ◌≡◌, ◌⊎◌, inl, inr, refl, ap, sym, ◌∙◌, true, false, Option, none, some, [], ◌∷◌, ◌++◌,
  Bool-cases, All, length, take, drop, length-append,
}
use rhombus.Libc.Text.{Text}
use rhombus.Libc.Text.Token.{delimp, leading, next_count, seek, cut, token, strtok_r}

-- The text is delimiters, then a word without one.
pub record Word (delim s lead word : Text) : Type 0 where
  pub delims : All (λ c. delimp c delim ≡ true) lead
  pub letters : All (λ c. delimp c delim ≡ false) word
  pub whole : s ≡ lead ++ word

leading-split :
    (delim s : Text)
    → (lead : Text) × (rest : Text) × (leading delim s ≡ length lead)
      × (s ≡ lead ++ rest)
      × (drop (length lead) s ≡ rest)
      × All (λ c. delimp c delim ≡ true) lead
unfolding leading
leading-split delim [] = ([], [], refl, refl, refl, tt)
leading-split delim (c ∷ s) = elim (Bool-cases (delimp c delim)) [
  | inl yes_delim ↦
      let (lead, rest, e, whole, dropped, k) = leading-split delim s in
      (c ∷ lead, rest, rw yes_delim (ap suc e), ap (λ l. c ∷ l) whole, dropped, (yes_delim, k))
  | inr no_delim ↦ ([], c ∷ s, rw no_delim refl, refl, refl, tt)
]

-- The search for a delimiter finds none, or stops behind a word.
seek-split :
    (delim s : Text)
    → ((seek delim s ≡ none) × All (λ c. delimp c delim ≡ false) s)
      ⊎ ((word : Text) × (d : ℕ) × (rest : Text) × (seek delim s ≡ some (length word))
          × (s ≡ word ++ (d ∷ rest))
          × (delimp d delim ≡ true)
          × All (λ c. delimp c delim ≡ false) word)
unfolding seek
seek-split delim [] = inl (refl, tt)
seek-split delim (c ∷ s) = elim (Bool-cases (delimp c delim)) [
  | inl hit ↦ inr ([], c, s, rw hit refl, refl, hit, tt)
  | inr miss ↦ elim (seek-split delim s) [
    | inl (e, k) ↦ inl (rw miss (ap next_count e), (miss, k))
    | inr (word, d, rest, e, whole, h, k) ↦
        inr (c ∷ word, d, rest, rw miss (ap next_count e), ap (λ l. c ∷ l) whole, h, (miss, k))
  ]
]

take-length : (xs ys : Text) → take (length xs) (xs ++ ys) ≡ xs
take-length [] ys = refl
take-length (x ∷ xs) ys = ap (λ l. x ∷ l) (take-length xs ys)

drop-length : (xs : Text) (y : ℕ) (ys : Text) → drop (suc (length xs)) (xs ++ (y ∷ ys)) ≡ ys
drop-length [] y ys = refl
drop-length (x ∷ xs) y ys = drop-length xs y ys

append_assoc : (xs ys zs : Text) → (xs ++ ys) ++ zs ≡ xs ++ (ys ++ zs)
append_assoc [] ys zs = refl
append_assoc (x ∷ xs) ys zs = ap (λ l. x ∷ l) (append_assoc xs ys zs)

token-cut :
    (delim s : Text) (i : ℕ) (o : Option ℕ)
    → leading delim s ≡ i
    → seek delim (drop i s) ≡ o
    → token delim s ≡ cut s i o
unfolding token
token-cut delim s i o e f = ap (λ i. cut s i (seek delim (drop i s))) e ∙ ap (cut s i) f

cut-whole : (s : Text) (i : ℕ) → cut s i none ≡ (some s, none)
unfolding cut
cut-whole s i = refl

cut-append :
    (lead word : Text) (d : ℕ) (rest s : Text)
    → s ≡ (lead ++ word) ++ (d ∷ rest)
    → cut s (length lead) (some (length word)) ≡ (some (lead ++ word), some rest)
unfolding cut
cut-append lead word d rest s whole =
    rw
      (
        whole,
        sym (length-append lead word),
        take-length (lead ++ word) (d ∷ rest),
        drop-length (lead ++ word) d rest,
      )
      refl

-- strtok_r of a text gives as its token the text up to the first delimiter behind the first byte
-- that is none, and leaves what follows that delimiter at *saveptr; with no such delimiter the
-- token is the whole text and *saveptr is null. So the token keeps the delimiters that lead it.
pub strtok_r-Word :
    (delim s : Text) (save : Option Text)
    → (lead : Text) × (word : Text) × (((strtok_r (some s) delim save ≡ (some s, none))
          × Word delim s lead word)
        ⊎ ((d : ℕ) × (rest : Text) × (strtok_r (some s) delim save
              ≡ (some (lead ++ word), some rest))
            × (s ≡ (lead ++ word) ++ (d ∷ rest))
            × (delimp d delim ≡ true)
            × Word delim (lead ++ word) lead word))
unfolding strtok_r
strtok_r-Word delim s save =
    let (lead, tail, e, whole, dropped, delims) = leading-split delim s in
    elim (seek-split delim tail) [
      | inl (f, letters) ↦ (
        lead,
        tail,
        inl (
          token-cut delim s (length lead) none e (ap (seek delim) dropped ∙ f)
              ∙ cut-whole s (length lead),
          record { delims = delims; letters = letters; whole = whole },
        ),
      )
      | inr (word, d, rest, f, split, hit, letters) ↦
          let all : s ≡ (lead ++ word) ++ (d ∷ rest) =
            whole ∙ (ap (λ l. lead ++ l) split ∙ sym (append_assoc lead word (d ∷ rest))) in
          (
            lead,
            word,
            inr (
              d,
              rest,
              token-cut delim s (length lead) (some (length word)) e (ap (seek delim) dropped ∙ f)
                  ∙ cut-append lead word d rest s all,
              all,
              hit,
              record { delims = delims; letters = letters; whole = refl },
            ),
          )
    ]
