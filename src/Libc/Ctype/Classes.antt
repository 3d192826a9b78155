-- ===== src/Libc/Ctype/Classes.antt =====
-- What the table of libc/ctype/ctype.c says of each character.
use rhombus.Prelude.{
  ℕ, zero, suc, ◌<◌, ◌≡◌, inl, inr, refl, ap, ◌∙◌, Bool, true, false, not, ◌&&◌, ◌||◌, ◌==◌, leb,
  arith, Bool-cases, ==_iff,
}
use rhombus.Libc.Ctype.{
  isalnum, isalpha, isdigit, islower, isupper, ispunct, isspace, isxdigit, toupper, tolower,
}

abbrev pub between : ℕ → ℕ → ℕ → Bool
between low high c = leb low c && leb c high

agrees : Bool → Bool → Bool
agrees true b = b
agrees false b = not b

agrees_lem : (a b : Bool) → agrees a b ≡ true → a ≡ b
unfolding agrees
agrees_lem true true h = refl
agrees_lem true false h = absurd (ground arith)
agrees_lem false true h = absurd (ground arith)
agrees_lem false false h = refl

below : (ℕ → Bool) → ℕ → Bool
below test zero = true
below test (suc n) = test n && below test n

both : (a b : Bool) → (a && b) ≡ true → (a ≡ true) × (b ≡ true)
both true b h = (refl, h)
both false b h = absurd (ground arith)

below_lem : (test : ℕ → Bool) (n c : ℕ) → below test n ≡ true → c < n → test c ≡ true
unfolding below
below_lem test zero c h b = absurd (omega arith)
below_lem test (suc n) c h b =
    let (here, rest) = both (test n) (below test n) h in
    elim (Bool-cases (c == n)) [
      | inl e ↦ ap test ((==_iff c n).0 e) ∙ here
      | inr e ↦ below_lem test n c rest (ground arith)
    ]

-- A test on a byte that the table answers like a formula.
byte_lem :
    (f g : ℕ → Bool) (c : ℕ) → below (λ c. agrees (f c) (g c)) 256 ≡ true → c < 256 → f c ≡ g c
byte_lem f g c h b = agrees_lem (f c) (g c) (below_lem (λ c. agrees (f c) (g c)) 256 c h b)

-- For every byte: isdigit, isupper and islower are true of the digits, the upper and the lower letters, isalpha
-- of the letters and isalnum of letters and digits, isxdigit of digits and the letters to F of either case,
-- isspace of the characters from 9 to 13 and of 32, and ispunct of the characters from 33 to 126 that
-- isalnum is not true of. toupper gives an upper letter of a letter and of nothing else, and tolower
-- gives the same before it and after it.
pub classes_lem :
    (c : ℕ)
    → c < 256
    → (isdigit c ≡ between b'0' b'9' c)
      × (isupper c ≡ between b'A' b'Z' c)
      × (islower c ≡ between b'a' b'z' c)
      × (isalpha c ≡ (isupper c || islower c))
      × (isalnum c ≡ (isalpha c || isdigit c))
      × (isxdigit c ≡ (isdigit c || (between b'A' b'F' c || between b'a' b'f' c)))
      × (isspace c ≡ (between 9 13 c || (c == 32)))
      × (ispunct c ≡ (between 33 126 c && not (isalnum c)))
      × (isupper (toupper c) ≡ isalpha c)
      × (tolower (toupper c) ≡ tolower c)
unfolding below agrees isalnum isalpha isdigit islower isupper ispunct isspace isxdigit toupper
    tolower
classes_lem c b = (
  byte_lem isdigit (between b'0' b'9') c refl b,
  byte_lem isupper (between b'A' b'Z') c refl b,
  byte_lem islower (between b'a' b'z') c refl b,
  byte_lem isalpha (λ c. isupper c || islower c) c refl b,
  byte_lem isalnum (λ c. isalpha c || isdigit c) c refl b,
  byte_lem isxdigit (λ c. isdigit c || (between b'A' b'F' c || between b'a' b'f' c)) c refl b,
  byte_lem isspace (λ c. between 9 13 c || (c == 32)) c refl b,
  byte_lem ispunct (λ c. between 33 126 c && not (isalnum c)) c refl b,
  byte_lem (λ c. isupper (toupper c)) isalpha c refl b,
  (==_iff (tolower (toupper c)) (tolower c)).0
      (below_lem (λ c. tolower (toupper c) == tolower c) 256 c refl b),
)
