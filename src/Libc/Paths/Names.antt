-- ===== src/Libc/Paths/Names.antt =====
-- The names that path_next takes from a path, and paths that are names joined.
use rhombus.Prelude.{
  ℕ, ◌≤◌, ◌<◌, ◌≡◌, ◌⊎◌, inl, inr, refl, ap, sym, ◌∙◌, true, false, none, some, List, [], ◌∷◌, ◌++◌,
  ◌==◌, arith, Bool-cases, All, All-append, length, length-append,
}
use rhombus.Libc.Text.{Text, strchr}
use rhombus.Libc.Paths.{path_sep, skip_seps, until_sep, behind_token, is_text, join}

abbrev pub Ascii : Text → Type 0
Ascii s = All (λ c. c < 128) s

-- A name that path_simplify keeps.
pub record IsName (n : Text) : Type 0 where
  pub some_byte : 0 < length n
  pub letters : All (λ c. (c == path_sep) ≡ false) n
  pub ascii : Ascii n
  pub other_than_dot : is_text n (b'.' ∷ []) ≡ false
  pub other_than_dots : is_text n (b'.' ∷ b'.' ∷ []) ≡ false

-- What is left of a text is shorter, and of the same bytes.
pub record Left (s t : Text) : Type 0 where
  pub shorter : length t ≤ length s
  pub ascii : Ascii s → Ascii t

pub skip_seps-cases :
    (s : Text)
    → (skip_seps s ≡ [])
      ⊎ ((c : ℕ) × (t : Text) × (skip_seps s ≡ c ∷ t) × ((c == path_sep) ≡ false) × Left s (c ∷ t))
unfolding skip_seps
skip_seps-cases [] = inl refl
skip_seps-cases (c ∷ s) = elim (Bool-cases (c == path_sep)) [
  | inr letter ↦
      inr (c, s, rw letter refl, letter, record { shorter = omega arith; ascii = λ h. h })
  | inl sep ↦ elim (skip_seps-cases s) [
    | inl e ↦ inl (rw sep e)
    | inr (d, t, e, letter, left) ↦ inr (
      d,
      t,
      rw sep e,
      letter,
      record { shorter = omega (arith, left.shorter); ascii = λ h. left.ascii h.1 },
    )
  ]
]

pub until_sep-letters : (s : Text) → All (λ c. (c == path_sep) ≡ false) (until_sep s)
unfolding until_sep
until_sep-letters [] = tt
until_sep-letters (c ∷ s) = elim (Bool-cases (c == path_sep)) [
  | inl sep ↦ rw sep tt
  | inr letter ↦ rw letter (letter, until_sep-letters s)
]

pub until_sep-Ascii : (s : Text) → Ascii s → Ascii (until_sep s)
unfolding until_sep
until_sep-Ascii [] h = tt
until_sep-Ascii (c ∷ s) h = elim (Bool-cases (c == path_sep)) [
  | inl sep ↦ rw sep tt
  | inr letter ↦ rw letter (h.0, until_sep-Ascii s h.1)
]

pub until_sep-some : (c : ℕ) (t : Text) → (c == path_sep) ≡ false → 0 < length (until_sep (c ∷ t))
unfolding until_sep
until_sep-some c t letter = rw letter (omega arith)

strchr_here : (c : ℕ) (t : Text) → (c == path_sep) ≡ true → strchr (c ∷ t) path_sep ≡ some (c ∷ t)
unfolding strchr
strchr_here c t sep = rw sep refl

strchr_later :
    (c : ℕ) (t : Text) → (c == path_sep) ≡ false → strchr (c ∷ t) path_sep ≡ strchr t path_sep
unfolding strchr
strchr_later c t letter = rw letter refl

behind_sep : (c : ℕ) (t : Text) → (c == path_sep) ≡ true → behind_token (c ∷ t) ≡ c ∷ t
unfolding behind_token
behind_sep c t sep = ap (λ o. elim o [ none ↦ [] | some rest ↦ rest ]) (strchr_here c t sep)

behind_letter : (c : ℕ) (t : Text) → (c == path_sep) ≡ false → behind_token (c ∷ t) ≡ behind_token t
unfolding behind_token
behind_letter c t letter =
    ap (λ o. elim o [ none ↦ [] | some rest ↦ rest ]) (strchr_later c t letter)

behind_end : behind_token [] ≡ []
unfolding behind_token strchr
behind_end = refl

behind_token-Left : (s : Text) → Left s (behind_token s)
behind_token-Left [] = rw behind_end (record { shorter = omega arith; ascii = λ h. h })
behind_token-Left (c ∷ s) = elim (Bool-cases (c == path_sep)) [
  | inl sep ↦ rw (behind_sep c s sep) (record { shorter = omega arith; ascii = λ h. h })
  | inr letter ↦ rw (behind_letter c s letter) (record {
    shorter = omega (arith, (behind_token-Left s).shorter);
    ascii = λ h. (behind_token-Left s).ascii h.1;
  })
]

-- The position after a token is before its length.
pub behind_token-shorter :
    (c : ℕ) (t : Text)
    → (c == path_sep) ≡ false
    → (length (behind_token (c ∷ t)) < length (c ∷ t))
      × (Ascii (c ∷ t) → Ascii (behind_token (c ∷ t)))
behind_token-shorter c t letter =
    rw (behind_letter c t letter)
      (omega (arith, (behind_token-Left t).shorter), λ h. (behind_token-Left t).ascii h.1)

-- A path that begins with a separator, or ends: what a joined name is followed by.
join-cases : (ns : List Text) → (join ns ≡ []) ⊎ ((t : Text) × (join ns ≡ path_sep ∷ t))
unfolding join
join-cases [] = inl refl
join-cases (n ∷ ns) = inr (n ++ join ns, refl)

until_sep_letter :
    (c : ℕ) (t : Text) → (c == path_sep) ≡ false → until_sep (c ∷ t) ≡ c ∷ until_sep t
unfolding until_sep
until_sep_letter c t letter = rw letter refl

until_sep-join : (ns : List Text) → until_sep (join ns) ≡ []
unfolding until_sep join
until_sep-join [] = refl
until_sep-join (n ∷ ns) = refl

behind_token-join : (ns : List Text) → behind_token (join ns) ≡ join ns
behind_token-join ns = elim (join-cases ns) [
  | inl e ↦ ap behind_token e ∙ (behind_end ∙ sym e)
  | inr (t, e) ↦ ap behind_token e ∙ (behind_sep path_sep t refl ∙ sym e)
]

-- The token at a name that is followed by joined names.
pub token-join :
    (n : Text) (ns : List Text)
    → All (λ c. (c == path_sep) ≡ false) n
    → (until_sep (n ++ join ns) ≡ n) × (behind_token (n ++ join ns) ≡ join ns)
token-join [] ns h = (until_sep-join ns, behind_token-join ns)
token-join (c ∷ n) ns h =
    let (until, behind) = token-join n ns h.1 in
    (
      until_sep_letter c (n ++ join ns) h.0 ∙ ap (λ l. c ∷ l) until,
      behind_letter c (n ++ join ns) h.0 ∙ behind,
    )

pub skip_seps-join :
    (n : Text) (ns : List Text)
    → 0 < length n
    → All (λ c. (c == path_sep) ≡ false) n
    → skip_seps (join (n ∷ ns)) ≡ n ++ join ns
unfolding skip_seps join
skip_seps-join [] ns some_byte h = absurd (omega arith)
skip_seps-join (c ∷ n) ns some_byte h = rw h.0 refl

pub join-Ascii : (ns : List Text) → All IsName ns → Ascii (join ns)
unfolding join
join-Ascii [] h = tt
join-Ascii (n ∷ ns) h =
    (omega arith, All-append (λ c. c < 128) n (join ns) h.0.ascii (join-Ascii ns h.1))

pub length-join : (ns : List Text) → length ns ≤ length (join ns)
unfolding join
length-join [] = omega arith
length-join (n ∷ ns) = omega (arith, length-join ns, length-append n (join ns))
