-- ===== src/Libc/Text/Token/Parse.antt =====
-- strparse returns, and its tokens fit into the array that it allocates for them.
use mathlib.Core.Path.{subst}
use rhombus.Prelude.{
  ℕ, zero, suc, ◌≤◌, ◌<◌, ◌≡◌, ◌⊎◌, inl, inr, refl, ap, sym, ◌∙◌, Bool, true, not, none, some, List,
  [], ◌∷◌, arith, Bool-cases, All, length, take, drop, length-drop, if◌then◌else◌,
}
use rhombus.Libc.Text.{Text, strlen, strchr, is_accepted}
use rhombus.Libc.Text.Span.{strspn, struntil}
use rhombus.Libc.Text.Span.Mask.{span_len, strspn-span_len}
use rhombus.Libc.Text.Token.{is_some, count_args, parse_loop, strparse}

strlen-length : (s : Text) → strlen s ≡ length s
unfolding strlen
strlen-length [] = refl
strlen-length (c ∷ s) = ap suc (strlen-length s)

strchr-is_accepted : (delim : Text) (c : ℕ) → is_some (strchr delim c) ≡ is_accepted c delim
unfolding is_some strchr is_accepted
strchr-is_accepted [] c = refl
strchr-is_accepted (d ∷ delim) c = ground (arith, strchr-is_accepted delim c)

pub All-drop : (n : ℕ) (s : Text) → All (λ c. c < 128) s → All (λ c. c < 128) (drop n s)
All-drop zero s h = h
All-drop (suc n) [] h = tt
All-drop (suc n) (c ∷ s) h = All-drop n s h.1

count_args_step :
    (delim : Text) (c : ℕ) (s : Text)
    → count_args delim (c ∷ s)
      ≡ (if is_accepted c delim then suc (count_args delim s) else count_args delim s)
unfolding count_args
count_args_step delim c s =
    ap (λ b. if b then suc (count_args delim s) else count_args delim s)
      (strchr-is_accepted delim c)

count_args-drop :
    (delim : Text) (n : ℕ) (s : Text) → count_args delim (drop n s) ≤ count_args delim s
count_args-drop delim zero s = omega arith
count_args-drop delim (suc n) [] = omega arith
count_args-drop delim (suc n) (c ∷ s) =
    ground (arith, count_args_step delim c s, count_args-drop delim n s)

-- Behind the longest prefix that fails a test the text ends, or its first byte passes.
span_len-stop :
    (test : ℕ → Bool) (s : Text)
    → (drop (span_len (λ c. not (test c)) s) s ≡ [])
      ⊎ ((d : ℕ) × (t : Text) × (drop (span_len (λ c. not (test c)) s) s ≡ d ∷ t) × (test d ≡ true))
unfolding span_len
span_len-stop test [] = inl refl
span_len-stop test (c ∷ s) = elim (Bool-cases (test c)) [
  | inl hit ↦ inr (c, s, rw hit refl, hit)
  | inr miss ↦ rw miss (span_len-stop test s)
]

-- What a round leaves of the text `s`, whose prefix without a delimiter ends at `rest`.
round :
    (delim s rest : Text) (c : ℕ) (n : ℕ)
    → rest ≡ drop n (c ∷ s)
    → (rest ≡ []) ⊎ ((d : ℕ) × (t : Text) × (rest ≡ d ∷ t) × (is_accepted d delim ≡ true))
    → (left : Text) × (drop (span_len (λ c. is_accepted c delim) rest) rest ≡ left)
      × (length left < suc (length s))
      × ((left ≡ []) ⊎ (suc (count_args delim left) ≤ count_args delim (c ∷ s)))
unfolding span_len
round delim s rest c n e (inl empty) = ([], rw empty refl, omega arith, inl refl)
round delim s rest c n e (inr (d, t, at, hit)) = (
  drop (span_len (λ c. is_accepted c delim) t) t,
  rw (at, hit) refl,
  omega (
    arith,
    length-drop (span_len (λ c. is_accepted c delim) t) t,
    length-drop n (c ∷ s),
    ap length (sym e ∙ at),
  ),
  inr (
      ground (
        arith,
        count_args-drop delim (span_len (λ c. is_accepted c delim) t) t,
        count_args-drop delim n (c ∷ s),
        count_args_step delim d t,
        ap (count_args delim) (sym e ∙ at),
      )),
)

pub struntil-span_len :
    (s delim : Text)
    → All (λ c. c < 128) s
    → All (λ c. c < 128) delim
    → struntil s delim
      ≡ some (
        take (span_len (λ c. not (is_accepted c delim)) s) s,
        drop (span_len (λ c. not (is_accepted c delim)) s) s,
      )
unfolding struntil
struntil-span_len s delim h k =
    ap (λ o. elim o [ none ↦ none | some n ↦ some (take n s, drop n s) ])
      (strspn-span_len s delim h k).1

parse_loop_step :
    (fuel : ℕ) (delim s t rest : Text) (c n : ℕ) (ts : List Text)
    → struntil (c ∷ s) delim ≡ some (t, rest)
    → strspn rest delim ≡ some n
    → parse_loop fuel delim (drop n rest) ≡ some ts
    → parse_loop (suc fuel) delim (c ∷ s) ≡ some (t ∷ ts)
unfolding parse_loop
parse_loop_step fuel delim s t rest c n ts e f g =
    ap
      (λ o. elim o [
        | none ↦ none
        | some (t, rest) ↦ elim (strspn rest delim) [
          | none ↦ none
          | some n ↦ elim (parse_loop fuel delim (drop n rest)) [
            | none ↦ none
            | some ts ↦ some (t ∷ ts)
          ]
        ]
      ])
      e
    ∙ (ap
          (λ o. elim o [
            | none ↦ none
            | some n ↦ elim (parse_loop fuel delim (drop n rest)) [
              | none ↦ none
              | some ts ↦ some (t ∷ ts)
            ]
          ])
          f
        ∙ ap (λ o. elim o [ none ↦ none | some ts ↦ some (t ∷ ts) ]) g)

parse_loop_end : (fuel : ℕ) (delim : Text) → parse_loop (suc fuel) delim [] ≡ some []
unfolding parse_loop
parse_loop_end fuel delim = refl

count_args_positive : (delim s : Text) → 1 ≤ count_args delim s
unfolding count_args
count_args_positive delim [] = omega arith
count_args_positive delim (c ∷ s) = ground (arith, count_args_positive delim s)

parse_loop-fits :
    (fuel : ℕ) (delim s : Text)
    → length s < fuel
    → All (λ c. c < 128) s
    → All (λ c. c < 128) delim
    → (ts : List Text) × (parse_loop fuel delim s ≡ some ts)
      × (length ts ≤ count_args delim s)
      × (s ≡ [] → length ts ≡ 0)
parse_loop-fits zero delim s f h k = absurd (omega arith)
parse_loop-fits (suc fuel) delim [] f h k = ([], parse_loop_end fuel delim, omega arith, λ e. refl)
parse_loop-fits (suc fuel) delim (c ∷ s) f h k =
    let rest = drop (span_len (λ c. not (is_accepted c delim)) (c ∷ s)) (c ∷ s) in
    let hr : All (λ c. c < 128) rest = All-drop _ (c ∷ s) h in
    let (left, e, shorter, fewer) = round delim s rest c _ refl (span_len-stop _ (c ∷ s)) in
    let hl : All (λ c. c < 128) left =
      subst (All (λ c. c < 128)) e (All-drop (span_len (λ c. is_accepted c delim) rest) rest hr) in
    let (ts, g, fits, none_left) = parse_loop-fits fuel delim left (omega arith) hl k in
    (
      _ ∷ ts,
      parse_loop_step fuel delim s _ rest c _ ts (struntil-span_len (c ∷ s) delim h k)
          (strspn-span_len rest delim hr k).0 (ap (parse_loop fuel delim) e ∙ g),
      elim fewer [
        | inl empty ↦ omega (arith, none_left empty, count_args_positive delim (c ∷ s))
        | inr less ↦ omega arith
      ],
      λ e. cc e,
    )

-- strparse of a text of bytes below 128 at delimiters below 128 returns, and what it returns is at
-- most as many tokens as the array was made for, which has room for one pointer more: the null.
pub strparse-fits :
    (s delim : Text)
    → All (λ c. c < 128) s
    → All (λ c. c < 128) delim
    → (ts : List Text) × (strparse s delim ≡ some ts) × (length ts ≤ count_args delim s)
unfolding strparse
strparse-fits s delim h k =
    let (ts, e, fits, _) =
      parse_loop-fits (suc (strlen s)) delim s (omega (arith, strlen-length s)) h k in
    (ts, e, fits)
