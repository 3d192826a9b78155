-- ===== src/Libc/Text/Span/Mask.antt =====
-- The set of bits of strspn.c and strcspn.c is a set of bytes.
use rhombus.Prelude.{
  replicate, lt→ltb, inl, inr, ap, ℕ, zero, suc, ◌+◌, ◌*◌, ◌/◌, ◌%◌, ◌<◌, ◌≡◌, refl, ◌∙◌, Bool,
  true, false, not, none, some, [], ◌∷◌, ◌==◌, arith, if◌then◌else◌, get_or, set, length,
  get_or-set, Bool-cases, All, length-set,
}
use rhombus.Libc.Text.{Text, is_accepted}
use rhombus.Libc.Text.Span.{
  bit, set_bit, Mask, cleared_mask, mark, marked, mark_all, tally, count_while, strspn, strcspn,
}

bit-set_bit : (m k j : ℕ) → bit (set_bit m k) j ≡ (if j == k then true else bit m j)
unfolding bit set_bit
bit-set_bit m zero zero = ground arith
bit-set_bit m zero (suc j) =
    let half : (if m % 2 == 1 then m else m + 1) / 2 ≡ m / 2 = ground arith in
    ground (arith, ap (λ n. bit n j) half)
bit-set_bit m (suc k) zero = ground arith
bit-set_bit m (suc k) (suc j) =
    let half : (m % 2 + 2 * set_bit (m / 2) k) / 2 ≡ set_bit (m / 2) k = omega arith in
    ground (arith, ap (λ n. bit n j) half, bit-set_bit (m / 2) k j)

-- The byte is in the set.
abbrev has : Mask → ℕ → Bool
has mask x = bit (get_or mask (x / 16) 0) (x % 16)

-- The set with one byte more.
abbrev with_byte : Mask → ℕ → Mask
with_byte mask c = set mask (c / 16) (set_bit (get_or mask (c / 16) 0) (c % 16))

has-with_byte :
    (mask : Mask) (c x : ℕ)
    → length mask ≡ 16
    → c < 128
    → has (with_byte mask c) x ≡ (if x == c then true else has mask x)
has-with_byte mask c x len h =
    let word : get_or (with_byte mask c) (x / 16) 0 ≡ (
        if x / 16 == c / 16
        then set_bit (get_or mask (c / 16) 0) (c % 16)
        else get_or mask (x / 16) 0) =
      get_or-set mask (c / 16) (x / 16) _ 0 (omega arith) in
    elim (Bool-cases (x / 16 == c / 16)) [
      | inl same ↦
          let e : x / 16 ≡ c / 16 = ground arith in
          ground (
            arith,
            ap (λ w. bit w (x % 16)) word,
            ap (λ i. bit (get_or mask i 0) (x % 16)) e,
            bit-set_bit (get_or mask (c / 16) 0) (c % 16) (x % 16),
          )
      | inr other ↦ ground (arith, ap (λ w. bit w (x % 16)) word)
    ]

bit-zero : (k : ℕ) → bit 0 k ≡ false
unfolding bit
bit-zero zero = refl
bit-zero (suc k) = bit-zero k

get_or-replicate : (n i : ℕ) → get_or {A = ℕ} (replicate n 0) i 0 ≡ 0
get_or-replicate zero i = refl
get_or-replicate (suc n) zero = refl
get_or-replicate (suc n) (suc i) = get_or-replicate n i

has-cleared_mask : (x : ℕ) → has cleared_mask x ≡ false
unfolding cleared_mask
has-cleared_mask x = ap (λ w. bit w (x % 16)) (get_or-replicate 16 (x / 16)) ∙ bit-zero (x % 16)

length-cleared_mask : length cleared_mask ≡ 16
unfolding cleared_mask
length-cleared_mask = refl

mark-with_byte : (mask : Mask) (c : ℕ) → c < 128 → mark mask c ≡ some (with_byte mask c)
unfolding mark
mark-with_byte mask c h = rw (lt→ltb c 128 h) refl

-- `mask` with the bytes of `cs`.
record Union (mask : Mask) (cs : Text) (mask' : Mask) : Type 0 where
  wide : length mask' ≡ 16
  holds : (x : ℕ) → has mask' x ≡ (if is_accepted x cs then true else has mask x)

mark_all_step :
    (mask : Mask) (c : ℕ) (cs : Text) (mask' : Mask)
    → mark mask c ≡ some mask'
    → mark_all mask (c ∷ cs) ≡ mark_all mask' cs
unfolding mark_all
mark_all_step mask c cs mask' e = ap (λ o. elim o [ none ↦ none | some m ↦ mark_all m cs ]) e

mark_all-Union :
    (cs : Text) (mask : Mask)
    → length mask ≡ 16
    → All (λ c. c < 128) cs
    → (mask' : Mask) × (mark_all mask cs ≡ some mask') × Union mask cs mask'
unfolding mark_all is_accepted
mark_all-Union [] mask len h = (mask, refl, record { wide = len; holds = λ x. refl })
mark_all-Union (c ∷ cs) mask len h =
    let len' : length (with_byte mask c) ≡ 16 = length-set mask (c / 16) _ ∙ len in
    let (mask', e, u) = mark_all-Union cs (with_byte mask c) len' h.1 in
    (
      mask',
      mark_all_step mask c cs (with_byte mask c) (mark-with_byte mask c h.0) ∙ e,
      record {
        wide = u.wide;
        holds = λ x. ground (arith, u.holds x, has-with_byte mask c x len h.0);
      },
    )

-- How many bytes the text has before the first that fails the test.
unfoldable pub span_len : (ℕ → Bool) → Text → ℕ
span_len test [] = 0
span_len test (c ∷ s) = if test c then suc (span_len test s) else 0

marked-has : (mask : Mask) (c : ℕ) → c < 128 → marked mask c ≡ some (has mask c)
unfolding marked
marked-has mask c h = rw (lt→ltb c 128 h) refl

count_while_step :
    (want : Bool) (mask : Mask) (c : ℕ) (s : Text) (got : Bool) (n : ℕ)
    → marked mask c ≡ some got
    → count_while want mask s ≡ some n
    → count_while want mask (c ∷ s) ≡ some (if (if want then got else not got) then suc n else 0)
unfolding count_while tally
count_while_step want mask c s got n e r =
    ap (λ o. tally want o (count_while want mask s)) e ∙ ap (λ o. tally want (some got) o) r

count_while_end : (want : Bool) (mask : Mask) → count_while want mask [] ≡ some 0
unfolding count_while
count_while_end want mask = refl

count_while-span_len :
    (want : Bool) (mask : Mask) (test : ℕ → Bool) (s : Text)
    → ((x : ℕ) → (if want then has mask x else not (has mask x)) ≡ test x)
    → All (λ c. c < 128) s
    → count_while want mask s ≡ some (span_len test s)
unfolding span_len
count_while-span_len want mask test [] agree h = count_while_end want mask
count_while-span_len want mask test (c ∷ s) agree h =
    count_while_step want mask c s (has mask c) (span_len test s) (marked-has mask c h.0)
      (count_while-span_len want mask test s agree h.1)
    ∙ ap (λ b. some (if b then suc (span_len test s) else 0)) (agree c)

-- strspn and strcspn, of texts of bytes below 128, give how many bytes the text has before the first
-- that is not one of the second text's, and before the first that is one.
pub strspn-span_len :
    (s chars : Text)
    → All (λ c. c < 128) s
    → All (λ c. c < 128) chars
    → (strspn s chars ≡ some (span_len (λ c. is_accepted c chars) s))
      × (strcspn s chars ≡ some (span_len (λ c. not (is_accepted c chars)) s))
unfolding strspn strcspn
strspn-span_len s chars h k =
    let (mask, e, u) = mark_all-Union chars cleared_mask length-cleared_mask k in
    (
      ap (λ o. elim o [ none ↦ none | some m ↦ count_while true m s ]) e
          ∙ count_while-span_len true mask _ s (λ x. ground (arith, u.holds x, has-cleared_mask x))
              h,
      ap (λ o. elim o [ none ↦ none | some m ↦ count_while false m s ]) e
          ∙ count_while-span_len false mask _ s (λ x. ground (arith, u.holds x, has-cleared_mask x))
              h,
    )
