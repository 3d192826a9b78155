-- ===== src/Libc/Text/Search.antt =====
-- What strchr, strrchr, strstr and strpbrk of libc/string/ find.
use rhombus.Prelude.{
  ℕ, zero, suc, ◌≤◌, ◌<◌, ◌≢◌, ◌≡◌, ◌⊎◌, inl, inr, refl, ap, sym, ◌∙◌, true, false, none, some, [],
  ◌∷◌, ◌++◌, ◌==◌, arith, Bool, Bool-cases, All, Option, if◌then◌else◌, drop,
}
use rhombus.Libc.Text.{
  Text, byte_at, strlen, strchr, find_back, strrchr, starts, strstr, is_accepted, strpbrk,
}

-- `rest` is where the text `s` has its first byte that passes the test.
pub record First (test : ℕ → Bool) (s : Text) (byte : ℕ) (rest : Text) : Type 0 where
  pub before : Text
  pub whole : s ≡ before ++ (byte ∷ rest)
  pub passes : test byte ≡ true
  pub none_before : All (λ c. test c ≡ false) before

-- A search with a test, which the searches below agree with.
pub search_for : (ℕ → Bool) → Text → Option Text
search_for test [] = none
search_for test (x ∷ s) = let rest = search_for test s in if test x then some (x ∷ s) else rest

pub search_for-First :
    (test : ℕ → Bool) (s : Text)
    → ((search_for test s ≡ none) × All (λ c. test c ≡ false) s)
      ⊎ ((byte : ℕ) × (rest : Text) × (search_for test s ≡ some (byte ∷ rest))
          × First test s byte rest)
unfolding search_for
search_for-First test [] = inl (refl, tt)
search_for-First test (x ∷ s) = elim (Bool-cases (test x)) [
  | inl hit ↦
      inr (x, s, rw hit refl, record { before = []; whole = refl; passes = hit; none_before = tt })
  | inr miss ↦ elim (search_for-First test s) [
    | inl (e, k) ↦ inl (rw (miss, e) refl, (miss, k))
    | inr (byte, rest, e, f) ↦ inr (
      byte,
      rest,
      rw (miss, e) refl,
      record {
        before = x ∷ f.before;
        whole = ap (λ l. x ∷ l) f.whole;
        passes = f.passes;
        none_before = (miss, f.none_before);
      },
    )
  ]
]

strchr-search_for : (s : Text) (c : ℕ) → strchr s c ≡ search_for (λ x. x == c) s
unfolding strchr search_for
strchr-search_for [] c = refl
strchr-search_for (x ∷ s) c = rw (strchr-search_for s c) refl

strpbrk-search_for : (s accept : Text) → strpbrk s accept ≡ search_for (λ x. is_accepted x accept) s
unfolding strpbrk search_for
strpbrk-search_for [] accept = refl
strpbrk-search_for (x ∷ s) accept = rw (strpbrk-search_for s accept) refl

-- strchr gives null if no byte of the text before its terminator is `c`, and where the first such
-- byte stands if there is one.
pub strchr-First :
    (s : Text) (c : ℕ)
    → ((strchr s c ≡ none) × All (λ x. (x == c) ≡ false) s)
      ⊎ ((byte : ℕ) × (rest : Text) × (strchr s c ≡ some (byte ∷ rest))
          × First (λ x. x == c) s byte rest)
strchr-First s c = rw (strchr-search_for s c) (search_for-First (λ x. x == c) s)

-- strpbrk, the same for a byte that stands in `accept`.
pub strpbrk-First :
    (s accept : Text)
    → ((strpbrk s accept ≡ none) × All (λ x. is_accepted x accept ≡ false) s)
      ⊎ ((byte : ℕ) × (rest : Text) × (strpbrk s accept ≡ some (byte ∷ rest))
          × First (λ x. is_accepted x accept) s byte rest)
strpbrk-First s accept =
    rw (strpbrk-search_for s accept) (search_for-First (λ x. is_accepted x accept) s)

-- `i` is the last index up to `n` at which the text, its terminator included, has the byte.
pub record Last (s : Text) (c n i : ℕ) : Type 0 where
  pub within : i ≤ n
  pub right : byte_at s i ≡ c
  pub none_after : (j : ℕ) → i < j → j ≤ n → byte_at s j ≢ c

find_back-Last :
    (s : Text) (c n : ℕ)
    → ((find_back s c n ≡ none) × ((j : ℕ) → j ≤ n → byte_at s j ≢ c))
      ⊎ ((i : ℕ) × (find_back s c n ≡ some i) × Last s c n i)
unfolding find_back
find_back-Last s c zero = elim (Bool-cases (byte_at s 0 == c)) [
  | inl hit ↦ inr (
    0,
    rw hit refl,
    record {
      within = omega arith;
      right = ground arith;
      none_after = λ j a b. absurd (omega arith);
    },
  )
  | inr miss ↦ inl (rw miss refl, λ j a. ground arith)
]
find_back-Last s c (suc n) = elim (Bool-cases (byte_at s (suc n) == c)) [
  | inl hit ↦ inr (
    suc n,
    rw hit refl,
    record {
      within = omega arith;
      right = ground arith;
      none_after = λ j a b. absurd (omega arith);
    },
  )
  | inr miss ↦ elim (find_back-Last s c n) [
    | inl (e, k) ↦ inl (rw (miss, e) refl, λ j a. ground (arith, k j))
    | inr (i, e, last) ↦ inr (
      i,
      rw (miss, e) refl,
      record {
        within = omega (arith, last.within);
        right = last.right;
        none_after = λ j a b. ground (arith, last.none_after j);
      },
    )
  ]
]

-- strrchr gives null if the text has no such byte, and otherwise the last index that has it; the
-- terminator counts as a byte.
pub strrchr-Last :
    (s : Text) (c : ℕ)
    → ((strrchr s c ≡ none) × ((j : ℕ) → j ≤ strlen s → byte_at s j ≢ c))
      ⊎ ((i : ℕ) × (strrchr s c ≡ some i) × Last s c (strlen s) i)
unfolding strrchr
strrchr-Last s c = find_back-Last s c (strlen s)

-- `starts` decides whether a text begins with another.
pub starts-append : (s t : Text) → starts s t ≡ true → (r : Text) × (s ≡ t ++ r)
unfolding starts
starts-append s [] h = (s, refl)
starts-append [] (y ∷ t) h = cc
starts-append (x ∷ s) (y ∷ t) h = elim (Bool-cases (x == y)) [
  | inl same ↦
      let e : x ≡ y = ground arith in
      let (r, whole) = starts-append s t (sym (rw same refl) ∙ h) in (r, cc (e, whole))
  | inr differ ↦ absurd (ground arith)
]

starts_itself : (t r : Text) → starts (t ++ r) t ≡ true
unfolding starts
starts_itself [] r = refl
starts_itself (y ∷ t) r = let e : (y == y) ≡ true = ground arith in rw e (starts_itself t r)

-- The text `s` is `t` and something behind it.
abbrev pub BeginsWith : Text → Text → Type 0
BeginsWith s t = (r : Text) × (s ≡ t ++ r)

starts_not : (s t : Text) → starts s t ≡ false → ¬ BeginsWith s t
starts_not s t h (r, e) =
    let clash : true ≡ false = sym (starts_itself t r) ∙ ap (λ u. starts u t) (sym e) ∙ h in
    absurd (ground arith)

-- `i` is the first index from which on the text is `t` and something behind it.
pub record Occurs (s t : Text) (i : ℕ) : Type 0 where
  pub within : i < strlen s
  pub here : BeginsWith (drop i s) t
  pub first : (j : ℕ) → j < i → ¬ BeginsWith (drop j s) t

later :
    (x : ℕ) (s t : Text) (n : ℕ)
    → ¬ BeginsWith (x ∷ s) t
    → ((j : ℕ) → j < n → ¬ BeginsWith (drop j s) t)
    → (j : ℕ) → j < suc n
    → ¬ BeginsWith (drop j (x ∷ s)) t
later x s t n miss k zero a = miss
later x s t n miss k (suc j) a = k j (omega arith)

-- strstr gives the text from the first index on from which it is `t` and something behind it, and null if
-- there is no such index before the terminator of the text.
pub strstr-Occurs :
    (s t : Text)
    → ((strstr s t ≡ none) × ((j : ℕ) → j < strlen s → ¬ BeginsWith (drop j s) t))
      ⊎ ((i : ℕ) × (strstr s t ≡ some (drop i s)) × Occurs s t i)
unfolding strstr strlen
strstr-Occurs [] t = inl (refl, λ j a. absurd (omega arith))
strstr-Occurs (x ∷ s) t = elim (Bool-cases (starts (x ∷ s) t)) [
  | inl hit ↦ inr (
    0,
    rw hit refl,
    record {
      within = omega arith;
      here = starts-append (x ∷ s) t hit;
      first = λ j a. absurd (omega arith);
    },
  )
  | inr miss ↦
      let not_here = starts_not (x ∷ s) t miss in
      elim (strstr-Occurs s t) [
        | inl (e, k) ↦ inl (rw (miss, e) refl, later x s t (strlen s) not_here k)
        | inr (i, e, o) ↦ inr (
          suc i,
          rw (miss, e) refl,
          record {
            within = omega (arith, o.within);
            here = o.here;
            first = later x s t i not_here o.first;
          },
        )
      ]
]
