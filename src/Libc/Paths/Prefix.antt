-- ===== src/Libc/Paths/Prefix.antt =====
-- The resource that a path of libc/path/path_simplify.c may begin with.
use mathlib.Core.Path.{subst}
use rhombus.Prelude.{
  ℕ, zero, suc, ◌<◌, ◌≡◌, ◌⊎◌, inl, inr, refl, ap, sym, ◌∙◌, Bool, true, false, not, some, List, [],
  ◌∷◌, ◌++◌, ◌==◌, arith, Bool-cases, ==_iff, All, All-append, length, take, drop,
}
use rhombus.Libc.Text.{Text, is_accepted}
use rhombus.Libc.Text.Span.{struntil}
use rhombus.Libc.Text.Span.Mask.{span_len}
use rhombus.Libc.Text.Token.Parse.{struntil-span_len, All-drop}
use rhombus.Libc.Paths.{path_sep, join, joined}
use rhombus.Libc.Paths.Names.{Ascii, IsName, join-Ascii}

-- What stands before the names: nothing, or the number of a resource behind an `@`.
pub data IsPrefix : Text → Type 0 where
  nothing : IsPrefix []
  resource : (t : Text) → All (λ c. (c == path_sep) ≡ false) t → Ascii t → IsPrefix (b'@' ∷ t)

-- A path that is not put behind PWD.
pub data IsAbsolute : Text → Type 0 where
  at_root : (t : Text) → IsAbsolute (path_sep ∷ t)
  at_resource : (t : Text) → IsAbsolute (b'@' ∷ t)

abbrev before_sep : ℕ → Bool
before_sep c = not (is_accepted c (path_sep ∷ []))

before_sep_lem : (c : ℕ) → before_sep c ≡ not (c == path_sep)
unfolding is_accepted
before_sep_lem c = ground arith

take_span : (s : Text) → All (λ c. (c == path_sep) ≡ false) (take (span_len before_sep s) s)
unfolding span_len
take_span [] = tt
take_span (c ∷ s) = elim (Bool-cases (c == path_sep)) [
  | inl sep ↦ let out : before_sep c ≡ false = before_sep_lem c ∙ rw sep refl in rw out tt
  | inr letter ↦
      let in_span : before_sep c ≡ true = before_sep_lem c ∙ rw letter refl in
      rw in_span (letter, take_span s)
]

span-prefix :
    (p t : Text)
    → All (λ c. (c == path_sep) ≡ false) p
    → span_len before_sep (p ++ (path_sep ∷ t)) ≡ length p
unfolding span_len
span-prefix [] t h = let out : before_sep path_sep ≡ false = before_sep_lem path_sep in rw out refl
span-prefix (c ∷ p) t h =
    let in_span : before_sep c ≡ true = before_sep_lem c ∙ rw h.0 refl in
    rw in_span (ap suc (span-prefix p t h.1))

take_prefix : (p q : Text) → take (length p) (p ++ q) ≡ p
take_prefix [] q = refl
take_prefix (c ∷ p) q = ap (λ l. c ∷ l) (take_prefix p q)

drop_prefix : (p q : Text) → drop (length p) (p ++ q) ≡ q
drop_prefix [] q = refl
drop_prefix (c ∷ p) q = drop_prefix p q

All-take : (n : ℕ) (s : Text) → Ascii s → Ascii (take n s)
All-take zero s h = tt
All-take (suc n) [] h = tt
All-take (suc n) (c ∷ s) h = (h.0, All-take n s h.1)

pub joined-starts : (ns : List Text) → (t : Text) × (joined ns ≡ path_sep ∷ t)
unfolding joined join
joined-starts [] = ([], refl)
joined-starts (n ∷ ns) = (n ++ join ns, refl)

joined-Ascii : (ns : List Text) → All IsName ns → Ascii (joined ns)
unfolding joined
joined-Ascii [] h = omega arith
joined-Ascii (n ∷ ns) h = join-Ascii (n ∷ ns) h

-- The resource in front of a path, and the path behind it.
pub struntil_resource :
    (t : Text)
    → Ascii t
    → (p : Text) × (rest : Text) × IsPrefix (b'@' ∷ p)
      × Ascii rest
      × (struntil (b'@' ∷ t) (path_sep ∷ []) ≡ some (b'@' ∷ p, rest))
unfolding span_len is_accepted
struntil_resource t a =
    let n = span_len before_sep t in
    (
      take n t,
      drop n t,
      resource (take n t) (take_span t) (All-take n t a),
      All-drop n t a,
      struntil-span_len (b'@' ∷ t) (path_sep ∷ []) (omega arith, a) (omega arith),
    )

pub struntil-joined :
    (p : Text) (ns : List Text)
    → All (λ c. (c == path_sep) ≡ false) p
    → Ascii p
    → All IsName ns
    → struntil (p ++ joined ns) (path_sep ∷ []) ≡ some (p, joined ns)
struntil-joined p ns letters a h =
    let s = p ++ joined ns in
    let (t, e) = joined-starts ns in
    let count : span_len before_sep s ≡ length p =
      ap (λ q. span_len before_sep (p ++ q)) e ∙ span-prefix p t letters in
    struntil-span_len s (path_sep ∷ [])
      (All-append (λ c. c < 128) p (joined ns) a (joined-Ascii ns h)) (omega arith)
    ∙ (ap (λ n. some (take n s, drop n s)) count
        ∙ (ap (λ u. some (u, drop (length p) s)) (take_prefix p (joined ns))
            ∙ ap (λ u. some (p, u)) (drop_prefix p (joined ns))))

pub IsAbsolute-cases :
    (c : ℕ) (t : Text) → IsAbsolute (c ∷ t) ⊎ (((c == path_sep) ≡ false) × ((c == b'@') ≡ false))
IsAbsolute-cases c t = elim (Bool-cases (c == path_sep)) [
  | inl sep ↦
      let e : path_sep ≡ c = sym ((==_iff c path_sep).0 sep) in
      inl (subst (λ c. IsAbsolute (c ∷ t)) e (at_root t))
  | inr other ↦ elim (Bool-cases (c == b'@')) [
    | inl resource_sign ↦
        let e : b'@' ≡ c = sym ((==_iff c b'@').0 resource_sign) in
        inl (subst (λ c. IsAbsolute (c ∷ t)) e (at_resource t))
    | inr letter ↦ inr (other, letter)
  ]
]

pub IsAbsolute-append : (pwd s : Text) → IsAbsolute pwd → IsAbsolute (pwd ++ s)
IsAbsolute-append pwd s (at_root t) = at_root (t ++ s)
IsAbsolute-append pwd s (at_resource t) = at_resource (t ++ s)
