-- ===== src/Libc/Paths/Stack.antt =====
-- The loop of path_simplify over the names of a path.
use rhombus.Prelude.{
  ℕ, zero, suc, ◌<◌, ◌≡◌, ◌⊎◌, inl, inr, refl, ap, ◌∙◌, false, Option, none, some, List, [], ◌∷◌,
  ◌++◌, ◌==◌, arith, Bool-cases, All, length,
}
use rhombus.Libc.Text.{Text}
use rhombus.Libc.Paths.{
  path_sep, PathStruct, skip_seps, until_sep, behind_token, path_next, is_text, stack_name,
  dropped_top, null, stacked, stack_names, turn_around, join,
}
use rhombus.Libc.Paths.Names.{
  Ascii, IsName, skip_seps-cases, until_sep-letters, until_sep-Ascii, until_sep-some,
  behind_token-shorter, token-join, skip_seps-join,
}

abbrev pub at : Text → Text → PathStruct
at whole s = record { str = whole; pos = some s }

pub path_next_end :
    (whole s : Text) → skip_seps s ≡ [] → path_next (at whole s) ≡ (none, at whole [])
unfolding path_next
path_next_end whole s e =
    ap
      (λ l. elim l [
        | [] ↦ (none, at whole [])
        | c ∷ t ↦ (some (until_sep (c ∷ t)), at whole (behind_token (c ∷ t)))
      ])
      e

pub path_next_name :
    (whole s : Text) (c : ℕ) (t : Text)
    → skip_seps s ≡ c ∷ t
    → path_next (at whole s) ≡ (some (until_sep (c ∷ t)), at whole (behind_token (c ∷ t)))
unfolding path_next
path_next_name whole s c t e =
    ap
      (λ l. elim l [
        | [] ↦ (none, at whole [])
        | c ∷ t ↦ (some (until_sep (c ∷ t)), at whole (behind_token (c ∷ t)))
      ])
      e

stack_names_end :
    (fuel : ℕ) (p p' : PathStruct) (stack : List Text)
    → path_next p ≡ (none, p')
    → stack_names (suc fuel) p stack ≡ stacked stack
unfolding stack_names
stack_names_end fuel p p' stack e =
    ap
      (λ q. elim q.0 [
        | none ↦ stacked stack
        | some n ↦ elim (stack_name n stack) [
          | none ↦ null
          | some stack' ↦ stack_names fuel q.1 stack'
        ]
      ])
      e

stack_names_next :
    (fuel : ℕ) (p p' : PathStruct) (n : Text) (stack : List Text) (o : Option (List Text))
    → path_next p ≡ (some n, p')
    → stack_name n stack ≡ o
    → stack_names (suc fuel) p stack
      ≡ elim o [ none ↦ null | some stack' ↦ stack_names fuel p' stack' ]
unfolding stack_names
stack_names_next fuel p p' n stack o e f =
    ap
      (λ q. elim q.0 [
        | none ↦ stacked stack
        | some n ↦ elim (stack_name n stack) [
          | none ↦ null
          | some stack' ↦ stack_names fuel q.1 stack'
        ]
      ])
      e
    ∙ ap (λ o. elim o [ none ↦ null | some stack' ↦ stack_names fuel p' stack' ]) f

dropped_top-IsName :
    (stack : List Text)
    → All IsName stack
    → (dropped_top stack ≡ none)
      ⊎ ((stack' : List Text) × (dropped_top stack ≡ some stack') × All IsName stack')
dropped_top-IsName [] h = inl refl
dropped_top-IsName (top ∷ rest) h = inr (rest, refl, h.1)

-- A name makes a stack of names, or null.
stack_name-IsName :
    (n : Text) (stack : List Text)
    → 0 < length n
    → All (λ c. (c == path_sep) ≡ false) n
    → Ascii n
    → All IsName stack
    → (stack_name n stack ≡ none)
      ⊎ ((stack' : List Text) × (stack_name n stack ≡ some stack') × All IsName stack')
unfolding stack_name
stack_name-IsName n stack some_byte letters ascii h = elim (Bool-cases (is_text n (b'.' ∷ []))) [
  | inl dot ↦ inr (stack, rw dot refl, h)
  | inr other ↦ elim (Bool-cases (is_text n (b'.' ∷ b'.' ∷ []))) [
    | inl dots ↦ rw (other, dots) (dropped_top-IsName stack h)
    | inr name ↦ inr (
      n ∷ stack,
      rw (other, name) refl,
      (
        record {
          some_byte = some_byte;
          letters = letters;
          ascii = ascii;
          other_than_dot = other;
          other_than_dots = name;
        },
        h,
      ),
    )
  ]
]

stack_name_kept : (n : Text) (stack : List Text) → IsName n → stack_name n stack ≡ some (n ∷ stack)
unfolding stack_name
stack_name_kept n stack h = rw (h.other_than_dot, h.other_than_dots) refl

-- With the length of the path as fuel the loop ends: in null, or with a stack of names.
pub stack_names-IsName :
    (fuel : ℕ) (whole s : Text) (stack : List Text)
    → length s < fuel
    → Ascii s
    → All IsName stack
    → (stack_names fuel (at whole s) stack ≡ null)
      ⊎ ((names : List Text) × (stack_names fuel (at whole s) stack ≡ stacked names)
          × All IsName names)
stack_names-IsName zero whole s stack f a h = absurd (omega arith)
stack_names-IsName (suc fuel) whole s stack f a h = elim (skip_seps-cases s) [
  | inl e ↦
      inr
        (stack, stack_names_end fuel (at whole s) (at whole []) stack (path_next_end whole s e), h)
  | inr (c, t, e, letter, left) ↦
      let name = until_sep (c ∷ t) in
      let next = path_next_name whole s c t e in
      let (shorter, ascii) = behind_token-shorter c t letter in
      elim (stack_name-IsName name stack (until_sep-some c t letter) (until_sep-letters (c ∷ t))
        (until_sep-Ascii (c ∷ t) (left.ascii a)) h) [
          | inl dropped ↦ inl (stack_names_next fuel (at whole s) _ name stack none next dropped)
          | inr (stack', pushed, h') ↦
              let step =
                stack_names_next fuel (at whole s) _ name stack (some stack') next pushed in
              elim (stack_names-IsName fuel whole (behind_token (c ∷ t)) stack'
                (omega (arith, left.shorter)) (ascii (left.ascii a)) h') [
                  | inl r ↦ inl (step ∙ r)
                  | inr (names, r, k) ↦ inr (names, step ∙ r, k)
                ]
        ]
]

join_end : skip_seps (join []) ≡ []
unfolding skip_seps join
join_end = refl

path_next-join :
    (whole n : Text) (ns : List Text)
    → IsName n
    → path_next (at whole (join (n ∷ ns))) ≡ (some n, at whole (join ns))
path_next-join whole [] ns h = absurd (omega (arith, h.some_byte))
path_next-join whole (c ∷ n) ns h =
    let (until, behind) = token-join (c ∷ n) ns h.letters in
    path_next_name whole (join ((c ∷ n) ∷ ns)) c (n ++ join ns)
      (skip_seps-join (c ∷ n) ns h.some_byte h.letters)
    ∙ (ap (λ u. (some u, at whole (behind_token (c ∷ (n ++ join ns))))) until
        ∙ ap (λ b. (some (c ∷ n), at whole b)) behind)

-- On names that are joined the loop stacks each.
pub stack_names-join :
    (fuel : ℕ) (whole : Text) (ns stack : List Text)
    → length ns < fuel
    → All IsName ns
    → stack_names fuel (at whole (join ns)) stack ≡ stacked (turn_around ns stack)
unfolding turn_around
stack_names-join zero whole ns stack f h = absurd (omega arith)
stack_names-join (suc fuel) whole [] stack f h =
    stack_names_end fuel (at whole (join [])) (at whole []) stack
      (path_next_end whole (join []) join_end)
stack_names-join (suc fuel) whole (n ∷ ns) stack f h =
    stack_names_next fuel (at whole (join (n ∷ ns))) (at whole (join ns)) n stack (some (n ∷ stack))
      (path_next-join whole n ns h.0) (stack_name_kept n stack h.0)
    ∙ stack_names-join fuel whole ns (n ∷ stack) (omega arith) h.1
