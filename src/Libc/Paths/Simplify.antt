-- ===== src/Libc/Paths/Simplify.antt =====
-- path_simplify gives a normal form of a path.
use rhombus.Prelude.{
  suc, ◌≡◌, ◌⊎◌, inl, inr, refl, ap, ◌∙◌, none, some, List, [], ◌∷◌, ◌++◌, arith, All, length,
}
use rhombus.Libc.Text.{Text}
use rhombus.Libc.Paths.{
  path_cons, Stacked, out_of_fuel, null, stacked, stack_names, turn_around, join, joined,
  simplified,
}
use rhombus.Libc.Paths.Names.{Ascii, IsName, length-join}
use rhombus.Libc.Paths.Stack.{at, stack_names-IsName, stack_names-join}

append_nil : (xs : List Text) → xs ++ [] ≡ xs
append_nil [] = refl
append_nil (x ∷ xs) = ap (λ l. x ∷ l) (append_nil xs)

turn_around_twice :
    (xs ys zs : List Text) → turn_around (turn_around xs ys) zs ≡ turn_around ys (xs ++ zs)
unfolding turn_around
turn_around_twice [] ys zs = refl
turn_around_twice (x ∷ xs) ys zs = turn_around_twice xs (x ∷ ys) zs

turn_around_back : (xs : List Text) → turn_around (turn_around xs []) [] ≡ xs
unfolding turn_around
turn_around_back xs = turn_around_twice xs [] [] ∙ append_nil xs

turn_around-All :
    (xs ys : List Text) → All IsName xs → All IsName ys → All IsName (turn_around xs ys)
unfolding turn_around
turn_around-All [] ys h k = k
turn_around-All (x ∷ xs) ys h k = turn_around-All xs (x ∷ ys) h.1 (h.0, k)

simplified_step :
    (prefix path : Text) (o : Stacked)
    → stack_names (suc (length path)) (at path path) [] ≡ o
    → simplified prefix path ≡ elim o [
      | out_of_fuel ↦ none
      | null ↦ some none
      | stacked stack ↦ some (some (prefix ++ joined (turn_around stack [])))
    ]
unfolding simplified path_cons
simplified_step prefix path o e =
    ap
      (λ o. elim o [
        | out_of_fuel ↦ none
        | null ↦ some none
        | stacked stack ↦ some (some (prefix ++ joined (turn_around stack [])))
      ])
      e

-- A simplified path is null, or names joined behind the prefix.
pub simplified-names :
    (prefix path : Text)
    → Ascii path
    → (simplified prefix path ≡ some none)
      ⊎ ((ns : List Text) × All IsName ns
          × (simplified prefix path ≡ some (some (prefix ++ joined ns))))
simplified-names prefix path a =
    elim (stack_names-IsName (suc (length path)) path path [] (omega arith) a tt) [
      | inl e ↦ inl (simplified_step prefix path null e)
      | inr (stack, e, h) ↦ inr (
        turn_around stack [],
        turn_around-All stack [] h tt,
        simplified_step prefix path (stacked stack) e,
      )
    ]

root_only : stack_names (suc (length (joined []))) (at (joined []) (joined [])) [] ≡ stacked []
unfolding joined stack_names
root_only = refl

-- Names that are joined are simplified already.
pub simplified-joined :
    (prefix : Text) (ns : List Text)
    → All IsName ns
    → simplified prefix (joined ns) ≡ some (some (prefix ++ joined ns))
unfolding turn_around joined join
simplified-joined prefix [] h = simplified_step prefix (joined []) (stacked []) root_only
simplified-joined prefix (n ∷ ns) h =
    simplified_step prefix (joined (n ∷ ns)) (stacked (turn_around (n ∷ ns) [])) (
      stack_names-join (suc (length (join (n ∷ ns)))) _ (n ∷ ns) []
        (omega (arith, length-join (n ∷ ns))) h)
    ∙ ap (λ l. some (some (prefix ++ joined l))) (turn_around_back (n ∷ ns))
