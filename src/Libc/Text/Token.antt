-- ===== src/Libc/Text/Token.antt =====
-- Texts taken apart at delimiters: libc/string/strtok_r.c, strtok.c and strparse.c.
-- The terminator that strtok_r writes over a delimiter ends the token, so the token and what is
-- left at `*saveptr` are two texts. malloc gives memory to strparse.
pub mod Cut
pub mod Parse
mod Tests
use rhombus.Prelude.{
  ℕ, zero, suc, ◌+◌, Bool, true, false, Option, none, some, List, [], ◌∷◌, ◌==◌, if◌then◌else◌,
  take, drop, length,
}
use rhombus.Libc.Text.{Text, strchr, strlen}
use rhombus.Libc.Text.Span.{struntil, strspn}

-- The loops over `delim`.
pub delimp : ℕ → Text → Bool
delimp c [] = false
delimp c (d ∷ delim) = let rest = delimp c delim in if c == d then true else rest

-- The loop over the leading delimiters.
pub leading : Text → Text → ℕ
unfolding delimp
leading delim [] = 0
leading delim (c ∷ s) = let rest = leading delim s in if delimp c delim then suc rest else 0

pub next_count : Option ℕ → Option ℕ
next_count none = none
next_count (some n) = some (suc n)

-- The loop that looks for a delimiter.
pub seek : Text → Text → Option ℕ
unfolding delimp next_count
seek delim [] = none
seek delim (c ∷ s) = let rest = next_count (seek delim s) in if delimp c delim then some 0 else rest

-- The token and the new `*saveptr`, for `i` leading bytes and a delimiter `j` bytes behind them.
pub cut : Text → ℕ → Option ℕ → Option Text × Option Text
cut s i none = (some s, none)
cut s i (some j) = (some (take (i + j) s), some (drop (suc (i + j)) s))

-- The body of `strtok_r` for a text that begins at `str`.
pub token : Text → Text → Option Text × Option Text
unfolding leading seek cut
token delim s = let i = leading delim s in cut s i (seek delim (drop i s))

-- `strtok_r`: null for `str` goes on at `*saveptr`.
pub strtok_r : Option Text → Text → Option Text → Option Text × Option Text
unfolding token
strtok_r (some s) delim save = token delim s
strtok_r none delim none = (none, none)
strtok_r none delim (some s) = token delim s

-- `strtok`, on its static `saveptr`.
pub strtok : Option Text → Text → Option Text → Option Text × Option Text
unfolding strtok_r
strtok s delim save =
    let (t, save') = strtok_r s delim save in (t, elim t [ none ↦ none | some u ↦ save' ])

pub is_some : Option Text → Bool
is_some none = false
is_some (some t) = true

-- `argc`: one more than the delimiters of the text.
pub count_args : Text → Text → ℕ
unfolding is_some strchr
count_args delim [] = 1
count_args delim (c ∷ s) =
    let rest = count_args delim s in if is_some (strchr delim c) then suc rest else rest

-- The loop of `strparse`: the tokens that it puts into `argv`.
pub parse_loop : ℕ → Text → Text → Option (List Text)
unfolding struntil strspn
parse_loop zero delim s = none
parse_loop (suc fuel) delim [] = some []
parse_loop (suc fuel) delim (c ∷ s) = elim (struntil (c ∷ s) delim) [
  | none ↦ none
  | some (t, rest) ↦ elim (strspn rest delim) [
    | none ↦ none
    | some n ↦ elim (parse_loop fuel delim (drop n rest)) [ none ↦ none | some ts ↦ some (t ∷ ts) ]
  ]
]

-- `strparse`: each round shortens the text, so its length is enough fuel.
pub strparse : Text → Text → Option (List Text)
unfolding parse_loop strlen
strparse s delim = parse_loop (suc (strlen s)) delim s
