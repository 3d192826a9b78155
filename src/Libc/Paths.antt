-- ===== src/Libc/Paths.antt =====
-- Paths of files, libc/path/: path_cons.c, path_next.c, path_peek.c, path_tail.c, path_name.c,
-- path_parent.c and path_simplify.c. malloc gives memory. A path is a text, and the position in it is
-- the rest of it.
pub mod Names
pub mod Stack
pub mod Simplify
pub mod Prefix
pub mod Normal
mod Tests
use rhombus.Prelude.{
  ℕ, zero, suc, ◌+◌, Bool, true, false, Option, none, some, List, [], ◌∷◌, ◌++◌, ◌==◌,
  if◌then◌else◌, take, drop, length,
}
use rhombus.Prelude.Int.{ℤ, pos, negsuc}
use rhombus.Libc.Text.{Text, strcmp, strchr, strrchr, strlen}
use rhombus.Libc.Text.Span.{struntil}

-- PATH_SEP
abbrev pub path_sep : ℕ
path_sep = b'/'

-- `struct path`
pub record PathStruct : Type 0 where
  pub str : Text
  pub pos : Option Text

-- `path_cons`
pub path_cons : Text → PathStruct
path_cons path = record { str = path; pos = some path }

-- The loop over the leading separators.
pub skip_seps : Text → Text
skip_seps [] = []
skip_seps (c ∷ s) = let rest = skip_seps s in if c == path_sep then rest else c ∷ s

-- The copy of the token, with a terminator written at its first separator.
pub until_sep : Text → Text
until_sep [] = []
until_sep (c ∷ s) = let rest = until_sep s in if c == path_sep then [] else c ∷ rest

-- Where `path->pos` goes from a token: its first separator, or the end of the text.
pub behind_token : Text → Text
behind_token s = elim (strchr s path_sep) [ none ↦ [] | some rest ↦ rest ]

-- `path_next`
pub path_next : PathStruct → Option Text × PathStruct
unfolding skip_seps until_sep behind_token
path_next p = elim p.pos [
  | none ↦ (none, p)
  | some s ↦ elim (skip_seps s) [
    | [] ↦ (none, record p { pos = some [] })
    | c ∷ t ↦ (some (until_sep (c ∷ t)), record p { pos = some (behind_token (c ∷ t)) })
  ]
]

-- `path_peek`: it skips the separators, and leaves the position there.
pub path_peek : PathStruct → Option Text × PathStruct
unfolding skip_seps until_sep
path_peek p = elim p.pos [
  | none ↦ (none, p)
  | some s ↦ elim (skip_seps s) [
    | [] ↦ (none, record p { pos = some [] })
    | c ∷ t ↦ (some (until_sep (c ∷ t)), record p { pos = some (c ∷ t) })
  ]
]

-- `path_tail`
pub path_tail : PathStruct → Option Text
path_tail p = p.pos

-- `path_name`
pub path_name : Text → Text
path_name path = elim (strrchr path path_sep) [ none ↦ path | some i ↦ drop (suc i) path ]

-- `path_parent`
pub path_parent : Text → Text
path_parent path = elim (strrchr path path_sep) [ none ↦ [] | some i ↦ take i path ]

-- `!strcmp(name, other)`
pub is_text : Text → Text → Bool
is_text name other = elim (strcmp name other) [ negsuc n ↦ false | pos n ↦ n == 0 ]

-- How the loop of `path_simplify` ends.
pub data Stacked : Type 0 where
  out_of_fuel null : Stacked
  stacked : List Text → Stacked

abbrev pub dropped_top : List Text → Option (List Text)
dropped_top [] = none
dropped_top (top ∷ rest) = some rest

-- What the loop does to its stack with a name; none if it returns null.
pub stack_name : Text → List Text → Option (List Text)
unfolding is_text
stack_name n stack =
    if is_text n (b'.' ∷ [])
    then some stack
    else (if is_text n (b'.' ∷ b'.' ∷ []) then dropped_top stack else some (n ∷ stack))

-- The loop over the names. A name takes a byte of the path at least, so its length is enough fuel.
pub stack_names : ℕ → PathStruct → List Text → Stacked
unfolding path_next stack_name
stack_names zero p stack = out_of_fuel
stack_names (suc fuel) p stack =
    let (name, p') = path_next p in
    elim name [
      | none ↦ stacked stack
      | some n ↦ elim (stack_name n stack) [
        | none ↦ null
        | some stack' ↦ stack_names fuel p' stack'
      ]
    ]

-- The loop that turns the stack around.
pub turn_around : List Text → List Text → List Text
turn_around [] done_names = done_names
turn_around (n ∷ stack) done_names = turn_around stack (n ∷ done_names)

-- The loop that joins the names.
pub join : List Text → Text
join [] = []
join (n ∷ ns) = path_sep ∷ (n ++ join ns)

-- `path2`
pub joined : List Text → Text
unfolding join
joined [] = path_sep ∷ []
joined (n ∷ ns) = join (n ∷ ns)

-- The rest of `path_simplify`, for `path3` and `path1`; null is `some none`.
pub simplified : Text → Text → Option (Option Text)
unfolding stack_names turn_around joined path_cons
simplified prefix path = elim (stack_names (suc (length path)) (path_cons path) []) [
  | out_of_fuel ↦ none
  | null ↦ some none
  | stacked stack ↦ some (some (prefix ++ joined (turn_around stack [])))
]

-- `path_simplify`, with the value of PWD. A path that is not absolute is put behind it.
pub path_simplify : ℕ → Text → Text → Option (Option Text)
unfolding simplified
path_simplify zero pwd path = none
path_simplify (suc fuel) pwd [] = path_simplify fuel pwd (pwd ++ (path_sep ∷ []))
path_simplify (suc fuel) pwd (c ∷ path) =
    let relative = path_simplify fuel pwd (pwd ++ (path_sep ∷ c ∷ path)) in
    if c == path_sep
    then simplified [] (c ∷ path)
    else (if c == b'@'
        then elim (struntil (c ∷ path) (path_sep ∷ [])) [
          | none ↦ none
          | some (prefix, rest) ↦ simplified prefix rest
        ]
        else relative)
