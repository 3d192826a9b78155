-- ===== src/Libc/Env.antt =====
-- The environment, libc/stdlib/env.c: getenv and setenv, on the texts of the array `environ`. malloc, realloc
-- and strdup give memory.
pub mod Map
mod Tests
use rhombus.Prelude.{
  ℕ, zero, suc, Bool, true, false, Option, none, some, List, [], ◌∷◌, ◌++◌, ◌==◌, if◌then◌else◌,
}
use rhombus.Prelude.Int.{is_zero}
use rhombus.Libc.Text.{Text, strcmp}

-- What an entry of `environ` points to: `name\0value`, or the one byte that setenv leaves of a variable that
-- it deletes.
pub data Var : Type 0 where
  var : Text → Text → Var
  deleted : Var

-- What `environ[environ_size]` is.
pub data End : Type 0 where
  no_array null_end text_end : End

-- `environ`
pub record Environ : Type 0 where
  pub vars : List Var
  pub end : End

-- The text at `environ[i]`.
abbrev pub name_of : Var → Text
name_of (var n v) = n
name_of deleted = []

-- `!strcmp(environ[i], name)`
pub is_named : Var → Text → Bool
is_named v name = is_zero (strcmp (name_of v) name)

-- What `getenv` returns.
pub data Value : Type 0 where
  null behind_block : Value
  text : Text → Value

-- `&environ[i][strlen(environ[i]) + 1]`
abbrev pub value_of : Var → Value
value_of (var n v) = text v
value_of deleted = behind_block

-- The loop of `getenv`.
pub get_var : Text → List Var → Value
unfolding is_named
get_var name [] = null
get_var name (v ∷ vs) = let rest = get_var name vs in if is_named v name then value_of v else rest

-- `getenv`
pub getenv : Text → Environ → Value
unfolding get_var
getenv name e = get_var name e.vars

-- The text up to the first `=` of the entry, and the text behind it.
pub cut_at_equals : Text → Text × Text
cut_at_equals [] = ([], [])
cut_at_equals (c ∷ s) =
    let (name, value) = cut_at_equals s in if c == b'=' then ([], s) else (c ∷ name, value)

-- The entry that `setenv` makes.
pub new_var : Text → Text → Var
unfolding cut_at_equals
new_var name value = let (n, v) = cut_at_equals (name ++ (b'=' ∷ value)) in var n v

-- The loop of `setenv`, and the assignment to the entry that it finds; none if it finds none.
pub put_var : Text → Var → List Var → Option (List Var)
unfolding is_named
put_var name new [] = none
put_var name new (v ∷ vs) =
    let rest = put_var name new vs in
    if is_named v name
    then some (new ∷ vs)
    else elim rest [ none ↦ none | some vs' ↦ some (v ∷ vs') ]

-- `setenv`; none where it writes through a null pointer.
pub setenv : Text → Option Text → Environ → Option (ℕ × Environ)
unfolding put_var new_var
setenv name (some value) e =
    let new = new_var name value in
    elim (put_var name new e.vars) [
      | some vars' ↦ some (0, record e { vars = vars' })
      | none ↦ some (0, record { vars = e.vars ++ (new ∷ []); end = null_end })
    ]
setenv name none e = elim (put_var name deleted e.vars) [
  | some vars' ↦ some (0, record e { vars = vars' })
  | none ↦ elim e.end [
    | no_array ↦ none
    | null_end ↦ some (0, record e { end = text_end })
    | text_end ↦ some (0, record e { end = text_end })
  ]
]
