-- ===== src/Libc/Text/Buffer.antt =====
-- The functions of libc/string/ that write a text into an array: strcpy.c, strncpy.c, strcat.c,
-- strncat.c, strlcpy.c, strlcat.c and strxfrm.c. The array is apart from the text that is read.
-- There is no result when one of them leaves the array.
pub mod Bounded
pub mod Unbounded
mod Tests
use rhombus.Prelude.{ℕ, zero, suc, ◌+◌, ◌-◌, Option, none, some, List, [], ◌∷◌, ◌==◌, if◌then◌else◌}
use rhombus.Libc.Text.{Text, strlen}

-- A `char` array from a pointer on.
abbrev pub Array : Type 0
Array = List ℕ

-- The byte written at the pointer, then what the loop writes behind it.
pub push : ℕ → Option Array → Option Array
push c none = none
push c (some d) = some (c ∷ d)

-- `strcpy`
pub strcpy : Array → Text → Option Array
unfolding push
strcpy [] s = none
strcpy (x ∷ d) [] = some (0 ∷ d)
strcpy (x ∷ d) (c ∷ s) = push c (strcpy d s)

-- `strncpy`
pub strncpy : Array → Text → ℕ → Option Array
unfolding push
strncpy d s zero = some d
strncpy [] s (suc n) = none
strncpy (x ∷ d) [] (suc n) = push 0 (strncpy d [] n)
strncpy (x ∷ d) (c ∷ s) (suc n) = push c (strncpy d s n)

-- `strxfrm`
pub strxfrm : Array → Text → ℕ → Option Array × ℕ
unfolding strncpy
strxfrm d s n = (strncpy d s n, n)

-- `strcat`
pub strcat : Array → Text → Option Array
unfolding push strcpy
strcat [] s = none
strcat (x ∷ d) s =
    let here = strcpy (x ∷ d) s in let rest = push x (strcat d s) in if x == 0 then here else rest

-- The second loop of `strncat`, and its terminator.
pub copy_some : Array → Text → ℕ → Option Array
unfolding push
copy_some [] s n = none
copy_some (x ∷ d) [] n = some (0 ∷ d)
copy_some (x ∷ d) (c ∷ s) zero = some (0 ∷ d)
copy_some (x ∷ d) (c ∷ s) (suc n) = push c (copy_some d s n)

-- `strncat`
pub strncat : Array → Text → ℕ → Option Array
unfolding push copy_some
strncat [] s n = none
strncat (x ∷ d) s n =
    let here = copy_some (x ∷ d) s n in
    let rest = push x (strncat d s n) in if x == 0 then here else rest

-- The same with a count of the bytes passed.
pub push_counted : ℕ → Option (Array × ℕ) → Option (Array × ℕ)
push_counted c none = none
push_counted c (some (d, n)) = some (c ∷ d, suc n)

-- `strlcpy` from the test of the first loop on, with `suc n` for the `n` of the source: it copies,
-- and where no room is left it terminates the array and passes over the rest of the text.
pub copy_bounded : Array → Text → ℕ → Option (Array × ℕ)
unfolding push_counted strlen
copy_bounded [] s n = none
copy_bounded (x ∷ d) s zero = some (0 ∷ d, strlen s)
copy_bounded (x ∷ d) [] (suc n) = some (0 ∷ d, 0)
copy_bounded (x ∷ d) (c ∷ s) (suc n) = push_counted c (copy_bounded d s n)

-- `strlcpy`
pub strlcpy : Array → Text → ℕ → Option (Array × ℕ)
unfolding copy_bounded strlen
strlcpy d s zero = some (d, strlen s)
strlcpy d s (suc n) = copy_bounded d s n

-- The second loop of `strlcat`, with `suc n` for its `n`, and its terminator.
pub append_bounded : Array → Text → ℕ → Option (Array × ℕ)
unfolding push_counted strlen
append_bounded [] s n = none
append_bounded (x ∷ d) [] n = some (0 ∷ d, 0)
append_bounded (x ∷ d) (c ∷ s) zero = some (0 ∷ d, suc (strlen s))
append_bounded (x ∷ d) (c ∷ s) (suc n) = push_counted c (append_bounded d s n)

-- `strlcat`
pub strlcat : Array → Text → ℕ → Option (Array × ℕ)
unfolding push_counted append_bounded strlen
strlcat d s zero = some (d, strlen s)
strlcat [] s (suc n) = none
strlcat (x ∷ d) s (suc n) =
    let here = append_bounded (x ∷ d) s n in
    let rest = push_counted x (strlcat d s n) in if x == 0 then here else rest
