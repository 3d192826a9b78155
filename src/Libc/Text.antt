-- ===== src/Libc/Text.antt =====
-- The functions of libc/string/ that read texts. A text is the list of the bytes before its
-- terminator, so `[]` is a pointer to the terminator, and a pointer into a text is the rest of it.
-- A `char` is signed, as on the x86 that the library is built for.
pub mod Compare
pub mod Search
pub mod Span
pub mod Token
pub mod Buffer
mod Tests
use rhombus.Prelude.{
  ℕ, zero, suc, ◌+◌, ◌%◌, Bool, true, false, Option, none, some, List, [], ◌∷◌, ◌==◌, ltb,
  if◌then◌else◌, get_or,
}
use rhombus.Prelude.Int.{ℤ, pos, negsuc}

abbrev pub Text : Type 0
Text = List ℕ

-- `s[i]`, up to the terminator.
pub byte_at : Text → ℕ → ℕ
byte_at s i = get_or s i 0

-- `strlen`
pub strlen : Text → ℕ
strlen [] = 0
strlen (c ∷ s) = suc (strlen s)

-- `a < b` of two signed bytes.
pub char_lt : ℕ → ℕ → Bool
char_lt a b = ltb ((a + 128) % 256) ((b + 128) % 256)

-- `strcmp`
unfoldable pub strcmp : Text → Text → ℤ
unfolding char_lt
strcmp [] [] = pos 0
strcmp [] (b ∷ t) = negsuc 0
strcmp (a ∷ s) [] = pos 1
strcmp (a ∷ s) (b ∷ t) =
    let rest = strcmp s t in if a == b then rest else (if char_lt a b then negsuc 0 else pos 1)

-- `strncmp`
pub strncmp : Text → Text → ℕ → ℤ
unfolding char_lt
strncmp s t zero = pos 0
strncmp [] [] (suc n) = pos 0
strncmp [] (b ∷ t) (suc n) = negsuc 0
strncmp (a ∷ s) [] (suc n) = pos 1
strncmp (a ∷ s) (b ∷ t) (suc n) =
    let rest = strncmp s t n in if a == b then rest else (if char_lt a b then negsuc 0 else pos 1)

-- `strchr`
unfoldable pub strchr : Text → ℕ → Option Text
strchr [] c = none
strchr (x ∷ s) c = let rest = strchr s c in if x == c then some (x ∷ s) else rest

-- The loop of `strrchr` from index `i` down, and its last test.
unfoldable pub find_back : Text → ℕ → ℕ → Option ℕ
unfolding byte_at
find_back s c zero = if byte_at s 0 == c then some 0 else none
find_back s c (suc i) =
    let rest = find_back s c i in if byte_at s (suc i) == c then some (suc i) else rest

-- `strrchr`: the index of the byte found.
unfoldable pub strrchr : Text → ℕ → Option ℕ
unfolding find_back strlen
strrchr s c = find_back s c (strlen s)

-- The inner loop of `strstr`, and its test of `s2[j]`.
pub starts : Text → Text → Bool
starts s [] = true
starts [] (y ∷ t) = false
starts (x ∷ s) (y ∷ t) = let rest = starts s t in if x == y then rest else false

-- `strstr`
pub strstr : Text → Text → Option Text
unfolding starts
strstr [] t = none
strstr (x ∷ s) t = let rest = strstr s t in if starts (x ∷ s) t then some (x ∷ s) else rest

-- `is_accepted`
unfoldable pub is_accepted : ℕ → Text → Bool
is_accepted c [] = false
is_accepted c (x ∷ accept) = let rest = is_accepted c accept in if c == x then true else rest

-- `strpbrk`
pub strpbrk : Text → Text → Option Text
unfolding is_accepted
strpbrk [] accept = none
strpbrk (x ∷ s) accept =
    let rest = strpbrk s accept in if is_accepted x accept then some (x ∷ s) else rest
