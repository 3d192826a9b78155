-- ===== src/Libc/Ctype.antt =====
-- The classes of characters: libc/ctype/ctype.c, toupper.c and tolower.c, and the macros of libc/inc/ctype.h.
pub mod Classes
mod Tests
use rhombus.Prelude.{
  ℕ, zero, suc, ◌+◌, ◌-◌, ◌/◌, ◌%◌, Bool, not, ◌&&◌, List, [], ◌∷◌, ◌==◌, leb, if◌then◌else◌,
  get_or, replicate,
}

-- `_ctype_tbl`
pub ctype_tbl : List ℕ
ctype_tbl =
    0
    ∷ 8
    ∷ 8
    ∷ 8
    ∷ 8
    ∷ 8
    ∷ 8
    ∷ 8
    ∷ 128
    ∷ 640
    ∷ 640
    ∷ 640
    ∷ 640
    ∷ 640
    ∷ 8
    ∷ 8
    ∷ 8
    ∷ 8
    ∷ 8
    ∷ 8
    ∷ 8
    ∷ 8
    ∷ 8
    ∷ 8
    ∷ 8
    ∷ 8
    ∷ 8
    ∷ 8
    ∷ 8
    ∷ 8
    ∷ 8
    ∷ 8
    ∷ 672
    ∷ 384
    ∷ 384
    ∷ 384
    ∷ 384
    ∷ 384
    ∷ 384
    ∷ 384
    ∷ 384
    ∷ 384
    ∷ 384
    ∷ 384
    ∷ 384
    ∷ 384
    ∷ 384
    ∷ 384
    ∷ 2193
    ∷ 2193
    ∷ 2193
    ∷ 2193
    ∷ 2193
    ∷ 2193
    ∷ 2193
    ∷ 2193
    ∷ 2193
    ∷ 2193
    ∷ 384
    ∷ 384
    ∷ 384
    ∷ 384
    ∷ 384
    ∷ 384
    ∷ 384
    ∷ 3203
    ∷ 3203
    ∷ 3203
    ∷ 3203
    ∷ 3203
    ∷ 3203
    ∷ 1155
    ∷ 1155
    ∷ 1155
    ∷ 1155
    ∷ 1155
    ∷ 1155
    ∷ 1155
    ∷ 1155
    ∷ 1155
    ∷ 1155
    ∷ 1155
    ∷ 1155
    ∷ 1155
    ∷ 1155
    ∷ 1155
    ∷ 1155
    ∷ 1155
    ∷ 1155
    ∷ 1155
    ∷ 1155
    ∷ 384
    ∷ 384
    ∷ 384
    ∷ 384
    ∷ 384
    ∷ 384
    ∷ 2243
    ∷ 2243
    ∷ 2243
    ∷ 2243
    ∷ 2243
    ∷ 2243
    ∷ 195
    ∷ 195
    ∷ 195
    ∷ 195
    ∷ 195
    ∷ 195
    ∷ 195
    ∷ 195
    ∷ 195
    ∷ 195
    ∷ 195
    ∷ 195
    ∷ 195
    ∷ 195
    ∷ 195
    ∷ 195
    ∷ 195
    ∷ 195
    ∷ 195
    ∷ 195
    ∷ 384
    ∷ 384
    ∷ 384
    ∷ 384
    ∷ 128
    ∷ replicate 128 0

-- `_ctype_tbl[(unsigned char) c] & flag`, for a flag of one bit
pub has_flag : ℕ → ℕ → Bool
unfolding ctype_tbl
has_flag c flag = not ((get_or ctype_tbl (c % 256) 0 / flag) % 2 == 0)

-- `isalnum`
pub isalnum : ℕ → Bool
unfolding has_flag
isalnum c = has_flag c 1

-- `isalpha`
pub isalpha : ℕ → Bool
unfolding has_flag
isalpha c = has_flag c 2

-- `isblank`
pub isblank : ℕ → Bool
unfolding has_flag
isblank c = has_flag c 4

-- `iscntrl`
pub iscntrl : ℕ → Bool
unfolding has_flag
iscntrl c = has_flag c 8

-- `isdigit`
pub isdigit : ℕ → Bool
unfolding has_flag
isdigit c = has_flag c 16

-- `isgraph`
pub isgraph : ℕ → Bool
unfolding has_flag
isgraph c = has_flag c 32

-- `islower`
pub islower : ℕ → Bool
unfolding has_flag
islower c = has_flag c 64

-- `isprint`
pub isprint : ℕ → Bool
unfolding has_flag
isprint c = has_flag c 128

-- `ispunct`
pub ispunct : ℕ → Bool
unfolding has_flag
ispunct c = has_flag c 256

-- `isspace`
pub isspace : ℕ → Bool
unfolding has_flag
isspace c = has_flag c 512

-- `isupper`
pub isupper : ℕ → Bool
unfolding has_flag
isupper c = has_flag c 1024

-- `isxdigit`
pub isxdigit : ℕ → Bool
unfolding has_flag
isxdigit c = has_flag c 2048

-- `toupper`
pub toupper : ℕ → ℕ
toupper c = if leb b'a' c && leb c b'z' then c - (b'a' - b'A') else c

-- `tolower`
pub tolower : ℕ → ℕ
tolower c = if leb b'A' c && leb c b'Z' then c + (b'a' - b'A') else c
