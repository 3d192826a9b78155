-- ===== src/Libc/Text/Span.antt =====
-- strspn, strcspn and what stands on them: libc/string/strspn.c, strcspn.c, struntil.c, strwhile.c.
-- Both count with a set of bytes that is 16 halfwords of 16 bits. A byte from 128 on is a negative
-- `char`, whose index is far outside the array: there is no result.
pub mod Mask
mod Tests
use rhombus.Prelude.{
  ℕ, zero, suc, ◌+◌, ◌*◌, ◌/◌, ◌%◌, Bool, true, false, not, Option, none, some, List, [], ◌∷◌, ◌==◌,
  ltb, if◌then◌else◌, get_or, set, replicate, take, drop,
}
use rhombus.Libc.Text.{Text}

-- `m & (1 << k)`
pub bit : ℕ → ℕ → Bool
bit m zero = m % 2 == 1
bit m (suc k) = bit (m / 2) k

-- `m |= 1 << k`
pub set_bit : ℕ → ℕ → ℕ
set_bit m zero = if m % 2 == 1 then m else m + 1
set_bit m (suc k) = m % 2 + 2 * set_bit (m / 2) k

abbrev pub Mask : Type 0
Mask = List ℕ

pub cleared_mask : Mask
cleared_mask = replicate 16 0

-- `mask[c >> 4] |= 1 << (c & 0xF)`
pub mark : Mask → ℕ → Option Mask
unfolding set_bit
mark mask c =
    if ltb c 128 then some (set mask (c / 16) (set_bit (get_or mask (c / 16) 0) (c % 16))) else none

-- `mask[c >> 4] & (1 << (c & 0xF))`
pub marked : Mask → ℕ → Option Bool
unfolding bit
marked mask c = if ltb c 128 then some (bit (get_or mask (c / 16) 0) (c % 16)) else none

-- The loop over the set.
pub mark_all : Mask → Text → Option Mask
unfolding mark
mark_all mask [] = some mask
mark_all mask (c ∷ cs) = elim (mark mask c) [ none ↦ none | some mask' ↦ mark_all mask' cs ]

-- A round of the loop over the text, before the count of the rounds after it: the loop goes on while
-- the test of a byte is `want`.
pub tally : Bool → Option Bool → Option ℕ → Option ℕ
tally want none rest = none
tally want (some got) none = if (if want then got else not got) then none else some 0
tally want (some got) (some n) = some (if (if want then got else not got) then suc n else 0)

pub count_while : Bool → Mask → Text → Option ℕ
unfolding marked tally
count_while want mask [] = some 0
count_while want mask (c ∷ s) = tally want (marked mask c) (count_while want mask s)

-- `strspn`
unfoldable pub strspn : Text → Text → Option ℕ
unfolding mark_all count_while cleared_mask
strspn s accept = elim (mark_all cleared_mask accept) [
  | none ↦ none
  | some mask ↦ count_while true mask s
]

-- `strcspn`
pub strcspn : Text → Text → Option ℕ
unfolding mark_all count_while cleared_mask
strcspn s reject = elim (mark_all cleared_mask reject) [
  | none ↦ none
  | some mask ↦ count_while false mask s
]

-- `struntil`, where malloc gives memory: the copy, and what is left at `*save`.
unfoldable pub struntil : Text → Text → Option (Text × Text)
unfolding strcspn
struntil s reject = elim (strcspn s reject) [ none ↦ none | some n ↦ some (take n s, drop n s) ]

-- `strwhile`, the same.
pub strwhile : Text → Text → Option (Text × Text)
unfolding strspn
strwhile s accept = elim (strspn s accept) [ none ↦ none | some n ↦ some (take n s, drop n s) ]
