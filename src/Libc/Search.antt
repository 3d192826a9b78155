-- ===== src/Libc/Search.antt =====
-- Binary search, libc/stdlib/bsearch.c. The function that compares is a parameter, and the array is
-- memory from its start on.
pub mod Found
mod Tests
use rhombus.Prelude.{ℕ, zero, suc, ◌+◌, ◌/◌, ◌%◌, ◌^◌, Option, none, some}
use rhombus.Prelude.Int.{ℤ, pos, negsuc}

-- `(lower + upper) / 2`, on 32 bits
abbrev pub middle : ℕ → ℕ → ℕ
middle lower upper = ((lower + upper) % 2 ^ 32) / 2

-- The loop, with its index into the array.
pub search_loop {ℓ} : {A : Type ℓ} → (A → A → ℤ) → A → (ℕ → A) → ℕ → ℕ → ℕ → Option ℕ
search_loop cmp key array zero lower upper = none
search_loop cmp key array (suc fuel) lower upper = elim (cmp key (array (middle lower upper))) [
  | negsuc n ↦ search_loop cmp key array fuel lower (middle lower upper)
  | pos n ↦ elim n [
    | zero ↦ some (middle lower upper)
    | suc m ↦ search_loop cmp key array fuel (1 + middle lower upper) upper
  ]
]

-- `bsearch`; none where it has not returned after `fuel` rounds.
pub bsearch {ℓ} : {A : Type ℓ} → ℕ → A → (ℕ → A) → ℕ → (A → A → ℤ) → Option ℕ
unfolding search_loop
bsearch fuel key base nmemb cmp = search_loop cmp key base fuel 0 nmemb
