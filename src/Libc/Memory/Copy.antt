-- ===== src/Libc/Memory/Copy.antt =====
-- What memcpy, memmove and memset leave at each address.
use rhombus.Prelude.{
  ltb→lt, Bool-cases, ℕ, zero, suc, ◌+◌, ◌-◌, ◌<◌, ◌≤◌, ◌⊎◌, inl, inr, ◌≡◌, refl, Bool, arith, ◌&&◌,
  ltb, leb, if◌then◌else◌,
}
use rhombus.Libc.Memory.{
  Memory, store, copy_up, copy_down, memcpy, memmove, fill, memset, memcmp, differ,
}

-- The address is one of the `n` from `d` on.
abbrev pub inside : ℕ → ℕ → ℕ → Bool
inside d n x = leb d x && ltb x (d + n)

-- The copy of the old contents.
abbrev pub copied : Memory → ℕ → ℕ → ℕ → Memory
copied m d s n x = if inside d n x then m (s + (x - d)) else m x

-- Going up is right when the source is above the destination or wholly below it.
copy_up_lem :
    (n : ℕ) (m : Memory) (d s i x : ℕ)
    → (d ≤ s) ⊎ (s + i + n ≤ d + i)
    → copy_up m d s i n x ≡ (if inside (d + i) n x then m (s + (x - d)) else m x)
unfolding copy_up store
copy_up_lem zero m d s i x h = ground arith
copy_up_lem (suc n) m d s i x h =
    let side : (d ≤ s) ⊎ (s + suc i + n ≤ d + suc i) = elim h [
      | inl p ↦ inl p
      | inr p ↦ inr (omega arith)
    ] in
    ground (arith, copy_up_lem n (store m (d + i) (m (s + i))) d s (suc i) x side)

-- Going down is right when the source is not above the destination.
copy_down_lem : (n : ℕ) (m : Memory) (d s x : ℕ) → s ≤ d → copy_down m d s n x ≡ copied m d s n x
unfolding copy_down store
copy_down_lem zero m d s x h = ground arith
copy_down_lem (suc n) m d s x h =
    ground (arith, copy_down_lem n (store m (d + n) (m (s + n))) d s x h)

-- memmove leaves at each address of the destination the byte that was at the same place of the
-- source before the call, however the two overlap, and leaves every other address as it was.
pub memmove_lem :
    (m : Memory) (d s n x : ℕ) → memmove m d s n x ≡ (if inside d n x then m (s + (x - d)) else m x)
unfolding memmove
memmove_lem m d s n x = elim (Bool-cases (ltb d s)) [
  | inl up ↦ ground (arith, copy_up_lem n m d s 0 x (inl (omega (arith, ltb→lt d s up))))
  | inr down ↦ ground (arith, copy_down_lem n m d s x (ground arith))
]

memcpy-copied :
    (m : Memory) (d s n x : ℕ) → (d ≤ s) ⊎ (s + n ≤ d) → memcpy m d s n x ≡ copied m d s n x
unfolding memcpy
memcpy-copied m d s n x h =
    let side : (d ≤ s) ⊎ (s + 0 + n ≤ d + 0) = elim h [
      | inl p ↦ inl p
      | inr p ↦ inr (omega arith)
    ] in
    ground (arith, copy_up_lem n m d s 0 x side)

fill_lem :
    (n : ℕ) (m : Memory) (s c i x : ℕ) → fill m s c i n x ≡ (if inside (s + i) n x then c else m x)
unfolding fill store
fill_lem zero m s c i x = ground arith
fill_lem (suc n) m s c i x = ground (arith, fill_lem n (store m (s + i) c) s c (suc i) x)

pub memset_lem : (m : Memory) (s c n x : ℕ) → memset m s c n x ≡ (if inside s n x then c else m x)
unfolding memset
memset_lem m s c n x = ground (arith, fill_lem n m s c 0 x)

differ-same :
    (n : ℕ) (m : Memory) (a b i : ℕ)
    → ((j : ℕ) → i ≤ j → j < i + n → m (a + j) ≡ m (b + j))
    → differ m a b i n ≡ 0
unfolding differ
differ-same zero m a b i h = refl
differ-same (suc n) m a b i h = ground (
  arith,
  h i (omega arith) (omega arith),
  differ-same n m a b (suc i) (λ j p q. h j (omega arith) (omega arith)),
)

-- After memcpy between two parts of memory of which neither is in the other, memcmp finds them
-- equal.
pub memcmp-memcpy :
    (m : Memory) (d s n : ℕ) → (d + n ≤ s) ⊎ (s + n ≤ d) → memcmp (memcpy m d s n) d s n ≡ 0
unfolding memcmp
memcmp-memcpy m d s n h =
    let side : (d ≤ s) ⊎ (s + n ≤ d) = elim h [ inl p ↦ inl (omega arith) | inr p ↦ inr p ] in
    differ-same n (memcpy m d s n) d s 0 λ j p q.
      ground (arith, memcpy-copied m d s n (d + j) side, memcpy-copied m d s n (s + j) side)
