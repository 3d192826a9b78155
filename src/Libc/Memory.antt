-- ===== src/Libc/Memory.antt =====
-- The byte routines of the C library, libc/string/mem*.c, on one memory that their pointers share.
-- A pointer is an address, and an object does not wrap around the end of the address space.
pub mod Copy
pub mod Scan
mod Tests
use rhombus.Prelude.{ℕ, zero, suc, ◌+◌, Bool, Option, none, some, ◌==◌, ltb, if◌then◌else◌}

abbrev pub Memory : Type 0
Memory = ℕ → ℕ

-- `*a = v`
pub store : Memory → ℕ → ℕ → Memory
store m a v = λ x. if x == a then v else m x

-- A loop that goes up, from round `i` on, `n` rounds left: `d[i] = s[i]`.
pub copy_up : Memory → ℕ → ℕ → ℕ → ℕ → Memory
unfolding store
copy_up m d s i zero = m
copy_up m d s i (suc n) = copy_up (store m (d + i) (m (s + i))) d s (suc i) n

-- A loop that goes down: with `suc n` rounds left the index `n - i - 1` of the source is `n`.
pub copy_down : Memory → ℕ → ℕ → ℕ → Memory
unfolding store
copy_down m d s zero = m
copy_down m d s (suc n) = copy_down (store m (d + n) (m (s + n))) d s n

-- `memcpy`
pub memcpy : Memory → ℕ → ℕ → ℕ → Memory
unfolding copy_up
memcpy m d s n = copy_up m d s 0 n

-- `memmove`
pub memmove : Memory → ℕ → ℕ → ℕ → Memory
unfolding copy_up copy_down
memmove m d s n = if s == d then m else (if ltb d s then copy_up m d s 0 n else copy_down m d s n)

pub fill : Memory → ℕ → ℕ → ℕ → ℕ → Memory
unfolding store
fill m s c i zero = m
fill m s c i (suc n) = fill (store m (s + i) c) s c (suc i) n

-- `memset`, whose `c` is a byte.
pub memset : Memory → ℕ → ℕ → ℕ → Memory
unfolding fill
memset m s c n = fill m s c 0 n

-- `memclr`
pub memclr : Memory → ℕ → ℕ → Memory
unfolding fill
memclr m s n = fill m s 0 0 n

pub scan : Memory → ℕ → ℕ → ℕ → ℕ → Option ℕ
scan m s c i zero = none
scan m s c i (suc n) =
    let rest = scan m s c (suc i) n in if m (s + i) == c then some (s + i) else rest

-- `memchr`: the address found, or null.
pub memchr : Memory → ℕ → ℕ → ℕ → Option ℕ
unfolding scan
memchr m s c n = scan m s c 0 n

pub differ : Memory → ℕ → ℕ → ℕ → ℕ → ℕ
differ m a b i zero = 0
differ m a b i (suc n) =
    let rest = differ m a b (suc i) n in if m (a + i) == m (b + i) then rest else 1

-- `memcmp`: one if a byte differs, zero if none does.
pub memcmp : Memory → ℕ → ℕ → ℕ → ℕ
unfolding differ
memcmp m a b n = differ m a b 0 n
