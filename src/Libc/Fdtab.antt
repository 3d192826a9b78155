-- ===== src/Libc/Fdtab.antt =====
-- The file descriptor table, libc/rhombus/fdtab.c. Each function holds `_fdtab_mutex` throughout,
-- so it is one step on the table; `_fdtab_size` is the length of the list.
pub mod Widen
pub mod Laws
mod Tests
use rhombus.Prelude.{
  ℕ, zero, suc, ◌+◌, ◌-◌, Bool, true, false, Option, none, some, List, [], ◌∷◌, ◌++◌, ◌==◌, ltb,
  leb, if◌then◌else◌, length, get_elem?, set,
}
use rhombus.Prelude.Int.{ℤ, pos, negsuc}

-- `struct fdtab`
pub record Fd : Type 0 where
  pub mode : ℕ
  pub rp : ℕ
  pub offset : ℕ

abbrev pub rp_null : ℕ
rp_null = 0

-- The loop of `fd_alloc`: the first free index among the entries from `i` on.
pub first_free : ℕ → List Fd → ℕ
first_free i [] = i
first_free i (f ∷ t) = let rest = first_free (i + 1) t in if f.rp == rp_null then i else rest

abbrev pub from : ℕ → List Fd → List Fd
from zero t = t
from (suc n) [] = []
from (suc n) (f ∷ t) = from n t

-- `fd_alloc`: the loop runs off the table at its size.
pub fd_alloc : List Fd → ℕ
unfolding first_free
fd_alloc t = if ltb (length t) 4 then 4 else first_free 4 (from 4 t)

-- What stands in memory that `realloc` adds, at each index of the table.
abbrev pub Memory : Type 0
Memory = ℕ → Fd

-- `n` entries from index `i` on, as `realloc` leaves them.
pub uncleared : Memory → ℕ → ℕ → List Fd
uncleared m i zero = []
uncleared m i (suc n) = m i ∷ uncleared m (i + 1) n

abbrev pub entry_at : List Fd → ℕ → Fd
entry_at [] i = record { mode = 0; rp = rp_null; offset = 0 }
entry_at (f ∷ t) zero = f
entry_at (f ∷ t) (suc i) = entry_at t i

-- The reallocation of `fd_set`: the loop over `i` clears from `fd` on, that is the last entry.
pub widen : Memory → List Fd → ℕ → List Fd
unfolding uncleared
widen m t fd =
    let t' = t ++ uncleared m (length t) (fd + 1 - length t) in
    set t' fd (record (entry_at t' fd) { rp = rp_null })

-- `fd_set`: the result and the table.
pub fd_set : Memory → List Fd → ℤ → ℕ → ℕ → ℤ × List Fd
unfolding widen
fd_set m t (negsuc n) rp mode = (negsuc 0, t)
fd_set m t (pos fd) rp mode =
    if leb 4096 fd
    then (negsuc 0, t)
    else (let t' = if leb (length t) fd then widen m t fd else t in
        (pos 0, set t' fd (record (entry_at t' fd) { rp = rp; mode = mode })))

-- `fd_mode`, `fd_rp` and `fd_pos` read one field, with a default out of range.
abbrev pub read : (Fd → ℕ) → List Fd → ℤ → ℕ
read field t (negsuc n) = 0
read field t (pos fd) = if leb (length t) fd then 0 else field (entry_at t fd)

pub fd_mode : List Fd → ℤ → ℕ
fd_mode t fd = read (λ f. f.mode) t fd

pub fd_rp : List Fd → ℤ → ℕ
fd_rp t fd = read (λ f. f.rp) t fd

pub fd_pos : List Fd → ℤ → ℕ
fd_pos t fd = read (λ f. f.offset) t fd

-- `fd_seek`
pub fd_seek : List Fd → ℤ → ℕ → ℤ × List Fd
fd_seek t (negsuc n) offset = (negsuc 0, t)
fd_seek t (pos fd) offset =
    if ltb fd (length t)
    then (pos 0, set t fd (record (entry_at t fd) { offset = offset }))
    else (negsuc 0, t)
