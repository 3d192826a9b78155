-- ===== src/Libc/Fdtab/Tests.antt =====
-- The theorems on file descriptors at concrete tables.
use rhombus.Prelude.{ℕ, ◌≤◌, ◌<◌, ◌≡◌, ◌≢◌, refl, List, [], ◌∷◌}
use rhombus.Prelude.Int.{pos, negsuc}
use rhombus.Libc.Fdtab.{Fd, Memory, fd_alloc, fd_set, fd_rp, fd_mode, fd_pos}
use rhombus.Libc.Fdtab.Laws.{fd_set_lem}

abbrev fd : ℕ → Fd
fd rp = record { mode = 1; rp = rp; offset = 0 }

-- Standard streams 0 to 3, then 4 in use and 5 free.
abbrev table : List Fd
table = fd 9 ∷ fd 9 ∷ fd 9 ∷ fd 9 ∷ fd 7 ∷ fd 0 ∷ []

-- New memory that is not zero.
abbrev junk : Memory
junk i = fd 99

fd_alloc_table : fd_alloc table ≡ 5
unfolding fd_alloc
fd_alloc_table = refl

fd_set_lem_example :
    ((n : ℕ) → fd_set junk table (negsuc n) 8 3 ≡ (negsuc 0, table))
    × ((n : ℕ) → 4096 ≤ n → fd_set junk table (pos n) 8 3 ≡ (negsuc 0, table))
    × ((n : ℕ)
        → n < 4096
        → let (r, t') = fd_set junk table (pos n) 8 3 in
          (r ≡ pos 0)
          × (fd_rp t' (pos n) ≡ 8)
          × (fd_mode t' (pos n) ≡ 3)
          × ((j : ℕ)
              → j < 6
              → j ≢ n
              → (fd_rp t' (pos j) ≡ fd_rp table (pos j))
                × (fd_mode t' (pos j) ≡ fd_mode table (pos j))
                × (fd_pos t' (pos j) ≡ fd_pos table (pos j))))
fd_set_lem_example = fd_set_lem junk table 8 3
