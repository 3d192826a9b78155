-- ===== src/Libc/Memory/Tests.antt =====
-- The byte routines on a concrete memory.
use rhombus.Prelude.{◌*◌, ◌%◌, ◌≡◌, refl, some}
use rhombus.Libc.Memory.{Memory, copy_down, memmove, memchr, scan, memset, fill, store}
use rhombus.Libc.Memory.Copy.{memmove_lem}

abbrev bytes : Memory
bytes x = (x * 3) % 256

memmove_up : memmove bytes 2 0 4 5 ≡ 9
unfolding memmove copy_down store
memmove_up = refl

memset_runs : memset bytes 10 7 3 12 ≡ 7
unfolding memset fill store
memset_runs = refl

memchr_runs : memchr bytes 10 36 8 ≡ some 12
unfolding memchr scan
memchr_runs = refl

memmove_lem_example : memmove bytes 2 0 4 5 ≡ 9
memmove_lem_example = memmove_lem bytes 2 0 4 5
