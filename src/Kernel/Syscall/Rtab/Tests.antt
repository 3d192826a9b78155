-- ===== src/Kernel/Syscall/Rtab/Tests.antt =====
-- syscall_rtab of two processes: a run that EBX has no part in, and what syscall_rtab-Opened says of a call.
use rhombus.Prelude.{ℕ, ◌≡◌, refl, none, some, [], ◌∷◌, arith}
use rhombus.Kernel.Process.{State, cleared, initial, get}
use rhombus.Kernel.Rtab.{Table}
use rhombus.Kernel.Rtab.Live.{Opened}
use rhombus.Kernel.Syscall.Rtab.{RtabCall, rp, syscall_rtab}
use rhombus.Kernel.Syscall.Rtab.Opens.{syscall_rtab-Opened}

abbrev table : State
table = record initial { table = none ∷ some (cleared 1) ∷ some (cleared 2) ∷ [] }

-- A connection from resource `index` of process 2 to resource 9 of process 1.
abbrev call : ℕ → RtabCall
call index = record { ebx = 0; ecx = 2; edx = index; esi = 1; edi = 9 }

two_rejected : syscall_rtab (call 2) 1 table ≡ some (1, table, [])
unfolding syscall_rtab get
two_rejected = refl

in_first : get table 1 ≡ some (cleared 1)
unfolding get
in_first = refl

in_second : get table 2 ≡ some (cleared 2)
unfolding get
in_second = refl

syscall_rtab-Opened_example :
    (s' : State) × (t : Table) × (syscall_rtab (call 0) 1 table ≡ some (0, s', []))
    × (get s' 2 ≡ some (record (cleared 2) { rtab = t }))
    × Opened (cleared 2).rtab (rp 2 0) (rp 1 9) t
    × (get s' 1 ≡ get table 1)
syscall_rtab-Opened_example =
    syscall_rtab-Opened (call 0) 1 table (cleared 1) (cleared 2) 1 in_first refl refl (omega arith)
      in_second (omega arith)
