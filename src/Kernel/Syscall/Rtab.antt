-- ===== src/Kernel/Syscall/Rtab.antt =====
-- The system call on resource tables, kernel/syscall/syscall_rtab.c, over the process table and the
-- resource tables of the processes. `none` is a pointer to a process that does not exist.
pub mod Opens
mod Tests
use rhombus.Prelude.{
  ℕ, ◌+◌, ◌*◌, ◌^◌, Bool, not, Option, none, some, List, [], ◌==◌, if◌then◌else◌, set,
}
use rhombus.Kernel.Rtab.{Table, Notice, open_fuel, close}
use rhombus.Kernel.Process.{Process, State, get}

-- The registers of the call.
pub record RtabCall : Type 0 where
  pub ebx : ℕ
  pub ecx : ℕ
  pub edx : ℕ
  pub esi : ℕ
  pub edi : ℕ

-- `(uint64_t) low | ((uint64_t) high << 32)`
abbrev pub rp : ℕ → ℕ → ℕ
rp low high = low + high * 2 ^ 32

-- EAX, the process table, and the notices that rtab_close sends.
abbrev pub Outcome : Type 0
Outcome = Option (ℕ × State × List Notice)

-- `proc->rtab` of the process in slot `slot`.
abbrev pub with_rtab : State → ℕ → Process → Table → State
with_rtab s slot p t = record s { table = set s.table slot (some (record p { rtab = t })) }

-- The case RTAB_OPEN of a call of the process `p`.
pub open_case : RtabCall → Process → State → Outcome
open_case c p s =
    let opened : Outcome = elim (get s c.ecx) [
      | none ↦ some (1, s, [])
      | some q ↦ elim (open_fuel 2 q.rtab (rp c.ecx c.edx) (rp c.esi c.edi)) [
        | none ↦ none
        | some t ↦ some (0, with_rtab s c.ecx q t, [])
      ]
    ] in
    if c.esi == p.pid then opened else some (1, s, [])

-- The case RTAB_CLOSE of a call of the process `p` in slot `own`.
pub close_case : RtabCall → ℕ → Process → State → Outcome
close_case c own p s =
    let (t, sent) = close p.rtab (rp c.ecx c.edx) (rp c.esi c.edi) in
    if c.ecx == p.pid then some (0, with_rtab s own p t, sent) else some (1, s, [])

-- `syscall_rtab` of a thread of the process in slot `own`.
pub syscall_rtab : RtabCall → ℕ → State → Outcome
unfolding open_case close_case
syscall_rtab c own s = elim (get s own) [
  | none ↦ none
  | some p ↦
      if c.edx == 0
      then open_case c p s
      else if c.edx == 1
      then close_case c own p s
      else some (1, s, [])
]
