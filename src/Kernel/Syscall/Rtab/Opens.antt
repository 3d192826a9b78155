-- ===== src/Kernel/Syscall/Rtab/Opens.antt =====
-- RTAB_OPEN of syscall_rtab on the tables of the processes, kernel/syscall/syscall_rtab.c.
use rhombus.Prelude.{
  ℕ, zero, suc, ◌<◌, ◌≡◌, ◌≢◌, refl, ◌∙◌, true, false, Option, none, some, List, [], ◌∷◌, ◌==◌, leb,
  arith, length, get_or, get_or-set, Bool-cases, inl, inr,
}
use rhombus.Kernel.Process.{Process, State, max_tasks, get}
use rhombus.Kernel.Rtab.{Table, open_fuel}
use rhombus.Kernel.Rtab.Live.{Opened, open-Opened}
use rhombus.Kernel.Syscall.Rtab.{RtabCall, rp, with_rtab, open_case, syscall_rtab}

open_case_step :
    (c : RtabCall) (s : State) (p q : Process) (t : Table)
    → (c.esi == p.pid) ≡ true
    → get s c.ecx ≡ some q
    → open_fuel 2 q.rtab (rp c.ecx c.edx) (rp c.esi c.edi) ≡ some t
    → open_case c p s ≡ some (0, with_rtab s c.ecx q t, [])
unfolding open_case
open_case_step c s p q t mine there opened = rw (open_case, mine, there, opened) refl

syscall_rtab_step :
    (c : RtabCall) (own : ℕ) (s : State) (p : Process)
    → get s own ≡ some p
    → (c.edx == 0) ≡ true
    → syscall_rtab c own s ≡ open_case c p s
unfolding syscall_rtab
syscall_rtab_step c own s p here a = rw (syscall_rtab, here, a) refl

syscall_rtab-open :
    (c : RtabCall) (own : ℕ) (s : State) (p q : Process) (t : Table)
    → get s own ≡ some p
    → c.edx ≡ 0
    → c.esi ≡ p.pid
    → get s c.ecx ≡ some q
    → open_fuel 2 q.rtab (rp c.ecx c.edx) (rp c.esi c.edi) ≡ some t
    → syscall_rtab c own s ≡ some (0, with_rtab s c.ecx q t, [])
syscall_rtab-open c own s p q t here zero_case mine there opened =
    let a : (c.edx == 0) ≡ true = ground arith in
    let b : (c.esi == p.pid) ≡ true = ground arith in
    syscall_rtab_step c own s p here a ∙ open_case_step c s p q t b there opened

in_table :
    (xs : List (Option Process)) (i : ℕ) (p : Process) → get_or xs i none ≡ some p → i < length xs
in_table [] i p h = cc
in_table (x ∷ xs) zero p h = omega arith
in_table (x ∷ xs) (suc i) p h = omega (arith, in_table xs i p h)

get-parts :
    (s : State) (slot : ℕ) (p : Process)
    → get s slot ≡ some p
    → (leb max_tasks slot ≡ false) × (slot < length s.table)
unfolding get
get-parts s slot p h = elim (Bool-cases (leb max_tasks slot)) [
  | inl over ↦ absurd (let e : get s slot ≡ none = rw over refl in cc)
  | inr under ↦
      let e : get s slot ≡ get_or s.table slot none = rw under refl in
      (under, in_table s.table slot p (cc))
]

with_rtab-here :
    (s : State) (slot : ℕ) (p : Process) (t : Table)
    → leb max_tasks slot ≡ false
    → slot < length s.table
    → get (with_rtab s slot p t) slot ≡ some (record p { rtab = t })
unfolding get
with_rtab-here s slot p t under l =
    let self : (slot == slot) ≡ true = ground arith in
    rw under (get_or-set s.table slot slot (some (record p { rtab = t })) none l ∙ rw self refl)

with_rtab-other :
    (s : State) (slot j : ℕ) (p : Process) (t : Table)
    → slot < length s.table
    → (j == slot) ≡ false
    → get (with_rtab s slot p t) j ≡ get s j
unfolding get
with_rtab-other s slot j p t l other =
    rw (get_or-set s.table slot j (some (record p { rtab = t })) none l, other) refl

-- syscall_rtab with EDX zero, by a process whose number is in ESI, for a process `q` that exists in the slot of ECX,
-- which is not zero: EAX is zero and no notice is sent, the resource table of `q` holds the connection, as one live
-- entry more if it was not there before, and any other process in the table is as before.
pub syscall_rtab-Opened :
    (c : RtabCall) (own : ℕ) (s : State) (p q : Process) (j : ℕ)
    → get s own ≡ some p
    → c.edx ≡ 0
    → c.esi ≡ p.pid
    → c.ecx ≢ 0
    → get s c.ecx ≡ some q
    → j ≢ c.ecx
    → (s' : State) × (t : Table) × (syscall_rtab c own s ≡ some (0, s', []))
      × (get s' c.ecx ≡ some (record q { rtab = t }))
      × Opened q.rtab (rp c.ecx c.edx) (rp c.esi c.edi) t
      × (get s' j ≡ get s j)
syscall_rtab-Opened c own s p q j here zero_case mine some_slot there other =
    let (under, bound) = get-parts s c.ecx q there in
    let (t, run, opened) = open-Opened (rp c.ecx c.edx) (rp c.esi c.edi) (omega arith) q.rtab in
    (
      with_rtab s c.ecx q t,
      t,
      syscall_rtab-open c own s p q t here zero_case mine there run,
      with_rtab-here s c.ecx q t under bound,
      opened,
      with_rtab-other s c.ecx j q t bound (ground arith),
    )
