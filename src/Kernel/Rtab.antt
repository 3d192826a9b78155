-- ===== src/Kernel/Rtab.antt =====
-- The resource table of a process, kernel/process/rtab.c: the connections that a process holds
-- open. The table is `proc->rtab[0 .. rtab_count)`, and a slot with `a = 0` is free.
pub mod Live
pub mod Close
pub mod Free
mod Tests
use rhombus.Prelude.{
  ℕ, zero, suc, ◌+◌, Bool, true, false, ◌&&◌, ◌||◌, Option, none, some, List, [], ◌∷◌, ◌++◌, ◌==◌,
  if◌then◌else◌, length, get_elem?, replicate,
}

-- `struct rtab`: the connection from the resource `a` of the process to the resource `b`.
pub record Entry : Type 0 where
  pub a : ℕ
  pub b : ℕ

abbrev pub entry : ℕ → ℕ → Entry
entry a b = record { a = a; b = b }

abbrev pub Table : Type 0
Table = List Entry

-- A free slot.
abbrev pub blank : Entry
blank = entry 0 0

-- A call `thread_sendv(target, source, PORT_CLOSE)`.
pub record Notice : Type 0 where
  pub target : ℕ
  pub source : ℕ

-- `rtab_close`: the table after the call, and the notices that it sent.
pub close : Table → ℕ → ℕ → Table × List Notice
close [] a b = ([], [])
close (e ∷ t) a b =
    let (t', sent) = close t a b in
    if (e.a == a) || (e.b == b)
    then (blank ∷ t, record { target = b; source = a } ∷ [])
    else (e ∷ t', sent)

abbrev pub keep : Entry → Option Table → Option Table
keep e none = none
keep e (some t) = some (e ∷ t)

-- The first loop of `rtab_open`: `none` if it runs off the table.
pub place : Table → ℕ → ℕ → Option Table
place [] a b = none
place (e ∷ t) a b =
    let rest = keep e (place t a b) in
    if (e.a == a) && (e.b == b)
    then some (e ∷ t)
    else if e.a == 0
    then some (entry a b ∷ t)
    else rest

-- The reallocation of `rtab_open`: the old entries, then sixteen free slots.
pub grow : Table → Table
grow t = t ++ replicate 16 blank

-- `rtab_open`, which calls itself on the grown table; the fuel bounds these calls.
pub open_fuel : ℕ → Table → ℕ → ℕ → Option Table
unfolding place grow
open_fuel zero t a b = none
open_fuel (suc k) t a b =
    let again = open_fuel k (grow t) a b in elim (place t a b) [ some t' ↦ some t' | none ↦ again ]

-- `rtab_free`: the loop over `i`, which closes by value through the whole table. `none` for an
-- index past the table, which `i < rtab_count` rules out.
pub free_loop : ℕ → ℕ → Table → List Notice
unfolding close
free_loop zero i t = []
free_loop (suc k) i t = elim (get_elem? t i) [
  | none ↦ free_loop k (i + 1) t
  | some e ↦
      let (t', sent) = close t e.a e.b in
      let closed = sent ++ free_loop k (i + 1) t' in
      let skipped = free_loop k (i + 1) t in if e.a == 0 then skipped else closed
]

-- The table is empty afterwards.
pub free : Table → Table × List Notice
unfolding free_loop
free t = ([], free_loop (length t) 0 t)
