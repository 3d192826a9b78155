-- ===== src/Kernel/Syscall/Send.antt =====
-- The system call that sends a message, kernel/syscall/syscall_send.c. The loops over the pages of
-- the packet are structural in the number of pages left; the allocations of the message and of the
-- thread succeed, and `new` is the new thread's pointer. `none` is a call of debug_panic.
pub mod Take
pub mod Region
pub mod Move
mod Tests
use rhombus.Prelude.{
  ℕ, zero, suc, ◌+◌, ◌*◌, ◌%◌, ◌^◌, Bool, true, false, not, ◌&&◌, ◌||◌, Option, none, some, List,
  [], ◌∷◌, ◌==◌, ltb, if◌then◌else◌,
}
use rhombus.Kernel.Frame.{page_size}
use rhombus.Kernel.Process.{get}
use rhombus.Kernel.Schedule.{Thread, Queue, schedule_next}
use rhombus.Kernel.Page.{Space, is_present, page_get, page_set}
use rhombus.Kernel.Thread.{Image, Threads, thread_send}
use rhombus.Kernel.Syscall.Page.{is_outside}

-- The threads, and the address space of the running one.
pub record Machine : Type 0 where
  pub threads : Threads
  pub space : Space

-- `base + i * PAGESZ`
abbrev pub page_at : ℕ → ℕ → ℕ
page_at base i = (base + i * page_size) % 2 ^ 32

-- The loop that verifies the region, with `n` pages left.
unfoldable pub are_present : ℕ → ℕ → ℕ → Space → Bool
are_present zero i base s = true
are_present (suc n) i base s =
    let rest = are_present n (i + 1) base s in is_present (page_get s (page_at base i)) && rest

-- The loop that moves frames to the message.
pub take_frames : ℕ → ℕ → ℕ → Space → Option (List ℕ × Space)
take_frames zero i base s = some ([], s)
take_frames (suc n) i base s = elim (page_set s (page_at base i) 0) [
  | none ↦ none
  | some s' ↦ elim (take_frames n (i + 1) base s') [
    | none ↦ none
    | some (frames, s'') ↦ some (page_get s (page_at base i) ∷ frames, s'')
  ]
]

-- `image->eax = value`
abbrev pub answer : Threads → Thread → ℕ → Threads
answer s t value = record s {
  image = λ u. if u == t then record (s.image u) { eax = value } else s.image u;
}

-- The tests of a region that is to be sent.
unfoldable pub is_refused : ℕ → ℕ → Space → Bool
unfolding are_present
is_refused base count s =
    not (base % page_size == 0)
    || is_outside base count
    || ltb 0x4000 count
    || not (are_present count 0 base s)

-- `(portid_t) port`: a port has eight bits.
abbrev pub portid : ℕ → ℕ
portid port = port % 2 ^ 8

-- The end of the call: EAX is zero, and the message goes to `thread_send`.
pub send : Machine → Thread → ℕ → ℕ → Option (List ℕ) → Thread → Option (Thread × Machine)
send m t target port msg new =
    elim (thread_send (answer m.threads t 0) t target (portid port) msg new) [
      | none ↦ none
      | some (next, s) ↦ some (next, record m { threads = s })
    ]

-- The packet of a nonzero number of pages.
pub send_packet : Machine → Thread → Image → Thread → Option (Thread × Machine)
unfolding take_frames send is_refused
send_packet m t image new =
    let moved : Option (Thread × Machine) = elim (take_frames image.ecx 0 image.ebx m.space) [
      | none ↦ none
      | some (frames, s) ↦ send (record m { space = s }) t image.esi image.edx (some frames) new
    ] in
    if is_refused image.ebx image.ecx m.space
    then some (t, record m { threads = answer m.threads t 1 })
    else moved

-- The call with target zero, which gives the processor up; `k` is the fuel of `schedule_next`.
pub relinquish : ℕ → Machine → Thread → Option (Thread × Machine)
relinquish k m t = elim (schedule_next k m.threads.queue) [
  | none ↦ none
  | some (next, q) ↦ some (next, record m { threads = record (answer m.threads t 0) { queue = q } })
]

-- `syscall_send` of the thread `t`.
pub syscall_send : ℕ → Machine → Thread → Thread → Option (Thread × Machine)
unfolding relinquish send_packet send
syscall_send k m t new =
    let image = m.threads.image t in
    let sent : Option (Thread × Machine) = elim (get m.threads.table image.esi) [
      | none ↦ some (t, record m { threads = answer m.threads t 1 })
      | some p ↦
          if image.ecx == 0
          then send m t image.esi image.edx none new
          else send_packet m t image new
    ] in
    if image.esi == 0 then relinquish k m t else sent
