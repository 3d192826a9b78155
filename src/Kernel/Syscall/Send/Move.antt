-- ===== src/Kernel/Syscall/Send/Move.antt =====
-- What syscall_send does, kernel/syscall/syscall_send.c.
use mathlib.Core.Path.{subst}
use rhombus.Prelude.{
  ℕ, ◌+◌, ◌*◌, ◌%◌, ◌^◌, ◌<◌, ◌≡◌, ◌≢◌, ◌⊎◌, refl, ◌∙◌, true, false, Option, none, some, List, inl,
  inr, arith, ◌==◌, Option-cases, Bool-cases,
}
use rhombus.Kernel.Frame.{page_size}
use rhombus.Kernel.Process.{Process, get}
use rhombus.Kernel.Schedule.{Thread, null}
use rhombus.Kernel.Schedule.Queued.{waiting, Queued}
use rhombus.Kernel.Page.{Space, is_present, page_get}
use rhombus.Kernel.Thread.{Image, Threads, first_gap, thread_send}
use rhombus.Kernel.Thread.Send.{Delivered, thread_send-Delivered}
use rhombus.Kernel.Syscall.Page.{kernel_space}
use rhombus.Kernel.Syscall.Send.Region.{
  Sendable, accepted-Sendable, Sendable-accepted, all-are_present,
}
use rhombus.Kernel.Syscall.Send.{
  Machine, take_frames, answer, portid, is_refused, send, send_packet, syscall_send,
}
use rhombus.Kernel.Syscall.Send.Take.{Taken, take_frames-Taken}

-- The answer of a call whose target exists.
syscall_send-packet :
    (k : ℕ) (m : Machine) (t new : Thread) (p : Process)
    → (m.threads.image t).esi ≢ 0
    → get m.threads.table (m.threads.image t).esi ≡ some p
    → (m.threads.image t).ecx ≢ 0
    → syscall_send k m t new ≡ send_packet m t (m.threads.image t) new
unfolding syscall_send
syscall_send-packet k m t new p some_target here some_pages =
    let a : ((m.threads.image t).esi == 0) ≡ false = ground arith in
    let b : ((m.threads.image t).ecx == 0) ≡ false = ground arith in rw (a, here, b) refl

send_step :
    (m : Machine) (t : Thread) (target port : ℕ) (msg : Option (List ℕ)) (new : Thread)
    → send m t target port msg new
      ≡ (elim (thread_send (answer m.threads t 0) t target (portid port) msg new) [
        | none ↦ none
        | some (next, s) ↦ some (next, record m { threads = s })
      ])
unfolding send
send_step m t target port msg new = refl

send_packet-moves :
    (m : Machine) (t new : Thread) (image : Image) (frames : List ℕ) (s' : Space) (next : Thread)
    (st : Threads)
    → is_refused image.ebx image.ecx m.space ≡ false
    → take_frames image.ecx 0 image.ebx m.space ≡ some (frames, s')
    → thread_send (answer m.threads t 0) t image.esi (portid image.edx) (some frames) new
      ≡ some (next, st)
    → send_packet m t image new ≡ some (next, record { threads = st; space = s' })
unfolding send_packet
send_packet-moves m t new image frames s' next st a b c =
    rw (a, b, send_step (record m { space = s' }) t image.esi image.edx (some frames) new, c) refl

-- syscall_send of a packet of at most 0x4000 pages from a page boundary on, which are all present and end
-- below the kernel, to a process that exists, has an entry point and a free thread slot: the frames of the
-- region are in the packet in their order, and the region is no longer mapped, while the rest of the space
-- is unchanged; the packet is delivered to the port of the low eight bits of EDX in a new thread, and the
-- sender has zero in EAX.
pub syscall_send-moves :
    (k : ℕ) (m : Machine) (t new : Thread) (p : Process) (xs : List Thread) (i : ℕ)
    → (m.threads.image t).esi ≢ 0
    → get m.threads.table (m.threads.image t).esi ≡ some p
    → (m.threads.image t).ecx ≢ 0
    → Sendable (m.threads.image t).ebx (m.threads.image t).ecx m.space
    → p.entry ≢ 0
    → first_gap p.thread 0 ≡ some i
    → new ≢ null
    → waiting new xs ≡ false
    → Queued m.threads.queue xs
    → (m' : Machine) × (frames : List ℕ) × (syscall_send k m t new ≡ some (new, m'))
      × Taken (m.threads.image t).ebx (m.threads.image t).ecx m.space frames m'.space
      × Delivered
          (answer m.threads t 0)
          t
          (m.threads.image t).esi
          p
          ((m.threads.image t).edx % 2 ^ 8)
          (some frames)
          new
          xs
          m'.threads
syscall_send-moves k m t new p xs i some_target here some_pages good entry gap n out v =
    let image = m.threads.image t in
    let inside : image.ebx + (0 + image.ecx) * page_size < kernel_space =
      omega (arith, good.below) in
    let present = all-are_present image.ecx 0 image.ebx m.space (omega (arith, inside)) (λ j l.
      subst (λ k. is_present (page_get m.space (image.ebx + k * page_size)) ≡ true) (omega arith)
        (good.present j l)) in
    let (frames, s', run, taken) =
      take_frames-Taken image.ecx 0 image.ebx m.space good.aligned inside present in
    let first : image.ebx + 0 * page_size ≡ image.ebx = omega arith in
    let (st, sent, delivered) =
      thread_send-Delivered (answer m.threads t 0) t image.esi p (portid image.edx) (some frames)
        new xs i here entry gap n out v in
    (
      record { threads = st; space = s' },
      frames,
      syscall_send-packet k m t new p some_target here some_pages
          ∙ send_packet-moves m t new image frames s' new st
              (Sendable-accepted image.ebx image.ecx m.space good) run sent,
      subst (λ u. Taken u image.ecx m.space frames s') first taken,
      delivered,
    )

rejects_missing :
    (k : ℕ) (m : Machine) (t new : Thread)
    → (m.threads.image t).esi ≢ 0
    → get m.threads.table (m.threads.image t).esi ≡ none
    → syscall_send k m t new ≡ some (t, record m { threads = answer m.threads t 1 })
unfolding syscall_send
rejects_missing k m t new some_target gone =
    let a : ((m.threads.image t).esi == 0) ≡ false = ground arith in rw (a, gone) refl

rejects_refused :
    (m : Machine) (t new : Thread) (image : Image)
    → is_refused image.ebx image.ecx m.space ≡ true
    → send_packet m t image new ≡ some (t, record m { threads = answer m.threads t 1 })
unfolding send_packet
rejects_refused m t new image bad = rw bad refl

-- syscall_send to a process that does not exist, or of a packet of a nonzero number of pages other than at most
-- 0x4000 from a page boundary on, all present, that end below the kernel, is rejected: EAX of the sender is
-- one, it goes on running, and nothing else has changed.
pub syscall_send-rejects :
    (k : ℕ) (m : Machine) (t new : Thread)
    → (m.threads.image t).esi ≢ 0
    → (get m.threads.table (m.threads.image t).esi ≡ none)
      ⊎ (((m.threads.image t).ecx ≢ 0)
          × (¬ Sendable (m.threads.image t).ebx (m.threads.image t).ecx m.space))
    → syscall_send k m t new ≡ some (t, record m { threads = answer m.threads t 1 })
syscall_send-rejects k m t new some_target (inl gone) = rejects_missing k m t new some_target gone
syscall_send-rejects k m t new some_target (inr (some_pages, bad)) =
    let image = m.threads.image t in
    elim (Option-cases (get m.threads.table image.esi)) [
      | inl gone ↦ rejects_missing k m t new some_target gone
      | inr (p, here) ↦ elim (Bool-cases (is_refused image.ebx image.ecx m.space)) [
        | inl refused ↦
            syscall_send-packet k m t new p some_target here some_pages
            ∙ rejects_refused m t new image refused
        | inr good ↦ absurd (bad (accepted-Sendable image.ebx image.ecx m.space good))
      ]
    ]
