-- ===== src/Kernel/Thread/Send.antt =====
-- thread_send of kernel/thread/thread.c.
use mathlib.Core.Path.{subst}
use rhombus.Prelude.{
  ℕ, ◌+◌, ◌*◌, ◌≡◌, ◌≢◌, refl, ap, true, false, Option, none, some, List, [], ◌∷◌, ◌++◌, inl, inr,
  arith, ◌==◌, if◌then◌else◌, Bool-cases, set,
}
use rhombus.Kernel.Process.{Process, get}
use rhombus.Kernel.Schedule.{Thread, null, Queue, assign, insert}
use rhombus.Kernel.Schedule.Queued.{waiting, Linked-other, Queued}
use rhombus.Kernel.Schedule.Ops.{insert-Queued}
use rhombus.Kernel.Page.{segment_size}
use rhombus.Kernel.Thread.{
  Image, Threads, clear, fresh, placed, stack_space, first_gap, thread_bind, packet_count, started,
  source_of, user_of, deliver, thread_send,
}
use rhombus.Kernel.Thread.Bind.{IsGap, thread_bind_lem}

-- The new thread waits behind the others and starts at the entry point, with the packet, its number
-- of pages, the port and the sender in the registers, on a stack of its own; the others are as
-- they were.
pub record Delivered (s : Threads) (image : Thread) (target : ℕ) (p : Process) (port : ℕ)
    (msg : Option (List ℕ)) (new : Thread) (xs : List Thread) (s' : Threads) : Type 0 where
  pub slot : ℕ
  pub gap : IsGap p.thread slot
  pub queued : Queued s'.queue (xs ++ (new ∷ []))
  pub table : s'.table ≡ record s.table {
    table = set s.table.table target (some (record p { thread = set p.thread slot new }));
  }
  pub entry : ((s'.image new).eip ≡ p.entry) × ((s'.image new).msg ≡ msg)
  pub registers :
      ((s'.image new).ecx ≡ packet_count msg)
      × ((s'.image new).edx ≡ port)
      × ((s'.image new).esi ≡ source_of s image)
  pub credentials : ((s'.image new).user ≡ user_of s image p) × ((s'.image new).proc ≡ target)
  pub stack : (s'.image new).useresp ≡ stack_space + segment_size * slot + segment_size
  pub others : (t : Thread) → t ≢ new → s'.image t ≡ s.image t

-- The links of a thread that does not wait may change.
fresh-Queued :
    (q : Queue) (t : Thread) (xs : List Thread)
    → waiting t xs ≡ false
    → Queued q xs
    → Queued (fresh q t) xs
fresh-Queued q t xs out v = record {
  linked =
      Linked-other q.next (assign q.next t null) q.out xs
        (λ u w. elim (Bool-cases (u == t)) [
          | inl hit ↦
              let e : u ≡ t = ground arith in
              absurd (let c = subst (λ y. waiting y xs ≡ true) e w in cc)
          | inr miss ↦ rw miss refl
        ])
        v.linked;
  back = v.back;
}

deliver_step :
    (s : Threads) (image : Thread) (target : ℕ) (p : Process) (port : ℕ) (msg : Option (List ℕ))
    (new : Thread)
    → deliver s image target p port msg new ≡ (elim (insert (fresh s.queue new) new) [
      | none ↦ none
      | some q ↦ some (
        new,
        placed s target new
            (started
              (thread_bind new clear target p).0
              p
              (source_of s image)
              (user_of s image p)
              port
              msg)
            (thread_bind new clear target p).1
            q,
      )
    ])
unfolding deliver
deliver_step s image target p port msg new = refl

deliver-Delivered :
    (s : Threads) (image : Thread) (target : ℕ) (p : Process) (port : ℕ) (msg : Option (List ℕ))
    (new : Thread) (xs : List Thread) (i : ℕ)
    → first_gap p.thread 0 ≡ some i
    → new ≢ null
    → waiting new xs ≡ false
    → Queued s.queue xs
    → (s' : Threads) × (deliver s image target p port msg new ≡ some (new, s'))
      × Delivered s image target p port msg new xs s'
deliver-Delivered s image target p port msg new xs i e n out v =
    let (run, gap) = thread_bind_lem new clear target p i e in
    let (q, run', w) = insert-Queued new n out (fresh-Queued s.queue new xs out v) in
    let bound = record clear { id = i; stack = stack_space + segment_size * i; proc = target } in
    let ready = started bound p (source_of s image) (user_of s image p) port msg in
    let s' = placed s target new ready (record p { thread = set p.thread i new }) q in
    let mine : (new == new) ≡ true = ground arith in
    let here : s'.image new ≡ ready = rw mine refl in
    (
      s',
      rw (deliver_step s image target p port msg new, run', run) refl,
      record {
        slot = i;
        gap = gap;
        queued = w;
        table = refl;
        entry = (ap (λ (m : Image). m.eip) here, ap (λ (m : Image). m.msg) here);
        registers = (
          ap (λ (m : Image). m.ecx) here,
          ap (λ (m : Image). m.edx) here,
          ap (λ (m : Image). m.esi) here,
        );
        credentials = (ap (λ (m : Image). m.user) here, ap (λ (m : Image). m.proc) here);
        stack = ap (λ (m : Image). m.useresp) here;
        others = λ t ne. let miss : (t == new) ≡ false = ground arith in rw miss refl;
      },
    )

thread_send_lookup :
    (s : Threads) (image : Thread) (target port : ℕ) (msg : Option (List ℕ)) (new : Thread)
    → thread_send s image target port msg new ≡ (elim (get s.table target) [
      | none ↦ some (image, s)
      | some p ↦ if p.entry == 0 then some (image, s) else deliver s image target p port msg new
    ])
unfolding thread_send
thread_send_lookup s image target port msg new = refl

-- thread_send to a process that exists, has an entry point and a free thread slot starts a thread
-- for the message: the new thread waits behind all others, in the first free slot and on the stack
-- segment of that slot, with the packet, the port and the sender in its registers and the user of
-- the process, or of the sender where that is zero; no other thread is changed.
pub thread_send-Delivered :
    (s : Threads) (image : Thread) (target : ℕ) (p : Process) (port : ℕ) (msg : Option (List ℕ))
    (new : Thread) (xs : List Thread) (i : ℕ)
    → get s.table target ≡ some p
    → p.entry ≢ 0
    → first_gap p.thread 0 ≡ some i
    → new ≢ null
    → waiting new xs ≡ false
    → Queued s.queue xs
    → (s' : Threads) × (thread_send s image target port msg new ≡ some (new, s'))
      × Delivered s image target p port msg new xs s'
thread_send-Delivered s image target p port msg new xs i here starts e n out v =
    let (s', run, d) = deliver-Delivered s image target p port msg new xs i e n out v in
    let shut : (p.entry == 0) ≡ false = ground arith in
    (s', rw (thread_send_lookup s image target port msg new, here, shut, run) refl, d)
