-- ===== src/Kernel/Thread.antt =====
-- Threads and their creation by a message, kernel/thread/thread.c. A `struct thread *` is a number,
-- null is 0; the fields `next` and `frozen` are those of the scheduling queue, and the pointer
-- that `thread_alloc` returns is an argument. `none` is a call of `debug_panic`.
pub mod Bind
pub mod Send
mod Tests
use rhombus.Prelude.{
  ℕ, zero, suc, ◌+◌, ◌*◌, Bool, Option, none, some, List, [], ◌∷◌, length, ◌==◌, if◌then◌else◌, set,
}
use rhombus.Kernel.Process.{Process, State, get}
use rhombus.Kernel.Schedule.{Thread, null, Queue, assign, insert}
use rhombus.Kernel.Page.{segment_size}

-- SSPACE
abbrev pub stack_space : ℕ
stack_space = 0x80000000

-- MAX_THREADS
abbrev pub max_threads : ℕ
max_threads = 256

-- `struct thread`: the registers that are set here, the packet by its frames, and the owner.
pub record Image : Type 0 where
  pub edi : ℕ
  pub esi : ℕ
  pub ebx : ℕ
  pub edx : ℕ
  pub ecx : ℕ
  pub eax : ℕ
  pub eip : ℕ
  pub cs : ℕ
  pub ds : ℕ
  pub ss : ℕ
  pub eflags : ℕ
  pub useresp : ℕ
  pub msg : Option (List ℕ)
  pub user : ℕ
  pub proc : ℕ
  pub stack : ℕ
  pub id : ℕ

-- `thread_alloc`: the memory of `heap_alloc` is clear.
abbrev pub clear : Image
clear = record {
  edi = 0;
  esi = 0;
  ebx = 0;
  edx = 0;
  ecx = 0;
  eax = 0;
  eip = 0;
  cs = 0;
  ds = 0;
  ss = 0;
  eflags = 0;
  useresp = 0;
  msg = none;
  user = 0;
  proc = 0;
  stack = 0;
  id = 0;
}

-- The process table, the threads and the scheduling queue.
pub record Threads : Type 0 where
  pub table : State
  pub image : Thread → Image
  pub queue : Queue

-- The search of `thread_bind` for a slot without a thread, from slot `i` on.
unfoldable pub first_gap : List Thread → ℕ → Option ℕ
first_gap [] i = none
first_gap (t ∷ ts) i = let rest = first_gap ts (i + 1) in if t == null then some i else rest

-- `thread_bind`: the thread, and its process.
pub thread_bind : Thread → Image → ℕ → Process → Image × Process
unfolding first_gap
thread_bind t image pid p = elim (first_gap p.thread 0) [
  | none ↦ (record image { id = max_threads; stack = 0; proc = pid }, p)
  | some i ↦ (
    record image { id = i; stack = stack_space + segment_size * i; proc = pid },
    record p { thread = set p.thread i t },
  )
]

-- `(msg) ? msg->count : 0`
abbrev pub packet_count : Option (List ℕ) → ℕ
packet_count none = 0
packet_count (some frames) = length frames

-- The registers of the new thread of `thread_send`, after `thread_bind`.
abbrev pub started : Image → Process → ℕ → ℕ → ℕ → Option (List ℕ) → Image
started new p source user port msg = record new {
  ds = 0x23;
  cs = 0x1B;
  ss = 0x23;
  eflags = 0;
  useresp = new.stack + segment_size;
  eip = p.entry;
  ebx = 0;
  ecx = packet_count msg;
  edx = port;
  esi = source;
  edi = 0;
  msg = msg;
  user = user;
}

-- `(image) ? image->proc->pid : 0`
abbrev pub source_of : Threads → Thread → ℕ
source_of s image = if image == null then 0 else (s.image image).proc

-- `(!image || p_targ->user) ? p_targ->user : image->user`
abbrev pub user_of : Threads → Thread → Process → ℕ
user_of s image p =
    if image == null then p.user else if p.user == 0 then (s.image image).user else p.user

-- The thread and its process are stored, `queue` being the queue with the new thread.
abbrev pub placed : Threads → ℕ → Thread → Image → Process → Queue → Threads
placed s target new image p queue = record {
  table = record s.table { table = set s.table.table target (some p) };
  image = λ t. if t == new then image else s.image t;
  queue = queue;
}

-- The clear fields of a new thread.
abbrev pub fresh : Queue → Thread → Queue
fresh q t = record q { next = assign q.next t null; frozen = assign q.frozen t 0 }

-- `thread_send` to a process that exists and has an entry point.
pub deliver :
    Threads → Thread → ℕ → Process → ℕ → Option (List ℕ) → Thread → Option (Thread × Threads)
unfolding thread_bind
deliver s image target p port msg new =
    let (bound, p') = thread_bind new clear target p in
    let ready = started bound p (source_of s image) (user_of s image p) port msg in
    elim (insert (fresh s.queue new) new) [
      | none ↦ none
      | some q ↦ some (new, placed s target new ready p' q)
    ]

-- `thread_send`
pub thread_send : Threads → Thread → ℕ → ℕ → Option (List ℕ) → Thread → Option (Thread × Threads)
unfolding deliver
thread_send s image target port msg new = elim (get s.table target) [
  | none ↦ some (image, s)
  | some p ↦
      let sent = deliver s image target p port msg new in
      if p.entry == 0 then some (image, s) else sent
]
