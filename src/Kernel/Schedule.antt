-- ===== src/Kernel/Schedule.antt =====
-- The scheduling queue, kernel/thread/schedule.c, and `thread_freeze` and `thread_thaw` of
-- kernel/thread/thread.c. Threads are addresses, null is 0, and the fields `next` and `frozen` of
-- all threads are functions of the address. `none` is a call of `debug_panic`, or lost fuel.
pub mod Queued
pub mod Ops
pub mod Erase
pub mod Remove
pub mod Freeze
mod Tests
use rhombus.Prelude.{
  ℕ, zero, suc, ◌+◌, ◌-◌, Bool, true, false, not, ◌&&◌, Option, none, some, List, [], ◌∷◌, ◌==◌,
  if◌then◌else◌,
}

abbrev pub Thread : Type 0
Thread = ℕ

abbrev pub null : Thread
null = 0

-- `schedule_queue`, with `in` named `into`, and the two fields of the threads.
pub record Queue : Type 0 where
  pub out : Thread
  pub into : Thread
  pub next : Thread → Thread
  pub frozen : Thread → ℕ

-- An assignment to one thread's field.
abbrev pub assign : (Thread → ℕ) → Thread → ℕ → Thread → ℕ
assign f t v u = if u == t then v else f u

-- The two cases that `schedule_insert` and `schedule_next` share: `thread` goes to the back.
pub push_back : Queue → Thread → Queue
push_back q t =
    if q.into == null
    then record q { out = t; into = t; next = assign q.next t null }
    else record q { into = t; next = assign (assign q.next q.into t) t null }

-- `schedule_insert`
pub insert : Queue → Thread → Option Queue
unfolding push_back
insert q t = if (q.out == null) && not (q.into == null) then none else some (push_back q t)

-- The loop of `schedule_remove`, with `temp`.
pub remove_loop : ℕ → Queue → Thread → Thread → Option Queue
remove_loop zero q t temp = none
remove_loop (suc k) q t temp =
    let further = remove_loop k q t (q.next temp) in
    if q.next temp == null
    then some q
    else if q.next temp == t
    then some (record q {
      into = if q.into == t then temp else q.into;
      next = assign (assign q.next temp (q.next t)) t null;
    })
    else further

-- `schedule_remove`
pub remove : ℕ → Queue → Thread → Option Queue
unfolding remove_loop
remove k q t =
    if q.out == null
    then none
    else if q.out == t
    then some (record q { out = q.next t })
    else remove_loop k q t q.out

-- The body of the loop of `schedule_next`, for a thread that is not null.
pub turn : Queue → Thread → Queue
unfolding push_back
turn q t =
    push_back (record q { out = q.next t; into = if q.next t == null then null else q.into }) t

-- The loop of `schedule_next`, which does not read `thread` again.
pub next_loop : ℕ → Queue → Thread → Option (Thread × Queue)
unfolding turn
next_loop zero q t = none
next_loop (suc k) q t =
    let again = next_loop k (turn q t) t in
    if t == null then some (null, q) else if q.frozen t == 0 then some (t, turn q t) else again

-- `schedule_next`
pub schedule_next : ℕ → Queue → Option (Thread × Queue)
unfolding next_loop
schedule_next k q = next_loop k q q.out

-- `thread_freeze`
pub freeze : ℕ → Queue → Thread → Option Queue
unfolding remove
freeze k q t =
    let count = λ (r : Queue). record r { frozen = assign r.frozen t (r.frozen t + 1) } in
    if q.frozen t == 0
    then elim (remove k q t) [ none ↦ none | some r ↦ some (count r) ]
    else some (count q)

-- `thread_thaw`
pub thaw : Queue → Thread → Option Queue
unfolding insert
thaw q t =
    let r : Queue =
      if q.frozen t == 0 then q else record q { frozen = assign q.frozen t (q.frozen t - 1) } in
    if r.frozen t == 0 then insert r t else some r
