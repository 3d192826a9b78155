-- ===== src/Kernel/Schedule/Ops.antt =====
-- `schedule_insert` and `schedule_next` on the queue as a list.
use mathlib.Core.Path.{subst}
use mathlib.Core.List.{append-nil, append_assoc}
use rhombus.Prelude.{
  ℕ, zero, suc, ◌≡◌, ◌≢◌, refl, sym, false, not, ◌&&◌, Option, none, some, List, [], ◌∷◌, ◌++◌, inl,
  inr, arith, ◌==◌, if◌then◌else◌, Bool-cases, All, length,
}
use rhombus.Kernel.Schedule.{
  Thread, null, Queue, assign, push_back, insert, turn, next_loop, schedule_next,
}
use rhombus.Kernel.Schedule.Queued.{waiting, Linked, Queued, Linked-snoc, last-snoc, last-ne-null}

push_back-Queued :
    (q : Queue) (xs : List Thread) (t : Thread)
    → t ≢ null
    → waiting t xs ≡ false
    → Queued q xs
    → Queued (push_back q t) (xs ++ (t ∷ []))
unfolding push_back
push_back-Queued q [] t ne new v = ground (arith, v.back)
push_back-Queued q (x ∷ xs) t ne new v =
    let busy : (q.into == null) ≡ false =
      ground (arith, v.back, last-ne-null q.next q.out x xs v.linked) in
    rw busy (record {
      linked =
          subst (λ u. Linked (assign (assign q.next u t) t null) q.out ((x ∷ xs) ++ (t ∷ [])))
            (sym v.back) (Linked-snoc q.next q.out t x xs ne new v.linked);
      back = sym (last-snoc (x ∷ xs) t);
    })

-- The consistency test of `schedule_insert` passes.
Queued-sound :
    (q : Queue) (xs : List Thread) → Queued q xs → ((q.out == null) && not (q.into == null)) ≡ false
Queued-sound q [] v = ground (arith, v.back)
Queued-sound q (x ∷ xs) v = ground (arith, v.linked)

-- `schedule_insert` of a thread that is not in the queue puts it behind the others, without panic.
pub insert-Queued :
    {q : Queue} {xs : List Thread} (t : Thread)
    → t ≢ null
    → waiting t xs ≡ false
    → Queued q xs
    → (q' : Queue) × (insert q t ≡ some q') × Queued q' (xs ++ (t ∷ []))
unfolding insert
insert-Queued {q} {xs} t ne new v =
    (push_back q t, rw (Queued-sound q xs v), push_back-Queued q xs t ne new v)

-- The queue without its first thread, as the loop of `schedule_next` makes it.
popped : Queue → Thread → Queue
popped q t = record q { out = q.next t; into = if q.next t == null then null else q.into }

popped-Queued :
    (q : Queue) (t : Thread) (xs : List Thread) → Queued q (t ∷ xs) → Queued (popped q t) xs
unfolding popped
popped-Queued q t [] v = ground (arith, v.linked)
popped-Queued q t (y ∷ xs) v = record {
  linked = v.linked.3;
  back = ground (arith, v.linked, v.back);
}

turn-Queued :
    (q : Queue) (t : Thread) (xs : List Thread)
    → Queued q (t ∷ xs)
    → Queued (turn q t) (xs ++ (t ∷ []))
unfolding turn popped
turn-Queued q t xs v =
    push_back-Queued (popped q t) xs t v.linked.1 v.linked.2 (popped-Queued q t xs v)

pub frozen-push_back : (q : Queue) (t : Thread) → (push_back q t).frozen ≡ q.frozen
unfolding push_back
frozen-push_back q t = elim (Bool-cases (q.into == null)) [
  | inl free ↦ rw free
  | inr busy ↦ rw busy
]

frozen-turn : (q : Queue) (t : Thread) → (turn q t).frozen ≡ q.frozen
unfolding turn push_back
frozen-turn q t =
    frozen-push_back (record q { out = q.next t; into = if q.next t == null then null else q.into })
      t

-- `schedule_next` of an empty queue is null and changes nothing. Otherwise it returns the first
-- thread, if that is not frozen, and moves it behind the others; one round of its loop is enough.
pub schedule_next-Queued :
    {q : Queue}
    → (Queued q [] → schedule_next 1 q ≡ some (null, q))
      × ((t : Thread) (xs : List Thread)
          → Queued q (t ∷ xs)
          → q.frozen t ≡ 0
          → (q' : Queue) × (schedule_next 1 q ≡ some (t, q'))
            × Queued q' (xs ++ (t ∷ []))
            × (q'.frozen ≡ q.frozen))
unfolding schedule_next next_loop
schedule_next-Queued {q} = (
  λ v. ground (arith, v.linked),
  λ t xs v awake.
      (turn q t, rw v.linked.0 (ground (arith, v.linked)), turn-Queued q t xs v, frozen-turn q t),
)

-- `n` calls of `schedule_next` one after the other, and the threads that they return.
pub rounds : ℕ → Queue → Option (List Thread × Queue)
unfolding schedule_next
rounds zero q = some ([], q)
rounds (suc n) q = elim (schedule_next 1 q) [
  | none ↦ none
  | some (t, q') ↦ elim (rounds n q') [ none ↦ none | some (ts, r) ↦ some (t ∷ ts, r) ]
]

rounds_step :
    (n : ℕ) (q q' : Queue) (t : Thread) (ts : List Thread) (r : Queue)
    → schedule_next 1 q ≡ some (t, q')
    → rounds n q' ≡ some (ts, r)
    → rounds (suc n) q ≡ some (t ∷ ts, r)
unfolding rounds
rounds_step n q q' t ts r ran rest = rw (ran, rounds) (rw (rest, rounds))

-- Round robin: while no thread is frozen, as many calls as there are threads return each thread
-- once, in queue order, and leave the queue as it was.
pub rounds-Queued :
    {q : Queue} (xs ys : List Thread)
    → Queued q (xs ++ ys)
    → All (λ t. q.frozen t ≡ 0) xs
    → (q' : Queue) × (rounds (length xs) q ≡ some (xs, q')) × Queued q' (ys ++ xs)
unfolding rounds
rounds-Queued {q} [] ys v awake = (q, refl, rw (append-nil ys) v)
rounds-Queued {q} (t ∷ xs) ys v awake =
    let (q', ran, v', same) = schedule_next-Queued.1 t (xs ++ ys) v awake.0 in
    let (r, rest, w) =
      rounds-Queued {q = q'} xs (ys ++ (t ∷ [])) (rw (← append_assoc xs ys (t ∷ [])) v')
        (rw same awake.1) in
    (r, rounds_step (length xs) q q' t xs r ran rest, rw (append_assoc ys (t ∷ []) xs) at w)
