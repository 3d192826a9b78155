-- ===== src/Kernel/Schedule/Freeze.antt =====
-- `thread_freeze` and `thread_thaw` of kernel/thread/thread.c on the queue as a list.
use mathlib.Core.Path.{subst}
use rhombus.Prelude.{
  ℕ, zero, suc, ◌+◌, ◌-◌, ◌≤◌, ◌≡◌, ◌≢◌, refl, sym, ap, ◌∙◌, false, not, ◌&&◌, Option, none, some,
  List, [], ◌∷◌, ◌++◌, inl, inr, arith, ◌==◌, ==_iff, Bool-cases, length,
}
use rhombus.Kernel.Schedule.{
  Thread, null, Queue, assign, push_back, insert, remove_loop, remove, freeze, thaw,
}
use rhombus.Kernel.Schedule.Queued.{waiting, Linked, Queued, last-ne-null}
use rhombus.Kernel.Schedule.Ops.{insert-Queued, frozen-push_back}
use rhombus.Kernel.Schedule.Erase.{erase}
use rhombus.Kernel.Schedule.Remove.{remove-Queued}

-- What a run that ends in a queue says of the frozen counts.
KeepsFrozen : Queue → Option Queue → Type 0
KeepsFrozen q none = Unit
KeepsFrozen q (some r) = r.frozen ≡ q.frozen

remove_loop-frozen : (k : ℕ) (q : Queue) (t x : Thread) → KeepsFrozen q (remove_loop k q t x)
unfolding remove_loop KeepsFrozen
remove_loop-frozen zero q t x = tt
remove_loop-frozen (suc k) q t x = elim (Bool-cases (q.next x == null)) [
  | inl end ↦ rw end refl
  | inr more ↦ elim (Bool-cases (q.next x == t)) [
    | inl hit ↦ rw (more, hit) refl
    | inr miss ↦ rw (more, miss) (remove_loop-frozen k q t (q.next x))
  ]
]

remove-frozen : (k : ℕ) (q : Queue) (t : Thread) → KeepsFrozen q (remove k q t)
unfolding remove KeepsFrozen
remove-frozen k q t = elim (Bool-cases (q.out == null)) [
  | inl empty ↦ rw empty tt
  | inr busy ↦ elim (Bool-cases (q.out == t)) [
    | inl hit ↦ rw (busy, hit) refl
    | inr miss ↦ rw (busy, miss) (remove_loop-frozen k q t q.out)
  ]
]

gone-erase :
    (next : Thread → Thread) (p t : Thread) (xs : List Thread)
    → Linked next p xs
    → waiting t (erase t xs) ≡ false
gone-erase next p t [] h = refl
gone-erase next p t (x ∷ xs) h = elim (Bool-cases (x == t)) [
  | inl hit ↦ rw hit (ground (arith, h.2, ap (λ u. waiting u xs) ((==_iff x t).0 hit)))
  | inr miss ↦ rw miss (ground (arith, gone-erase next (next x) t xs h.3))
]

frozen_queue :
    (q : Queue) (xs : List Thread) (f : Thread → ℕ)
    → Queued q xs
    → Queued (record q { frozen = f }) xs
frozen_queue q xs f v = record { linked = v.linked; back = v.back }

insert-frozen : (q : Queue) (t : Thread) → KeepsFrozen q (insert q t)
unfolding insert KeepsFrozen
insert-frozen q t = elim (Bool-cases ((q.out == null) && not (q.into == null))) [
  | inl bad ↦ rw bad tt
  | inr good ↦ rw good (frozen-push_back q t)
]

-- `t` counts one freeze more.
counted : Queue → Thread → Queue
counted r t = record r { frozen = assign r.frozen t (r.frozen t + 1) }

freeze_awake :
    (k : ℕ) (q : Queue) (t : Thread) (r : Queue)
    → q.frozen t ≡ 0
    → remove k q t ≡ some r
    → freeze k q t ≡ some (counted r t)
unfolding freeze counted
freeze_awake k q t r awake removed = rw (awake, removed, freeze)

-- Freezing a thread that runs beside others takes it out of the queue and counts one.
freeze-Queued :
    {q : Queue} (t : Thread) (k : ℕ) (x y : Thread) (xs : List Thread)
    → q.frozen t ≡ 0
    → length (x ∷ y ∷ xs) ≤ k
    → Queued q (x ∷ y ∷ xs)
    → (q' : Queue) × (freeze k q t ≡ some q') × Queued q' (erase t (x ∷ y ∷ xs)) × (q'.frozen t ≡ 1)
unfolding KeepsFrozen counted
freeze-Queued {q} t k x y xs awake fuel v =
    let (r, removed, w) = remove-Queued t k x y xs v fuel in
    let same : r.frozen ≡ q.frozen = subst (KeepsFrozen q) removed (remove-frozen k q t) in
    (
      counted r t,
      freeze_awake k q t r awake removed,
      frozen_queue r (erase t (x ∷ y ∷ xs)) (assign r.frozen t (r.frozen t + 1)) w,
      ground (arith, ap (λ (f : Thread → ℕ). f t) same),
    )

thawed : Queue → Thread → Queue
thawed q t = record q { frozen = assign q.frozen t (q.frozen t - 1) }

thaw_once : (q : Queue) (t : Thread) → q.frozen t ≡ 1 → thaw q t ≡ insert (thawed q t) t
unfolding thaw thawed
thaw_once q t once = ground arith

thaw-Queued :
    {q : Queue} (t : Thread) (ys : List Thread)
    → t ≢ null
    → waiting t ys ≡ false
    → q.frozen t ≡ 1
    → Queued q ys
    → (q' : Queue) × (thaw q t ≡ some q') × Queued q' (ys ++ (t ∷ [])) × (q'.frozen t ≡ 0)
unfolding KeepsFrozen thawed
thaw-Queued {q} t ys ne gone once v =
    let (u, inserted, z) =
      insert-Queued {q = thawed q t} t ne gone
        (frozen_queue q ys (assign q.frozen t (q.frozen t - 1)) v) in
    let same : u.frozen ≡ (thawed q t).frozen =
      subst (KeepsFrozen (thawed q t)) inserted (insert-frozen (thawed q t) t) in
    (u, thaw_once q t once ∙ inserted, z, ground (arith, ap (λ (f : Thread → ℕ). f t) same))

-- Freezing a thread that runs beside others takes it out of the queue, and thawing it once puts it
-- back, behind the others and with a frozen count of zero. Neither call panics.
pub thaw-freeze :
    {q : Queue} (t : Thread) (k : ℕ) (x y : Thread) (xs : List Thread)
    → t ≢ null
    → q.frozen t ≡ 0
    → length (x ∷ y ∷ xs) ≤ k
    → Queued q (x ∷ y ∷ xs)
    → (q' : Queue) × (q'' : Queue) × (freeze k q t ≡ some q')
      × Queued q' (erase t (x ∷ y ∷ xs))
      × (thaw q' t ≡ some q'')
      × Queued q'' (erase t (x ∷ y ∷ xs) ++ (t ∷ []))
      × (q''.frozen t ≡ 0)
thaw-freeze {q} t k x y xs ne awake fuel v =
    let (q', stopped, w, once) = freeze-Queued t k x y xs awake fuel v in
    let (q'', woken, z, zero_again) =
      thaw-Queued t (erase t (x ∷ y ∷ xs)) ne (gone-erase q.next q.out t (x ∷ y ∷ xs) v.linked) once
        w in
    (q', q'', stopped, w, woken, z, zero_again)

-- `thread_thaw` of a thread that is not frozen and stands first in the queue inserts it a second
-- time, and cuts off all threads behind it.
pub thaw_awake :
    {q : Queue} (t y : Thread) (xs : List Thread)
    → q.frozen t ≡ 0
    → Queued q (t ∷ y ∷ xs)
    → (q' : Queue) × (thaw q t ≡ some q') × Queued q' (t ∷ [])
unfolding thaw insert push_back
thaw_awake {q} t y xs awake v =
    let end : q.into ≢ null = λ e. last-ne-null q.next q.out t (y ∷ xs) v.linked (sym v.back ∙ e) in
    (
      record q { into = t; next = assign (assign q.next q.into t) t null },
      ground (arith, v.linked),
      ground (arith, v.linked),
    )
