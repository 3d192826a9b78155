-- ===== src/Kernel/Schedule/Remove.antt =====
-- `schedule_remove` on the queue as a list, and the queue that it breaks.
use mathlib.Core.Path.{subst}
use rhombus.Prelude.{
  ℕ, zero, suc, ◌≤◌, ◌<◌, ◌≡◌, ◌≢◌, refl, sym, ap, ◌∙◌, true, false, none, some, List, [], ◌∷◌, inl,
  inr, arith, ◌==◌, ==_iff, if◌then◌else◌, Bool-cases, length,
}
use rhombus.Kernel.Schedule.{Thread, null, Queue, assign, insert, remove_loop, remove}
use rhombus.Kernel.Schedule.Queued.{waiting, Linked, Queued, Linked-other}
use rhombus.Kernel.Schedule.Erase.{
  erase, before, apart, before_miss, before_hit, waiting-before, waiting-erase, last-erase,
  erase-absent,
}

-- What the loop assigns when it has found `t`.
unlinked : (Thread → Thread) → Thread → Thread → Thread → Thread
unlinked next u t = assign (assign next u (next t)) t null

remove_loop-found :
    (k : ℕ) (q : Queue) (t x : Thread) (xs : List Thread)
    → Linked q.next x (x ∷ xs)
    → waiting t xs ≡ true
    → length xs ≤ k
    → remove_loop k q t x
      ≡ some (record q {
        into = if q.into == t then before t x xs else q.into;
        next = unlinked q.next (before t x xs) t;
      })
unfolding remove_loop unlinked
remove_loop-found k q t x [] h w fuel = cc
remove_loop-found zero q t x (y ∷ xs) h w fuel = absurd (omega arith)
remove_loop-found (suc k) q t x (y ∷ xs) h w fuel =
    let e : q.next x ≡ y = h.3.0 in
    let busy : (y == null) ≡ false = ground (arith, h.3.1) in
    elim (Bool-cases (y == t)) [
      | inl hit ↦ rw (e, busy, hit) refl
      | inr miss ↦
          rw (e, busy, miss)
            (remove_loop-found k q t y xs (refl, h.3.1, h.3.2, h.3.3) (ground arith) (omega arith))
    ]

-- The link past `t`, where that stands right behind `x`.
Linked-skip :
    (next : Thread → Thread) (p t x y : Thread) (xs : List Thread)
    → Linked next p (x ∷ y ∷ xs)
    → (y == t) ≡ true
    → Linked (unlinked next x t) p (x ∷ xs)
unfolding unlinked
Linked-skip next p t x y xs h hit =
    let next' = unlinked next x t in
    let same : next' x ≡ next y = ground (arith, h.2, ap next ((==_iff y t).0 hit)) in
    (
      h.0,
      h.1,
      ground (arith, h.2),
      subst (λ u. Linked next' u xs) (sym same)
          (Linked-other next next' (next y) xs
            (λ u w. ground (arith, apart u x xs w, apart u y xs w h.3.2, h.2)) h.3.3),
    )

Linked-erase :
    (next : Thread → Thread) (p t x : Thread) (xs : List Thread)
    → Linked next p (x ∷ xs)
    → waiting t xs ≡ true
    → Linked (unlinked next (before t x xs) t) p (x ∷ erase t xs)
unfolding unlinked
Linked-erase next p t x [] h w = cc
Linked-erase next p t x (y ∷ xs) h w = elim (Bool-cases (y == t)) [
  | inl hit ↦
      subst (λ u. Linked (unlinked next u t) p (x ∷ erase t (y ∷ xs)))
        (sym (before_hit t x y xs hit)) (rw hit (Linked-skip next p t x y xs h hit))
  | inr miss ↦
      let next' = unlinked next (before t y xs) t in
      let same : next' x ≡ next x = ground (
        arith,
        apart (before t y xs) x (y ∷ xs) (waiting-before t y xs) h.2,
        apart t x (y ∷ xs) w h.2,
      ) in
      subst (λ u. Linked (unlinked next u t) p (x ∷ erase t (y ∷ xs)))
        (sym (before_miss t x y xs miss))
        (rw miss (
          h.0,
          h.1,
          ground (arith, waiting-erase x t xs, h.2),
          subst (λ u. Linked next' u (y ∷ erase t xs)) (sym same)
              (Linked-erase next (next x) t y xs h.3 (ground arith)),
        ))
]

remove_loop-absent :
    (k : ℕ) (q : Queue) (t x : Thread) (xs : List Thread)
    → Linked q.next x (x ∷ xs)
    → waiting t xs ≡ false
    → length xs < k
    → remove_loop k q t x ≡ some q
unfolding remove_loop
remove_loop-absent zero q t x xs h w fuel = absurd (omega arith)
remove_loop-absent (suc k) q t x [] h w fuel = ground (arith, h.3)
remove_loop-absent (suc k) q t x (y ∷ xs) h w fuel =
    let e : q.next x ≡ y = h.3.0 in
    let busy : (y == null) ≡ false = ground (arith, h.3.1) in
    let miss : (y == t) ≡ false = ground arith in
    rw (e, busy, miss)
      (remove_loop-absent k q t y xs (refl, h.3.1, h.3.2, h.3.3) (ground arith) (omega arith))

-- `schedule_remove` of a thread that is not the first goes into the loop.
remove_rest :
    (k : ℕ) (q : Queue) (t x : Thread)
    → q.out ≡ x
    → x ≢ null
    → (x == t) ≡ false
    → remove k q t ≡ remove_loop k q t x
unfolding remove
remove_rest k q t x e ne other = rw e (ground arith)

module _ {q : Queue} (t : Thread) (k : ℕ) where
  remove_first :
      (x y : Thread) (xs : List Thread)
      → (x == t) ≡ true
      → Queued q (x ∷ y ∷ xs)
      → (q' : Queue) × (remove k q t ≡ some q') × Queued q' (y ∷ xs)
  unfolding remove
  remove_first x y xs hit v = (
    record q { out = q.next t },
    ground (arith, v.linked),
    record {
      linked = subst (λ u. Linked q.next u (y ∷ xs)) (ap q.next ((==_iff x t).0 hit)) v.linked.3;
      back = v.back;
    },
  )

  remove_later :
      (x : Thread) (xs : List Thread)
      → (x == t) ≡ false
      → waiting t xs ≡ true
      → length xs ≤ k
      → Queued q (x ∷ xs)
      → (q' : Queue) × (remove k q t ≡ some q') × Queued q' (x ∷ erase t xs)
  remove_later x xs other w fuel v = (
    record q {
      into = if q.into == t then before t x xs else q.into;
      next = unlinked q.next (before t x xs) t;
    },
    remove_rest k q t x v.linked.0 v.linked.1 other
        ∙ remove_loop-found k q t x xs (refl, v.linked.1, v.linked.2, v.linked.3) w fuel,
    record {
      linked = Linked-erase q.next q.out t x xs v.linked w;
      back = rw v.back (sym (last-erase q.next q.out t x xs v.linked w));
    },
  )

  -- `schedule_remove` takes a thread out of a queue that holds another one too, and leaves such a
  -- queue alone if it does not hold the thread. Rounds of the loop for the queue's length suffice.
  pub remove-Queued :
      (x y : Thread) (xs : List Thread)
      → Queued q (x ∷ y ∷ xs)
      → length (x ∷ y ∷ xs) ≤ k
      → (q' : Queue) × (remove k q t ≡ some q') × Queued q' (erase t (x ∷ y ∷ xs))
  remove-Queued x y xs v fuel = elim (Bool-cases (x == t)) [
    | inl hit ↦ rw hit (remove_first x y xs hit v)
    | inr other ↦ elim (Bool-cases (waiting t (y ∷ xs))) [
      | inl there ↦ rw other (remove_later x (y ∷ xs) other there (omega arith) v)
      | inr gone ↦ (
        q,
        remove_rest k q t x v.linked.0 v.linked.1 other
            ∙ remove_loop-absent k q t x (y ∷ xs) (refl, v.linked.1, v.linked.2, v.linked.3) gone
                (omega arith),
        rw (erase-absent t (x ∷ y ∷ xs) (ground arith)) v,
      )
    ]
  ]

  -- `schedule_remove` of the only thread leaves `in` behind: the next `schedule_insert`, of
  -- whatever thread, is taken for an inconsistency and panics.
  pub insert-remove_only :
      Queued q (t ∷ [])
      → (u : Thread) → (q' : Queue) × (remove k q t ≡ some q') × (insert q' u ≡ none)
  unfolding remove insert
  insert-remove_only v u =
      (record q { out = q.next t }, ground (arith, v.linked), ground (arith, v.linked, v.back))
