-- ===== src/Kernel/Thread/Bind.antt =====
-- thread_bind of kernel/thread/thread.c: the slot that a new thread gets.
use mathlib.Core.Path.{subst}
use rhombus.Prelude.{
  ℕ, zero, suc, ◌+◌, ◌*◌, ◌<◌, ◌≡◌, ◌≢◌, refl, sym, none, some, List, [], ◌∷◌, inl, inr, arith,
  ◌==◌, Bool-cases, length, get_or, set,
}
use rhombus.Kernel.Process.{Process}
use rhombus.Kernel.Schedule.{Thread, null}
use rhombus.Kernel.Page.{segment_size}
use rhombus.Kernel.Thread.{Image, stack_space, max_threads, first_gap, thread_bind}

-- Slot `i` is the first without a thread.
pub record IsGap (ts : List Thread) (i : ℕ) : Type 0 where
  pub inside : i < length ts
  pub empty : get_or ts i 1 ≡ null
  pub first : (j : ℕ) → j < i → get_or ts j 1 ≢ null

later-IsGap :
    (t : Thread) (ts : List Thread) (i : ℕ) → t ≢ null → IsGap ts i → IsGap (t ∷ ts) (suc i)
later-IsGap t ts i n g = record {
  inside = let h = g.inside in omega arith;
  empty = g.empty;
  first = λ j h. below_gap j h;
}
  where
    below_gap : (j : ℕ) → j < suc i → get_or (t ∷ ts) j 1 ≢ null
    below_gap zero h = n
    below_gap (suc j) h = g.first j (omega arith)

first_gap-IsGap :
    (ts : List Thread) (i j : ℕ) → first_gap ts i ≡ some j → (k : ℕ) × (j ≡ i + k) × IsGap ts k
unfolding first_gap
first_gap-IsGap [] i j h = cc
first_gap-IsGap (t ∷ ts) i j h = elim (Bool-cases (t == null)) [
  | inl free ↦ (
    0,
    ground arith,
    record { inside = omega arith; empty = ground arith; first = λ j h. absurd (omega arith) },
  )
  | inr taken ↦
      let (k, e, g) = first_gap-IsGap ts (i + 1) j (ground arith) in
      (suc k, omega arith, later-IsGap t ts k (ground arith) g)
]

thread_bind_search :
    (t : Thread) (image : Image) (pid : ℕ) (p : Process)
    → thread_bind t image pid p ≡ (elim (first_gap p.thread 0) [
      | none ↦ (record image { id = max_threads; stack = 0; proc = pid }, p)
      | some i ↦ (
        record image { id = i; stack = stack_space + segment_size * i; proc = pid },
        record p { thread = set p.thread i t },
      )
    ])
unfolding thread_bind
thread_bind_search t image pid p = refl

-- With a free slot, the first one is taken, with the stack segment of its number.
pub thread_bind_lem :
    (t : Thread) (image : Image) (pid : ℕ) (p : Process) (i : ℕ)
    → first_gap p.thread 0 ≡ some i
    → (thread_bind t image pid p ≡ (
      record image { id = i; stack = stack_space + segment_size * i; proc = pid },
      record p { thread = set p.thread i t },
    ))
      × IsGap p.thread i
thread_bind_lem t image pid p i e =
    let (k, j, g) = first_gap-IsGap p.thread 0 i e in
    let same : i ≡ k = omega (arith, j) in
    (rw (thread_bind_search t image pid p, e) refl, subst (IsGap p.thread) (sym same) g)
