-- ===== src/Kernel/Process/Reach.antt =====
-- The process table from boot on: every state that `process_alloc` and `process_free` lead to.
use rhombus.Prelude.{
  ℕ, zero, suc, ◌+◌, ◌≤◌, ◌<◌, ◌≡◌, refl, sym, ap, ◌∙◌, true, false, ◌&&◌, not, none, some, List,
  [], ◌∷◌, ◌++◌, inl, inr, arith, ◌==◌, ltb, leb, if◌then◌else◌, Bool-cases, length, get_elem?, All,
}
use rhombus.Kernel.Process.{
  State, Process, max_tasks, filled, count_up, prepare, alloc, free, get, initial,
}
use rhombus.Kernel.Process.Pids.{member, Distinct, vacant, IsFree, alloc-IsFree, free-IsFree}

without : ℕ → List ℕ → List ℕ
without x [] = []
without x (y ∷ ys) = if x == y then without x ys else y ∷ without x ys

member-without : (x y : ℕ) (q : List ℕ) → member y (without x q) ≡ (not (x == y) && member y q)
unfolding without
member-without x y [] = ground arith
member-without x y (z ∷ q) = ground (arith, member-without x y q)

Distinct-without : (x : ℕ) (q : List ℕ) → Distinct q → Distinct (without x q)
unfolding without
Distinct-without x [] d = tt
Distinct-without x (y ∷ q) d = elim (Bool-cases (x == y)) [
  | inl same ↦ rw same (Distinct-without x q d.1)
  | inr other ↦ rw other (ground (arith, member-without x y q), Distinct-without x q d.1)
]

without_absent : (x : ℕ) (q : List ℕ) → member x q ≡ false → length (without x q) ≡ length q
unfolding without
without_absent x [] h = refl
without_absent x (y ∷ q) h = ground (arith, without_absent x q)

length-without : (x : ℕ) (q : List ℕ) → Distinct q → length q ≤ length (without x q) + 1
unfolding without
length-without x [] d = omega arith
length-without x (y ∷ q) d = ground (arith, length-without x q, without_absent x q)

below-without : (n : ℕ) (q : List ℕ) → All (λ p. p < suc n) q → All (λ p. p < n) (without n q)
unfolding without
below-without n [] h = tt
below-without n (y ∷ q) h = elim (Bool-cases (n == y)) [
  | inl same ↦ rw same (below-without n q h.1)
  | inr other ↦ rw other (ground arith, below-without n q h.1)
]

-- Distinct numbers below `n` are at most `n`.
pigeonhole : (n : ℕ) (q : List ℕ) → Distinct q → All (λ p. p < n) q → length q ≤ n
pigeonhole zero [] d h = omega arith
pigeonhole zero (x ∷ q) d h = absurd (omega arith)
pigeonhole (suc n) q d h = omega (
  arith,
  length-without n q d,
  pigeonhole n (without n q) (Distinct-without n q d) (below-without n q h),
)

pub length-count_up : (i n : ℕ) → length (count_up i n) ≡ n
unfolding count_up
length-count_up i zero = refl
length-count_up i (suc n) = ap suc (length-count_up (i + 1) n)

get-count_up : (i n j : ℕ) → j < n → get_elem? (count_up i n) j ≡ some (i + j)
unfolding count_up
get-count_up i zero j h = absurd (omega arith)
get-count_up i (suc n) zero h = ap some (omega arith)
get-count_up i (suc n) (suc j) h = get-count_up (i + 1) n j (omega arith) ∙ ap some (omega arith)

pub member-count_up : (i n x : ℕ) → member x (count_up i n) ≡ (leb i x && ltb x (i + n))
unfolding count_up
member-count_up i zero x = ground arith
member-count_up i (suc n) x = ground (arith, member-count_up (i + 1) n x)

Distinct-count_up : (i n : ℕ) → Distinct (count_up i n)
unfolding count_up
Distinct-count_up i zero = tt
Distinct-count_up i (suc n) =
    (ground (arith, member-count_up (i + 1) n i), Distinct-count_up (i + 1) n)

pub below-count_up : (i n k : ℕ) → i + n ≤ k → All (λ p. p < k) (count_up i n)
unfolding count_up
below-count_up i zero k h = tt
below-count_up i (suc n) k h = (omega arith, below-count_up (i + 1) n k (omega arith))

vacant-filled : (n p : ℕ) → vacant (filled n none) p ≡ true
unfolding filled
vacant-filled zero p = refl
vacant-filled (suc n) zero = refl
vacant-filled (suc n) (suc p) = vacant-filled n p

pub length-filled {ℓ} : {A : Type ℓ} (n : ℕ) (a : A) → length (filled n a) ≡ n
unfolding filled
length-filled zero a = refl
length-filled (suc n) a = ap suc (length-filled n a)

-- When the list is first filled, all process numbers are free.
pub initial-IsFree : IsFree (prepare initial) (count_up 0 max_tasks)
unfolding prepare initial
initial-IsFree = record {
  started = refl;
  ring = length-count_up 0 max_tasks;
  slots = length-filled max_tasks none;
  top_in = omega arith;
  bot_at = omega (arith, length-count_up 0 max_tasks);
  fits = omega (arith, length-count_up 0 max_tasks);
  held = λ i h. ap (get_elem? (count_up 0 max_tasks)) (omega (arith, length-count_up 0 max_tasks));
  empty_slots = λ p h. ground (arith, vacant-filled max_tasks p, member-count_up 0 max_tasks p);
  distinct = Distinct-count_up 0 max_tasks;
  bounded = below-count_up 0 max_tasks max_tasks (omega arith);
  entries = below-count_up 0 max_tasks max_tasks (omega arith);
}

-- A call of the process allocator: a new process while some slot is empty, or the end of a live one.
pub data Step (s u : State) : Type 0 where
  create : (p : ℕ) → p < max_tasks → get s p ≡ none → u ≡ (alloc s).0 → Step s u
  delete : (p : ℕ) (old : Process) → get s p ≡ some old → u ≡ free s p → Step s u

pub data Reach : State → Type 0 where
  boot : Reach (prepare initial)
  next : {s u : State} → Reach s → Step s u → Reach u

create-IsFree :
    {s : State} (q : List ℕ) (p : ℕ)
    → member p q ≡ true
    → IsFree s q
    → (q' : List ℕ) × IsFree (alloc s).0 q'
create-IsFree [] p h v = cc
create-IsFree (x ∷ q) p h v = (q, (alloc-IsFree x v).3)

get_small :
    (s : State) (p : ℕ) (old : Process)
    → get s p ≡ some old
    → (p < max_tasks) × (vacant s.table p ≡ false)
unfolding get
get_small s p old h = ground arith

Step-IsFree : {s u : State} (q : List ℕ) → IsFree s q → Step s u → (q' : List ℕ) × IsFree u q'
unfolding get
Step-IsFree {s} q v (create p small gone e) =
    rw e (create-IsFree q p (ground (arith, v.empty_slots p)) v)
Step-IsFree {s} q v (delete p old here e) =
    let (small, taken) = get_small s p old here in
    let used : member p q ≡ false = sym (v.empty_slots p small) ∙ taken in
    rw e (
      q ++ (p ∷ []),
      (free-IsFree p v used small
          (pigeonhole max_tasks (p ∷ q) (used, v.distinct) (small, v.bounded))).1,
    )

-- From boot on, whatever processes are created while a slot is empty and deleted while they live,
-- the ring holds each number whose slot is empty exactly once, and no number of a live process.
pub Reach-IsFree : {s : State} → Reach s → (q : List ℕ) × IsFree s q
Reach-IsFree boot = (count_up 0 max_tasks, initial-IsFree)
Reach-IsFree (next r st) = let (q, v) = Reach-IsFree r in Step-IsFree q v st
