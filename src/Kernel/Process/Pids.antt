-- ===== src/Kernel/Process/Pids.antt =====
-- `process_alloc` and `process_free` as a queue of free process numbers.
use mathlib.Core.Bool.{or_assoc}
use native.Mathlib.Decide.{dec_lt}
use rhombus.Prelude.{
  ℕ, suc, ◌+◌, ◌%◌, ◌≤◌, ◌<◌, ◌≡◌, refl, sym, ap, ◌∙◌, Bool, true, false, ◌||◌, Option, none, some,
  List, [], ◌∷◌, ◌++◌, inl, inr, arith, ◌==◌, Option-cases, All-append, get_elem?-append,
  get_or_of_get, get_or-set, get_elem?-append_left, All-set, All-get_or, length, get_elem?, get_or,
  set, All, length-set, length-append, get_elem?-set_self, get_elem?-set_ne,
}
use rhombus.Kernel.Process.{Process, State, max_tasks, cleared, alloc, free, get}

abbrev pub member : ℕ → List ℕ → Bool
member x [] = false
member x (y ∷ ys) = (x == y) || member x ys

abbrev pub Distinct : List ℕ → Type 0
Distinct [] = Unit
Distinct (x ∷ xs) = (member x xs ≡ false) × Distinct xs

-- Whether the slot of a process number holds no process.
abbrev pub vacant : List (Option Process) → ℕ → Bool
vacant t p = elim (get_or t p none) [ none ↦ true | some _ ↦ false ]

-- The free process numbers are `q`, in the order in which `process_alloc` takes them: the ring
-- holds them from `top` up to `bot`, and they are the numbers whose slot is empty.
pub record IsFree (s : State) (q : List ℕ) : Type 0 where
  pub started : s.setup ≡ true
  pub ring : length s.pidlist ≡ max_tasks
  pub slots : length s.table ≡ max_tasks
  pub top_in : s.top < max_tasks
  pub bot_at : s.bot ≡ (s.top + length q) % max_tasks
  pub fits : length q ≤ max_tasks
  pub held : (i : ℕ) → i < length q → get_elem? s.pidlist ((s.top + i) % max_tasks) ≡ get_elem? q i
  pub empty_slots : (p : ℕ) → p < max_tasks → vacant s.table p ≡ member p q
  pub distinct : Distinct q
  pub bounded : All (λ p. p < max_tasks) q
  pub entries : All (λ p. p < max_tasks) s.pidlist

member-append : (x : ℕ) (xs ys : List ℕ) → member x (xs ++ ys) ≡ (member x xs || member x ys)
member-append x [] ys = refl
member-append x (y ∷ xs) ys = rw (member-append x xs ys, or_assoc)

Distinct-snoc : (q : List ℕ) (p : ℕ) → Distinct q → member p q ≡ false → Distinct (q ++ (p ∷ []))
Distinct-snoc [] p d h = (refl, tt)
Distinct-snoc (x ∷ q) p d h =
    (ground (arith, member-append x q (p ∷ [])), Distinct-snoc q p d.1 (ground arith))

not-member-set : (x y : ℕ) (q : List ℕ) → member x q ≡ true → member y q ≡ false → (x == y) ≡ false
not-member-set x y [] h k = cc
not-member-set x y (z ∷ q) h k = ground (arith, not-member-set x y q)

-- `process_alloc` once the list is filled.
taken : State → ℕ → State
taken s pid = record s {
  top = (s.top + 1) % max_tasks;
  table = set s.table pid (some (cleared pid));
}

alloc-taken :
    (s : State) (p : ℕ) → s.setup ≡ true → get_or s.pidlist s.top 0 ≡ p → alloc s ≡ (taken s p, p)
unfolding alloc taken
alloc-taken s p e f = rw (e, f)

module _ {s : State} {q : List ℕ} (p : ℕ) (v : IsFree s (p ∷ q)) where
  first_free : get_or s.pidlist s.top 0 ≡ p
  first_free =
      get_or_of_get s.pidlist s.top 0
        (ap (get_elem? s.pidlist) (omega arith) ∙ v.held 0 (omega arith))

  taken-IsFree : IsFree (taken s p) q
  unfolding taken
  taken-IsFree = record {
    started = v.started;
    ring = v.ring;
    slots = length-set s.table p (some (cleared p)) ∙ v.slots;
    top_in = omega arith;
    bot_at = omega arith;
    fits = omega arith;
    held = λ i h. ap (get_elem? s.pidlist) (omega arith) ∙ v.held (suc i) (omega arith);
    empty_slots =
        λ x h. ground (arith, v.empty_slots x, get_or-set s.table p x (some (cleared p)) none);
    distinct = v.distinct.1;
    bounded = v.bounded.1;
    entries = v.entries;
  }

  -- Given a free number, `process_alloc` returns the first, puts a cleared process with that number
  -- into its empty slot, and leaves the other numbers free, in order.
  pub alloc-IsFree :
      ((alloc s).1 ≡ p)
      × (get s p ≡ none)
      × (get (alloc s).0 p ≡ some (cleared p))
      × IsFree (alloc s).0 q
  unfolding get taken
  alloc-IsFree = rw (alloc-taken s p v.started first_free) (
    refl,
    ground (arith, v.empty_slots p),
    ground (arith, v.slots, get_or-set s.table p p (some (cleared p)) none),
    taken-IsFree,
  )

live_slot :
    (s : State) (p : ℕ)
    → IsFree s []
    → p < max_tasks
    → (old : Process) × (get s p ≡ some old) × (get (taken s p) p ≡ some (cleared p))
unfolding get taken
live_slot s p v h = elim (Option-cases (get_or s.table p none)) [
  | inl gone ↦ absurd (ground (arith, v.empty_slots p))
  | inr (old, here) ↦
      (old, ground arith, ground (arith, v.slots, get_or-set s.table p p (some (cleared p)) none))
]

-- With no free number left, `process_alloc` still returns one: that of a live process, whose
-- table slot it overwrites.
pub alloc_exhausted :
    {s : State}
    → IsFree s []
    → (old : Process) × (get s (alloc s).1 ≡ some old)
      × (get (alloc s).0 (alloc s).1 ≡ some (cleared (alloc s).1))
unfolding get
alloc_exhausted {s} v =
    let p = get_or s.pidlist s.top 0 in
    rw (alloc-taken s p v.started refl)
      (live_slot s p v (All-get_or (λ p. p < max_tasks) s.pidlist s.top 0 v.entries (omega arith)))

module _ {s : State} {q : List ℕ} (p : ℕ) (v : IsFree s q) (used : member p q ≡ false)
    (small : p < max_tasks) (room : length q < max_tasks) where
  free-held :
      (i : ℕ)
      → i < length (q ++ (p ∷ []))
      → get_elem? (set s.pidlist s.bot p) ((s.top + i) % max_tasks) ≡ get_elem? (q ++ (p ∷ [])) i
  free-held i h = elim (dec_lt i (length q)) [
    | yes old ↦
        get_elem?-set_ne s.pidlist p (omega (arith, v.bot_at, v.fits))
        ∙ v.held i old
        ∙ sym (get_elem?-append_left q (p ∷ []) i old)
    | no new ↦
        let last : i ≡ length q = omega (arith, length-append q (p ∷ [])) in
        rw (last, get_elem?-append q p [])
          (rw (← v.bot_at) (get_elem?-set_self s.pidlist s.bot p (omega arith)))
  ]

  -- `process_free` of a live process empties its slot and puts its number behind the free ones.
  pub free-IsFree : (get (free s p) p ≡ none) × IsFree (free s p) (q ++ (p ∷ []))
  unfolding free get
  free-IsFree = (
    ground (arith, get_or-set s.table p p none none),
    record {
      started = v.started;
      ring = length-set s.pidlist s.bot p ∙ v.ring;
      slots = length-set s.table p none ∙ v.slots;
      top_in = v.top_in;
      bot_at = omega (arith, length-append q (p ∷ []), v.bot_at);
      fits = omega (arith, length-append q (p ∷ []));
      held = free-held;
      empty_slots = λ x h.
          ground
            (arith, v.empty_slots x, member-append x q (p ∷ []), get_or-set s.table p x none none);
      distinct = Distinct-snoc q p v.distinct used;
      bounded = All-append (λ p. p < max_tasks) q (p ∷ []) v.bounded (small, tt);
      entries = All-set (λ p. p < max_tasks) s.pidlist s.bot p small v.entries;
    },
  )
