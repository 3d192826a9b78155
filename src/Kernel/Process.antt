-- ===== src/Kernel/Process.antt =====
-- The process table and the ring of free process numbers, kernel/process/process.c.
-- A `struct process *` is the number of the slot that points to the structure, and `heap_alloc`
-- does not fail here: `process_alloc` does not check it.
pub mod Pids
pub mod Reach
mod Tests
use rhombus.Prelude.{
  ℕ, zero, suc, ◌+◌, ◌%◌, Bool, true, false, Option, none, some, List, [], ◌∷◌, if◌then◌else◌, leb,
  get_or, set,
}
use rhombus.Kernel.Rtab.{Table}

-- `struct process`. Pointers are numbers, null is 0, and `thread` is the array of 256 pointers.
pub record Process : Type 0 where
  pub space : ℕ
  pub rtab : Table
  pub tick : ℕ
  pub pid : ℕ
  pub user : ℕ
  pub rirq : ℕ
  pub name : List ℕ
  pub parent : ℕ
  pub entry : ℕ
  pub thread : List ℕ

-- MAX_TASKS
abbrev pub max_tasks : ℕ
max_tasks = 1024

-- `n` copies of one value, as `memclr` leaves an array.
unfoldable pub filled {ℓ} : {A : Type ℓ} → ℕ → A → List A
filled zero a = []
filled (suc n) a = a ∷ filled n a

-- `memclr` of the structure, and `pid` set.
abbrev pub cleared : ℕ → Process
cleared pid = record {
  space = 0;
  rtab = [];
  tick = 0;
  pid = pid;
  user = 0;
  rirq = 0;
  name = filled 16 0;
  parent = 0;
  entry = 0;
  thread = filled 256 0;
}

-- The static variables of process.c.
pub record State : Type 0 where
  pub table : List (Option Process)
  pub pidlist : List ℕ
  pub setup : Bool
  pub top : ℕ
  pub bot : ℕ

-- The loop that writes `pidlist[i] = i`, from `i` on, for `n` rounds.
pub count_up : ℕ → ℕ → List ℕ
count_up i zero = []
count_up i (suc n) = i ∷ count_up (i + 1) n

-- The first use of the list fills it.
pub prepare : State → State
prepare s = if s.setup then s else record s { pidlist = count_up 0 max_tasks; setup = true }

-- `process_alloc`: the new state and the number of the new process.
pub alloc : State → State × ℕ
unfolding prepare
alloc s =
    let s' = prepare s in
    let pid = get_or s'.pidlist s'.top 0 in
    (
      record s' { top = (s'.top + 1) % max_tasks; table = set s'.table pid (some (cleared pid)) },
      pid,
    )

-- `process_free` of the process in slot `pid`.
pub free : State → ℕ → State
free s pid = record s {
  table = set s.table pid none;
  pidlist = set s.pidlist s.bot pid;
  bot = (s.bot + 1) % max_tasks;
}

-- `process_get`
unfoldable pub get : State → ℕ → Option Process
get s pid = if leb max_tasks pid then none else get_or s.table pid none

-- The static variables before the first call.
pub initial : State
initial = record {
  table = filled max_tasks none;
  pidlist = filled max_tasks 0;
  setup = false;
  top = 0;
  bot = 0;
}
