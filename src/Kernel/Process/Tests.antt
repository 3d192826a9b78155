-- ===== src/Kernel/Process/Tests.antt =====
-- The theorems on process numbers at the state after boot.
use rhombus.Prelude.{ℕ, zero, suc, true, false, ◌<◌, ◌≡◌, refl, some, List, [], ◌∷◌, arith}
use rhombus.Kernel.Process.{State, filled, cleared, count_up, prepare, initial}
use rhombus.Kernel.Process.Pids.{vacant, IsFree}
use rhombus.Kernel.Process.Reach.{
  boot, initial-IsFree, Reach-IsFree, length-count_up, length-filled, below-count_up,
}

booted : State
booted = prepare initial

first : IsFree booted (0 ∷ count_up 1 1023)
unfolding booted count_up
first = initial-IsFree

Reach-IsFree_example : (q : List ℕ) × IsFree (prepare initial) q
Reach-IsFree_example = Reach-IsFree boot

-- A table with all slots taken.
full : State
full = record {
  table = filled 1024 (some (cleared 0));
  pidlist = count_up 0 1024;
  setup = true;
  top = 0;
  bot = 0;
}

taken-filled : (n p : ℕ) → p < n → vacant (filled n (some (cleared 0))) p ≡ false
unfolding filled
taken-filled zero p h = absurd (omega arith)
taken-filled (suc n) zero h = refl
taken-filled (suc n) (suc p) h = taken-filled n p (omega arith)

full-IsFree : IsFree full []
unfolding full
full-IsFree = record {
  started = refl;
  ring = length-count_up 0 1024;
  slots = length-filled 1024 (some (cleared 0));
  top_in = omega arith;
  bot_at = refl;
  fits = omega arith;
  held = λ i h. absurd (omega arith);
  empty_slots = λ p h. taken-filled 1024 p h;
  distinct = tt;
  bounded = tt;
  entries = below-count_up 0 1024 1024 (omega arith);
}
