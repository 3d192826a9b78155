-- ===== src/Kernel/Schedule/Tests.antt =====
-- Runs of the scheduling queue, and the theorems at concrete queues.
use rhombus.Prelude.{◌≡◌, refl, some, [], ◌∷◌, arith, ◌==◌, if◌then◌else◌}
use rhombus.Kernel.Schedule.{Queue, remove, freeze, thaw}
use rhombus.Kernel.Schedule.Queued.{Queued}
use rhombus.Kernel.Schedule.Ops.{rounds, rounds-Queued}
use rhombus.Kernel.Schedule.Remove.{remove-Queued}
use rhombus.Kernel.Schedule.Freeze.{thaw-freeze}

-- Threads 10, 20 and 30.
abbrev three : Queue
three = record {
  out = 10;
  into = 30;
  next = λ t. if t == 10 then 20 else if t == 20 then 30 else 0;
  frozen = λ t. 0;
}

abbrev one : Queue
one = record { out = 10; into = 10; next = λ t. 0; frozen = λ t. 0 }

three-Queued : Queued three (10 ∷ 20 ∷ 30 ∷ [])
three-Queued = ground arith

one-Queued : Queued one (10 ∷ [])
one-Queued = ground arith

rounds-Queued_example :
    (q' : Queue) × (rounds 3 three ≡ some (10 ∷ 20 ∷ 30 ∷ [], q')) × Queued q' (10 ∷ 20 ∷ 30 ∷ [])
rounds-Queued_example = rounds-Queued (10 ∷ 20 ∷ 30 ∷ []) [] three-Queued (refl, (refl, (refl, tt)))

remove-Queued_example : (q' : Queue) × (remove 3 three 20 ≡ some q') × Queued q' (10 ∷ 30 ∷ [])
remove-Queued_example = remove-Queued 20 3 10 20 (30 ∷ []) three-Queued (omega arith)

thaw-freeze_example :
    (q' : Queue) × (q'' : Queue) × (freeze 3 three 20 ≡ some q')
    × Queued q' (10 ∷ 30 ∷ [])
    × (thaw q' 20 ≡ some q'')
    × Queued q'' (10 ∷ 30 ∷ 20 ∷ [])
    × (q''.frozen 20 ≡ 0)
thaw-freeze_example = thaw-freeze 20 3 10 20 (30 ∷ []) (omega arith) refl (omega arith) three-Queued
