-- ===== src/Kernel/Thread/Tests.antt =====
-- thread_send from the kernel to the first process.
use rhombus.Prelude.{◌≡◌, refl, none, some, [], ◌∷◌, arith}
use rhombus.Kernel.Process.{Process, cleared, filled, get, initial}
use rhombus.Kernel.Schedule.{Queue}
use rhombus.Kernel.Schedule.Queued.{waiting}
use rhombus.Kernel.Thread.{Threads, clear, first_gap, thread_send}
use rhombus.Kernel.Thread.Send.{Delivered, thread_send-Delivered}

-- A process with an entry point.
abbrev server : Process
server = record (cleared 1) { entry = 0x1000 }

abbrev idle : Queue
idle = record { out = 0; into = 0; next = λ t. 0; frozen = λ t. 0 }

abbrev start : Threads
start = record {
  table = record initial { table = none ∷ some server ∷ [] };
  image = λ t. clear;
  queue = idle;
}

thread_send-Delivered_example :
    (s' : Threads) × (thread_send start 0 1 7 none 0x5000 ≡ some (0x5000, s'))
    × Delivered start 0 1 server 7 none 0x5000 [] s'
unfolding get first_gap filled waiting
thread_send-Delivered_example =
    thread_send-Delivered start 0 1 server 7 none 0x5000 [] 0 refl (omega arith) refl (omega arith)
      refl (record { linked = refl; back = refl })
