-- ===== src/Kernel/Syscall/Send/Tests.antt =====
-- syscall_send at a sender with one mapped page.
use mathlib.Core.Path.{subst}
use rhombus.Prelude.{ℕ, ◌+◌, ◌*◌, ◌<◌, ◌≡◌, refl, ap, true, none, some, List, [], ◌∷◌, inr, arith}
use rhombus.Kernel.Process.{Process, cleared, filled, get, initial}
use rhombus.Kernel.Page.{is_present, page_get}
use rhombus.Kernel.Frame.{page_size}
use rhombus.Kernel.Page.Tests.{mapped, mapped-entry}
use rhombus.Kernel.Thread.{clear, first_gap}
use rhombus.Kernel.Thread.Send.{Delivered}
use rhombus.Kernel.Syscall.Send.{Machine, answer, syscall_send}
use rhombus.Kernel.Syscall.Send.Region.{Sendable}
use rhombus.Kernel.Syscall.Send.Take.{Taken}
use rhombus.Kernel.Syscall.Send.Move.{syscall_send-moves, syscall_send-rejects}

abbrev server : Process
server = record (cleared 1) { entry = 0x1000 }

-- The thread 0x4000 of process 2 sends `count` pages from 0x100000 to process 1.
abbrev sender : ℕ → Machine
sender count = record {
  threads = record {
    table = record initial { table = none ∷ some server ∷ [] };
    image = λ t. record clear { esi = 1; edx = 0x107; ecx = count; ebx = 0x100000; proc = 2 };
    queue = record { out = 0; into = 0; next = λ t. 0; frozen = λ t. 0 };
  };
  space = mapped;
}

one_present : (j : ℕ) → j < 1 → is_present (page_get mapped (0x100000 + j * page_size)) ≡ true
one_present j l =
    let place : 0x100000 ≡ 0x100000 + j * page_size = omega arith in
    subst (λ a. is_present (page_get mapped a) ≡ true) place (ap is_present mapped-entry)

accepted : Sendable 0x100000 1 mapped
accepted = record { aligned = refl; below = omega arith; few = omega arith; present = one_present }

syscall_send-moves_example :
    (m' : Machine) × (frames : List ℕ) × (syscall_send 0 (sender 1) 0x4000 0x5000
      ≡ some (0x5000, m'))
    × Taken 0x100000 1 mapped frames m'.space
    × Delivered
        (answer (sender 1).threads 0x4000 0)
        0x4000
        1
        server
        7
        (some frames)
        0x5000
        []
        m'.threads
unfolding get first_gap filled
syscall_send-moves_example =
    syscall_send-moves 0 (sender 1) 0x4000 0x5000 server [] 0 (omega arith) refl (omega arith)
      accepted (omega arith) refl (omega arith) refl (record { linked = refl; back = refl })

refused : ¬ Sendable 0x100000 0x4001 mapped
refused h = let few = h.few in absurd (omega arith)

syscall_send-rejects_example :
    syscall_send 0 (sender 0x4001) 0x4000 0x5000
    ≡ some (0x4000, record (sender 0x4001) { threads = answer (sender 0x4001).threads 0x4000 1 })
syscall_send-rejects_example =
    syscall_send-rejects 0 (sender 0x4001) 0x4000 0x5000 (omega arith) (inr (omega arith, refused))
