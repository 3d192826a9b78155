-- ===== src/Kernel/Syscall/Page/Untouched.antt =====
-- syscall_page leaves the kernel's pages alone, kernel/syscall/syscall_page.c.
use rhombus.Prelude.{ℕ, ◌≡◌, Option, some}
use rhombus.Kernel.Syscall.Page.{State}
use rhombus.Kernel.Syscall.Page.Kernel.{Keeps}

-- A call from the state `t` that keeps them, whatever it returns.
abbrev Answers : State → Option (ℕ × State) → Type 0
Answers t o = (eax : ℕ) (t' : State) → o ≡ some (eax, t') → Keeps t.space t'.space
