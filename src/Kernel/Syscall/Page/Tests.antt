-- ===== src/Kernel/Syscall/Page/Tests.antt =====
-- The theorems on syscall_page at one mapped page.
use mathlib.Core.Path.{subst}
use rhombus.Prelude.{ℕ, ◌+◌, ◌*◌, ◌/◌, ◌%◌, ◌^◌, ◌≤◌, ◌≡◌, refl, sym, ap, some, none, arith}
use rhombus.Kernel.Frame.{page_size}
use rhombus.Kernel.Frame.Refs.{refs, recounted}
use rhombus.Kernel.Frame.Tests.{taken, taken-Recounts}
use rhombus.Kernel.Page.{is_present, page_get}
use rhombus.Kernel.Page.Tests.{mapped, mapped-entry}
use rhombus.Kernel.Syscall.Page.{kernel_space, Call, State, region_end, syscall_page}
use rhombus.Kernel.Syscall.Page.Loop.{Remaps}
use rhombus.Kernel.Syscall.Page.Null.{Mapped, nothing, syscall_page-null}
use rhombus.Kernel.Syscall.Page.Self.{Dangles, is_outside-below, syscall_page-self_frees}

-- A call for the page at 0x100000.
abbrev call : ℕ → Call
call source = record { address = 0x100000; count = 1; perm = 1; source = source; offset = 0x100000 }

abbrev start : State
start = record { space = mapped; packet = none }

syscall_page-null_example :
    (t' : State) × (syscall_page (call 0) 5 start ≡ some (0, t'))
    × Remaps (Mapped is_present nothing) 0x100000 (region_end (call 0)) mapped t'.space
    × (t'.packet ≡ none)
syscall_page-null_example = syscall_page-null (call 0) 5 start refl refl refl

held : refs mapped.frames (page_get mapped 0x100000 / page_size) ≡ 1
held = subst (λ e. refs taken (e / page_size) ≡ 1) (sym mapped-entry) (recounted taken-Recounts)

syscall_page-self_frees_example :
    (t' : State) × (syscall_page (call 4) 5 start ≡ some (0, t'))
    × Dangles 0x100000 (page_get mapped 0x100000) t'.space
syscall_page-self_frees_example =
    syscall_page-self_frees (call 4) 5 start refl refl refl refl refl taken-Recounts.frames
      (ap is_present mapped-entry) held

is_outside-below_example : (0x100000 + 0 * page_size) % 2 ^ 32 + page_size ≤ kernel_space
is_outside-below_example = is_outside-below 0x100000 1 0 (omega arith) refl (omega arith)
