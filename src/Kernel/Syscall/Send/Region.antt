-- ===== src/Kernel/Syscall/Send/Region.antt =====
-- The regions that syscall_send takes, kernel/syscall/syscall_send.c.
use rhombus.Prelude.{ℕ, zero, suc, ◌+◌, ◌*◌, ◌%◌, ◌^◌, ◌≤◌, ◌<◌, ◌≡◌, refl, true, false, arith}
use mathlib.Core.Path.{subst}
use rhombus.Kernel.Frame.{page_size}
use rhombus.Kernel.Page.{Space, is_present, page_get}
use rhombus.Kernel.Syscall.Page.{kernel_space}
use rhombus.Kernel.Syscall.Send.{page_at, are_present, is_refused}

-- A region of at most 0x4000 pages, on a page boundary, that ends below the kernel and of which every page
-- is present.
pub record Sendable (base count : ℕ) (s : Space) : Type 0 where
  pub aligned : base % page_size ≡ 0
  pub below : base + count * page_size < kernel_space
  pub few : count ≤ 0x4000
  pub present : (j : ℕ) → j < count → is_present (page_get s (base + j * page_size)) ≡ true

are_present-all :
    (n i base : ℕ) (s : Space)
    → base + (i + n) * page_size < 2 ^ 32
    → are_present n i base s ≡ true
    → (j : ℕ) → j < n
    → is_present (page_get s (base + (i + j) * page_size)) ≡ true
unfolding are_present
are_present-all zero i base s b h j l = absurd (omega arith)
are_present-all (suc n) i base s b h zero l =
    let place : page_at base i ≡ base + (i + 0) * page_size = omega arith in
    subst (λ a. is_present (page_get s a) ≡ true) place (ground arith)
are_present-all (suc n) i base s b h (suc j) l =
    let next : i + 1 + j ≡ i + suc j = omega arith in
    subst (λ k. is_present (page_get s (base + k * page_size)) ≡ true) next
      (are_present-all n (i + 1) base s (omega arith) (ground arith) j (omega arith))

pub all-are_present :
    (n i base : ℕ) (s : Space)
    → base + (i + n) * page_size < 2 ^ 32
    → ((j : ℕ) → j < n → is_present (page_get s (base + (i + j) * page_size)) ≡ true)
    → are_present n i base s ≡ true
unfolding are_present
all-are_present zero i base s b h = refl
all-are_present (suc n) i base s b h =
    let place : base + (i + 0) * page_size ≡ page_at base i = omega arith in
    let here : is_present (page_get s (page_at base i)) ≡ true =
      subst (λ a. is_present (page_get s a) ≡ true) place (h 0 (omega arith)) in
    let rest = all-are_present n (i + 1) base s (omega arith) (λ j l.
      let next : i + suc j ≡ i + 1 + j = omega arith in
      subst (λ k. is_present (page_get s (base + k * page_size)) ≡ true) next
        (h (suc j) (omega arith))) in
    rw (here, rest) refl

-- The tests of the code refuse every other region, and no such one.
pub accepted-Sendable :
    (base count : ℕ) (s : Space) → is_refused base count s ≡ false → Sendable base count s
unfolding is_refused
accepted-Sendable base count s h =
    let few : count ≤ 0x4000 = ground arith in
    let below : base + count * page_size < kernel_space = ground arith in
    record {
      aligned = ground arith;
      below = below;
      few = few;
      present = λ j l.
          subst (λ k. is_present (page_get s (base + k * page_size)) ≡ true) (omega arith)
            (are_present-all count 0 base s (omega arith) (ground arith) j l);
    }

pub Sendable-accepted :
    (base count : ℕ) (s : Space) → Sendable base count s → is_refused base count s ≡ false
unfolding is_refused
Sendable-accepted base count s h =
    let present = all-are_present count 0 base s (omega (arith, h.below)) (λ j l.
      subst (λ k. is_present (page_get s (base + k * page_size)) ≡ true) (omega arith)
        (h.present j l)) in
    ground (arith, h.aligned, h.below, h.few, present)
