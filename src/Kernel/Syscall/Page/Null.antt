-- ===== src/Kernel/Syscall/Page/Null.antt =====
-- PAGE_NULL and PAGE_PROT of syscall_page, kernel/syscall/syscall_page.c.
use rhombus.Prelude.{
  ℕ, suc, ◌+◌, ◌*◌, ◌/◌, ◌%◌, ◌≤◌, ◌<◌, ◌≡◌, refl, ap, ◌∙◌, Bool, true, false, not, ◌&&◌, some, inl,
  inr, ◌==◌, arith, Bool-cases, if◌then◌else◌,
}
use rhombus.Kernel.Frame.{page_size}
use rhombus.Kernel.Page.{Space, is_present, is_locked, page_fmt, page_get, page_set}
use rhombus.Kernel.Page.Get.{
  page_get-set, page_set-present, present-dir, page_get-same, page_get-frames,
}
use rhombus.Kernel.Syscall.Page.{
  kernel_space, Call, State, flags, is_outside, region_end, freed, null_page, prot_page, each,
  syscall_page,
}
use rhombus.Kernel.Syscall.Page.Loop.{Remaps, IsLocal, each-Remaps}

-- A change of one page to `f` of its entry, where the old entry passes a test.
abbrev pub Mapped : (ℕ → Bool) → (ℕ → ℕ) → ℕ → ℕ → Type 0
Mapped test f old new = new ≡ (if test old then f old else old)

-- A set page changes the entries of its own addresses.
page_set-Remaps :
    (test : ℕ → Bool) (f : ℕ → ℕ) (i : ℕ) (s t s' : Space)
    → i % page_size ≡ 0
    → i < kernel_space
    → is_present (page_get t i) ≡ true
    → ((q : ℕ) → page_get t q ≡ page_get s q)
    → test (page_get s i) ≡ true
    → page_set t i (f (page_get s i)) ≡ some s'
    → Remaps (Mapped test f) i (i + page_size) s s'
page_set-Remaps test f i s t s' a l p same h e = record {
  inside = λ q b m.
      let k : q / page_size ≡ i / page_size = omega arith in
      let here : (q / page_size == i / page_size) ≡ true = ground arith in
      let entry = page_get-same s q i k in
      page_get-set t s' i (f (page_get s i)) q (omega arith) (inl (present-dir t i p)) e
      ∙ rw (here, entry, h) refl;
  outside = λ q o.
      let other : (q / page_size == i / page_size) ≡ false = elim o [
        | inl u ↦ ground arith
        | inr u ↦ ground arith
      ] in
      page_get-set t s' i (f (page_get s i)) q (omega arith) (inl (present-dir t i p)) e
      ∙ rw (other, same q) refl;
}

left-Remaps :
    (test : ℕ → Bool) (f : ℕ → ℕ) (i : ℕ) (s : Space)
    → i % page_size ≡ 0
    → test (page_get s i) ≡ false
    → Remaps (Mapped test f) i (i + page_size) s s
left-Remaps test f i s a h = record {
  inside = λ q l m.
      let p : q / page_size ≡ i / page_size = omega arith in
      let entry = page_get-same s q i p in rw (entry, h) refl;
  outside = λ q o. refl;
}

-- A free entry.
abbrev pub nothing : ℕ → ℕ
nothing old = 0

null_page-IsLocal : IsLocal null_page (Mapped is_present nothing)
unfolding null_page
null_page-IsLocal i s a l = elim (Bool-cases (is_present (page_get s i))) [
  | inl here ↦
      let (s', e, m) =
        page_set-present (freed s i) i 0 (ap is_present (page_get-frames s _ i) ∙ here) in
      let held = ap is_present (page_get-frames s _ i) ∙ here in
      (
        s',
        rw here e,
        page_set-Remaps is_present nothing i s (freed s i) s' a l held (λ q. page_get-frames s _ q)
            here e,
      )
  | inr absent ↦ (s, rw absent refl, left-Remaps is_present nothing i s a absent)
]

-- Pages whose permissions can be changed.
abbrev pub is_open : ℕ → Bool
is_open old = is_present old && not (is_locked old)

prot_page-IsLocal :
    (perm : ℕ) → IsLocal (prot_page perm) (Mapped is_open (λ old. page_fmt old perm))
unfolding prot_page
prot_page-IsLocal perm i s a l = elim (Bool-cases (is_open (page_get s i))) [
  | inl here ↦
      let (s', e, m) = page_set-present s i (page_fmt (page_get s i) perm) (ground arith) in
      (
        s',
        rw here e,
        page_set-Remaps is_open (λ old. page_fmt old perm) i s s s' a l (ground arith) (λ q. refl)
            here e,
      )
  | inr shut ↦ (s, rw shut refl, left-Remaps is_open (λ old. page_fmt old perm) i s a shut)
]

-- The end of an accepted region is a page below the kernel, which the fuel reaches.
region_end-bounds :
    (c : Call)
    → c.address % page_size ≡ 0
    → is_outside c.address c.count ≡ false
    → (region_end c % page_size ≡ 0)
      × (region_end c < kernel_space)
      × (region_end c ≤ c.address + c.count * page_size)
region_end-bounds c a b = (omega arith, ground arith, omega arith)

null-step :
    (c : Call) (user : ℕ) (t : State) (s' : Space)
    → c.address % page_size ≡ 0
    → is_outside c.address c.count ≡ false
    → c.source ≡ 0
    → each null_page page_size (suc c.count) c.address (region_end c) t.space ≡ some s'
    → syscall_page c user t ≡ some (0, record t { space = s' })
unfolding syscall_page
null-step c user t s' a b z e =
    let aligned : (c.address % page_size == 0) ≡ true = ground arith in rw (aligned, b, z, e) refl

-- syscall_page of an aligned region below the kernel with source PAGE_NULL returns zero. Then no page
-- of the region is present, entries that were not present are as before, and so is every page
-- outside the region and the packet.
pub syscall_page-null :
    (c : Call) (user : ℕ) (t : State)
    → c.address % page_size ≡ 0
    → is_outside c.address c.count ≡ false
    → c.source ≡ 0
    → (t' : State) × (syscall_page c user t ≡ some (0, t'))
      × Remaps (Mapped is_present nothing) c.address (region_end c) t.space t'.space
      × (t'.packet ≡ t.packet)
syscall_page-null c user t a b z =
    let (p, q, r) = region_end-bounds c a b in
    let (s', e, m) =
      each-Remaps null_page (Mapped is_present nothing) null_page-IsLocal c.count c.address
        (region_end c) t.space a p q r in
    (record t { space = s' }, null-step c user t s' a b z e, m, refl)

prot-step :
    (c : Call) (user : ℕ) (t : State) (s' : Space)
    → c.address % page_size ≡ 0
    → is_outside c.address c.count ≡ false
    → c.source ≡ 5
    → each (prot_page (flags c.perm)) page_size (suc c.count) c.address (region_end c) t.space
      ≡ some s'
    → syscall_page c user t ≡ some (0, record t { space = s' })
unfolding syscall_page
prot-step c user t s' a b z e =
    let aligned : (c.address % page_size == 0) ≡ true = ground arith in rw (aligned, b, z, e) refl

-- syscall_page of an aligned region below the kernel with source PAGE_PROT returns zero. Then every
-- page of the region that was present and not locked has its frame with the requested permissions,
-- any other page and the packet are as before.
pub syscall_page-prot :
    (c : Call) (user : ℕ) (t : State)
    → c.address % page_size ≡ 0
    → is_outside c.address c.count ≡ false
    → c.source ≡ 5
    → (t' : State) × (syscall_page c user t ≡ some (0, t'))
      × Remaps
          (Mapped is_open (λ old. page_fmt old (flags c.perm)))
          c.address
          (region_end c)
          t.space
          t'.space
      × (t'.packet ≡ t.packet)
syscall_page-prot c user t a b z =
    let (p, q, r) = region_end-bounds c a b in
    let perm = flags c.perm in
    let (s', e, m) =
      each-Remaps (prot_page perm) (Mapped is_open (λ old. page_fmt old perm))
        (prot_page-IsLocal perm) c.count c.address (region_end c) t.space a p q r in
    (record t { space = s' }, prot-step c user t s' a b z e, m, refl)
