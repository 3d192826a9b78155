-- ===== src/Kernel/Syscall/Page/Kernel.antt =====
-- The bodies of the loops of syscall_page leave the kernel's pages alone, kernel/syscall/syscall_page.c.
use rhombus.Prelude.{
  ℕ, ◌+◌, ◌*◌, ◌/◌, ◌%◌, ◌^◌, ◌≤◌, ◌<◌, ◌≡◌, inl, inr, refl, sym, ap, ◌∙◌, Bool, true, false, not,
  ◌&&◌, Option, none, some, ◌==◌, arith, if◌then◌else◌, Bool-cases,
}
use rhombus.Kernel.Frame.{Frames, page_size, frame_new, frame_ref}
use rhombus.Kernel.Page.{
  Space, segment_size, map_segment, is_present, is_locked, page_fmt, page_get, page_set,
}
use rhombus.Kernel.Page.Get.{page_get-set, page_get-frames}
use rhombus.Kernel.Syscall.Page.{
  kernel_space, freed, unmapped, referred, null_page, anon_page, prot_page, phys_page, self_page,
}

-- The entries of the kernel's pages, but for those that show the page tables, are the same.
unfoldable pub Keeps : Space → Space → Type 0
Keeps s s' =
    (q : ℕ) → kernel_space ≤ q → q / segment_size < map_segment → page_get s' q ≡ page_get s q

-- What returns, keeps them.
abbrev pub Returns : Space → Option Space → Type 0
Returns s o = (s' : Space) → o ≡ some s' → Keeps s s'

pub Keeps-Keeps : (s t u : Space) → Keeps s t → Keeps t u → Keeps s u
unfolding Keeps
Keeps-Keeps s t u h k = λ q a b. k q a b ∙ h q a b

pub frames-Keeps : (s : Space) (m : Frames) → Keeps s (record s { frames = m })
unfolding Keeps
frames-Keeps s m = λ q a b. page_get-frames s m q

pub same-Keeps : (s s' : Space) → some s ≡ some s' → Keeps s s'
unfolding Keeps
same-Keeps s s' e =
    let same : s ≡ s' = ap (λ o. elim o [ none ↦ s | some x ↦ x ]) e in
    λ q a b. ap (λ x. page_get x q) (sym same)

-- A page below the kernel is set.
pub set-Keeps : (s : Space) (i value : ℕ) → i < kernel_space → Returns s (page_set s i value)
unfolding Keeps
set-Keeps s i value l = λ s' e q a b.
    let other : (q / page_size == i / page_size) ≡ false = ground arith in
    page_get-set s s' i value q (omega arith) (inr b) e ∙ rw other refl

-- A result that goes on where there is one.
pub then-Returns :
    (s : Space) (o : Option Space) (f : Space → Option Space)
    → Returns s o
    → ((t : Space) → Returns t (f t))
    → Returns s (elim o [ none ↦ none | some t ↦ f t ])
then-Returns s none f h k = λ s' e. absurd (cc)
then-Returns s (some t) f h k = λ s' e. Keeps-Keeps s t s' (h t refl) (k t s' e)

if-Returns :
    (s : Space) (b : Bool) (x y : Option Space)
    → Returns s x
    → Returns s y
    → Returns s (if b then x else y)
if-Returns s true x y h k = h
if-Returns s false x y h k = k

after-Returns :
    (s : Space) (m : Frames) (o : Option Space) → Returns (record s { frames = m }) o → Returns s o
after-Returns s m o h =
    λ s' e. Keeps-Keeps s (record s { frames = m }) s' (frames-Keeps s m) (h s' e)

pub unmapped-Keeps : (s : Space) (i : ℕ) → Keeps s (unmapped s i)
unmapped-Keeps s i = elim (Bool-cases (is_present (page_get s i))) [
  | inl here ↦ rw here (frames-Keeps s _)
  | inr absent ↦ rw absent (same-Keeps s s refl)
]

pub null_page-Returns : (i : ℕ) (s : Space) → i < kernel_space → Returns s (null_page i s)
unfolding null_page
null_page-Returns i s l =
    if-Returns s (is_present (page_get s i)) _ _ (after-Returns s _ _ (set-Keeps (freed s i) i 0 l))
      (same-Keeps s)

pub anon_page-Returns : (perm i : ℕ) (s : Space) → i < kernel_space → Returns s (anon_page perm i s)
unfolding anon_page
anon_page-Returns perm i s l =
    if-Returns s (is_present (page_get s i)) _ _ (same-Keeps s) (new (frame_new s.frames))
  where
    new :
        (o : Option (ℕ × Frames))
        → Returns s (elim o [
          | none ↦ none
          | some (frame, m) ↦ page_set (record s { frames = m }) i (page_fmt frame perm)
        ])
    new none = λ s' e. absurd (cc)
    new (some (frame, m)) =
        after-Returns s m _ (set-Keeps (record s { frames = m }) i (page_fmt frame perm) l)

pub prot_page-Returns : (perm i : ℕ) (s : Space) → i < kernel_space → Returns s (prot_page perm i s)
unfolding prot_page
prot_page-Returns perm i s l =
    if-Returns s (is_present (page_get s i) && not (is_locked (page_get s i))) _ _
      (set-Keeps s i (page_fmt (page_get s i) perm) l) (same-Keeps s)

pub phys_page-Returns :
    (address offset perm i : ℕ) (s : Space)
    → (address + i) % 2 ^ 32 < kernel_space
    → Returns s (phys_page address offset perm i s)
unfolding phys_page
phys_page-Returns address offset perm i s l = λ s' e.
    let page = (address + i) % 2 ^ 32 in
    Keeps-Keeps s (unmapped s page) s' (unmapped-Keeps s page)
      (set-Keeps (unmapped s page) page _ l s' e)

referred-Returns :
    (s : Space) (page : ℕ) (o : Option Space) → Returns s o → Returns s (referred page o)
referred-Returns s page none h = λ s' e. absurd (cc)
referred-Returns s page (some t) h = λ s' e. Keeps-Keeps s t s' (h t refl) (
    Keeps-Keeps t (record t { frames = frame_ref t.frames (page_get t page) }) s' (frames-Keeps t _)
      (same-Keeps _ s' e))

pub self_page-Returns :
    (address offset i : ℕ) (s : Space)
    → (address + i * page_size) % 2 ^ 32 < kernel_space
    → Returns s (self_page address offset i s)
unfolding self_page
self_page-Returns address offset i s l =
    let from = (offset + i * page_size) % 2 ^ 32 in
    let to = (address + i * page_size) % 2 ^ 32 in
    let freed_if : Keeps s (if page_get s to == 0 then s else freed s to) =
      elim (Bool-cases (page_get s to == 0)) [
        | inl e ↦ rw e (same-Keeps s s refl)
        | inr e ↦ rw e (frames-Keeps s _)
      ] in
    let s1 = if page_get s to == 0 then s else freed s to in
    if-Returns s (is_present (page_get s from)) _ _
      (referred-Returns s from _ (λ s' e. Keeps-Keeps s s1 s' freed_if (set-Keeps s1 to _ l s' e)))
      (same-Keeps s)
