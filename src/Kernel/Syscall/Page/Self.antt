-- ===== src/Kernel/Syscall/Page/Self.antt =====
-- PAGE_SELF of syscall_page, kernel/syscall/syscall_page.c, and the test of its bounds.
use mathlib.Core.Path.{subst}
use rhombus.Prelude.{
  ℕ, suc, ◌+◌, ◌-◌, ◌*◌, ◌/◌, ◌%◌, ◌^◌, ◌≤◌, ◌<◌, ◌≡◌, refl, sym, ap, ◌∙◌, true, false, Option,
  some, inl, List, [], ◌∷◌, get_or, ◌==◌, arith, if◌then◌else◌,
}
use rhombus.Kernel.Frame.{Frame, Chain, Frames, page_size, frame_new, frame_free, frame_ref}
use rhombus.Kernel.Frame.Refs.{addrs, refs, IsFrames, recounted}
use rhombus.Kernel.Frame.Count.{frame_ref_lem}
use rhombus.Kernel.Frame.Free.{Frees, frame_free_lem, frame_ref-free_list}
use rhombus.Kernel.Frame.Alloc.{frame_new_lem}
use rhombus.Kernel.Page.{
  Space, segment_size, map_segment, is_present, page_ufmt, page_get, page_set,
}
use rhombus.Kernel.Page.Get.{page_get-set, page_set-present, present-dir, page_get-frames}
use rhombus.Kernel.Syscall.Page.{
  kernel_space, Call, State, is_outside, freed, self_page, referred, each, done, syscall_page,
}

-- A region whose length does not wrap and that passes the test of the bounds lies below the kernel
-- with every one of its pages.
pub is_outside-below :
    (a count i : ℕ)
    → a + count * page_size < 2 ^ 32
    → is_outside a count ≡ false
    → i < count
    → (a + i * page_size) % 2 ^ 32 + page_size ≤ kernel_space
is_outside-below a count i w h l =
    let u : (a + count * page_size) % 2 ^ 32 < kernel_space = ground arith in omega arith

-- A region of 2^20 pages from any page below the kernel passes the test, since its length in bytes
-- wraps to zero; but one of its pages is the first page of the kernel.
pub is_outside-wraps :
    (a : ℕ)
    → a % page_size ≡ 0
    → a < kernel_space
    → (is_outside a (2 ^ 20) ≡ false)
      × ((i : ℕ) × (i < 2 ^ 20) × ((a + i * page_size) % 2 ^ 32 ≡ kernel_space))
is_outside-wraps a h l = (ground arith, ((kernel_space - a) / page_size, omega arith, omega arith))

-- The entry is still mapped, its frame has no reference, and frame_new gives that frame out next.
pub record Dangles (page entry : ℕ) (s : Space) : Type 0 where
  pub mapped : page_get s page ≡ entry
  pub unheld : refs s.frames (entry / page_size) ≡ 0
  pub given : (m : Frames) × (frame_new s.frames ≡ some (entry / page_size * page_size % 2 ^ 32, m))

-- A free list that begins with a page.
first_free :
    (c : Chain) (a : ℕ) (l : List ℕ)
    → addrs c ≡ a ∷ l
    → (f : Frame) × (rest : Chain) × (c ≡ f ∷ rest) × (f.addr ≡ a)
first_free [] a l e = absurd (cc)
first_free (f ∷ rest) a l e = (f, rest, refl, ap (λ l. get_or l 0 0) e)

-- What frame_new gives of a well-formed state whose free list begins with a page.
frame_new-first :
    (m : Frames) (a : ℕ) (l : List ℕ)
    → IsFrames m
    → m.out_of_memory ≡ false
    → addrs m.free_list ≡ a ∷ l
    → (m' : Frames) × (frame_new m ≡ some (a * page_size % 2 ^ 32, m'))
frame_new-first m a l v o e =
    let (f, rest, list, place) = first_free m.free_list a l e in
    let (m', run, fresh, after, left) = frame_new_lem m {f = f} {rest = rest} v o list in
    (m', subst (λ b. frame_new m ≡ some (b * page_size % 2 ^ 32, m')) place run)

self_page_step :
    (a i page : ℕ) (s s' : Space)
    → (a + i * page_size) % 2 ^ 32 ≡ page
    → is_present (page_get s page) ≡ true
    → page_set (freed s page) page (page_get s page) ≡ some s'
    → self_page a a i s ≡ referred page (some s')
unfolding self_page
self_page_step a i page s s' p h e =
    let some_entry : (page_get s page == 0) ≡ false = ground arith in
    rw
      (
        p,
        h,
        some_entry,
        page_get-frames s (frame_free s.frames (page_ufmt (page_get s page))) page,
        e,
      )
      refl

self_page-Dangles :
    (a i page : ℕ) (s : Space)
    → page / segment_size < map_segment
    → IsFrames s.frames
    → (a + i * page_size) % 2 ^ 32 ≡ page
    → is_present (page_get s page) ≡ true
    → refs s.frames (page_get s page / page_size) ≡ 1
    → (s' : Space) × (self_page a a i s ≡ some s') × Dangles page (page_get s page) s'
self_page-Dangles a i page s low v p h one =
    let entry = page_get s page in
    let m = frame_free s.frames (page_ufmt entry) in
    let (s1, e, f) =
      page_set-present (freed s page) page entry (ap is_present (page_get-frames s m page) ∙ h) in
    let exact : page_ufmt entry / page_size ≡ entry / page_size = omega arith in
    let frees =
      subst (λ u. Frees s.frames u m) exact (frame_free_lem s.frames (page_ufmt entry) v) in
    let less = frees.recounts in
    let last : (refs s.frames (entry / page_size) == 1) ≡ true = ground (arith, one) in
    let (list, memory) = frame_ref-free_list m entry in
    let gone : refs m (entry / page_size) ≡ 0 = omega (arith, recounted less, one) in
    let held = present-dir (freed s page) page (ap is_present (page_get-frames s m page) ∙ h) in
    let given =
      frame_new-first (frame_ref m entry) (entry / page_size) (addrs s.frames.free_list)
        (frame_ref_lem m entry less.frames (omega (arith, gone))).frames
        (memory ∙ frees.memory ∙ rw last refl) (ap addrs list ∙ frees.free ∙ rw last refl) in
    let again = frame_ref_lem m entry less.frames (omega (arith, gone)) in
    let hit : (page / page_size == page / page_size) ≡ true = ground arith in
    let same : page_get s1 page ≡ entry =
      page_get-set (freed s page) s1 page entry page low (inl held) e
      ∙ ap (λ b. if b then entry else page_get (freed s page) page) hit in
    let none_left = recounted again ∙ ap (λ n. if n == 0 then 0 else n + 1) gone in
    let unheld =
      subst (λ n. refs (frame_ref n (page_get s1 page)) (entry / page_size) ≡ 0) (sym f)
        (subst (λ w. refs (frame_ref m w) (entry / page_size) ≡ 0) (sym same) none_left) in
    let gives =
      subst
        (λ n.
          (m' : Frames) × (frame_new (frame_ref n (page_get s1 page))
            ≡ some (entry / page_size * page_size % 2 ^ 32, m')))
        (sym f)
        (subst
          (λ w.
            (m' : Frames) × (frame_new (frame_ref m w)
              ≡ some (entry / page_size * page_size % 2 ^ 32, m')))
          (sym same) given) in
    (
      record s1 { frames = frame_ref s1.frames (page_get s1 page) },
      self_page_step a i page s s1 p h e,
      record { mapped = page_get-frames s1 _ page ∙ same; unheld = unheld; given = gives },
    )

each-once :
    (body : ℕ → Space → Option Space) (s s' : Space)
    → body 0 s ≡ some s'
    → each body 1 (suc 1) 0 1 s ≡ some s'
unfolding each
each-once body s s' e = rw e refl

self-step :
    (c : Call) (user : ℕ) (t : State)
    → c.address % page_size ≡ 0
    → is_outside c.address c.count ≡ false
    → c.source ≡ 4
    → c.offset % page_size ≡ 0
    → is_outside c.offset c.count ≡ false
    → syscall_page c user t
      ≡ done t (each (self_page c.address c.offset) 1 (suc c.count) 0 c.count t.space)
unfolding syscall_page
self-step c user t a b z a' b' =
    let aligned : (c.address % page_size == 0) ≡ true = ground arith in
    let aligned' : (c.offset % page_size == 0) ≡ true = ground arith in
    rw (aligned, b, z, aligned', b') refl

-- syscall_page with source PAGE_SELF that maps one page that is present on itself returns zero, with
-- the page still mapped; but its frame, if it had one reference, has none then, and the next frame_new
-- gives it out.
pub syscall_page-self_frees :
    (c : Call) (user : ℕ) (t : State)
    → c.address % page_size ≡ 0
    → is_outside c.address c.count ≡ false
    → c.source ≡ 4
    → c.offset ≡ c.address
    → c.count ≡ 1
    → IsFrames t.space.frames
    → is_present (page_get t.space c.address) ≡ true
    → refs t.space.frames (page_get t.space c.address / page_size) ≡ 1
    → (t' : State) × (syscall_page c user t ≡ some (0, t'))
      × Dangles c.address (page_get t.space c.address) t'.space
syscall_page-self_frees c user t a b z o n v h one =
    let below : (c.address + 0 * page_size) % 2 ^ 32 ≡ c.address = ground arith in
    let (s', e, d) = self_page-Dangles c.address 0 c.address t.space (ground arith) v below h one in
    let body = self_page c.address c.offset in
    let e' = subst (λ x. self_page c.address x 0 t.space ≡ some s') (sym o) e in
    let run =
      subst (λ k. each body 1 (suc k) 0 k t.space ≡ some s') (sym n)
        (each-once body t.space s' e') in
    (
      record t { space = s' },
      self-step c user t a b z (subst (λ x. x % page_size ≡ 0) (sym o) a)
            (subst (λ x. is_outside x c.count ≡ false) (sym o) b)
          ∙ ap (done t) run,
      d,
    )
