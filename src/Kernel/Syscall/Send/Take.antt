-- ===== src/Kernel/Syscall/Send/Take.antt =====
-- The packet of syscall_send, kernel/syscall/syscall_send.c: its frames leave the sender.
use mathlib.Core.Path.{subst}
use rhombus.Prelude.{
  ℕ, zero, suc, ◌+◌, ◌*◌, ◌/◌, ◌%◌, ◌^◌, ◌≤◌, ◌<◌, ◌≡◌, refl, ap, ◌∙◌, Bool, true, false, ◌&&◌,
  none, some, inl, List, [], ◌∷◌, arith, ◌==◌, ltb, leb, if◌then◌else◌, length, get_or,
}
use rhombus.Kernel.Frame.{page_size}
use rhombus.Kernel.Page.{Space, segment_size, map_segment, is_present, page_get, page_set}
use rhombus.Kernel.Page.Get.{page_get-set, page_set-present, present-dir}
use rhombus.Kernel.Syscall.Page.{kernel_space}
use rhombus.Kernel.Syscall.Send.{page_at, are_present, take_frames}

-- The `n` entries from the page at `a` on are in the packet, in order, and no longer in the space,
-- which is otherwise the same.
pub record Taken (a n : ℕ) (s : Space) (frames : List ℕ) (s' : Space) : Type 0 where
  pub number : length frames ≡ n
  pub entries : (j : ℕ) → j < n → get_or frames j 0 ≡ page_get s (a + j * page_size)
  pub cleared :
      (q : ℕ) → page_get s' q ≡ (if leb a q && ltb q (a + n * page_size) then 0 else page_get s q)

are_present-same :
    (n i base : ℕ) (s s' : Space)
    → base + (i + n) * page_size ≤ 2 ^ 32
    → ((q : ℕ) → base + i * page_size ≤ q → page_get s' q ≡ page_get s q)
    → are_present n i base s' ≡ are_present n i base s
unfolding are_present
are_present-same zero i base s s' b h = refl
are_present-same (suc n) i base s s' b h =
    let here : page_at base i ≡ base + i * page_size = omega arith in
    let rest = are_present-same n (i + 1) base s s' (omega arith) (λ q l. h q (omega arith)) in
    rw (h (page_at base i) (omega (arith, here)), rest) refl

cleared-next :
    (a n q entry old : ℕ) (next : ℕ)
    → a % page_size ≡ 0
    → next ≡ (if q / page_size == a / page_size then 0 else old)
    → entry ≡ (if leb (a + page_size) q && ltb q (a + page_size + n * page_size) then 0 else next)
    → entry ≡ (if leb a q && ltb q (a + suc n * page_size) then 0 else old)
cleared-next a n q entry old next h k l = ground arith

both_true : (x y : Bool) → (x && y) ≡ true → (x ≡ true) × (y ≡ true)
both_true true y h = (refl, h)
both_true false y h = cc

take_frames_step :
    (n i base : ℕ) (s : Space)
    → take_frames (suc n) i base s ≡ (elim (page_set s (page_at base i) 0) [
      | none ↦ none
      | some s' ↦ elim (take_frames n (i + 1) base s') [
        | none ↦ none
        | some (frames, s'') ↦ some (page_get s (page_at base i) ∷ frames, s'')
      ]
    ])
unfolding take_frames
take_frames_step n i base s = refl

taken_step :
    (n i base : ℕ) (s s1 s' : Space) (frames : List ℕ)
    → page_set s (page_at base i) 0 ≡ some s1
    → take_frames n (i + 1) base s1 ≡ some (frames, s')
    → take_frames (suc n) i base s ≡ some (page_get s (page_at base i) ∷ frames, s')
taken_step n i base s s1 s' frames e run = rw (take_frames_step n i base s, e, run) refl

-- One frame more, taken from the page at `a`.
step-Taken :
    (a n : ℕ) (s s1 s' : Space) (frames : List ℕ)
    → a % page_size ≡ 0
    → ((q : ℕ) → page_get s1 q ≡ (if q / page_size == a / page_size then 0 else page_get s q))
    → Taken (a + page_size) n s1 frames s'
    → Taken a (suc n) s (page_get s a ∷ frames) s'
step-Taken a n s s1 s' frames h entry t = record {
  number = ap suc t.number;
  entries = entries;
  cleared = λ q.
      cleared-next a n q (page_get s' q) (page_get s q) (page_get s1 q) h (entry q) (t.cleared q);
}
  where
    entries :
        (j : ℕ) → j < suc n → get_or (page_get s a ∷ frames) j 0 ≡ page_get s (a + j * page_size)
    entries zero l = ap (page_get s) (omega arith)
    entries (suc j) l =
        let far : a + page_size + j * page_size ≡ a + suc j * page_size = omega arith in
        let other : ((a + suc j * page_size) / page_size == a / page_size) ≡ false = ground arith in
        t.entries j (omega arith)
        ∙ ap (page_get s1) far
        ∙ entry (a + suc j * page_size)
        ∙ rw other refl

other_page :
    (q page : ℕ)
    → page % page_size ≡ 0
    → page + page_size ≤ q
    → (q / page_size == page / page_size) ≡ false
other_page q page a h = ground arith

pub take_frames-Taken :
    (n i base : ℕ) (s : Space)
    → base % page_size ≡ 0
    → base + (i + n) * page_size < kernel_space
    → are_present n i base s ≡ true
    → (frames : List ℕ) × (s' : Space) × (take_frames n i base s ≡ some (frames, s'))
      × Taken (base + i * page_size) n s frames s'
unfolding take_frames are_present
take_frames-Taken zero i base s a b h = (
  [],
  s,
  refl,
  record { number = refl; entries = λ j l. absurd (omega arith); cleared = λ q. ground arith },
)
take_frames-Taken (suc n) i base s a b h =
    let page = page_at base i in
    let here : page ≡ base + i * page_size = omega arith in
    let (now, then_later) =
      both_true (is_present (page_get s page)) (are_present n (i + 1) base s) h in
    let (s1, e, m) = page_set-present s page 0 now in
    let aligned : page % page_size ≡ 0 = omega (arith, here) in
    let low : page / segment_size < map_segment = omega (arith, here) in
    let kept : (q : ℕ) → base + (i + 1) * page_size ≤ q → page_get s1 q ≡ page_get s q = λ q l.
      page_get-set s s1 page 0 q low (inl (present-dir s page now)) e
      ∙ rw (other_page q page aligned (omega (arith, here))) refl in
    let later = are_present-same n (i + 1) base s s1 (omega arith) kept ∙ then_later in
    let (frames, s', run, t) = take_frames-Taken n (i + 1) base s1 a (omega arith) later in
    let next : base + (i + 1) * page_size ≡ page + page_size = omega (arith, here) in
    let t' =
      step-Taken page n s s1 s' frames aligned
        (λ q. page_get-set s s1 page 0 q low (inl (present-dir s page now)) e)
        (subst (λ u. Taken u n s1 frames s') next t) in
    (
      page_get s page ∷ frames,
      s',
      taken_step n i base s s1 s' frames e run,
      subst (λ u. Taken u (suc n) s (page_get s page ∷ frames) s') here t',
    )
