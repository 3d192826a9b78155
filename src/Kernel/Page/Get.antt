-- ===== src/Kernel/Page/Get.antt =====
-- kernel/mem/page.c: page_set against page_get.
use mathlib.Core.Path.{subst}
use rhombus.Prelude.{
  ℕ, ◌+◌, ◌/◌, ◌≡◌, ◌<◌, ◌⊎◌, refl, ap, ◌∙◌, true, false, none, some, ◌==◌, if◌then◌else◌,
  Bool-cases, Option-cases, inl, inr, arith,
}
use rhombus.Kernel.Frame.{Frames, page_size, frame_new}
use rhombus.Kernel.Page.{
  Space, cmap_start, map_segment, dir, segment_size, is_present, page_get, touched, page_touch,
  write, page_set,
}
use rhombus.Kernel.Page.Touch.{
  page_touch_here, page_touch_new, get_present, get_same, page_touch-get,
}

write-other :
    (s : Space) (page value i : ℕ)
    → (i == page / page_size) ≡ false
    → (write s page value).table i ≡ s.table i
write-other s page value i e = rw e refl

write-here :
    (s : Space) (page value i : ℕ)
    → (i == page / page_size) ≡ true
    → (write s page value).table i ≡ value
write-here s page value i e = rw e refl

write-get :
    (s : Space) (page value q : ℕ)
    → page / segment_size < map_segment
    → is_present (dir s (page / segment_size)) ≡ true
    → page_get (write s page value) q
      ≡ (if q / page_size == page / page_size then value else page_get s q)
write-get s page value q l h =
    let entry : dir (write s page value) (q / segment_size) ≡ dir s (q / segment_size) =
      write-other s page value (cmap_start + q / segment_size) (ground arith) in
    elim (Bool-cases (q / page_size == page / page_size)) [
      | inl hit ↦
          let same : page / segment_size ≡ q / segment_size = ground arith in
          let here = ap is_present entry ∙ subst (λ i. is_present (dir s i) ≡ true) same h in
          get_present (write s page value) q here
          ∙ write-here s page value (q / page_size) hit
          ∙ rw hit refl
      | inr miss ↦
          get_same s (write s page value) q entry (write-other s page value (q / page_size) miss)
          ∙ rw miss refl
    ]

page_set_step :
    (s : Space) (page value : ℕ)
    → page_set s page value
      ≡ (elim (page_touch s page) [ none ↦ none | some s' ↦ some (write s' page value) ])
unfolding page_set
page_set_step s page value = refl

page_set-written :
    (s s' : Space) (page value : ℕ)
    → page_set s page value ≡ some s'
    → (t : Space) × (page_touch s page ≡ some t) × (write t page value ≡ s')
page_set-written s s' page value h = elim (Option-cases (page_touch s page)) [
  | inl out ↦ let e : page_set s page value ≡ none = rw (page_set_step s page value, out) refl in cc
  | inr (t, touch) ↦
      let e : page_set s page value ≡ some (write t page value) =
        rw (page_set_step s page value, touch) refl in
      (t, touch, cc)
]

-- If page_set of a page below PGE_MAP succeeds, page_get of the page has the value that was set, and any
-- other page has the value it had: a page table that is added on the way is empty, and only pages from
-- PGE_MAP on show its entry.
pub page_get-set :
    (s s' : Space) (page value q : ℕ)
    → page / segment_size < map_segment
    → (is_present (dir s (page / segment_size)) ≡ true) ⊎ (q / segment_size < map_segment)
    → page_set s page value ≡ some s'
    → page_get s' q ≡ (if q / page_size == page / page_size then value else page_get s q)
page_get-set s s' page value q l k h =
    let (t, touch, e) = page_set-written s s' page value h in
    let (same, here) = page_touch-get s t page q l k touch in
    subst (λ u. page_get u q ≡ (if q / page_size == page / page_size then value else page_get s q))
      e
      (write-get t page value q l here
        ∙ ap (λ v. if q / page_size == page / page_size then value else v) same)

page_set-here :
    (s : Space) (page value : ℕ)
    → is_present (dir s (page / segment_size)) ≡ true
    → (s' : Space) × (page_set s page value ≡ some s') × (s'.frames ≡ s.frames)
page_set-here s page value here =
    (write s page value, rw (page_set_step s page value, page_touch_here s page here) refl, refl)

-- A page that is present has a page table.
pub present-dir :
    (s : Space) (page : ℕ)
    → is_present (page_get s page) ≡ true
    → is_present (dir s (page / segment_size)) ≡ true
unfolding page_get
present-dir s page h = elim (Bool-cases (is_present (dir s (page / segment_size)))) [
  | inl here ↦ here
  | inr absent ↦ absurd (
      let e : page_get s page ≡ 0 = rw absent refl in
      let p = subst (λ v. is_present v ≡ true) e h in cc)
]

-- A page that is present can be set, and no frame is needed for it.
pub page_set-present :
    (s : Space) (page value : ℕ)
    → is_present (page_get s page) ≡ true
    → (s' : Space) × (page_set s page value ≡ some s') × (s'.frames ≡ s.frames)
page_set-present s page value h = page_set-here s page value (present-dir s page h)

-- It succeeds where the page table exists or frame_new gives a frame for it.
page_set-total :
    (s : Space) (page value : ℕ)
    → (is_present (dir s (page / segment_size)) ≡ true)
      ⊎ ((r : ℕ × Frames) × (frame_new s.frames ≡ some r))
    → (s' : Space) × (page_set s page value ≡ some s')
page_set-total s page value (inl here) = let (s', e, f) = page_set-here s page value here in (s', e)
page_set-total s page value (inr (r, new)) =
    elim (Bool-cases (is_present (dir s (page / segment_size)))) [
      | inl here ↦ let (s', e, f) = page_set-here s page value here in (s', e)
      | inr absent ↦
          let t = touched s page r.0 r.1 in
          let touch : page_touch s page ≡ some t = rw (page_touch_new s page absent, new) refl in
          (write t page value, rw (page_set_step s page value, touch) refl)
    ]

-- Addresses of the same page have the same entry.
pub page_get-same :
    (s : Space) (q i : ℕ) → q / page_size ≡ i / page_size → page_get s q ≡ page_get s i
unfolding page_get
page_get-same s q i h = let e : q / segment_size ≡ i / segment_size = omega arith in rw (h, e) refl

-- The frame allocator has no part in what the entries are.
pub page_get-frames :
    (s : Space) (m : Frames) (q : ℕ) → page_get (record s { frames = m }) q ≡ page_get s q
unfolding page_get
page_get-frames s m q = refl

-- page_set of a page below PGE_MAP, from where on the page tables themselves are mapped, succeeds where its
-- page table exists or frame_new gives a frame for one. After it, page_get of the page has the value that
-- was set, and any other page below PGE_MAP has the value it had: a page table that is added on the
-- way is empty.
pub page_set_lem :
    (s : Space) (page value : ℕ)
    → page / segment_size < map_segment
    → (is_present (dir s (page / segment_size)) ≡ true)
      ⊎ ((r : ℕ × Frames) × (frame_new s.frames ≡ some r))
    → (q : ℕ) → q / segment_size < map_segment
    → (s' : Space) × (page_set s page value ≡ some s')
      × (page_get s' q ≡ (if q / page_size == page / page_size then value else page_get s q))
page_set_lem s page value l h q k =
    let (s', e) = page_set-total s page value h in
    (s', e, page_get-set s s' page value q l (inr k) e)
