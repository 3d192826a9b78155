-- ===== src/Kernel/Page/Touch.antt =====
-- kernel/mem/page.c: page_touch, and what page_get reads after it.
use mathlib.Core.Path.{subst}
use rhombus.Prelude.{
  ℕ, ◌+◌, ◌/◌, ◌≡◌, ◌<◌, ◌⊎◌, refl, sym, ap, ◌∙◌, true, false, none, some, ◌==◌, if◌then◌else◌,
  Bool-cases, Option-cases, inl, inr, arith,
}
use rhombus.Kernel.Frame.{Frames, page_size, frame_new}
use rhombus.Kernel.Page.{
  Space, cmap_start, map_segment, dir, segment_size, is_present, page_get, touched, page_touch,
}

pub page_touch_here :
    (s : Space) (page : ℕ)
    → is_present (dir s (page / segment_size)) ≡ true
    → page_touch s page ≡ some s
unfolding page_touch
page_touch_here s page h = ground arith

pub page_touch_new :
    (s : Space) (page : ℕ)
    → is_present (dir s (page / segment_size)) ≡ false
    → page_touch s page ≡ (elim (frame_new s.frames) [
      | none ↦ none
      | some (frame, m) ↦ some (touched s page frame m)
    ])
unfolding page_touch
page_touch_new s page h =
    ap
      (λ b. if b then some s else (elim (frame_new s.frames) [
        | none ↦ none
        | some (frame, m) ↦ some (touched s page frame m)
      ]))
      h

-- The two ways in which `page_touch` succeeds.
page_touch-cases :
    (s s' : Space) (page : ℕ)
    → page_touch s page ≡ some s'
    → ((is_present (dir s (page / segment_size)) ≡ true) × (s ≡ s'))
      ⊎ ((frame : ℕ) × (m : Frames) × (is_present (dir s (page / segment_size)) ≡ false)
          × (frame_new s.frames ≡ some (frame, m))
          × (touched s page frame m ≡ s'))
page_touch-cases s s' page h = elim (Bool-cases (is_present (dir s (page / segment_size)))) [
  | inl here ↦ inl (here, let e = page_touch_here s page here in cc)
  | inr absent ↦ elim (Option-cases (frame_new s.frames)) [
    | inl out ↦ let e : page_touch s page ≡ none = rw (page_touch_new s page absent, out) refl in cc
    | inr ((frame, m), new) ↦
        let e : page_touch s page ≡ some (touched s page frame m) =
          rw (page_touch_new s page absent, new) refl in
        inr (frame, m, absent, new, cc)
  ]
]

-- A word of `ctbl` that is neither in a new page table nor its entry in `cmap`, and that entry.
touched-table :
    (s : Space) (page frame : ℕ) (m : Frames) (i : ℕ)
    → (i / 1024 == page / segment_size) ≡ false
    → (i == cmap_start + page / segment_size) ≡ false
    → (touched s page frame m).table i ≡ s.table i
unfolding touched
touched-table s page frame m i e f = rw (e, f) refl

touched-cleared :
    (s : Space) (page frame : ℕ) (m : Frames) (i : ℕ)
    → (i / 1024 == page / segment_size) ≡ true
    → (touched s page frame m).table i ≡ 0
unfolding touched
touched-cleared s page frame m i e = rw e refl

touched-dir :
    (s : Space) (page frame : ℕ) (m : Frames)
    → page / segment_size < map_segment
    → is_present (dir (touched s page frame m) (page / segment_size)) ≡ true
unfolding touched
touched-dir s page frame m l =
    let e : ((cmap_start + page / segment_size) / 1024 == page / segment_size) ≡ false =
      ground arith in
    let f : (cmap_start + page / segment_size == cmap_start + page / segment_size) ≡ true =
      ground arith in
    rw (e, f) (ground arith)

pub get_present :
    (s : Space) (q : ℕ)
    → is_present (dir s (q / segment_size)) ≡ true
    → page_get s q ≡ s.table (q / page_size)
unfolding page_get
get_present s q h = rw h refl

get_absent : (s : Space) (q : ℕ) → is_present (dir s (q / segment_size)) ≡ false → page_get s q ≡ 0
unfolding page_get
get_absent s q h = rw h refl

pub get_same :
    (s t : Space) (q : ℕ)
    → dir t (q / segment_size) ≡ dir s (q / segment_size)
    → t.table (q / page_size) ≡ s.table (q / page_size)
    → page_get t q ≡ page_get s q
unfolding page_get
get_same s t q e f = rw (e, f) refl

touched-get :
    (s : Space) (page frame : ℕ) (m : Frames) (q : ℕ)
    → page / segment_size < map_segment
    → q / segment_size < map_segment
    → is_present (dir s (page / segment_size)) ≡ false
    → page_get (touched s page frame m) q ≡ page_get s q
touched-get s page frame m q l k h = elim (Bool-cases (q / segment_size == page / segment_size)) [
  | inl hit ↦
      let same : page / segment_size ≡ q / segment_size = ground arith in
      let here =
        subst (λ i. is_present (dir (touched s page frame m) i) ≡ true) same
          (touched-dir s page frame m l) in
      let absent = subst (λ i. is_present (dir s i) ≡ false) same h in
      get_present (touched s page frame m) q here
      ∙ touched-cleared s page frame m (q / page_size) (ground arith)
      ∙ sym (get_absent s q absent)
  | inr miss ↦
      get_same s (touched s page frame m) q
        (touched-table s page frame m (cmap_start + q / segment_size) (ground arith) (ground arith))
        (touched-table s page frame m (q / page_size) (ground arith) (ground arith))
]

pub page_touch-get :
    (s s' : Space) (page q : ℕ)
    → page / segment_size < map_segment
    → (is_present (dir s (page / segment_size)) ≡ true) ⊎ (q / segment_size < map_segment)
    → page_touch s page ≡ some s'
    → (page_get s' q ≡ page_get s q) × (is_present (dir s' (page / segment_size)) ≡ true)
page_touch-get s s' page q l k h = elim (page_touch-cases s s' page h) [
  | inl (here, e) ↦
      subst (λ t. (page_get t q ≡ page_get s q) × (is_present (dir t (page / segment_size)) ≡ true))
        e (refl, here)
  | inr (frame, m, absent, new, e) ↦
      let low : q / segment_size < map_segment = elim k [
        | inl here ↦ absurd (ground arith)
        | inr low ↦ low
      ] in
      subst (λ t. (page_get t q ≡ page_get s q) × (is_present (dir t (page / segment_size)) ≡ true))
        e (touched-get s page frame m q l low absent, touched-dir s page frame m l)
]
