-- ===== src/Kernel/Page/External.antt =====
-- The pages of another address space, which is mapped at TMP_MAP: `page_exget`, `page_exset` and
-- `page_extouch` of kernel/mem/page.c. Here `table` is `extbl`, of
-- which `exmap` is the same part as `cmap` of `ctbl`.
use rhombus.Prelude.{
  ℕ, ◌/◌, ◌≡◌, ◌<◌, refl, sym, Bool, not, true, false, Option, none, some, ◌==◌, if◌then◌else◌, inl,
  inr, ap, ◌∙◌, Bool-cases, ◌⊎◌,
}
use rhombus.Kernel.Frame.{Frames, page_size, frame_new}
use rhombus.Kernel.Page.{
  Space, map_segment, dir, segment_size, is_present, touched, page_get, write, page_set,
}
use rhombus.Kernel.Page.Get.{page_set_lem}

-- `page_exget`
pub page_exget : Space → ℕ → ℕ
page_exget s page =
    if not (is_present (dir s (page / segment_size))) then 0 else s.table (page / page_size)

-- `page_extouch`
pub page_extouch : Space → ℕ → Option Space
unfolding touched
page_extouch s page =
    if is_present (dir s (page / segment_size))
    then some s
    else elim (frame_new s.frames) [ none ↦ none | some (frame, m) ↦ some (touched s page frame m) ]

-- `page_exset`, which calls `page_extouch` only for an absent page table.
pub page_exset : Space → ℕ → ℕ → Option Space
unfolding page_extouch
page_exset s page value =
    let made : Option Space = elim (page_extouch s page) [
      | none ↦ none
      | some s' ↦ some (write s' page value)
    ] in
    if not (is_present (dir s (page / segment_size))) then made else some (write s page value)

page_exget-page_get : (s : Space) (page : ℕ) → page_exget s page ≡ page_get s page
unfolding page_exget page_get
page_exget-page_get s page = elim (Bool-cases (is_present (dir s (page / segment_size)))) [
  | inl here ↦ rw here refl
  | inr absent ↦ rw absent refl
]

-- A test before the call, and the same test in it.
tested_twice :
    (b : Bool) (s : Space) (made : Option Space) (page value : ℕ)
    → (if not b
        then (elim (if b then some s else made) [
          | none ↦ none
          | some s' ↦ some (write s' page value)
        ])
        else some (write s page value))
      ≡ (elim (if b then some s else made) [ none ↦ none | some s' ↦ some (write s' page value) ])
tested_twice true s made page value = refl
tested_twice false s made page value = refl

page_exset-page_set : (s : Space) (page value : ℕ) → page_exset s page value ≡ page_set s page value
unfolding page_exset page_set
page_exset-page_set s page value =
    tested_twice (is_present (dir s (page / segment_size))) s
      (elim (frame_new s.frames) [ none ↦ none | some (frame, m) ↦ some (touched s page frame m) ])
      page value

-- page_exset of a page below PGE_MAP succeeds where its page table exists or frame_new gives a frame for one.
-- After it, page_exget of the page has the value that was set, and any other page below PGE_MAP has the value
-- it had.
pub page_exset_lem :
    (s : Space) (page value : ℕ)
    → page / segment_size < map_segment
    → (is_present (dir s (page / segment_size)) ≡ true)
      ⊎ ((r : ℕ × Frames) × (frame_new s.frames ≡ some r))
    → (q : ℕ) → q / segment_size < map_segment
    → (s' : Space) × (page_exset s page value ≡ some s')
      × (page_exget s' q ≡ (if q / page_size == page / page_size then value else page_exget s q))
page_exset_lem s page value l h q k =
    let (s', e, f) = page_set_lem s page value l h q k in
    (
      s',
      page_exset-page_set s page value ∙ e,
      page_exget-page_get s' q
          ∙ f
          ∙ ap (λ v. if q / page_size == page / page_size then value else v)
              (sym (page_exget-page_get s q)),
    )
