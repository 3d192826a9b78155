-- ===== src/Kernel/Page.antt =====
-- The pages of the current address space, kernel/mem/page.c, with the macros of
-- kernel/inc/space.h. The page tables `ctbl` are one array of words, and the directory `cmap` is a
-- part of it; a call of debug_panic is `none`.
pub mod Touch
pub mod Get
pub mod External
pub mod Tests
use rhombus.Prelude.{ℕ, ◌+◌, ◌*◌, ◌/◌, ◌%◌, ◌^◌, Bool, Option, none, some, ◌==◌, if◌then◌else◌}
use rhombus.Kernel.Frame.{Frames, page_size, frame_new}

-- SEGSZ
abbrev pub segment_size : ℕ
segment_size = 4194304

-- The state of the frame allocator, and `ctbl`.
pub record Space : Type 0 where
  pub frames : Frames
  pub table : ℕ → ℕ

-- The index in `ctbl` at which `cmap` begins: 0x3FF000 / sizeof(frame_t).
abbrev pub cmap_start : ℕ
cmap_start = 0xFFC00

-- `cmap[i]`
abbrev pub dir : Space → ℕ → ℕ
dir s i = s.table (cmap_start + i)

-- The last segment, from PGE_MAP on, in which `ctbl` itself is mapped: a page below it has its entry
-- outside of `cmap`.
abbrev pub map_segment : ℕ
map_segment = 1023

-- `entry & PF_PRES`
abbrev pub is_present : ℕ → Bool
is_present entry = entry % 2 == 1

-- `entry & PF_LOCK`
abbrev pub is_locked : ℕ → Bool
is_locked entry = entry / 512 % 2 == 1

-- `flags & PF_MASK`, where PF_MASK is 0xE7F.
abbrev pub masked : ℕ → ℕ
masked flags = flags % 128 + flags / 512 % 8 * 512

-- `page_ufmt`
abbrev pub page_ufmt : ℕ → ℕ
page_ufmt page = page / page_size * page_size

-- `page_fmt`
abbrev pub page_fmt : ℕ → ℕ → ℕ
page_fmt base flags = page_ufmt base + masked flags

-- `frame | PF_PRES | PF_RW | PF_USER`
abbrev pub table_entry : ℕ → ℕ
table_entry frame = frame / 8 * 8 + 7

-- `page_get`
unfoldable pub page_get : Space → ℕ → ℕ
page_get s page = if is_present (dir s (page / segment_size)) then s.table (page / page_size) else 0

-- The new page table of `page_touch`, which is entered into `cmap` and then cleared.
pub touched : Space → ℕ → ℕ → Frames → Space
touched s page frame m = record {
  frames = m;
  table = λ i.
      if i / 1024 == page / segment_size
      then 0
      else if i == cmap_start + page / segment_size
      then table_entry frame
      else s.table i;
}

-- `page_touch`
pub page_touch : Space → ℕ → Option Space
unfolding touched
page_touch s page =
    if is_present (dir s (page / segment_size))
    then some s
    else elim (frame_new s.frames) [ none ↦ none | some (frame, m) ↦ some (touched s page frame m) ]

-- `ctbl[page >> 12] = value`
abbrev pub write : Space → ℕ → ℕ → Space
write s page value = record s { table = λ i. if i == page / page_size then value else s.table i }

-- `page_set`
pub page_set : Space → ℕ → ℕ → Option Space
unfolding page_touch
page_set s page value = elim (page_touch s page) [
  | none ↦ none
  | some s' ↦ some (write s' page value)
]
