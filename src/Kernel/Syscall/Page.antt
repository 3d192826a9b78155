-- ===== src/Kernel/Syscall/Page.antt =====
-- The system call that maps pages, kernel/syscall/syscall_page.c. Its `for` loops run on fuel, one
-- more than the page count; a call of debug_panic is `none`.
pub mod Loop
pub mod Null
pub mod Kernel
pub mod Untouched
pub mod Self
mod Tests
use rhombus.Prelude.{
  ℕ, zero, suc, ◌+◌, ◌*◌, ◌/◌, ◌%◌, ◌^◌, Bool, true, false, not, ◌&&◌, ◌||◌, Option, none, some,
  List, [], ◌∷◌, length, ◌==◌, ltb, leb, if◌then◌else◌,
}
use rhombus.Kernel.Frame.{Frames, page_size, frame_new, frame_free, frame_ref}
use rhombus.Kernel.Page.{Space, is_present, is_locked, page_ufmt, page_fmt, page_get, page_set}

-- KSPACE
abbrev pub kernel_space : ℕ
kernel_space = 0xF0000000

-- The registers EBX, ECX, EDX, ESI and EDI.
pub record Call : Type 0 where
  pub address : ℕ
  pub count : ℕ
  pub perm : ℕ
  pub source : ℕ
  pub offset : ℕ

-- The address space and the frames of the thread's packet, `image->msg`.
pub record State : Type 0 where
  pub space : Space
  pub packet : Option (List ℕ)

-- The real page flags of <perm>.
abbrev pub flags : ℕ → ℕ
flags perm =
    5
    + (if perm / 2 % 2 == 1 then 2 else 0)
    + (if perm / 8 % 2 == 1 then 0x200 else 0)
    + (if perm / 16 % 2 == 1 then 0x800 else 0)

-- `frame_free(page_ufmt(page_get(i)))`
abbrev pub freed : Space → ℕ → Space
freed s i = record s { frames = frame_free s.frames (page_ufmt (page_get s i)) }

-- The body of the loop of PAGE_NULL.
pub null_page : ℕ → Space → Option Space
null_page i s = if is_present (page_get s i) then page_set (freed s i) i 0 else some s

-- The body of the loop of PAGE_ANON.
pub anon_page : ℕ → ℕ → Space → Option Space
anon_page perm i s = if is_present (page_get s i) then some s else elim (frame_new s.frames) [
  | none ↦ none
  | some (frame, m) ↦ page_set (record s { frames = m }) i (page_fmt frame perm)
]

-- The value that PAGE_PACK maps for a frame of the packet: `perm | PF_LOCK` are its flags.
abbrev pub packed : ℕ → ℕ → ℕ
packed perm frame =
    if is_locked frame
    then frame
    else page_fmt frame (if is_locked perm then perm else perm + 0x200)

abbrev pub unmapped : Space → ℕ → Space
unmapped s i = if is_present (page_get s i) then freed s i else s

abbrev pub free_all : List ℕ → Space → Space
free_all [] s = s
free_all (f ∷ fs) s = free_all fs (record s { frames = frame_free s.frames f })

-- The two loops of PAGE_PACK, from page `i` on with `n` pages to map.
pub map_frames : ℕ → ℕ → ℕ → ℕ → List ℕ → Space → Option Space
map_frames address perm i zero fs s = some (free_all fs s)
map_frames address perm i (suc n) [] s = some s
map_frames address perm i (suc n) (f ∷ fs) s =
    let page = (address + i * page_size) % 2 ^ 32 in
    elim (page_set (unmapped s page) page (packed perm f)) [
      | none ↦ none
      | some s' ↦ map_frames address perm (i + 1) n fs s'
    ]

-- The body of the loop of PAGE_PHYS.
pub phys_page : ℕ → ℕ → ℕ → ℕ → Space → Option Space
phys_page address offset perm i s =
    let page = (address + i) % 2 ^ 32 in
    page_set (unmapped s page) page (page_fmt ((offset + i) % 2 ^ 32) perm)

abbrev pub referred : ℕ → Option Space → Option Space
referred page none = none
referred page (some s) = some (record s { frames = frame_ref s.frames (page_get s page) })

-- The body of the loop of PAGE_SELF.
pub self_page : ℕ → ℕ → ℕ → Space → Option Space
self_page address offset i s =
    let from = (offset + i * page_size) % 2 ^ 32 in
    let to = (address + i * page_size) % 2 ^ 32 in
    let s' = if page_get s to == 0 then s else freed s to in
    if is_present (page_get s from)
    then referred from (page_set s' to (page_get s' from))
    else some s

-- The body of the loop of PAGE_PROT.
pub prot_page : ℕ → ℕ → Space → Option Space
prot_page perm i s =
    if is_present (page_get s i) && not (is_locked (page_get s i))
    then page_set s i (page_fmt (page_get s i) perm)
    else some s

-- `for (; i < limit; i += step)`; `none` also if the fuel is not enough.
pub each : (ℕ → Space → Option Space) → ℕ → ℕ → ℕ → ℕ → Space → Option Space
each body step zero i limit s = none
each body step (suc k) i limit s =
    if ltb i limit
    then (elim (body i s) [
      | none ↦ none
      | some s' ↦ each body step k ((i + step) % 2 ^ 32) limit s'
    ])
    else some s

-- `a >= KSPACE || a + (count * PAGESZ) >= KSPACE`
abbrev pub is_outside : ℕ → ℕ → Bool
is_outside a count = leb kernel_space a || leb kernel_space ((a + count * page_size) % 2 ^ 32)

-- The result of a loop, with EAX zero and the packet as it was.
abbrev pub done : State → Option Space → Option (ℕ × State)
done t none = none
done t (some s) = some (0, record t { space = s })

-- `address + count * PAGESZ`
abbrev pub region_end : Call → ℕ
region_end c = (c.address + c.count * page_size) % 2 ^ 32

abbrev pub anon_case : Call → State → Option (ℕ × State)
anon_case c t =
    if t.space.frames.out_of_memory
    then some (1, t)
    else done t
        (each (anon_page (flags c.perm)) page_size (suc c.count) c.address (region_end c) t.space)

abbrev pub pack_case : Call → State → Option (ℕ × State)
pack_case c t = elim t.packet [
  | none ↦ some (1, t)
  | some fs ↦
      done (record t { packet = none }) (map_frames c.address (flags c.perm) 0 c.count fs t.space)
]

abbrev pub phys_case : Call → ℕ → State → Option (ℕ × State)
phys_case c user t =
    if user == 0
    then done t (
        each (phys_page c.address c.offset (flags c.perm)) page_size (suc c.count) 0
          (c.count * page_size % 2 ^ 32) t.space)
    else some (1, t)

abbrev pub self_case : Call → State → Option (ℕ × State)
self_case c t =
    if not (c.offset % page_size == 0) || is_outside c.offset c.count
    then some (1, t)
    else done t (each (self_page c.address c.offset) 1 (suc c.count) 0 c.count t.space)

-- `syscall_page` of a thread with the user id `user`: EAX, and the new state.
pub syscall_page : Call → ℕ → State → Option (ℕ × State)
unfolding null_page anon_page prot_page phys_page self_page map_frames each
syscall_page c user t =
    let region = λ (body : ℕ → Space → Option Space).
      done t (each body page_size (suc c.count) c.address (region_end c) t.space) in
    if not (c.address % page_size == 0) || is_outside c.address c.count
    then some (1, t)
    else if c.source == 0
    then region null_page
    else if c.source == 1
    then anon_case c t
    else if c.source == 2
    then pack_case c t
    else if c.source == 3
    then phys_case c user t
    else if c.source == 4
    then self_case c t
    else if c.source == 5
    then region (prot_page (flags c.perm))
    else some (1, t)
