-- ===== src/Kernel/Frame.antt =====
-- The allocator of physical frames, kernel/mem/frame.c. A linked list of frame structures is the
-- list of its members, so that `prev` and `next` are not stored; `none` is a call of `debug_panic`.
pub mod Chain
pub mod Refs
pub mod Count
pub mod Free
pub mod Alloc
pub mod Tests
use rhombus.Prelude.{
  ℕ, zero, suc, ◌+◌, ◌-◌, ◌*◌, ◌/◌, ◌%◌, ◌^◌, Bool, true, false, ◌&&◌, Option, none, some, List, [],
  ◌∷◌, ◌==◌, ltb, leb, if◌then◌else◌, get_or, set,
}

-- PAGESZ
abbrev pub page_size : ℕ
page_size = 4096

-- `struct frame_struct`, without its links.
pub record Frame : Type 0 where
  pub refc : ℕ
  pub addr : ℕ

abbrev pub Chain : Type 0
Chain = List Frame

-- `out_of_memory`, `oom_pool`, `frame_list` and `frame_hash`.
pub record Frames : Type 0 where
  pub out_of_memory : Bool
  pub pool : ℕ
  pub free_list : Chain
  pub hash : List Chain

-- `addr & 0xFF`
abbrev pub bucket : ℕ → ℕ
bucket addr = addr % 256

abbrev pub chain_at : Frames → ℕ → Chain
chain_at m addr = get_or m.hash (bucket addr) []

-- The walk of `frame_find` along a chain.
pub look : Chain → ℕ → Option Frame
look [] addr = none
look (f ∷ c) addr = if f.addr == addr then some f else look c addr

-- `frame_find`
pub find : Frames → ℕ → Option Frame
unfolding look
find m frame = look (chain_at m (frame / page_size)) (frame / page_size)

-- A change of the found structure's count, in place.
pub recount : Chain → ℕ → ℕ → Chain
recount [] addr n = []
recount (f ∷ c) addr n = if f.addr == addr then record f { refc = n } ∷ c else f ∷ recount c addr n

-- `frame_pull`: the structure leaves its chain.
pub pull : Chain → ℕ → Chain
pull [] addr = []
pull (f ∷ c) addr = if f.addr == addr then c else f ∷ pull c addr

abbrev pub with_chain : Frames → ℕ → Chain → Frames
with_chain m addr c = record m { hash = set m.hash (bucket addr) c }

-- The new count of a frame that `frame_find` finds.
abbrev pub with_count : Frames → ℕ → ℕ → Frames
with_count m addr n = with_chain m addr (recount (chain_at m addr) addr n)

-- The two branches of `frame_free` for a structure that was found.
pub release : Frames → Frame → Frames
unfolding recount pull
release m f =
    if f.refc == 1
    then record (with_chain m f.addr (pull (chain_at m f.addr) f.addr)) {
      free_list = f ∷ m.free_list;
      out_of_memory = false;
    }
    else with_count m f.addr ((f.refc + 2 ^ 32 - 1) % 2 ^ 32)

-- `frame_free`
pub frame_free : Frames → ℕ → Frames
unfolding find release
frame_free m frame = elim (find m frame) [ none ↦ m | some f ↦ release m f ]

-- The emergency branch of `frame_new`.
pub from_pool : Frames → Option (ℕ × Frames)
from_pool m =
    let left = (m.pool + 2 ^ 32 - page_size) % 2 ^ 32 in
    if left == 0 then none else some (left, record m { pool = left })

-- `frame_new` of a free list that is not empty.
pub take_first : Frames → Frame → Chain → ℕ × Frames
take_first m f rest = (
  f.addr * page_size % 2 ^ 32,
  record (with_chain m f.addr (record f { refc = 1 } ∷ chain_at m f.addr)) { free_list = rest },
)

abbrev pub from_list : Frames → Chain → Option (ℕ × Frames)
from_list m [] = from_pool (record m { out_of_memory = true })
from_list m (f ∷ rest) = some (take_first m f rest)

-- `frame_new`: an empty free list leads to the emergency branch by a second call.
pub frame_new : Frames → Option (ℕ × Frames)
unfolding from_pool take_first
frame_new m = if m.out_of_memory then from_pool m else from_list m m.free_list

-- `frame_add`; KERNEL_BOOT is 0 and KERNEL_BOOT_END 0x800000.
pub frame_add : Frames → ℕ → Frames
frame_add m frame = if leb 0 frame && ltb frame 0x800000 then m else record m {
  free_list = record { refc = 0; addr = frame / page_size } ∷ m.free_list;
  out_of_memory = false;
}

-- `frame_ref`
pub frame_ref : Frames → ℕ → Frames
unfolding find recount
frame_ref m frame = elim (find m frame) [
  | none ↦ m
  | some f ↦ with_count m f.addr ((f.refc + 1) % 2 ^ 32)
]

-- `frame_refc`
pub frame_refc : Frames → ℕ → ℕ
unfolding find
frame_refc m frame = elim (find m frame) [ none ↦ 0 | some f ↦ f.refc ]
