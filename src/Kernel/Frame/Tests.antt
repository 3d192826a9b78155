-- ===== src/Kernel/Frame/Tests.antt =====
-- The theorems on frames at a machine with one free frame.
use rhombus.Prelude.{
  ℕ, zero, suc, ◌≡◌, refl, true, false, some, [], ◌∷◌, arith, replicate, length-replicate, get_or,
}
use rhombus.Kernel.Frame.{Frames, Chain, frame_add, frame_new, frame_free}
use rhombus.Kernel.Frame.Chain.{count, IsChain}
use rhombus.Kernel.Frame.Refs.{addrs, refs, IsFrames, Recounts}
use rhombus.Kernel.Frame.Free.{Frees, frame_free_lem}
use rhombus.Kernel.Frame.Alloc.{frame_new_lem, frame_new-exhausted, frame_add_lem, free-new}

abbrev none_yet : Chain
none_yet = []

-- No frames, and the emergency pool.
empty : Frames
empty = record {
  out_of_memory = false;
  pool = 0x4000;
  free_list = [];
  hash = replicate 256 none_yet;
}

get_or-replicate : (n i : ℕ) → get_or (replicate n none_yet) i [] ≡ []
get_or-replicate zero i = refl
get_or-replicate (suc n) zero = refl
get_or-replicate (suc n) (suc i) = get_or-replicate n i

empty-IsChain : (i : ℕ) → IsChain i (get_or (replicate 256 none_yet) i [])
empty-IsChain i = rw (get_or-replicate 256 i) (record { counted = tt; distinct = tt })

empty-IsFrames : IsFrames empty
unfolding empty
empty-IsFrames = record {
  hashed = length-replicate 256 none_yet;
  chain = λ i h. empty-IsChain i;
  spare = tt;
  distinct = tt;
}

-- The page at 0x800000 is free.
pub one : Frames
unfolding empty frame_add
one = frame_add empty 0x800000

added :
    IsFrames one
    × ((b : ℕ) → refs one b ≡ refs empty b)
    × (one.free_list ≡ record { refc = 0; addr = 2048 } ∷ [])
    × (one.out_of_memory ≡ false)
unfolding one count
added = frame_add_lem empty 0x800000 empty-IsFrames (omega arith) refl tt

one-IsFrames : IsFrames one
one-IsFrames = added.0

handed_out :
    (m' : Frames) × (frame_new one ≡ some (0x800000, m'))
    × (refs one 2048 ≡ 0)
    × Recounts one 2048 1 m'
    × (m'.free_list ≡ [])
handed_out =
    frame_new_lem one {f = record { refc = 0; addr = 2048 }} {rest = []} one-IsFrames added.3
      added.2

pub taken : Frames
taken = handed_out.0

pub taken-Recounts : Recounts one 2048 1 taken
unfolding taken
taken-Recounts = handed_out.3

frame_free_lem_example : Frees taken 2048 (frame_free taken 0x800000)
frame_free_lem_example = frame_free_lem taken 0x800000 taken-Recounts.frames

free-new_example :
    (m' : Frames) × (frame_new one ≡ some (0x800000, m'))
    × ((b : ℕ) → refs (frame_free m' 0x800000) b ≡ refs one b)
    × (addrs (frame_free m' 0x800000).free_list ≡ addrs one.free_list)
    × IsFrames (frame_free m' 0x800000)
free-new_example =
    free-new one {f = record { refc = 0; addr = 2048 }} {rest = []} one-IsFrames added.3 added.2
      (omega arith)

frame_new-exhausted_example :
    frame_new empty ≡ some (0x3000, record empty { out_of_memory = true; pool = 0x3000 })
unfolding empty
frame_new-exhausted_example = frame_new-exhausted empty refl (omega arith) (omega arith)
