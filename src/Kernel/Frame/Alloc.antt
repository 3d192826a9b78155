-- ===== src/Kernel/Frame/Alloc.antt =====
-- What frame_new and frame_add of kernel/mem/frame.c do to the counts and the free list.
use mathlib.Core.Path.{subst}
use rhombus.Prelude.{
  ℕ, ◌+◌, ◌-◌, ◌*◌, ◌/◌, ◌%◌, ◌^◌, ◌≤◌, ◌<◌, ◌≡◌, ◌≢◌, refl, sym, ap, ◌∙◌, true, false, some, [],
  ◌∷◌, inl, inr, arith, ◌==◌, ◌&&◌, ltb, if◌then◌else◌, Bool-cases, All, All-map, All-zip,
  length-set, leb,
}
use rhombus.Kernel.Frame.{
  Frame, Chain, Frames, bucket, chain_at, frame_free, frame_new, frame_add, from_pool, from_list,
  take_first, page_size,
}
use rhombus.Kernel.Frame.Chain.{IsCounted, DistinctAddrs, push-IsChain, count-push}
use rhombus.Kernel.Frame.Refs.{
  addrs, refs, IsFrames, Recounts, recounted, refs-change, chain-with_chain,
}
use rhombus.Kernel.Frame.Free.{Frees, frame_free_lem}

take_first-Recounts :
    (m : Frames) (f : Frame) (rest : Chain)
    → IsFrames m
    → m.free_list ≡ f ∷ rest
    → Recounts m f.addr 1 (take_first m f rest).1
unfolding take_first
take_first-Recounts m f rest v e =
    let c : Chain = record f { refc = 1 } ∷ chain_at m f.addr in
    let spare = subst (λ l. All (λ (g : Frame). refs m g.addr ≡ 0) l) e v.spare in
    let distinct = subst DistinctAddrs e v.distinct in
    let counts = λ (b : ℕ).
      refs-change m f.addr 1 b c v.hashed
        (λ b'. count-push (record f { refc = 1 }) (chain_at m f.addr) b') in
    let one : IsCounted (bucket f.addr) (record f { refc = 1 }) = record {
      belongs = refl;
      positive = omega arith;
      small = omega arith;
    } in
    record {
      counts = counts;
      frames = record {
        hashed = length-set m.hash (bucket f.addr) c ∙ v.hashed;
        chain =
            chain-with_chain m f.addr c v
              (push-IsChain one spare.0 (v.chain (bucket f.addr) (omega arith)));
        spare =
            All-map (λ g z. ground (arith, counts g.addr)) rest
              (All-zip _ _ rest distinct.0 spare.1);
        distinct = distinct.1;
      };
    }

frame_new_step : (m : Frames) → m.out_of_memory ≡ false → frame_new m ≡ from_list m m.free_list
unfolding frame_new
frame_new_step m o = ap (λ b. if b then from_pool m else from_list m m.free_list) o

frame_new_oom : (m : Frames) → m.out_of_memory ≡ true → frame_new m ≡ from_pool m
unfolding frame_new
frame_new_oom m o = ap (λ b. if b then from_pool m else from_list m m.free_list) o

from_pool-left :
    (m : Frames)
    → page_size < m.pool
    → m.pool < 2 ^ 32
    → from_pool m ≡ some (m.pool - page_size, record m { pool = m.pool - page_size })
unfolding from_pool
from_pool-left m p s =
    let left : (m.pool + 2 ^ 32 - page_size) % 2 ^ 32 ≡ m.pool - page_size = omega arith in
    let ne : ((m.pool - page_size) == 0) ≡ false = ground arith in rw (left, ne) refl

-- frame_new of a well-formed free list that is not empty takes the first frame of the list, which
-- had no reference: it has one then, no other count changes, the rest of the list is left, and the
-- state is well formed again.
pub frame_new_lem :
    (m : Frames) {f : Frame} {rest : Chain}
    → IsFrames m
    → m.out_of_memory ≡ false
    → m.free_list ≡ f ∷ rest
    → (m' : Frames) × (frame_new m ≡ some (f.addr * page_size % 2 ^ 32, m'))
      × (refs m f.addr ≡ 0)
      × Recounts m f.addr 1 m'
      × (m'.free_list ≡ rest)
unfolding take_first
frame_new_lem m {f = f} {rest = rest} v o e =
    let spare = subst (λ l. All (λ (g : Frame). refs m g.addr ≡ 0) l) e v.spare in
    (
      (take_first m f rest).1,
      frame_new_step m o ∙ ap (from_list m) e,
      spare.0,
      take_first-Recounts m f rest v e,
      refl,
    )

-- frame_new without memory hands out the last pages of the emergency pool, from the top down, and
-- panics when only one is left; an empty free list is treated alike, and from then on no frame is
-- taken from the list until frame_free or frame_add give one back.
pub frame_new-exhausted :
    (m : Frames)
    → m.free_list ≡ []
    → page_size < m.pool
    → m.pool < 2 ^ 32
    → frame_new m
      ≡ some (m.pool - page_size, record m { out_of_memory = true; pool = m.pool - page_size })
frame_new-exhausted m e p s = elim (Bool-cases m.out_of_memory) [
  | inl o ↦
      frame_new_oom m o
      ∙ from_pool-left m p s
      ∙ ap
          (λ o.
            some (m.pool - page_size, record m { out_of_memory = o; pool = m.pool - page_size }))
          o
  | inr o ↦
      frame_new_step m o
      ∙ ap (from_list m) e
      ∙ from_pool-left (record m { out_of_memory = true }) p s
]

-- frame_add of a page above the kernel's own that has no reference and is not free makes it the
-- first free frame; no count changes, the state stays well formed, and memory is available again.
pub frame_add_lem :
    (m : Frames) (frame : ℕ)
    → IsFrames m
    → 0x800000 ≤ frame
    → refs m (frame / page_size) ≡ 0
    → All (λ g. g.addr ≢ frame / page_size) m.free_list
    → IsFrames (frame_add m frame)
      × ((b : ℕ) → refs (frame_add m frame) b ≡ refs m b)
      × ((frame_add m frame).free_list
          ≡ record { refc = 0; addr = frame / page_size } ∷ m.free_list)
      × ((frame_add m frame).out_of_memory ≡ false)
unfolding frame_add
frame_add_lem m frame v h z d =
    let high : (leb 0 frame && ltb frame 0x800000) ≡ false = ground arith in
    rw high (
      record {
        hashed = v.hashed;
        chain = v.chain;
        spare = (z, v.spare);
        distinct = (d, v.distinct);
      },
      λ b. refl,
      refl,
      refl,
    )

-- A frame that frame_new hands out and frame_free takes back: all counts are as before, the free
-- list has the same pages in the same order, and the state is well formed.
pub free-new :
    (m : Frames) {f : Frame} {rest : Chain}
    → IsFrames m
    → m.out_of_memory ≡ false
    → m.free_list ≡ f ∷ rest
    → f.addr < 2 ^ 20
    → (m' : Frames) × (frame_new m ≡ some (f.addr * page_size, m'))
      × ((b : ℕ) → refs (frame_free m' (f.addr * page_size)) b ≡ refs m b)
      × (addrs (frame_free m' (f.addr * page_size)).free_list ≡ addrs m.free_list)
      × IsFrames (frame_free m' (f.addr * page_size))
free-new m {f = f} {rest = rest} v o e s =
    let (m', run, fresh, after, left) = frame_new_lem m {f = f} {rest = rest} v o e in
    let page : f.addr * page_size / page_size ≡ f.addr = omega arith in
    let frees =
      subst (λ a. Frees m' a (frame_free m' (f.addr * page_size))) page
        (frame_free_lem m' (f.addr * page_size) after.frames) in
    let back = frees.recounts in
    let last : (refs m' f.addr == 1) ≡ true = ground (arith, recounted after) in
    let same : f.addr * page_size % 2 ^ 32 ≡ f.addr * page_size = omega arith in
    (
      m',
      subst (λ x. frame_new m ≡ some (x, m')) same run,
      λ b. elim (Bool-cases (b == f.addr)) [
        | inl hit ↦
            let e' : b ≡ f.addr = ground arith in
            subst (λ u. refs (frame_free m' (f.addr * page_size)) u ≡ refs m u) (sym e')
              (omega (arith, recounted back, recounted after))
        | inr miss ↦ ground (arith, back.counts b, after.counts b)
      ],
      frees.free ∙ rw last (ap (λ l. f.addr ∷ addrs l) left) ∙ sym (ap addrs e),
      back.frames,
    )
