-- ===== src/Kernel/Frame/Free.antt =====
-- What frame_free of kernel/mem/frame.c does to the counts and to the free list.
use rhombus.Prelude.{
  ℕ, ◌-◌, ◌/◌, ◌≡◌, ◌≢◌, refl, ◌∙◌, true, false, inl, inr, arith, ap, ◌∷◌, ◌==◌, if◌then◌else◌,
  Bool-cases, Option-cases,
}
use rhombus.Kernel.Frame.{Frame, Frames, chain_at, look, release, frame_free, frame_ref, page_size}
use rhombus.Kernel.Frame.Chain.{count-look, look-addr}
use rhombus.Kernel.Frame.Refs.{addrs, refs, IsFrames, Recounts}
use rhombus.Kernel.Frame.Count.{found-refs, frame_free_step, frame_ref_step, frame_free-Recounts}

-- What frame_free does: one reference less, and with the last one the frame goes to the free list.
pub record Frees (m : Frames) (a : ℕ) (m' : Frames) : Type 0 where
  pub recounts : Recounts m a (refs m a - 1) m'
  pub free :
      addrs m'.free_list ≡ (if refs m a == 1 then a ∷ addrs m.free_list else addrs m.free_list)
  pub memory : m'.out_of_memory ≡ (if refs m a == 1 then false else m.out_of_memory)

release_last :
    (m : Frames) (f : Frame)
    → f.refc ≡ 1
    → (addrs (release m f).free_list ≡ f.addr ∷ addrs m.free_list)
      × ((release m f).out_of_memory ≡ false)
unfolding release
release_last m f one = rw one (refl, refl)

release_shared :
    (m : Frames) (f : Frame)
    → f.refc ≢ 1
    → (addrs (release m f).free_list ≡ addrs m.free_list)
      × ((release m f).out_of_memory ≡ m.out_of_memory)
unfolding release
release_shared m f more = let miss : (f.refc == 1) ≡ false = ground arith in rw miss (refl, refl)

-- frame_free takes one reference from the frame of its address, if there is one, and changes the
-- count of no other frame. With the last reference, and only then, the frame becomes the first of
-- the free list, which is otherwise as before, and memory is available. The hash and the free list
-- stay well formed.
pub frame_free_lem :
    (m : Frames) (frame : ℕ) → IsFrames m → Frees m (frame / page_size) (frame_free m frame)
frame_free_lem m frame v =
    let a = frame / page_size in
    let recounts = frame_free-Recounts m frame v in
    elim (Option-cases (look (chain_at m a) a)) [
      | inl gone ↦
          let z : refs m a ≡ 0 = rw (count-look (chain_at m a) a, gone) refl in
          let e : frame_free m frame ≡ m = rw (frame_free_step m frame, gone) refl in
          record {
            recounts = recounts;
            free = ap (λ n. addrs n.free_list) e ∙ rw z refl;
            memory = ap (λ n. n.out_of_memory) e ∙ rw z refl;
          }
      | inr (f, h) ↦
          let e : frame_free m frame ≡ release m f = rw (frame_free_step m frame, h) refl in
          let n : refs m a ≡ f.refc = found-refs m a h in
          elim (Bool-cases (f.refc == 1)) [
            | inl last ↦
                let (free, memory) = release_last m f (ground arith) in
                let one : (refs m a == 1) ≡ true = ground (arith, n) in
                record {
                  recounts = recounts;
                  free =
                      ap (λ n. addrs n.free_list) e
                      ∙ free
                      ∙ ap (λ b. b ∷ addrs m.free_list) (look-addr (chain_at m a) a h)
                      ∙ rw one refl;
                  memory = ap (λ n. n.out_of_memory) e ∙ memory ∙ rw one refl;
                }
            | inr more ↦
                let (free, memory) = release_shared m f (ground arith) in
                let some_left : (refs m a == 1) ≡ false = ground (arith, n) in
                record {
                  recounts = recounts;
                  free = ap (λ n. addrs n.free_list) e ∙ free ∙ rw some_left refl;
                  memory = ap (λ n. n.out_of_memory) e ∙ memory ∙ rw some_left refl;
                }
          ]
    ]

-- frame_ref takes no frame from the free list, and adds none.
pub frame_ref-free_list :
    (m : Frames) (frame : ℕ)
    → ((frame_ref m frame).free_list ≡ m.free_list)
      × ((frame_ref m frame).out_of_memory ≡ m.out_of_memory)
frame_ref-free_list m frame =
    elim (Option-cases (look (chain_at m (frame / page_size)) (frame / page_size))) [
      | inl gone ↦ rw (frame_ref_step m frame, gone) (refl, refl)
      | inr (f, h) ↦ rw (frame_ref_step m frame, h) (refl, refl)
    ]
