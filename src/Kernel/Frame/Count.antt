-- ===== src/Kernel/Frame/Count.antt =====
-- What frame_free and frame_ref of kernel/mem/frame.c do to the counts of all frames.
use mathlib.Core.Path.{subst}
use rhombus.Prelude.{
  ℕ, ◌+◌, ◌-◌, ◌/◌, ◌%◌, ◌^◌, ◌<◌, ◌≡◌, ◌≢◌, refl, sym, ◌∙◌, false, none, some, inl, inr, arith,
  ◌==◌, if◌then◌else◌, Bool-cases, Option-cases, All-map, length-set,
}
use rhombus.Kernel.Frame.{
  Frame, Frames, bucket, chain_at, look, recount, pull, with_chain, with_count, release, frame_free,
  frame_ref, page_size,
}
use rhombus.Kernel.Frame.Chain.{
  IsCounted, count-look, look-addr, look-counted, count-recount, count-pull, pull-IsChain,
  recount-IsChain,
}
use rhombus.Kernel.Frame.Refs.{refs, IsFrames, refs-change, chain-with_chain, Recounts}

found-counted :
    (m : Frames) (a : ℕ) {f : Frame}
    → IsFrames m
    → look (chain_at m a) a ≡ some f
    → IsCounted (bucket a) f
found-counted m a {f = f} v h =
    look-counted (bucket a) (chain_at m a) a (v.chain (bucket a) (omega arith)).counted h

pub found-refs :
    (m : Frames) (a : ℕ) {f : Frame} → look (chain_at m a) a ≡ some f → refs m a ≡ f.refc
found-refs m a h = rw (count-look (chain_at m a) a, h) refl

spare_ne : (m : Frames) (a : ℕ) (g : Frame) → 0 < refs m a → refs m g.addr ≡ 0 → g.addr ≢ a
spare_ne m a g p z e = let q = subst (λ u. refs m u ≡ 0) e z in omega arith

with_count_lem :
    (m : Frames) (a n : ℕ) {f : Frame}
    → IsFrames m
    → look (chain_at m a) a ≡ some f
    → 0 < n
    → n < 2 ^ 32
    → Recounts m a n (with_count m a n)
with_count_lem m a n {f = f} v h p s =
    let c = recount (chain_at m a) a n in
    let counts =
      λ (b : ℕ). refs-change m a n b c v.hashed (λ b'. count-recount (chain_at m a) a n b' h) in
    let held : 0 < refs m a =
      let k = (found-counted m a v h).positive in omega (arith, found-refs m a h) in
    record {
      counts = counts;
      frames = record {
        hashed = length-set m.hash (bucket a) c ∙ v.hashed;
        chain =
            chain-with_chain m a c v (recount-IsChain a n p s (v.chain (bucket a) (omega arith)));
        spare =
            All-map (λ g z. ground (arith, counts g.addr, spare_ne m a g held z)) m.free_list
              v.spare;
        distinct = v.distinct;
      };
    }

release-last :
    (m : Frames) (a : ℕ) {f : Frame}
    → IsFrames m
    → look (chain_at m a) a ≡ some f
    → f.refc ≡ 1
    → Recounts m a 0 (release m f)
unfolding release
release-last m a {f = f} v h one =
    let c = pull (chain_at m f.addr) f.addr in
    let here : f.addr ≡ a = look-addr (chain_at m a) a h in
    let at_f : look (chain_at m f.addr) f.addr ≡ some f =
      subst (λ u. look (chain_at m u) u ≡ some f) (sym here) h in
    let k = v.chain (bucket f.addr) (omega arith) in
    let counts = λ (b : ℕ).
      refs-change m f.addr 0 b c v.hashed
        (λ b'. count-pull (chain_at m f.addr) f.addr b' k.distinct) in
    let held : refs m f.addr ≡ 1 = found-refs m f.addr at_f ∙ one in
    rw one (record {
      counts = λ b.
          subst (λ u. refs (with_chain m f.addr c) b ≡ (if b == u then 0 else refs m b)) here
            (counts b);
      frames = record {
        hashed = length-set m.hash (bucket f.addr) c ∙ v.hashed;
        chain = chain-with_chain m f.addr c v (pull-IsChain f.addr k);
        spare = (
          ground (arith, counts f.addr),
          All-map (λ g z. ground (arith, counts g.addr)) m.free_list v.spare,
        );
        distinct = (
          All-map (λ g z. spare_ne m f.addr g (omega (arith, held)) z) m.free_list v.spare,
          v.distinct,
        );
      };
    })

release-shared :
    (m : Frames) (a : ℕ) {f : Frame}
    → IsFrames m
    → look (chain_at m a) a ≡ some f
    → f.refc ≢ 1
    → Recounts m a (f.refc - 1) (release m f)
unfolding release
release-shared m a {f = f} v h more =
    let here : f.addr ≡ a = look-addr (chain_at m a) a h in
    let k = found-counted m a v h in
    let p = k.positive in
    let s = k.small in
    let less : (f.refc + 2 ^ 32 - 1) % 2 ^ 32 ≡ f.refc - 1 = omega arith in
    let miss : (f.refc == 1) ≡ false = ground arith in
    rw (miss, less, here) (with_count_lem m a (f.refc - 1) v h (omega arith) (omega arith))

unchanged : (m : Frames) (a : ℕ) → IsFrames m → Recounts m a (refs m a) m
unchanged m a v = record {
  frames = v;
  counts = λ b. elim (Bool-cases (b == a)) [
    | inl hit ↦ let e : a ≡ b = ground arith in rw (hit, e) refl
    | inr miss ↦ rw miss refl
  ];
}

pub frame_free_step :
    (m : Frames) (frame : ℕ)
    → frame_free m frame ≡ (elim (look (chain_at m (frame / page_size)) (frame / page_size)) [
      | none ↦ m
      | some f ↦ release m f
    ])
unfolding frame_free
frame_free_step m frame = refl

pub frame_ref_step :
    (m : Frames) (frame : ℕ)
    → frame_ref m frame ≡ (elim (look (chain_at m (frame / page_size)) (frame / page_size)) [
      | none ↦ m
      | some f ↦ with_count m f.addr ((f.refc + 1) % 2 ^ 32)
    ])
unfolding frame_ref
frame_ref_step m frame = refl

pub frame_free-Recounts :
    (m : Frames) (frame : ℕ)
    → IsFrames m
    → Recounts m (frame / page_size) (refs m (frame / page_size) - 1) (frame_free m frame)
frame_free-Recounts m frame v =
    let a = frame / page_size in
    elim (Option-cases (look (chain_at m a) a)) [
      | inl gone ↦
          let z : refs m a ≡ 0 = rw (count-look (chain_at m a) a, gone) refl in
          rw (frame_free_step m frame, gone, z) (subst (λ n. Recounts m a n m) z (unchanged m a v))
      | inr (f, h) ↦ elim (Bool-cases (f.refc == 1)) [
        | inl last ↦
            let one : f.refc ≡ 1 = ground arith in
            let zero_left : refs m a - 1 ≡ 0 = omega (arith, found-refs m a h) in
            rw (frame_free_step m frame, h, zero_left) (release-last m a v h one)
        | inr more ↦
            rw (frame_free_step m frame, h, found-refs m a h)
              (release-shared m a v h (ground arith))
      ]
    ]

-- frame_ref adds one reference to a frame that has one, as long as the count fits a word; it changes
-- nothing for any other frame, and the hash and the free list stay well formed.
pub frame_ref_lem :
    (m : Frames) (frame : ℕ)
    → IsFrames m
    → refs m (frame / page_size) + 1 < 2 ^ 32
    → Recounts m
        (frame / page_size)
        (if refs m (frame / page_size) == 0 then 0 else refs m (frame / page_size) + 1)
        (frame_ref m frame)
frame_ref_lem m frame v small =
    let a = frame / page_size in
    elim (Option-cases (look (chain_at m a) a)) [
      | inl gone ↦
          let z : refs m a ≡ 0 = rw (count-look (chain_at m a) a, gone) refl in
          rw (frame_ref_step m frame, gone, z) (subst (λ n. Recounts m a n m) z (unchanged m a v))
      | inr (f, h) ↦
          let p = (found-counted m a v h).positive in
          let fit = subst (λ n. n + 1 < 2 ^ 32) (found-refs m a h) small in
          let more : (f.refc + 1) % 2 ^ 32 ≡ f.refc + 1 = omega arith in
          let ne : (f.refc == 0) ≡ false = ground arith in
          rw (frame_ref_step m frame, h, found-refs m a h, ne, more, look-addr (chain_at m a) a h)
            (with_count_lem m a (f.refc + 1) v h (omega arith) fit)
    ]
