-- ===== src/Libc/Fdtab/Laws.antt =====
-- What a client of libc/rhombus/fdtab.c may rely on.
use rhombus.Prelude.{
  ℕ, zero, suc, ◌+◌, ◌-◌, ◌≤◌, ◌<◌, ◌≡◌, ◌≢◌, refl, ap, ◌∙◌, List, [], ◌∷◌, inl, inr, arith, ◌==◌,
  ==_iff, ltb, Bool-cases, length, length-set,
}
use rhombus.Prelude.Int.{pos, negsuc}
use rhombus.Libc.Fdtab.{
  Fd, rp_null, first_free, fd_alloc, from, Memory, entry_at, fd_set, fd_mode, fd_rp, fd_pos,
}
use rhombus.Libc.Fdtab.Widen.{
  entry_at-set, room, entry_at-widen, length-room, room_keeps, room_long,
}

-- `fd_set` refuses a negative descriptor and one from 4096 on, with -1 and no change. Any other
-- gets the resource and the mode, and every other descriptor that was in the table keeps all that
-- can be read of it.
pub fd_set_lem :
    (m : Memory) (t : List Fd) (rp mode : ℕ)
    → ((n : ℕ) → fd_set m t (negsuc n) rp mode ≡ (negsuc 0, t))
      × ((n : ℕ) → 4096 ≤ n → fd_set m t (pos n) rp mode ≡ (negsuc 0, t))
      × ((n : ℕ)
          → n < 4096
          → let (r, t') = fd_set m t (pos n) rp mode in
            (r ≡ pos 0)
            × (fd_rp t' (pos n) ≡ rp)
            × (fd_mode t' (pos n) ≡ mode)
            × ((j : ℕ)
                → j < length t
                → j ≢ n
                → (fd_rp t' (pos j) ≡ fd_rp t (pos j))
                  × (fd_mode t' (pos j) ≡ fd_mode t (pos j))
                  × (fd_pos t' (pos j) ≡ fd_pos t (pos j))))
unfolding fd_set fd_rp fd_mode fd_pos
fd_set_lem m t rp mode = (
  λ n. refl,
  λ n h. ground arith,
  λ n h.
      let r = room m t n in
      let f : Fd = record (entry_at r n) { rp = rp; mode = mode } in
      (
        ground arith,
        ground (arith, length-set r n f, length-room m t n, entry_at-set r n n f),
        ground (arith, length-set r n f, length-room m t n, entry_at-set r n n f),
        λ j k ne. (
          ground (
            arith,
            length-set r n f,
            length-room m t n,
            room_long m t n,
            entry_at-set r n j f,
            room_keeps m t n j,
          ),
          ground (
            arith,
            length-set r n f,
            length-room m t n,
            room_long m t n,
            entry_at-set r n j f,
            room_keeps m t n j,
          ),
          ground (
            arith,
            length-set r n f,
            length-room m t n,
            room_long m t n,
            entry_at-set r n j f,
            room_keeps m t n j,
          ),
        ),
      ),
)

-- Only the last entry of a grown table is cleared: a descriptor between the old end of the table
-- and the one that was set reads back what the memory of `realloc` happened to hold.
pub fd_set_stale :
    (m : Memory) (t : List Fd) (rp mode n j : ℕ)
    → n < 4096
    → length t ≤ j
    → j < n
    → fd_rp (fd_set m t (pos n) rp mode).1 (pos j) ≡ (m j).rp
unfolding fd_set fd_rp
fd_set_stale m t rp mode n j h k l =
    let r = room m t n in
    let f : Fd = record (entry_at r n) { rp = rp; mode = mode } in
    ground
      (arith, length-set r n f, length-room m t n, entry_at-set r n j f, entry_at-widen m t n j)

-- The first free entry at or behind `i`, of the entries `t` that stand from `i` on.
record FirstFree (i : ℕ) (t : List Fd) (n : ℕ) : Type 0 where
  low : i ≤ n
  high : n ≤ i + length t
  busy : (j : ℕ) → i + j < n → (entry_at t j).rp ≢ rp_null
  free : (entry_at t (n - i)).rp ≡ rp_null

FirstFree-cons :
    (i n : ℕ) (f : Fd) (t : List Fd)
    → f.rp ≢ rp_null
    → FirstFree (i + 1) t n
    → FirstFree i (f ∷ t) n
FirstFree-cons i n f t used r = record {
  low = omega (arith, r.low);
  high = omega (arith, r.high);
  busy = still_busy;
  free =
      let at : n - i ≡ suc (n - (i + 1)) = omega (arith, r.low) in
      ap (λ k. (entry_at (f ∷ t) k).rp) at ∙ r.free;
}
  where
    still_busy : (j : ℕ) → i + j < n → (entry_at (f ∷ t) j).rp ≢ rp_null
    still_busy zero h = used
    still_busy (suc j) h = r.busy j (omega arith)

first_free-FirstFree : (i : ℕ) (t : List Fd) → FirstFree i t (first_free i t)
unfolding first_free
first_free-FirstFree i [] = record {
  low = omega arith;
  high = omega arith;
  busy = λ j h. absurd (omega arith);
  free = refl;
}
first_free-FirstFree i (f ∷ t) = elim (Bool-cases (f.rp == rp_null)) [
  | inl vacant ↦ rw vacant (record {
    low = omega arith;
    high = omega arith;
    busy = λ j h. absurd (omega arith);
    free =
        let at : i - i ≡ 0 = omega arith in
        ap (λ k. (entry_at (f ∷ t) k).rp) at ∙ (==_iff f.rp rp_null).0 vacant;
  })
  | inr used ↦ rw used (FirstFree-cons i _ f t (ground arith) (first_free-FirstFree (i + 1) t))
]

entry_at-from : (n : ℕ) (t : List Fd) (j : ℕ) → entry_at (from n t) j ≡ entry_at t (n + j)
entry_at-from zero t j = ap (entry_at t) (omega arith)
entry_at-from (suc n) [] j = refl
entry_at-from (suc n) (f ∷ t) j =
    entry_at-from n t j ∙ ap (entry_at (f ∷ t)) {x = suc (n + j)} {y = suc n + j} (omega arith)

-- The same at an index of the whole table.
rp-from :
    (n : ℕ) (t : List Fd) (j : ℕ) → n ≤ j → (entry_at (from n t) (j - n)).rp ≡ (entry_at t j).rp
rp-from n t j h = ap (λ (f : Fd). f.rp) (entry_at-from n t (j - n) ∙ ap (entry_at t) (omega arith))

length-from : (n : ℕ) (t : List Fd) → length (from n t) ≡ length t - n
length-from zero t = omega arith
length-from (suc n) [] = omega arith
length-from (suc n) (f ∷ t) = omega (arith, length-from n t)

-- `fd_alloc` returns the smallest descriptor from 4 on that has no resource: it reads as free,
-- every smaller one from 4 on is taken, and it lies at most one past the table.
pub fd_alloc_lem :
    (t : List Fd)
    → let n = fd_alloc t in
      (4 ≤ n) × (fd_rp t (pos n) ≡ rp_null) × ((j : ℕ) → 4 ≤ j → j < n → fd_rp t (pos j) ≢ rp_null)
unfolding fd_alloc fd_rp
fd_alloc_lem t = elim (Bool-cases (ltb (length t) 4)) [
  | inl short ↦ rw short (omega arith, ground arith, λ j h k. absurd (omega arith))
  | inr long ↦
      let r = first_free-FirstFree 4 (from 4 t) in
      let n = first_free 4 (from 4 t) in
      rw long (
        r.low,
        ground (arith, r.free, rp-from 4 t n r.low),
        λ j h k.
            ground (arith, r.high, length-from 4 t, r.busy (j - 4) (omega arith), rp-from 4 t j h),
      )
]
