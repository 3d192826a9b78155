-- ===== src/Libc/Fdtab/Widen.antt =====
-- The table that fd_set of libc/rhombus/fdtab.c has made large enough.
use rhombus.Prelude.{
  ℕ, zero, suc, ◌+◌, ◌-◌, ◌≤◌, ◌<◌, ◌≡◌, refl, ap, ◌∙◌, List, [], ◌∷◌, ◌++◌, inl, inr, arith, ◌==◌,
  ltb, leb, if◌then◌else◌, Bool-cases, length, set, length-set, length-append,
}
use rhombus.Libc.Fdtab.{Fd, Memory, uncleared, entry_at, widen}

pub entry_at-set :
    (t : List Fd) (i j : ℕ) (f : Fd)
    → i < length t
    → entry_at (set t i f) j ≡ (if j == i then f else entry_at t j)
entry_at-set [] i j f h = absurd (omega arith)
entry_at-set (x ∷ t) zero zero f h = refl
entry_at-set (x ∷ t) zero (suc j) f h = ground arith
entry_at-set (x ∷ t) (suc i) zero f h = ground arith
entry_at-set (x ∷ t) (suc i) (suc j) f h = ground (arith, entry_at-set t i j f)

length-uncleared : (m : Memory) (i n : ℕ) → length (uncleared m i n) ≡ n
unfolding uncleared
length-uncleared m i zero = refl
length-uncleared m i (suc n) = ap suc (length-uncleared m (i + 1) n)

entry_at-append_left : (t u : List Fd) (i : ℕ) → i < length t → entry_at (t ++ u) i ≡ entry_at t i
entry_at-append_left [] u i h = absurd (omega arith)
entry_at-append_left (x ∷ t) u zero h = refl
entry_at-append_left (x ∷ t) u (suc i) h = entry_at-append_left t u i (omega arith)

entry_at-uncleared : (m : Memory) (i n j : ℕ) → j < n → entry_at (uncleared m i n) j ≡ m (i + j)
unfolding uncleared
entry_at-uncleared m i zero j h = absurd (omega arith)
entry_at-uncleared m i (suc n) zero h = ap m (omega arith)
entry_at-uncleared m i (suc n) (suc j) h =
    entry_at-uncleared m (i + 1) n j (omega arith) ∙ ap m (omega arith)

entry_at-append_right : (t u : List Fd) (j : ℕ) → entry_at (t ++ u) (length t + j) ≡ entry_at u j
entry_at-append_right [] u j = ap (entry_at u) (omega arith)
entry_at-append_right (x ∷ t) u j =
    ap (entry_at (x ∷ (t ++ u))) {x = suc (length t) + j} {y = suc (length t + j)} (omega arith)
    ∙ entry_at-append_right t u j

-- The table that `fd_set` writes into.
abbrev pub room : Memory → List Fd → ℕ → List Fd
room m t fd = if leb (length t) fd then widen m t fd else t

length-widen : (m : Memory) (t : List Fd) (fd : ℕ) → length t ≤ fd → length (widen m t fd) ≡ fd + 1
unfolding widen
length-widen m t fd h =
    let extra = uncleared m (length t) (fd + 1 - length t) in
    length-set (t ++ extra) fd _
    ∙ omega (arith, length-append t extra, length-uncleared m (length t) (fd + 1 - length t))

pub entry_at-widen :
    (m : Memory) (t : List Fd) (fd j : ℕ)
    → length t ≤ fd
    → j < fd
    → entry_at (widen m t fd) j ≡ (if ltb j (length t) then entry_at t j else m j)
unfolding widen
entry_at-widen m t fd j h k =
    let n = fd + 1 - length t in
    let extra = uncleared m (length t) n in
    let long : fd < length (t ++ extra) =
      omega (arith, length-append t extra, length-uncleared m (length t) n) in
    entry_at-set (t ++ extra) fd j _ long ∙ elim (Bool-cases (ltb j (length t))) [
      | inl old ↦ ground (arith, entry_at-append_left t extra j)
      | inr new ↦
          let at : length t + (j - length t) ≡ j = ground arith in
          ground (
            arith,
            ap (entry_at (t ++ extra)) at,
            entry_at-append_right t extra (j - length t),
            entry_at-uncleared m (length t) n (j - length t),
            ap m at,
          )
    ]

pub length-room : (m : Memory) (t : List Fd) (fd : ℕ) → fd < length (room m t fd)
length-room m t fd = ground (arith, length-widen m t fd)

pub room_keeps :
    (m : Memory) (t : List Fd) (fd j : ℕ) → j < length t → entry_at (room m t fd) j ≡ entry_at t j
room_keeps m t fd j h = ground (arith, entry_at-widen m t fd j)

pub room_long : (m : Memory) (t : List Fd) (fd : ℕ) → length t ≤ length (room m t fd)
room_long m t fd = ground (arith, length-widen m t fd)
