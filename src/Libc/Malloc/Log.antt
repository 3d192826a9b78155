-- ===== src/Libc/Malloc/Log.antt =====
-- ilog2 of libc/stdlib/malloc.c is the base 2 logarithm, rounded up.
use native.Mathlib.Nat.{two-pow-succ, mul-le-mul_left, mul-div-le, mul_assoc, mul-add}
use mathlib.Core.Path.{subst}
use rhombus.Prelude.{
  ℕ, zero, suc, ◌+◌, ◌*◌, ◌/◌, ◌%◌, ◌^◌, ◌≤◌, ◌<◌, ◌≡◌, refl, ap, sym, ◌∙◌, ◌==◌, arith,
  if◌then◌else◌, Bool-cases, inl, inr, not,
}
use rhombus.Libc.Malloc.{any_bit, narrow, ilog2}

-- `r` bits are shifted out of `n0`, and `n` is left.
record Floor (n0 n r bound : ℕ) : Type 0 where
  low : 2 ^ r * n ≤ n0
  high : n0 < 2 ^ r * suc n
  left : 0 < n
  small : n < bound

shifted_low : (v b n : ℕ) → v * b * (n / b) ≤ v * n
shifted_low v b n = omega (arith, mul_assoc v b (n / b), mul-le-mul_left v (mul-div-le n b))

shifted_high : (v b n : ℕ) → suc n ≤ b * suc (n / b) → v * suc n ≤ v * b * suc (n / b)
shifted_high v b n h = omega (arith, mul_assoc v b (suc (n / b)), mul-le-mul_left v h)

-- A shift by `k` bits, with `b` for 2 ^ k.
shift-Floor :
    (n0 n r k b : ℕ)
    → 2 ^ (r + k) ≡ 2 ^ r * b
    → suc n ≤ b * suc (n / b)
    → 0 < n / b
    → n / b < b
    → Floor n0 n r (b * b)
    → Floor n0 (n / b) (r + k) b
shift-Floor n0 n r k b pow div some_left small f = record {
  low = subst (λ p. p * (n / b) ≤ n0) (sym pow) (omega (arith, shifted_low (2 ^ r) b n, f.low));
  high =
      subst (λ p. n0 < p * suc (n / b)) (sym pow)
        (omega (arith, shifted_high (2 ^ r) b n div, f.high));
  left = some_left;
  small = small;
}

-- What division by the power `b` of two does, for the shift by `k`.
record IsShift (k b : ℕ) : Type 0 where
  power : 2 ^ k ≡ b
  sum : (r : ℕ) → 2 ^ (r + k) ≡ 2 ^ r * b
  above : (n : ℕ) → suc n ≤ b * suc (n / b)
  below : (n : ℕ) → n < b * b → n / b < b
  wrap : (n : ℕ) → n < b * b → n / b % b ≡ n / b
  none : (n : ℕ) → n / b ≡ 0 → n < b

narrow_shift :
    (k n r : ℕ)
    → narrow k (n, r) ≡ (if not (n / 2 ^ k % 2 ^ k == 0) then (n / 2 ^ k, r + k) else (n, r))
unfolding narrow any_bit
narrow_shift k n r = refl

abbrev FloorOf : ℕ → ℕ × ℕ → ℕ → Type 0
FloorOf n0 (n, r) bound = Floor n0 n r bound

narrow-Floor :
    (n0 k b : ℕ) (p : ℕ × ℕ) → IsShift k b → FloorOf n0 p (b * b) → FloorOf n0 (narrow k p) b
narrow-Floor n0 k b (n, r) v f =
    let small = f.small in
    let test : narrow k (n, r) ≡ (if not (n / b == 0) then (n / b, r + k) else (n, r)) =
      narrow_shift k n r ∙ rw (v.power, v.wrap n small) refl in
    subst (λ p. FloorOf n0 p b) (sym test)
      (elim (Bool-cases (n / b == 0)) [
        | inl low ↦
            rw low (record {
              low = f.low;
              high = f.high;
              left = f.left;
              small = v.none n (ground arith);
            })
        | inr high ↦
            rw high
              (shift-Floor n0 n r k b (v.sum r) (v.above n) (ground arith) (v.below n small) f)
      ])

pow_add : (r k : ℕ) → 2 ^ (r + k) ≡ 2 ^ r * 2 ^ k
pow_add r zero = let e : r + 0 ≡ r = omega arith in rw e (omega arith)
pow_add r (suc k) =
    let e : r + suc k ≡ suc (r + k) = omega arith in
    rw e (
      omega (
        arith,
        two-pow-succ (r + k),
        two-pow-succ k,
        pow_add r k,
        mul-add (2 ^ r) (2 ^ k) (2 ^ k),
        ap (λ p. 2 ^ r * p) (two-pow-succ k),
      ))

IsShift-16 : IsShift 16 65536
IsShift-16 = record {
  power = refl;
  sum = λ r. pow_add r 16;
  above = λ n. omega arith;
  below = λ n h. omega arith;
  wrap = λ n h. omega arith;
  none = λ n h. omega arith;
}

IsShift-8 : IsShift 8 256
IsShift-8 = record {
  power = refl;
  sum = λ r. pow_add r 8;
  above = λ n. omega arith;
  below = λ n h. omega arith;
  wrap = λ n h. omega arith;
  none = λ n h. omega arith;
}

IsShift-4 : IsShift 4 16
IsShift-4 = record {
  power = refl;
  sum = λ r. pow_add r 4;
  above = λ n. omega arith;
  below = λ n h. omega arith;
  wrap = λ n h. omega arith;
  none = λ n h. omega arith;
}

IsShift-2 : IsShift 2 4
IsShift-2 = record {
  power = refl;
  sum = λ r. pow_add r 2;
  above = λ n. omega arith;
  below = λ n h. omega arith;
  wrap = λ n h. omega arith;
  none = λ n h. omega arith;
}

IsShift-1 : IsShift 1 2
IsShift-1 = record {
  power = refl;
  sum = λ r. pow_add r 1;
  above = λ n. omega arith;
  below = λ n h. omega arith;
  wrap = λ n h. omega arith;
  none = λ n h. omega arith;
}

rounded :
    (n : ℕ) (p : ℕ × ℕ)
    → FloorOf n p 2
    → (n ≤ 2 ^ (if 2 ^ p.1 == n then p.1 else p.1 + 1))
      × (2 ^ (if 2 ^ p.1 == n then p.1 else p.1 + 1) < 2 * n)
rounded n (m, r) f =
    let one : m ≡ 1 = omega (arith, f.left, f.small) in
    let low : 2 ^ r ≤ n = omega (arith, f.low, ap (λ m. 2 ^ r * m) one) in
    let high : n < 2 * 2 ^ r = omega (arith, f.high, ap (λ m. 2 ^ r * suc m) one) in
    let next : 2 ^ (r + 1) ≡ 2 ^ r + 2 ^ r = omega (arith, pow_add r 1) in
    elim (Bool-cases (2 ^ r == n)) [
      | inl exact ↦ rw exact (ground arith)
      | inr between ↦ rw between (ground arith)
    ]

-- ilog2 of a number that is not zero and fits into 32 bits is the least power of two that is not below
-- it.
pub ilog2_lem : (n : ℕ) → 0 < n → n < 2 ^ 32 → (n ≤ 2 ^ ilog2 n) × (2 ^ ilog2 n < 2 * n)
unfolding ilog2
ilog2_lem n some_bit word =
    let f0 : FloorOf n (n, 0) (65536 * 65536) = record {
      low = omega arith;
      high = omega arith;
      left = some_bit;
      small = word;
    } in
    let f1 = narrow-Floor n 16 65536 (n, 0) IsShift-16 f0 in
    let f2 = narrow-Floor n 8 256 _ IsShift-8 f1 in
    let f3 = narrow-Floor n 4 16 _ IsShift-4 f2 in
    let f4 = narrow-Floor n 2 4 _ IsShift-2 f3 in
    let f5 = narrow-Floor n 1 2 _ IsShift-1 f4 in rounded n _ f5
