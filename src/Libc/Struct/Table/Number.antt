-- ===== src/Libc/Struct/Table/Number.antt =====
-- Numbers as keys in libc/struct/table.c: `_itostring`, `s_table_seti` and `s_table_geti`.
use rhombus.Prelude.{
  ℕ, zero, suc, ◌+◌, ◌*◌, ◌/◌, ◌%◌, ◌^◌, ◌<◌, ◌≡◌, ◌≢◌, sym, refl, ap, ◌∙◌, Option, some, List, [],
  ◌∷◌, ◌++◌, arith, ◌==◌, if◌then◌else◌,
}
use rhombus.Libc.Struct.Table.{Key, Table, s_table_set, s_table_get}
use rhombus.Libc.Struct.Table.Chain.{str_eq_refl}
use rhombus.Libc.Struct.Table.Map.{IsMap, s_table_get-set}

-- The loop of `_itostring` for the bytes from `i` on: the bytes that it writes, up to and with the
-- terminator, and the flags that it collects for `string[5]`.
pub itostring_loop : ℕ → ℕ → ℕ → List ℕ × ℕ
itostring_loop zero i x = ([], 0)
itostring_loop (suc n) i x =
    let (rest, flags) = itostring_loop n (i + 1) (x / 256) in
    if x == 0
    then (0 ∷ [], 0)
    else if x % 256 == 0
    then (255 ∷ rest, 2 ^ i + flags)
    else ((x % 256) ∷ rest, flags)

-- `_itostring`: the bytes that the loop leaves, `string[4] = 0`, and the flags in `string[5]`.
-- Bytes between an early terminator and `string[4]` are not set by the code; they are 0 here.
pub itostring : ℕ → List ℕ
unfolding itostring_loop
itostring x = let (bytes, flags) = itostring_loop 4 0 x in bytes ++ (0 ∷ flags ∷ [])

-- The C string that starts at the array.
pub c_string : List ℕ → Key
c_string [] = []
c_string (b ∷ s) = if b == 0 then [] else b ∷ c_string s

module _ {ℓ} {D : Type ℓ} where
  -- `s_table_seti`
  pub s_table_seti : Option (Table D) → ℕ → Option D → Option (Table D)
  unfolding s_table_set itostring c_string
  s_table_seti t x o = s_table_set t (some (c_string (itostring x))) o

  -- `s_table_geti`
  pub s_table_geti : Option (Table D) → ℕ → Option D
  unfolding s_table_get itostring c_string
  s_table_geti t x = s_table_get t (some (c_string (itostring x)))

c_string_stops : (s u v : List ℕ) → c_string (s ++ (0 ∷ u)) ≡ c_string (s ++ (0 ∷ v))
unfolding c_string
c_string_stops [] u v = refl
c_string_stops (b ∷ s) u v = ground (arith, c_string_stops s u v)

loop_zero_byte :
    (n i x y : ℕ)
    → x ≢ 0
    → x % 256 ≡ 0
    → x / 256 ≡ y
    → (itostring_loop (suc n) i x).0 ≡ 255 ∷ (itostring_loop n (i + 1) y).0
unfolding itostring_loop
loop_zero_byte n i x y ne z e = rw (← e) (ground arith)

loop_byte :
    (n i x y b : ℕ)
    → b ≢ 0
    → x % 256 ≡ b
    → x / 256 ≡ y
    → (itostring_loop (suc n) i x).0 ≡ b ∷ (itostring_loop n (i + 1) y).0
unfolding itostring_loop
loop_byte n i x y b ne z e = rw (← e) (ground arith)

itostring_same :
    (y : ℕ) → 0 < y → c_string (itostring (256 * y)) ≡ c_string (itostring (256 * y + 255))
unfolding itostring
itostring_same y h =
    let low = loop_zero_byte 3 0 (256 * y) y (omega arith) (omega arith) (omega arith) in
    let high = loop_byte 3 0 (256 * y + 255) y 255 (omega arith) (omega arith) (omega arith) in
    ap (λ s. c_string (s ++ (0 ∷ (itostring_loop 4 0 (256 * y)).1 ∷ []))) (low ∙ sym high)
    ∙ c_string_stops (itostring_loop 4 0 (256 * y + 255)).0 ((itostring_loop 4 0 (256 * y)).1 ∷ [])
        ((itostring_loop 4 0 (256 * y + 255)).1 ∷ [])

module _ {ℓ} {D : Type ℓ} where
  -- Two numbers that differ in the low byte, 0 in one and 255 in the other, are one key: what is
  -- stored under the first is found under the second. The flags that should tell them apart stand
  -- behind the terminator of the key.
  pub geti-collides :
      (t : Option (Table D)) (y : ℕ) (o : Option D)
      → IsMap t
      → 0 < y
      → s_table_geti (s_table_seti t (256 * y) o) (256 * y + 255) ≡ o
  unfolding s_table_geti s_table_seti
  geti-collides t y o v h = rw (← itostring_same y h) (
      (s_table_get-set t (c_string (itostring (256 * y))) o v).1 (c_string (itostring (256 * y)))
      ∙ rw (str_eq_refl (c_string (itostring (256 * y)))))
