-- ===== src/Integer/Shift.antt =====
-- The shifts of `sys::integer`: logical, of any count, by a negative count the other way.
use libcxxext.Prelude.{
  ℕ, suc, ◌-◌, ◌*◌, ◌/◌, ◌%◌, ◌^◌, ◌<◌, false, ◌≡◌, arith, if◌then◌else◌, min, ltb, Bool-cases, inl,
  inr, ltb→lt,
}
use native.Mathlib.Nat.{mod-eq_of_lt, mod-mod, div-le_self}
use libcxxext.Prelude.Int.{ℤ, pos, negsuc}
use libcxxext.Prelude.Bits.{bit_and-low, bit_and-zero}
use libcxxext.Integer.{
  IntType, value, modulus, width, is_negative, is_signed, magnitude, shift_left, shift_right, shl,
  shr,
}
use libcxxext.Integer.Arith.{IsPattern}

-- The count read as a number; every bit is lost at a count of the width or more.
abbrev pub left_by : IntType → ℕ → ℕ → ℕ
left_by t a n = if ltb n (width t) then a * 2 ^ n % modulus t else 0

abbrev pub right_by : IntType → ℕ → ℕ → ℕ
right_by t a n = if ltb n (width t) then a / 2 ^ n else 0

-- a shift by the integer `n`: left by `n`, or right by `-n`
abbrev pub shifted : IntType → ℕ → ℤ → ℕ
shifted t a (pos n) = left_by t a n
shifted t a (negsuc n) = right_by t a (suc n)

-- the other way
abbrev pub shifted_back : IntType → ℕ → ℤ → ℕ
shifted_back t a (pos n) = right_by t a n
shifted_back t a (negsuc n) = left_by t a (suc n)

min_left : (n w : ℕ) → n < w → min n (w - 1) ≡ n
min_left n w h = omega arith

module _ (t : IntType) (a n : ℕ) where
  shift_left_lem : shift_left t a n ≡ left_by t a n
  shift_left_lem = elim (Bool-cases (ltb n (width t))) [
    | inl h ↦ rw (h, min_left n (width t) (ltb→lt _ _ h), bit_and-low (width t)) (mod-mod _ _)
    | inr h ↦ rw (h, bit_and-zero)
  ]

  shift_right_lem : IsPattern t a → shift_right t a n ≡ right_by t a n
  shift_right_lem p = elim (Bool-cases (ltb n (width t))) [
    | inl h ↦
        rw (h, min_left n (width t) (ltb→lt _ _ h), bit_and-low (width t))
          (mod-eq_of_lt (omega (arith, div-le_self a (2 ^ n))))
    | inr h ↦ rw (h, bit_and-zero)
  ]

suc-magnitude : (t : IntType) (b : ℕ) → IsPattern t b → suc (modulus t - b - 1) ≡ magnitude t b
suc-magnitude t b h = omega arith

module _ (t : IntType) (a b : ℕ) (ha : IsPattern t a) (hb : IsPattern t b) where
  -- At every integer type the left shift by a count of any size is the logical shift of the bit
  -- pattern by that number, to the right if the count is negative, with zero once the count reaches
  -- the width.
  pub shl-shifted : shl t a b ≡ shifted t a (value t b)
  unfolding shl
  shl-shifted = elim (Bool-cases (is_negative t b)) [
    | inl h ↦ rw (h, shift_right_lem t a (magnitude t b) ha, suc-magnitude t b hb)
    | inr h ↦ rw (h, shift_left_lem t a b)
  ]

  -- At every integer type the right shift by a count of any size is the logical shift of the bit
  -- pattern by that number, to the left if the count is negative, with zero once the count reaches
  -- the width.
  pub shr-shifted : shr t a b ≡ shifted_back t a (value t b)
  unfolding shr
  shr-shifted = elim (Bool-cases (is_negative t b)) [
    | inl h ↦ rw (h, shift_left_lem t a (magnitude t b), suc-magnitude t b hb)
    | inr h ↦ rw (h, shift_right_lem t a b ha)
  ]

-- At an unsigned type the count is never negative.
pub shl-unsigned : (t : IntType) (a b : ℕ) → is_signed t ≡ false → shl t a b ≡ left_by t a b
unfolding shl
shl-unsigned t a b h = rw (h, shift_left_lem t a b)

pub shr-unsigned :
    (t : IntType) (a b : ℕ) → is_signed t ≡ false → IsPattern t a → shr t a b ≡ right_by t a b
unfolding shr
shr-unsigned t a b h ha = rw (h, shift_right_lem t a b ha)
