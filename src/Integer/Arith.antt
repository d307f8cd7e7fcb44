-- ===== src/Integer/Arith.antt =====
-- Wrapping, saturating and exact arithmetic of `sys::integer`.
use libcxxext.Prelude.{ℕ, ◌*◌, ◌^◌, ◌<◌, ◌≤◌, true, ◌≡◌, ◌≢◌, arith, if◌then◌else◌, none, ◌↔◌}
use libcxxext.Prelude.Int.{ℤ, neg_ℤ, tdiv, tmod, ltb_ℤ, ◌+ℤ◌, ◌-ℤ◌, ◌≤ℤ◌}
use libcxxext.Integer.{
  IntType, i8, value, modulus, lowest, highest, add, sub, negate, mul, div, mod_by, is_signed,
  width,
}

abbrev pub IsPattern : IntType → ℕ → Type 0
IsPattern t a = a < modulus t

-- z lies between the lowest and the highest value of the type
abbrev pub Fits : IntType → ℤ → Type 0
Fits t z = (value t (lowest t) ≤ℤ z) × (z ≤ℤ value t (highest t))

-- the nearest value of the type
abbrev pub clamp : IntType → ℤ → ℤ
clamp t z =
    if ltb_ℤ z (value t (lowest t))
    then value t (lowest t)
    else if ltb_ℤ (value t (highest t)) z
    then value t (highest t)
    else z

-- At every integer type the sum has the value of the mathematical sum if the type can hold that.
pub value-add :
    (t : IntType) (a b : ℕ)
    → IsPattern t a
    → IsPattern t b
    → Fits t (value t a +ℤ value t b)
    → value t (add t a b) ≡ value t a +ℤ value t b
unfolding add ◌+ℤ◌
value-add i8 a b ha hb f = ground arith
value-add _ a b ha hb f = ground arith

pub value-sub :
    (t : IntType) (a b : ℕ)
    → IsPattern t a
    → IsPattern t b
    → Fits t (value t a -ℤ value t b)
    → value t (sub t a b) ≡ value t a -ℤ value t b
unfolding sub ◌-ℤ◌
value-sub i8 a b ha hb f = ground arith
value-sub _ a b ha hb f = ground arith

pub sub-add :
    (t : IntType) (a b : ℕ)
    → IsPattern t a
    → IsPattern t b
    → (sub t (add t a b) b ≡ a) × (add t (sub t a b) b ≡ a)
unfolding sub add
sub-add i8 a b ha hb = omega arith
sub-add _ a b ha hb = omega arith

-- Negation at a signed type gives the negated value, or the highest value where that is out of
-- range.
pub value-negate :
    (t : IntType) (a : ℕ)
    → IsPattern t a
    → is_signed t ≡ true
    → value t (negate t a) ≡ clamp t (neg_ℤ (value t a))
unfolding negate
value-negate i8 a ha hb = ground arith
value-negate _ a ha hb = ground arith

-- At every integer type, division by a value other than 0 gives the quotient rounded towards 0, or
-- the nearest value of the type where that is out of range: the lowest value divided by -1 is the
-- highest.
pub value-div :
    (t : IntType) (a b : ℕ)
    → IsPattern t a
    → IsPattern t b
    → b ≢ 0
    → value t (div t a b) ≡ clamp t (tdiv (value t a) (value t b))
unfolding div tdiv
value-div i8 a b ha hb ne = ground arith
value-div _ a b ha hb ne = ground arith

-- At every integer type the remainder has the value of the remainder of division towards 0, and is
-- the dividend if the divisor is 0.
pub value-mod_by :
    (t : IntType) (a b : ℕ)
    → IsPattern t a
    → IsPattern t b
    → value t (mod_by t a b) ≡ tmod (value t a) (value t b)
unfolding mod_by tmod
value-mod_by i8 a b ha hb = ground arith
value-mod_by _ a b ha hb = ground arith

pub product_of_bytes : (a b : ℕ) → a < 256 → b < 256 → a * b < 65536
product_of_bytes a b ha hb = grind arith

-- The product that `operator*` forms overflows `int`, which is undefined behaviour, exactly for the
-- 16-bit types and operands whose bit patterns multiply to 2^31 or more.
pub mul-undefined :
    (t : IntType) (a b : ℕ)
    → IsPattern t a
    → IsPattern t b
    → (mul t a b ≡ none) ↔ ((width t ≡ 16) × (2 ^ 31 ≤ a * b))
unfolding mul
mul-undefined i8 a b ha hb = ground (arith, product_of_bytes a b)
mul-undefined _ a b ha hb = ground (arith, product_of_bytes a b)
