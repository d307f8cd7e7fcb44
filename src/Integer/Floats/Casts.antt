-- ===== src/Integer/Floats/Casts.antt =====
-- What the two casts from floating point give, and where one of them is undefined.
use native.Mathlib.Nat.{one-le-pow, div-lt_iff_lt-mul}
use libcxxext.Prelude.{
  ℕ, suc, ◌+◌, ◌-◌, zero, ◌*◌, ◌/◌, ◌^◌, ◌≤◌, ◌<◌, Bool, not, ◌&&◌, ◌≡◌, refl, ap, ◌∙◌, arith, ltb,
  if◌then◌else◌, Option, none, some,
}
use libcxxext.Prelude.Int.{ℤ, pos, negsuc, pos_part, neg_part, neg_ℤ, tdiv}
use libcxxext.Prelude.Outcome.{Outcome, done, undefined}
use libcxxext.Integer.{
  IntType, i8, i16, i32, i64, u8, u16, u32, u64, value, highest, lowest, saturate, sentinel,
}
use libcxxext.Integer.Arith.{IsPattern}
use libcxxext.Integer.Floats.{
  FloatType, float, double, precision, nan, infinite, finite, from_integer, to_float, round_to,
  le_float, integer_part, to_integer, saturate_float, numeric_cast_float, returned, bit_length,
  rounded,
}

ltb-div : (a k n : ℕ) → 0 < k → ltb (a / k) n ≡ ltb a (n * k)
ltb-div a k n h = ground (arith, div-lt_iff_lt-mul {k = k} {x = a} {y = n} h)

-- The highest value of the type is rounded up to the next power of two.
abbrev pub rounds_up : IntType → FloatType → Bool
rounds_up t f = ltb (precision f) (bit_length 64 (highest t))

abbrev pub upper_bound : IntType → FloatType → ℕ
upper_bound t f = if rounds_up t f then highest t + 1 else highest t

-- The bounds of the casts as floating-point numbers: the lower one is exact.
abbrev Bounded : IntType → FloatType → Type 0
Bounded t f =
    (from_integer f (value t (lowest t)) ≡ finite (value t (lowest t)) 0)
    × (from_integer f (value t (highest t)) ≡ finite (pos (upper_bound t f)) 0)

bounds-Bounded : (t : IntType) (f : FloatType) → Bounded t f
unfolding from_integer
bounds-Bounded i8 float = (refl, refl)
bounds-Bounded i16 float = (refl, refl)
bounds-Bounded i32 float = (refl, refl)
bounds-Bounded i64 float = (refl, refl)
bounds-Bounded u8 float = (refl, refl)
bounds-Bounded u16 float = (refl, refl)
bounds-Bounded u32 float = (refl, refl)
bounds-Bounded u64 float = (refl, refl)
bounds-Bounded i8 double = (refl, refl)
bounds-Bounded i16 double = (refl, refl)
bounds-Bounded i32 double = (refl, refl)
bounds-Bounded i64 double = (refl, refl)
bounds-Bounded u8 double = (refl, refl)
bounds-Bounded u16 double = (refl, refl)
bounds-Bounded u32 double = (refl, refl)
bounds-Bounded u64 double = (refl, refl)

-- The saturating cast between the bounds, at a value that is not negative and at one that is.
between_pos :
    (t : IntType) (f : FloatType) (a s k : ℕ)
    → 2 ^ s ≡ k
    → 0 < k
    → (if le_float (finite (pos a) s) (finite (value t (lowest t)) 0)
        then done (lowest t)
        else if le_float (finite (pos (upper_bound t f)) 0) (finite (pos a) s)
        then done (highest t)
        else to_integer t (finite (pos a) s))
      ≡ done (saturate t (integer_part (pos a) s))
unfolding saturate to_integer tdiv
between_pos i8 f a s k e h = rw e (ground (arith, ltb-div a k 127 h, ltb-div a k 128 h))
between_pos t f a s k e h =
    rw e (ground (arith, ltb-div a k (highest t) h, ltb-div a k (highest t + 1) h))

between_neg :
    (t : IntType) (f : FloatType) (a s k : ℕ)
    → 2 ^ s ≡ k
    → 0 < k
    → (if le_float (finite (negsuc a) s) (finite (value t (lowest t)) 0)
        then done (lowest t)
        else if le_float (finite (pos (upper_bound t f)) 0) (finite (negsuc a) s)
        then done (highest t)
        else to_integer t (finite (negsuc a) s))
      ≡ done (saturate t (integer_part (negsuc a) s))
unfolding saturate to_integer tdiv
between_neg i8 f a s k e h = rw e (ground (arith, ltb-div (suc a) k 128 h, ltb-div (suc a) k 129 h))
between_neg t f a s k e h =
    rw e (ground (arith, ltb-div (suc a) k (lowest t) h, ltb-div (suc a) k (lowest t + 1) h))

-- What the checked cast gives for z / 2 ^ s: the truncated value from the lowest to the highest value
-- of the type, and no result elsewhere. Only where the highest value is rounded up, 1 more than that
-- is let through, which no integer of the type is; the type `f` has no number in between.
unfoldable pub truncated : IntType → FloatType → ℤ → ℕ → Outcome (Option ℕ)
truncated t f z s =
    if not (le_float (finite (value t (lowest t)) 0) (finite z s))
    then done none
    else if le_float (finite z s) (finite (pos (highest t)) 0)
    then done (some (saturate t (integer_part z s)))
    else if rounds_up t f && le_float (finite z s) (finite (pos (highest t + 1)) 0)
    then (if le_float (finite (pos (highest t + 1)) 0) (finite z s)
        then undefined
        else done (some (highest t)))
    else done none

abbrev checked : IntType → FloatType → ℤ → ℕ → Outcome (Option ℕ)
checked t f z s =
    if le_float (finite (value t (lowest t)) 0) (finite z s)
      && le_float (finite z s) (finite (pos (upper_bound t f)) 0)
    then returned (to_integer t (finite z s))
    else done none

checked_pos :
    (t : IntType) (f : FloatType) (a s k : ℕ)
    → 2 ^ s ≡ k
    → 0 < k
    → checked t f (pos a) s ≡ truncated t f (pos a) s
unfolding truncated saturate to_integer tdiv
checked_pos i8 f a s k e h = rw e (ground (arith, ltb-div a k 127 h, ltb-div a k 128 h))
checked_pos t f a s k e h =
    rw e (ground (arith, ltb-div a k (highest t) h, ltb-div a k (highest t + 1) h))

checked_neg :
    (t : IntType) (f : FloatType) (a s k : ℕ)
    → 2 ^ s ≡ k
    → 0 < k
    → checked t f (negsuc a) s ≡ truncated t f (negsuc a) s
unfolding truncated saturate to_integer tdiv
checked_neg i8 f a s k e h = rw e (ground (arith, ltb-div (suc a) k 128 h, ltb-div (suc a) k 129 h))
checked_neg t f a s k e h =
    rw e (ground (arith, ltb-div (suc a) k (lowest t) h, ltb-div (suc a) k (lowest t + 1) h))

saturate_finite :
    (t : IntType) (f : FloatType) (z : ℤ) (s : ℕ)
    → saturate_float t f (finite z s) ≡ done (saturate t (integer_part z s))
unfolding saturate_float
saturate_finite t f (pos a) s =
    rw ((bounds-Bounded t f).0, (bounds-Bounded t f).1)
      (between_pos t f a s (2 ^ s) refl (one-le-pow s 2 (omega arith)))
saturate_finite t f (negsuc a) s =
    rw ((bounds-Bounded t f).0, (bounds-Bounded t f).1)
      (between_neg t f a s (2 ^ s) refl (one-le-pow s 2 (omega arith)))

numeric_finite :
    (t : IntType) (f : FloatType) (z : ℤ) (s : ℕ)
    → numeric_cast_float t f (finite z s) ≡ truncated t f z s
unfolding numeric_cast_float
numeric_finite t f (pos a) s =
    rw ((bounds-Bounded t f).0, (bounds-Bounded t f).1)
      (checked_pos t f a s (2 ^ s) refl (one-le-pow s 2 (omega arith)))
numeric_finite t f (negsuc a) s =
    rw ((bounds-Bounded t f).0, (bounds-Bounded t f).1)
      (checked_neg t f a s (2 ^ s) refl (one-le-pow s 2 (omega arith)))

-- The saturating cast of a finite `float` or `double` to any integer type is the saturating cast of
-- its integer part, that of an infinity is the lowest or the highest value, and that of a NaN the
-- sentinel. The checked cast fails for infinities and NaN, and for a finite number below the lowest
-- value; up to the highest value it gives the integer part. It fails above, but where the highest
-- value is rounded up in the floating-point type, 1 more than it is let through, which is undefined
-- behaviour.
pub saturate_float-numeric_cast_float :
    (t : IntType) (f : FloatType) (z : ℤ) (s : ℕ) (neg : Bool)
    → (saturate_float t f (finite z s) ≡ done (saturate t (integer_part z s)))
      × (saturate_float t f (infinite neg) ≡ done (if neg then lowest t else highest t))
      × (saturate_float t f nan ≡ done (sentinel t))
      × (numeric_cast_float t f (finite z s) ≡ truncated t f z s)
      × (numeric_cast_float t f (infinite neg) ≡ done none)
      × (numeric_cast_float t f nan ≡ done none)
unfolding saturate_float numeric_cast_float
saturate_float-numeric_cast_float t f z s neg = (
  saturate_finite t f z s,
  rw ((bounds-Bounded t f).0, (bounds-Bounded t f).1) (ground arith),
  refl,
  numeric_finite t f z s,
  rw ((bounds-Bounded t f).0, (bounds-Bounded t f).1) (ground arith),
  rw (bounds-Bounded t f).0 refl,
)

bit_length-le : (fuel p n : ℕ) → n < 2 ^ p → bit_length fuel n ≤ p
bit_length-le zero p n h = omega arith
bit_length-le (suc fuel) zero n h = ground arith
bit_length-le (suc fuel) (suc p) n h = ground (arith, bit_length-le fuel p (n / 2) (omega arith))

round_to_one : (n : ℕ) → round_to 1 n ≡ n
round_to_one n = ground arith

rounded-exact : (f : FloatType) (n : ℕ) → n < 2 ^ precision f → rounded f n ≡ n
rounded-exact f n h =
    let none_dropped : bit_length 64 n - precision f ≡ 0 =
      omega (arith, bit_length-le 64 (precision f) n h) in
    ap (λ d. round_to (2 ^ d) n) none_dropped ∙ round_to_one n

from_integer-exact :
    (f : FloatType) (z : ℤ)
    → pos_part z + neg_part z < 2 ^ precision f
    → from_integer f z ≡ finite z 0
unfolding from_integer
from_integer-exact f (pos n) h = ap (λ m. finite (pos m) 0) (rounded-exact f n (omega arith))
from_integer-exact f (negsuc n) h =
    ap (λ m. finite (neg_ℤ (pos m)) 0) (rounded-exact f (n + 1) (omega arith)) ∙ ground arith

integer_part_whole : (z : ℤ) → integer_part z 0 ≡ z
unfolding tdiv
integer_part_whole (pos n) = ground arith
integer_part_whole (negsuc n) = ground arith

saturate-value : (t : IntType) (a : ℕ) → IsPattern t a → saturate t (value t a) ≡ a
unfolding saturate
saturate-value i8 a h = ground arith
saturate-value _ a h = ground arith

-- A bit pattern of an integer type whose number has at most as many bits as a significand of
-- `float` or `double` comes back from the conversion to that type by the saturating cast.
pub saturate_float-to_float :
    (t : IntType) (f : FloatType) (a : ℕ)
    → IsPattern t a
    → pos_part (value t a) + neg_part (value t a) < 2 ^ precision f
    → saturate_float t f (to_float t f a) ≡ done a
unfolding to_float
saturate_float-to_float t f a h small =
    ap (saturate_float t f) (from_integer-exact f (value t a) small)
    ∙ saturate_finite t f (value t a) 0
    ∙ ap (λ z. done (saturate t z)) (integer_part_whole (value t a))
    ∙ ap done (saturate-value t a h)
