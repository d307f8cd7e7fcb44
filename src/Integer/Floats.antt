-- ===== src/Integer/Floats.antt =====
-- The floating-point casts of sys/Numeric.h, at `float` and `double` of IEC 60559.
pub mod Casts
use libcxxext.Prelude.{
  ℕ, zero, suc, ◌+◌, ◌-◌, ◌*◌, ◌/◌, ◌%◌, ◌^◌, Bool, true, false, not, ◌&&◌, ◌||◌, List, ◌==◌, ltb,
  leb, if◌then◌else◌, Option, none, some,
}
use libcxxext.Prelude.Int.{ℤ, pos, negsuc, pos_part, neg_part, neg_ℤ, tdiv, ltb_ℤ}
use libcxxext.Prelude.Outcome.{Outcome, done, undefined, ◌>>=◌}
use libcxxext.Integer.{IntType, value, cast, highest, lowest, sentinel}

pub data FloatType : Type 0 where
  float double : FloatType

-- The bits of a significand.
abbrev pub precision : FloatType → ℕ
precision float = 24
precision double = 53

-- `finite z s` is z / 2 ^ s; `infinite` has the sign.
pub data Float : Type 0 where
  nan : Float
  infinite : Bool → Float
  finite : ℤ → ℕ → Float

-- `fuel` bits are enough for a number below 2 ^ fuel.
abbrev pub bit_length : ℕ → ℕ → ℕ
bit_length zero n = 0
bit_length (suc fuel) n = if n == 0 then 0 else suc (bit_length fuel (n / 2))

-- To the nearest multiple of `unit`, or to the even one of two.
abbrev pub round_to : ℕ → ℕ → ℕ
round_to unit n =
    if ltb unit (2 * (n % unit)) || 2 * (n % unit) == unit && n / unit % 2 == 1
    then (n / unit + 1) * unit
    else n / unit * unit

abbrev pub rounded : FloatType → ℕ → ℕ
rounded f n = round_to (2 ^ (bit_length 64 n - precision f)) n

-- An integer of at most 64 bits as a floating-point number.
unfoldable pub from_integer : FloatType → ℤ → Float
from_integer f (pos n) = finite (pos (rounded f n)) 0
from_integer f (negsuc n) = finite (neg_ℤ (pos (rounded f (n + 1)))) 0

-- The conversion of an integer to a floating-point type.
pub to_float : IntType → FloatType → ℕ → Float
to_float t f a = from_integer f (value t a)

-- `a <= b`, which is false for a NaN.
abbrev pub le_float : Float → Float → Bool
le_float nan b = false
le_float a nan = false
le_float (infinite neg) (infinite neg') = neg || not neg'
le_float (infinite neg) (finite z s) = neg
le_float (finite z s) (infinite neg) = not neg
le_float (finite z s) (finite y r) =
    leb (pos_part z * 2 ^ r + neg_part y * 2 ^ s) (pos_part y * 2 ^ s + neg_part z * 2 ^ r)

-- `To(value)`: the integer part, undefined when the type does not have it.
abbrev pub integer_part : ℤ → ℕ → ℤ
integer_part z s = tdiv z (pos (2 ^ s))

unfoldable pub to_integer : IntType → Float → Outcome ℕ
to_integer to (finite z s) =
    let i = integer_part z s in
    if ltb_ℤ i (value to (lowest to)) || ltb_ℤ (value to (highest to)) i
    then undefined
    else done (cast to i)
to_integer to _ = undefined

-- `bnumeric_cast<To>(value, unsafe)`, which saturates.
unfoldable pub saturate_float : IntType → FloatType → Float → Outcome ℕ
saturate_float to f v = elim v as (λ x. Outcome ℕ) [
  | nan ↦ done (sentinel to)
  | w ↦
      if le_float w (from_integer f (value to (lowest to)))
      then done (lowest to)
      else if le_float (from_integer f (value to (highest to))) w
      then done (highest to)
      else to_integer to w
]

abbrev pub returned : Outcome ℕ → Outcome (Option ℕ)
returned o = o >>= (λ n. done (some n))

-- `bnumeric_cast<To>(value)`; `none` is the error.
unfoldable pub numeric_cast_float : IntType → FloatType → Float → Outcome (Option ℕ)
numeric_cast_float to f v =
    if le_float (from_integer f (value to (lowest to))) v
      && le_float v (from_integer f (value to (highest to)))
    then returned (to_integer to v)
    else done none
