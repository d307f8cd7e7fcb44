-- ===== src/Integer.antt =====
-- `sys::integer<For>` (sys/Integer.h). A value is kept as the bit pattern that `u()` returns, a
-- number below `2 ^ width`; `value` reads it as the `underlying` integer. `int` has 32 bits.
pub mod Arith
pub mod Shift
pub mod Cast
pub mod Ring
pub mod Widening
pub mod Floats
use libcxxext.Prelude.{ℕ, ◌+◌, ◌-◌, ◌*◌, ◌/◌, ◌%◌, ◌^◌, ◌<◌, Bool, true, false, ◌&&◌, not}
use libcxxext.Prelude.{◌||◌, min, bit_and, bit_or, bit_xor, Option, none, some}
use libcxxext.Prelude.{ltb, leb, ◌==◌, if◌then◌else◌}
use libcxxext.Prelude.Int.{ℤ, pos, negsuc, neg_ℤ, tdiv, tmod, ltb_ℤ, eqb_ℤ}

-- The built-in types behind the aliases; `sz` and `ssz` are 64 bits wide.
pub data IntType : Type 0 where
  i8 i16 i32 i64 u8 u16 u32 u64 : IntType

abbrev pub width : IntType → ℕ
width i8 = 8
width i16 = 16
width i32 = 32
width i64 = 64
width u8 = 8
width u16 = 16
width u32 = 32
width u64 = 64

abbrev pub is_signed : IntType → Bool
is_signed i8 = true
is_signed i16 = true
is_signed i32 = true
is_signed i64 = true
is_signed _ = false

abbrev pub modulus : IntType → ℕ
modulus t = 2 ^ width t

-- 2 ^ (width - 1)
abbrev pub half : IntType → ℕ
half t = modulus t / 2

-- `underlying < 0`
abbrev pub is_negative : IntType → ℕ → Bool
is_negative t a = is_signed t && leb (half t) a

-- The number that `underlying` stands for.
abbrev pub value : IntType → ℕ → ℤ
value t a = if is_negative t a then negsuc (modulus t - a - 1) else pos a

-- `static_cast<For>` of an integer: modulo 2 ^ width.
abbrev pub cast : IntType → ℤ → ℕ
cast t (pos n) = n % modulus t
cast t (negsuc n) = modulus t - 1 - n % modulus t

abbrev pub highest : IntType → ℕ
highest t = if is_signed t then half t - 1 else modulus t - 1

abbrev pub lowest : IntType → ℕ
lowest t = if is_signed t then half t else 0

pub ones : IntType → ℕ
ones t = cast t (negsuc 0)

unfoldable pub sentinel : IntType → ℕ
sentinel t = if is_signed t then lowest t else highest t

-- `operator++` and `operator--`, the prefix and the postfix forms store the same value.
unfoldable pub increment : IntType → ℕ → ℕ
increment t a = (a + 1) % modulus t

unfoldable pub decrement : IntType → ℕ → ℕ
decrement t a = (a + modulus t - 1) % modulus t

unfoldable pub add : IntType → ℕ → ℕ → ℕ
add t a b = (a + b) % modulus t

unfoldable pub sub : IntType → ℕ → ℕ → ℕ
sub t a b = (a + modulus t - b) % modulus t

-- `a.u() * b.u()`: operands narrower than `int` are promoted to it, and `none` is the undefined
-- overflow of that product.
pub mul : IntType → ℕ → ℕ → Option ℕ
mul t a b = if ltb (width t) 32 && leb (2 ^ 31) (a * b) then none else some (a * b % modulus t)

-- `operator-()`, which only the signed types have.
pub negate : IntType → ℕ → ℕ
negate t a = if a == lowest t then highest t else cast t (neg_ℤ (value t a))

-- b == -1, at a signed type
abbrev pub is_minus_one : IntType → ℕ → Bool
is_minus_one t b = b == modulus t - 1

pub div : IntType → ℕ → ℕ → ℕ
div t a b =
    if b == 0
    then (if is_negative t a then lowest t else highest t)
    else if is_signed t && (a == lowest t && is_minus_one t b)
    then highest t
    else cast t (tdiv (value t a) (value t b))

pub mod_by : IntType → ℕ → ℕ → ℕ
mod_by t a b =
    if b == 0
    then a
    else if is_signed t && (a == lowest t && is_minus_one t b)
    then 0
    else cast t (tmod (value t a) (value t b))

pub bit_not : IntType → ℕ → ℕ
bit_not t a = modulus t - 1 - a

-- `integer(_as(-_as(cond, signed_t), For), unsafe)`: all ones, or zero.
abbrev pub mask : IntType → Bool → ℕ
mask t c = if c then modulus t - 1 else 0

-- -b, where b < 0
abbrev pub magnitude : IntType → ℕ → ℕ
magnitude t b = modulus t - b

-- The shift by `n` of `u()`, the count clamped and the result masked, as both shifts do it.
abbrev pub shift_left : IntType → ℕ → ℕ → ℕ
shift_left t a n = bit_and (a * 2 ^ min n (width t - 1) % modulus t) (mask t (ltb n (width t)))

abbrev pub shift_right : IntType → ℕ → ℕ → ℕ
shift_right t a n = bit_and (a / 2 ^ min n (width t - 1)) (mask t (ltb n (width t)))

unfoldable pub shl : IntType → ℕ → ℕ → ℕ
shl t a b = if is_negative t b then shift_right t a (magnitude t b) else shift_left t a b

unfoldable pub shr : IntType → ℕ → ℕ → ℕ
shr t a b = if is_negative t b then shift_left t a (magnitude t b) else shift_right t a b

-- The comparisons between two integer types, by the numbers that the operands stand for.
unfoldable pub eq : IntType → IntType → ℕ → ℕ → Bool
eq t u a b = eqb_ℤ (value t a) (value u b)

unfoldable pub lt : IntType → IntType → ℕ → ℕ → Bool
lt t u a b = ltb_ℤ (value t a) (value u b)

unfoldable pub le : IntType → IntType → ℕ → ℕ → Bool
le t u a b = not (ltb_ℤ (value u b) (value t a))

unfoldable pub gt : IntType → IntType → ℕ → ℕ → Bool
gt t u a b = ltb_ℤ (value u b) (value t a)

unfoldable pub ge : IntType → IntType → ℕ → ℕ → Bool
ge t u a b = not (ltb_ℤ (value t a) (value u b))

-- `bnumeric_cast<To>(value, unsafe)` (sys/Numeric.h), which saturates.
pub saturate : IntType → ℤ → ℕ
saturate to v =
    if ltb_ℤ v (value to (lowest to))
    then lowest to
    else if ltb_ℤ (value to (highest to)) v
    then highest to
    else cast to v

-- `bnumeric_cast<To>(value)`, which fails out of range.
pub numeric_cast : IntType → ℤ → Option ℕ
numeric_cast to v =
    if ltb_ℤ v (value to (lowest to)) || ltb_ℤ (value to (highest to)) v
    then none
    else some (cast to v)

-- The literal suffixes `_i8` to `_uz` at an unsigned literal; `none` is the thrown
-- `std::overflow_error`. The lower bound is tested for the signed types only.
pub literal : IntType → ℕ → Option ℕ
literal t lit =
    if ltb_ℤ (value t (highest t)) (pos lit) || is_signed t && ltb_ℤ (pos lit) (value t (lowest t))
    then none
    else some (cast t (pos lit))
