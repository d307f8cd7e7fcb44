-- ===== src/Integer/Ring.antt =====
-- Addition, subtraction and multiplication are those of the integers, brought back into the type.
use libcxxext.Prelude.{
  ℕ, ◌+◌, ◌-◌, ◌*◌, ◌%◌, ◌^◌, ◌≤◌, Bool, ◌&&◌, ◌≡◌, ap, arith, none, some, if◌then◌else◌, leb, ◌==◌,
}
use libcxxext.Prelude.Int.{◌+ℤ◌, ◌-ℤ◌, ◌*ℤ◌}
use libcxxext.Integer.{IntType, i8, width, modulus, value, cast, add, sub, mul}
use libcxxext.Integer.Arith.{IsPattern, product_of_bytes}

add_lem :
    (t : IntType) (a b : ℕ)
    → IsPattern t a
    → IsPattern t b
    → add t a b ≡ cast t (value t a +ℤ value t b)
unfolding add ◌+ℤ◌
add_lem i8 a b ha hb = ground arith
add_lem _ a b ha hb = ground arith

sub_lem :
    (t : IntType) (a b : ℕ)
    → IsPattern t a
    → IsPattern t b
    → sub t a b ≡ cast t (value t a -ℤ value t b)
unfolding sub ◌-ℤ◌
sub_lem i8 a b ha hb = ground arith
sub_lem _ a b ha hb = ground arith

complement : (m a b : ℕ) → a ≤ m → (m - a) * b + a * b ≡ m * b
complement m a b h =
    let whole : m - a + a ≡ m = omega arith in omega (arith, ap (λ (x : ℕ). x * b) whole)

complement_right : (m a b : ℕ) → b ≤ m → a * (m - b) + a * b ≡ a * m
complement_right m a b h =
    let whole : m - b + b ≡ m = omega arith in omega (arith, ap (λ (x : ℕ). a * x) whole)

product_lem :
    (t : IntType) (a b : ℕ)
    → IsPattern t a
    → IsPattern t b
    → a * b % modulus t ≡ cast t (value t a *ℤ value t b)
unfolding ◌*ℤ◌
product_lem i8 a b ha hb =
    ground (arith, complement 256 a b, complement_right 256 a b, complement_right 256 (256 - a) b)
product_lem t a b ha hb = ground (
  arith,
  complement (modulus t) a b,
  complement_right (modulus t) a b,
  complement_right (modulus t) (modulus t - a) b,
)

-- The product in `int` that is undefined.
abbrev pub overflows_int : IntType → ℕ → ℕ → Bool
overflows_int t a b = (width t == 16) && leb (2 ^ 31) (a * b)

mul_lem :
    (t : IntType) (a b : ℕ)
    → IsPattern t a
    → IsPattern t b
    → mul t a b ≡ (if overflows_int t a b then none else some (a * b % modulus t))
unfolding mul
mul_lem i8 a b ha hb = ground (arith, product_of_bytes a b)
mul_lem _ a b ha hb = ground (arith, product_of_bytes a b)

-- On two bit patterns of a type, `add` and `sub` are the sum and the difference of the two integers
-- brought back into the type, and so is `mul` the product, which is undefined just when the type
-- has 16 bits and the product of the patterns overflows `int`.
pub ring-cast :
    (t : IntType) (a b : ℕ)
    → IsPattern t a
    → IsPattern t b
    → (add t a b ≡ cast t (value t a +ℤ value t b))
      × (sub t a b ≡ cast t (value t a -ℤ value t b))
      × (mul t a b ≡ (if overflows_int t a b then none else some (cast t (value t a *ℤ value t b))))
ring-cast t a b ha hb =
    (add_lem t a b ha hb, sub_lem t a b ha hb, rw (← product_lem t a b ha hb) (mul_lem t a b ha hb))
