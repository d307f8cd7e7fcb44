-- ===== src/Examples/Floats.antt =====
-- The floating-point casts at concrete numbers.
use libcxxext.Prelude.{true, ◌≡◌, refl, none, some, arith}
use libcxxext.Prelude.Int.{pos, negsuc, tdiv}
use libcxxext.Prelude.Outcome.{done, undefined}
use libcxxext.Integer.{i8, i32, i64, u8, saturate, sentinel}
use libcxxext.Integer.Floats.{
  float, double, nan, infinite, finite, from_integer, to_float, integer_part, to_integer,
  saturate_float, numeric_cast_float,
}
use libcxxext.Integer.Floats.Casts.{
  truncated, saturate_float-numeric_cast_float, saturate_float-to_float,
}

-- 2 ^ 63 as an `i64`, from a `double`: it saturates, and the checked cast lets it through.
saturate_float-numeric_cast_float_example :
    (saturate_float i64 double (finite (pos 9223372036854775808) 0)
      ≡ done (saturate i64 (integer_part (pos 9223372036854775808) 0)))
    × (saturate_float i64 double (infinite true) ≡ done 9223372036854775808)
    × (saturate_float i64 double nan ≡ done (sentinel i64))
    × (numeric_cast_float i64 double (finite (pos 9223372036854775808) 0) ≡ undefined)
    × (numeric_cast_float i64 double (infinite true) ≡ done none)
    × (numeric_cast_float i64 double nan ≡ done none)
unfolding truncated
saturate_float-numeric_cast_float_example =
    saturate_float-numeric_cast_float i64 double (pos 9223372036854775808) 0 true

-- -2.5 and 0.5
truncated_halves :
    (numeric_cast_float i8 float (finite (negsuc 4) 1) ≡ done (some 254))
    × (numeric_cast_float u8 float (finite (pos 1) 1) ≡ done (some 0))
    × (saturate_float i32 double (finite (negsuc 4) 1) ≡ done 4294967294)
unfolding numeric_cast_float saturate_float from_integer to_integer tdiv
truncated_halves = (refl, refl, refl)

-- -5 in `i64` is a `float`.
saturate_float-to_float_example :
    saturate_float i64 float (to_float i64 float 18446744073709551611) ≡ done 18446744073709551611
saturate_float-to_float_example =
    saturate_float-to_float i64 float 18446744073709551611 (omega arith) (omega arith)
