-- ===== src/Examples/Numbers.antt =====
-- `sys::integer` at concrete values.
use libcxxext.Integer.Ring.{overflows_int, ring-cast}
use libcxxext.BitTwiddling.Bytes.{hbfs16-s16fb2}
use libcxxext.BitTwiddling.PowerOfTwo.{IsNextPower, nr2i32-IsNextPower}
use libcxxext.BitTwiddling.{nr2i32, s16fb2, hbfs16, lbfs16, dhc2}
use libcxxext.Prelude.{◌*◌, ◌^◌, ◌≤◌, ◌≡◌, ◌↔◌, refl, arith, none, some, if◌then◌else◌}
use libcxxext.Prelude.Int.{pos, negsuc, tdiv, tmod, ◌+ℤ◌, ◌-ℤ◌, ◌*ℤ◌}
use libcxxext.Integer.{
  i8, u8, u16, value, cast, add, sub, mul, negate, div, mod_by, shl, shr, saturate, width,
}
use libcxxext.Integer.Arith.{
  IsPattern, value-add, value-sub, sub-add, value-negate, value-div, value-mod_by, mul-undefined,
}
use libcxxext.Integer.Shift.{shl-shifted, shr-shifted}
use libcxxext.Integer.Cast.{cast-value, value-saturate}

-- -128 + 100 in `i8`
value-add_example : value i8 (add i8 0x80 100) ≡ negsuc 27
unfolding ◌+ℤ◌
value-add_example = value-add i8 0x80 100 (omega arith) (omega arith) (omega arith)

value-sub_example : value i8 (sub i8 5 100) ≡ negsuc 94
unfolding ◌-ℤ◌
value-sub_example = value-sub i8 5 100 (omega arith) (omega arith) (omega arith)

sub-add_example : (sub u8 (add u8 200 100) 100 ≡ 200) × (add u8 (sub u8 200 100) 100 ≡ 200)
sub-add_example = sub-add u8 200 100 (omega arith) (omega arith)

-- -(-128) is 127
value-negate_example : value i8 (negate i8 0x80) ≡ pos 127
value-negate_example = value-negate i8 0x80 (omega arith) refl

-- -128 / -1 is 127
value-div_example : value i8 (div i8 0x80 0xFF) ≡ pos 127
unfolding tdiv
value-div_example = value-div i8 0x80 0xFF (omega arith) (omega arith) (omega arith)

-- -128 % 3 is -2
value-mod_by_example : value i8 (mod_by i8 0x80 3) ≡ negsuc 1
unfolding tmod
value-mod_by_example = value-mod_by i8 0x80 3 (omega arith) (omega arith)

mul-undefined_example :
    (mul u16 0xFFFF 0xFFFF ≡ none) ↔ ((width u16 ≡ 16) × (2 ^ 31 ≤ 0xFFFF * 0xFFFF))
mul-undefined_example = mul-undefined u16 0xFFFF 0xFFFF (omega arith) (omega arith)

-- 0x81 << -1 in `i8`
shl-shifted_example : shl i8 0x81 0xFF ≡ 0x40
shl-shifted_example = shl-shifted i8 0x81 0xFF (omega arith) (omega arith)

shr-shifted_example : shr i8 0x81 0xFF ≡ 0x02
shr-shifted_example = shr-shifted i8 0x81 0xFF (omega arith) (omega arith)

cast-value_example : cast i8 (value i8 0x80) ≡ 0x80
cast-value_example = cast-value i8 0x80 (omega arith)

value-saturate_example :
    IsPattern u8 (saturate u8 (pos 300)) × (value u8 (saturate u8 (pos 300)) ≡ pos 255)
value-saturate_example = value-saturate u8 (pos 300)

nr2i32-IsNextPower_example : IsNextPower 5 (nr2i32 5)
nr2i32-IsNextPower_example = nr2i32-IsNextPower 5 (omega arith) (omega arith)

hbfs16-s16fb2_example : (hbfs16 (s16fb2 0x80 0x7F) ≡ 0x80) × (lbfs16 (s16fb2 0x80 0x7F) ≡ 0x7F)
hbfs16-s16fb2_example = hbfs16-s16fb2 0x80 0x7F (omega arith) (omega arith)

ring-cast_example :
    (add i8 0x80 100 ≡ cast i8 (value i8 0x80 +ℤ value i8 100))
    × (sub i8 0x80 100 ≡ cast i8 (value i8 0x80 -ℤ value i8 100))
    × (mul i8 0x80 100 ≡ (
        if overflows_int i8 0x80 100 then none else some (cast i8 (value i8 0x80 *ℤ value i8 100))))
ring-cast_example = ring-cast i8 0x80 100 (omega arith) (omega arith)

-- The hashes 1 and 2
dhc2_one_two : dhc2 1 2 ≡ 0x9e3779fa
unfolding dhc2 add shl shr
dhc2_one_two = refl
