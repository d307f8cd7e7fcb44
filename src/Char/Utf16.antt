-- ===== src/Char/Utf16.antt =====
-- UTF-16 surrogate pairs, the 32-bit operations read as arithmetic.
use libcxxext.Prelude.{ℕ, ◌+◌, ◌*◌, ◌/◌, ◌%◌, ◌<◌, true, ◌≡◌, arith}
use libcxxext.Prelude.{List, [], ◌∷◌, bit_and}
use libcxxext.Prelude.Bits.{bit_and-low}
use libcxxext.Integer.{u32, add, sub}
use libcxxext.Char.{is_scalar, found, read_codepoint16, write_codepoint16}
use libcxxext.Char.Utf8.{shl_u32, shr_u32}

low_ten : (x : ℕ) → bit_and x 0x3FF ≡ x % 1024
low_ten x = bit_and-low 10 x

lead_offset : (h : ℕ) → h < 1024 → sub u32 (0xD800 + h) 0xD800 ≡ h
unfolding sub
lead_offset h hh = omega arith

trail_offset : (l : ℕ) → l < 1024 → sub u32 (0xDC00 + l) 0xDC00 ≡ l
unfolding sub
trail_offset l hl = omega arith

-- A high surrogate and a low one are read as the pair of their ten-bit payloads.
pub read_pair :
    (h l : ℕ) (rest : List ℕ)
    → h < 1024
    → l < 1024
    → read_codepoint16 (0xD800 + h) ((0xDC00 + l) ∷ rest) ≡ found (0x10000 + h * 1024 + l) 2
unfolding read_codepoint16 add
read_pair h l rest hh hl =
    ground (arith, lead_offset h hh, trail_offset l hl, shl_u32 h 10 (omega arith) (omega arith))

value_offset : (v : ℕ) → v < 0x100000 → sub u32 (0x10000 + v) 0x10000 ≡ v
unfolding sub
value_offset v h = omega arith

-- Above U+FFFF a scalar value is written as such a pair.
pub write_pair :
    (v : ℕ)
    → v < 0x100000
    → is_scalar (0x10000 + v) ≡ true
    → write_codepoint16 (0x10000 + v) ≡ (0xD800 + v / 1024) ∷ (0xDC00 + v % 1024) ∷ []
unfolding write_codepoint16 add
write_pair v h sc =
    ground (arith, value_offset v h, shr_u32 v 10 (omega arith) (omega arith), low_ten v)
