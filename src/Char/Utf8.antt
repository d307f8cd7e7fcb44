-- ===== src/Char/Utf8.antt =====
-- What UTF-8 reading and writing do, bit operations read as arithmetic.
use libcxxext.Prelude.{ℕ, suc, ◌+◌, ◌*◌, ◌/◌, ◌%◌, ◌^◌, ◌≤◌, ◌<◌, true, ◌≡◌, refl, arith}
use libcxxext.Prelude.{none, some, List, ◌∷◌, bit_and, bit_or, ◌==◌, if◌then◌else◌}
use libcxxext.Prelude.Bits.{bit_and-low, bit_or-shifted, bit_and-0xC0}
use libcxxext.Prelude.Outcome.{done}
use libcxxext.Integer.{u32, shl, shr}
use libcxxext.Integer.Shift.{shl-unsigned, shr-unsigned}
use libcxxext.Char.{
  is_continuation, is_scalar, found, lead_bits, continue_with, min_req, check_sequence,
  read_sequence, read_units8, read_codepoint8, trail_byte,
}

-- Shifts of 32-bit patterns by a constant.
pub shl_u32 : (a n : ℕ) → n < 32 → a * 2 ^ n < 2 ^ 32 → shl u32 a n ≡ a * 2 ^ n
shl_u32 a n hn h = ground (arith, shl-unsigned u32 a n refl)

pub shr_u32 : (a n : ℕ) → n < 32 → a < 2 ^ 32 → shr u32 a n ≡ a / 2 ^ n
shr_u32 a n hn h = ground (arith, shr-unsigned u32 a n refl h)

-- The masks and the tags of UTF-8.
low_six : (x : ℕ) → bit_and x 0x3F ≡ x % 64
low_six x = bit_and-low 6 x

low_five : (x : ℕ) → bit_and x 0x1F ≡ x % 32
low_five x = bit_and-low 5 x

pub low_four : (x : ℕ) → bit_and x 0x0F ≡ x % 16
low_four x = bit_and-low 4 x

low_three : (x : ℕ) → bit_and x 0x07 ≡ x % 8
low_three x = bit_and-low 3 x

tag_80 : (r : ℕ) → r < 64 → bit_or 0x80 r ≡ 0x80 + r
tag_80 r h = bit_or-shifted 6 2 r h

pub tag_C0 : (r : ℕ) → r < 64 → bit_or 0xC0 r ≡ 0xC0 + r
tag_C0 r h = bit_or-shifted 6 3 r h

pub tag_E0 : (r : ℕ) → r < 16 → bit_or 0xE0 r ≡ 0xE0 + r
tag_E0 r h = bit_or-shifted 4 14 r h

pub tag_F0 : (r : ℕ) → r < 8 → bit_or 0xF0 r ≡ 0xF0 + r
tag_F0 r h = bit_or-shifted 3 30 r h

pub trail_byte_lem : (x : ℕ) → trail_byte x ≡ 0x80 + x % 64
trail_byte_lem x = rw (low_six x, tag_80 (x % 64) (omega arith)) (omega arith)

pub is_continuation_lem : (b : ℕ) → is_continuation b ≡ (b / 64 % 4 == 2)
unfolding is_continuation
is_continuation_lem b = rw (bit_and-0xC0 b) (ground arith)

-- One round of the loop takes six more bits.
pub continue_with-suc :
    (n ret bi : ℕ) (rest : List ℕ)
    → ret < 2 ^ 26
    → continue_with (suc n) ret (bi ∷ rest)
      ≡ (if bi / 64 % 4 == 2 then continue_with n (ret * 64 + bi % 64) rest else done none)
unfolding continue_with
continue_with-suc n ret bi rest h =
    rw
      (
        is_continuation_lem bi,
        shl_u32 ret 6 (omega arith) (omega arith),
        low_six bi,
        bit_or-shifted 6 ret (bi % 64) (omega arith),
      )
      (ground arith)

continue_with-byte :
    (n ret x : ℕ) (rest : List ℕ)
    → ret < 2 ^ 26
    → x < 64
    → continue_with (suc n) ret ((0x80 + x) ∷ rest) ≡ continue_with n (ret * 64 + x) rest
continue_with-byte n ret x rest h hx = ground (arith, continue_with-suc n ret (0x80 + x) rest h)

lead_bits-two : (q : ℕ) → 2 ≤ q → q < 32 → lead_bits (0xC0 + q) ≡ some (q, 2)
unfolding lead_bits
lead_bits-two q lo hi = rw (low_five (0xC0 + q)) (ground arith)

pub lead_bits-three : (q : ℕ) → q < 16 → lead_bits (0xE0 + q) ≡ some (q, 3)
unfolding lead_bits
lead_bits-three q hi = rw (low_four (0xE0 + q)) (ground arith)

lead_bits-four : (q : ℕ) → q < 5 → lead_bits (0xF0 + q) ≡ some (q, 4)
unfolding lead_bits
lead_bits-four q hi = rw (low_three (0xF0 + q)) (ground arith)

module _ (q x : ℕ) (rest : List ℕ) (hx : x < 64) where
  pub read_two :
      2 ≤ q → q < 32 → read_codepoint8 (0xC0 + q) ((0x80 + x) ∷ rest) ≡ found (q * 64 + x) 2
  unfolding read_codepoint8 read_units8 read_sequence check_sequence min_req is_scalar continue_with
  read_two lo hi = ground (arith, lead_bits-two q lo hi, continue_with-byte 0 q x rest)

  module _ (y : ℕ) (hy : y < 64) where
    pub read_three :
        q < 16
        → 0x800 ≤ (q * 64 + x) * 64 + y
        → is_scalar ((q * 64 + x) * 64 + y) ≡ true
        → read_codepoint8 (0xE0 + q) ((0x80 + x) ∷ (0x80 + y) ∷ rest)
          ≡ found ((q * 64 + x) * 64 + y) 3
    unfolding read_codepoint8 read_units8 read_sequence check_sequence min_req continue_with
    read_three hi big sc = ground (
      arith,
      lead_bits-three q hi,
      continue_with-byte 1 q x ((0x80 + y) ∷ rest),
      continue_with-byte 0 (q * 64 + x) y rest,
    )

    pub read_four :
        (z : ℕ)
        → z < 64
        → q < 5
        → 0x10000 ≤ ((q * 64 + x) * 64 + y) * 64 + z
        → is_scalar (((q * 64 + x) * 64 + y) * 64 + z) ≡ true
        → read_codepoint8 (0xF0 + q) ((0x80 + x) ∷ (0x80 + y) ∷ (0x80 + z) ∷ rest)
          ≡ found (((q * 64 + x) * 64 + y) * 64 + z) 4
    unfolding read_codepoint8 read_units8 read_sequence check_sequence min_req continue_with
    read_four z hz hi big sc = ground (
      arith,
      lead_bits-four q hi,
      continue_with-byte 2 q x ((0x80 + y) ∷ (0x80 + z) ∷ rest),
      continue_with-byte 1 (q * 64 + x) y ((0x80 + z) ∷ rest),
      continue_with-byte 0 ((q * 64 + x) * 64 + y) z rest,
    )
