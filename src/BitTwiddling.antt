-- ===== src/BitTwiddling.antt =====
-- sys/BitTwiddling.h, over the bit patterns of `sys::integer`.
pub mod Bytes
pub mod PowerOfTwo
pub mod Hashes
use libcxxext.Prelude.{ℕ, ◌%◌, ◌^◌, bit_or, bit_xor}
use libcxxext.Integer.{i16, i32, i64, u8, u16, u32, u64, add, decrement, increment, shl, shr}

-- `v |= v >> n`
abbrev pub smear_by_32 : ℕ → ℕ → ℕ
smear_by_32 n v = bit_or v (shr i32 v n)

abbrev pub smear_by_64 : ℕ → ℕ → ℕ
smear_by_64 n v = bit_or v (shr i64 v n)

abbrev pub smear_32 : ℕ → ℕ
smear_32 v = smear_by_32 16 (smear_by_32 8 (smear_by_32 4 (smear_by_32 2 (smear_by_32 1 v))))

unfoldable pub nr2i32 : ℕ → ℕ
nr2i32 v = increment i32 (smear_32 (decrement i32 v))

abbrev pub smear_64 : ℕ → ℕ
smear_64 v =
    smear_by_64 32
      (smear_by_64 16 (smear_by_64 8 (smear_by_64 4 (smear_by_64 2 (smear_by_64 1 v)))))

unfoldable pub nr2i64 : ℕ → ℕ
nr2i64 v = increment i64 (smear_64 (decrement i64 v))

-- A conversion to an unsigned type keeps the low bits of the pattern, and one of the same width keeps
-- the pattern.
unfoldable pub s16fb2 : ℕ → ℕ → ℕ
s16fb2 msb lsb = bit_or (shl u16 (msb % 2 ^ 16) 8) (lsb % 2 ^ 16) % 2 ^ 16

unfoldable pub hbfs16 : ℕ → ℕ
hbfs16 val = shr u16 (val % 2 ^ 16) 8 % 2 ^ 8

unfoldable pub lbfs16 : ℕ → ℕ
lbfs16 val = val % 2 ^ 8

-- `dhc2(a, b)`, over the values of `std::hash` at `a` and `b`.
unfoldable pub dhc2 : ℕ → ℕ → ℕ
dhc2 seed hash_b =
    bit_xor seed (add u64 (add u64 (add u64 hash_b 0x9e3779b9) (shl u64 seed 6)) (shr u64 seed 2))
