-- ===== src/BitTwiddling/Bytes.antt =====
-- The two bytes of a 16-bit integer.
use libcxxext.Prelude.{ℕ, ◌+◌, ◌*◌, ◌/◌, ◌%◌, ◌^◌, ◌<◌, ◌≡◌, refl, arith}
use libcxxext.Prelude.Bits.{bit_or-shifted}
use libcxxext.Integer.{u16}
use libcxxext.Integer.Shift.{shl-unsigned, shr-unsigned}
use libcxxext.BitTwiddling.{s16fb2, hbfs16, lbfs16}

s16fb2_lem : (msb lsb : ℕ) → msb < 2 ^ 8 → lsb < 2 ^ 8 → s16fb2 msb lsb ≡ msb * 2 ^ 8 + lsb
unfolding s16fb2
s16fb2_lem msb lsb hm hl =
    ground (arith, shl-unsigned u16 (msb % 2 ^ 16) 8 refl, bit_or-shifted 8 msb lsb hl)

hbfs16_lem : (val : ℕ) → val < 2 ^ 16 → hbfs16 val ≡ val / 2 ^ 8
unfolding hbfs16
hbfs16_lem val h = ground (arith, shr-unsigned u16 (val % 2 ^ 16) 8 refl (omega arith))

pub hbfs16-s16fb2 :
    (msb lsb : ℕ)
    → msb < 2 ^ 8
    → lsb < 2 ^ 8
    → (hbfs16 (s16fb2 msb lsb) ≡ msb) × (lbfs16 (s16fb2 msb lsb) ≡ lsb)
unfolding lbfs16
hbfs16-s16fb2 msb lsb hm hl =
    rw (s16fb2_lem msb lsb hm hl, hbfs16_lem (msb * 2 ^ 8 + lsb) (omega arith))
      (omega arith, omega arith)

pub s16fb2-hbfs16 : (val : ℕ) → val < 2 ^ 16 → s16fb2 (hbfs16 val) (lbfs16 val) ≡ val
unfolding lbfs16
s16fb2-hbfs16 val h =
    rw (hbfs16_lem val h, s16fb2_lem (val / 2 ^ 8) (val % 2 ^ 8) (omega arith) (omega arith))
      (omega arith)
