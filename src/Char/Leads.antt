-- ===== src/Char/Leads.antt =====
-- The branch of `read_codepoint` for UTF-8 that takes every first byte below 0xF0 which the branch
-- before it did not take.
use libcxxext.Prelude.{ℕ, ◌+◌, ◌/◌, ◌%◌, ◌≤◌, ◌<◌, true, ◌≡◌, ◌≢◌, ◌∙◌, arith, some, List, [], ◌∷◌}
use libcxxext.Char.{is_scalar, lead_bits, read_units8, read_codepoint8, write_codepoint8}
use libcxxext.Char.Utf8.{low_four, lead_bits-three}
use libcxxext.Char.RoundTrip.{ReadsAs, three_bytes, read-write_codepoint8_scalar}

lead_bits-misread : (b : ℕ) → 0x80 ≤ b → b < 0xC2 → lead_bits b ≡ some (b % 16, 3)
unfolding lead_bits
lead_bits-misread b lo hi = rw (low_four b) (ground arith)

-- A continuation byte, or 0xC0 or 0xC1, is read as a first byte of three with the same low bits.
pub misread_lead :
    (b : ℕ) (rest : List ℕ)
    → 0x80 ≤ b
    → b < 0xC2
    → read_codepoint8 b rest ≡ read_codepoint8 (0xE0 + b % 16) rest
unfolding read_codepoint8 read_units8
misread_lead b rest lo hi =
    ground (arith, lead_bits-misread b lo hi, lead_bits-three (b % 16) (omega arith))

-- Every scalar value c from U+0800 to U+FFFF is also read from three bytes that `write_codepoint`
-- does not write for it, the first of which is 0x80 + c / 4096 in place of 0xE0 + c / 4096: the
-- reader accepts ill-formed UTF-8.
pub second_spelling :
    (c : ℕ) (rest : List ℕ)
    → 0x800 ≤ c
    → c < 0x10000
    → is_scalar c ≡ true
    → let bytes = (0x80 + c / 4096) ∷ (0x80 + c / 64 % 64) ∷ (0x80 + c % 64) ∷ [] in
      ReadsAs read_codepoint8 bytes c rest × (bytes ≢ write_codepoint8 c)
second_spelling c rest lo hi sc =
    let low : (0x80 + c / 4096) % 16 ≡ c / 4096 = omega arith in
    let read = read-write_codepoint8_scalar c rest sc in
    (
      misread_lead (0x80 + c / 4096) _ (omega arith) (omega arith)
          ∙ rw low (rw (three_bytes c lo hi sc) at read),
      λ e. differ (e ∙ three_bytes c lo hi sc),
    )
  where
    differ :
        (0x80 + c / 4096) ∷ (0x80 + c / 64 % 64) ∷ (0x80 + c % 64) ∷ []
          ≡ (0xE0 + c / 4096) ∷ (0x80 + c / 64 % 64) ∷ (0x80 + c % 64) ∷ []
        → ⊥
    differ e = ground arith
