-- ===== src/Char.antt =====
-- `sys::ch` (sys.Text/Char.h): what a code unit is, and how a code point is read from a buffer of
-- code units and written to one. Values are `u32` patterns, whose comparisons are those of numbers.
pub mod Utf16
pub mod Utf8
pub mod RoundTrip
pub mod Reading
pub mod Encoding
pub mod Leads
use libcxxext.Prelude.{ℕ, zero, suc, ◌+◌, ◌-◌, ◌*◌, ◌%◌, ◌^◌, Bool, true, false, not, ◌&&◌, ◌||◌}
use libcxxext.Prelude.{Option, none, some, List, [], ◌∷◌, length, bit_and, bit_or}
use libcxxext.Prelude.{ltb, leb, ◌==◌, if◌then◌else◌}
use libcxxext.Prelude.Outcome.{Outcome, done, undefined, ◌>>=◌}
use libcxxext.Integer.{u32, add, sub, shl, shr}

-- The replacement character, U+FFFD.
abbrev pub replacement : ℕ
replacement = 0xFFFD

pub is_continuation : ℕ → Bool
is_continuation b = bit_and b 0xC0 == 0x80

unfoldable pub is_surrogate : ℕ → Bool
is_surrogate c = leb 0xD800 c && leb c 0xDFFF

unfoldable pub is_high_surrogate : ℕ → Bool
is_high_surrogate c = leb 0xD800 c && leb c 0xDBFF

unfoldable pub is_low_surrogate : ℕ → Bool
is_low_surrogate c = leb 0xDC00 c && leb c 0xDFFF

unfoldable pub is_scalar : ℕ → Bool
unfolding is_surrogate
is_scalar c = leb c 0x10FFFF && not (is_surrogate c)

-- `codepoint_data`: the code point, and the number of elements read.
pub record CodepointData : Type 0 where
  pub c : ℕ
  pub size_bytes : ℕ

abbrev pub found : ℕ → ℕ → CodepointData
found c n = record { c = c; size_bytes = n }

abbrev pub read_codepoint_fail : CodepointData
read_codepoint_fail = found replacement 1

-- `read_codepoint`. The buffer must not be empty: it is its first unit and the units behind it.
unfoldable pub read_codepoint32 : ℕ → List ℕ → CodepointData
read_codepoint32 ret rest = if not (is_scalar ret) then read_codepoint_fail else found ret 1

read_trail : ℕ → ℕ → CodepointData
read_trail lead trail =
    if not (is_low_surrogate trail)
    then read_codepoint_fail
    else found (add u32 (add u32 0x10000 (shl u32 (sub u32 lead 0xD800) 10)) (sub u32 trail 0xDC00))
        2

unfoldable pub read_codepoint16 : ℕ → List ℕ → CodepointData
unfolding read_trail is_surrogate is_high_surrogate is_low_surrogate
read_codepoint16 lead [] = if not (is_surrogate lead) then found lead 1 else read_codepoint_fail
read_codepoint16 lead (trail ∷ rest) =
    if not (is_surrogate lead)
    then found lead 1
    else if not (is_high_surrogate lead)
    then read_codepoint_fail
    else read_trail lead trail

-- The payload of the first unit and the number of units of its sequence, or `none` on failure.
pub lead_bits : ℕ → Option (ℕ × ℕ)
lead_bits ret =
    if leb 0xC2 ret && ltb ret 0xE0
    then some (bit_and ret 0x1F, 2)
    else if ltb ret 0xF0
    then some (bit_and ret 0x0F, 3)
    else if ltb ret 0xF5
    then some (bit_and ret 0x07, 4)
    else none

-- The loop over the units behind the first, `n` of them; `none` is its early return. A read behind the
-- end of the buffer is undefined.
pub continue_with : ℕ → ℕ → List ℕ → Outcome (Option ℕ)
continue_with zero ret rest = done (some ret)
continue_with (suc n) ret [] = undefined
continue_with (suc n) ret (bi ∷ rest) =
    let next = continue_with n (bit_or (shl u32 ret 6) (bit_and bi 0x3F)) rest in
    if not (is_continuation bi) then done none else next

-- `cpMinReq[len]`
min_req : ℕ → ℕ
min_req n = if n == 2 then 0x80 else if n == 3 then 0x800 else if n == 4 then 0x10000 else 0

check_sequence : ℕ → Option ℕ → CodepointData
check_sequence len none = read_codepoint_fail
check_sequence len (some ret) =
    if ltb ret (min_req len) || not (is_scalar ret) then read_codepoint_fail else found ret len

read_sequence : Option (ℕ × ℕ) → List ℕ → Outcome CodepointData
read_sequence none rest = done read_codepoint_fail
read_sequence (some (bits, len)) rest =
    if ltb (length rest + 1) len
    then done read_codepoint_fail
    else continue_with (len - 1) bits rest >>= (λ o. done (check_sequence len o))

-- The reader of UTF-8, with the reads behind the end of the buffer that it might do.
pub read_units8 : ℕ → List ℕ → Outcome CodepointData
read_units8 ret rest =
    if ltb ret 0x80 then done (found ret 1) else read_sequence (lead_bits ret) rest

-- What it returns. Nothing would be read where it is undefined.
abbrev pub data_of : Outcome CodepointData → CodepointData
data_of (done d) = d
data_of _ = found 0 0

pub read_codepoint8 : ℕ → List ℕ → CodepointData
read_codepoint8 ret rest = data_of (read_units8 ret rest)

-- `write_codepoint`: the units that it stores at `out`; it returns their number.
unfoldable pub write_codepoint32 : ℕ → List ℕ
write_codepoint32 ret = (if is_scalar ret then ret else replacement) ∷ []

unfoldable pub write_codepoint16 : ℕ → List ℕ
write_codepoint16 ret =
    if not (is_scalar ret)
    then replacement ∷ []
    else if leb ret 0xFFFF
    then (ret % 2 ^ 16) ∷ []
    else let val = sub u32 ret 0x10000 in
      (add u32 0xD800 (shr u32 val 10) % 2 ^ 16)
      ∷ (add u32 0xDC00 (bit_and val 0x3FF) % 2 ^ 16)
      ∷ []

-- `0x80 | (bits & 0x3F)`, as a byte
abbrev pub trail_byte : ℕ → ℕ
trail_byte bits = bit_or 0x80 (bit_and bits 0x3F) % 2 ^ 8

unfoldable pub write_codepoint8 : ℕ → List ℕ
write_codepoint8 ret =
    if not (is_scalar ret)
    then 0xEF ∷ 0xBF ∷ 0xBD ∷ []
    else if leb ret 0x7F
    then (ret % 2 ^ 8) ∷ []
    else if leb ret 0x7FF
    then (bit_or 0xC0 (shr u32 ret 6) % 2 ^ 8) ∷ trail_byte ret ∷ []
    else if leb ret 0xFFFF
    then (bit_or 0xE0 (shr u32 ret 12) % 2 ^ 8) ∷ trail_byte (shr u32 ret 6) ∷ trail_byte ret ∷ []
    else (bit_or 0xF0 (shr u32 ret 18) % 2 ^ 8)
      ∷ trail_byte (shr u32 ret 12)
      ∷ trail_byte (shr u32 ret 6)
      ∷ trail_byte ret
      ∷ []
