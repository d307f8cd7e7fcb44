-- ===== src/Char/RoundTrip.antt =====
-- A code point that is written can be read back, whatever stands behind it.
use libcxxext.Prelude.{ℕ, ◌+◌, ◌-◌, ◌*◌, ◌/◌, ◌%◌, ◌≤◌, ◌<◌, true, ◌≡◌, refl, ap, arith}
use libcxxext.Prelude.{List, [], ◌∷◌, ◌++◌, length, if◌then◌else◌, Bool-cases, inl, inr}
use native.Mathlib.Decide.{dec_lt}
use libcxxext.Integer.{shr}
use libcxxext.Char.{
  is_surrogate, is_scalar, CodepointData, found, replacement, read_units8, read_codepoint8,
  read_codepoint16, read_codepoint32, write_codepoint8, write_codepoint16, write_codepoint32,
}
use libcxxext.Char.Utf16.{read_pair, write_pair}
use libcxxext.Char.Utf8.{
  shr_u32, trail_byte_lem, tag_C0, tag_E0, tag_F0, read_two, read_three, read_four,
}

-- What is written for `c`: itself, or U+FFFD if it is no scalar value.
abbrev pub sanitized : ℕ → ℕ
sanitized c = if is_scalar c then c else replacement

-- `units` is not empty, and before any `rest` it is read as `c`, to its end.
abbrev pub ReadsAs : (ℕ → List ℕ → CodepointData) → List ℕ → ℕ → List ℕ → Type 0
ReadsAs read [] c rest = ⊥
ReadsAs read (b ∷ bs) c rest = read b (bs ++ rest) ≡ found c (length (b ∷ bs))

two_bytes :
    (c : ℕ) → 0x80 ≤ c → c < 0x800 → write_codepoint8 c ≡ (0xC0 + c / 64) ∷ (0x80 + c % 64) ∷ []
unfolding write_codepoint8 is_scalar
two_bytes c lo hi = ground (
  arith,
  trail_byte_lem c,
  shr_u32 c 6 (omega arith) (omega arith),
  tag_C0 (c / 64) (omega arith),
)

pub three_bytes :
    (c : ℕ)
    → 0x800 ≤ c
    → c < 0x10000
    → is_scalar c ≡ true
    → write_codepoint8 c ≡ (0xE0 + c / 4096) ∷ (0x80 + c / 64 % 64) ∷ (0x80 + c % 64) ∷ []
unfolding write_codepoint8
three_bytes c lo hi sc = ground (
  arith,
  trail_byte_lem c,
  trail_byte_lem (c / 64),
  shr_u32 c 6 (omega arith) (omega arith),
  shr_u32 c 12 (omega arith) (omega arith),
  tag_E0 (c / 4096) (omega arith),
)

four_bytes :
    (c : ℕ)
    → 0x10000 ≤ c
    → c < 0x110000
    → is_scalar c ≡ true
    → write_codepoint8 c
      ≡ (0xF0 + c / 262144) ∷ (0x80 + c / 4096 % 64) ∷ (0x80 + c / 64 % 64) ∷ (0x80 + c % 64) ∷ []
unfolding write_codepoint8
four_bytes c lo hi sc = ground (
  arith,
  trail_byte_lem c,
  trail_byte_lem (c / 64),
  trail_byte_lem (c / 4096),
  shr_u32 c 6 (omega arith) (omega arith),
  shr_u32 c 12 (omega arith) (omega arith),
  shr_u32 c 18 (omega arith) (omega arith),
  tag_F0 (c / 262144) (omega arith),
)

refold_two : (c : ℕ) → c / 64 * 64 + c % 64 ≡ c
refold_two c = omega arith

refold_three : (c : ℕ) → (c / 4096 * 64 + c / 64 % 64) * 64 + c % 64 ≡ c
refold_three c = omega arith

refold_four : (c : ℕ) → ((c / 262144 * 64 + c / 4096 % 64) * 64 + c / 64 % 64) * 64 + c % 64 ≡ c
refold_four c = omega arith

module _ (c : ℕ) (rest : List ℕ) where
  reads_one8 : c < 0x80 → ReadsAs read_codepoint8 (write_codepoint8 c) c rest
  unfolding write_codepoint8 read_codepoint8 read_units8 is_scalar
  reads_one8 h = ground arith

  reads_two8 : 0x80 ≤ c → c < 0x800 → ReadsAs read_codepoint8 (write_codepoint8 c) c rest
  reads_two8 lo hi = rw (
    two_bytes c lo hi,
    read_two (c / 64) (c % 64) rest (omega arith) (omega arith) (omega arith),
    refold_two c,
  )

  reads_three8 :
      0x800 ≤ c
      → c < 0x10000
      → is_scalar c ≡ true
      → ReadsAs read_codepoint8 (write_codepoint8 c) c rest
  reads_three8 lo hi sc = rw (
    three_bytes c lo hi sc,
    read_three (c / 4096) (c / 64 % 64) rest (omega arith) (c % 64) (omega arith) (omega arith)
        (rw (refold_three c) lo) (rw (refold_three c) sc),
    refold_three c,
  )

  reads_four8 :
      0x10000 ≤ c
      → c < 0x110000
      → is_scalar c ≡ true
      → ReadsAs read_codepoint8 (write_codepoint8 c) c rest
  reads_four8 lo hi sc = rw (
    four_bytes c lo hi sc,
    read_four (c / 262144) (c / 4096 % 64) rest (omega arith) (c / 64 % 64) (omega arith) (c % 64)
        (omega arith) (omega arith) (rw (refold_four c) lo) (rw (refold_four c) sc),
    refold_four c,
  )

scalar_below : (c : ℕ) → is_scalar c ≡ true → c < 0x110000
unfolding is_scalar
scalar_below c h = ground arith

reads_one16 :
    (c : ℕ) (rest : List ℕ)
    → c < 0x10000
    → is_scalar c ≡ true
    → ReadsAs read_codepoint16 (write_codepoint16 c) c rest
unfolding write_codepoint16 read_codepoint16 is_scalar is_surrogate
reads_one16 c [] h sc = ground arith
reads_one16 c (u ∷ rest) h sc = ground arith

reads_two16 :
    (c v : ℕ) (rest : List ℕ)
    → c ≡ 0x10000 + v
    → c < 0x110000
    → is_scalar c ≡ true
    → ReadsAs read_codepoint16 (write_codepoint16 c) c rest
reads_two16 c v rest e h sc =
    rw
      (
        e,
        write_pair v (omega arith) (rw e at sc),
        read_pair (v / 1024) (v % 1024) rest (omega arith) (omega arith),
      )
      (ap (λ n. found n 2) (omega arith))

-- A scalar value is read back from its UTF-8 bytes, all of them and no more.
pub read-write_codepoint8_scalar :
    (c : ℕ) (rest : List ℕ)
    → is_scalar c ≡ true
    → ReadsAs read_codepoint8 (write_codepoint8 c) c rest
read-write_codepoint8_scalar c rest sc = elim (dec_lt c 0x80) [
  | yes one ↦ reads_one8 c rest one
  | no more ↦ elim (dec_lt c 0x800) [
    | yes two ↦ reads_two8 c rest (omega arith) two
    | no more ↦ elim (dec_lt c 0x10000) [
      | yes three ↦ reads_three8 c rest (omega arith) three sc
      | no four ↦ reads_four8 c rest (omega arith) (scalar_below c sc) sc
    ]
  ]
]

-- In UTF-16: one unit, or a pair.
pub read-write_codepoint16_scalar :
    (c : ℕ) (rest : List ℕ)
    → is_scalar c ≡ true
    → ReadsAs read_codepoint16 (write_codepoint16 c) c rest
read-write_codepoint16_scalar c rest sc = elim (dec_lt c 0x10000) [
  | yes one ↦ reads_one16 c rest one sc
  | no two ↦ reads_two16 c (c - 0x10000) rest (omega arith) (scalar_below c sc) sc
]

pub read-write_codepoint32_scalar :
    (c : ℕ) (rest : List ℕ)
    → is_scalar c ≡ true
    → ReadsAs read_codepoint32 (write_codepoint32 c) c rest
unfolding read_codepoint32 write_codepoint32
read-write_codepoint32_scalar c rest sc = ground arith

-- A value that is no scalar is written as U+FFFD is, in every encoding.
pub write_sanitized :
    (c : ℕ)
    → (write_codepoint8 c ≡ write_codepoint8 (sanitized c))
      × (write_codepoint16 c ≡ write_codepoint16 (sanitized c))
      × (write_codepoint32 c ≡ write_codepoint32 (sanitized c))
unfolding write_codepoint8 write_codepoint16 write_codepoint32 shr is_scalar
write_sanitized c = elim (Bool-cases (is_scalar c)) [
  | inl sc ↦ rw (sc, sc) (refl, refl, refl)
  | inr bad ↦ rw bad (refl, refl, refl)
]

replacement-is_scalar : is_scalar replacement ≡ true
unfolding is_scalar
replacement-is_scalar = refl

pub sanitized-is_scalar : (c : ℕ) → is_scalar (sanitized c) ≡ true
sanitized-is_scalar c = elim (Bool-cases (is_scalar c)) [
  | inl sc ↦ rw sc sc
  | inr bad ↦ rw bad replacement-is_scalar
]

module _ (c : ℕ) (rest : List ℕ) where
  -- Whatever follows in the buffer, `read_codepoint` reads the bytes that `write_codepoint` stores
  -- for a value as that value, or as U+FFFD if it is no scalar value, and reads exactly those
  -- bytes.
  pub read-write_codepoint8 : ReadsAs read_codepoint8 (write_codepoint8 c) (sanitized c) rest
  read-write_codepoint8 =
      rw ((write_sanitized c).0)
        (read-write_codepoint8_scalar (sanitized c) rest (sanitized-is_scalar c))

  -- In UTF-16, whatever follows in the buffer, what `write_codepoint` stores for a value is read
  -- back as that value, or as U+FFFD if it is no scalar value, and no further.
  pub read-write_codepoint16 : ReadsAs read_codepoint16 (write_codepoint16 c) (sanitized c) rest
  read-write_codepoint16 =
      rw ((write_sanitized c).1)
        (read-write_codepoint16_scalar (sanitized c) rest (sanitized-is_scalar c))

  pub read-write_codepoint32 : ReadsAs read_codepoint32 (write_codepoint32 c) (sanitized c) rest
  read-write_codepoint32 =
      rw ((write_sanitized c).2)
        (read-write_codepoint32_scalar (sanitized c) rest (sanitized-is_scalar c))
