-- ===== src/Char/Reading.antt =====
-- What a read returns on any buffer, well formed or not: a scalar value, and a size within the
-- buffer; what stands behind the units that were read makes no difference.
use libcxxext.Prelude.{
  ℕ, zero, suc, ◌+◌, ◌-◌, ◌^◌, ◌≤◌, ◌<◌, true, ◌≡◌, refl, ap, ◌∙◌, sym, false, arith, ◌⊎◌, inl,
}
use libcxxext.Prelude.{
  Option, none, some, List, [], ◌∷◌, length, bit_and, bit_or, take, length-take,
}
use libcxxext.Prelude.{Bool-cases, inr, ltb}
use libcxxext.Prelude.Outcome.{done, ◌>>=◌}
use libcxxext.Integer.{u32, add, sub, shl}
use libcxxext.Char.{
  is_scalar, CodepointData, read_codepoint_fail, replacement, lead_bits, continue_with,
  check_sequence, read_sequence, read_units8, data_of, is_continuation, read_codepoint8,
  read_codepoint16, read_codepoint32,
}
use libcxxext.Char.Utf8.{shl_u32}

-- A read of `b` and the units behind it stays in the buffer, and reads at least `b`.
abbrev pub InBounds : (ℕ → List ℕ → CodepointData) → ℕ → List ℕ → Type 0
InBounds read b rest = (0 < (read b rest).size_bytes) × ((read b rest).size_bytes ≤ length rest + 1)

-- The loop looks at as many units as it makes rounds.
continue_with-take :
    (n k ret : ℕ) (rest : List ℕ)
    → n ≤ k
    → continue_with n ret (take k rest) ≡ continue_with n ret rest
unfolding continue_with
continue_with-take zero k ret rest h = refl
continue_with-take (suc n) zero ret rest h = absurd (omega arith)
continue_with-take (suc n) (suc k) ret [] h = refl
continue_with-take (suc n) (suc k) ret (b ∷ rest) h =
    rw (continue_with-take n k (bit_or (shl u32 ret 6) (bit_and b 0x3F)) rest (omega arith))

check_sequence-size :
    (len : ℕ) (o : Option ℕ)
    → (check_sequence len o ≡ read_codepoint_fail) ⊎ ((check_sequence len o).size_bytes ≡ len)
unfolding check_sequence
check_sequence-size len none = inl refl
check_sequence-size len (some ret) = ground arith

check_sequence-is_scalar : (len : ℕ) (o : Option ℕ) → is_scalar (check_sequence len o).c ≡ true
unfolding check_sequence is_scalar
check_sequence-is_scalar len none = refl
check_sequence-is_scalar len (some ret) = ground arith

fail-is_scalar : is_scalar replacement ≡ true
unfolding is_scalar
fail-is_scalar = refl

lead_bits-len : (b : ℕ) {bits len : ℕ} → lead_bits b ≡ some (bits, len) → (2 ≤ len) × (len ≤ 4)
unfolding lead_bits
lead_bits-len b e = ground arith

-- The units that the loop reads are in the buffer.
continue_with-done :
    (n ret : ℕ) (rest : List ℕ)
    → n ≤ length rest
    → (o : Option ℕ) × (continue_with n ret rest ≡ done o)
unfolding continue_with
continue_with-done zero ret rest h = (some ret, refl)
continue_with-done (suc n) ret [] h = absurd (omega arith)
continue_with-done (suc n) ret (b ∷ rest) h =
    let (o, e) =
      continue_with-done n (bit_or (shl u32 ret 6) (bit_and b 0x3F)) rest (omega arith) in
    elim (Bool-cases (is_continuation b)) [
      | inl goes ↦ (o, rw goes e)
      | inr stops ↦ (none, rw stops refl)
    ]

module _ (bits len : ℕ) where
  read_short :
      (rest : List ℕ)
      → ltb (length rest + 1) len ≡ true
      → read_sequence (some (bits, len)) rest ≡ done read_codepoint_fail
  unfolding read_sequence
  read_short rest short = rw short refl

  read_enough :
      (rest : List ℕ)
      → ltb (length rest + 1) len ≡ false
      → read_sequence (some (bits, len)) rest
        ≡ (continue_with (len - 1) bits rest >>= (λ o. done (check_sequence len o)))
  unfolding read_sequence
  read_enough rest enough = rw enough refl

module _ (bits len : ℕ) (rest : List ℕ) where
  -- Either the guard fails, or the sequence is checked; no read is undefined.
  read_sequence-done :
      (read_sequence (some (bits, len)) rest ≡ done read_codepoint_fail)
      ⊎ ((o : Option ℕ) × (len ≤ length rest + 1)
          × (continue_with (len - 1) bits rest ≡ done o)
          × (read_sequence (some (bits, len)) rest ≡ done (check_sequence len o)))
  read_sequence-done = elim (Bool-cases (ltb (length rest + 1) len)) [
    | inl short ↦ inl (read_short bits len rest short)
    | inr enough ↦
        let (o, e) = continue_with-done (len - 1) bits rest (ground arith) in
        inr (
          o,
          ground arith,
          e,
          read_enough bits len rest enough ∙ ap (λ p. p >>= (λ q. done (check_sequence len q))) e,
        )
  ]

  read_sequence-is_scalar : is_scalar (data_of (read_sequence (some (bits, len)) rest)).c ≡ true
  read_sequence-is_scalar = elim read_sequence-done [
    | inl fail ↦ rw fail fail-is_scalar
    | inr (o, n, e, checked) ↦ rw checked (check_sequence-is_scalar len o)
  ]

  read_sequence-size :
      2 ≤ len
      → (read_sequence (some (bits, len)) rest
          ≡ done (data_of (read_sequence (some (bits, len)) rest)))
        × (0 < (data_of (read_sequence (some (bits, len)) rest)).size_bytes)
        × ((data_of (read_sequence (some (bits, len)) rest)).size_bytes ≤ length rest + 1)
  read_sequence-size two = elim read_sequence-done [
    | inl fail ↦ rw fail (refl, omega arith, omega arith)
    | inr (o, n, e, checked) ↦
        let size = check_sequence-size len o in
        rw checked (refl, ground (arith, size), ground (arith, size))
  ]

  read_sequence-take :
      (k : ℕ)
      → 2 ≤ len
      → (data_of (read_sequence (some (bits, len)) rest)).size_bytes ≤ k + 1
      → data_of (read_sequence (some (bits, len)) (take k rest))
        ≡ data_of (read_sequence (some (bits, len)) rest)
  read_sequence-take k two h =
      let cut = length-take k rest in
      elim (Bool-cases (ltb (length (take k rest) + 1) len)) [
        | inl short ↦ elim read_sequence-done [
          | inl fail ↦ ap data_of (read_short bits len (take k rest) short) ∙ sym (ap data_of fail)
          | inr (o, n, e, checked) ↦ elim (check_sequence-size len o) [
            | inl failed ↦
                ap data_of (read_short bits len (take k rest) short)
                ∙ sym (ap data_of checked ∙ failed)
            | inr size ↦
                let sized : len ≤ k + 1 = rw (← size) (rw checked at h) in
                absurd (ground (arith, cut))
          ]
        ]
        | inr enough ↦
            let enough' : ltb (length rest + 1) len ≡ false = ground (arith, cut) in
            ap data_of (
              read_enough bits len (take k rest) enough
              ∙ ap (λ o. o >>= (λ p. done (check_sequence len p)))
                  (continue_with-take (len - 1) k bits rest (ground (arith, cut)))
              ∙ sym (read_enough bits len rest enough'))
      ]

ascii-is_scalar : (b : ℕ) → b < 0x80 → is_scalar b ≡ true
unfolding is_scalar
ascii-is_scalar b h = ground arith

high_offset : (b : ℕ) → 0xD800 ≤ b → b ≤ 0xDBFF → sub u32 b 0xD800 < 1024
unfolding sub
high_offset b lo hi = omega arith

low_offset : (l : ℕ) → 0xDC00 ≤ l → l ≤ 0xDFFF → sub u32 l 0xDC00 < 1024
unfolding sub
low_offset l lo hi = omega arith

units16-is_scalar :
    (b : ℕ) → b < 2 ^ 16 → (rest : List ℕ) → is_scalar (read_codepoint16 b rest).c ≡ true
unfolding read_codepoint16 is_scalar add
units16-is_scalar b h [] = ground arith
units16-is_scalar b h (l ∷ rest) =
    ground (arith, high_offset b, shl_u32 (sub u32 b 0xD800) 10, low_offset l)

units16-InBounds : (b : ℕ) (rest : List ℕ) → InBounds read_codepoint16 b rest
unfolding read_codepoint16
units16-InBounds b [] = ground arith
units16-InBounds b (l ∷ rest) = ground arith

units16-take :
    (b k : ℕ) (rest : List ℕ)
    → (read_codepoint16 b rest).size_bytes ≤ k + 1
    → read_codepoint16 b (take k rest) ≡ read_codepoint16 b rest
unfolding read_codepoint16
units16-take b zero [] h = refl
units16-take b (suc k) [] h = refl
units16-take b zero (l ∷ rest) h = ground arith
units16-take b (suc k) (l ∷ rest) h = refl

sequence-is_scalar :
    (o : Option (ℕ × ℕ)) (rest : List ℕ) → is_scalar (data_of (read_sequence o rest)).c ≡ true
unfolding read_sequence
sequence-is_scalar none rest = fail-is_scalar
sequence-is_scalar (some (bits, len)) rest = read_sequence-is_scalar bits len rest

module _ (b : ℕ) (rest : List ℕ) where
  sequence-size :
      (o : Option (ℕ × ℕ))
      → lead_bits b ≡ o
      → (read_sequence o rest ≡ done (data_of (read_sequence o rest)))
        × (0 < (data_of (read_sequence o rest)).size_bytes)
        × ((data_of (read_sequence o rest)).size_bytes ≤ length rest + 1)
  unfolding read_sequence
  sequence-size none e = (refl, omega arith, omega arith)
  sequence-size (some (bits, len)) e = read_sequence-size bits len rest (lead_bits-len b e).0

  sequence-take :
      (o : Option (ℕ × ℕ))
      → lead_bits b ≡ o
      → (k : ℕ) → (data_of (read_sequence o rest)).size_bytes ≤ k + 1
      → data_of (read_sequence o (take k rest)) ≡ data_of (read_sequence o rest)
  unfolding read_sequence
  sequence-take none e k h = refl
  sequence-take (some (bits, len)) e k h =
      read_sequence-take bits len rest k (lead_bits-len b e).0 h

  pub read_codepoint8-is_scalar : is_scalar (read_codepoint8 b rest).c ≡ true
  unfolding read_codepoint8 read_units8
  read_codepoint8-is_scalar = elim (Bool-cases (ltb b 0x80)) [
    | inl one ↦ rw one (ascii-is_scalar b (ground arith))
    | inr more ↦ rw more (sequence-is_scalar (lead_bits b) rest)
  ]

  read_units8-done :
      (read_units8 b rest ≡ done (read_codepoint8 b rest)) × InBounds read_codepoint8 b rest
  unfolding read_codepoint8 read_units8
  read_units8-done = elim (Bool-cases (ltb b 0x80)) [
    | inl one ↦ rw one (refl, (omega arith, omega arith))
    | inr more ↦
        let (defined, low, high) = sequence-size (lead_bits b) refl in
        rw more (defined, (low, high))
  ]

  pub read_codepoint8-InBounds : InBounds read_codepoint8 b rest
  read_codepoint8-InBounds = read_units8-done.1

  pub read_codepoint8-take :
      (k : ℕ)
      → (read_codepoint8 b rest).size_bytes ≤ k + 1
      → read_codepoint8 b (take k rest) ≡ read_codepoint8 b rest
  unfolding read_codepoint8 read_units8
  read_codepoint8-take k h = elim (Bool-cases (ltb b 0x80)) [
    | inl one ↦ rw one refl
    | inr more ↦ rw more (sequence-take (lead_bits b) refl k (rw more at h))
  ]

  -- UTF-16, at units of 16 bits.
  pub read_codepoint16-is_scalar : b < 2 ^ 16 → is_scalar (read_codepoint16 b rest).c ≡ true
  read_codepoint16-is_scalar h = units16-is_scalar b h rest

  pub read_codepoint16-InBounds : InBounds read_codepoint16 b rest
  read_codepoint16-InBounds = units16-InBounds b rest

  pub read_codepoint16-take :
      (k : ℕ)
      → (read_codepoint16 b rest).size_bytes ≤ k + 1
      → read_codepoint16 b (take k rest) ≡ read_codepoint16 b rest
  read_codepoint16-take k h = units16-take b k rest h

  pub read_codepoint32-is_scalar : is_scalar (read_codepoint32 b rest).c ≡ true
  unfolding read_codepoint32
  read_codepoint32-is_scalar = ground (arith, fail-is_scalar)

  pub read_codepoint32-InBounds : InBounds read_codepoint32 b rest
  unfolding read_codepoint32
  read_codepoint32-InBounds = ground arith

  pub read_codepoint32-take : (k : ℕ) → read_codepoint32 b (take k rest) ≡ read_codepoint32 b rest
  unfolding read_codepoint32
  read_codepoint32-take k = refl

-- On any bytes a read of UTF-8 reads no byte behind the buffer, and reports at least one unit and
-- no more units than the buffer has; in a buffer that is cut anywhere behind the units that it
-- reports, the read does not go further either, and returns the same.
pub read_units8-read_codepoint8 :
    (b k : ℕ) (rest : List ℕ)
    → (read_codepoint8 b rest).size_bytes ≤ k + 1
    → (read_units8 b (take k rest) ≡ done (read_codepoint8 b rest))
      × InBounds read_codepoint8 b rest
read_units8-read_codepoint8 b k rest h = (
  (read_units8-done b (take k rest)).0 ∙ ap done (read_codepoint8-take b rest k h),
  read_codepoint8-InBounds b rest,
)
