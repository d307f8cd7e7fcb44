-- ===== src/Char/Encoding.antt =====
-- What the code that walks and builds text needs of a character type: its `read_codepoint` and
-- `write_codepoint`, and the laws that the three encodings have in common.
use libcxxext.Prelude.{ℕ, ◌+◌, ◌^◌, ◌≤◌, ◌<◌, true, ◌≡◌, List, take}
use libcxxext.Char.{is_scalar, CodepointData}
use libcxxext.Char.{read_codepoint8, read_codepoint16, read_codepoint32}
use libcxxext.Char.{write_codepoint8, write_codepoint16, write_codepoint32}
use libcxxext.Char.RoundTrip.{sanitized, ReadsAs, write_sanitized}
use libcxxext.Char.RoundTrip.{read-write_codepoint8, read-write_codepoint16, read-write_codepoint32}
use libcxxext.Char.Reading.{InBounds, read_codepoint8-is_scalar, read_codepoint8-InBounds}
use libcxxext.Char.Reading.{read_codepoint8-take, read_codepoint16-is_scalar}
use libcxxext.Char.Reading.{read_codepoint16-InBounds, read_codepoint16-take}
use libcxxext.Char.Reading.{read_codepoint32-is_scalar, read_codepoint32-InBounds}
use libcxxext.Char.Reading.{read_codepoint32-take}

pub record Encoding : Type 0 where
  pub unit_bound : ℕ
  pub read : ℕ → List ℕ → CodepointData
  pub write : ℕ → List ℕ
  pub in_bounds : (b : ℕ) (rest : List ℕ) → InBounds read b rest
  pub prefix :
      (b k : ℕ) (rest : List ℕ)
      → (read b rest).size_bytes ≤ k + 1
      → read b (take k rest) ≡ read b rest
  pub scalar : (b : ℕ) (rest : List ℕ) → b < unit_bound → is_scalar (read b rest).c ≡ true
  pub round_trip : (c : ℕ) (rest : List ℕ) → ReadsAs read (write c) (sanitized c) rest
  pub sanitizes : (c : ℕ) → write c ≡ write (sanitized c)

abbrev pub utf8 : Encoding
utf8 = record {
  unit_bound = 2 ^ 8;
  read = read_codepoint8;
  write = write_codepoint8;
  in_bounds = read_codepoint8-InBounds;
  prefix = λ b k rest. read_codepoint8-take b rest k;
  scalar = λ b rest h. read_codepoint8-is_scalar b rest;
  round_trip = read-write_codepoint8;
  sanitizes = λ c. (write_sanitized c).0;
}

abbrev pub utf16 : Encoding
utf16 = record {
  unit_bound = 2 ^ 16;
  read = read_codepoint16;
  write = write_codepoint16;
  in_bounds = read_codepoint16-InBounds;
  prefix = λ b k rest. read_codepoint16-take b rest k;
  scalar = read_codepoint16-is_scalar;
  round_trip = read-write_codepoint16;
  sanitizes = λ c. (write_sanitized c).1;
}

abbrev pub utf32 : Encoding
utf32 = record {
  unit_bound = 2 ^ 32;
  read = read_codepoint32;
  write = write_codepoint32;
  in_bounds = read_codepoint32-InBounds;
  prefix = λ b k rest h. read_codepoint32-take b rest k;
  scalar = λ b rest h. read_codepoint32-is_scalar b rest;
  round_trip = read-write_codepoint32;
  sanitizes = λ c. (write_sanitized c).2;
}
