-- ===== src/Examples/Strings.antt =====
-- Code points and strings at concrete values.
use libcxxext.Prelude.{
  ℕ, ◌≤◌, true, false, ◌≡◌, ◌≢◌, ◌↔◌, refl, arith, List, [], ◌∷◌, ◌++◌, All, length,
}
use mathlib.Core.List.{map}
use libcxxext.Char.{is_scalar, read_units8, read_codepoint8, write_codepoint8}
use libcxxext.Char.RoundTrip.{ReadsAs, sanitized, read-write_codepoint8, read-write_codepoint16}
use libcxxext.Char.{read_codepoint16, write_codepoint16}
use libcxxext.Char.Reading.{
  InBounds, read_codepoint8-InBounds, read_units8-read_codepoint8, read_codepoint8-is_scalar,
}
use libcxxext.Prelude.Outcome.{done}
use libcxxext.Char.Leads.{second_spelling}
use libcxxext.Char.Encoding.{utf8, utf16}
use libcxxext.Codepoints.{view, encode}
use libcxxext.Codepoints.Views.{view-encode}
use libcxxext.Text.{
  member, invalids_replaced, transcoded, trim, trimmed, split, split_view, join,
  compare_string_view, compare_view_string,
}
use libcxxext.Text.Transcode.{
  invalids_replaced-encode, invalids_replaced_idem, transcoded-transcoded,
}
use libcxxext.Text.{find_index, find_index_view, contains}
use libcxxext.Text.Search.{FindsFirst, occurs, find_index-FindsFirst}
use libcxxext.Text.Trim.{drop_leading, drop_trailing}
use libcxxext.Text.Trim.Laws.{view-trim, trimmed-eq-trim}
use libcxxext.Text.Split.{join-split, split-pieces, join-split_view}
use libcxxext.Text.Compare.{reversed, view_string_reversed}

read-write_codepoint8_example :
    ReadsAs read_codepoint8 (write_codepoint8 0x20AC) (sanitized 0x20AC) (0x41 ∷ [])
read-write_codepoint8_example = read-write_codepoint8 0x20AC (0x41 ∷ [])

-- an unpaired surrogate
read-write_codepoint16_example :
    ReadsAs read_codepoint16 (write_codepoint16 0xD800) (sanitized 0xD800) (0x41 ∷ [])
read-write_codepoint16_example = read-write_codepoint16 0xD800 (0x41 ∷ [])

read_codepoint8-is_scalar_example : is_scalar (read_codepoint8 0xED (0xA0 ∷ 0x80 ∷ [])).c ≡ true
read_codepoint8-is_scalar_example = read_codepoint8-is_scalar 0xED (0xA0 ∷ 0x80 ∷ [])

-- The first two bytes of three
read_units8-read_codepoint8_example :
    (read_units8 0xE2 (0x82 ∷ []) ≡ done (read_codepoint8 0xE2 (0x82 ∷ [])))
    × InBounds read_codepoint8 0xE2 (0x82 ∷ [])
read_units8-read_codepoint8_example =
    read_units8-read_codepoint8 0xE2 1 (0x82 ∷ []) (read_codepoint8-InBounds 0xE2 (0x82 ∷ [])).1

-- 0x81 0x80 0x80 is read as U+1000.
second_spelling_example :
    ReadsAs read_codepoint8 (0x81 ∷ 0x80 ∷ 0x80 ∷ []) 0x1000 []
    × (0x81 ∷ 0x80 ∷ 0x80 ∷ [] ≢ write_codepoint8 0x1000)
second_spelling_example =
    second_spelling 0x1000 [] (omega arith) (omega arith) (unfold is_scalar in refl)

invalids_replaced-encode_example :
    invalids_replaced utf8 (encode utf8 (0x20AC ∷ 0x41 ∷ [])) ≡ encode utf8 (0x20AC ∷ 0x41 ∷ [])
invalids_replaced-encode_example = invalids_replaced-encode utf8 (0x20AC ∷ 0x41 ∷ [])

invalids_replaced_idem_example :
    invalids_replaced utf8 (invalids_replaced utf8 (0xFF ∷ 0x41 ∷ []))
    ≡ invalids_replaced utf8 (0xFF ∷ 0x41 ∷ [])
invalids_replaced_idem_example = invalids_replaced_idem utf8 (0xFF ∷ 0x41 ∷ [])

transcoded-transcoded_example :
    transcoded utf8 utf16 (transcoded utf16 utf8 (0xF0 ∷ 0x9F ∷ 0x98 ∷ 0x80 ∷ []))
    ≡ invalids_replaced utf8 (0xF0 ∷ 0x9F ∷ 0x98 ∷ 0x80 ∷ [])
transcoded-transcoded_example = transcoded-transcoded utf8 utf16 (0xF0 ∷ 0x9F ∷ 0x98 ∷ 0x80 ∷ [])

view-encode_example :
    view utf16 (encode utf16 (0x1F600 ∷ 0xD800 ∷ []) ++ (0x41 ∷ []))
    ≡ map sanitized (0x1F600 ∷ 0xD800 ∷ []) ++ view utf16 (0x41 ∷ [])
view-encode_example = view-encode utf16 (0x1F600 ∷ 0xD800 ∷ []) (0x41 ∷ [])

-- " a "
view-trim_example :
    view utf8 (trim utf8 (0x20 ∷ 0x61 ∷ 0x20 ∷ []))
    ≡ drop_leading (drop_trailing (view utf8 (0x20 ∷ 0x61 ∷ 0x20 ∷ [])))
view-trim_example = view-trim utf8 (0x20 ∷ 0x61 ∷ 0x20 ∷ [])

trimmed-eq-trim_example :
    trimmed utf8 (0x20 ∷ 0x61 ∷ 0x20 ∷ []) ≡ trim utf8 (0x20 ∷ 0x61 ∷ 0x20 ∷ [])
trimmed-eq-trim_example = trimmed-eq-trim utf8 (0x20 ∷ 0x61 ∷ 0x20 ∷ [])

-- "a,,b"
join-split_example :
    join (split (0x61 ∷ 0x2C ∷ 0x2C ∷ 0x62 ∷ []) 0x2C) (0x2C ∷ []) ≡ 0x61 ∷ 0x2C ∷ 0x2C ∷ 0x62 ∷ []
join-split_example = join-split 0x2C (0x61 ∷ 0x2C ∷ 0x2C ∷ 0x62 ∷ [])

-- "01212" from 3 on: "12" and '1' at 3, and "12" is in it.
find_index-FindsFirst_example :
    FindsFirst
      (0 ∷ 1 ∷ 2 ∷ 1 ∷ 2 ∷ [])
      (1 ∷ 2 ∷ [])
      3
      (find_index_view (0 ∷ 1 ∷ 2 ∷ 1 ∷ 2 ∷ []) (1 ∷ 2 ∷ []) 3)
    × FindsFirst (0 ∷ 1 ∷ 2 ∷ 1 ∷ 2 ∷ []) (1 ∷ []) 3 (find_index (0 ∷ 1 ∷ 2 ∷ 1 ∷ 2 ∷ []) 1 3)
    × ((contains (0 ∷ 1 ∷ 2 ∷ 1 ∷ 2 ∷ []) (1 ∷ 2 ∷ []) ≡ true) ↔ (
        (i : ℕ) × (i ≤ length {A = ℕ} (0 ∷ 1 ∷ 2 ∷ 1 ∷ 2 ∷ []))
        × (occurs (0 ∷ 1 ∷ 2 ∷ 1 ∷ 2 ∷ []) (1 ∷ 2 ∷ []) i ≡ true)))
find_index-FindsFirst_example = find_index-FindsFirst (0 ∷ 1 ∷ 2 ∷ 1 ∷ 2 ∷ []) (1 ∷ 2 ∷ []) 1 3

split-pieces_example : All (λ q. member 0x2C q ≡ false) (split (0x61 ∷ 0x2C ∷ 0x62 ∷ []) 0x2C)
split-pieces_example = split-pieces 0x2C (0x61 ∷ 0x2C ∷ 0x62 ∷ [])

-- "a--b-" by "--"
join-split_view_example :
    join (split_view (0x61 ∷ 0x2D ∷ 0x2D ∷ 0x62 ∷ 0x2D ∷ []) (0x2D ∷ 0x2D ∷ [])) (0x2D ∷ 0x2D ∷ [])
    ≡ 0x61 ∷ 0x2D ∷ 0x2D ∷ 0x62 ∷ 0x2D ∷ []
join-split_view_example = join-split_view (0x2D ∷ 0x2D ∷ []) (0x61 ∷ 0x2D ∷ 0x2D ∷ 0x62 ∷ 0x2D ∷ [])

-- "a" <=> "b"
view_string_reversed_example :
    (compare_view_string (0x61 ∷ []) (0x62 ∷ [])
      ≡ reversed (compare_string_view (0x61 ∷ []) (0x62 ∷ [])))
    × (◌≢◌ {A = List ℕ} (0x61 ∷ []) (0x62 ∷ [])
        → compare_view_string (0x61 ∷ []) (0x62 ∷ []) ≢ compare_string_view (0x61 ∷ []) (0x62 ∷ []))
view_string_reversed_example = view_string_reversed (0x61 ∷ []) (0x62 ∷ [])
