-- ===== src/Text.antt =====
-- `sys::string<T>` (sys.Text/StringEx.h): the units of `str`, for a character type with an
-- encoding. A method that changes `this` is a function to the new units.
pub mod Transcode
pub mod Trim
pub mod Split
pub mod Compare
pub mod Search
use Prim.Native.Nat.{compare, Ordering}
use mathlib.Core.Option
use libcxxext.Prelude.{
  Option, none, some, ℕ, zero, suc, ◌+◌, ◌-◌, Bool, true, false, not, ◌&&◌, ◌||◌, List, [], ◌∷◌,
  ◌++◌,
}
use libcxxext.Prelude.{ltb, leb, ◌==◌, if◌then◌else◌, length, take, drop}
use libcxxext.Char.Encoding.{Encoding}
use libcxxext.Codepoints.{CodepointIter, iter_at, deref, next, view, encode}

unfoldable pub member : ℕ → List ℕ → Bool
member c [] = false
member c (x ∷ xs) = c == x || member c xs

-- `internal::dchar_is_ws` (sys.Text/data/UnicodeWhitespace.h).
pub is_whitespace : ℕ → Bool
unfolding member
is_whitespace c = member c (
    0x0009 ∷ 0x000A ∷ 0x000B ∷ 0x000C ∷ 0x000D ∷ 0x0020 ∷ 0x0085 ∷ 0x00A0 ∷ 0x1680 ∷ 0x2000 ∷ 0x2001
    ∷ 0x2002 ∷ 0x2003 ∷ 0x2004 ∷ 0x2005 ∷ 0x2006 ∷ 0x2007 ∷ 0x2008 ∷ 0x2009 ∷ 0x200A ∷ 0x200E
    ∷ 0x200F ∷ 0x2028 ∷ 0x2029 ∷ 0x202F ∷ 0x205F ∷ 0x3000 ∷ [])

module _ (E : Encoding) where
  -- A copy with every ill-formed unit replaced by U+FFFD.
  pub invalids_replaced : List ℕ → List ℕ
  invalids_replaced us = encode E (view E us)

  -- The constructor from a string of another character type, `F`.
  pub transcoded : (F : Encoding) → List ℕ → List ℕ
  transcoded F us = encode E (view F us)

  -- The loop of `first_non_ws_beg()`, within `fuel` rounds.
  pub skip_ws : ℕ → CodepointIter → CodepointIter
  skip_ws zero it = it
  skip_ws (suc fuel) it =
      let (c, here) = deref E it in
      let rest = skip_ws fuel (next E here) in
      if length it.left == 0 then it else if is_whitespace c then rest else here

  -- The units from the first code point that is no whitespace.
  abbrev pub from_non_ws : List ℕ → List ℕ
  from_non_ws us = (skip_ws (length us) (iter_at us)).left

  -- The loop of `last_ws_beg()`: `ret` is an offset into the string of `size` units.
  pub last_ws : ℕ → ℕ → ℕ → CodepointIter → ℕ
  last_ws zero size ret it = ret
  last_ws (suc fuel) size ret it =
      let (c, here) = deref E it in
      let it' = next E here in
      let rest = last_ws fuel size (if is_whitespace c then ret else size - length it'.left) it' in
      if length it.left == 0 then ret else rest

  pub first_non_ws_beg : List ℕ → ℕ
  first_non_ws_beg us = length us - length (from_non_ws us)

  pub last_ws_beg : List ℕ → ℕ
  last_ws_beg us = last_ws (length us) (length us) 0 (iter_at us)

  pub trimmed : List ℕ → List ℕ
  trimmed us =
      let from = first_non_ws_beg us in
      let to = last_ws_beg us in if leb to from then [] else take (to - from) (drop from us)

  -- `start_trimmed` and `trim_start`, `end_trimmed` and `trim_end`.
  pub trim_start : List ℕ → List ℕ
  trim_start us = drop (first_non_ws_beg us) us

  pub trim_end : List ℕ → List ℕ
  trim_end us = take (last_ws_beg us) us

  pub trim : List ℕ → List ℕ
  unfolding trim_start trim_end
  trim us = trim_start (trim_end us)

-- `operator==` of two strings.
unfoldable pub equal : List ℕ → List ℕ → Bool
equal [] [] = true
equal [] (y ∷ ys) = false
equal (x ∷ xs) [] = false
equal (x ∷ xs) (y ∷ ys) = x == y && equal xs ys

-- `std::basic_string`'s three-way comparison, unit by unit.
pub compare_units : List ℕ → List ℕ → Ordering
compare_units [] [] = Ordering.eq
compare_units [] (y ∷ ys) = Ordering.lt
compare_units (x ∷ xs) [] = Ordering.gt
compare_units (x ∷ xs) (y ∷ ys) = elim (compare x y) [
  | Ordering.lt ↦ Ordering.lt
  | Ordering.eq ↦ compare_units xs ys
  | Ordering.gt ↦ Ordering.gt
]

-- `operator<=>` with the string on the left, and with the array or the view on the left.
pub compare_string_view : List ℕ → List ℕ → Ordering
compare_string_view a b = compare_units a b

pub compare_view_string : List ℕ → List ℕ → Ordering
compare_view_string a b = compare_units b a

-- `pop_back()` leaves an empty string alone.
pub pop_back : List ℕ → List ℕ
pop_back us = if length us == 0 then us else take (length us - 1) us

-- `substr(from, count)`
pub substr : List ℕ → ℕ → ℕ → List ℕ
substr us from count = if leb (length us) from then [] else take count (drop from us)

-- `str.find(c, from)`, or the size where that is `npos`.
index_of : ℕ → List ℕ → ℕ
index_of c [] = 0
index_of c (x ∷ xs) = let later = suc (index_of c xs) in if x == c then 0 else later

pub find_index : List ℕ → ℕ → ℕ → ℕ
find_index us c from = if leb (length us) from then length us else from + index_of c (drop from us)

-- `starts_with` and `ends_with`, of a character and of a view.
unfoldable pub starts_with : List ℕ → List ℕ → Bool
starts_with us substr = equal (take (length substr) us) substr

unfoldable pub starts_with_char : List ℕ → ℕ → Bool
starts_with_char [] c = false
starts_with_char (u ∷ us) c = u == c

unfoldable pub ends_with : List ℕ → List ℕ → Bool
ends_with us substr =
    leb (length substr) (length us) && equal (drop (length us - length substr) us) substr

unfoldable pub ends_with_char : List ℕ → ℕ → Bool
ends_with_char [] c = false
ends_with_char (u ∷ []) c = u == c
ends_with_char (u ∷ v ∷ us) c = ends_with_char (v ∷ us) c

-- `str.find(substr)`, with `none` for `npos`.
unfoldable pub search : List ℕ → List ℕ → Option ℕ
search [] substr = if length substr == 0 then some 0 else none
search (u ∷ us) substr =
    let later = Option.map suc (search us substr) in
    if starts_with (u ∷ us) substr then some 0 else later

pub contains : List ℕ → List ℕ → Bool
contains us substr = elim (search us substr) [ none ↦ false | some i ↦ true ]

-- `find_index` of a view.
pub find_index_view : List ℕ → List ℕ → ℕ → ℕ
find_index_view us substr from =
    if leb (length us) from
    then length us
    else elim (search (drop from us) substr) [ none ↦ length us | some i ↦ from + i ]

-- `split(const T)`: `piece` holds the units since `from`.
split_from : ℕ → List ℕ → List ℕ → List (List ℕ)
split_from delimiter piece [] = piece ∷ []
split_from delimiter piece (u ∷ us) =
    let found = piece ∷ split_from delimiter [] us in
    let more = split_from delimiter (piece ++ u ∷ []) us in if u == delimiter then found else more

pub split : List ℕ → ℕ → List (List ℕ)
split us delimiter = split_from delimiter [] us

singletons : List ℕ → List (List ℕ)
singletons [] = []
singletons (u ∷ us) = (u ∷ []) ∷ singletons us

-- The loop of `split(std::basic_string_view<T>)` at `it`, where `us` is left and `piece` holds the
-- units since `from`; `fuel` bounds the rounds. It ends when fewer units are left than `delimiter`
-- has; a match moves `it` behind the delimiter.
split_view_from : ℕ → List ℕ → List ℕ → List ℕ → List (List ℕ)
split_view_from zero delimiter piece us = (piece ++ us) ∷ []
split_view_from (suc fuel) delimiter piece [] = piece ∷ []
split_view_from (suc fuel) delimiter piece (u ∷ us) =
    let found = piece ∷ split_view_from fuel delimiter [] (drop (length delimiter) (u ∷ us)) in
    let more = split_view_from fuel delimiter (piece ++ u ∷ []) us in
    if ltb (length (u ∷ us)) (length delimiter)
    then (piece ++ u ∷ us) ∷ []
    else if equal (take (length delimiter) (u ∷ us)) delimiter
    then found
    else more

pub split_view : List ℕ → List ℕ → List (List ℕ)
split_view us delimiter =
    if length delimiter == 0
    then singletons us
    else if ltb (length us) (length delimiter)
    then us ∷ []
    else split_view_from (length us) delimiter [] us

-- The loop of `join`, with `needPrependSep`.
join_from : Bool → List (List ℕ) → List ℕ → List ℕ
join_from need_prepend_sep [] sep = []
join_from need_prepend_sep (part ∷ parts) sep =
    (if need_prepend_sep then sep else []) ++ part ++ join_from true parts sep

pub join : List (List ℕ) → List ℕ → List ℕ
join parts sep = join_from false parts sep
