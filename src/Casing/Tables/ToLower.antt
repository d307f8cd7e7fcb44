-- ===== src/Casing/Tables/ToLower.antt =====
-- `internal::dchar_to_lower_simple` (sys.Text/data/UnicodeCasing.h): one-to-one lowercase.
-- An entry has the first and last code point of a run, its stride, and what the first maps to.
mod From0041
mod From24C7
use libcxxext.Prelude.{◌≡◌, refl}
use libcxxext.Prelude.{
  ℕ, ◌+◌, ◌-◌, ◌%◌, Bool, true, false, ◌&&◌, List, [], ◌∷◌, ◌++◌, ltb, leb, ◌==◌, if◌then◌else◌,
}
use libcxxext.Casing.Lookup.{in_runs}
use libcxxext.Casing.Tables.ToLower.From0041.{
  to_lower_simple_from_0041, to_lower_simple_from_01b3, to_lower_simple_from_0411,
  to_lower_simple_from_0544, to_lower_simple_from_1c94, to_lower_simple_from_1ee0,
}
use libcxxext.Casing.Tables.ToLower.From24C7.{
  to_lower_simple_from_24c7, to_lower_simple_from_a684, to_lower_simple_from_10413,
  to_lower_simple_from_10d57,
}

abbrev pub to_lower_simple_runs : List (ℕ × ℕ × ℕ × ℕ)
to_lower_simple_runs =
    to_lower_simple_from_0041 ++ to_lower_simple_from_01b3 ++ to_lower_simple_from_0411
    ++ to_lower_simple_from_0544 ++ to_lower_simple_from_1c94 ++ to_lower_simple_from_1ee0
    ++ to_lower_simple_from_24c7 ++ to_lower_simple_from_a684 ++ to_lower_simple_from_10413
    ++ to_lower_simple_from_10d57

unfoldable pub to_lower_simple : ℕ → ℕ
to_lower_simple c = in_runs c to_lower_simple_runs

-- Capital sigma becomes the sigma that does not end a word.
pub to_lower_simple_sigma : to_lower_simple 0x03A3 ≡ 0x03C3
unfolding to_lower_simple in_runs
to_lower_simple_sigma = refl
