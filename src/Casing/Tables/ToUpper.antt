-- ===== src/Casing/Tables/ToUpper.antt =====
-- `internal::dchar_to_upper_simple` (sys.Text/data/UnicodeCasing.h): one-to-one uppercase.
-- An entry has the first and last code point of a run, its stride, and what the first maps to.
mod From0061
mod From1E4D
use libcxxext.Prelude.{
  ℕ, ◌+◌, ◌-◌, ◌%◌, Bool, true, false, ◌&&◌, List, [], ◌∷◌, ◌++◌, ltb, leb, ◌==◌, if◌then◌else◌,
}
use libcxxext.Casing.Lookup.{in_runs}
use libcxxext.Casing.Tables.ToUpper.From0061.{
  to_upper_simple_from_0061, to_upper_simple_from_01d0, to_upper_simple_from_03e9,
  to_upper_simple_from_051f,
}
use libcxxext.Casing.Tables.ToUpper.From1E4D.{
  to_upper_simple_from_1e4d, to_upper_simple_from_1f82, to_upper_simple_from_2ca3,
  to_upper_simple_from_a76f, to_upper_simple_from_1042a, to_upper_simple_from_10ce9,
  to_upper_simple_from_1e93f,
}

abbrev pub to_upper_simple_runs : List (ℕ × ℕ × ℕ × ℕ)
to_upper_simple_runs =
    to_upper_simple_from_0061 ++ to_upper_simple_from_01d0 ++ to_upper_simple_from_03e9
    ++ to_upper_simple_from_051f ++ to_upper_simple_from_1e4d ++ to_upper_simple_from_1f82
    ++ to_upper_simple_from_2ca3 ++ to_upper_simple_from_a76f ++ to_upper_simple_from_1042a
    ++ to_upper_simple_from_10ce9 ++ to_upper_simple_from_1e93f

unfoldable pub to_upper_simple : ℕ → ℕ
to_upper_simple c = in_runs c to_upper_simple_runs
