-- ===== src/Casing/Tables/CaseIgnorable.antt =====
-- `internal::dchar_is_case_ignorable` (sys.Text/data/UnicodeCasing.h): the code points that casing contexts skip, as ranges of code points.
mod From0027
mod From1752
mod FromFe28
mod From1Cf19
use libcxxext.Prelude.{
  ℕ, ◌+◌, ◌-◌, ◌%◌, Bool, true, false, ◌&&◌, List, [], ◌∷◌, ◌++◌, ltb, leb, ◌==◌, if◌then◌else◌,
}
use libcxxext.Casing.Lookup.{in_ranges}
use libcxxext.Casing.Tables.CaseIgnorable.From0027.{
  is_case_ignorable_from_0027, is_case_ignorable_from_033b, is_case_ignorable_from_0656,
  is_case_ignorable_from_08e2, is_case_ignorable_from_0dd2,
}
use libcxxext.Casing.Tables.CaseIgnorable.From1752.{
  is_case_ignorable_from_1752, is_case_ignorable_from_1b6d, is_case_ignorable_from_1dad,
  is_case_ignorable_from_20d8, is_case_ignorable_from_a789,
}
use libcxxext.Casing.Tables.CaseIgnorable.FromFe28.{
  is_case_ignorable_from_fe28, is_case_ignorable_from_11044, is_case_ignorable_from_1171d,
  is_case_ignorable_from_11d97,
}
use libcxxext.Casing.Tables.CaseIgnorable.From1Cf19.{
  is_case_ignorable_from_1cf19, is_case_ignorable_from_1da4d, is_case_ignorable_from_1e06a,
  is_case_ignorable_from_e007c, is_case_ignorable_from_e0192,
}

pub is_case_ignorable : ℕ → Bool
is_case_ignorable c = in_ranges c (
    is_case_ignorable_from_0027 ++ is_case_ignorable_from_033b ++ is_case_ignorable_from_0656
    ++ is_case_ignorable_from_08e2 ++ is_case_ignorable_from_0dd2 ++ is_case_ignorable_from_1752
    ++ is_case_ignorable_from_1b6d ++ is_case_ignorable_from_1dad ++ is_case_ignorable_from_20d8
    ++ is_case_ignorable_from_a789 ++ is_case_ignorable_from_fe28 ++ is_case_ignorable_from_11044
    ++ is_case_ignorable_from_1171d ++ is_case_ignorable_from_11d97 ++ is_case_ignorable_from_1cf19
    ++ is_case_ignorable_from_1da4d ++ is_case_ignorable_from_1e06a ++ is_case_ignorable_from_e007c
    ++ is_case_ignorable_from_e0192)
