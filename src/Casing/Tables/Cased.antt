-- ===== src/Casing/Tables/Cased.antt =====
-- `internal::dchar_is_cased` (sys.Text/data/UnicodeCasing.h): the cased code points, as ranges of code points.
mod From0041
mod FromA77E
use libcxxext.Prelude.{
  ℕ, ◌+◌, ◌-◌, ◌%◌, Bool, true, false, ◌&&◌, List, [], ◌∷◌, ◌++◌, ltb, leb, ◌==◌, if◌then◌else◌,
}
use libcxxext.Casing.Lookup.{in_ranges}
use libcxxext.Casing.Tables.Cased.From0041.{
  is_cased_from_0041, is_cased_from_0121, is_cased_from_01b7, is_cased_from_0252,
  is_cased_from_03a8, is_cased_from_043f, is_cased_from_04dd, is_cased_from_057d,
  is_cased_from_13d3, is_cased_from_1d34, is_cased_from_1e0a, is_cased_from_1ea0,
  is_cased_from_1f3a, is_cased_from_1fe9, is_cased_from_24e3, is_cased_from_2c8f,
  is_cased_from_a652,
}
use libcxxext.Casing.Tables.Cased.FromA77E.{
  is_cased_from_a77e, is_cased_from_ab63, is_cased_from_ff5a, is_cased_from_104f9,
  is_cased_from_10c96, is_cased_from_118ba, is_cased_from_16ed2, is_cased_from_1d495,
  is_cased_from_1d53c, is_cased_from_1d5d8, is_cased_from_1d66e, is_cased_from_1d709,
  is_cased_from_1d7a4, is_cased_from_1e90e,
}

pub is_cased : ℕ → Bool
is_cased c = in_ranges c (
    is_cased_from_0041 ++ is_cased_from_0121 ++ is_cased_from_01b7 ++ is_cased_from_0252
    ++ is_cased_from_03a8 ++ is_cased_from_043f ++ is_cased_from_04dd ++ is_cased_from_057d
    ++ is_cased_from_13d3 ++ is_cased_from_1d34 ++ is_cased_from_1e0a ++ is_cased_from_1ea0
    ++ is_cased_from_1f3a ++ is_cased_from_1fe9 ++ is_cased_from_24e3 ++ is_cased_from_2c8f
    ++ is_cased_from_a652 ++ is_cased_from_a77e ++ is_cased_from_ab63 ++ is_cased_from_ff5a
    ++ is_cased_from_104f9 ++ is_cased_from_10c96 ++ is_cased_from_118ba ++ is_cased_from_16ed2
    ++ is_cased_from_1d495 ++ is_cased_from_1d53c ++ is_cased_from_1d5d8 ++ is_cased_from_1d66e
    ++ is_cased_from_1d709 ++ is_cased_from_1d7a4 ++ is_cased_from_1e90e)
