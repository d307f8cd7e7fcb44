-- ===== src/Casing/Tables/CombiningClass.antt =====
-- `internal::dchar_ccc` (sys.Text/data/UnicodeCCC.h): the canonical combining class, as its number in the
-- enumeration. An entry has the first and last code point of a range, and its class.
mod From0300
mod From08D4
mod From20D5
use libcxxext.Prelude.{
  ℕ, ◌+◌, ◌-◌, ◌%◌, Bool, true, false, ◌&&◌, List, [], ◌∷◌, ◌++◌, ltb, leb, ◌==◌, if◌then◌else◌,
}
use libcxxext.Casing.Lookup.{class_of}
use libcxxext.Casing.Tables.CombiningClass.From0300.{ccc_from_0300, ccc_from_05b3}
use libcxxext.Casing.Tables.CombiningClass.From08D4.{ccc_from_08d4, ccc_from_1ac5}
use libcxxext.Casing.Tables.CombiningClass.From20D5.{ccc_from_20d5, ccc_from_10d24, ccc_from_1e009}

-- `canonical_combining_class::not_reordered` and `above`.
abbrev pub not_reordered : ℕ
not_reordered = 0

abbrev pub above : ℕ
above = 230

pub ccc : ℕ → ℕ
ccc c = class_of c (
    ccc_from_0300 ++ ccc_from_05b3 ++ ccc_from_08d4 ++ ccc_from_1ac5 ++ ccc_from_20d5
    ++ ccc_from_10d24 ++ ccc_from_1e009)
