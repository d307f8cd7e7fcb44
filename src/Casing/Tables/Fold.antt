-- ===== src/Casing/Tables/Fold.antt =====
-- `internal::dchar_fold_simple` (sys.Text/data/UnicodeCasing.h): one-to-one case folding.
-- An entry has the first and last code point of a run, its stride, and what the first maps to.
mod From0041
mod From1F6C
use libcxxext.Prelude.{
  ℕ, ◌+◌, ◌-◌, ◌%◌, Bool, true, false, ◌&&◌, List, [], ◌∷◌, ◌++◌, ltb, leb, ◌==◌, if◌then◌else◌,
}
use libcxxext.Casing.Lookup.{in_runs}
use libcxxext.Casing.Tables.Fold.From0041.{
  fold_simple_from_0041, fold_simple_from_01b2, fold_simple_from_0407, fold_simple_from_053a,
  fold_simple_from_1e26,
}
use libcxxext.Casing.Tables.Fold.From1F6C.{
  fold_simple_from_1f6c, fold_simple_from_2c60, fold_simple_from_a786, fold_simple_from_ff36,
  fold_simple_from_10ca2, fold_simple_from_1e916,
}

abbrev pub fold_simple_runs : List (ℕ × ℕ × ℕ × ℕ)
fold_simple_runs =
    fold_simple_from_0041 ++ fold_simple_from_01b2 ++ fold_simple_from_0407 ++ fold_simple_from_053a
    ++ fold_simple_from_1e26 ++ fold_simple_from_1f6c ++ fold_simple_from_2c60
    ++ fold_simple_from_a786 ++ fold_simple_from_ff36 ++ fold_simple_from_10ca2
    ++ fold_simple_from_1e916

unfoldable pub fold_simple : ℕ → ℕ
fold_simple c = in_runs c fold_simple_runs
