-- ===== src/Casing/Caseless/Checks.antt =====
-- The case folding of a code point and of its uppercase or lowercase are the same, by a test of the
-- entries of the generated tables.
use libcxxext.Prelude.{ℕ, Bool, true, ◌||◌, ◌≡◌, ◌⊎◌, refl, List, [], ◌∷◌, ◌++◌, ◌==◌, take, drop}
use libcxxext.Text.{equal}
use libcxxext.Casing.Lookup.{in_runs, find_case}
use libcxxext.Casing.Keys.{every_run, every_case, every_run_split, table, table_changes}
use libcxxext.Casing.Tables.ToLower.{to_lower_simple_runs}
use libcxxext.Casing.Tables.ToUpper.{to_upper_simple_runs}
use libcxxext.Casing.Tables.Fold.{fold_simple_runs}
use libcxxext.Casing.Tables.UpperSpecial.{upper_special_cases}
use libcxxext.Casing.Tables.FoldSpecial.{fold_special_cases}

unfoldable pub fold_table : ℕ → List ℕ
fold_table = table fold_special_cases fold_simple_runs

unfoldable pub upper_table : ℕ → List ℕ
upper_table = table upper_special_cases to_upper_simple_runs

unfoldable pub lower_table : ℕ → List ℕ
lower_table = table [] to_lower_simple_runs

abbrev pub fold_each : List ℕ → List ℕ
fold_each [] = []
fold_each (c ∷ cs) = fold_table c ++ fold_each cs

-- U+0131 is the only code point that folding tells from its uppercase, and U+0130 from its lowercase.
abbrev pub folds_as_upper : ℕ → Bool
folds_as_upper c = equal (fold_each (upper_table c)) (fold_table c) || c == 0x0131

abbrev pub folds_as_lower : ℕ → Bool
folds_as_lower c = equal (fold_each (lower_table c)) (fold_table c) || c == 0x0130

upper_in_cases : every_case folds_as_upper upper_special_cases ≡ true
unfolding every_case find_case in_runs equal fold_table upper_table
upper_in_cases = refl

-- The table of uppercase in four parts.
abbrev behind_first : List (ℕ × ℕ × ℕ × ℕ)
behind_first = drop 114 to_upper_simple_runs

abbrev behind_second : List (ℕ × ℕ × ℕ × ℕ)
behind_second = drop 39 behind_first

first_part : every_run folds_as_upper (take 114 to_upper_simple_runs) ≡ true
unfolding every_run find_case in_runs equal fold_table upper_table lower_table
first_part = refl

second_part : every_run folds_as_upper (take 39 behind_first) ≡ true
unfolding every_run find_case in_runs equal fold_table upper_table lower_table
second_part = refl

third_part : every_run folds_as_upper (take 45 behind_second) ≡ true
unfolding every_run find_case in_runs equal fold_table upper_table lower_table
third_part = refl

fourth_part : every_run folds_as_upper (drop 45 behind_second) ≡ true
unfolding every_run find_case in_runs equal fold_table upper_table lower_table
fourth_part = refl

upper_in_table : every_run folds_as_upper to_upper_simple_runs ≡ true
upper_in_table = every_run_split folds_as_upper 114 to_upper_simple_runs first_part (
    every_run_split folds_as_upper 39 behind_first second_part
      (every_run_split folds_as_upper 45 behind_second third_part fourth_part))

lower_in_table : every_run folds_as_lower to_lower_simple_runs ≡ true
unfolding every_run find_case in_runs equal fold_table lower_table
lower_in_table = refl

pub folds_as_upper_lem : (c : ℕ) → (folds_as_upper c ≡ true) ⊎ (upper_table c ≡ c ∷ [])
unfolding upper_table
folds_as_upper_lem =
    table_changes folds_as_upper upper_special_cases to_upper_simple_runs upper_in_cases
      upper_in_table

pub folds_as_lower_lem : (c : ℕ) → (folds_as_lower c ≡ true) ⊎ (lower_table c ≡ c ∷ [])
unfolding every_case lower_table
folds_as_lower_lem = table_changes folds_as_lower [] to_lower_simple_runs refl lower_in_table
