-- ===== src/Casing/Fixed/Checks.antt =====
-- The generated tables give only code points that they leave alone, by a test of their entries.
use libcxxext.Prelude.{ℕ, true, ◌≡◌, refl, List, [], ◌∷◌, All}
use libcxxext.Char.{is_scalar}
use libcxxext.Text.{equal, member}
use libcxxext.Casing.Lookup.{in_runs, find_case}
use libcxxext.Casing.Keys.{every_run, every_case, table}
use libcxxext.Casing.Fixed.{gives_fixed, IsFixed, table-IsFixed}
use libcxxext.Casing.Tables.ToLower.{to_lower_simple_runs}
use libcxxext.Casing.Tables.ToUpper.{to_upper_simple_runs}
use libcxxext.Casing.Tables.Fold.{fold_simple_runs}
use libcxxext.Casing.Tables.UpperSpecial.{upper_special_cases}
use libcxxext.Casing.Tables.FoldSpecial.{fold_special_cases}

-- The code points that `lower_special`, `upper_special` and `fold_special` have rules for.
abbrev pub lower_reserved : List ℕ
lower_reserved = 0x03A3 ∷ 0x0049 ∷ 0x004A ∷ 0x012E ∷ 0x00CC ∷ 0x00CD ∷ 0x0128 ∷ 0x0130 ∷ []

abbrev pub upper_reserved : List ℕ
upper_reserved = 0x0069 ∷ []

abbrev pub fold_reserved : List ℕ
fold_reserved = 0x0049 ∷ 0x0130 ∷ []

abbrev pub LowerFixed : ℕ → Type 0
LowerFixed = IsFixed lower_reserved [] to_lower_simple_runs

abbrev pub UpperFixed : ℕ → Type 0
UpperFixed = IsFixed upper_reserved upper_special_cases to_upper_simple_runs

abbrev pub FoldFixed : ℕ → Type 0
FoldFixed = IsFixed fold_reserved fold_special_cases fold_simple_runs

lower_in_table :
    every_run (gives_fixed lower_reserved [] to_lower_simple_runs) to_lower_simple_runs ≡ true
unfolding every_run find_case in_runs equal member is_scalar
lower_in_table = refl

upper_in_cases :
    every_case
      (gives_fixed upper_reserved upper_special_cases to_upper_simple_runs)
      upper_special_cases
    ≡ true
unfolding every_case find_case in_runs equal member is_scalar
upper_in_cases = refl

upper_in_table :
    every_run
      (gives_fixed upper_reserved upper_special_cases to_upper_simple_runs)
      to_upper_simple_runs
    ≡ true
unfolding every_run find_case in_runs equal member is_scalar
upper_in_table = refl

fold_in_cases :
    every_case (gives_fixed fold_reserved fold_special_cases fold_simple_runs) fold_special_cases
    ≡ true
unfolding every_case find_case in_runs equal member is_scalar
fold_in_cases = refl

fold_in_table :
    every_run (gives_fixed fold_reserved fold_special_cases fold_simple_runs) fold_simple_runs
    ≡ true
unfolding every_run find_case in_runs equal member is_scalar
fold_in_table = refl

pub upper_table-UpperFixed :
    (c : ℕ) → is_scalar c ≡ true → All UpperFixed (table upper_special_cases to_upper_simple_runs c)
unfolding find_case in_runs equal member is_scalar
upper_table-UpperFixed =
    table-IsFixed upper_reserved upper_special_cases to_upper_simple_runs upper_in_cases
      upper_in_table refl

pub fold_table-FoldFixed :
    (c : ℕ) → is_scalar c ≡ true → All FoldFixed (table fold_special_cases fold_simple_runs c)
unfolding find_case in_runs equal member is_scalar
fold_table-FoldFixed =
    table-IsFixed fold_reserved fold_special_cases fold_simple_runs fold_in_cases fold_in_table refl

pub lower_table-LowerFixed :
    (c : ℕ) → is_scalar c ≡ true → All LowerFixed (table [] to_lower_simple_runs c)
unfolding find_case in_runs equal member is_scalar every_case
lower_table-LowerFixed =
    table-IsFixed lower_reserved [] to_lower_simple_runs refl lower_in_table refl
