-- ===== src/Casing/Fixed.antt =====
-- Code points that a table leaves alone, and the tables that give only such code points.
pub mod Checks
pub mod Special
use libcxxext.Prelude.{
  ℕ, ◌+◌, Bool, true, false, not, ◌&&◌, ◌||◌, ◌≡◌, ◌⊎◌, inl, inr, refl, ap, ◌∙◌, sym, arith, List,
  [], ◌∷◌, ◌==◌, if◌then◌else◌, All, Bool-cases,
}
use libcxxext.Char.{is_scalar}
use libcxxext.Text.Split.{equal-eq}
use libcxxext.Text.{equal, member}
use libcxxext.Casing.Lookup.{in_runs, find_case}
use libcxxext.Casing.Keys.{every_run, every_case, table, table_changes}

abbrev pub all : (ℕ → Bool) → List ℕ → Bool
all p [] = true
all p (x ∷ xs) = p x && all p xs

all-member :
    (p : ℕ → Bool) (xs : List ℕ) (c : ℕ) → all p xs ≡ true → member c xs ≡ true → p c ≡ true
unfolding member
all-member p [] c h m = ground arith
all-member p (x ∷ xs) c h m = elim (Bool-cases (c == x)) [
  | inl here ↦ let same : c ≡ x = ground arith in rw same (ground arith)
  | inr there ↦ all-member p xs c (ground arith) (ground arith)
]

-- A table of runs, one of longer results that stands in front of it, and code points that a rule of a
-- language takes before both.
module _ (reserved : List ℕ) (cases : List (ℕ × List ℕ)) (runs : List (ℕ × ℕ × ℕ × ℕ)) where
  abbrev pub is_fixed : ℕ → Bool
  is_fixed d = not (member d reserved) && equal (table cases runs d) (d ∷ []) && is_scalar d

  abbrev pub gives_fixed : ℕ → Bool
  gives_fixed c = all is_fixed (table cases runs c)

  abbrev pub IsFixed : ℕ → Type 0
  IsFixed d = (member d reserved ≡ false) × (table cases runs d ≡ d ∷ []) × (is_scalar d ≡ true)

  is_fixed-IsFixed : (d : ℕ) → is_fixed d ≡ true → IsFixed d
  is_fixed-IsFixed d h = ground (arith, equal-eq (table cases runs d) (d ∷ []))

  pub all-IsFixed : (ds : List ℕ) → all is_fixed ds ≡ true → All IsFixed ds
  all-IsFixed [] h = tt
  all-IsFixed (d ∷ ds) h = (is_fixed-IsFixed d (ground arith), all-IsFixed ds (ground arith))

  module _ (in_cases : every_case gives_fixed cases ≡ true)
      (in_table : every_run gives_fixed runs ≡ true)
      (in_reserved : all gives_fixed reserved ≡ true) where
    pub table-IsFixed : (c : ℕ) → is_scalar c ≡ true → All IsFixed (table cases runs c)
    table-IsFixed c scalar = elim (Bool-cases (member c reserved)) [
      | inl taken ↦
          all-IsFixed (table cases runs c) (all-member gives_fixed reserved c in_reserved taken)
      | inr free ↦ elim (table_changes gives_fixed cases runs in_cases in_table c) [
        | inl here ↦ all-IsFixed (table cases runs c) here
        | inr same ↦ rw same ((free, same, scalar), tt)
      ]
    ]
