-- ===== src/Casing/Lookup.antt =====
-- How the tables of code points are read: each is a `switch` over a code point.
use libcxxext.Prelude.{
  ℕ, ◌+◌, ◌-◌, ◌%◌, Bool, true, false, ◌&&◌, List, [], ◌∷◌, leb, ◌==◌, if◌then◌else◌,
}

unfoldable pub in_ranges : ℕ → List (ℕ × ℕ) → Bool
in_ranges c [] = false
in_ranges c ((from, to) ∷ rs) = if leb from c && leb c to then true else in_ranges c rs

-- a code point outside every run is mapped to itself
unfoldable pub in_runs : ℕ → List (ℕ × ℕ × ℕ × ℕ) → ℕ
in_runs c [] = c
in_runs c ((from, to, stride, out) ∷ rs) =
    if leb from c && leb c to && ((c - from) % stride == 0) then out + (c - from) else in_runs c rs

-- class 0 is that of a code point outside every range
unfoldable pub class_of : ℕ → List (ℕ × ℕ × ℕ) → ℕ
class_of c [] = 0
class_of c ((from, to, class) ∷ rs) = if leb from c && leb c to then class else class_of c rs

-- the output of the first entry for `c`, or the given one
unfoldable pub find_case : ℕ → List (ℕ × List ℕ) → List ℕ → List ℕ
find_case c [] default = default
find_case c ((from, out) ∷ cases) default = if c == from then out else find_case c cases default
