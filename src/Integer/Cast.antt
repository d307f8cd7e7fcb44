-- ===== src/Integer/Cast.antt =====
-- Conversions between integer types: the pattern and its number, saturation, the checked cast,
-- the literals and the comparisons.
use libcxxext.Prelude.{ℕ, not, true, ◌≡◌, arith, some, none, ◌↔◌, ◌⊎◌}
use libcxxext.Prelude.Int.{ℤ, pos, ltb_ℤ, eqb_ℤ, ◌≤ℤ◌, ◌<ℤ◌}
use libcxxext.Integer.{
  IntType, i8, value, cast, lowest, highest, saturate, numeric_cast, literal, eq, lt, le, gt, ge,
}
use libcxxext.Integer.Arith.{IsPattern, Fits, clamp}

pub cast-value : (t : IntType) (a : ℕ) → IsPattern t a → cast t (value t a) ≡ a
cast-value i8 a h = ground arith
cast-value _ a h = ground arith

pub value-cast :
    (t : IntType) (z : ℤ) → Fits t z → (IsPattern t (cast t z)) × (value t (cast t z) ≡ z)
value-cast i8 z h = ground arith
value-cast _ z h = ground arith

-- The saturating conversion of any integer gives the nearest value of the target type, as a bit
-- pattern of that type.
pub value-saturate :
    (to : IntType) (z : ℤ)
    → (IsPattern to (saturate to z)) × (value to (saturate to z) ≡ clamp to z)
unfolding saturate
value-saturate i8 z = ground arith
value-saturate _ z = ground arith

-- fails exactly out of range, and otherwise has the value.
pub numeric_cast_iff :
    (to : IntType) (z : ℤ)
    → (Fits to z → (r : ℕ) × (numeric_cast to z ≡ some r) × (value to r ≡ z) × (saturate to z ≡ r))
      × ((z <ℤ value to (lowest to)) ⊎ (value to (highest to) <ℤ z) → numeric_cast to z ≡ none)
unfolding numeric_cast saturate
numeric_cast_iff i8 z =
    (λ f. (cast i8 z, ground arith, ground arith, ground arith), λ o. ground arith)
numeric_cast_iff t z =
    (λ f. (cast t z, ground arith, ground arith, ground arith), λ o. ground arith)

pub literal_iff : (t : IntType) (n : ℕ) → (literal t n ≡ some n) ↔ (pos n ≤ℤ value t (highest t))
unfolding literal
literal_iff i8 n = ground arith
literal_iff _ n = ground arith

ltb_ℤ_iff : (x y : ℤ) → (ltb_ℤ x y ≡ true) ↔ (x <ℤ y)
ltb_ℤ_iff x y = ground arith

not-ltb_ℤ_iff : (x y : ℤ) → (not (ltb_ℤ y x) ≡ true) ↔ (x ≤ℤ y)
not-ltb_ℤ_iff x y = ground arith

eqb_ℤ_iff : (x y : ℤ) → (eqb_ℤ x y ≡ true) ↔ (x ≡ y)
eqb_ℤ_iff x y = ground arith

-- The comparisons of any two types order the numbers.
pub compare_iff :
    (t u : IntType) (a b : ℕ)
    → ((lt t u a b ≡ true) ↔ (value t a <ℤ value u b))
      × ((le t u a b ≡ true) ↔ (value t a ≤ℤ value u b))
      × ((eq t u a b ≡ true) ↔ (value t a ≡ value u b))
      × ((gt t u a b ≡ true) ↔ (value u b <ℤ value t a))
      × ((ge t u a b ≡ true) ↔ (value u b ≤ℤ value t a))
unfolding lt le eq gt ge
compare_iff t u a b =
    let x = value t a in
    let y = value u b in
    (ltb_ℤ_iff x y, not-ltb_ℤ_iff x y, eqb_ℤ_iff x y, ltb_ℤ_iff y x, not-ltb_ℤ_iff y x)
