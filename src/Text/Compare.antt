-- ===== src/Text/Compare.antt =====
-- The three-way comparisons of strings, with the string on either side.
use Prim.Native.Nat.{Ordering}
use libcxxext.Prelude.{ℕ, ◌≡◌, ◌≢◌, refl, arith, List, [], ◌∷◌}
use libcxxext.Text.{compare_units, compare_string_view, compare_view_string}

abbrev pub reversed : Ordering → Ordering
reversed Ordering.lt = Ordering.gt
reversed Ordering.eq = Ordering.eq
reversed Ordering.gt = Ordering.lt

compare_units-reversed : (xs ys : List ℕ) → compare_units ys xs ≡ reversed (compare_units xs ys)
unfolding compare_units
compare_units-reversed [] [] = refl
compare_units-reversed [] (y ∷ ys) = refl
compare_units-reversed (x ∷ xs) [] = refl
compare_units-reversed (x ∷ xs) (y ∷ ys) = ground (arith, compare_units-reversed xs ys)

compare_units-eq : (xs ys : List ℕ) → compare_units xs ys ≡ Ordering.eq → xs ≡ ys
unfolding compare_units
compare_units-eq [] [] h = refl
compare_units-eq [] (y ∷ ys) h = cc
compare_units-eq (x ∷ xs) [] h = cc
compare_units-eq (x ∷ xs) (y ∷ ys) h = ground (arith, compare_units-eq xs ys)

-- `operator<=>` with a view or an array on the left returns the reverse of what it returns for the
-- same two texts with the string on the left, and so the wrong order for any two texts that differ.
pub view_string_reversed :
    (a b : List ℕ)
    → (compare_view_string a b ≡ reversed (compare_string_view a b))
      × (a ≢ b → compare_view_string a b ≢ compare_string_view a b)
unfolding compare_view_string compare_string_view
view_string_reversed a b = (
  compare_units-reversed a b,
  λ ne h. ne (compare_units-eq a b (ground (arith, compare_units-reversed a b))),
)
