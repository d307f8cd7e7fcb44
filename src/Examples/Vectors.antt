-- ===== src/Examples/Vectors.antt =====
-- The vector at concrete states.
use libcxxext.Containers.Vector.Programs.{
  Op, push_op, find_op, at_op, pop_op, clear_op, size_op, empty_op, pushed, found, element, counted,
  found_empty, finished, skipped, undefined, run, spec_run,
}
use libcxxext.Containers.Vector.Traces.{run-spec_run_vector}
use libcxxext.Containers.Vector.Layout.{index_from}
use libcxxext.Containers.Vector.{new_vector}
use libcxxext.Prelude.{
  ℕ, ◌≤◌, ◌<◌, get_or, true, ◌≡◌, ◌==◌, refl, arith, zero, suc, List, [], ◌∷◌, Option, none, some,
  false,
}
use libcxxext.Containers.Vector.{InplaceVector, capacity, push_back, clear, find}
use libcxxext.Containers.Vector.Lifetimes.{IsValid, clear-IsValid, push_back-IsValid}
use libcxxext.Containers.Vector.Elements.{elements, IsFirst, elements-push_back, find-IsFirst}

abbrev pair_of_three : InplaceVector ℕ
pair_of_three = record { slots = some 5 ∷ some 6 ∷ none ∷ []; size = 2 }

pair_of_three-IsValid : IsValid pair_of_three
pair_of_three-IsValid = (omega arith, (alive, λ i h. absurd (omega arith), raw))
  where
    alive : (i : ℕ) → 0 ≤ i → i < 2 → (x : ℕ) × (get_or pair_of_three.slots i none ≡ some x)
    alive zero h k = (5, refl)
    alive (suc zero) h k = (6, refl)
    alive (suc (suc i)) h k = absurd (omega arith)

    raw : (i : ℕ) → 2 ≤ i → get_or pair_of_three.slots i none ≡ none
    raw zero h = absurd (omega arith)
    raw (suc zero) h = absurd (omega arith)
    raw (suc (suc zero)) h = refl
    raw (suc (suc (suc i))) h = refl

clear-IsValid_example :
    (cleared : InplaceVector ℕ) × (clear false pair_of_three ≡ some cleared)
    × (cleared.size ≡ 0)
    × (capacity cleared ≡ capacity pair_of_three)
    × IsValid cleared
clear-IsValid_example = clear-IsValid false pair_of_three pair_of_three-IsValid

push_back-IsValid_example : IsValid (push_back 7 pair_of_three).1
push_back-IsValid_example = push_back-IsValid 7 pair_of_three pair_of_three-IsValid

elements-push_back_example :
    ((push_back 7 pair_of_three).0 ≡ true)
    × (elements (push_back 7 pair_of_three).1 ≡ some 5 ∷ some 6 ∷ some 7 ∷ [])
elements-push_back_example = elements-push_back 7 pair_of_three

find-IsFirst_example :
    (found : Option ℕ) × (find (λ x y. x == y) 6 pair_of_three ≡ some found)
    × IsFirst (λ x y. x == y) 6 pair_of_three.slots 0 2 found
find-IsFirst_example = find-IsFirst (λ x y. x == y) 6 pair_of_three pair_of_three-IsValid

-- A vector of capacity 2 refuses a third element, pops a scalar only when it is not full.
abbrev filling : List (Op ℕ)
filling =
    push_op 5
    ∷ push_op 6
    ∷ push_op 7
    ∷ find_op 6
    ∷ at_op 0
    ∷ size_op
    ∷ clear_op
    ∷ empty_op
    ∷ pop_op
    ∷ push_op 8
    ∷ pop_op
    ∷ size_op
    ∷ at_op 0
    ∷ push_op 9
    ∷ push_op 10
    ∷ at_op 0
    ∷ pop_op
    ∷ []

run-spec_run_vector_example :
    run true (λ x y. x == y) filling (new_vector 2) ≡ spec_run true (λ x y. x == y) 2 filling []
run-spec_run_vector_example = run-spec_run_vector (λ x y. x == y) 2 true filling

filling_seen :
    spec_run true (λ x y. x == y) 2 filling []
    ≡ pushed true
      ∷ pushed true
      ∷ pushed false
      ∷ found (some 1)
      ∷ element 5
      ∷ counted 2
      ∷ finished
      ∷ found_empty true
      ∷ finished
      ∷ pushed true
      ∷ finished
      ∷ counted 0
      ∷ skipped
      ∷ pushed true
      ∷ pushed true
      ∷ element 9
      ∷ undefined
      ∷ []
unfolding spec_run index_from
filling_seen = refl

class_seen :
    spec_run false (λ x y. x == y) 2 (push_op 8 ∷ pop_op ∷ size_op ∷ []) []
    ≡ pushed true ∷ undefined ∷ []
unfolding spec_run
class_seen = refl
