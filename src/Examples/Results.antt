-- ===== src/Examples/Results.antt =====
-- Results at concrete states.
use libcxxext.Prelude.{some}
use libcxxext.Prelude.Outcome.{violated}
use libcxxext.Result.Nullable.{move_twice, pointer_move_twice, second_move}
use libcxxext.Prelude.{ℕ, false, ◌≡◌, refl}
use libcxxext.Prelude.Outcome.{done}
use libcxxext.Result.{
  Result, object, reference, value_at, error_at, ok, error, assign, swap, destroy, has_object,
  Storage,
}
use libcxxext.Result.Lifetimes.{Moves, assign-Moves, destroy_leaves}
use libcxxext.Result.Exchange.{Exchanges, swap-Exchanges}
use libcxxext.Result.Taking.{TakesOr, move-TakesOr}

abbrev seven : Result ℕ ℕ
seven = record { storage = value_at 7; status = ok }

abbrev failed_with_two : Result ℕ ℕ
failed_with_two = record { storage = error_at 2; status = error }

assign-Moves_example :
    Moves object object (assign object object seven failed_with_two) failed_with_two
assign-Moves_example = assign-Moves object object seven failed_with_two refl refl

swap-Exchanges_example :
    Exchanges object reference
      (swap object reference 4 8 seven failed_with_two)
      seven
      failed_with_two
swap-Exchanges_example = swap-Exchanges object reference 4 8 seven failed_with_two refl refl

destroy_leaves_example :
    (left : Storage ℕ ℕ) × (destroy object object seven ≡ done left)
    × (has_object object object left ≡ false)
destroy_leaves_example = destroy_leaves object object seven refl

move-TakesOr_example : TakesOr object object 9 failed_with_two
move-TakesOr_example = move-TakesOr object object 9 failed_with_two refl refl

second_move_example :
    (move_twice object object seven ≡ violated)
    × (pointer_move_twice {A = ℕ} (record { value = some 5 }) ≡ done (some 5, some 5))
second_move_example = second_move object object 5 seven refl refl
