-- ===== src/Examples/Guards.antt =====
-- The scope guards at concrete objects.
use libcxxext.Prelude.{ℕ, true, ◌≡◌, [], ◌∷◌}
use libcxxext.Guards.{OptionalDestructor, move_destructor, assign_destructor, clear, run_destructor}
use libcxxext.Guards.Cleanups.{both, assign_destructor-run_destructor}

abbrev pending : ℕ → OptionalDestructor ℕ
pending n = record { func = n; execute = true }

-- The cleanup 1 is lost.
assign_destructor-run_destructor_example :
    (run_destructor (assign_destructor (pending 1) (pending 2)).0 ≡ 2 ∷ [])
    × (run_destructor (assign_destructor (pending 1) (pending 2)).1 ≡ [])
    × (both run_destructor (move_destructor (pending 2)) ≡ 2 ∷ [])
    × (run_destructor (clear (pending 1)) ≡ [])
unfolding run_destructor
assign_destructor-run_destructor_example = assign_destructor-run_destructor (pending 1) (pending 2)
