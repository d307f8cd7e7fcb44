-- ===== src/Examples/Mutexes.antt =====
-- A program over a mutex and two guards.
use libcxxext.Prelude.{true, ◌≡◌, refl, [], ◌∷◌}
use libcxxext.Prelude.Outcome.{done}
use libcxxext.Threading.Errors
use libcxxext.Threading.Mutex.{Mutex, try_init, lock, try_lock, release, release_by_guard}
use libcxxext.Guards.{assign_guard, swap_guards, release_guard, guard_resource}
use libcxxext.Threading.Mutex.Guarded.{
  Answers, taken, given, other, lock_call, try_lock_call, move_call, clear_call, whole, run, call,
  destruct_all, destruct_guard,
}

-- A platform where nothing fails.
abbrev willing : Answers
willing = record {
  create = λ es. Errors.done;
  on_lock = λ es. Errors.done;
  on_try_lock = λ es. Errors.done;
  on_unlock = λ es. Errors.done;
}

given_twice :
    whole willing 2 (lock_call 0 ∷ move_call 1 0 ∷ clear_call 1 ∷ try_lock_call 0 ∷ [])
    ≡ done (record { mut = given ∷ taken ∷ given ∷ taken ∷ other ∷ []; completed = true })
unfolding whole run call destruct_all destruct_guard lock try_lock try_init release release_by_guard
    assign_guard swap_guards release_guard guard_resource
given_twice = refl
