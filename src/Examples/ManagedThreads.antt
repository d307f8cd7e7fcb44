-- ===== src/Examples/ManagedThreads.antt =====
-- `sys::managed_thread` in a small program.
use libcxxext.Threading.Thread.Functors.{
  lifetime, absent, is_called, is_destroyed, count_events, functor_fate, to_int, exactly_int,
  returned, exited, documented, functor_fate-lifetime,
}
use libcxxext.Prelude.{suc, some, true, ◌≡◌, refl, arith, length, [], ◌∷◌}
use libcxxext.Prelude.Outcome
use libcxxext.Prelude.Outcome.{Keeps}
use libcxxext.Threading.Errors
use libcxxext.Threading.Thread.{Platform, spawned, joined, detached, ctor, join, detach, destruct}
use libcxxext.Threading.Thread.Ownership.{IsSettled}
use libcxxext.Threading.Thread.Programs.{
  start_call, detach_call, move_call, call, run, destruct_all, whole, whole-IsSettled,
}

-- Thread 0 may start threads, numbered from 1.
abbrev starting : Platform
starting = record {
  allocates = λ es. true;
  create = λ es. Errors.done;
  new_thread = λ es. suc (length es);
  join_handle = λ es t. (Errors.done, 0);
}

-- The second thread replaces the first one, which is joined by then, and the third is detached.
whole-IsSettled_example : Keeps IsSettled (
    whole starting 0 2
      (start_call 0 ∷ start_call 0 ∷ start_call 1 ∷ move_call 0 1 ∷ detach_call 0 ∷ []))
whole-IsSettled_example =
    whole-IsSettled starting 0 (λ es. omega arith) 2
      (start_call 0 ∷ start_call 0 ∷ start_call 1 ∷ move_call 0 1 ∷ detach_call 0 ∷ [])

all_ended :
    whole starting 0 2
      (start_call 0 ∷ start_call 0 ∷ start_call 1 ∷ move_call 0 1 ∷ detach_call 0 ∷ [])
    ≡ Outcome.done (joined 2 ∷ detached 4 ∷ spawned 4 ∷ joined 1 ∷ spawned 2 ∷ spawned 1 ∷ [])
unfolding whole run call destruct_all ctor join detach destruct
all_ended = refl

-- The functor returns a `bool`, which converts to 1.
functor_fate-lifetime_example :
    (lifetime (some absent) (functor_fate true Errors.done to_int (returned 1)).1 ≡ some absent)
    × (count_events is_called (functor_fate true Errors.done to_int (returned 1)).1 ≡ 1)
    × (count_events is_destroyed (functor_fate true Errors.done to_int (returned 1)).1 ≡ 1)
    × ((functor_fate true Errors.done to_int (returned 1)).0
        ≡ exited (documented exactly_int (returned 1)))
functor_fate-lifetime_example = functor_fate-lifetime true Errors.done to_int (returned 1)

-- By the documentation it would be 0.
bool_differs : (documented to_int (returned 1) ≡ 0) × (documented exactly_int (returned 1) ≡ 1)
bool_differs = (refl, refl)
