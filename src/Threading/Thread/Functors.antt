-- ===== src/Threading/Thread/Functors.antt =====
-- The functor that `managed_thread::ctor` copies for the new thread: its memory, its lifetime and the
-- exit code of its thread (sys.Threading/ThreadEx.h).
use libcxxext.Prelude.{
  ℕ, ◌+◌, Bool, true, false, not, ◌&&◌, ◌≡◌, arith, if◌then◌else◌, List, [], ◌∷◌, ◌++◌, Option,
  none, some,
}
use libcxxext.Integer.{i32, sentinel}
use libcxxext.Guards.{guarding, clear, deferred, optional, run_cleanup, run_destructor, scope_end}
use libcxxext.Threading.Errors.{ThreadingError, oom, init_failed, PlatformError}
use libcxxext.Threading.Mutex.{is_ok}

-- `new`, the call, the destructor, and the release of the memory.
pub data Event : Type 0 where
  constructed called destroyed freed : Event

-- `delete` runs the destructor, `::operator delete` does not.
abbrev pub delete_functor : List Event
delete_functor = destroyed ∷ freed ∷ []

abbrev pub release_memory : List Event
release_memory = freed ∷ []

-- `std::invoke_result_t` of the functor: `int`, another type that converts to it, or any other.
pub data ResultType : Type 0 where
  exactly_int to_int no_int : ResultType

-- `std::convertible_to<..., int>`
abbrev pub converts : ResultType → Bool
converts no_int = false
converts _ = true

-- How a call of the functor ends: with a value, given as the bit pattern of the `int` it converts to if it
-- does, or with an exception, of the call or of the conversion.
pub data Ending : Type 0 where
  returned : ℕ → Ending
  threw : Ending

-- The body of `try` from `ret` on: `none` is an exception.
unfoldable pub try_call : ResultType → Ending → ℕ → Option ℕ
try_call type (returned v) ret = if converts type then some v else some ret
try_call type threw ret = none

-- What the cleanups of a scope do, in the order in which they run.
abbrev pub flat : List (List Event) → List Event
flat [] = []
flat (es ∷ rest) = es ++ flat rest

-- The function that the new thread runs: the deferred `delete` is an object of its scope, which ends with
-- both of its `return` statements.
unfoldable pub thread_body : ResultType → Ending → List Event × ℕ
unfolding try_call scope_end run_cleanup
thread_body type end =
    let scope = deferred delete_functor ∷ [] in
    elim (try_call type end 0) [
      | none ↦ (called ∷ flat (scope_end scope), sentinel i32)
      | some ret ↦ (called ∷ flat (scope_end scope), ret)
    ]

-- What `ctor` and the thread that it may start do to the functor, and the error that is returned or the
-- exit code of the thread.
pub data Fate : Type 0 where
  refused : ThreadingError → Fate
  exited : ℕ → Fate

unfoldable pub functor_fate : Bool → PlatformError → ResultType → Ending → Fate × List Event
unfolding guarding clear run_destructor scope_end run_cleanup thread_body
functor_fate allocates create type end =
    let on_fail = guarding release_memory in
    let (events, code) = thread_body type end in
    if not allocates
    then (refused oom, [])
    else if not (is_ok create)
    then (refused init_failed, constructed ∷ flat (scope_end (optional on_fail ∷ [])))
    else (exited code, constructed ∷ (flat (scope_end (optional (clear on_fail) ∷ [])) ++ events))

-- The functor as its memory has it: not allocated, an object, or the memory of one that was destroyed.
pub data Functor : Type 0 where
  absent alive dead : Functor

-- What one event makes of it: it is called or destroyed only while it is an object, and its memory is
-- released only while it is allocated. `none` is an error.
abbrev pub after : Functor → Event → Option Functor
after absent constructed = some alive
after alive called = some alive
after alive destroyed = some dead
after alive freed = some absent
after dead freed = some absent
after _ _ = none

unfoldable pub lifetime : Option Functor → List Event → Option Functor
lifetime none es = none
lifetime (some f) [] = some f
lifetime (some f) (e ∷ es) = lifetime (after f e) es

abbrev pub is_called : Event → ℕ
is_called called = 1
is_called _ = 0

abbrev pub is_destroyed : Event → ℕ
is_destroyed destroyed = 1
is_destroyed _ = 0

abbrev pub count_events : (Event → ℕ) → List Event → ℕ
count_events w [] = 0
count_events w (e ∷ es) = w e + count_events w es

-- The result of `join()` by the documentation of `ctor`.
abbrev pub documented : ResultType → Ending → ℕ
documented exactly_int (returned v) = v
documented _ (returned v) = 0
documented _ threw = sentinel i32

-- A result that converts to `int`, taken for an `int`.
abbrev pub as_int : ResultType → ResultType
as_int to_int = exactly_int
as_int type = type

-- Whatever memory, the creation of the thread and the functor answer, `ctor` and the thread that it
-- starts call, destroy and free the functor only while it is there, in this order, and leave no
-- memory of it. It is called and destroyed once when the thread was created, and otherwise never,
-- so that its destructor does not run when the creation fails. The error is `oom` without memory
-- and else `init_failed`; the exit code is the documented one if a result that converts to `int` is
-- taken for an `int`.
pub functor_fate-lifetime :
    (allocates : Bool) (create : PlatformError) (type : ResultType) (end : Ending)
    → let (fate, events) = functor_fate allocates create type end in
      let started = allocates && is_ok create in
      (lifetime (some absent) events ≡ some absent)
      × (count_events is_called events ≡ (if started then 1 else 0))
      × (count_events is_destroyed events ≡ (if started then 1 else 0))
      × (fate ≡ (
          if started
          then exited (documented (as_int type) end)
          else refused (if allocates then init_failed else oom)))
unfolding functor_fate thread_body try_call lifetime scope_end run_cleanup
functor_fate-lifetime allocates create exactly_int (returned v) = ground arith
functor_fate-lifetime allocates create to_int (returned v) = ground arith
functor_fate-lifetime allocates create no_int (returned v) = ground arith
functor_fate-lifetime allocates create exactly_int threw = ground arith
functor_fate-lifetime allocates create to_int threw = ground arith
functor_fate-lifetime allocates create no_int threw = ground arith
