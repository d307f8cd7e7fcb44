-- ===== src/Threading/Thread.antt =====
-- `sys::managed_thread` (sys.Threading/ThreadEx.h) as one thread uses it. A platform thread is a number,
-- and the null handle `none`; the functor that it runs is not followed. The allocation of functors and
-- the operations of the platform's handle are parameters (tinycthread is behind them).
pub mod Ownership
pub mod Programs
pub mod Functors
pub mod Handles
use libcxxext.Prelude.{
  ℕ, Bool, true, false, not, ◌==◌, if◌then◌else◌, List, [], ◌∷◌, Option, none, some,
}
use libcxxext.Prelude.Outcome.{Outcome, done, violated}
use libcxxext.Threading.Errors.{
  ThreadingError, oom, init_failed, operation_failed, invalid_operation, PlatformError,
}
use libcxxext.Threading.Mutex.{is_ok}

-- What has happened to platform threads.
pub data Event : Type 0 where
  spawned joined detached : ℕ → Event

-- What the environment answers, by what has happened so far, the newest first: whether there is memory
-- for a functor, how `create` ends and with which thread, and how `join` ends and with which exit code.
pub record Platform : Type 0 where
  pub allocates : List Event → Bool
  pub create : List Event → PlatformError
  pub new_thread : List Event → ℕ
  pub join_handle : List Event → ℕ → PlatformError × ℕ

-- `result<managed_thread, threading_error>`
pub data Made : Type 0 where
  made : Option ℕ → Made
  not_made : ThreadingError → Made

-- `result<sys::integer<int>, threading_error>`
pub data Joined : Type 0 where
  exited : ℕ → Joined
  refused : ThreadingError → Joined

module _ (P : Platform) (self : ℕ) where
  unfoldable pub ctor : List Event → Made × List Event
  ctor es =
      if not (P.allocates es)
      then (not_made oom, es)
      else if is_ok (P.create es)
      then (made (some (P.new_thread es)), spawned (P.new_thread es) ∷ es)
      else (not_made init_failed, es)

  -- `joinable()`: `self` is the calling thread.
  abbrev pub joinable : Option ℕ → Bool
  joinable none = false
  joinable (some t) = not (t == self)

  unfoldable pub join : Option ℕ → List Event → Joined × Option ℕ × List Event
  join none es = (refused invalid_operation, none, es)
  join (some t) es =
      let (e, code) = P.join_handle es t in
      if not (joinable (some t))
      then (refused invalid_operation, some t, es)
      else if is_ok e
      then (exited code, none, joined t ∷ es)
      else (refused operation_failed, some t, es)

  unfoldable pub detach : Option ℕ → List Event → Option ℕ × List Event
  detach none es = (none, es)
  detach (some t) es = if not (joinable (some t)) then (some t, es) else (none, detached t ∷ es)

  -- The destructor, with the contract that the thread can be joined.
  unfoldable pub destruct : Option ℕ → List Event → Outcome (List Event)
  destruct none es = done es
  destruct (some t) es =
      if joinable (some t)
      then (if is_ok (P.join_handle es t).0 then done (joined t ∷ es) else violated)
      else done es
