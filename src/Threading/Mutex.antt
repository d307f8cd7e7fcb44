-- ===== src/Threading/Mutex.antt =====
-- `sys::ordinary_mutex` (sys.Threading/Mutex.h) as one thread uses it: the calls it makes of its `once`
-- and of the platform's handle, and the errors it makes of theirs. The operations of the handle are
-- parameters (tinycthread is behind them).
pub mod Discipline
pub mod Guarded
use libcxxext.Prelude.{Bool, true, false, if◌then◌else◌}
use libcxxext.Prelude.Outcome.{Outcome, done, violated, ◌>>=◌}
use libcxxext.Guards.{ResourceGuard, guard_resource}
use libcxxext.Threading.Errors.{
  ThreadingError, init_failed, operation_failed, busy, PlatformError, Answer, success, failure,
}
use libcxxext.Threading.Errors

-- `create`, `lock`, `try_lock`, `unlock` and `destroy` of `mutex_handle`.
pub record Handle (H : Type 0) : Type 0 where
  pub create : H → PlatformError × H
  pub lock_handle : H → PlatformError × H
  pub try_lock_handle : H → PlatformError × H
  pub unlock : H → PlatformError × H
  pub destroy_handle : H → H

pub record Mutex (H : Type 0) : Type 0 where
  pub mut : H
  pub completed : Bool

-- `result<guard, threading_error>`, where a guard is of the mutex at hand.
pub data Locked : Type 0 where
  locked : ResourceGuard (Unit {0}) → Locked
  refused : ThreadingError → Locked

abbrev pub is_ok : PlatformError → Bool
is_ok Errors.done = true
is_ok _ = false

abbrev pub is_held : PlatformError → Bool
is_held Errors.held = true
is_held _ = false

module _ {H : Type 0} (P : Handle H) where
  -- `try_init()`: `call_once` of `create`, whose failure leaves the `once` incomplete.
  unfoldable pub try_init : Mutex H → Bool × Mutex H
  try_init m =
      let (e, h) = P.create m.mut in
      if m.completed then (true, m) else (is_ok e, record { mut = h; completed = is_ok e })

  unfoldable pub acquire : Mutex H → Answer × Mutex H
  acquire m =
      let (inited, m1) = try_init m in
      let (e, h) = P.lock_handle m1.mut in
      if inited
      then (if is_ok e then success else failure operation_failed, record m1 { mut = h })
      else (failure init_failed, m1)

  unfoldable pub try_acquire : Mutex H → Answer × Mutex H
  try_acquire m =
      let (inited, m1) = try_init m in
      let (e, h) = P.try_lock_handle m1.mut in
      if inited
      then (
        if is_ok e then success else if is_held e then failure busy else failure operation_failed,
        record m1 { mut = h },
      )
      else (failure init_failed, m1)

  unfoldable pub lock : Mutex H → Locked × Mutex H
  lock m =
      let (inited, m1) = try_init m in
      let (e, h) = P.lock_handle m1.mut in
      if inited
      then (
        if is_ok e then locked (guard_resource tt) else refused operation_failed,
        record m1 { mut = h },
      )
      else (refused init_failed, m1)

  unfoldable pub try_lock : Mutex H → Locked × Mutex H
  try_lock m =
      let (inited, m1) = try_init m in
      let (e, h) = P.try_lock_handle m1.mut in
      if inited
      then (
        if is_ok e
            then locked (guard_resource tt)
            else if is_held e
            then refused busy
            else refused operation_failed,
        record m1 { mut = h },
      )
      else (refused init_failed, m1)

  -- `release`, with the contract that the mutex was initialized.
  unfoldable pub release : Mutex H → Outcome (Answer × Mutex H)
  release m =
      let (e, h) = P.unlock m.mut in
      if m.completed
      then done (if is_ok e then success else failure operation_failed, record m { mut = h })
      else violated

  -- `release_guard(m)`, with the contract that the release succeeds.
  unfoldable pub release_by_guard : Mutex H → Outcome (Mutex H)
  release_by_guard m = do r ← release m; elim r.0 [ success ↦ done r.1 | failure e ↦ violated ]

  -- The destructor: what is left of the handle.
  unfoldable pub destruct : Mutex H → H
  destruct m = if m.completed then P.destroy_handle m.mut else m.mut
