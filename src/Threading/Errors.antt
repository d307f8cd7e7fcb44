-- ===== src/Threading/Errors.antt =====
-- The errors of the threading primitives and of the platform's handles.

-- `sys::threading_error` (sys.Threading/ThreadingErrors.h)
pub data ThreadingError : Type 0 where
  ok oom init_failed not_initialized operation_failed busy invalid_argument invalid_operation :
      ThreadingError
  overflow : ThreadingError

-- `sys::internal::threading_error` (sys.PlatformSupport.Threading/sup/ThreadingErrors.h): its `ok`,
-- `busy` and `oom` are `done`, `held` and `nomem` here.
pub data PlatformError : Type 0 where
  error done timeout held nomem : PlatformError

-- `sys::result<void, threading_error>`
pub data Answer : Type 0 where
  success : Answer
  failure : ThreadingError → Answer
