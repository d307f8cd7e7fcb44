-- ===== src/Threading/Semaphore.antt =====
-- `sys::ordinary_semaphore<T>` (sys.Threading/SemaphoreEx.h) at an unsigned `T` with the greatest value
-- `highest`: any number of threads over one semaphore. Its mutex and its condition variable are those
-- of the platform: at most one thread holds the mutex, a wait gives it up while it lasts and may end at
-- any time, a call may fail, and a wait that fails leaves the caller with the mutex.
pub mod Permits
use libcxxext.Prelude.{ℕ, ◌+◌, ◌-◌, ◌%◌, ◌<◌, ◌≡◌, ◌≢◌, Bool, true, false}
use libcxxext.Threading.Errors.{ThreadingError, overflow, Answer, success, failure}
use libcxxext.Threading.Exclusive.{move_on}

-- The counter and the mutex. `acquired` and `released` are no variables of the program: they count the
-- permits that were taken and that were put back.
pub record Semaphore : Type 0 where
  pub counter : ℕ
  pub held : Bool
  pub acquired : ℕ
  pub released : ℕ

-- Where a thread stands in `acquire` or in `release`.
pub data Pc : Type 0 where
  idle : Pc
  acquiring : Pc  -- at `mut.lock()` in `acquire`
  checking : Pc  -- at the predicate of `cv.wait_until`
  blocked : Pc  -- in `cond.wait`, without the mutex
  taking : Pc  -- at `--counter` in `acquire`
  releasing : Pc  -- at `mut.lock()` in `release`
  testing : Pc  -- at the test for an overflow
  adding : Pc  -- at `++counter`
  notifying : Pc  -- at `cv.notify_one()`
  undoing : Pc  -- at `--counter` in `release`
  leaving : Answer → Pc  -- at the destructor of the guard
  answered : Answer → Pc

module _ (highest : ℕ) where
  -- `--` and `++` of a `T`
  abbrev pub decremented : ℕ → ℕ
  decremented c = (c + highest) % (highest + 1)

  abbrev pub incremented : ℕ → ℕ
  incremented c = (c + 1) % (highest + 1)

  -- One step of one thread.
  pub data Move (m : Semaphore) : Pc → Semaphore → Pc → Type 0 where
    acquire : Move m idle m acquiring
    acquire_again : {a : Answer} → Move m (answered a) m acquiring
    lock_acquire : m.held ≡ false → Move m acquiring (record m { held = true }) checking
    lock_acquire_fails : {e : ThreadingError} → Move m acquiring m (answered (failure e))
    enough : 0 < m.counter → Move m checking m taking
    wait : m.counter ≡ 0 → Move m checking (record m { held = false }) blocked
    wait_fails : {e : ThreadingError} → m.counter ≡ 0 → Move m checking m (leaving (failure e))
    wake : m.held ≡ false → Move m blocked (record m { held = true }) checking
    take :
        Move m taking
          (record m { counter = decremented m.counter; acquired = m.acquired + 1 })
          (leaving success)
    release : Move m idle m releasing
    release_again : {a : Answer} → Move m (answered a) m releasing
    lock_release : m.held ≡ false → Move m releasing (record m { held = true }) testing
    lock_release_fails : {e : ThreadingError} → Move m releasing m (answered (failure e))
    full : m.counter ≡ highest → Move m testing m (leaving (failure overflow))
    room : m.counter ≢ highest → Move m testing m adding
    add :
        Move m adding
          (record m { counter = incremented m.counter; released = m.released + 1 })
          notifying
    notify : Move m notifying m (leaving success)
    notify_fails : Move m notifying m undoing
    undo :
        {e : ThreadingError}
        → Move m undoing
            (record m { counter = decremented m.counter; released = m.released - 1 })
            (leaving (failure e))
    unlock : {a : Answer} → Move m (leaving a) (record m { held = false }) (answered a)

  pub record System : Type 0 where
    pub sem : Semaphore
    pub pc : ℕ → Pc

  pub data Step (s : System) : System → Type 0 where
    pick :
        (i : ℕ) {m : Semaphore} {p : Pc}
        → Move s.sem (s.pc i) m p
        → Step s (record { sem = m; pc = move_on s.pc i p })

  abbrev pub init : ℕ → System
  init permits = record {
    sem = record { counter = permits; held = false; acquired = 0; released = 0 };
    pc = λ _. idle;
  }

  pub data Reach (permits : ℕ) : System → Type 0 where
    start : Reach permits (init permits)
    later : {s t : System} → Reach permits s → Step s t → Reach permits t

-- Between the lock and the unlock of the mutex.
abbrev pub holds_mutex : Pc → Bool
holds_mutex idle = false
holds_mutex acquiring = false
holds_mutex blocked = false
holds_mutex releasing = false
holds_mutex (answered _) = false
holds_mutex _ = true
