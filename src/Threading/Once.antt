-- ===== src/Threading/Once.antt =====
-- `sys::once` (sys.Threading/Once.h): any number of threads over one `once`, an atomic access at a time,
-- in sequentially consistent order.
pub mod Invariant
pub mod Progress
use libcxxext.Prelude.{ℕ, ◌+◌, Bool, true, false, ◌≡◌}
use libcxxext.Threading.Exclusive.{move_on}

-- The two atomic flags. `successes` is no variable of the program: it counts the functors that have
-- returned without an error.
pub record Flags : Type 0 where
  pub initialized : Bool
  pub busy : Bool
  pub successes : ℕ

-- How a call of `call_once` ends: another call was first, the functor succeeded, or it returned an error
-- or threw.
pub data Ending : Type 0 where
  consumed succeeded failed : Ending

-- Where a thread stands in `call_once` or in `wait`.
pub data Pc : Type 0 where
  idle : Pc
  entered : Pc  -- at `is_completed()` in `already_consumed`
  spinning : Pc  -- at `busy.test_and_set`
  locked : Pc  -- at the second test of `initialized`
  running : Pc  -- in `func(args...)`
  marking : Pc  -- at `initialized.test_and_set`
  leaving : Ending → Pc  -- at `busy.clear`
  ended : Ending → Pc
  waiting : Pc  -- at the test in `wait()`
  woken : Pc  -- `wait()` has returned

-- One step of one thread; `ended` and `woken` threads may call again.
pub data Move (m : Flags) : Pc → Flags → Pc → Type 0 where
  call : Move m idle m entered
  call_again : {r : Ending} → Move m (ended r) m entered
  call_woken : Move m woken m entered
  completed : m.initialized ≡ true → Move m entered m (ended consumed)
  incomplete : m.initialized ≡ false → Move m entered m spinning
  spin : m.busy ≡ true → Move m spinning m spinning
  acquire : m.busy ≡ false → Move m spinning (record m { busy = true }) locked
  too_late : m.initialized ≡ true → Move m locked m (leaving consumed)
  first : m.initialized ≡ false → Move m locked m running
  fail : Move m running m (leaving failed)
  succeed : Move m running (record m { successes = m.successes + 1 }) marking
  mark : Move m marking (record m { initialized = true }) (leaving succeeded)
  release : {r : Ending} → Move m (leaving r) (record m { busy = false }) (ended r)
  wait : Move m idle m waiting
  wait_again : {r : Ending} → Move m (ended r) m waiting
  wait_woken : Move m woken m waiting
  wait_more : m.initialized ≡ false → Move m waiting m waiting
  wake : m.initialized ≡ true → Move m waiting m woken

pub record System : Type 0 where
  pub flags : Flags
  pub pc : ℕ → Pc

pub data Step (s : System) : System → Type 0 where
  pick :
      (i : ℕ) {m : Flags} {p : Pc}
      → Move s.flags (s.pc i) m p
      → Step s (record { flags = m; pc = move_on s.pc i p })

abbrev pub init : System
init = record {
  flags = record { initialized = false; busy = false; successes = 0 };
  pc = λ _. idle;
}

pub data Reach : System → Type 0 where
  start : Reach init
  later : {s t : System} → Reach s → Step s t → Reach t

-- Between the winning `busy.test_and_set` and `busy.clear`.
abbrev pub holds_busy : Pc → Bool
holds_busy locked = true
holds_busy running = true
holds_busy marking = true
holds_busy (leaving _) = true
holds_busy _ = false
