-- ===== src/Threading/Mutex/Guarded/Total.antt =====
-- On a platform whose `unlock` succeeds, no program over the guards of a mutex violates a contract.
use libcxxext.Prelude.{◌≤◌, true, ◌≡◌, List}
use libcxxext.Prelude.Slots.{total}
use libcxxext.Guards.{unguarded}
use libcxxext.Threading.Mutex.{Mutex, Locked, locked, refused, is_ok}
use libcxxext.Threading.Mutex.Guarded.{Event, Answers, guards, State}

module _ (answers : Answers)
    (unlocks : (es : List Event) → is_ok (answers.on_unlock es) ≡ true) where
  abbrev Stays : Mutex (List Event) → Locked × Mutex (List Event) → Type 0
  Stays m (locked g, m') = m'.completed ≡ true
  Stays m (refused e, m') = m.completed ≡ true → m'.completed ≡ true

  -- A mutex that a guard holds has been initialized.
  abbrev IsReady : State answers → Type 0
  IsReady s = 1 ≤ total unguarded guards s.0 → s.1.completed ≡ true
