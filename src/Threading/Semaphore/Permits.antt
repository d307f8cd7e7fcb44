-- ===== src/Threading/Semaphore/Permits.antt =====
-- The counter of a semaphore never wraps, and accounts for every permit.
use libcxxext.Prelude.{ℕ, ◌+◌, ◌-◌, ◌<◌, ◌≤◌, ◌≡◌, true, refl, ◌∙◌, arith}
use native.Mathlib.Nat.{mod-eq_of_lt, mod-eq-sub-mod}
use libcxxext.Threading.Exclusive.{
  move_on, Exclusive, Exclusive-unique, Exclusive-stay, Exclusive-enter, Exclusive-leave, vacant,
}
use libcxxext.Threading.Semaphore.{Semaphore, Pc, taking, adding, notifying, undoing}
use libcxxext.Threading.Semaphore.{
  decremented, incremented, Move, lock_acquire, enough, wait, wake, take, lock_release, room, add,
  undo, unlock,
}
use libcxxext.Threading.Semaphore.{System, Step, pick, Reach, start, later, holds_mutex}

module _ (highest permits : ℕ) where
  decremented_lem : (c : ℕ) → 0 < c → c ≤ highest → decremented highest c ≡ c - 1
  decremented_lem c h k =
      mod-eq-sub-mod {n = c + highest} {m = highest + 1} (omega arith)
      ∙ mod-eq_of_lt {n = c + highest - (highest + 1)} {m = highest + 1} (omega arith)
      ∙ omega arith

  incremented_lem : (c : ℕ) → c < highest → incremented highest c ≡ c + 1
  incremented_lem c h = mod-eq_of_lt (omega arith)

  -- What the thread with the mutex knows of the counter.
  abbrev IsFresh : Semaphore → Pc → Type 0
  IsFresh m taking = 0 < m.counter
  IsFresh m adding = m.counter < highest
  IsFresh m notifying = (0 < m.counter) × (0 < m.released)
  IsFresh m undoing = (0 < m.counter) × (0 < m.released)
  IsFresh m _ = Unit

  pub record Inv (m : Semaphore) (pc : ℕ → Pc) : Type 0 where
    pub alone : Exclusive holds_mutex pc m.held
    pub fresh : (i : ℕ) → IsFresh m (pc i)
    pub bounded : m.counter ≤ highest
    pub conserved : m.counter + m.acquired ≡ permits + m.released

  module _ {m : Semaphore} {pc : ℕ → Pc} (inv : Inv m pc) (i : ℕ) where
    Move-alone :
        {p p' : Pc} {m' : Semaphore}
        → Move highest m p m' p'
        → pc i ≡ p
        → Exclusive holds_mutex (move_on pc i p') m'.held
    Move-alone (lock_acquire g) e = Exclusive-enter holds_mutex i _ inv.alone g refl
    Move-alone (lock_release g) e = Exclusive-enter holds_mutex i _ inv.alone g refl
    Move-alone (wake g) e = Exclusive-enter holds_mutex i _ inv.alone g refl
    Move-alone (wait g) e = Exclusive-leave holds_mutex i _ inv.alone (ground arith) refl
    Move-alone unlock e = Exclusive-leave holds_mutex i _ inv.alone (ground arith) refl
    Move-alone _ e = Exclusive-stay holds_mutex i _ inv.alone (ground arith)

    unique : (j : ℕ) → holds_mutex (pc i) ≡ true → holds_mutex (pc j) ≡ true → i ≡ j
    unique j = Exclusive-unique holds_mutex inv.alone i j

    Move-counts :
        {p p' : Pc} {m' : Semaphore}
        → Move highest m p m' p'
        → pc i ≡ p
        → (m'.counter ≤ highest) × (m'.counter + m'.acquired ≡ permits + m'.released)
    Move-counts take e =
        ground (arith, inv.fresh i, inv.bounded, inv.conserved, decremented_lem m.counter)
    Move-counts undo e =
        ground (arith, inv.fresh i, inv.bounded, inv.conserved, decremented_lem m.counter)
    Move-counts add e =
        ground (arith, inv.fresh i, inv.bounded, inv.conserved, incremented_lem m.counter)
    Move-counts _ e = (inv.bounded, inv.conserved)

    Move-fresh :
        {p p' : Pc} {m' : Semaphore}
        → Move highest m p m' p'
        → pc i ≡ p
        → (j : ℕ) → IsFresh m' (move_on pc i p' j)
    Move-fresh (enough g) e j = ground (arith, inv.fresh j)
    Move-fresh (room g) e j = ground (arith, inv.fresh j, inv.bounded)
    Move-fresh add e j =
        ground (arith, inv.fresh i, inv.fresh j, unique j, inv.bounded, incremented_lem m.counter)
    Move-fresh _ e j = ground (arith, inv.fresh i, inv.fresh j, unique j)

    Move-Inv :
        {p p' : Pc} {m' : Semaphore} → Move highest m p m' p' → pc i ≡ p → Inv m' (move_on pc i p')
    Move-Inv mv e = record {
      alone = Move-alone mv e;
      fresh = Move-fresh mv e;
      bounded = (Move-counts mv e).0;
      conserved = (Move-counts mv e).1;
    }

  Step-Inv : {s t : System highest} → Step highest s t → Inv s.sem s.pc → Inv t.sem t.pc
  Step-Inv (pick i mv) inv = Move-Inv inv i mv refl

  pub Reach-Inv :
      {s : System highest} → permits ≤ highest → Reach highest permits s → Inv s.sem s.pc
  Reach-Inv h start = record {
    alone = vacant (λ j. refl);
    fresh = λ i. tt;
    bounded = h;
    conserved = refl;
  }
  Reach-Inv h (later r st) = Step-Inv st (Reach-Inv h r)

  -- From an initial count that the type holds, in every interleaving of `acquire` and `release`,
  -- with failures of the mutex and of the condition variable, the counter stays in the range of its
  -- type, it and the permits taken add up to the initial count and the permits put back, and no
  -- more were taken than that.
  pub permits_conserved :
      {s : System highest}
      → permits ≤ highest
      → Reach highest permits s
      → (s.sem.counter ≤ highest)
        × (s.sem.counter + s.sem.acquired ≡ permits + s.sem.released)
        × (s.sem.acquired ≤ permits + s.sem.released)
  permits_conserved h r =
      let inv = Reach-Inv h r in let kept = inv.conserved in (inv.bounded, kept, omega arith)
