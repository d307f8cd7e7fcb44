-- ===== src/Threading/Once/Invariant.antt =====
-- At most one functor succeeds, and no two run at the same time.
use libcxxext.Prelude.{◌⊎◌}
use libcxxext.Threading.Exclusive.{occupied}
use libcxxext.Threading.Once.{failed}
use libcxxext.Prelude.{ℕ, ◌≤◌, Bool, true, false, ◌≡◌, refl, arith, ◌⊎◌, Bool-cases, inl, inr}
use libcxxext.Threading.Exclusive.{
  move_on, Exclusive, Exclusive-unique, Exclusive-stay, Exclusive-enter, Exclusive-leave, vacant,
}
use libcxxext.Threading.Once.{Flags, Pc, locked, running, marking, leaving, ended, woken}
use libcxxext.Threading.Once.{
  Move, call, completed, acquire, too_late, first, succeed, mark, release, wake,
}
use libcxxext.Threading.Once.{System, Step, pick, init, Reach, start, later, holds_busy}

-- What a thread's place says of the flags: a running functor is the first, and a success that is not yet
-- marked is the only one; who has returned without an error has seen the mark.
abbrev IsFresh : Flags → Pc → Type 0
IsFresh m running = (m.initialized ≡ false) × (m.successes ≡ 0)
IsFresh m marking = (m.initialized ≡ false) × (m.successes ≡ 1)
IsFresh m (leaving failed) = Unit
IsFresh m (leaving _) = m.initialized ≡ true
IsFresh m (ended failed) = Unit
IsFresh m (ended _) = m.initialized ≡ true
IsFresh m woken = m.initialized ≡ true
IsFresh m _ = Unit

abbrev is_marking : Pc → Bool
is_marking marking = true
is_marking _ = false

pub record Inv (m : Flags) (pc : ℕ → Pc) : Type 0 where
  pub alone : Exclusive holds_busy pc m.busy
  pub fresh : (i : ℕ) → IsFresh m (pc i)
  pub marked : m.initialized ≡ true → m.successes ≡ 1
  pub unmarked : m.initialized ≡ false → ((i : ℕ) → is_marking (pc i) ≡ false) → m.successes ≡ 0

Inv-init : Inv init.flags init.pc
Inv-init = record {
  alone = vacant (λ j. refl);
  fresh = λ i. tt;
  marked = λ e. ground arith;
  unmarked = λ e h. refl;
}

module _ {m : Flags} {pc : ℕ → Pc} (inv : Inv m pc) (i : ℕ) where
  Move-alone :
      {p p' : Pc} {m' : Flags}
      → Move m p m' p'
      → pc i ≡ p
      → Exclusive holds_busy (move_on pc i p') m'.busy
  Move-alone (acquire g) e = Exclusive-enter holds_busy i _ inv.alone g refl
  Move-alone release e = Exclusive-leave holds_busy i _ inv.alone (ground arith) refl
  Move-alone _ e = Exclusive-stay holds_busy i _ inv.alone (ground arith)

  unique : (j : ℕ) → holds_busy (pc i) ≡ true → holds_busy (pc j) ≡ true → i ≡ j
  unique j = Exclusive-unique holds_busy inv.alone i j

  none_marking : pc i ≡ locked → (j : ℕ) → is_marking (pc j) ≡ false
  none_marking e j = ground (arith, unique j)

  Move-fresh :
      {p p' : Pc} {m' : Flags}
      → Move m p m' p'
      → pc i ≡ p
      → (j : ℕ) → IsFresh m' (move_on pc i p' j)
  Move-fresh (first g) e j =
      let none_yet = inv.unmarked g (none_marking e) in ground (arith, inv.fresh j)
  Move-fresh (completed g) e j = ground (arith, inv.fresh j)
  Move-fresh (too_late g) e j = ground (arith, inv.fresh j)
  Move-fresh (wake g) e j = ground (arith, inv.fresh j)
  Move-fresh call e j = ground (arith, inv.fresh j)
  Move-fresh _ e j = ground (arith, inv.fresh i, inv.fresh j, unique j)

  Move-marked :
      {p p' : Pc} {m' : Flags}
      → Move m p m' p'
      → pc i ≡ p
      → m'.initialized ≡ true
      → m'.successes ≡ 1
  Move-marked call e h = inv.marked h
  Move-marked _ e h = ground (arith, inv.marked, inv.fresh i)

  -- A step that is no `mark` comes from a place where nothing was marked.
  was_unmarked :
      {p : Pc} (p' : Pc)
      → pc i ≡ p
      → is_marking p ≡ false
      → ((j : ℕ) → is_marking (move_on pc i p' j) ≡ false)
      → (j : ℕ) → is_marking (pc j) ≡ false
  was_unmarked p' e q h j = ground (arith, h j)

  Move-unmarked :
      {p p' : Pc} {m' : Flags}
      → Move m p m' p'
      → pc i ≡ p
      → m'.initialized ≡ false
      → ((j : ℕ) → is_marking (move_on pc i p' j) ≡ false)
      → m'.successes ≡ 0
  Move-unmarked succeed e f h = ground (arith, h i)
  Move-unmarked mark e f h = ground arith
  Move-unmarked _ e f h = inv.unmarked f (was_unmarked _ e refl h)

  Move-Inv : {p p' : Pc} {m' : Flags} → Move m p m' p' → pc i ≡ p → Inv m' (move_on pc i p')
  Move-Inv mv e = record {
    alone = Move-alone mv e;
    fresh = Move-fresh mv e;
    marked = Move-marked mv e;
    unmarked = Move-unmarked mv e;
  }

pub Step-Inv : {s t : System} → Step s t → Inv s.flags s.pc → Inv t.flags t.pc
Step-Inv (pick i mv) inv = Move-Inv inv i mv refl

pub Reach-Inv : {s : System} → Reach s → Inv s.flags s.pc
Reach-Inv start = Inv-init
Reach-Inv (later r st) = Step-Inv st (Reach-Inv r)

pub successes_le : {s : System} → Reach s → s.flags.successes ≤ 1
successes_le {s} r = by_mark (Bool-cases s.flags.initialized)
  where
    inv : Inv s.flags s.pc
    inv = Reach-Inv r

    by_holder :
        s.flags.initialized ≡ false
        → {b : Bool} → Exclusive holds_busy s.pc b
        → s.flags.successes ≤ 1
    by_holder f (vacant none_inside) =
        let none_yet = inv.unmarked f (λ j. ground (arith, none_inside j)) in omega arith
    by_holder f (occupied k here only) = elim (Bool-cases (is_marking (s.pc k))) [
      | inl m ↦ ground (arith, inv.fresh k)
      | inr m ↦ let none_yet = inv.unmarked f (λ j. ground (arith, only j)) in omega arith
    ]

    by_mark : (s.flags.initialized ≡ true) ⊎ (s.flags.initialized ≡ false) → s.flags.successes ≤ 1
    by_mark (inl t) = let one = inv.marked t in omega arith
    by_mark (inr f) = by_holder f inv.alone

-- Who has returned, and not from a functor that failed.
abbrev pub has_returned : Pc → Bool
has_returned (ended failed) = false
has_returned (ended _) = true
has_returned woken = true
has_returned _ = false

-- In every interleaving of any number of threads, once a call of `call_once` has returned without
-- an error of its functor, or a `wait` has returned, the flag is set and exactly one functor has
-- succeeded.
pub completed_once :
    {s : System}
    → Reach s
    → (i : ℕ) → has_returned (s.pc i) ≡ true
    → (s.flags.initialized ≡ true) × (s.flags.successes ≡ 1)
completed_once {s} r i h =
    let inv = Reach-Inv r in
    let set : s.flags.initialized ≡ true = ground (arith, inv.fresh i) in (set, inv.marked set)

-- In every interleaving, at most one thread at a time runs its functor, and none runs after a
-- functor has succeeded.
pub running_alone :
    {s : System}
    → Reach s
    → (i j : ℕ) → s.pc i ≡ running
    → s.pc j ≡ running
    → (i ≡ j) × (s.flags.initialized ≡ false) × (s.flags.successes ≡ 0)
running_alone {s} r i j hi hj =
    let inv = Reach-Inv r in
    (
      Exclusive-unique holds_busy inv.alone i j (ground arith) (ground arith),
      ground (arith, inv.fresh i),
      ground (arith, inv.fresh i),
    )
