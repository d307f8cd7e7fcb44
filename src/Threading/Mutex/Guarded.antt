-- ===== src/Threading/Mutex/Guarded.antt =====
-- Programs over a mutex and its guards (`ordinary_mutex::guard`, a `resource_guard`).
pub mod Total
use libcxxext.Prelude.{
  ℕ, zero, suc, ◌+◌, ◌<◌, Bool, true, false, ◌&&◌, ltb, ◌≡◌, refl, ap, ◌∙◌, sym, arith,
  if◌then◌else◌, Bool-cases, inl, inr, List, [], ◌∷◌, length, get_or, set, replicate, Option, none,
  some,
}
use libcxxext.Prelude.Outcome.{Outcome, done, violated, ◌>>=◌, Keeps, Keeps-bind}
use libcxxext.Prelude.Slots.{swapped, total, total-set, total-swapped}
use libcxxext.Guards.{
  ResourceGuard, unguarded, guard_resource, assign_guard, swap_guards, release_guard,
}
use libcxxext.Threading.Errors.{PlatformError, success, failure}
use libcxxext.Threading.Mutex.{
  Handle, Mutex, Locked, locked, refused, is_ok, lock, try_lock, try_init, release,
  release_by_guard,
}

-- A call of the handle: one that took the lock, one that gave it back, and any other.
pub data Event : Type 0 where
  taken given other : Event

abbrev pub count_taken : List Event → ℕ
count_taken [] = 0
count_taken (taken ∷ es) = suc (count_taken es)
count_taken (_ ∷ es) = count_taken es

abbrev pub count_given : List Event → ℕ
count_given [] = 0
count_given (given ∷ es) = suc (count_given es)
count_given (_ ∷ es) = count_given es

pub data Call : Type 0 where
  lock_call try_lock_call clear_call : ℕ → Call
  move_call : ℕ → ℕ → Call

-- What a platform answers to each call, by the calls before it.
pub record Answers : Type 0 where
  pub create : List Event → PlatformError
  pub on_lock : List Event → PlatformError
  pub on_try_lock : List Event → PlatformError
  pub on_unlock : List Event → PlatformError

abbrev pub guards : ResourceGuard (Unit {0}) → ℕ
guards g = elim g.resource [ none ↦ 0 | some r ↦ 1 ]

module _ (answers : Answers) where
  abbrev pub recording : Handle (List Event)
  recording = record {
    create = λ es. (answers.create es, other ∷ es);
    lock_handle =
        λ es. (answers.on_lock es, (if is_ok (answers.on_lock es) then taken else other) ∷ es);
    try_lock_handle = λ es.
        (answers.on_try_lock es, (if is_ok (answers.on_try_lock es) then taken else other) ∷ es);
    unlock =
        λ es. (answers.on_unlock es, (if is_ok (answers.on_unlock es) then given else other) ∷ es);
    destroy_handle = λ es. other ∷ es;
  }

  abbrev pub State : Type 0
  State = List (ResourceGuard (Unit {0})) × Mutex (List Event)

  -- The destructor of a guard.
  unfoldable pub destruct_guard :
      ResourceGuard (Unit {0}) → Mutex (List Event) → Outcome (Mutex (List Event))
  unfolding release_guard
  destruct_guard g m = elim (release_guard g) [ [] ↦ done m | _ ∷ _ ↦ release_by_guard recording m ]

  -- `guards[i] = std::move(g)`, and the end of `g`.
  abbrev pub assign_at : ℕ → ResourceGuard (Unit {0}) → State → Outcome State
  assign_at i g s = do
    let p = assign_guard (get_or s.0 i unguarded) g
    m ← destruct_guard p.1 s.1
    done (set s.0 i p.0, m)

  abbrev pub keep_locked :
      ℕ → List (ResourceGuard (Unit {0})) → Locked × Mutex (List Event) → Outcome State
  keep_locked i gs (locked g, m) = assign_at i g (gs, m)
  keep_locked i gs (refused e, m) = done (gs, m)

  -- A statement of a program over the guards; an index that names none does nothing.
  unfoldable pub call : Call → State → Outcome State
  call (lock_call i) s =
      if ltb i (length s.0) then keep_locked i s.0 (lock recording s.1) else done s
  call (try_lock_call i) s =
      if ltb i (length s.0) then keep_locked i s.0 (try_lock recording s.1) else done s
  call (clear_call i) s = if ltb i (length s.0) then assign_at i unguarded s else done s
  call (move_call i j) s =
      if ltb i (length s.0) && ltb j (length s.0)
      then done (swapped unguarded s.0 i j, s.1)
      else done s

  unfoldable pub run : List Call → State → Outcome State
  run [] s = done s
  run (c ∷ cs) s = do s' ← call c s; run cs s'

  unfoldable pub destruct_all :
      List (ResourceGuard (Unit {0})) → Mutex (List Event) → Outcome (Mutex (List Event))
  destruct_all [] m = done m
  destruct_all (g ∷ gs) m = do m' ← destruct_guard g m; destruct_all gs m'

  -- A whole program: a new mutex and `n` guards of nothing, statements, and the destructors of the
  -- guards.
  unfoldable pub whole : ℕ → List Call → Outcome (Mutex (List Event))
  whole n cs = do
    s ← run cs (replicate n unguarded, record { mut = []; completed = false })
    destruct_all s.0 s.1

  -- `m'` has been given the lock back by so many guards since `m`.
  abbrev Gave : ℕ → Mutex (List Event) → Mutex (List Event) → Type 0
  Gave n m m' =
      (count_taken m'.mut ≡ count_taken m.mut) × (count_given m'.mut ≡ count_given m.mut + n)

  abbrev Took : Mutex (List Event) → Locked × Mutex (List Event) → Type 0
  Took m (locked g, m') =
      (guards g ≡ 1)
      × (count_taken m'.mut ≡ count_taken m.mut + 1)
      × (count_given m'.mut ≡ count_given m.mut)
  Took m (refused e, m') =
      (count_taken m'.mut ≡ count_taken m.mut) × (count_given m'.mut ≡ count_given m.mut)

  lock-Took : (m : Mutex (List Event)) → Took m (lock recording m)
  unfolding lock try_init guard_resource
  lock-Took m = ground arith

  try_lock-Took : (m : Mutex (List Event)) → Took m (try_lock recording m)
  unfolding try_lock try_init guard_resource
  try_lock-Took m = ground arith

  destruct_guard-Gave :
      (g : ResourceGuard (Unit {0})) (m : Mutex (List Event))
      → Keeps (Gave (guards g) m) (destruct_guard g m)
  unfolding destruct_guard release_by_guard release
  destruct_guard-Gave g m = ground arith

  -- Every lock taken has been given back or is held by one guard.
  abbrev Inv : State → Type 0
  Inv s = count_taken s.1.mut ≡ count_given s.1.mut + total unguarded guards s.0

  assign_at-Inv :
      (i : ℕ) (g : ResourceGuard (Unit {0})) (s : State)
      → i < length s.0
      → count_taken s.1.mut ≡ count_given s.1.mut + total unguarded guards s.0 + guards g
      → Keeps Inv (assign_at i g s)
  unfolding assign_guard swap_guards
  assign_at-Inv i g s h balance =
      let old = get_or s.0 i unguarded in
      Keeps-bind (Gave (guards old) s.1) Inv (destruct_guard old s.1) (λ m. done (set s.0 i g, m))
        (destruct_guard-Gave old s.1)
        (λ m gave. omega (arith, gave, total-set unguarded guards s.0 i g h))

  keep_locked-Inv :
      (i : ℕ) (s : State) (r : Locked × Mutex (List Event))
      → i < length s.0
      → Took s.1 r
      → Inv s
      → Keeps Inv (keep_locked i s.0 r)
  keep_locked-Inv i s (locked g, m) h took inv = assign_at-Inv i g (s.0, m) h (omega arith)
  keep_locked-Inv i s (refused e, m) h took inv = omega arith

  call-Inv : (c : Call) (s : State) → Inv s → Keeps Inv (call c s)
  unfolding call
  call-Inv (lock_call i) s inv = elim (Bool-cases (ltb i (length s.0))) [
    | inl inside ↦
        rw inside (keep_locked-Inv i s (lock recording s.1) (ground arith) (lock-Took s.1) inv)
    | inr outside ↦ rw outside inv
  ]
  call-Inv (try_lock_call i) s inv = elim (Bool-cases (ltb i (length s.0))) [
    | inl inside ↦
        rw inside
          (keep_locked-Inv i s (try_lock recording s.1) (ground arith) (try_lock-Took s.1) inv)
    | inr outside ↦ rw outside inv
  ]
  call-Inv (clear_call i) s inv = elim (Bool-cases (ltb i (length s.0))) [
    | inl inside ↦ rw inside (assign_at-Inv i unguarded s (ground arith) (omega arith))
    | inr outside ↦ rw outside inv
  ]
  call-Inv (move_call i j) s inv = elim (Bool-cases (ltb i (length s.0) && ltb j (length s.0))) [
    | inl inside ↦
        rw inside
          (omega (arith, total-swapped unguarded guards s.0 i j (ground arith) (ground arith)))
    | inr outside ↦ rw outside inv
  ]

  run-Inv : (cs : List Call) (s : State) → Inv s → Keeps Inv (run cs s)
  unfolding run
  run-Inv [] s inv = inv
  run-Inv (c ∷ cs) s inv = Keeps-bind Inv Inv (call c s) (run cs) (call-Inv c s inv) (run-Inv cs)

  abbrev pub IsBalanced : Mutex (List Event) → Type 0
  IsBalanced m = count_taken m.mut ≡ count_given m.mut

  destruct_all-IsBalanced :
      (gs : List (ResourceGuard (Unit {0}))) (m : Mutex (List Event))
      → Inv (gs, m)
      → Keeps IsBalanced (destruct_all gs m)
  unfolding destruct_all
  destruct_all-IsBalanced [] m inv = omega arith
  destruct_all-IsBalanced (g ∷ gs) m inv =
      Keeps-bind (Gave (guards g) m) IsBalanced (destruct_guard g m) (destruct_all gs)
        (destruct_guard-Gave g m) (λ m' gave. destruct_all-IsBalanced gs m' (omega arith))

  pub total-replicate : (n : ℕ) → total unguarded guards (replicate n unguarded) ≡ 0
  total-replicate zero = refl
  total-replicate (suc n) = omega (arith, total-replicate n)

  pub whole-IsBalanced : (n : ℕ) (cs : List Call) → Keeps IsBalanced (whole n cs)
  unfolding whole
  whole-IsBalanced n cs =
      Keeps-bind Inv IsBalanced
        (run cs (replicate n unguarded, record { mut = []; completed = false }))
        (λ s. destruct_all s.0 s.1)
        (run-Inv cs (replicate n unguarded, record { mut = []; completed = false })
          (omega (arith, total-replicate n)))
        (λ s inv. destruct_all-IsBalanced s.0 s.1 inv)
