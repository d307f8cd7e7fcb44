-- ===== src/Threading/Thread/Programs.antt =====
-- Programs over a list of `managed_thread` objects, with the statements that start, join, detach and
-- move.
use libcxxext.Prelude.{
  ℕ, zero, suc, ◌+◌, ◌<◌, Bool, false, ◌==◌, ◌&&◌, ltb, ◌≡◌, ◌≢◌, refl, ◌∙◌, arith, if◌then◌else◌,
  Bool-cases, inl, inr, List, [], ◌∷◌, length, get_or, set, Option, none, some,
}
use libcxxext.Prelude.{replicate}
use libcxxext.Prelude.Outcome.{Outcome, done, ◌>>=◌, Keeps, Keeps-bind}
use libcxxext.Prelude.Slots.{swapped, total-set, total-swapped, weight-le_total}
use libcxxext.Threading.Mutex.{is_ok}
use libcxxext.Threading.Thread.{
  Event, spawned, Platform, Made, made, not_made, ctor, join, detach, destruct,
}
use libcxxext.Threading.Thread.Ownership.{
  IsSettled, starts, ends, held, owned, EndsOwned, join-EndsOwned, detach-EndsOwned,
  destruct-EndsOwned,
}

pub data Call : Type 0 where
  start_call join_call detach_call : ℕ → Call
  move_call : ℕ → ℕ → Call

module _ (P : Platform) (self : ℕ) where
  abbrev pub in_range : ℕ → List (Option ℕ) → Bool
  in_range i ms = ltb i (length ms)

  -- The result of `ctor` is moved into an object by an assignment, which swaps them, and then destroyed.
  abbrev pub keep_made :
      ℕ → List (Option ℕ) → Made × List Event → Outcome (List (Option ℕ) × List Event)
  keep_made i ms (made m, es) = do
    left ← destruct P self (get_or ms i none) es
    done (set ms i m, left)
  keep_made i ms (not_made e, es) = done (ms, es)

  -- A statement of a program over the objects; an index that names none does nothing.
  unfoldable pub call : Call → List (Option ℕ) × List Event → Outcome (List (Option ℕ) × List Event)
  call (start_call i) s = if in_range i s.0 then keep_made i s.0 (ctor P self s.1) else done s
  call (join_call i) s =
      let (r, m, es) = join P self (get_or s.0 i none) s.1 in
      if in_range i s.0 then done (set s.0 i m, es) else done s
  call (detach_call i) s =
      let (m, es) = detach P self (get_or s.0 i none) s.1 in
      if in_range i s.0 then done (set s.0 i m, es) else done s
  call (move_call i j) s =
      if in_range i s.0 && in_range j s.0 then done (swapped none s.0 i j, s.1) else done s

  unfoldable pub run :
      List Call → List (Option ℕ) × List Event → Outcome (List (Option ℕ) × List Event)
  run [] s = done s
  run (c ∷ cs) s = do s' ← call c s; run cs s'

  -- The destructors of all objects.
  unfoldable pub destruct_all : List (Option ℕ) → List Event → Outcome (List Event)
  destruct_all [] es = done es
  destruct_all (m ∷ ms) es = do es' ← destruct P self m es; destruct_all ms es'

  -- Every thread started has ended once or is owned once, and the calling thread is none of them.
  abbrev Inv : List (Option ℕ) × List Event → Type 0
  Inv s = ((k : ℕ) → starts k s.1 ≡ ends k s.1 + owned k s.0) × (starts self s.1 ≡ 0)

  replace-Inv :
      (ms : List (Option ℕ)) (i : ℕ) (m : Option ℕ) (es es' : List Event)
      → i < length ms
      → EndsOwned (get_or ms i none) es m es'
      → Inv (ms, es)
      → Inv (set ms i m, es')
  replace-Inv ms i m es es' h e inv = (
    λ k. omega (arith, e k, inv.0 k, total-set none (held k) ms i m h),
    omega (arith, e self, inv.1),
  )

  not_held : (s : List (Option ℕ) × List Event) (i : ℕ) → Inv s → held self (get_or s.0 i none) ≡ 0
  not_held s i inv = omega (arith, inv.0 self, inv.1, weight-le_total none (held self) s.0 i refl)

  join-Inv : (i : ℕ) (s : List (Option ℕ) × List Event) → Inv s → Keeps Inv (call (join_call i) s)
  unfolding call
  join-Inv i s inv = elim (Bool-cases (in_range i s.0)) [
    | inl inside ↦ rw inside (
        replace-Inv s.0 i (join P self (get_or s.0 i none) s.1).1 s.1
          (join P self (get_or s.0 i none) s.1).2 (ground arith)
          (join-EndsOwned P self (get_or s.0 i none) s.1) inv)
    | inr outside ↦ rw outside inv
  ]

  detach-Inv :
      (i : ℕ) (s : List (Option ℕ) × List Event) → Inv s → Keeps Inv (call (detach_call i) s)
  unfolding call
  detach-Inv i s inv = elim (Bool-cases (in_range i s.0)) [
    | inl inside ↦ rw inside (
        replace-Inv s.0 i (detach P self (get_or s.0 i none) s.1).0 s.1
          (detach P self (get_or s.0 i none) s.1).1 (ground arith)
          (detach-EndsOwned P self (get_or s.0 i none) s.1) inv)
    | inr outside ↦ rw outside inv
  ]

  move-Inv :
      (i j : ℕ) (s : List (Option ℕ) × List Event) → Inv s → Keeps Inv (call (move_call i j) s)
  unfolding call
  move-Inv i j s inv = elim (Bool-cases (in_range i s.0 && in_range j s.0)) [
    | inl inside ↦ rw inside (
      λ k.
          omega (arith, inv.0 k, total-swapped none (held k) s.0 i j (ground arith) (ground arith)),
      inv.1,
    )
    | inr outside ↦ rw outside inv
  ]

  -- The platform starts a thread that is not the calling one.
  module _ (new : (es : List Event) → P.new_thread es ≢ self) where
    started :
        (i : ℕ) (s : List (Option ℕ) × List Event) (t : ℕ)
        → i < length s.0
        → t ≢ self
        → Inv s
        → Keeps Inv (keep_made i s.0 (made (some t), spawned t ∷ s.1))
    started i s t inside ne inv =
        let old = get_or s.0 i none in
        let not_self : (self == t) ≡ false = ground arith in
        Keeps-bind (EndsOwned old (spawned t ∷ s.1) none) Inv
          (destruct P self old (spawned t ∷ s.1)) (λ left. done (set s.0 i (some t), left))
          (destruct-EndsOwned P self old (spawned t ∷ s.1) (not_held s i inv))
          (λ left ends_old. (
            λ k. omega (arith, ends_old k, inv.0 k, total-set none (held k) s.0 i (some t) inside),
            (ends_old self).0 ∙ rw not_self (omega (arith, inv.1)),
          ))

    start-Inv :
        (i : ℕ) (s : List (Option ℕ) × List Event) → Inv s → Keeps Inv (call (start_call i) s)
    unfolding call ctor
    start-Inv i s inv = elim (Bool-cases (in_range i s.0)) [
      | inr outside ↦ rw outside inv
      | inl inside ↦ elim (Bool-cases (P.allocates s.1)) [
        | inr full ↦ rw (inside, full) inv
        | inl room ↦ elim (Bool-cases (is_ok (P.create s.1))) [
          | inr fails ↦ rw (inside, room, fails) inv
          | inl works ↦
              rw (inside, room, works) (started i s (P.new_thread s.1) (ground arith) (new s.1) inv)
        ]
      ]
    ]

    run-Inv : (cs : List Call) (s : List (Option ℕ) × List Event) → Inv s → Keeps Inv (run cs s)
    unfolding run
    run-Inv [] s inv = inv
    run-Inv (start_call i ∷ cs) s inv =
        Keeps-bind Inv Inv (call (start_call i) s) (run cs) (start-Inv i s inv) (run-Inv cs)
    run-Inv (join_call i ∷ cs) s inv =
        Keeps-bind Inv Inv (call (join_call i) s) (run cs) (join-Inv i s inv) (run-Inv cs)
    run-Inv (detach_call i ∷ cs) s inv =
        Keeps-bind Inv Inv (call (detach_call i) s) (run cs) (detach-Inv i s inv) (run-Inv cs)
    run-Inv (move_call i j ∷ cs) s inv =
        Keeps-bind Inv Inv (call (move_call i j) s) (run cs) (move-Inv i j s inv) (run-Inv cs)

  destruct_all-IsSettled :
      (ms : List (Option ℕ)) (es : List Event) → Inv (ms, es) → Keeps IsSettled (destruct_all ms es)
  unfolding destruct_all
  destruct_all-IsSettled [] es inv = λ k. omega (arith, inv.0 k)
  destruct_all-IsSettled (m ∷ ms) es inv =
      Keeps-bind (EndsOwned m es none) IsSettled (destruct P self m es) (destruct_all ms)
        (destruct-EndsOwned P self m es (omega (arith, inv.0 self, inv.1)))
        (λ left ends_m.
          destruct_all-IsSettled ms left
            (λ k. omega (arith, ends_m k, inv.0 k), (ends_m self).0 ∙ inv.1))

  -- A whole program: `n` objects without a thread, statements, and the destructors.
  unfoldable pub whole : ℕ → List Call → Outcome (List Event)
  whole n cs = do s ← run cs (replicate n none, []); destruct_all s.0 s.1

  owned-replicate : (k n : ℕ) → owned k (replicate n none) ≡ 0
  owned-replicate k zero = refl
  owned-replicate k (suc n) = omega (arith, owned-replicate k n)

  -- On a platform that never starts a thread under the number of the calling one, any program over
  -- any number of `managed_thread` objects that starts, joins, detaches and moves threads, and
  -- destroys the objects at its end, joins each thread, or calls `detach` of the platform for it,
  -- as often as it started one under that number, whatever the platform answers, unless a
  -- destructor cannot join its thread, which violates its contract.
  pub whole-IsSettled :
      ((es : List Event) → P.new_thread es ≢ self)
      → (n : ℕ) (cs : List Call) → Keeps IsSettled (whole n cs)
  unfolding whole
  whole-IsSettled new n cs =
      Keeps-bind Inv IsSettled (run cs (replicate n none, [])) (λ s. destruct_all s.0 s.1)
        (run-Inv new cs (replicate n none, []) (λ k. omega (arith, owned-replicate k n), refl))
        (λ s inv. destruct_all-IsSettled s.0 s.1 inv)
