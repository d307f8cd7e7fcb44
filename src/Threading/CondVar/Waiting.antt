-- ===== src/Threading/CondVar/Waiting.antt =====
-- How `wait_until` ends.
use mathlib.Core.Option.{some-injective}
use mathlib.Core.Path.{subst}
use libcxxext.Prelude.{
  ℕ, zero, suc, ◌<◌, ◌↔◌, Bool, true, false, ◌≡◌, refl, ap, ◌∙◌, sym, arith, if◌then◌else◌,
  Bool-cases, inl, inr, Option, some,
}
use libcxxext.Threading.Errors.{ThreadingError, Answer, success, failure}
use libcxxext.Threading.CondVar.{CondVarHandle, CondVar, wait, wait_until}

module _ {H W : Type 0} (P : CondVarHandle H W) (pred : W → Bool) where
  -- After as many waits that succeeded, before each of which `pred` was false.
  pub data Waited : ℕ → CondVar H → W → CondVar H → W → Type 0 where
    at_once : {v : CondVar H} {w : W} → Waited 0 v w v w
    after_wait :
        {n : ℕ} {v v1 v2 : CondVar H} {w w1 w2 : W}
        → pred w ≡ false
        → wait P v w ≡ (success, v1, w1)
        → Waited n v1 w1 v2 w2
        → Waited (suc n) v w v2 w2

  -- The ways in which it returns, after so many waits that succeeded: with success once `pred` holds, or
  -- with the error of the first wait that fails.
  pub data Ended (n : ℕ) (v : CondVar H) (w : W) : Answer × CondVar H × W → Type 0 where
    holds :
        {v' : CondVar H} {w' : W}
        → Waited n v w v' w'
        → pred w' ≡ true
        → Ended n v w (success, v', w')
    fails :
        {v1 v' : CondVar H} {w1 w' : W} {e : ThreadingError}
        → Waited n v w v1 w1
        → pred w1 ≡ false
        → wait P v1 w1 ≡ (failure e, v', w')
        → Ended n v w (failure e, v', w')

  Ended-again :
      {n : ℕ} {v v1 : CondVar H} {w w1 : W} {o : Answer × CondVar H × W}
      → pred w ≡ false
      → wait P v w ≡ (success, v1, w1)
      → Ended n v1 w1 o
      → Ended (suc n) v w o
  Ended-again f e (holds a t) = holds (after_wait f e a) t
  Ended-again f e (fails a g x) = fails (after_wait f e a) g x

  -- What one test of the predicate and one wait make of `wait_until`.
  abbrev continues :
      ℕ → CondVar H → W → Bool → Answer × CondVar H × W → Option (Answer × CondVar H × W)
  continues m v w b r = if b then some (success, v, w) else elim r.0 [
    | success ↦ wait_until P m pred r.1 r.2
    | failure e ↦ some (failure e, r.1, r.2)
  ]

  one_test :
      (m : ℕ) (v : CondVar H) (w : W)
      → wait_until P (suc m) pred v w ≡ continues m v w (pred w) (wait P v w)
  unfolding wait_until
  one_test m v w = refl

  at_holds :
      (m : ℕ) (v : CondVar H) (w : W)
      → pred w ≡ true
      → wait_until P (suc m) pred v w ≡ some (success, v, w)
  at_holds m v w t = one_test m v w ∙ ap (λ b. continues m v w b (wait P v w)) t

  waits :
      (m : ℕ) (v : CondVar H) (w : W) (r : Answer × CondVar H × W)
      → pred w ≡ false
      → wait P v w ≡ r
      → wait_until P (suc m) pred v w ≡ continues m v w false r
  waits m v w r f e =
      one_test m v w ∙ ap (λ b. continues m v w b (wait P v w)) f ∙ ap (continues m v w false) e

  skip_waits :
      {n : ℕ} {v v1 : CondVar H} {w w1 : W}
      → Waited n v w v1 w1
      → (fuel : ℕ) → n < fuel
      → (k : ℕ) × (wait_until P fuel pred v w ≡ wait_until P (suc k) pred v1 w1)
  skip_waits at_once zero h = absurd (omega arith)
  skip_waits at_once (suc fuel) h = (fuel, refl)
  skip_waits (after_wait f e a) zero h = absurd (omega arith)
  skip_waits (after_wait {v} {v1} {w} {w1} f e a) (suc fuel) h =
      let (k, rest) = skip_waits a fuel (omega arith) in
      (k, waits fuel v w (success, v1, w1) f e ∙ rest)

  enough_fuel :
      {n : ℕ} {v : CondVar H} {w : W} {o : Answer × CondVar H × W}
      → Ended n v w o
      → (fuel : ℕ) → n < fuel
      → wait_until P fuel pred v w ≡ some o
  enough_fuel (holds {v'} {w'} a t) fuel h =
      let (k, rest) = skip_waits a fuel h in rest ∙ at_holds k v' w' t
  enough_fuel (fails {v1} {v'} {w1} {w'} {e = x} a f e) fuel h =
      let (k, rest) = skip_waits a fuel h in rest ∙ waits k v1 w1 (failure x, v', w') f e

  -- Within so many tests of the predicate.
  abbrev pub EndsWithin : ℕ → CondVar H → W → Answer × CondVar H × W → Type 0
  EndsWithin fuel v w o = (n : ℕ) × (n < fuel) × Ended n v w o

  ends_within :
      (fuel : ℕ) (v : CondVar H) (w : W) (o : Answer × CondVar H × W)
      → wait_until P fuel pred v w ≡ some o
      → EndsWithin fuel v w o
  unfolding wait_until
  ends_within zero v w o h = ground arith
  ends_within (suc fuel) v w o h = elim (Bool-cases (pred w)) [
    | inl t ↦
        let result : (success, v, w) ≡ o = some-injective _ _ (sym (at_holds fuel v w t) ∙ h) in
        (0, omega arith, subst (Ended 0 v w) result (holds at_once t))
    | inr f ↦ by_answer f (ends_within fuel) (wait P v w) refl
  ]
    where
      by_answer :
          pred w ≡ false
          → ((v : CondVar H) (w : W) (o : Answer × CondVar H × W)
              → wait_until P fuel pred v w ≡ some o
              → EndsWithin fuel v w o)
          → (r : Answer × CondVar H × W) → wait P v w ≡ r
          → EndsWithin (suc fuel) v w o
      by_answer f rest (success, v1, w1) e =
          let (n, lt, end) = rest v1 w1 o (sym (waits fuel v w (success, v1, w1) f e) ∙ h) in
          (suc n, omega arith, Ended-again f e end)
      by_answer f rest (failure x, v1, w1) e =
          let result : (failure x, v1, w1) ≡ o =
            some-injective _ _ (sym (waits fuel v w (failure x, v1, w1) f e) ∙ h) in
          (0, omega arith, subst (Ended 0 v w) result (fails at_once f e))

  -- `wait_until` returns within a number of tests of its predicate just when, before that many
  -- waits, the predicate holds, and it returns success in that state, or a wait fails, and it
  -- returns that error; every test before was false and every wait before succeeded.
  pub wait_until-EndsWithin :
      (fuel : ℕ) (v : CondVar H) (w : W) (o : Answer × CondVar H × W)
      → (wait_until P fuel pred v w ≡ some o) ↔ EndsWithin fuel v w o
  wait_until-EndsWithin fuel v w o = (ends_within fuel v w o, λ e. enough_fuel e.2 fuel e.1)
