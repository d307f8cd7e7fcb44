-- ===== src/Prelude/Slots.antt =====
-- Objects in numbered places, and the sum of what they own.
use Prim.Native.Nat.{ℕ, zero, suc, ◌+◌, ◌≤◌, ◌<◌}
use mathlib.Core.Path.{◌≡◌, refl, ap}
use mathlib.Core.List.{List, [], ◌∷◌}
use native.Mathlib.Omega.{arith}
use libcxxext.Prelude.Lists.{length, get_or, set, length-set}

module _ {ℓ} {A : Type ℓ} (d : A) where
  -- The objects at `i` and `j` exchanged.
  abbrev pub swapped : List A → ℕ → ℕ → List A
  swapped ms i j = set (set ms i (get_or ms j d)) j (get_or ms i d)

  get_or-set : (ms : List A) (i j : ℕ) → get_or (set ms i (get_or ms j d)) j d ≡ get_or ms j d
  get_or-set [] i j = refl
  get_or-set (x ∷ ms) zero zero = refl
  get_or-set (x ∷ ms) zero (suc j) = refl
  get_or-set (x ∷ ms) (suc i) zero = refl
  get_or-set (x ∷ ms) (suc i) (suc j) = get_or-set ms i j

  module _ (weight : A → ℕ) where
    abbrev pub total : List A → ℕ
    total [] = 0
    total (m ∷ ms) = weight m + total ms

    pub total-set :
        (ms : List A) (i : ℕ) (m : A)
        → i < length ms
        → total (set ms i m) + weight (get_or ms i d) ≡ total ms + weight m
    total-set [] i m h = absurd (omega arith)
    total-set (x ∷ ms) zero m h = omega arith
    total-set (x ∷ ms) (suc i) m h = let rest = total-set ms i m (omega arith) in omega arith

    pub total-swapped :
        (ms : List A) (i j : ℕ) → i < length ms → j < length ms → total (swapped ms i j) ≡ total ms
    total-swapped ms i j hi hj =
        let same : length (set ms i (get_or ms j d)) ≡ length ms =
          length-set ms i (get_or ms j d) in
        omega (
          arith,
          total-set ms i (get_or ms j d) hi,
          total-set (set ms i (get_or ms j d)) j (get_or ms i d) (omega arith),
          ap weight (get_or-set ms i j),
        )

    pub weight-le_total : (ms : List A) (i : ℕ) → weight d ≡ 0 → weight (get_or ms i d) ≤ total ms
    weight-le_total [] i h = omega arith
    weight-le_total (m ∷ ms) zero h = omega arith
    weight-le_total (m ∷ ms) (suc i) h = let rest = weight-le_total ms i h in omega arith
