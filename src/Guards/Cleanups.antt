-- ===== src/Guards/Cleanups.antt =====
-- How often the guards' cleanups run.
use mathlib.Core.List.{Perm}
use mathlib.Core.List.Perm
use libcxxext.Prelude.{◌≡◌, refl, List, [], ◌∷◌, ◌++◌, append-nil, Option, none, some}
use libcxxext.Guards.{OptionalDestructor, move_destructor, assign_destructor, clear, run_destructor}
use libcxxext.Guards.{ResourceGuard, swap_guards, move_guard, assign_guard, release_guard}

-- What the destructors of both objects call.
abbrev pub both {ℓ} : {A B : Type ℓ} → (A → List B) → A × A → List B
both run p = run p.0 ++ run p.1

module _ {F : Type 0} where
  -- After a move assignment between two different optional destructors the one assigned to runs the
  -- cleanup of the other, and the other none, so that its own is lost; a move construction keeps
  -- the cleanup once, and a cleared object runs none.
  pub assign_destructor-run_destructor :
      (this other : OptionalDestructor F)
      → (run_destructor (assign_destructor this other).0 ≡ run_destructor other)
        × (run_destructor (assign_destructor this other).1 ≡ [])
        × (both run_destructor (move_destructor other) ≡ run_destructor other)
        × (run_destructor (clear this) ≡ [])
  unfolding run_destructor assign_destructor move_destructor clear
  assign_destructor-run_destructor this other = (refl, refl, append-nil _, refl)

module _ {R : Type 0} where
  swapped :
      (a b : Option R)
      → Perm
          (both release_guard (swap_guards (record { resource = a }) (record { resource = b })))
          (release_guard (record { resource = a }) ++ release_guard (record { resource = b }))
  unfolding release_guard swap_guards
  swapped none none = Perm.refl []
  swapped none (some r) = Perm.refl (r ∷ [])
  swapped (some r) none = Perm.refl (r ∷ [])
  swapped (some r) (some q) = Perm.swap r q []

  pub assign_guard-release_guard :
      (this other : ResourceGuard R)
      → Perm
          (both release_guard (assign_guard this other))
          (release_guard this ++ release_guard other)
        × (both release_guard (move_guard other) ≡ release_guard other)
  unfolding assign_guard move_guard release_guard swap_guards
  assign_guard-release_guard this other = (swapped this.resource other.resource, append-nil _)
