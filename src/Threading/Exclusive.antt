-- ===== src/Threading/Exclusive.antt =====
-- Threads of which at most one is in a region that a flag guards.
use libcxxext.Prelude.{ℕ, Bool, true, false, ◌≡◌, refl, ◌∙◌, sym, arith, ◌==◌, if◌then◌else◌}

-- The states of all threads, with thread `i` moved on to `p`.
abbrev pub move_on {ℓ} : {P : Type ℓ} → (ℕ → P) → ℕ → P → ℕ → P
move_on pc i p j = if j == i then p else pc j

module _ {ℓ} {P : Type ℓ} (inside : P → Bool) where
  -- Nobody is inside while the flag is clear, and exactly one while it is set.
  pub data Exclusive (pc : ℕ → P) : Bool → Type ℓ where
    vacant : ((j : ℕ) → inside (pc j) ≡ false) → Exclusive pc false
    occupied :
        (i : ℕ)
        → inside (pc i) ≡ true
        → ((j : ℕ) → inside (pc j) ≡ true → j ≡ i)
        → Exclusive pc true

  pub Exclusive-unique :
      {pc : ℕ → P} {flag : Bool}
      → Exclusive pc flag
      → (i j : ℕ) → inside (pc i) ≡ true
      → inside (pc j) ≡ true
      → i ≡ j
  Exclusive-unique (vacant none_inside) i j hi hj = ground (arith, none_inside i)
  Exclusive-unique (occupied k here only) i j hi hj = only i hi ∙ sym (only j hj)

  pub Exclusive-flag :
      {pc : ℕ → P} {flag : Bool} → Exclusive pc flag → (i : ℕ) → inside (pc i) ≡ true → flag ≡ true
  Exclusive-flag (vacant none_inside) i hi = ground (arith, none_inside i)
  Exclusive-flag (occupied k here only) i hi = refl

  -- A step that stays on its side of the border.
  pub Exclusive-stay :
      {pc : ℕ → P} {flag : Bool} (i : ℕ) (p : P)
      → Exclusive pc flag
      → inside p ≡ inside (pc i)
      → Exclusive (move_on pc i p) flag
  Exclusive-stay i p (vacant none_inside) e =
      vacant (λ j. ground (arith, none_inside i, none_inside j))
  Exclusive-stay i p (occupied k here only) e =
      occupied k (ground arith) (λ j h. ground (arith, only i, only j))

  -- The step that sets the clear flag, and the one that clears it.
  pub Exclusive-enter :
      {pc : ℕ → P} {flag : Bool} (i : ℕ) (p : P)
      → Exclusive pc flag
      → flag ≡ false
      → inside p ≡ true
      → Exclusive (move_on pc i p) true
  Exclusive-enter i p (vacant none_inside) f e =
      occupied i (ground arith) (λ j h. ground (arith, none_inside j))
  Exclusive-enter i p (occupied k here only) f e = ground arith

  pub Exclusive-leave :
      {pc : ℕ → P} {flag : Bool} (i : ℕ) (p : P)
      → Exclusive pc flag
      → inside (pc i) ≡ true
      → inside p ≡ false
      → Exclusive (move_on pc i p) false
  Exclusive-leave i p (vacant none_inside) hi e = ground (arith, none_inside i)
  Exclusive-leave i p (occupied k here only) hi e = vacant (λ j. ground (arith, only i, only j))
