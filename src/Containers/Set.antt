-- ===== src/Containers/Set.antt =====
-- `sys::inplace_set` (sys.Containers/InplaceSet.h), for an element type with `==` and the default value
-- `T{}`.
pub mod Members
use libcxxext.Prelude.{ℕ, zero, suc, ◌+◌, ◌-◌, Bool, true, false, List, [], ◌∷◌}
use libcxxext.Prelude.{◌==◌, if◌then◌else◌, length, get_or, set}

pub record InplaceSet {ℓ} (A : Type ℓ) : Type ℓ where
  pub items : List A
  pub size : ℕ

module _ {ℓ} {A : Type ℓ} (default : A) (equals : A → A → Bool) where
  abbrev pub capacity : InplaceSet A → ℕ
  capacity s = length s.items

  abbrev pub at : List A → ℕ → A
  at items i = get_or items i default

  pub try_insert : A → InplaceSet A → Bool × InplaceSet A
  try_insert value s =
      if s.size == capacity s
      then (false, s)
      else (true, record { items = set s.items s.size value; size = s.size + 1 })

  -- The loop of `try_erase`, with `n` rounds left from index `i`.
  unfoldable pub erase_from : A → ℕ → ℕ → InplaceSet A → Bool × InplaceSet A
  erase_from value zero i s = (false, s)
  erase_from value (suc n) i s =
      let rest = erase_from value n (i + 1) s in
      if equals (at s.items i) value
      then (true, record { items = set s.items i (at s.items (s.size - 1)); size = s.size - 1 })
      else rest

  pub try_erase : A → InplaceSet A → Bool × InplaceSet A
  try_erase value s = erase_from value s.size 0 s

  -- The loop of `contains`, with `n` rounds left from index `i`.
  unfoldable pub contains_from : A → ℕ → ℕ → InplaceSet A → Bool
  contains_from value zero i s = false
  contains_from value (suc n) i s =
      let rest = contains_from value n (i + 1) s in
      if equals (at s.items i) value then true else rest

  pub contains : A → InplaceSet A → Bool
  contains value s = contains_from value s.size 0 s
