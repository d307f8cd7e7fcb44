-- ===== src/Containers/Vector.antt =====
-- `sys::inplace_vector` (sys.Containers/InplaceVector.h): `Capacity` slots of storage in a union, of
-- which a slot holds an element from its construction to its destruction. An operation that
-- destroys or reads an element where there is none is undefined, and has the result `none`. Of a
-- scalar type, as `scalar` says, `~T()` is a pseudo-destructor, which only ends a lifetime that there is.
pub mod Lifetimes
pub mod Elements
pub mod Layout
pub mod Programs
pub mod Scalars
pub mod Traces
use libcxxext.Prelude.{
  ℕ, zero, suc, ◌+◌, ◌-◌, Bool, true, false, ◌&&◌, List, [], ◌∷◌, Option, none, some,
}
use libcxxext.Prelude.{ltb, leb, ◌==◌, if◌then◌else◌, length, get_or, set, replicate}

pub record InplaceVector {ℓ} (A : Type ℓ) : Type ℓ where
  pub slots : List (Option A)
  pub size : ℕ

module _ {ℓ} {A : Type ℓ} where
  abbrev pub capacity : InplaceVector A → ℕ
  capacity v = length v.slots

  abbrev pub new_vector : ℕ → InplaceVector A
  new_vector cap = record { slots = replicate cap none; size = 0 }

  abbrev pub empty : InplaceVector A → Bool
  empty v = v.size == 0

  -- A read through `operator[]`, which tests no bounds.
  abbrev pub at : ℕ → InplaceVector A → Option A
  at index v = get_or v.slots index none

  -- `data[i].~T()`
  unfoldable pub destroy : Bool → ℕ → List (Option A) → Option (List (Option A))
  destroy scalar i slots = elim (get_or slots i none) [
    | none ↦ if scalar && ltb i (length slots) then some slots else none
    | some x ↦ some (set slots i none)
  ]

  pub push_back : A → InplaceVector A → Bool × InplaceVector A
  push_back value v =
      if leb (capacity v) v.size
      then (false, v)
      else (true, record { slots = set v.slots v.size (some value); size = v.size + 1 })

  abbrev pub resized : ℕ → Option (List (Option A)) → Option (InplaceVector A)
  resized n none = none
  resized n (some slots) = some (record { slots = slots; size = n })

  -- `data[_size--].~T()` destroys at the size from before the decrement.
  pub pop_back : Bool → InplaceVector A → Option (InplaceVector A)
  pop_back scalar v =
      if ltb 0 v.size then resized (v.size - 1) (destroy scalar v.size v.slots) else some v

  -- The loop of `clear()`, with `n` rounds left from index `i`.
  unfoldable pub clear_from : Bool → ℕ → ℕ → List (Option A) → Option (List (Option A))
  clear_from scalar zero i slots = some slots
  clear_from scalar (suc n) i slots = elim (destroy scalar i slots) [
    | none ↦ none
    | some destroyed ↦ clear_from scalar n (i + 1) destroyed
  ]

  pub clear : Bool → InplaceVector A → Option (InplaceVector A)
  clear scalar v = resized 0 (clear_from scalar v.size 0 v.slots)

  -- The loop of `find()`, with `n` rounds left from index `i`: an index for the pointer to an element,
  -- and the inner `none` for `nullptr`.
  unfoldable pub find_from : (A → A → Bool) → A → ℕ → ℕ → List (Option A) → Option (Option ℕ)
  find_from equals value zero i slots = some none
  find_from equals value (suc n) i slots =
      let rest = find_from equals value n (i + 1) slots in
      elim (get_or slots i none) [
        | none ↦ none
        | some x ↦ if equals x value then some (some i) else rest
      ]

  pub find : (A → A → Bool) → A → InplaceVector A → Option (Option ℕ)
  find equals value v = find_from equals value v.size 0 v.slots
