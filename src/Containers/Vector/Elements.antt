-- ===== src/Containers/Vector/Elements.antt =====
-- The elements of a vector in their order: what `push_back` adds and what `find` finds.
use libcxxext.Prelude.{take-set}
use libcxxext.Prelude.{
  ℕ, zero, suc, ◌+◌, ◌≤◌, ◌<◌, Bool, true, false, ◌≡◌, refl, ap, ◌∙◌, sym, arith, List, [], ◌∷◌,
  ◌++◌, Option, none, some,
}
use libcxxext.Prelude.{ltb, leb, ◌==◌, if◌then◌else◌, set, take, Bool-cases, inl, inr}
use mathlib.Core.Option.{some-injective}
use libcxxext.Containers.Vector.{InplaceVector, capacity, push_back, find_from, find}
use libcxxext.Containers.Vector.Lifetimes.{slot, IsValid}

module _ {ℓ} {A : Type ℓ} where
  abbrev pub elements : InplaceVector A → List (Option A)
  elements v = take v.size v.slots

  -- `push_back` returns whether there are fewer elements than `Capacity`, and appends the value to
  -- the elements if so and leaves them as they are if not.
  pub elements-push_back :
      (value : A) (v : InplaceVector A)
      → ((push_back value v).0 ≡ ltb v.size (capacity v))
        × (elements (push_back value v).1
            ≡ (if ltb v.size (capacity v) then elements v ++ (some value ∷ []) else elements v))
  unfolding push_back
  elements-push_back value v = elim (Bool-cases (ltb v.size (capacity v))) [
    | inl room ↦
        let test : leb (capacity v) v.size ≡ false = ground arith in
        let next : v.size + 1 ≡ suc v.size = omega arith in
        rw (room, test)
          (
            refl,
            ap (λ n. take n (set v.slots v.size (some value))) next
                ∙ take-set v.slots v.size (some value) (ground arith),
          )
    | inr full ↦
        let test : leb (capacity v) v.size ≡ true = ground arith in rw (full, test) (refl, refl)
  ]

  -- What `find` promises of the elements from index `from`.
  module _ (equals : A → A → Bool) (value : A) (slots : List (Option A)) where
    abbrev Misses : ℕ → Type ℓ
    Misses i = (x : A) → slot slots i ≡ some x → equals x value ≡ false

    abbrev pub IsFirst : (from to : ℕ) → Option ℕ → Type ℓ
    IsFirst from to none = (i : ℕ) → from ≤ i → i < to → Misses i
    IsFirst from to (some k) =
        (from ≤ k)
        × (k < to)
        × ((x : A) × (slot slots k ≡ some x) × (equals x value ≡ true))
        × ((i : ℕ) → from ≤ i → i < k → Misses i)

    IsFirst-widen :
        (i to : ℕ) (found : Option ℕ) → Misses i → IsFirst (i + 1) to found → IsFirst i to found
    IsFirst-widen i to none miss h = λ j hi ht. elim (Bool-cases (i == j)) [
      | inl e ↦ let at_i : i ≡ j = ground arith in λ y hy. miss y (ap (slot slots) at_i ∙ hy)
      | inr e ↦ h j (ground arith) ht
    ]
    IsFirst-widen i to (some k) miss h = (
      omega arith,
      h.1,
      h.2,
      λ j hi hk. elim (Bool-cases (i == j)) [
        | inl e ↦ let at_i : i ≡ j = ground arith in λ y hy. miss y (ap (slot slots) at_i ∙ hy)
        | inr e ↦ h.3 j (ground arith) hk
      ],
    )

    pub find_step :
        (n i : ℕ) (x : A) (b : Bool)
        → slot slots i ≡ some x
        → equals x value ≡ b
        → find_from equals value (suc n) i slots
          ≡ (if b then some (some i) else find_from equals value n (i + 1) slots)
    unfolding find_from
    find_step n i x b here test =
        let rest = find_from equals value n (i + 1) slots in
        ap
          (λ o. elim o as (λ p. Option (Option ℕ)) [
            | none ↦ none
            | some y ↦ if equals y value then some (some i) else rest
          ])
          here
        ∙ ap (λ (c : Bool). if◌then◌else◌ {A = Option (Option ℕ)} c (some (some i)) rest) test

    find_from-IsFirst :
        (n i to : ℕ)
        → to ≡ i + n
        → ((j : ℕ) → i ≤ j → j < to → (x : A) × (slot slots j ≡ some x))
        → (found : Option ℕ) × (find_from equals value n i slots ≡ some found) × IsFirst i to found
    unfolding find_from
    find_from-IsFirst zero i to e h = (none, refl, λ j hi ht. absurd (omega arith))
    find_from-IsFirst (suc n) i to e h =
        let (x, here) = h i (omega arith) (omega arith) in
        elim (Bool-cases (equals x value)) [
          | inl hit ↦ (
            some i,
            find_step n i x true here hit,
            (omega arith, omega arith, (x, here, hit), λ j hi hk. absurd (omega arith)),
          )
          | inr miss ↦
              let (found, run, first) =
                find_from-IsFirst n (i + 1) to (omega arith) (λ j hi ht. h j (omega arith) ht) in
              (
                found,
                find_step n i x false here miss ∙ run,
                IsFirst-widen i to found
                    (λ y hy. ap (λ z. equals z value) (some-injective y x (sym hy ∙ here)) ∙ miss)
                    first,
              )
        ]

  -- In a vector whose slots below the size are exactly those that hold an element, `find` reads
  -- only elements and returns the first that equals the value, or a null pointer when none does.
  pub find-IsFirst :
      (equals : A → A → Bool) (value : A) (v : InplaceVector A)
      → IsValid v
      → (found : Option ℕ) × (find equals value v ≡ some found)
        × IsFirst equals value v.slots 0 v.size found
  unfolding find
  find-IsFirst equals value v h =
      find_from-IsFirst equals value v.slots v.size 0 v.size (omega arith) h.1.0
