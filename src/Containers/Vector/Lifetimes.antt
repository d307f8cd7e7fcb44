-- ===== src/Containers/Vector/Lifetimes.antt =====
-- Which slots of a vector hold an element, and what the operations do to them.
use libcxxext.Prelude.{
  ℕ, zero, suc, ◌+◌, ◌≤◌, ◌<◌, Bool, ◌&&◌, ◌≡◌, refl, ap, ◌∙◌, sym, arith, List, Option, none, some,
}
use libcxxext.Prelude.{
  ltb, leb, ◌==◌, if◌then◌else◌, length, get_or, set, length-set, get_or-set_self, get_or-set_ne,
  Bool-cases, inl, inr,
}
use libcxxext.Containers.Vector.{
  InplaceVector, capacity, destroy, push_back, resized, clear_from, clear,
}

module _ {ℓ} {A : Type ℓ} where
  -- what slot `i` holds
  abbrev pub slot : List (Option A) → ℕ → Option A
  slot slots i = get_or slots i none

  -- Exactly the slots from `from` and below `to` hold an element.
  abbrev pub Alive : List (Option A) → ℕ → ℕ → Type ℓ
  Alive slots from to =
      ((i : ℕ) → from ≤ i → i < to → (x : A) × (slot slots i ≡ some x))
      × ((i : ℕ) → i < from → slot slots i ≡ none)
      × ((i : ℕ) → to ≤ i → slot slots i ≡ none)

  abbrev pub IsValid : InplaceVector A → Type ℓ
  IsValid v = (v.size ≤ capacity v) × Alive v.slots 0 v.size

  pub destroy_if :
      (scalar : Bool) (i : ℕ) (slots : List (Option A)) (o : Option A)
      → slot slots i ≡ o
      → destroy scalar i slots ≡ elim o as (λ p. Option (List (Option A))) [
        | none ↦ if scalar && ltb i (length slots) then some slots else none
        | some x ↦ some (set slots i none)
      ]
  unfolding destroy
  destroy_if scalar i slots o h =
      ap
        (λ (p : Option A). elim p as (λ q. Option (List (Option A))) [
          | none ↦ if scalar && ltb i (length slots) then some slots else none
          | some x ↦ some (set slots i none)
        ])
        h

  destroy-Alive :
      (slots : List (Option A)) (i to : ℕ)
      → i < to
      → i < length slots
      → Alive slots i to
      → Alive (set slots i none) (i + 1) to
  destroy-Alive slots i to h hi alive = (
    λ j hj jt.
        let (x, here) = alive.0 j (omega arith) jt in
        (x, get_or-set_ne slots i j none none (ground arith) ∙ here),
    λ j hj. elim (Bool-cases (i == j)) [
      | inl e ↦
          let same : i ≡ j = ground arith in
          ap (slot (set slots i none)) (sym same) ∙ get_or-set_self slots i none none hi
      | inr e ↦ get_or-set_ne slots i j none none (ground arith) ∙ alive.1 j (ground arith)
    ],
    λ j hj. get_or-set_ne slots i j none none (ground arith) ∙ alive.2 j hj,
  )

  pub clear_from_step :
      (scalar : Bool) (n i : ℕ) (slots : List (Option A)) (x : A)
      → slot slots i ≡ some x
      → clear_from scalar (suc n) i slots ≡ clear_from scalar n (i + 1) (set slots i none)
  unfolding clear_from
  clear_from_step scalar n i slots x here =
      ap
        (λ o. elim o as (λ p. Option (List (Option A))) [
          | none ↦ none
          | some s ↦ clear_from scalar n (i + 1) s
        ])
        (destroy_if scalar i slots (some x) here)

  clear_from-raw :
      (scalar : Bool) (n i to : ℕ) (slots : List (Option A))
      → to ≡ i + n
      → to ≤ length slots
      → Alive slots i to
      → (cleared : List (Option A)) × (clear_from scalar n i slots ≡ some cleared)
        × (length cleared ≡ length slots)
        × ((j : ℕ) → slot cleared j ≡ none)
  unfolding clear_from
  clear_from-raw scalar zero i to slots e h alive = (
    slots,
    refl,
    refl,
    λ j. elim (Bool-cases (ltb j i)) [
      | inl below ↦ alive.1 j (ground arith)
      | inr above ↦ alive.2 j (ground arith)
    ],
  )
  clear_from-raw scalar (suc n) i to slots e h alive =
      let (x, here) = alive.0 i (omega arith) (omega arith) in
      let next = destroy-Alive slots i to (omega arith) (omega arith) alive in
      let bound : to ≤ length (set slots i none) = rw length-set h in
      let (cleared, run, same, raw) =
        clear_from-raw scalar n (i + 1) to (set slots i none) (omega arith) bound next in
      let first = clear_from_step scalar n i slots x here in
      (cleared, first ∙ run, same ∙ length-set slots i none, raw)

  -- In a vector, of a scalar type or not, whose slots below the size are exactly those that hold an
  -- element, `clear` destroys only elements, and leaves an empty vector of the same capacity, valid
  -- in the same sense.
  pub clear-IsValid :
      (scalar : Bool) (v : InplaceVector A)
      → IsValid v
      → (cleared : InplaceVector A) × (clear scalar v ≡ some cleared)
        × (cleared.size ≡ 0)
        × (capacity cleared ≡ capacity v)
        × IsValid cleared
  unfolding clear
  clear-IsValid scalar v h =
      let (cleared, run, same, raw) =
        clear_from-raw scalar v.size 0 v.size v.slots (omega arith) h.0 h.1 in
      (
        record { slots = cleared; size = 0 },
        ap (resized 0) run,
        refl,
        same,
        (omega arith, (λ i hi ht. absurd (omega arith), λ i hi. raw i, λ i hi. raw i)),
      )

  -- `push_back` keeps a vector valid: its size is at most the capacity, and the slots below the
  -- size are exactly those that hold an element.
  pub push_back-IsValid :
      (value : A) (v : InplaceVector A) → IsValid v → IsValid (push_back value v).1
  unfolding push_back
  push_back-IsValid value v h = elim (Bool-cases (leb (capacity v) v.size)) [
    | inl full ↦ rw full h
    | inr room ↦ rw room (
      rw length-set (ground arith),
      (
        λ i hi ht. elim (Bool-cases (v.size == i)) [
          | inl e ↦
              let same : v.size ≡ i = ground arith in
              (
                value,
                ap (slot (set v.slots v.size (some value))) (sym same)
                    ∙ get_or-set_self v.slots v.size (some value) none (ground arith),
              )
          | inr e ↦
              let (x, here) = h.1.0 i hi (ground arith) in
              (x, get_or-set_ne v.slots v.size i (some value) none (ground arith) ∙ here)
        ],
        λ i hi. absurd (omega arith),
        λ i hi.
            get_or-set_ne v.slots v.size i (some value) none (ground arith) ∙ h.1.2 i (omega arith),
      ),
    )
  ]
