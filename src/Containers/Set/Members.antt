-- ===== src/Containers/Set/Members.antt =====
-- A set as the bag of its members: what `try_insert` adds and `try_erase` removes, in any order.
use libcxxext.Prelude.{take-set}
use libcxxext.Prelude.{length-set}
use mathlib.Core.List.{Perm, perm_middle, append-nil}
use mathlib.Core.List.Perm
use libcxxext.Prelude.{
  ℕ, zero, suc, ◌+◌, ◌-◌, ◌<◌, ◌≤◌, Bool, true, false, ◌≡◌, ◌⊎◌, refl, ap, ◌∙◌, sym, arith, List,
  [], ◌∷◌, ◌++◌,
}
use libcxxext.Prelude.{◌==◌, ltb, if◌then◌else◌, length, get_or, set, take, Bool-cases, inl, inr}
use libcxxext.Containers.Set.{
  InplaceSet, capacity, at, try_insert, erase_from, try_erase, contains_from, contains,
}

module _ {ℓ} {A : Type ℓ} where
  unfoldable pub members : InplaceSet A → List A
  members s = take s.size s.items

  -- Putting `l` in the place of element `i` swaps it with that element.
  Perm-set :
      (l d : A) (ys : List A) (i : ℕ) → i < length ys → Perm (l ∷ ys) (get_or ys i d ∷ set ys i l)
  Perm-set l d [] i h = absurd (omega arith)
  Perm-set l d (y ∷ ys) zero h = Perm.swap y l ys
  Perm-set l d (y ∷ ys) (suc i) h = Perm.trans (Perm.swap y l ys) (
      Perm.trans (Perm.cons y (Perm-set l d ys i (omega arith)))
        (Perm.swap (get_or ys i d) y (set ys i l)))

  take-suc :
      (d : A) (xs : List A) (n : ℕ)
      → n < length xs
      → take (suc n) xs ≡ take n xs ++ (get_or xs n d ∷ [])
  take-suc d [] n h = absurd (omega arith)
  take-suc d (x ∷ xs) zero h = refl
  take-suc d (x ∷ xs) (suc n) h = ap (λ r. x ∷ r) (take-suc d xs n (omega arith))

  take-set_beyond : (xs : List A) (n i : ℕ) (v : A) → n ≤ i → take n (set xs i v) ≡ take n xs
  take-set_beyond xs zero i v h = refl
  take-set_beyond [] (suc n) i v h = refl
  take-set_beyond (x ∷ xs) (suc n) zero v h = absurd (omega arith)
  take-set_beyond (x ∷ xs) (suc n) (suc i) v h =
      ap (λ r. x ∷ r) (take-set_beyond xs n i v (omega arith))

  take-set_below :
      (xs : List A) (n i : ℕ) (v : A) → i < n → take n (set xs i v) ≡ set (take n xs) i v
  take-set_below xs zero i v h = absurd (omega arith)
  take-set_below [] (suc n) i v h = refl
  take-set_below (x ∷ xs) (suc n) zero v h = refl
  take-set_below (x ∷ xs) (suc n) (suc i) v h =
      ap (λ r. x ∷ r) (take-set_below xs n i v (omega arith))

  get_or-take : (d : A) (xs : List A) (n i : ℕ) → i < n → get_or (take n xs) i d ≡ get_or xs i d
  get_or-take d xs zero i h = absurd (omega arith)
  get_or-take d [] (suc n) i h = refl
  get_or-take d (x ∷ xs) (suc n) zero h = refl
  get_or-take d (x ∷ xs) (suc n) (suc i) h = get_or-take d xs n i (omega arith)

  length-take_le : (xs : List A) (n : ℕ) → n ≤ length xs → length (take n xs) ≡ n
  length-take_le xs zero h = refl
  length-take_le [] (suc n) h = absurd (omega arith)
  length-take_le (x ∷ xs) (suc n) h = ap suc (length-take_le xs n (omega arith))

  Perm-take :
      (d : A) (xs : List A) (n : ℕ)
      → n < length xs
      → Perm (take (suc n) xs) (get_or xs n d ∷ take n xs)
  Perm-take d xs n h = rw (take-suc d xs n h) (
      Perm.trans (perm_middle (take n xs) [])
        (rw append-nil (Perm.refl (get_or xs n d ∷ take n xs))))

  -- Moving the last of `n + 1` elements to place `i` takes element `i` out.
  Perm-removed :
      (d : A) (xs : List A) (n i : ℕ)
      → n < length xs
      → i ≤ n
      → Perm (take (suc n) xs) (get_or xs i d ∷ take n (set xs i (get_or xs n d)))
  Perm-removed d xs n i h k = elim (Bool-cases (ltb i n)) [
    | inl below ↦
        let lt : i < n = ground arith in
        let bound : i < length (take n xs) = rw (length-take_le xs n (omega arith)) lt in
        let swapped = Perm-set (get_or xs n d) d (take n xs) i bound in
        Perm.trans (Perm-take d xs n h)
          (rw (take-set_below xs n i (get_or xs n d) lt, ← get_or-take d xs n i lt) swapped)
    | inr last ↦
        let same : i ≡ n = ground arith in
        rw (same, take-set_beyond xs n n (get_or xs n d) (omega arith)) (Perm-take d xs n h)
  ]

  Perm-removed_size :
      (d : A) (xs : List A) (m n i : ℕ)
      → m ≡ suc n
      → n < length xs
      → i ≤ n
      → Perm (take m xs) (get_or xs i d ∷ take n (set xs i (get_or xs n d)))
  Perm-removed_size d xs m n i e h k = rw e (Perm-removed d xs n i h k)

module _ {ℓ} {A : Type ℓ} (default : A) (equals : A → A → Bool) where
  -- What `try_erase` does: it removes one member that equals `value`, or there is none and nothing
  -- changes.
  abbrev pub Erases : A → InplaceSet A → Bool × InplaceSet A → Type ℓ
  Erases value s r =
      ((r.0 ≡ true)
        × (capacity default equals r.1 ≡ capacity default equals s)
        × (x : A) × (equals x value ≡ true)
        × Perm (members s) (x ∷ members r.1))
      ⊎ ((r.0 ≡ false)
          × (r.1 ≡ s)
          × ((i : ℕ) → i < s.size → equals (at default equals s.items i) value ≡ false))

  erase_from-Erases :
      (value : A) (n i : ℕ) (s : InplaceSet A)
      → s.size ≡ i + n
      → s.size ≤ capacity default equals s
      → ((j : ℕ) → j < i → equals (at default equals s.items j) value ≡ false)
      → Erases value s (erase_from default equals value n i s)
  unfolding erase_from members
  erase_from-Erases value zero i s e h none_before =
      inr (refl, refl, λ j hj. none_before j (omega arith))
  erase_from-Erases value (suc n) i s e h none_before =
      elim (Bool-cases (equals (at default equals s.items i) value)) [
        | inl hit ↦
            let removed =
              Perm-removed_size default s.items s.size (s.size - 1) i (omega arith) (omega arith)
                (omega arith) in
            rw hit (
              inl (
                refl,
                length-set s.items i (at default equals s.items (s.size - 1)),
                at default equals s.items i,
                hit,
                removed,
              ))
        | inr miss ↦
            let none_here : (j : ℕ)
                → j < i + 1
                → equals (at default equals s.items j) value ≡ false =
              λ j hj. elim (Bool-cases (i == j)) [
                | inl q ↦
                    let same : i ≡ j = ground arith in
                    ap (λ k. equals (at default equals s.items k) value) (sym same) ∙ miss
                | inr q ↦ none_before j (ground arith)
              ] in
            rw miss (erase_from-Erases value n (i + 1) s (omega arith) h none_here)
      ]

  -- In a set of at most `Capacity` elements, `try_erase` removes one element that equals the value
  -- and keeps the others in some order, or returns false and changes nothing when no element equals
  -- it.
  pub try_erase-Erases :
      (value : A) (s : InplaceSet A)
      → s.size ≤ capacity default equals s
      → Erases value s (try_erase default equals value s)
  unfolding try_erase
  try_erase-Erases value s h =
      erase_from-Erases value s.size 0 s (omega arith) h (λ j hj. absurd (omega arith))

  contains-try_erase_from :
      (value : A) (n i : ℕ) (s : InplaceSet A)
      → contains_from default equals value n i s ≡ (erase_from default equals value n i s).0
  unfolding contains_from erase_from
  contains-try_erase_from value zero i s = refl
  contains-try_erase_from value (suc n) i s =
      elim (Bool-cases (equals (at default equals s.items i) value)) [
        | inl hit ↦ rw hit refl
        | inr miss ↦ rw miss (contains-try_erase_from value n (i + 1) s)
      ]

  pub contains-try_erase :
      (value : A) (s : InplaceSet A)
      → contains default equals value s ≡ (try_erase default equals value s).0
  unfolding contains try_erase
  contains-try_erase value s = contains-try_erase_from value s.size 0 s

  -- In a set of at most `Capacity` elements, `try_insert` returns whether there is room, and
  -- appends the value if so, whether or not the set has it, and keeps the elements as they are if
  -- not.
  pub members-try_insert :
      (value : A) (s : InplaceSet A)
      → s.size ≤ capacity default equals s
      → ((try_insert default equals value s).0 ≡ ltb s.size (capacity default equals s))
        × ((try_insert default equals value s).1.size ≤ capacity default equals s)
        × (members (try_insert default equals value s).1 ≡ (
            if ltb s.size (capacity default equals s)
            then members s ++ (value ∷ [])
            else members s))
  unfolding try_insert members
  members-try_insert value s h = elim (Bool-cases (ltb s.size (capacity default equals s))) [
    | inl room ↦
        let test : (s.size == capacity default equals s) ≡ false = ground arith in
        let next : s.size + 1 ≡ suc s.size = omega arith in
        rw (room, test)
          (
            refl,
            ground arith,
            ap (λ n. take n (set s.items s.size value)) next
                ∙ take-set s.items s.size value (ground arith),
          )
    | inr full ↦
        let test : (s.size == capacity default equals s) ≡ true = ground arith in
        rw (full, test) (refl, h, refl)
  ]
