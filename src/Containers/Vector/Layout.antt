-- ===== src/Containers/Vector/Layout.antt =====
-- The slots of a vector that has its elements in front, and what the loops of its operations make of them.
use libcxxext.Prelude.{
  ℕ, zero, suc, ◌+◌, ◌<◌, Bool, true, false, ◌≡◌, refl, ap, ◌∙◌, sym, arith, List, [], ◌∷◌, ◌++◌,
  Option, none, some, append_assoc,
}
use libcxxext.Prelude.{
  if◌then◌else◌, length, get_elem?, get_or, set, replicate, length-append, length-replicate,
  Bool-cases, inl, inr,
}
use libcxxext.Containers.Vector.{InplaceVector, destroy, clear_from, find_from}
use libcxxext.Containers.Vector.Lifetimes.{clear_from_step}
use libcxxext.Containers.Vector.Elements.{find_step}

module _ {ℓ} {A : Type ℓ} where
  -- The index of the first element that equals `x`, counted from `i`.
  unfoldable pub index_from : (A → A → Bool) → A → ℕ → List A → Option ℕ
  index_from equals x i [] = none
  index_from equals x i (y ∷ ys) =
      let rest = index_from equals x (i + 1) ys in if equals y x then some i else rest

  -- The elements in the first slots, and `n` slots that hold none.
  abbrev pub layout : List A → ℕ → List (Option A)
  layout [] n = replicate n none
  layout (x ∷ xs) n = some x ∷ layout xs n

  abbrev pub holding : List A → ℕ → InplaceVector A
  holding xs n = record { slots = layout xs n; size = length xs }

  pub length-layout : (xs : List A) (n : ℕ) → length (layout xs n) ≡ length xs + n
  length-layout [] n = omega (arith, length-replicate {A = Option A} n none)
  length-layout (x ∷ xs) n = omega (arith, length-layout xs n)

  get_or-replicate : (n i : ℕ) → get_or {A = Option A} (replicate n none) i none ≡ none
  get_or-replicate zero i = refl
  get_or-replicate (suc n) zero = refl
  get_or-replicate (suc n) (suc i) = get_or-replicate n i

  pub get_or-layout : (xs : List A) (n i : ℕ) → get_or (layout xs n) i none ≡ get_elem? xs i
  get_or-layout [] n i = get_or-replicate n i
  get_or-layout (x ∷ xs) n zero = refl
  get_or-layout (x ∷ xs) n (suc i) = get_or-layout xs n i

  pub get_or-layout_end : (xs : List A) (n : ℕ) → get_or (layout xs n) (length xs) none ≡ none
  get_or-layout_end [] n = get_or-replicate n 0
  get_or-layout_end (x ∷ xs) n = get_or-layout_end xs n

  pub set-layout :
      (xs : List A) (n : ℕ) (x : A)
      → set (layout xs (suc n)) (length xs) (some x) ≡ layout (xs ++ x ∷ []) n
  set-layout [] n x = refl
  set-layout (y ∷ ys) n x = ap (λ l. some y ∷ l) (set-layout ys n x)

  -- The slot behind a list.
  get_or-behind :
      (xs ys : List (Option A)) (o : Option A) → get_or (xs ++ o ∷ ys) (length xs) none ≡ o
  get_or-behind [] ys o = refl
  get_or-behind (x ∷ xs) ys o = get_or-behind xs ys o

  set-behind :
      (xs ys : List (Option A)) (o p : Option A) → set (xs ++ o ∷ ys) (length xs) p ≡ xs ++ p ∷ ys
  set-behind [] ys o p = refl
  set-behind (x ∷ xs) ys o p = ap (λ l. x ∷ l) (set-behind xs ys o p)

  abbrev pub raw : List A → ℕ → List (Option A)
  raw [] n = replicate n none
  raw (x ∷ xs) n = none ∷ raw xs n

  pub raw_lem : (xs : List A) (n : ℕ) → raw xs n ≡ replicate (length xs + n) none
  raw_lem [] n = ap (λ m. replicate m none) (omega arith)
  raw_lem (x ∷ xs) n =
      let next : suc (length xs) + n ≡ suc (length xs + n) = omega arith in
      rw next (ap (λ l. none ∷ l) (raw_lem xs n))

  pub clear_from-layout :
      (scalar : Bool) (xs : List A) (n i : ℕ) (before : List (Option A))
      → length before ≡ i
      → clear_from scalar (length xs) i (before ++ layout xs n) ≡ some (before ++ raw xs n)
  unfolding clear_from destroy
  clear_from-layout scalar [] n i before e = refl
  clear_from-layout scalar (x ∷ xs) n i before e =
      let longer : length (before ++ none ∷ []) ≡ i + 1 =
        omega (arith, length-append before (none ∷ [])) in
      let rest = clear_from-layout scalar xs n (i + 1) (before ++ none ∷ []) longer in
      let here : get_or (before ++ layout (x ∷ xs) n) i none ≡ some x =
        rw (← e) (get_or-behind before (layout xs n) (some x)) in
      let emptied : set (before ++ layout (x ∷ xs) n) i none
          ≡ (before ++ none ∷ []) ++ layout xs n =
        rw (← e) (
          set-behind before (layout xs n) (some x) none
          ∙ sym (append_assoc before (none ∷ []) (layout xs n))) in
      clear_from_step scalar (length xs) i (before ++ layout (x ∷ xs) n) x here
      ∙ ap (clear_from scalar (length xs) (i + 1)) emptied
      ∙ rest
      ∙ ap some (append_assoc before (none ∷ []) (raw xs n))

  pub find_from-index :
      (equals : A → A → Bool) (x : A) (xs : List A) (i : ℕ) (slots : List (Option A))
      → ((j : ℕ) → j < length xs → get_or slots (i + j) none ≡ get_elem? xs j)
      → find_from equals x (length xs) i slots ≡ some (index_from equals x i xs)
  unfolding find_from index_from
  find_from-index equals x [] i slots h = refl
  find_from-index equals x (y ∷ ys) i slots h =
      let here : get_or slots i none ≡ some y =
        ap (λ j. get_or slots j none) (omega arith) ∙ h 0 (omega arith) in
      let later : (j : ℕ) → j < length ys → get_or slots (i + 1 + j) none ≡ get_elem? ys j =
        λ j lt. ap (λ k. get_or slots k none) (omega arith) ∙ h (suc j) (omega arith) in
      let rest = find_from-index equals x ys (i + 1) slots later in
      elim (Bool-cases (equals y x)) [
        | inl hit ↦ find_step equals x slots (length ys) i y true here hit ∙ rw hit refl
        | inr miss ↦ find_step equals x slots (length ys) i y false here miss ∙ rw miss rest
      ]
