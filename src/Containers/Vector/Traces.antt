-- ===== src/Containers/Vector/Traces.antt =====
-- Programs over one vector against a bounded list: the elements of a class type, which stand alone in
-- their slots, and by Vector/Scalars those of a scalar type.
use libcxxext.Prelude.{
  ℕ, suc, ◌+◌, ◌-◌, ◌≤◌, Bool, true, false, ◌≡◌, refl, ap, ap₂, ◌∙◌, arith, List, [], ◌∷◌, ◌++◌,
  Option, none, some,
}
use libcxxext.Prelude.{
  ltb, leb, ◌==◌, if◌then◌else◌, length, get_elem?, get_or, set, replicate, length-append,
  Bool-cases, inl, inr,
}
use mathlib.Core.Option
use libcxxext.Containers.Vector.{
  InplaceVector, capacity, new_vector, push_back, resized, pop_back, clear, find,
}
use libcxxext.Containers.Vector.Lifetimes.{destroy_if}
use libcxxext.Containers.Vector.Layout.{
  index_from, layout, holding, length-layout, get_or-layout, get_or-layout_end, set-layout, raw_lem,
  clear_from-layout, find_from-index,
}
use libcxxext.Containers.Vector.Programs.{
  Op, push_op, find_op, at_op, pop_op, clear_op, size_op, empty_op, Seen, pushed, found, element,
  finished, go_on, step, run, spec_step, spec_run,
}
use libcxxext.Containers.Vector.Scalars.{run-spec_run_scalar}

module _ {ℓ} {A : Type ℓ} (equals : A → A → Bool) (cap : ℕ) where
  abbrev held : List A → InplaceVector A
  held xs = holding xs (cap - length xs)

  abbrev place : Option (Seen A × List A) → Option (Seen A × InplaceVector A)
  place none = none
  place (some (s, xs)) = some (s, held xs)

  abbrev Fits : Option (Seen A × List A) → Type 0
  Fits none = Unit
  Fits (some (s, xs)) = length xs ≤ cap

  push_back-held :
      (x : A) (xs : List A)
      → length xs ≤ cap
      → push_back x (held xs)
        ≡ (if ltb (length xs) cap then (true, held (xs ++ x ∷ [])) else (false, held xs))
  unfolding push_back
  push_back-held x xs h = elim (Bool-cases (ltb (length xs) cap)) [
    | inl room ↦
        let test : leb (capacity (held xs)) (length xs) ≡ false =
          ground (arith, length-layout xs (cap - length xs)) in
        let one_less : cap - length xs ≡ suc (cap - length (xs ++ x ∷ [])) =
          ground (arith, length-append xs (x ∷ [])) in
        let longer : length xs + 1 ≡ length (xs ++ x ∷ []) =
          omega (arith, length-append xs (x ∷ [])) in
        let stored : set (layout xs (cap - length xs)) (length xs) (some x)
            ≡ layout (xs ++ x ∷ []) (cap - length (xs ++ x ∷ [])) =
          ap (λ n. set (layout xs n) (length xs) (some x)) one_less
          ∙ set-layout xs (cap - length (xs ++ x ∷ [])) x in
        rw (room, test) (ap₂ (λ l n. (true, record { slots = l; size = n })) stored longer)
    | inr full ↦
        let test : leb (capacity (held xs)) (length xs) ≡ true =
          ground (arith, length-layout xs (cap - length xs)) in
        rw (full, test) refl
  ]

  clear-held : (xs : List A) → length xs ≤ cap → clear false (held xs) ≡ some (held [])
  unfolding clear
  clear-held xs h =
      let places : length xs + (cap - length xs) ≡ cap - 0 = omega arith in
      ap (resized 0) (
        clear_from-layout false xs (cap - length xs) 0 [] refl
        ∙ ap some (raw_lem xs (cap - length xs) ∙ ap (λ n. replicate n none) places))

  find-held : (x : A) (xs : List A) → find equals x (held xs) ≡ some (index_from equals x 0 xs)
  unfolding find
  find-held x xs = find_from-index equals x xs 0 (layout xs (cap - length xs)) (λ j lt.
      ap (λ k. get_or (layout xs (cap - length xs)) k none) (omega arith)
      ∙ get_or-layout xs (cap - length xs) j)

  pop_back-held :
      (xs : List A) → pop_back false (held xs) ≡ (if length xs == 0 then some (held xs) else none)
  unfolding pop_back
  pop_back-held [] = refl
  pop_back-held (x ∷ xs) =
      let one : ltb 0 (suc (length xs)) ≡ true = ground arith in
      let not_empty : (suc (length xs) == 0) ≡ false = ground arith in
      rw (one, not_empty)
        (ap (resized (suc (length xs) - 1)) (
          destroy_if false (suc (length xs)) (layout (x ∷ xs) (cap - suc (length xs))) none
            (get_or-layout_end xs (cap - suc (length xs)))))

  place_read :
      (o : Option A) (xs : List A)
      → Option.map (λ x. (element x, held xs)) o ≡ place (Option.map (λ x. (element x, xs)) o)
  place_read none xs = refl
  place_read (some x) xs = refl

  place_read-Fits :
      (o : Option A) (xs : List A) → length xs ≤ cap → Fits (Option.map (λ x. (element x, xs)) o)
  place_read-Fits none xs h = tt
  place_read-Fits (some x) xs h = h

  step-held :
      (op : Op A) (xs : List A)
      → length xs ≤ cap
      → step false equals op (held xs) ≡ place (spec_step false equals cap op xs)
  step-held (push_op x) xs h =
      ap (λ r. some (pushed r.0, r.1)) (push_back-held x xs h)
      ∙ elim (Bool-cases (ltb (length xs) cap)) [
        | inl room ↦ rw room refl
        | inr full ↦ rw full refl
      ]
  step-held (find_op x) xs h = ap (Option.map (λ i. (found i, held xs))) (find-held x xs)
  step-held (at_op i) xs h =
      ap (Option.map (λ x. (element x, held xs))) (get_or-layout xs (cap - length xs) i)
      ∙ place_read (get_elem? xs i) xs
  step-held pop_op xs h =
      ap (Option.map (λ v. (finished, v))) (pop_back-held xs)
      ∙ elim (Bool-cases (length xs == 0)) [ inl e ↦ rw e refl | inr ne ↦ rw ne refl ]
  step-held clear_op xs h = ap (Option.map (λ v. (finished, v))) (clear-held xs h)
  step-held size_op xs h = refl
  step-held empty_op xs h = refl

  spec_step-Fits :
      (op : Op A) (xs : List A) → length xs ≤ cap → Fits (spec_step false equals cap op xs)
  spec_step-Fits (push_op x) xs h = elim (Bool-cases (ltb (length xs) cap)) [
    | inl room ↦ rw room (ground (arith, length-append xs (x ∷ [])))
    | inr full ↦ rw full h
  ]
  spec_step-Fits (at_op i) xs h = place_read-Fits (get_elem? xs i) xs h
  spec_step-Fits pop_op xs h = elim (Bool-cases (length xs == 0)) [
    | inl e ↦ rw e h
    | inr ne ↦ rw ne tt
  ]
  spec_step-Fits clear_op xs h = omega arith
  spec_step-Fits _ xs h = h

  run_after :
      (ops : List (Op A)) (o : Option (Seen A × List A))
      → ((xs : List A)
          → length xs ≤ cap
          → run false equals ops (held xs) ≡ spec_run false equals cap ops xs)
      → Fits o
      → go_on (run false equals ops) (place o) ≡ go_on (spec_run false equals cap ops) o
  run_after ops none all h = refl
  run_after ops (some (s, xs)) all h = ap (λ l. s ∷ l) (all xs h)

  run-held :
      (ops : List (Op A)) (xs : List A)
      → length xs ≤ cap
      → run false equals ops (held xs) ≡ spec_run false equals cap ops xs
  unfolding run spec_run
  run-held [] xs h = refl
  run-held (op ∷ ops) xs h =
      ap (go_on (run false equals ops)) (step-held op xs h)
      ∙ run_after ops (spec_step false equals cap op xs) (run-held ops) (spec_step-Fits op xs h)

  run-spec_run_class :
      (ops : List (Op A)) → run false equals ops (new_vector cap) ≡ spec_run false equals cap ops []
  run-spec_run_class ops =
      let all_raw : cap ≡ cap - 0 = omega arith in
      ap (λ n. run false equals ops (new_vector n)) all_raw ∙ run-held ops [] (omega arith)

  -- From its constructor on, in any sequence of operations, a vector returns what a list of at most
  -- `Capacity` elements returns: from `push_back` whether there was room, from `find` the index of
  -- the first equal element or none, an element by its index, the size and the emptiness, and
  -- `clear` empties it. Of a scalar type, `pop_back` takes the last element off a vector that is
  -- not full. It is undefined on a full vector, and, of a class type, on every vector that is not
  -- empty, as `operator[]` is behind the elements, and there the sequence ends. Programs over a
  -- scalar type read no element behind the last one.
  pub run-spec_run_vector :
      (scalar : Bool) (ops : List (Op A))
      → run scalar equals ops (new_vector cap) ≡ spec_run scalar equals cap ops []
  run-spec_run_vector false ops = run-spec_run_class ops
  run-spec_run_vector true ops = run-spec_run_scalar equals cap ops
