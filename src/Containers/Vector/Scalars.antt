-- ===== src/Containers/Vector/Scalars.antt =====
-- Programs over a vector of a scalar type, whose popped elements may stay in their slots.
use libcxxext.Prelude.{
  ℕ, zero, suc, ◌+◌, ◌-◌, ◌≤◌, ◌<◌, Bool, true, false, ◌≡◌, ◌≢◌, refl, ap, ◌∙◌, sym, arith, List,
  [], ◌∷◌, ◌++◌, Option, none, some,
}
use libcxxext.Prelude.{
  ltb, leb, ◌==◌, if◌then◌else◌, length, get_elem?, get_or, set, take, length-append, length-set,
  length-take, length-replicate, get_or-set_self, get_or-set_ne, Bool-cases, inl, inr,
}
use mathlib.Core.Option
use libcxxext.Containers.Vector.{
  InplaceVector, new_vector, destroy, resized, push_back, pop_back, clear_from, clear, find,
  find_from,
}
use libcxxext.Containers.Vector.Lifetimes.{destroy_if}
use libcxxext.Containers.Vector.Layout.{find_from-index}
use libcxxext.Containers.Vector.Programs.{
  Op, push_op, find_op, at_op, pop_op, clear_op, size_op, empty_op, Seen, found, element, counted,
  found_empty, finished, go_on, step, run, spec_step, spec_run,
}

module _ {ℓ} {A : Type ℓ} where
  get_elem?-append_old :
      (xs : List A) (x : A) (j : ℕ) → j < length xs → get_elem? (xs ++ x ∷ []) j ≡ get_elem? xs j
  get_elem?-append_old [] x j h = absurd (omega arith)
  get_elem?-append_old (y ∷ ys) x zero h = refl
  get_elem?-append_old (y ∷ ys) x (suc j) h = get_elem?-append_old ys x j (omega arith)

  get_elem?-append_new : (xs : List A) (x : A) → get_elem? (xs ++ x ∷ []) (length xs) ≡ some x
  get_elem?-append_new [] x = refl
  get_elem?-append_new (y ∷ ys) x = get_elem?-append_new ys x

  get_elem?-take : (n : ℕ) (xs : List A) (j : ℕ) → j < n → get_elem? (take n xs) j ≡ get_elem? xs j
  get_elem?-take zero xs j h = absurd (omega arith)
  get_elem?-take (suc n) [] j h = refl
  get_elem?-take (suc n) (x ∷ xs) zero h = refl
  get_elem?-take (suc n) (x ∷ xs) (suc j) h = get_elem?-take n xs j (omega arith)

  get_or-outside : (slots : List (Option A)) (i : ℕ) → length slots ≤ i → get_or slots i none ≡ none
  get_or-outside [] i h = refl
  get_or-outside (o ∷ slots) zero h = absurd (omega arith)
  get_or-outside (o ∷ slots) (suc i) h = get_or-outside slots i (omega arith)

  -- The pseudo-destructor succeeds at every index of the array, and changes no other slot.
  destroy_scalar :
      (i : ℕ) (slots : List (Option A))
      → i < length slots
      → (rest : List (Option A)) × (destroy true i slots ≡ some rest)
        × (length rest ≡ length slots)
        × ((j : ℕ) → j < i → get_or rest j none ≡ get_or slots j none)
  unfolding destroy
  destroy_scalar i slots h = by_slot (get_or slots i none)
    where
      by_slot :
          (o : Option A)
          → (rest : List (Option A)) × (elim o as (λ p. Option (List (Option A))) [
            | none ↦ if ltb i (length slots) then some slots else none
            | some x ↦ some (set slots i none)
          ]
              ≡ some rest)
            × (length rest ≡ length slots)
            × ((j : ℕ) → j < i → get_or rest j none ≡ get_or slots j none)
      by_slot none = (slots, ground arith, refl, λ j lt. refl)
      by_slot (some x) = (
        set slots i none,
        refl,
        length-set slots i none,
        λ j lt. get_or-set_ne slots i j none none (omega arith),
      )

  destroy_outside :
      (i : ℕ) (slots : List (Option A)) → length slots ≤ i → destroy true i slots ≡ none
  destroy_outside i slots h = destroy_if true i slots none (get_or-outside slots i h) ∙ ground arith

  clear_from_scalar :
      (n i : ℕ) (slots : List (Option A))
      → i + n ≤ length slots
      → (rest : List (Option A)) × (clear_from true n i slots ≡ some rest)
        × (length rest ≡ length slots)
  unfolding clear_from
  clear_from_scalar zero i slots h = (slots, refl, refl)
  clear_from_scalar (suc n) i slots h =
      let (next, e, same, below) = destroy_scalar i slots (omega arith) in
      let (rest, e', same') = clear_from_scalar n (i + 1) next (omega arith) in
      (
        rest,
        ap
              (λ o. elim o as (λ p. Option (List (Option A))) [
                | none ↦ none
                | some destroyed ↦ clear_from true n (i + 1) destroyed
              ])
              e
            ∙ e',
        same' ∙ same,
      )

module _ {ℓ} {A : Type ℓ} (equals : A → A → Bool) (cap : ℕ) where
  -- The elements stand in the slots below the size, whatever is in the others.
  abbrev Holds : InplaceVector A → List A → Type ℓ
  Holds v xs =
      (v.size ≡ length xs)
      × (length v.slots ≡ cap)
      × (length xs ≤ cap)
      × ((j : ℕ) → j < length xs → get_or v.slots j none ≡ get_elem? xs j)

  abbrev Related : Option (Seen A × InplaceVector A) → Option (Seen A × List A) → Type ℓ
  Related o none = o ≡ none
  Related o (some (t, xs)) = (v : InplaceVector A) × (o ≡ some (t, v)) × Holds v xs

  push_back-Related :
      (x : A) (v : InplaceVector A) (xs : List A)
      → Holds v xs
      → Related (step true equals (push_op x) v) (spec_step true equals cap (push_op x) xs)
  unfolding push_back
  push_back-Related x v xs h = elim (Bool-cases (ltb (length xs) cap)) [
    | inl room ↦
        let test : leb (length v.slots) v.size ≡ false = ground (arith, h.0, h.1) in
        let longer = length-append xs (x ∷ []) in
        rw (room, test)
          (
            record { slots = set v.slots v.size (some x); size = v.size + 1 },
            refl,
            (
              omega (arith, longer, h.0),
              length-set v.slots v.size (some x) ∙ h.1,
              ground (arith, longer),
              λ j lt. elim (Bool-cases (j == length xs)) [
                | inl last ↦
                    let here : j ≡ length xs = ground arith in
                    let place : v.size ≡ j = omega (arith, h.0) in
                    let room' : v.size < length v.slots = ground (arith, h.0, h.1) in
                    ap (λ i. get_or (set v.slots v.size (some x)) i none) (sym place)
                    ∙ get_or-set_self v.slots v.size (some x) none room'
                    ∙ sym (ap (get_elem? (xs ++ x ∷ [])) here ∙ get_elem?-append_new xs x)
                | inr old ↦
                    let below : j < length xs = ground (arith, longer) in
                    let apart : v.size ≢ j = λ e. absurd (omega (arith, h.0)) in
                    get_or-set_ne v.slots v.size j (some x) none apart
                    ∙ h.3 j below
                    ∙ sym (get_elem?-append_old xs x j below)
              ],
            ),
          )
    | inr full ↦
        let test : leb (length v.slots) v.size ≡ true = ground (arith, h.0, h.1) in
        rw (full, test) (v, refl, h)
  ]

  find-Related :
      (x : A) (v : InplaceVector A) (xs : List A)
      → Holds v xs
      → Related (step true equals (find_op x) v) (spec_step true equals cap (find_op x) xs)
  unfolding find
  find-Related x v xs h = (
    v,
    ap (Option.map (λ i. (found i, v))) (
        ap (λ n. find_from equals x n 0 v.slots) h.0
        ∙ find_from-index equals x xs 0 v.slots
            (λ j lt. ap (λ k. get_or v.slots k none) (omega arith) ∙ h.3 j lt)),
    h,
  )

  at-Related :
      (i : ℕ) (v : InplaceVector A) (xs : List A)
      → Holds v xs
      → Related (step true equals (at_op i) v) (spec_step true equals cap (at_op i) xs)
  at-Related i v xs h = elim (Bool-cases (leb (length xs) i)) [
    | inl behind ↦
        let test : leb v.size i ≡ true = ap (λ n. leb n i) h.0 ∙ behind in
        rw (behind, test) (v, refl, h)
    | inr inside ↦
        let test : leb v.size i ≡ false = ap (λ n. leb n i) h.0 ∙ inside in
        rw (inside, test, h.3 i (ground arith)) (by_element (get_elem? xs i))
  ]
    where
      by_element :
          (o : Option A)
          → Related (Option.map (λ x. (element x, v)) o) (Option.map (λ x. (element x, xs)) o)
      by_element none = refl
      by_element (some x) = (v, refl, h)

  clear-Related :
      (v : InplaceVector A) (xs : List A)
      → Holds v xs
      → Related (step true equals clear_op v) (spec_step true equals cap clear_op xs)
  unfolding clear
  clear-Related v xs h =
      let (rest, e, same) = clear_from_scalar v.size 0 v.slots (omega (arith, h.0, h.1)) in
      (
        record { slots = rest; size = 0 },
        ap (λ o. Option.map (λ w. (finished, w)) (resized 0 o)) e,
        (refl, same ∙ h.1, omega arith, λ j lt. absurd (omega arith)),
      )

  pop_back-Related :
      (v : InplaceVector A) (xs : List A)
      → Holds v xs
      → Related (step true equals pop_op v) (spec_step true equals cap pop_op xs)
  unfolding pop_back
  pop_back-Related v xs h = elim (Bool-cases (length xs == 0)) [
    | inl nothing ↦
        let test : ltb 0 v.size ≡ false = ground (arith, h.0) in rw (nothing, test) (v, refl, h)
    | inr some_left ↦
        let test : ltb 0 v.size ≡ true = ground (arith, h.0) in
        elim (Bool-cases (ltb (length xs) cap)) [
          | inl room ↦
              let (rest, e, same, below) =
                destroy_scalar v.size v.slots (ground (arith, h.0, h.1)) in
              let shorter = length-take (length xs - 1) xs in
              rw (some_left, test, room)
                (
                  record { slots = rest; size = v.size - 1 },
                  ap (λ o. Option.map (λ w. (finished, w)) (resized (v.size - 1) o)) e,
                  (
                    omega (arith, shorter, h.0),
                    same ∙ h.1,
                    omega (arith, shorter),
                    λ j lt.
                        below j (omega (arith, shorter, h.0))
                        ∙ h.3 j (omega (arith, shorter))
                        ∙ sym (get_elem?-take (length xs - 1) xs j (omega (arith, shorter))),
                  ),
                )
          | inr full ↦
              rw (some_left, test, full)
                (ap (λ o. Option.map (λ w. (finished, w)) (resized (v.size - 1) o))
                  (destroy_outside v.size v.slots (ground (arith, h.0, h.1))))
        ]
  ]

  step-Related :
      (op : Op A) (v : InplaceVector A) (xs : List A)
      → Holds v xs
      → Related (step true equals op v) (spec_step true equals cap op xs)
  step-Related (push_op x) v xs h = push_back-Related x v xs h
  step-Related (find_op x) v xs h = find-Related x v xs h
  step-Related (at_op i) v xs h = at-Related i v xs h
  step-Related pop_op v xs h = pop_back-Related v xs h
  step-Related clear_op v xs h = clear-Related v xs h
  step-Related size_op v xs h = (v, ap (λ n. some (counted n, v)) h.0, h)
  step-Related empty_op v xs h = (v, ap (λ n. some (found_empty (n == 0), v)) h.0, h)

  run_after :
      (ops : List (Op A)) (o : Option (Seen A × InplaceVector A)) (p : Option (Seen A × List A))
      → ((v : InplaceVector A) (xs : List A)
          → Holds v xs
          → run true equals ops v ≡ spec_run true equals cap ops xs)
      → Related o p
      → go_on (run true equals ops) o ≡ go_on (spec_run true equals cap ops) p
  run_after ops o none all e = ap (go_on (run true equals ops)) e
  run_after ops o (some (t, ys)) all (w, e, k) =
      ap (go_on (run true equals ops)) e ∙ ap (λ l. t ∷ l) (all w ys k)

  run-Holds :
      (ops : List (Op A)) (v : InplaceVector A) (xs : List A)
      → Holds v xs
      → run true equals ops v ≡ spec_run true equals cap ops xs
  unfolding run spec_run
  run-Holds [] v xs h = refl
  run-Holds (op ∷ ops) v xs h =
      run_after ops (step true equals op v) (spec_step true equals cap op xs) (run-Holds ops)
        (step-Related op v xs h)

  pub run-spec_run_scalar :
      (ops : List (Op A)) → run true equals ops (new_vector cap) ≡ spec_run true equals cap ops []
  run-spec_run_scalar ops =
      run-Holds ops (new_vector cap) []
        (refl, length-replicate cap none, omega arith, λ j lt. absurd (omega arith))
