-- ===== src/Meta/Laws.antt =====
-- What the computations on types give.
use mathlib.Core.Option.{some-injective}
use libcxxext.Prelude.{
  max, ℕ, zero, suc, ◌≤◌, Bool, true, false, ◌||◌, ◌≡◌, ◌↔◌, inl, inr, refl, ap, ◌∙◌, sym, arith,
  List, [], ◌∷◌, ◌++◌, length, Option, none, some, Bool-cases, All,
}
use libcxxext.Meta.{
  no_reference, CppType, remove_reference, is_unqualified, replace_cv, at, contains, return_cases,
  count_returns, type_switch, storage_size,
}

module _ {B : Type 0} where
  -- `replace_cv` has the unqualified type of the one and the qualifiers of the other and is no
  -- reference; a second one replaces the first.
  replace_cv_lem :
      (t u w : CppType B)
      → (replace_cv t w ≡ record {
        base = t.base;
        is_const = w.is_const;
        is_volatile = w.is_volatile;
        reference = no_reference;
      })
        × (replace_cv w w ≡ remove_reference w)
        × (replace_cv (replace_cv t u) w ≡ replace_cv t w)
        × ((is_unqualified (replace_cv t w) ≡ true)
            ↔ ((w.is_const ≡ false) × (w.is_volatile ≡ false)))
  unfolding replace_cv is_unqualified
  replace_cv_lem t u w = ground arith

module _ {T : Type 0} where
  -- The cases in front of the first one that meets its condition, which has the type, or all of them.
  abbrev pub SwitchesTo : List (Bool × T) → Option T → Type 0
  SwitchesTo cases none = All (λ c. c.0 ≡ false) cases
  SwitchesTo cases (some t) =
      (before : List (Bool × T)) × (after : List (Bool × T)) × (cases ≡ before ++ (true, t) ∷ after)
      × All (λ c. c.0 ≡ false) before

  type_switch-SwitchesTo : (cases : List (Bool × T)) → SwitchesTo cases (type_switch cases)
  unfolding type_switch return_cases
  type_switch-SwitchesTo [] = tt
  type_switch-SwitchesTo ((true, t) ∷ cases) = ([], cases, refl, tt)
  type_switch-SwitchesTo ((false, t) ∷ cases) =
      later (type_switch cases) (type_switch-SwitchesTo cases)
    where
      later : (o : Option T) → SwitchesTo cases o → SwitchesTo ((false, t) ∷ cases) o
      later none h = (refl, h)
      later (some x) (before, after, split, skipped) =
          ((false, t) ∷ before, after, ap (λ l. (false, t) ∷ l) split, (refl, skipped))

  type_switch-count_returns :
      (cases : List (Bool × T))
      → (length (return_cases cases) ≡ count_returns cases)
        × ((type_switch cases ≡ none) ↔ (count_returns cases ≡ 0))
  unfolding type_switch return_cases count_returns
  type_switch-count_returns [] = (refl, (λ e. refl, λ e. refl))
  type_switch-count_returns ((true, t) ∷ cases) = (
    omega (arith, (type_switch-count_returns cases).0),
    (λ e. ground arith, λ e. absurd (omega arith)),
  )
  type_switch-count_returns ((false, t) ∷ cases) =
      let (counted, none_met) = type_switch-count_returns cases in
      (omega arith, (λ e. omega (arith, none_met.0 e), λ e. none_met.1 (omega arith)))

  contains-at :
      (same : T → T → Bool) (pack : List T) (t p : T) (i : ℕ)
      → at pack i ≡ some p
      → same t p ≡ true
      → contains same pack t ≡ true
  unfolding contains
  contains-at same [] t p i here hit = ground arith
  contains-at same (q ∷ pack) t p zero here hit =
      let first : q ≡ p = some-injective q p here in rw first (rw hit refl)
  contains-at same (q ∷ pack) t p (suc i) here hit =
      let rest = contains-at same pack t p i here hit in
      elim (Bool-cases (same t q)) [ inl y ↦ rw y refl | inr n ↦ rw n rest ]

  contains_iff :
      (same : T → T → Bool) (pack : List T) (t : T)
      → (contains same pack t ≡ true)
        ↔ ((i : ℕ) × (p : T) × (at pack i ≡ some p) × (same t p ≡ true))
  unfolding contains
  contains_iff same [] t = (λ h. ground arith, λ (i, p, here, hit). ground arith)
  contains_iff same (p ∷ pack) t =
      let rest = contains_iff same pack t in
      elim (Bool-cases (same t p)) [
        | inl hit ↦ rw hit (λ h. (0, p, refl, hit), λ found. refl)
        | inr miss ↦ rw miss (
          λ h. let (i, q, here, found) = rest.0 h in (suc i, q, here, found),
          λ (i, q, here, found).
              sym (ap (λ b. b || contains same pack t) miss)
              ∙ contains-at same (p ∷ pack) t q i here found,
        )
      ]

All-raised : (sizes : List ℕ) (n m : ℕ) → n ≤ m → All (λ s. s ≤ n) sizes → All (λ s. s ≤ m) sizes
All-raised [] n m h all = tt
All-raised (s ∷ sizes) n m h all = (omega arith, All-raised sizes n m h all.1)

-- The storage has room for each type, and for no more than the largest.
storage_size-le : (sizes : List ℕ) → All (λ size. size ≤ storage_size sizes) sizes
unfolding storage_size
storage_size-le [] = tt
storage_size-le (size ∷ sizes) = (
  omega arith,
  All-raised sizes (storage_size sizes) (max size (storage_size sizes)) (omega arith)
      (storage_size-le sizes),
)
