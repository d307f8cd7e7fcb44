-- ===== src/Containers/Queue/Window.antt =====
-- The elements of a circular buffer from an index on, and what a store to the buffer does to them.
use libcxxext.Prelude.{
  ℕ, zero, suc, ◌+◌, ◌-◌, ◌%◌, ◌≤◌, ◌<◌, ◌≡◌, refl, ap, ap₂, ◌∙◌, arith, List, [], ◌∷◌, ◌++◌,
}
use libcxxext.Prelude.{
  ltb, if◌then◌else◌, length, get_or, set, length-set, length-append, get_or-set_self,
  get_or-set_ne, Bool-cases, inl, inr,
}
use native.Mathlib.Nat.{mod-add-mod, mod-lt, mod-eq_of_lt, mod-eq-sub-mod}

-- The index `k` places behind `h`, on a circle of `cap`.
pub wrap_index :
    (cap h k : ℕ)
    → h < cap
    → k ≤ cap
    → (h + k) % cap ≡ (if ltb (h + k) cap then h + k else h + k - cap)
wrap_index cap h k hh hk = elim (Bool-cases (ltb (h + k) cap)) [
  | inl lt ↦ rw lt (mod-eq_of_lt (ground arith))
  | inr ge ↦ rw ge (
      mod-eq-sub-mod {n = h + k} {m = cap} (ground arith)
      ∙ mod-eq_of_lt {n = h + k - cap} {m = cap} (ground arith))
]

pub index_shift : (cap h n : ℕ) → ((h + 1) % cap + n) % cap ≡ (h + suc n) % cap
index_shift cap h n = mod-add-mod (h + 1) cap n ∙ ap (λ i. i % cap) (omega arith)

module _ {ℓ} {A : Type ℓ} (d : A) where
  -- the `n` elements from index `h`
  abbrev pub window : List A → ℕ → ℕ → List A
  window xs h zero = []
  window xs h (suc n) = window xs h n ++ (get_or xs ((h + n) % length xs) d ∷ [])

  pub length-window : (xs : List A) (h n : ℕ) → length (window xs h n) ≡ n
  length-window xs h zero = refl
  length-window xs h (suc n) = rw (length-append, length-window xs h n) (omega arith)

  pub window-set :
      (xs : List A) (h n : ℕ) (v : A) (i : ℕ)
      → h < length xs
      → n ≤ i
      → i < length xs
      → window (set xs ((h + i) % length xs) v) h n ≡ window xs h n
  window-set xs h zero v i hh hn hi = refl
  window-set xs h (suc n) v i hh hn hi =
      let at_i = wrap_index (length xs) h i hh (omega arith) in
      let at_n = wrap_index (length xs) h n hh (omega arith) in
      rw length-set (
        ap₂ (λ ys y. ys ++ (y ∷ [])) (window-set xs h n v i hh (omega arith) hi)
          (get_or-set_ne xs ((h + i) % length xs) ((h + n) % length xs) v d (ground arith)))

  pub window-cons :
      (xs : List A) (h n : ℕ)
      → h < length xs
      → window xs h (suc n) ≡ get_or xs h d ∷ window xs ((h + 1) % length xs) n
  window-cons xs h zero hh =
      ap (λ i. get_or xs i d ∷ []) (ap (λ i. i % length xs) (omega arith) ∙ mod-eq_of_lt hh)
  window-cons xs h (suc n) hh =
      rw (index_shift (length xs) h n)
        (ap (λ ys. ys ++ (get_or xs ((h + suc n) % length xs) d ∷ [])) (window-cons xs h n hh))

  pub window-push :
      (xs : List A) (h n : ℕ) (v : A)
      → h < length xs
      → n < length xs
      → window (set xs ((h + n) % length xs) v) h (suc n) ≡ window xs h n ++ (v ∷ [])
  window-push xs h n v hh hn = rw length-set (
      ap₂ (λ ys y. ys ++ (y ∷ [])) (window-set xs h n v n hh (omega arith) hn)
        (get_or-set_self xs ((h + n) % length xs) v d (mod-lt (h + n) (omega arith))))

  pub get_or_default :
      (xs : List A) (i : ℕ) (a b : A) → i < length xs → get_or xs i a ≡ get_or xs i b
  get_or_default [] i a b h = absurd (omega arith)
  get_or_default (x ∷ xs) zero a b h = refl
  get_or_default (x ∷ xs) (suc i) a b h = get_or_default xs i a b (omega arith)
