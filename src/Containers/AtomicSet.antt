-- ===== src/Containers/AtomicSet.antt =====
-- `sys::inplace_atomic_set` (sys.Containers/InplaceAtomicSet.h): one call of `exchange` or
-- `exchange_weak`, in a sequentially consistent order with what other threads store meanwhile.
use libcxxext.Prelude.{
  ℕ, zero, suc, ◌+◌, ◌<◌, Bool, true, false, not, ◌&&◌, ◌≡◌, ◌⊎◌, refl, arith, List,
}
use libcxxext.Prelude.{if◌then◌else◌, length, get_or, set, replicate, Bool-cases, inl, inr}

module _ {A : Type 0} (default : A) (equals : A → A → Bool) where
  -- `inplace_atomic_set(init)`
  abbrev pub initialized : ℕ → A → List A
  initialized cap init = replicate cap init

  module _ (others : ℕ → List A → List A) (fails : ℕ → Bool) where
    -- The loop with `n` rounds left from index `i`. Before the access to element `i` the other threads
    -- make `others i` of the array; a weak exchange fails for no reason where `fails i`.
    unfoldable pub exchange_from : A → A → ℕ → ℕ → List A → Bool × List A
    exchange_from from to zero i cells = (false, cells)
    exchange_from from to (suc n) i cells =
        let now = others i cells in
        let rest = exchange_from from to n (i + 1) now in
        if equals (get_or now i default) from && not (fails i) then (true, set now i to) else rest

    -- What `f` makes of the element `i + n` that this call accesses and of the array at that time, if the
    -- call has stored nothing before.
    abbrev pub at_access {κ} : {B : Type κ} → (ℕ → List A → B) → ℕ → ℕ → List A → B
    at_access f i zero cells = f i (others i cells)
    at_access f i (suc n) cells = at_access f (i + 1) n (others i cells)

    -- The array after `n` accesses that store nothing.
    abbrev pub unchanged : ℕ → ℕ → List A → List A
    unchanged i zero cells = cells
    unchanged i (suc n) cells = unchanged (i + 1) n (others i cells)

    module _ (from to : A) where
      abbrev pub hits : ℕ → ℕ → List A → Bool
      hits = at_access (λ j now. equals (get_or now j default) from && not (fails j))

      -- The first element that matches when it is accessed is exchanged, or none does and nothing is stored.
      abbrev pub Exchanges : ℕ → ℕ → List A → Bool × List A → Type 0
      Exchanges i n cells r =
          ((k : ℕ) × (k < n)
            × (hits i k cells ≡ true)
            × ((j : ℕ) → j < k → hits i j cells ≡ false)
            × (r ≡ (true, at_access (λ j now. set now j to) i k cells)))
          ⊎ (((j : ℕ) → j < n → hits i j cells ≡ false) × (r ≡ (false, unchanged i n cells)))

      later_misses :
          (n i : ℕ) (cells : List A)
          → hits i 0 cells ≡ false
          → ((j : ℕ) → j < n → hits (i + 1) j (others i cells) ≡ false)
          → (j : ℕ) → j < suc n
          → hits i j cells ≡ false
      later_misses n i cells miss rest zero h = miss
      later_misses n i cells miss rest (suc j) h = rest j (omega arith)

      pub exchange_from-Exchanges :
          (n i : ℕ) (cells : List A) → Exchanges i n cells (exchange_from from to n i cells)
      unfolding exchange_from
      exchange_from-Exchanges zero i cells = inr (λ j h. absurd (omega arith), refl)
      exchange_from-Exchanges (suc n) i cells = elim (Bool-cases (hits i 0 cells)) [
        | inl hit ↦ inl (0, omega arith, hit, λ j h. absurd (omega arith), rw hit refl)
        | inr miss ↦ elim (exchange_from-Exchanges n (i + 1) (others i cells)) [
          | inl (k, lt, hit, before, run) ↦
              inl (suc k, omega arith, hit, later_misses k i cells miss before, rw miss run)
          | inr (none_hits, run) ↦ inr (later_misses n i cells miss none_hits, rw miss run)
        ]
      ]

  abbrev pub exchange : (ℕ → List A → List A) → A → A → List A → Bool × List A
  exchange others from to cells = exchange_from others (λ i. false) from to (length cells) 0 cells

  abbrev pub exchange_weak : (ℕ → List A → List A) → (ℕ → Bool) → A → A → List A → Bool × List A
  exchange_weak others fails from to cells =
      exchange_from others fails from to (length cells) 0 cells

  -- Whatever other threads store between the accesses, `exchange` and `exchange_weak` store once,
  -- in the first element that equals `from` when it is accessed and whose exchange does not fail,
  -- and return true, or store nothing, when there is none, and return false.
  pub exchange-Exchanges :
      (others : ℕ → List A → List A) (fails : ℕ → Bool) (from to : A) (cells : List A)
      → Exchanges others (λ i. false) from to 0 (length cells) cells (exchange others from to cells)
        × Exchanges others fails from to 0
            (length cells)
            cells
            (exchange_weak others fails from to cells)
  exchange-Exchanges others fails from to cells = (
    exchange_from-Exchanges others (λ i. false) from to (length cells) 0 cells,
    exchange_from-Exchanges others fails from to (length cells) 0 cells,
  )
