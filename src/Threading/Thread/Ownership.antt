-- ===== src/Threading/Thread/Ownership.antt =====
-- Which threads a `managed_thread` owns, and how its operations end them.
use libcxxext.Prelude.{
  ℕ, ◌+◌, false, ◌==◌, ◌≡◌, refl, arith, if◌then◌else◌, Bool-cases, inl, inr, List, [], ◌∷◌, Option,
  none, some,
}
use libcxxext.Prelude.Outcome.{Keeps}
use libcxxext.Prelude.Slots.{total}
use libcxxext.Threading.Mutex.{is_ok}
use libcxxext.Threading.Thread.{Event, spawned, joined, detached, Platform, join, detach, destruct}

-- How often thread `k` is there.
abbrev pub one : ℕ → ℕ → ℕ
one k t = if k == t then 1 else 0

abbrev pub starts : ℕ → List Event → ℕ
starts k [] = 0
starts k (spawned t ∷ es) = one k t + starts k es
starts k (_ ∷ es) = starts k es

abbrev pub ends : ℕ → List Event → ℕ
ends k [] = 0
ends k (spawned t ∷ es) = ends k es
ends k (joined t ∷ es) = one k t + ends k es
ends k (detached t ∷ es) = one k t + ends k es

-- Each thread is joined or detached as often as it is started.
abbrev pub IsSettled : List Event → Type 0
IsSettled es = (k : ℕ) → starts k es ≡ ends k es

abbrev pub held : ℕ → Option ℕ → ℕ
held k none = 0
held k (some t) = one k t

abbrev pub owned : ℕ → List (Option ℕ) → ℕ
owned k = total none (held k)

-- The events from `es` to `es'` start no thread, and end each that `m` owns and `m'` does not.
abbrev pub EndsOwned : Option ℕ → List Event → Option ℕ → List Event → Type 0
EndsOwned m es m' es' =
    (k : ℕ) → (starts k es' ≡ starts k es) × (ends k es' + held k m' ≡ ends k es + held k m)

module _ (P : Platform) (self : ℕ) where
  pub join-EndsOwned :
      (m : Option ℕ) (es : List Event) → EndsOwned m es (join P self m es).1 (join P self m es).2
  unfolding join
  join-EndsOwned none es k = (refl, refl)
  join-EndsOwned (some t) es k = elim (Bool-cases (t == self)) [
    | inl here ↦ rw here (refl, refl)
    | inr other ↦ elim (Bool-cases (is_ok (P.join_handle es t).0)) [
      | inl ok ↦ rw (other, ok) (refl, omega arith)
      | inr bad ↦ rw (other, bad) (refl, refl)
    ]
  ]

  pub detach-EndsOwned :
      (m : Option ℕ) (es : List Event)
      → EndsOwned m es (detach P self m es).0 (detach P self m es).1
  unfolding detach
  detach-EndsOwned none es k = (refl, refl)
  detach-EndsOwned (some t) es k = elim (Bool-cases (t == self)) [
    | inl here ↦ rw here (refl, refl)
    | inr other ↦ rw other (refl, omega arith)
  ]

  pub destruct-EndsOwned :
      (m : Option ℕ) (es : List Event)
      → held self m ≡ 0
      → Keeps (EndsOwned m es none) (destruct P self m es)
  unfolding destruct
  destruct-EndsOwned none es h = λ k. (refl, refl)
  destruct-EndsOwned (some t) es h =
      let other : (t == self) ≡ false = ground arith in
      elim (Bool-cases (is_ok (P.join_handle es t).0)) [
        | inl ok ↦ rw (other, ok) (λ k. (refl, omega arith))
        | inr bad ↦ rw (other, bad) tt
      ]
