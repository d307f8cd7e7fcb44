-- ===== src/Examples/Sets.antt =====
-- The set at a concrete state.
use libcxxext.Containers.AtomicSet.{
  exchange_from, exchange, exchange_weak, Exchanges, exchange-Exchanges,
}
use libcxxext.Prelude.{
  ℕ, true, false, ◌≡◌, refl, ◌==◌, ◌≤◌, arith, List, [], ◌∷◌, set, if◌then◌else◌,
}
use libcxxext.Containers.Set.{InplaceSet, try_insert, try_erase}
use libcxxext.Containers.Set.Members.{members, Erases, try_erase-Erases, members-try_insert}

abbrev twice_five : InplaceSet ℕ
twice_five = record { items = 5 ∷ 5 ∷ 6 ∷ 0 ∷ []; size = 3 }

try_erase-Erases_example :
    Erases 0 (λ x y. x == y) 5 twice_five (try_erase 0 (λ x y. x == y) 5 twice_five)
try_erase-Erases_example = try_erase-Erases 0 (λ x y. x == y) 5 twice_five (omega arith)

-- A value that the set has is inserted again.
members-try_insert_example :
    ((try_insert 0 (λ x y. x == y) 6 twice_five).0 ≡ true)
    × ((try_insert 0 (λ x y. x == y) 6 twice_five).1.size ≤ 4)
    × (members (try_insert 0 (λ x y. x == y) 6 twice_five).1 ≡ 5 ∷ 5 ∷ 6 ∷ 6 ∷ [])
unfolding members
members-try_insert_example = members-try_insert 0 (λ x y. x == y) 6 twice_five (omega arith)

-- Another thread stores 5 in the first element after the call has passed it.
abbrev late : ℕ → List ℕ → List ℕ
late i cells = if i == 1 then set cells 0 5 else cells

exchange-Exchanges_example :
    Exchanges 0
      (λ x y. x == y)
      late
      (λ i. false)
      5
      9
      0
      3
      (4 ∷ 4 ∷ 5 ∷ [])
      (exchange 0 (λ x y. x == y) late 5 9 (4 ∷ 4 ∷ 5 ∷ []))
    × Exchanges 0
        (λ x y. x == y)
        late
        (λ i. i == 2)
        5
        9
        0
        3
        (4 ∷ 4 ∷ 5 ∷ [])
        (exchange_weak 0 (λ x y. x == y) late (λ i. i == 2) 5 9 (4 ∷ 4 ∷ 5 ∷ []))
exchange-Exchanges_example =
    exchange-Exchanges 0 (λ x y. x == y) late (λ i. i == 2) 5 9 (4 ∷ 4 ∷ 5 ∷ [])

exchanged :
    (exchange 0 (λ x y. x == y) late 5 9 (4 ∷ 4 ∷ 5 ∷ []) ≡ (true, 5 ∷ 4 ∷ 9 ∷ []))
    × (exchange_weak 0 (λ x y. x == y) late (λ i. i == 2) 5 9 (4 ∷ 4 ∷ 5 ∷ [])
        ≡ (false, 5 ∷ 4 ∷ 5 ∷ []))
unfolding exchange_from
exchanged = (refl, refl)
