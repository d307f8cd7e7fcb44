-- ===== src/Containers/Queue/Iterators.antt =====
-- The arithmetic of the queue's iterators on their indices: `size_t` has 64 bits, and an offset of type
-- `ptrdiff_t` is converted to it.
use libcxxext.Prelude.{ℕ, zero, suc, ◌+◌, ◌-◌, ◌%◌, ◌^◌, ◌≤◌, ◌<◌, ◌≡◌, refl, ◌∙◌, sym, arith}
use libcxxext.Prelude.{ltb, leb, if◌then◌else◌, Bool-cases, inl, inr}
use libcxxext.Prelude.Int.{ℤ, pos, neg_ℤ}
use native.Mathlib.Nat.{mod-eq_of_lt, mod-eq-sub-mod, mod-add-mod, add-mod_right}
use libcxxext.Integer.{u64, cast}
use libcxxext.Containers.Queue.{InplaceQueue, capacity, size}
use libcxxext.Containers.Queue.Fifo.{IsValid}

-- `operator++` and `operator--`
abbrev pub it_next : ℕ → ℕ → ℕ
it_next cap i = (i + 1) % cap

abbrev pub it_prev : ℕ → ℕ → ℕ
it_prev cap i = (i + cap + 2 ^ 64 - 1) % 2 ^ 64 % cap

unfoldable pub it_add : ℕ → ℕ → ℤ → ℕ
it_add cap i b = (i + cast u64 b) % 2 ^ 64 % cap

unfoldable pub it_sub : ℕ → ℕ → ℤ → ℕ
it_sub cap i b = (i + cap + 2 ^ 64 - cast u64 b) % 2 ^ 64 % cap

-- `a - b`
unfoldable pub it_diff : ℕ → ℕ → ℤ
it_diff i j = if ltb j i then pos (i - j) else neg_ℤ (pos (j - i))

module _ (cap : ℕ) where
  abbrev pub nexts : ℕ → ℕ → ℕ
  nexts zero i = i
  nexts (suc n) i = it_next cap (nexts n i)

  abbrev pub prevs : ℕ → ℕ → ℕ
  prevs zero i = i
  prevs (suc n) i = it_prev cap (prevs n i)

  nexts_lem : (n i : ℕ) → i < cap → nexts n i ≡ (i + n) % cap
  nexts_lem zero i h = grind (arith, mod-eq_of_lt)
  nexts_lem (suc n) i h =
      let sum : i + n + 1 ≡ i + suc n = omega arith in
      rw (nexts_lem n i h, mod-add-mod (i + n) cap 1, sum) refl

  -- A sum of less than twice the capacity.
  pub reduced : (x : ℕ) → x < cap + cap → x % cap ≡ (if ltb x cap then x else x - cap)
  reduced x h = elim (Bool-cases (ltb x cap)) [
    | inl lt ↦ rw lt (mod-eq_of_lt (ground arith))
    | inr ge ↦
        let once : x % cap ≡ (x - cap) % cap = mod-eq-sub-mod (ground arith) in
        rw ge (once ∙ mod-eq_of_lt (ground arith))
  ]

  it_prev_lem :
      (x : ℕ) → x < cap → cap ≤ 2 ^ 62 → it_prev cap x ≡ (if leb 1 x then x - 1 else cap - 1)
  it_prev_lem x h hc =
      let small : (x + cap + 2 ^ 64 - 1) % 2 ^ 64 ≡ x + cap - 1 = omega arith in
      rw small (ground (arith, reduced (x + cap - 1) (omega arith)))

  prevs_lem :
      (n i : ℕ)
      → i < cap
      → n ≤ cap
      → cap ≤ 2 ^ 62
      → prevs n i ≡ (if leb n i then i - n else i + cap - n)
  prevs_lem zero i h hn hc = ground arith
  prevs_lem (suc n) i h hn hc =
      let before = if leb n i then i - n else i + cap - n in
      rw (prevs_lem n i h (omega arith) hc, it_prev_lem before (ground arith) hc) (ground arith)

  cast_negated : (n : ℕ) → n ≤ 2 ^ 62 → cast u64 (neg_ℤ (pos n)) ≡ (2 ^ 64 - n) % 2 ^ 64
  cast_negated n h = ground arith

  add_lem : (i n : ℕ) → i < cap → n ≤ cap → cap ≤ 2 ^ 62 → it_add cap i (pos n) ≡ nexts n i
  unfolding it_add
  add_lem i n h hn hc =
      let whole : (i + n % 2 ^ 64) % 2 ^ 64 ≡ i + n = omega arith in
      rw (whole, nexts_lem n i h) refl

  sub_lem : (i n : ℕ) → i < cap → n ≤ cap → cap ≤ 2 ^ 62 → it_sub cap i (pos n) ≡ prevs n i
  unfolding it_sub
  sub_lem i n h hn hc =
      let whole : (i + cap + 2 ^ 64 - n % 2 ^ 64) % 2 ^ 64 ≡ i + cap - n = omega arith in
      rw (whole, prevs_lem n i h hn hc) (ground (arith, reduced (i + cap - n) (omega arith)))

  negative_lem :
      (i n : ℕ)
      → i < cap
      → n ≤ cap
      → cap ≤ 2 ^ 62
      → it_add cap i (neg_ℤ (pos n)) ≡ (if leb n i then prevs n i else (prevs n i + 2 ^ 64) % cap)
  unfolding it_add
  negative_lem i n h hn hc = elim (Bool-cases (leb n i)) [
    | inl inside ↦
        let whole : (i + (2 ^ 64 - n) % 2 ^ 64) % 2 ^ 64 ≡ i - n = ground arith in
        rw (inside, cast_negated n (omega arith), whole, prevs_lem n i h hn hc, inside)
          (mod-eq_of_lt (omega arith))
    | inr below ↦
        let whole : (i + (2 ^ 64 - n) % 2 ^ 64) % 2 ^ 64 ≡ 2 ^ 64 + i - n = ground arith in
        let again : i + cap - n + 2 ^ 64 ≡ 2 ^ 64 + i - n + cap = ground arith in
        rw (below, cast_negated n (omega arith), whole, prevs_lem n i h hn hc, below, again)
          (sym (add-mod_right (2 ^ 64 + i - n) cap))
  ]

  -- At a capacity of at most 2^62, for an index below it and an offset of at most the capacity: `+
  -- n` is `n` times `++`, `- n` is `n` times `--`, and `+ -n` is `n` times `--` where the index
  -- does not pass 0; where it does, it ends 2^64 places further than `--` does.
  pub it_add-nexts :
      (i n : ℕ)
      → i < cap
      → n ≤ cap
      → cap ≤ 2 ^ 62
      → (it_add cap i (pos n) ≡ nexts n i)
        × (it_sub cap i (pos n) ≡ prevs n i)
        × (it_add cap i (neg_ℤ (pos n))
            ≡ (if leb n i then prevs n i else (prevs n i + 2 ^ 64) % cap))
  it_add-nexts i n h hn hc = (add_lem i n h hn hc, sub_lem i n h hn hc, negative_lem i n h hn hc)

module _ {ℓ} {A : Type ℓ} (d : A) where
  pub it_diff_ends :
      (q : InplaceQueue A)
      → IsValid d q
      → it_diff q.end q.begin ≡ (
          if q.full
          then pos 0
          else if leb q.begin q.end
          then pos (size q)
          else neg_ℤ (pos (capacity q - size q)))
  unfolding it_diff size
  it_diff_ends q h = ground arith
