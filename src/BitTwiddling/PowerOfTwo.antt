-- ===== src/BitTwiddling/PowerOfTwo.antt =====
-- `nr2i32` and `nr2i64` compute the least power of two that is not below the argument.
use libcxxext.Prelude.Bits.{bit_or-lt, bit_or-high, bit_or-le}
use libcxxext.Prelude.{
  ℕ, zero, suc, ◌+◌, ◌-◌, ◌*◌, ◌/◌, ◌%◌, ◌^◌, ◌≤◌, ◌<◌, ◌≡◌, refl, ap, ◌∙◌, sym, arith, bit_or,
}
use libcxxext.Prelude.{ltb, Bool-cases, inl, inr}
use native.Mathlib.Nat.{
  mod-eq_of_lt, div-le_self, pow-zero, pow-suc, one-le-pow, le-div_iff_mul-le, div-lt_iff_lt-mul,
  pow-le-pow_right,
}
use libcxxext.Integer.{i32, i64, shr, increment, decrement}
use libcxxext.Integer.Shift.{shr-shifted}
use libcxxext.BitTwiddling.{nr2i32, nr2i64, smear_by_32, smear_by_64, smear_32, smear_64}

split_power : (q m : ℕ) → suc q * 2 ^ m ≡ q * 2 ^ m + 2 ^ m
split_power q m = omega arith

pow_sum : (m t : ℕ) → 2 ^ (m + t) ≡ 2 ^ t * 2 ^ m
pow_sum m zero = rw (pow-zero 2) (omega (arith, ap (λ (n : ℕ). 2 ^ n) (add_zero m)))
  where
    add_zero : (m : ℕ) → m + 0 ≡ m
    add_zero m = omega arith
pow_sum m (suc t) =
    let shifted : m + suc t ≡ suc (m + t) = omega arith in
    omega (
      arith,
      ap (λ (n : ℕ). 2 ^ n) shifted,
      pow-suc 2 (m + t),
      pow-suc 2 t,
      ap (λ (n : ℕ). n * 2 ^ m) (pow-suc 2 t),
      pow_sum m t,
    )

-- With the `t` highest of `b` bits set, those of `v`, a smear by `t` sets twice as many.
module _ (b t v : ℕ) where
  abbrev Smeared : ℕ → ℕ → Type 0
  Smeared n w = (w < 2 ^ b) × (2 ^ b ≤ w + 2 ^ (b - n))

  smear_below :
      (m q d : ℕ)
      → 2 ^ t ≡ suc q
      → 2 ^ b ≡ suc q * 2 ^ m
      → d ≤ 2 ^ m
      → 2 ^ m ≤ d * 2 ^ t
      → Smeared t v
      → 2 ^ (b - t) ≡ 2 ^ m
      → 2 ^ b ≤ bit_or v (v / 2 ^ t) + d
  smear_below m q d eq_t eq_b le_m le_d sm eq_m =
      let r = v - q * 2 ^ m in
      let s = v / 2 ^ t in
      let whole : v ≡ q * 2 ^ m + r = omega (arith, split_power q m) in
      let low : r < 2 ^ m = omega (arith, split_power q m) in
      let small : s < 2 ^ m =
        (div-lt_iff_lt-mul {y = 2 ^ m} (one-le-pow t 2 (omega arith))).1
          (omega (arith, split_power q m, ap (λ (x : ℕ). 2 ^ m * x) eq_t)) in
      let rest : 2 ^ m ≡ 2 ^ m - d + d = omega arith in
      let parts = ap (λ (x : ℕ). x * 2 ^ t) rest in
      let many : 2 ^ m - d ≤ s =
        (le-div_iff_mul-le {x = 2 ^ m - d} (one-le-pow t 2 (omega arith))).1
          (omega (arith, parts, split_power q m, ap (λ (x : ℕ). 2 ^ m * x) eq_t)) in
      let high = bit_or-high m q r s low small in
      let right = bit_or-le r s in
      let joined : bit_or v s ≡ q * 2 ^ m + bit_or r s = ap (λ (x : ℕ). bit_or x s) whole ∙ high in
      omega (arith, split_power q m)

  smear : 1 ≤ t → Smeared t v → Smeared (t + t) (bit_or v (v / 2 ^ t))
  smear ht sm = (
    bit_or-lt b v (v / 2 ^ t) sm.0 (omega (arith, div-le_self v (2 ^ t))),
    elim (Bool-cases (ltb t b)) [
      | inl below ↦
          let m = b - t in
          let lt : t < b = ground arith in
          let sum : m + t ≡ b = omega arith in
          let eq_b : 2 ^ b ≡ 2 ^ t * 2 ^ m = sym (ap (λ (n : ℕ). 2 ^ n) sum) ∙ pow_sum m t in
          let pred : 2 ^ t ≡ suc (2 ^ t - 1) = omega (arith, one-le-pow t 2) in
          let fewer : 2 ^ (b - (t + t)) ≤ 2 ^ m = pow-le-pow_right (omega arith) (omega arith) in
          let wide : 2 ^ m ≤ 2 ^ (b - (t + t) + t) = pow-le-pow_right (omega arith) (omega arith) in
          smear_below m (2 ^ t - 1) (2 ^ (b - (t + t))) pred (eq_b ∙ ap (λ (x : ℕ). x * 2 ^ m) pred)
            fewer (omega (arith, wide, pow_sum (b - (t + t)) t)) sm refl
      | inr above ↦
          let none_left : b - t ≡ 0 = ground arith in
          let none_left' : b - (t + t) ≡ 0 = ground arith in
          let left = bit_or-le v (v / 2 ^ t) in
          omega (arith, sm, ap (λ (n : ℕ). 2 ^ n) none_left, ap (λ (n : ℕ). 2 ^ n) none_left')
    ],
  )

top_bit : (n x : ℕ) → x ≤ n → 0 < x → (c : ℕ) × (2 ^ c ≤ x) × (x < 2 ^ suc c)
top_bit zero x h p = absurd (omega arith)
top_bit (suc n) x h p = elim (Bool-cases (ltb x 2)) [
  | inl one ↦ (0, ground arith, ground arith)
  | inr more ↦
      let (c, below, above) = top_bit n (x / 2) (ground arith) (ground arith) in
      (suc c, omega (arith, pow-suc 2 c), omega (arith, pow-suc 2 (suc c)))
]

by_32_lem : (n v : ℕ) → n < 32 → v < 2 ^ 32 → smear_by_32 n v ≡ bit_or v (v / 2 ^ n)
by_32_lem n v hn hv = ap (bit_or v) (shr-shifted i32 v n hv (omega arith) ∙ ground arith)

by_64_lem : (n v : ℕ) → n < 64 → v < 2 ^ 64 → smear_by_64 n v ≡ bit_or v (v / 2 ^ n)
by_64_lem n v hn hv = ap (bit_or v) (shr-shifted i64 v n hv (omega arith) ∙ ground arith)

-- One smear at 32 bits, for a number of fewer bits.
step_32 :
    (b t v : ℕ)
    → b ≤ 32
    → 1 ≤ t
    → t < 32
    → Smeared b t v t v
    → Smeared b t v (t + t) (smear_by_32 t v)
step_32 b t v hb h1 ht sm =
    let wide : 2 ^ b ≤ 2 ^ 32 = pow-le-pow_right (omega arith) hb in
    rw (by_32_lem t v ht (omega arith)) (smear b t v h1 sm)

step_64 :
    (b t v : ℕ)
    → b ≤ 64
    → 1 ≤ t
    → t < 64
    → Smeared b t v t v
    → Smeared b t v (t + t) (smear_by_64 t v)
step_64 b t v hb h1 ht sm =
    let wide : 2 ^ b ≤ 2 ^ 64 = pow-le-pow_right (omega arith) hb in
    rw (by_64_lem t v ht (omega arith)) (smear b t v h1 sm)

first_bit : (c v : ℕ) → 2 ^ c ≤ v → v < 2 ^ suc c → Smeared (suc c) 1 v 1 v
first_bit c v below above =
    let one_less : suc c - 1 ≡ c = omega arith in
    (above, omega (arith, pow-suc 2 c, ap (λ (n : ℕ). 2 ^ n) one_less))

all_bits : (b n w : ℕ) → b ≤ n → Smeared b n w n w → w + 1 ≡ 2 ^ b
all_bits b n w h sm =
    let none_left : b - n ≡ 0 = omega arith in omega (arith, sm, ap (λ (n : ℕ). 2 ^ n) none_left)

smear_32_lem : (c v : ℕ) → c < 31 → 2 ^ c ≤ v → v < 2 ^ suc c → smear_32 v + 1 ≡ 2 ^ suc c
smear_32_lem c v h below above =
    let b = suc c in
    let s1 = step_32 b 1 v (omega arith) (omega arith) (omega arith) (first_bit c v below above) in
    let s2 = step_32 b 2 _ (omega arith) (omega arith) (omega arith) s1 in
    let s4 = step_32 b 4 _ (omega arith) (omega arith) (omega arith) s2 in
    let s8 = step_32 b 8 _ (omega arith) (omega arith) (omega arith) s4 in
    let s16 = step_32 b 16 _ (omega arith) (omega arith) (omega arith) s8 in
    all_bits b 32 (smear_32 v) (omega arith) s16

smear_64_lem : (c v : ℕ) → c < 63 → 2 ^ c ≤ v → v < 2 ^ suc c → smear_64 v + 1 ≡ 2 ^ suc c
smear_64_lem c v h below above =
    let b = suc c in
    let s1 = step_64 b 1 v (omega arith) (omega arith) (omega arith) (first_bit c v below above) in
    let s2 = step_64 b 2 _ (omega arith) (omega arith) (omega arith) s1 in
    let s4 = step_64 b 4 _ (omega arith) (omega arith) (omega arith) s2 in
    let s8 = step_64 b 8 _ (omega arith) (omega arith) (omega arith) s4 in
    let s16 = step_64 b 16 _ (omega arith) (omega arith) (omega arith) s8 in
    let s32 = step_64 b 32 _ (omega arith) (omega arith) (omega arith) s16 in
    all_bits b 64 (smear_64 v) (omega arith) s32

power_below : (c k : ℕ) → 2 ^ c < 2 ^ k → c < k
power_below c k h = elim (Bool-cases (ltb c k)) [
  | inl lt ↦ ground arith
  | inr ge ↦
      let wide : 2 ^ k ≤ 2 ^ c = pow-le-pow_right (omega arith) (ground arith) in
      absurd (omega arith)
]

-- The least power of two that is at least `v`.
abbrev pub IsNextPower : ℕ → ℕ → Type 0
IsNextPower v p = (b : ℕ) × (p ≡ 2 ^ b) × (v ≤ p) × (p < 2 * v)

nr2i32_one : nr2i32 1 ≡ 1
unfolding nr2i32 decrement increment shr
nr2i32_one = refl

nr2i32_more : (c x : ℕ) → c < 30 → 2 ^ c ≤ x → x < 2 ^ suc c → nr2i32 (suc x) ≡ 2 ^ suc c
unfolding nr2i32 decrement increment
nr2i32_more c x few below above =
    let wide : 2 ^ suc c ≤ 2 ^ 30 =
      pow-le-pow_right (omega arith) {i = suc c} {j = 30} (omega arith) in
    let before : (suc x + 2 ^ 32 - 1) % 2 ^ 32 ≡ x = omega arith in
    ap (λ (y : ℕ). (smear_32 y + 1) % 2 ^ 32) before
    ∙ ap (λ (y : ℕ). y % 2 ^ 32) (smear_32_lem c x (omega arith) below above)
    ∙ mod-eq_of_lt (omega arith)

-- From 1 to 2^30, `nr2i32` returns the least power of two that is at least its argument.
pub nr2i32-IsNextPower : (v : ℕ) → 1 ≤ v → v ≤ 2 ^ 30 → IsNextPower v (nr2i32 v)
nr2i32-IsNextPower zero h k = absurd (omega arith)
nr2i32-IsNextPower (suc zero) h k =
    (0, nr2i32_one, omega (arith, nr2i32_one), omega (arith, nr2i32_one))
nr2i32-IsNextPower (suc (suc x)) h k =
    let (c, below, above) = top_bit (suc x) (suc x) (omega arith) (omega arith) in
    let few = power_below c 30 (omega arith) in
    let found = nr2i32_more c (suc x) few below above in
    (suc c, found, omega arith, omega (arith, pow-suc 2 c))

nr2i64_one : nr2i64 1 ≡ 1
unfolding nr2i64 decrement increment shr
nr2i64_one = refl

nr2i64_more : (c x : ℕ) → c < 62 → 2 ^ c ≤ x → x < 2 ^ suc c → nr2i64 (suc x) ≡ 2 ^ suc c
unfolding nr2i64 decrement increment
nr2i64_more c x few below above =
    let wide : 2 ^ suc c ≤ 2 ^ 62 =
      pow-le-pow_right (omega arith) {i = suc c} {j = 62} (omega arith) in
    let before : (suc x + 2 ^ 64 - 1) % 2 ^ 64 ≡ x = omega arith in
    ap (λ (y : ℕ). (smear_64 y + 1) % 2 ^ 64) before
    ∙ ap (λ (y : ℕ). y % 2 ^ 64) (smear_64_lem c x (omega arith) below above)
    ∙ mod-eq_of_lt (omega arith)

pub nr2i64-IsNextPower : (v : ℕ) → 1 ≤ v → v ≤ 2 ^ 62 → IsNextPower v (nr2i64 v)
nr2i64-IsNextPower zero h k = absurd (omega arith)
nr2i64-IsNextPower (suc zero) h k =
    (0, nr2i64_one, omega (arith, nr2i64_one), omega (arith, nr2i64_one))
nr2i64-IsNextPower (suc (suc x)) h k =
    let (c, below, above) = top_bit (suc x) (suc x) (omega arith) (omega arith) in
    let few = power_below c 62 (omega arith) in
    let found = nr2i64_more c (suc x) few below above in
    (suc c, found, omega arith, omega (arith, pow-suc 2 c))
