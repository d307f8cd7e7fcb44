-- ===== src/Prelude/Bits.antt =====
-- Bit operations as arithmetic, at every width: a mask of low bits is a remainder, and an `|` of
-- disjoint fields is a sum. The native operations are defined by a recursion on binary digits with
-- fuel, from which one equation for the lowest digit is taken first.
use Prim.Native.Nat.{ℕ, zero, suc, ◌+◌, ◌-◌, ◌*◌, ◌/◌, ◌%◌, ◌^◌, ◌≤◌, ◌<◌, min, max}
use Prim.Native.Nat.{
  bit_and, bit_or, bit_xor, differ, digits, bitwise, bit_and-bitwise, bit_or-bitwise,
  bit_xor-bitwise,
}
use mathlib.Core.Path.{◌≡◌, refl, ap, ◌∙◌}
use native.Mathlib.Nat.{pow-suc, one-le-pow}
use native.Mathlib.Omega.{arith}

module _ (z : ℕ → ℕ) (f : ℕ → ℕ → ℕ) where
  -- Fuel above the first number changes nothing.
  enough_digits : (n m a b : ℕ) → a ≤ n → a ≤ m → digits z f n a b ≡ digits z f m a b
  enough_digits zero zero a b p q = refl
  enough_digits zero (suc m) zero b p q = refl
  enough_digits zero (suc m) (suc a) b p q = absurd (omega arith)
  enough_digits (suc n) zero zero b p q = refl
  enough_digits (suc n) zero (suc a) b p q = absurd (omega arith)
  enough_digits (suc n) (suc m) zero b p q = refl
  enough_digits (suc n) (suc m) (suc a) b p q =
      ap (λ d. d * 2 + f (suc a % 2) (b % 2))
        (enough_digits n m (suc a / 2) (b / 2) (omega arith) (omega arith))

  bitwise-digit :
      (a b : ℕ)
      → bitwise z f (suc a) b ≡ bitwise z f (suc a / 2) (b / 2) * 2 + f (suc a % 2) (b % 2)
  bitwise-digit a b =
      ap (λ d. d * 2 + f (suc a % 2) (b % 2))
        (enough_digits a (suc a / 2) (suc a / 2) (b / 2) (omega arith) (omega arith))

pub bit_or-digit : (a b : ℕ) → bit_or a b ≡ bit_or (a / 2) (b / 2) * 2 + max (a % 2) (b % 2)
bit_or-digit zero b = simp bit_or-bitwise (omega arith)
bit_or-digit (suc a) b = simp bit_or-bitwise (bitwise-digit (λ y. y) max a b)

pub bit_and-digit : (a b : ℕ) → bit_and a b ≡ bit_and (a / 2) (b / 2) * 2 + min (a % 2) (b % 2)
bit_and-digit zero b = simp bit_and-bitwise (omega arith)
bit_and-digit (suc a) b = simp bit_and-bitwise (bitwise-digit (λ y. 0) min a b)

differ-sum : (x y : ℕ) → x < 2 → y < 2 → differ x y ≡ (x + y) % 2
differ-sum zero y hx hy = omega arith
differ-sum (suc zero) zero hx hy = refl
differ-sum (suc zero) (suc zero) hx hy = refl
differ-sum (suc zero) (suc (suc y)) hx hy = absurd (omega arith)
differ-sum (suc (suc x)) y hx hy = absurd (omega arith)

pub bit_xor-digit : (a b : ℕ) → bit_xor a b ≡ bit_xor (a / 2) (b / 2) * 2 + (a % 2 + b % 2) % 2
bit_xor-digit zero b = simp bit_xor-bitwise (omega arith)
bit_xor-digit (suc a) b =
    rw (← differ-sum (suc a % 2) (b % 2) (omega arith) (omega arith))
      (simp bit_xor-bitwise (bitwise-digit (λ y. y) differ a b))

-- The zero laws, by a bound on the first number that halves with it.
or_zero_below : (n a : ℕ) → a ≤ n → bit_or a 0 ≡ a
or_zero_below n zero h = refl
or_zero_below zero (suc a) h = absurd (omega arith)
or_zero_below (suc n) (suc a) h =
    omega (arith, bit_or-digit (suc a) 0, or_zero_below n (suc a / 2) (omega arith))

and_zero_below : (n a : ℕ) → a ≤ n → bit_and a 0 ≡ 0
and_zero_below n zero h = refl
and_zero_below zero (suc a) h = absurd (omega arith)
and_zero_below (suc n) (suc a) h =
    omega (arith, bit_and-digit (suc a) 0, and_zero_below n (suc a / 2) (omega arith))

pub bit_or-zero : (a : ℕ) → bit_or a 0 ≡ a
bit_or-zero a = or_zero_below a a (omega arith)

pub bit_and-zero : (a : ℕ) → bit_and a 0 ≡ 0
bit_and-zero a = and_zero_below a a (omega arith)

-- A factor `2 ^ suc k` in the form that `omega` reads.
double : (q k : ℕ) → q * 2 ^ suc k ≡ 2 * (q * 2 ^ k)
double q k = omega (arith, ap (λ (t : ℕ). q * t) (pow-suc 2 k))

-- `(q << k) | r` is a sum where `r` fits `k` bits.
pub bit_or-shifted : (k q r : ℕ) → r < 2 ^ k → bit_or (q * 2 ^ k) r ≡ q * 2 ^ k + r
bit_or-shifted zero q r h = ground (arith, bit_or-zero q)
bit_or-shifted (suc k) q r h =
    ground
      (arith, bit_or-digit (q * 2 ^ suc k) r, double q k, bit_or-shifted k q (r / 2) (omega arith))

low_part : (k q r : ℕ) → r < 2 ^ k → bit_and (q * 2 ^ k + r) (2 ^ k - 1) ≡ r
low_part zero q r h = rw bit_and-zero (omega arith)
low_part (suc k) q r h = ground (
  arith,
  bit_and-digit (q * 2 ^ suc k + r) (2 ^ suc k - 1),
  double q k,
  pow-suc 2 k,
  one-le-pow k 2,
  low_part k q (r / 2) (omega arith),
)

-- A mask of `k` low bits is the remainder by `2 ^ k`.
pub bit_and-low : (k a : ℕ) → bit_and a (2 ^ k - 1) ≡ a % 2 ^ k
bit_and-low k a = ground (arith, one-le-pow k 2, low_part k (a / 2 ^ k) (a % 2 ^ k))

-- The mask of the top two bits of a byte.
pub bit_and-0xC0 : (a : ℕ) → bit_and a 0xC0 ≡ a / 64 % 4 * 64
bit_and-0xC0 a = omega (
  arith,
  bit_and-digit a 0xC0,
  bit_and-digit (a / 2) 0x60,
  bit_and-digit (a / 2 / 2) 0x30,
  bit_and-digit (a / 2 / 2 / 2) 0x18,
  bit_and-digit (a / 2 / 2 / 2 / 2) 0x0C,
  bit_and-digit (a / 2 / 2 / 2 / 2 / 2) 0x06,
  bit_and-low 2 (a / 2 / 2 / 2 / 2 / 2 / 2),
)

pub bit_or-lt : (k a b : ℕ) → a < 2 ^ k → b < 2 ^ k → bit_or a b < 2 ^ k
bit_or-lt zero a b ha hb = ground arith
bit_or-lt (suc k) a b ha hb = ground (
  arith,
  bit_or-digit a b,
  pow-suc 2 k,
  bit_or-lt k (a / 2) (b / 2) (omega (arith, pow-suc 2 k)) (omega (arith, pow-suc 2 k)),
)

-- a high part stays apart from what is below it
pub bit_or-high :
    (k q r s : ℕ) → r < 2 ^ k → s < 2 ^ k → bit_or (q * 2 ^ k + r) s ≡ q * 2 ^ k + bit_or r s
bit_or-high zero q r s hr hs =
    let r0 : r ≡ 0 = omega arith in
    let s0 : s ≡ 0 = omega arith in
    rw (r0, s0) (bit_or-zero (q * 1 + 0) ∙ omega (arith, bit_or-zero 0))
bit_or-high (suc k) q r s hr hs = ground (
  arith,
  bit_or-digit (q * 2 ^ suc k + r) s,
  bit_or-digit r s,
  double q k,
  pow-suc 2 k,
  bit_or-high k q (r / 2) (s / 2) (omega (arith, pow-suc 2 k)) (omega (arith, pow-suc 2 k)),
)

bit_or-le_below : (n a b : ℕ) → a ≤ n → b ≤ n → (a ≤ bit_or a b) × (b ≤ bit_or a b)
bit_or-le_below zero a b ha hb = (omega arith, omega arith)
bit_or-le_below (suc n) a b ha hb =
    let halves = bit_or-le_below n (a / 2) (b / 2) (omega arith) (omega arith) in
    ground (arith, bit_or-digit a b)

pub bit_or-le : (a b : ℕ) → (a ≤ bit_or a b) × (b ≤ bit_or a b)
bit_or-le a b = bit_or-le_below (a + b) a b (omega arith) (omega arith)

bit_xor-twice_below : (n a b : ℕ) → a ≤ n → b ≤ n → bit_xor a (bit_xor a b) ≡ b
bit_xor-twice_below zero zero zero ha hb = refl
bit_xor-twice_below zero (suc a) b ha hb = absurd (omega arith)
bit_xor-twice_below zero zero (suc b) ha hb = absurd (omega arith)
bit_xor-twice_below (suc n) a b ha hb =
    let high : bit_xor a b / 2 ≡ bit_xor (a / 2) (b / 2) = omega (arith, bit_xor-digit a b) in
    let again : bit_xor (a / 2) (bit_xor a b / 2) ≡ b / 2 =
      rw high (bit_xor-twice_below n (a / 2) (b / 2) (omega arith) (omega arith)) in
    omega (arith, bit_xor-digit a b, bit_xor-digit a (bit_xor a b))

-- An exclusive or with the same number undoes itself.
pub bit_xor-twice : (a b : ℕ) → bit_xor a (bit_xor a b) ≡ b
bit_xor-twice a b = bit_xor-twice_below (a + b) a b (omega arith) (omega arith)

pub bit_xor-lt : (k a b : ℕ) → a < 2 ^ k → b < 2 ^ k → bit_xor a b < 2 ^ k
bit_xor-lt zero zero zero ha hb = omega arith
bit_xor-lt zero (suc a) b ha hb = absurd (omega arith)
bit_xor-lt zero zero (suc b) ha hb = absurd (omega arith)
bit_xor-lt (suc k) a b ha hb = ground (
  arith,
  bit_xor-digit a b,
  pow-suc 2 k,
  bit_xor-lt k (a / 2) (b / 2) (omega (arith, pow-suc 2 k)) (omega (arith, pow-suc 2 k)),
)
