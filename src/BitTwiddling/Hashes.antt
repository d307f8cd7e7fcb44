-- ===== src/BitTwiddling/Hashes.antt =====
-- What the hash combiner of sys/BitTwiddling.h keeps of its second argument.
use libcxxext.Prelude.{ℕ, ◌≡◌, ◌↔◌, ap, ◌∙◌, sym, arith, bit_xor}
use libcxxext.Prelude.Bits.{bit_xor-twice, bit_xor-lt}
use libcxxext.Integer.{u64, add, shl, shr}
use libcxxext.Integer.Arith.{IsPattern}
use libcxxext.BitTwiddling.{dhc2}

add-IsPattern : (a b : ℕ) → IsPattern u64 (add u64 a b)
unfolding add
add-IsPattern a b = omega arith

add-cancels : (a b c : ℕ) → IsPattern u64 a → IsPattern u64 b → add u64 a c ≡ add u64 b c → a ≡ b
unfolding add
add-cancels a b c ha hb e = omega arith

bit_xor-cancels : (a b c : ℕ) → bit_xor a b ≡ bit_xor a c → b ≡ c
bit_xor-cancels a b c e = sym (bit_xor-twice a b) ∙ ap (bit_xor a) e ∙ bit_xor-twice a c

-- What is combined with the seed.
abbrev mixed : ℕ → ℕ → ℕ
mixed seed x = add u64 (add u64 (add u64 x 0x9e3779b9) (shl u64 seed 6)) (shr u64 seed 2)

mixed-cancels :
    (seed x y : ℕ) → IsPattern u64 x → IsPattern u64 y → mixed seed x ≡ mixed seed y → x ≡ y
mixed-cancels seed x y hx hy e = add-cancels x y 0x9e3779b9 hx hy (
    add-cancels (add u64 x 0x9e3779b9) (add u64 y 0x9e3779b9) (shl u64 seed 6)
      (add-IsPattern x 0x9e3779b9) (add-IsPattern y 0x9e3779b9)
      (add-cancels (add u64 (add u64 x 0x9e3779b9) (shl u64 seed 6))
        (add u64 (add u64 y 0x9e3779b9) (shl u64 seed 6)) (shr u64 seed 2)
        (add-IsPattern (add u64 x 0x9e3779b9) (shl u64 seed 6))
        (add-IsPattern (add u64 y 0x9e3779b9) (shl u64 seed 6)) e))

-- For a seed and values of 64 bits, `dhc2` has 64 bits and tells apart what is combined with the seed.
dhc2-distinguishes :
    (seed x y : ℕ)
    → IsPattern u64 seed
    → IsPattern u64 x
    → IsPattern u64 y
    → IsPattern u64 (dhc2 seed x) × ((dhc2 seed x ≡ dhc2 seed y) ↔ (x ≡ y))
unfolding dhc2
dhc2-distinguishes seed x y hs hx hy = (
  bit_xor-lt 64 seed (mixed seed x) hs
      (add-IsPattern (add u64 (add u64 x 0x9e3779b9) (shl u64 seed 6)) (shr u64 seed 2)),
  (
    λ e. mixed-cancels seed x y hx hy (bit_xor-cancels seed (mixed seed x) (mixed seed y) e),
    λ same. ap (dhc2 seed) same,
  ),
)
