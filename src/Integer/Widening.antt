-- ===== src/Integer/Widening.antt =====
-- The conversions that need no check (sys/meta/Builtin.h, sys/Integer.h).
use libcxxext.Prelude.{ℕ, Bool, true, ◌&&◌, not, ◌≡◌, ◌↔◌, refl, arith}
use libcxxext.Prelude.Int.{ltb_ℤ}
use libcxxext.Integer.{IntType, i8, value, cast, highest, lowest}
use libcxxext.Integer.Arith.{IsPattern}

-- `IBuiltinIntegerNarrowerThan<narrower, wider>`
abbrev pub is_narrower : IntType → IntType → Bool
is_narrower narrower wider =
    not (ltb_ℤ (value narrower (lowest narrower)) (value wider (lowest wider)))
    && not (ltb_ℤ (value wider (highest wider)) (value narrower (highest narrower)))

-- `integer(v)` and `operator=(v)` of a narrower built-in integer
unfoldable pub widen : IntType → IntType → ℕ → ℕ
widen narrower wider a = cast wider (value narrower a)

-- Of two built-in types, one is narrower than the other in the sense of the concept just when a
-- conversion from the one to the other preserves every value.
pub widen_iff :
    (narrower wider : IntType)
    → (is_narrower narrower wider ≡ true)
      ↔ ((a : ℕ) → IsPattern narrower a → value wider (widen narrower wider a) ≡ value narrower a)
unfolding widen
widen_iff i8 i8 = (λ h a ha. ground arith, λ all. refl)
widen_iff narrower wider = (
  λ h a ha. ground arith,
  λ all. ground (arith, all (lowest narrower) (omega arith), all (highest narrower) (omega arith)),
)
