-- ===== src/Containers/String.antt =====
-- `sys::inplace_string` (sys.Containers/InplaceString.h) of units of type `char`.
use libcxxext.Prelude.{
  ℕ, ◌+◌, ◌-◌, ◌≤◌, true, false, ◌≡◌, refl, ap, arith, List, [], ◌∷◌, ◌++◌, replicate, take,
  length-append, length-replicate,
}
use libcxxext.Prelude.{leb, ltb, ◌==◌, if◌then◌else◌, length, Bool-cases, inl, inr}

pub record InplaceString : Type 0 where
  pub buffer : List ℕ
  pub size : ℕ

-- `inplace_string()`
abbrev pub new_string : ℕ → InplaceString
new_string cap = record { buffer = 0 ∷ replicate cap 0; size = 0 }

-- `inplace_string(cstr)`, where `text` has the units in front of the terminating null; the buffer is
-- cleared before the body runs.
unfoldable pub from_cstr : ℕ → List ℕ → InplaceString
from_cstr cap text =
    if ltb cap (length text)
    then record { buffer = 0 ∷ replicate cap 0; size = 0 }
    else record { buffer = text ++ 0 ∷ replicate (cap - length text) 0; size = 0 }

-- The units from `begin()` to `end()`.
abbrev pub range : InplaceString → List ℕ
range s = take s.size s.buffer

-- The units that a reader of `begin()` finds in front of a null.
unfoldable pub up_to_null : List ℕ → List ℕ
up_to_null [] = []
up_to_null (u ∷ us) = if u == 0 then [] else u ∷ up_to_null us

abbrev pub HasNoNull : List ℕ → Type 0
HasNoNull [] = Unit
HasNoNull (u ∷ us) = (1 ≤ u) × HasNoNull us

up_to_null-text : (text rest : List ℕ) → HasNoNull text → up_to_null (text ++ 0 ∷ rest) ≡ text
unfolding up_to_null
up_to_null-text [] rest h = refl
up_to_null-text (u ∷ us) rest (one, h) =
    let other : (u == 0) ≡ false = ground arith in
    rw other (ap (λ l. u ∷ l) (up_to_null-text us rest h))

-- The buffer of a string made from a text without nulls has one place more than the capacity and
-- reads as that text if this fits in the capacity and as the empty text if not, while the range
-- from `begin()` to `end()` is empty for every text.
pub from_cstr_lem :
    (cap : ℕ) (text : List ℕ)
    → HasNoNull text
    → (up_to_null (from_cstr cap text).buffer ≡ (if leb (length text) cap then text else []))
      × (range (from_cstr cap text) ≡ [])
      × (length (from_cstr cap text).buffer ≡ cap + 1)
unfolding from_cstr up_to_null
from_cstr_lem cap text h = elim (Bool-cases (ltb cap (length text))) [
  | inl over ↦
      let not_in : leb (length text) cap ≡ false = ground arith in
      rw (over, not_in) (refl, refl, omega (arith, length-replicate {A = ℕ} cap 0))
  | inr fits ↦
      let held : length (text ++ 0 ∷ replicate (cap - length text) 0) ≡ cap + 1 = ground (
        arith,
        length-replicate {A = ℕ} (cap - length text) 0,
        length-append text (0 ∷ replicate (cap - length text) 0),
      ) in
      let in_ : leb (length text) cap ≡ true = ground arith in
      rw (fits, in_) (up_to_null-text text (replicate (cap - length text) 0) h, refl, held)
]
