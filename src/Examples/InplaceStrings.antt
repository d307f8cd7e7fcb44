-- ===== src/Examples/InplaceStrings.antt =====
-- The in-place string at a concrete text.
use libcxxext.Prelude.{◌≡◌, arith, [], ◌∷◌, length}
use libcxxext.Containers.String.{from_cstr, range, up_to_null, from_cstr_lem}

-- "hi" at capacity 4
from_cstr_lem_example :
    (up_to_null (from_cstr 4 (0x68 ∷ 0x69 ∷ [])).buffer ≡ 0x68 ∷ 0x69 ∷ [])
    × (range (from_cstr 4 (0x68 ∷ 0x69 ∷ [])) ≡ [])
    × (length (from_cstr 4 (0x68 ∷ 0x69 ∷ [])).buffer ≡ 5)
from_cstr_lem_example = from_cstr_lem 4 (0x68 ∷ 0x69 ∷ []) (omega arith, (omega arith, tt))
