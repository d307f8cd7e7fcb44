-- ===== src/Casing/Outputs.antt =====
-- The sizes of what one code point is converted to: `as_cased` and `folded` give the functions of
-- sys.Text/data/UnicodeCasing.h a buffer of three code points.
use libcxxext.Prelude.{ℕ, ◌≤◌, Bool, true, false, ◌&&◌, ◌≡◌, refl, List, [], ◌∷◌}
use libcxxext.Prelude.{leb, length, arith}
use libcxxext.Casing.{ForwardCasingContext, LookaheadCasingContext, convert, lower_special}
use libcxxext.Casing.{upper_special, fold_special}
use libcxxext.Casing.Lookup.{find_case}
use libcxxext.Casing.Tables.ToUpper.{to_upper_simple}
use libcxxext.Casing.Tables.Fold.{fold_simple}
use libcxxext.Casing.Tables.UpperSpecial.{upper_special_cases}
use libcxxext.Casing.Tables.FoldSpecial.{fold_special_cases}

-- What a caller's buffer `conv` takes.
abbrev pub FitsBuffer : List ℕ → Type 0
FitsBuffer out = (1 ≤ length out) × (length out ≤ 3)

abbrev all_fit : List (ℕ × List ℕ) → Bool
all_fit [] = true
all_fit ((c, out) ∷ cases) = leb 1 (length out) && leb (length out) 3 && all_fit cases

find_case-FitsBuffer :
    (c : ℕ) (cases : List (ℕ × List ℕ)) (default : List ℕ)
    → all_fit cases ≡ true
    → FitsBuffer default
    → FitsBuffer (find_case c cases default)
unfolding find_case
find_case-FitsBuffer c [] default h d = d
find_case-FitsBuffer c ((from, out) ∷ cases) default h d =
    let rest = find_case-FitsBuffer c cases default (ground arith) d in ground arith

lower_special-FitsBuffer :
    (c : ℕ) (lang : List ℕ) (f : ForwardCasingContext) (l : LookaheadCasingContext)
    → FitsBuffer (lower_special c lang f l)
unfolding lower_special
lower_special-FitsBuffer c lang f l = ground arith

upper_special-FitsBuffer :
    (c : ℕ) (lang : List ℕ) (f : ForwardCasingContext) (l : LookaheadCasingContext)
    → FitsBuffer (upper_special c lang f l)
unfolding upper_special
upper_special-FitsBuffer c lang f l =
    let rest =
      find_case-FitsBuffer c upper_special_cases (to_upper_simple c ∷ []) refl
        (omega arith, omega arith) in
    ground arith

pub fold_special-FitsBuffer : (c : ℕ) (lang : List ℕ) → FitsBuffer (fold_special c lang)
unfolding fold_special
fold_special-FitsBuffer c lang =
    let rest =
      find_case-FitsBuffer c fold_special_cases (fold_simple c ∷ []) refl
        (omega arith, omega arith) in
    ground arith

-- The conversion of any code point, to upper or lower case, in any language and context, has one to
-- three code points, as many as the buffer `conv` takes.
pub convert-FitsBuffer :
    (is_upper : Bool) (c : ℕ) (lang : List ℕ) (f : ForwardCasingContext)
    (l : LookaheadCasingContext)
    → FitsBuffer (convert is_upper c lang f l)
unfolding convert
convert-FitsBuffer true = upper_special-FitsBuffer
convert-FitsBuffer false = lower_special-FitsBuffer
