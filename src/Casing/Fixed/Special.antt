-- ===== src/Casing/Fixed/Special.antt =====
-- `lower_special`, `upper_special` and `fold_special` (sys.Text/data/UnicodeCasing.h) give, in every
-- language and context, only code points that they leave alone.
use libcxxext.Codepoints.Views.{IsScalar}
use libcxxext.Prelude.{
  ℕ, Bool, true, false, ◌&&◌, ◌≡◌, refl, arith, List, [], ◌∷◌, ◌==◌, All, Bool-cases, inl, inr,
}
use libcxxext.Char.{is_scalar}
use libcxxext.Text.{equal, member}
use libcxxext.Casing.{
  ForwardCasingContext, LookaheadCasingContext, lower_special, upper_special, fold_special, convert,
  lang_tr, lang_az,
}
use libcxxext.Casing.Lookup.{in_runs, find_case}
use libcxxext.Casing.Fixed.{all-IsFixed}
use libcxxext.Casing.Fixed.Checks.{
  lower_reserved, fold_reserved, LowerFixed, UpperFixed, FoldFixed, upper_table-UpperFixed,
  fold_table-FoldFixed, lower_table-LowerFixed,
}
use libcxxext.Casing.Tables.ToLower.{to_lower_simple, to_lower_simple_runs}
use libcxxext.Casing.Tables.ToUpper.{to_upper_simple}
use libcxxext.Casing.Tables.Fold.{fold_simple, fold_simple_runs}
use libcxxext.Casing.Tables.FoldSpecial.{fold_special_cases}

-- Conversions of a code point that the tables leave alone.
lower_special-fixed :
    (d : ℕ) (lang : List ℕ) (f : ForwardCasingContext) (l : LookaheadCasingContext)
    → LowerFixed d
    → lower_special d lang f l ≡ d ∷ []
unfolding lower_special member to_lower_simple find_case
lower_special-fixed d lang f l h = ground arith

upper_special-fixed :
    (d : ℕ) (lang : List ℕ) (f : ForwardCasingContext) (l : LookaheadCasingContext)
    → UpperFixed d
    → upper_special d lang f l ≡ d ∷ []
unfolding upper_special member to_upper_simple
upper_special-fixed d lang f l h = ground arith

pub fold_special-fixed : (d : ℕ) (lang : List ℕ) → FoldFixed d → fold_special d lang ≡ d ∷ []
unfolding fold_special member fold_simple
fold_special-fixed d lang h = ground arith

-- The results of the rules of `lower_special`.
abbrev lower_outputs : List ℕ
lower_outputs = 0x03C2 ∷ 0x0069 ∷ 0x0307 ∷ 0x006A ∷ 0x012F ∷ 0x0300 ∷ 0x0301 ∷ 0x0303 ∷ 0x0131 ∷ []

lower_known : All LowerFixed lower_outputs
unfolding find_case in_runs equal member is_scalar
lower_known = all-IsFixed lower_reserved [] to_lower_simple_runs lower_outputs refl

lower_special-LowerFixed :
    (c : ℕ) (lang : List ℕ) (f : ForwardCasingContext) (l : LookaheadCasingContext)
    → is_scalar c ≡ true
    → All LowerFixed (lower_special c lang f l)
unfolding lower_special to_lower_simple find_case
lower_special-LowerFixed c lang f l h =
    let known = lower_known in let rest = lower_table-LowerFixed c h in ground arith

upper_special-UpperFixed :
    (c : ℕ) (lang : List ℕ) (f : ForwardCasingContext) (l : LookaheadCasingContext)
    → is_scalar c ≡ true
    → All UpperFixed (upper_special c lang f l)
unfolding upper_special to_upper_simple find_case in_runs member is_scalar
upper_special-UpperFixed c lang f l h =
    let known : UpperFixed 0x0130 = (refl, refl, refl) in
    let rest = upper_table-UpperFixed c h in
    elim (Bool-cases (c == 0x0069 && equal lang lang_tr)) [
      | inl e ↦ rw e (known, tt)
      | inr e ↦ elim (Bool-cases (c == 0x0069 && equal lang lang_az)) [
        | inl a ↦ rw (e, a) (known, tt)
        | inr a ↦ rw (e, a) rest
      ]
    ]

fold_known : All FoldFixed (0x0131 ∷ 0x0069 ∷ [])
unfolding find_case in_runs equal member is_scalar
fold_known =
    all-IsFixed fold_reserved fold_special_cases fold_simple_runs (0x0131 ∷ 0x0069 ∷ []) refl

pub fold_special-FoldFixed :
    (c : ℕ) (lang : List ℕ) → is_scalar c ≡ true → All FoldFixed (fold_special c lang)
unfolding fold_special fold_simple
fold_special-FoldFixed c lang h =
    let known = fold_known in let rest = fold_table-FoldFixed c h in ground arith

abbrev pub ConvertFixed : Bool → ℕ → Type 0
ConvertFixed true = UpperFixed
ConvertFixed false = LowerFixed

pub convert-fixed :
    (is_upper : Bool) (d : ℕ) (lang : List ℕ) (f : ForwardCasingContext)
    (l : LookaheadCasingContext)
    → ConvertFixed is_upper d
    → convert is_upper d lang f l ≡ d ∷ []
unfolding convert
convert-fixed true = upper_special-fixed
convert-fixed false = lower_special-fixed

pub convert-ConvertFixed :
    (is_upper : Bool) (c : ℕ) (lang : List ℕ) (f : ForwardCasingContext)
    (l : LookaheadCasingContext)
    → is_scalar c ≡ true
    → All (ConvertFixed is_upper) (convert is_upper c lang f l)
unfolding convert
convert-ConvertFixed true = upper_special-UpperFixed
convert-ConvertFixed false = lower_special-LowerFixed

pub ConvertFixed-IsScalar :
    (is_upper : Bool) (ds : List ℕ) → All (ConvertFixed is_upper) ds → All IsScalar ds
ConvertFixed-IsScalar b [] h = tt
ConvertFixed-IsScalar true (d ∷ ds) h = (h.0.2, ConvertFixed-IsScalar true ds h.1)
ConvertFixed-IsScalar false (d ∷ ds) h = (h.0.2, ConvertFixed-IsScalar false ds h.1)

pub FoldFixed-IsScalar : (ds : List ℕ) → All FoldFixed ds → All IsScalar ds
FoldFixed-IsScalar [] h = tt
FoldFixed-IsScalar (d ∷ ds) h = (h.0.2, FoldFixed-IsScalar ds h.1)
