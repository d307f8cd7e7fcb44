-- ===== src/Casing/Caseless.antt =====
-- Case folding forgets case: strings that differ in case only are folded to the same string.
pub mod Checks
use mathlib.Core.List.{map}
use libcxxext.Prelude.{
  ℕ, ◌+◌, ◌<◌, Bool, true, false, not, ◌&&◌, ◌||◌, ◌≡◌, refl, ap, ◌∙◌, sym, arith, List, [], ◌∷◌,
  ◌++◌, ◌==◌, if◌then◌else◌, All, Bool-cases, inl, inr, append-nil, append_assoc,
}
use libcxxext.Char.{is_scalar}
use libcxxext.Char.RoundTrip.{sanitized}
use libcxxext.Char.Encoding.{Encoding}
use libcxxext.Codepoints.{view, encode}
use libcxxext.Codepoints.Views.{view-scalar, IsScalar, map-sanitized}
use libcxxext.Text.{equal}
use libcxxext.Casing.{
  ForwardCasingContext, LookaheadCasingContext, lower_special, upper_special, fold_special, convert,
  as_cased, folded, lang_tr, lang_az, lang_lt,
}
use libcxxext.Casing.Contexts.{context_before, context_after}
use libcxxext.Casing.Lookup.{in_runs, find_case}
use libcxxext.Text.Split.{equal-eq}
use libcxxext.Casing.Fixed.Special.{ConvertFixed-IsScalar}
use libcxxext.Casing.Strings.{converted, all_folded, view-as_cased, folded-encode}
use libcxxext.Casing.Idempotence.{converted-ConvertFixed}
use libcxxext.Casing.Caseless.Checks.{
  fold_table, upper_table, lower_table, fold_each, folds_as_upper, folds_as_lower,
  folds_as_upper_lem, folds_as_lower_lem,
}
use libcxxext.Casing.Tables.ToLower.{to_lower_simple}
use libcxxext.Casing.Tables.ToUpper.{to_upper_simple}
use libcxxext.Casing.Tables.Fold.{fold_simple}

-- A language with no casing rules of its own.
abbrev pub IsPlain : List ℕ → Type 0
IsPlain lang =
    (equal lang lang_tr ≡ false) × (equal lang lang_az ≡ false) × (equal lang lang_lt ≡ false)

-- Of the code points that are converted to uppercase, none is the dotless i.
abbrev pub IsKept : Bool → ℕ → Type 0
IsKept is_upper c = (is_upper && c == 0x0131) ≡ false

fold_each-append : (cs ds : List ℕ) → fold_each (cs ++ ds) ≡ fold_each cs ++ fold_each ds
fold_each-append [] ds = refl
fold_each-append (c ∷ cs) ds = rw (fold_each-append cs ds, append_assoc) refl

fold_special_plain : (lang : List ℕ) (c : ℕ) → IsPlain lang → fold_special c lang ≡ fold_table c
unfolding fold_special fold_simple fold_table
fold_special_plain lang c (tr, az, lt) = rw (tr, az) (ground arith)

all_folded-fold_each : (lang cs : List ℕ) → IsPlain lang → all_folded lang cs ≡ fold_each cs
all_folded-fold_each lang [] h = refl
all_folded-fold_each lang (c ∷ cs) h =
    rw (fold_special_plain lang c h, all_folded-fold_each lang cs h) refl

upper_special_plain :
    (c : ℕ) (lang : List ℕ) (f : ForwardCasingContext) (l : LookaheadCasingContext)
    → IsPlain lang
    → upper_special c lang f l ≡ upper_table c
unfolding upper_special to_upper_simple upper_table
upper_special_plain c lang f l (tr, az, lt) = rw (tr, az) (ground arith)

lower_special_plain :
    (c : ℕ) (lang : List ℕ) (f : ForwardCasingContext) (l : LookaheadCasingContext)
    → IsPlain lang
    → lower_special c lang f l ≡ (
        if c == 0x03A3 && f.is_preceded_by_cased && not l.followed_by_cased
        then 0x03C2 ∷ []
        else if c == 0x0130
        then 0x0069 ∷ 0x0307 ∷ []
        else lower_table c)
unfolding lower_special to_lower_simple lower_table find_case
lower_special_plain c lang f l (tr, az, lt) = rw (tr, az, lt) (ground arith)

fold_each-unchanged : (ds : List ℕ) (c : ℕ) → ds ≡ c ∷ [] → fold_each ds ≡ fold_table c
fold_each-unchanged ds c h = rw h (append-nil (fold_table c))

fold_each-upper : (c : ℕ) → c == 0x0131 ≡ false → fold_each (upper_table c) ≡ fold_table c
fold_each-upper c h = elim (folds_as_upper_lem c) [
  | inl tested ↦ equal-eq (fold_each (upper_table c)) (fold_table c) (ground arith)
  | inr same ↦ fold_each-unchanged (upper_table c) c same
]

fold_each-lower : (c : ℕ) → c == 0x0130 ≡ false → fold_each (lower_table c) ≡ fold_table c
fold_each-lower c h = elim (folds_as_lower_lem c) [
  | inl tested ↦ equal-eq (fold_each (lower_table c)) (fold_table c) (ground arith)
  | inr same ↦ fold_each-unchanged (lower_table c) c same
]

sigma : fold_each (0x03C2 ∷ []) ≡ fold_table 0x03A3
unfolding find_case in_runs fold_table
sigma = refl

dotted : fold_each (0x0069 ∷ 0x0307 ∷ []) ≡ fold_table 0x0130
unfolding find_case in_runs fold_table
dotted = refl

fold_each-lower_special :
    (c : ℕ) (lang : List ℕ) (f : ForwardCasingContext) (l : LookaheadCasingContext)
    → IsPlain lang
    → fold_each (lower_special c lang f l) ≡ fold_table c
fold_each-lower_special c lang f l plain =
    rw (lower_special_plain c lang f l plain)
      (elim (Bool-cases (c == 0x03A3 && f.is_preceded_by_cased && not l.followed_by_cased)) [
        | inl final ↦ let here : c ≡ 0x03A3 = ground arith in rw (final, here) sigma
        | inr other ↦ elim (Bool-cases (c == 0x0130)) [
          | inl dot ↦ let here : c ≡ 0x0130 = ground arith in rw (other, dot, here) dotted
          | inr plain_c ↦ rw (other, plain_c) (fold_each-lower c plain_c)
        ]
      ])

fold_each-convert :
    (is_upper : Bool) (c : ℕ) (lang : List ℕ) (f : ForwardCasingContext)
    (l : LookaheadCasingContext)
    → IsPlain lang
    → IsKept is_upper c
    → fold_each (convert is_upper c lang f l) ≡ fold_table c
unfolding convert
fold_each-convert true c lang f l plain h =
    ap fold_each (upper_special_plain c lang f l plain) ∙ fold_each-upper c h
fold_each-convert false c lang f l plain h = fold_each-lower_special c lang f l plain

fold_each-converted :
    (is_upper : Bool) (lang before cs : List ℕ)
    → IsPlain lang
    → All (IsKept is_upper) cs
    → fold_each (converted is_upper lang before cs) ≡ fold_each cs
fold_each-converted b lang before [] plain h = refl
fold_each-converted b lang before (c ∷ cs) plain h =
    rw
      (
        fold_each-append,
        fold_each-convert b c lang (context_before before) (context_after cs) plain h.0,
        fold_each-converted b lang (c ∷ before) cs plain h.1,
      )
      refl

-- A string of units of the character type folds to the same string as its lowercase does, and as
-- its uppercase does when it has no dotless i (U+0131), if the language is none of `tr`, `az` and
-- `lt`.
pub folded-as_cased :
    (E : Encoding) (is_upper : Bool) (lang us : List ℕ)
    → IsPlain lang
    → All (λ u. u < E.unit_bound) us
    → All (IsKept is_upper) (view E us)
    → folded E lang (as_cased E is_upper lang us) ≡ folded E lang us
folded-as_cased E b lang us plain h kept =
    let cs = view E us in
    let ds = converted b lang [] cs in
    let fixed = converted-ConvertFixed b lang [] cs (view-scalar E us h) in
    let seen : view E (as_cased E b lang us) ≡ ds =
      view-as_cased E b lang us ∙ map-sanitized ds (ConvertFixed-IsScalar b ds fixed) in
    folded-encode E lang (as_cased E b lang us)
    ∙ ap (λ x. encode E (all_folded lang x)) seen
    ∙ ap (encode E) (
        all_folded-fold_each lang ds plain
        ∙ fold_each-converted b lang [] cs plain kept
        ∙ sym (all_folded-fold_each lang cs plain))
    ∙ sym (folded-encode E lang us)
