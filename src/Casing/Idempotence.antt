-- ===== src/Casing/Idempotence.antt =====
-- A second conversion of the same kind changes nothing, in a whole string.
use libcxxext.Casing.Fixed.Special.{
  ConvertFixed, convert-fixed, convert-ConvertFixed, ConvertFixed-IsScalar, fold_special-fixed,
  fold_special-FoldFixed, FoldFixed-IsScalar,
}
use libcxxext.Codepoints.Views.{IsScalar, map-sanitized}
use libcxxext.Prelude.{ℕ, ◌<◌, Bool, ◌≡◌, refl, ap, ◌∙◌, sym, List, [], ◌∷◌, All, All-append}
use libcxxext.Char.Encoding.{Encoding}
use libcxxext.Codepoints.{view, encode}
use libcxxext.Codepoints.Views.{view-scalar}
use libcxxext.Casing.{fold_special, convert, as_cased, folded}
use libcxxext.Casing.Contexts.{context_before, context_after}
use libcxxext.Casing.Fixed.Checks.{FoldFixed}
use libcxxext.Casing.Strings.{
  converted, all_folded, view-as_cased, view-folded, as_cased-encode, folded-encode,
}

pub converted-ConvertFixed :
    (is_upper : Bool) (lang before cs : List ℕ)
    → All IsScalar cs
    → All (ConvertFixed is_upper) (converted is_upper lang before cs)
converted-ConvertFixed b lang before [] h = tt
converted-ConvertFixed b lang before (c ∷ cs) h =
    All-append (ConvertFixed b) (convert b c lang (context_before before) (context_after cs))
      (converted b lang (c ∷ before) cs)
      (convert-ConvertFixed b c lang (context_before before) (context_after cs) h.0)
      (converted-ConvertFixed b lang (c ∷ before) cs h.1)

converted_fixed :
    (is_upper : Bool) (lang before ds : List ℕ)
    → All (ConvertFixed is_upper) ds
    → converted is_upper lang before ds ≡ ds
converted_fixed b lang before [] h = refl
converted_fixed b lang before (d ∷ ds) h =
    rw (convert-fixed b d lang (context_before before) (context_after ds) h.0)
      (ap (λ l. d ∷ l) (converted_fixed b lang (d ∷ before) ds h.1))

all_folded-FoldFixed : (lang cs : List ℕ) → All IsScalar cs → All FoldFixed (all_folded lang cs)
all_folded-FoldFixed lang [] h = tt
all_folded-FoldFixed lang (c ∷ cs) h =
    All-append FoldFixed (fold_special c lang) (all_folded lang cs)
      (fold_special-FoldFixed c lang h.0) (all_folded-FoldFixed lang cs h.1)

all_folded_fixed : (lang ds : List ℕ) → All FoldFixed ds → all_folded lang ds ≡ ds
all_folded_fixed lang [] h = refl
all_folded_fixed lang (d ∷ ds) h =
    rw (fold_special-fixed d lang h.0) (ap (λ l. d ∷ l) (all_folded_fixed lang ds h.1))

module _ (E : Encoding) where
  as_cased_idem :
      (is_upper : Bool) (lang us : List ℕ)
      → All (λ u. u < E.unit_bound) us
      → as_cased E is_upper lang (as_cased E is_upper lang us) ≡ as_cased E is_upper lang us
  as_cased_idem b lang us h =
      let cs = view E us in
      let ds = converted b lang [] cs in
      let fixed = converted-ConvertFixed b lang [] cs (view-scalar E us h) in
      let seen : view E (as_cased E b lang us) ≡ ds =
        view-as_cased E b lang us ∙ map-sanitized ds (ConvertFixed-IsScalar b ds fixed) in
      as_cased-encode E b lang (as_cased E b lang us)
      ∙ ap (λ x. encode E (converted b lang [] x)) seen
      ∙ ap (encode E) (converted_fixed b lang [] ds fixed)
      ∙ sym (as_cased-encode E b lang us)

  folded_idem :
      (lang us : List ℕ)
      → All (λ u. u < E.unit_bound) us
      → folded E lang (folded E lang us) ≡ folded E lang us
  folded_idem lang us h =
      let cs = view E us in
      let ds = all_folded lang cs in
      let fixed = all_folded-FoldFixed lang cs (view-scalar E us h) in
      let seen : view E (folded E lang us) ≡ ds =
        view-folded E lang us ∙ map-sanitized ds (FoldFixed-IsScalar ds fixed) in
      folded-encode E lang (folded E lang us)
      ∙ ap (λ x. encode E (all_folded lang x)) seen
      ∙ ap (encode E) (all_folded_fixed lang ds fixed)
      ∙ sym (folded-encode E lang us)

  -- Casing a string of units of the character type in either direction, and folding it, in any
  -- language and whether the string is well formed or not, gives the same string again when it is
  -- done twice.
  pub conversions_idem :
      (is_upper : Bool) (lang us : List ℕ)
      → All (λ u. u < E.unit_bound) us
      → (as_cased E is_upper lang (as_cased E is_upper lang us) ≡ as_cased E is_upper lang us)
        × (folded E lang (folded E lang us) ≡ folded E lang us)
  conversions_idem b lang us h = (as_cased_idem b lang us h, folded_idem lang us h)
