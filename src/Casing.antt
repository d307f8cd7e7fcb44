-- ===== src/Casing.antt =====
-- Casing of strings: `sys::string::as_cased` and `folded` (sys.Text/StringEx.h), over the generated
-- functions of sys.Text/data/UnicodeCasing.h. A buffer `out` that a function fills is the list of the
-- code points that it counts.
pub mod Lookup
pub mod Tables
pub mod Keys
pub mod Fixed
pub mod Contexts
pub mod Outputs
pub mod Strings
pub mod Idempotence
pub mod Caseless
use libcxxext.Prelude.{ℕ, Bool, true, false, not, ◌&&◌, ◌||◌, List, [], ◌∷◌, ◌++◌}
use libcxxext.Prelude.{◌==◌, if◌then◌else◌}
use libcxxext.Char.Encoding.{Encoding}
use libcxxext.Codepoints.{view, encode}
use libcxxext.Text.{equal}
use libcxxext.Casing.Lookup.{find_case}
use libcxxext.Casing.Tables.Cased.{is_cased}
use libcxxext.Casing.Tables.CaseIgnorable.{is_case_ignorable}
use libcxxext.Casing.Tables.SoftDotted.{is_soft_dotted}
use libcxxext.Casing.Tables.CombiningClass.{ccc, not_reordered, above}
use libcxxext.Casing.Tables.ToLower.{to_lower_simple}
use libcxxext.Casing.Tables.ToUpper.{to_upper_simple}
use libcxxext.Casing.Tables.Fold.{fold_simple}
use libcxxext.Casing.Tables.UpperSpecial.{upper_special_cases}
use libcxxext.Casing.Tables.FoldSpecial.{fold_special_cases}

pub record ForwardCasingContext : Type 0 where
  pub is_preceded_by_cased : Bool
  pub after_soft_dotted : Bool
  pub after_i : Bool

pub record LookaheadCasingContext : Type 0 where
  pub followed_by_cased : Bool
  pub more_above : Bool
  pub before_dot : Bool

abbrev pub no_context : ForwardCasingContext
no_context = record { is_preceded_by_cased = false; after_soft_dotted = false; after_i = false }

pub resets_combining : ℕ → Bool
resets_combining class = class == not_reordered || (class == above)

-- The locals of the loop of `lookahead_contexts_for_str`, which runs from the last code point to the
-- first, and the contexts it has stored.
pub record Lookahead : Type 0 where
  pub followed : Bool
  pub dot : Bool
  pub next_cp : ℕ
  pub stored : List LookaheadCasingContext

unfoldable pub lookahead_loop : List ℕ → Lookahead
unfolding resets_combining
lookahead_loop [] = record { followed = false; dot = false; next_cp = 0; stored = [] }
lookahead_loop (c ∷ cs) =
    let s = lookahead_loop cs in
    record {
      followed =
          if is_cased c then true else if not (is_case_ignorable c) then false else s.followed;
      dot = if c == 0x0307 then true else if resets_combining (ccc c) then false else s.dot;
      next_cp = c;
      stored =
          record {
            followed_by_cased = s.followed;
            more_above = not (s.next_cp == 0) && (ccc s.next_cp == above);
            before_dot = s.dot;
          }
          ∷ s.stored;
    }

pub lookahead_contexts_for_str : List ℕ → List LookaheadCasingContext
lookahead_contexts_for_str cs = (lookahead_loop cs).stored

pub update_fcontext_for_char : ForwardCasingContext → ℕ → ForwardCasingContext
update_fcontext_for_char ctx c = record {
  is_preceded_by_cased =
      if is_cased c
      then true
      else if not (is_case_ignorable c)
      then false
      else ctx.is_preceded_by_cased;
  after_soft_dotted =
      if is_soft_dotted c
      then true
      else if resets_combining (ccc c)
      then false
      else ctx.after_soft_dotted;
  after_i = if c == 0x0049 then true else if resets_combining (ccc c) then false else ctx.after_i;
}

-- The languages with rules of their own, in UTF-8.
abbrev pub lang_lt : List ℕ
lang_lt = 0x6C ∷ 0x74 ∷ []

abbrev pub lang_tr : List ℕ
lang_tr = 0x74 ∷ 0x72 ∷ []

abbrev pub lang_az : List ℕ
lang_az = 0x61 ∷ 0x7A ∷ []

pub lower_special : ℕ → List ℕ → ForwardCasingContext → LookaheadCasingContext → List ℕ
lower_special c lang fctx lctx =
    if c == 0x03A3 && fctx.is_preceded_by_cased && not lctx.followed_by_cased
    then 0x03C2 ∷ []
    else if c == 0x0049 && equal lang lang_lt && lctx.more_above
    then 0x0069 ∷ 0x0307 ∷ []
    else if c == 0x004A && equal lang lang_lt && lctx.more_above
    then 0x006A ∷ 0x0307 ∷ []
    else if c == 0x012E && equal lang lang_lt && lctx.more_above
    then 0x012F ∷ 0x0307 ∷ []
    else if c == 0x00CC && equal lang lang_lt
    then 0x0069 ∷ 0x0307 ∷ 0x0300 ∷ []
    else if c == 0x00CD && equal lang lang_lt
    then 0x0069 ∷ 0x0307 ∷ 0x0301 ∷ []
    else if c == 0x0128 && equal lang lang_lt
    then 0x0069 ∷ 0x0307 ∷ 0x0303 ∷ []
    else if c == 0x0130 && equal lang lang_tr
    then 0x0069 ∷ []
    else if c == 0x0130 && equal lang lang_az
    then 0x0069 ∷ []
    else if c == 0x0049 && equal lang lang_tr && not lctx.before_dot
    then 0x0131 ∷ []
    else if c == 0x0049 && equal lang lang_az && not lctx.before_dot
    then 0x0131 ∷ []
    else if c == 0x0130
    then 0x0069 ∷ 0x0307 ∷ []
    else to_lower_simple c ∷ []

pub upper_special : ℕ → List ℕ → ForwardCasingContext → LookaheadCasingContext → List ℕ
upper_special c lang fctx lctx =
    if c == 0x0069 && equal lang lang_tr
    then 0x0130 ∷ []
    else if c == 0x0069 && equal lang lang_az
    then 0x0130 ∷ []
    else find_case c upper_special_cases (to_upper_simple c ∷ [])

pub fold_special : ℕ → List ℕ → List ℕ
fold_special c lang =
    if c == 0x0049 && equal lang lang_tr
    then 0x0131 ∷ []
    else if c == 0x0049 && equal lang lang_az
    then 0x0131 ∷ []
    else if c == 0x0130 && equal lang lang_tr
    then 0x0069 ∷ []
    else if c == 0x0130 && equal lang lang_az
    then 0x0069 ∷ []
    else find_case c fold_special_cases (fold_simple c ∷ [])

pub convert : Bool → ℕ → List ℕ → ForwardCasingContext → LookaheadCasingContext → List ℕ
convert true = upper_special
convert false = lower_special

module _ (E : Encoding) where
  -- The second loop of `as_cased`; `lookaheads` has an element for each code point.
  unfoldable pub cased_loop :
      Bool → List ℕ → ForwardCasingContext → List ℕ → List LookaheadCasingContext → List ℕ
  cased_loop is_upper lang fctx [] lookaheads = []
  cased_loop is_upper lang fctx (c ∷ cs) [] = []
  cased_loop is_upper lang fctx (c ∷ cs) (lctx ∷ lctxs) =
      encode E (convert is_upper c lang fctx lctx)
      ++ cased_loop is_upper lang (update_fcontext_for_char fctx c) cs lctxs

  pub as_cased : Bool → List ℕ → List ℕ → List ℕ
  as_cased is_upper lang us =
      let codepoints = view E us in
      cased_loop is_upper lang no_context codepoints (lookahead_contexts_for_str codepoints)

  unfoldable pub fold_loop : List ℕ → List ℕ → List ℕ
  fold_loop lang [] = []
  fold_loop lang (c ∷ cs) = encode E (fold_special c lang) ++ fold_loop lang cs

  pub folded : List ℕ → List ℕ → List ℕ
  folded lang us = fold_loop lang (view E us)
