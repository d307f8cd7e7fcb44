-- ===== src/Casing/Strings.antt =====
-- Casing a whole string: the single pass of `string::as_cased` and `folded` against a conversion of
-- each code point by what stands around it.
use mathlib.Core.List.{map}
use libcxxext.Prelude.{ℕ, Bool, ◌≡◌, refl, List, [], ◌∷◌, ◌++◌, append_assoc}
use libcxxext.Char.RoundTrip.{sanitized}
use libcxxext.Char.Encoding.{Encoding}
use libcxxext.Codepoints.{view, encode}
use libcxxext.Codepoints.Views.{view_encoded}
use libcxxext.Casing.{convert, fold_special, cased_loop, as_cased, fold_loop, folded}
use libcxxext.Casing.Contexts.{context_before, context_after, contexts_after}
use libcxxext.Casing.Contexts.{
  lookahead_contexts_for_str-contexts_after, update_fcontext_for_char-context_before,
  no_context-context_before,
}

-- Each code point converted with the code points in front of it, nearest first, and those behind it.
abbrev pub converted : Bool → List ℕ → List ℕ → List ℕ → List ℕ
converted is_upper lang before [] = []
converted is_upper lang before (c ∷ after) =
    convert is_upper c lang (context_before before) (context_after after)
    ++ converted is_upper lang (c ∷ before) after

abbrev pub all_folded : List ℕ → List ℕ → List ℕ
all_folded lang [] = []
all_folded lang (c ∷ cs) = fold_special c lang ++ all_folded lang cs

module _ (E : Encoding) where
  encode-append : (cs ds : List ℕ) → encode E (cs ++ ds) ≡ encode E cs ++ encode E ds
  unfolding encode
  encode-append [] ds = refl
  encode-append (c ∷ cs) ds = rw (encode-append cs ds, append_assoc) refl

  cased_loop-converted :
      (is_upper : Bool) (lang before cs : List ℕ)
      → cased_loop E is_upper lang (context_before before) cs (contexts_after cs)
        ≡ encode E (converted is_upper lang before cs)
  unfolding cased_loop encode
  cased_loop-converted is_upper lang before [] = refl
  cased_loop-converted is_upper lang before (c ∷ cs) =
      rw
        (
          update_fcontext_for_char-context_before c before,
          cased_loop-converted is_upper lang (c ∷ before) cs,
          encode-append,
        )
        refl

  fold_loop-encode : (lang cs : List ℕ) → fold_loop E lang cs ≡ encode E (all_folded lang cs)
  unfolding fold_loop encode
  fold_loop-encode lang [] = refl
  fold_loop-encode lang (c ∷ cs) = rw (fold_loop-encode lang cs, encode-append) refl

  pub as_cased-encode :
      (is_upper : Bool) (lang us : List ℕ)
      → as_cased E is_upper lang us ≡ encode E (converted is_upper lang [] (view E us))
  unfolding as_cased
  as_cased-encode is_upper lang us =
      rw
        (
          no_context-context_before,
          lookahead_contexts_for_str-contexts_after (view E us),
          cased_loop-converted,
        )
        refl

  pub folded-encode : (lang us : List ℕ) → folded E lang us ≡ encode E (all_folded lang (view E us))
  unfolding folded
  folded-encode lang us = fold_loop-encode lang (view E us)

  -- In every encoding, the code points of what `as_cased` makes of a string are those that each of
  -- its code points is converted to, with the contexts that a search in the code points in front of
  -- it and behind it gives, and U+FFFD for what is no scalar value.
  pub view-as_cased :
      (is_upper : Bool) (lang us : List ℕ)
      → view E (as_cased E is_upper lang us)
        ≡ map sanitized (converted is_upper lang [] (view E us))
  view-as_cased is_upper lang us =
      rw as_cased-encode (view_encoded E (converted is_upper lang [] (view E us)))

  pub view-folded :
      (lang us : List ℕ) → view E (folded E lang us) ≡ map sanitized (all_folded lang (view E us))
  view-folded lang us = rw folded-encode (view_encoded E (all_folded lang (view E us)))
