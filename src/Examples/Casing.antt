-- ===== src/Examples/Casing.antt =====
-- Casing at concrete strings.
use libcxxext.Text.{equal}
use libcxxext.Char.{read_codepoint32, is_scalar, is_surrogate}
use libcxxext.Casing.Caseless.{IsKept, folded-as_cased}
use libcxxext.Casing.Idempotence.{conversions_idem}
use mathlib.Core.List.{map}
use libcxxext.Prelude.{true, false, ◌≡◌, ◌↔◌, refl, arith, All, [], ◌∷◌}
use libcxxext.Char.RoundTrip.{sanitized}
use libcxxext.Char.Encoding.{utf8, utf32}
use libcxxext.Codepoints.{view, collect, deref, next}
use libcxxext.Casing.{as_cased, folded, convert, lower_special, lang_tr, no_context}
use libcxxext.Casing.Tables.Cased.{is_cased}
use libcxxext.Casing.Contexts.{
  Reaches, not_ignorable, context_before, context_after, lower_special_iff,
}
use libcxxext.Casing.Outputs.{FitsBuffer, convert-FitsBuffer}
use libcxxext.Casing.Strings.{converted, view-as_cased}

-- Capital alpha and sigma, in lowercase.
view-as_cased_example :
    view utf8 (as_cased utf8 false [] (0xCE ∷ 0x91 ∷ 0xCE ∷ 0xA3 ∷ []))
    ≡ map sanitized (converted false [] [] (view utf8 (0xCE ∷ 0x91 ∷ 0xCE ∷ 0xA3 ∷ [])))
view-as_cased_example = view-as_cased utf8 false [] (0xCE ∷ 0x91 ∷ 0xCE ∷ 0xA3 ∷ [])

-- A sigma behind alpha and in front of a full stop.
lower_special_iff_example :
    (lower_special 0x03A3 [] (context_before (0x0391 ∷ [])) (context_after (0x002E ∷ []))
      ≡ 0x03C2 ∷ [])
    ↔ (Reaches is_cased not_ignorable (0x0391 ∷ [])
        × ¬ Reaches is_cased not_ignorable (0x002E ∷ []))
lower_special_iff_example = lower_special_iff [] (0x0391 ∷ []) (0x002E ∷ [])

-- The uppercase of sharp s.
convert-FitsBuffer_example : FitsBuffer (convert true 0x00DF lang_tr no_context (context_after []))
convert-FitsBuffer_example = convert-FitsBuffer true 0x00DF lang_tr no_context (context_after [])

-- Capital alpha and sigma, lowered twice and folded twice.
conversions_idem_example :
    (as_cased utf8 false [] (as_cased utf8 false [] (0xCE ∷ 0x91 ∷ 0xCE ∷ 0xA3 ∷ []))
      ≡ as_cased utf8 false [] (0xCE ∷ 0x91 ∷ 0xCE ∷ 0xA3 ∷ []))
    × (folded utf8 [] (folded utf8 [] (0xCE ∷ 0x91 ∷ 0xCE ∷ 0xA3 ∷ []))
        ≡ folded utf8 [] (0xCE ∷ 0x91 ∷ 0xCE ∷ 0xA3 ∷ []))
conversions_idem_example =
    conversions_idem utf8 false [] (0xCE ∷ 0x91 ∷ 0xCE ∷ 0xA3 ∷ []) (omega arith)

-- Sharp s and i are "SSI" in uppercase, and folded as that is.
folded-as_cased_example :
    folded utf32 [] (as_cased utf32 true [] (0x00DF ∷ 0x0069 ∷ []))
    ≡ folded utf32 [] (0x00DF ∷ 0x0069 ∷ [])
unfolding view collect deref next read_codepoint32 is_scalar is_surrogate equal
folded-as_cased_example =
    folded-as_cased utf32 true [] (0x00DF ∷ 0x0069 ∷ []) (refl, refl, refl) (omega arith) kept
  where
    kept : All (IsKept true) (view utf32 (0x00DF ∷ 0x0069 ∷ []))
    kept = (refl, (refl, tt))
