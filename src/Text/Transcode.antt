-- ===== src/Text/Transcode.antt =====
-- Transcoding and the replacement of ill-formed units.
use libcxxext.Prelude.{ℕ, ◌≡◌, ap, ◌∙◌, List}
use libcxxext.Char.Encoding.{Encoding}
use libcxxext.Codepoints.{view, encode}
use libcxxext.Codepoints.Views.{view_encoded, encode-sanitized}
use libcxxext.Text.{invalids_replaced, transcoded}

module _ (E : Encoding) where
  pub invalids_replaced-encode : (cs : List ℕ) → invalids_replaced E (encode E cs) ≡ encode E cs
  unfolding invalids_replaced
  invalids_replaced-encode cs = ap (encode E) (view_encoded E cs) ∙ encode-sanitized E cs

  -- Replacing the invalid code points of a string a second time changes nothing, in every encoding.
  pub invalids_replaced_idem :
      (us : List ℕ) → invalids_replaced E (invalids_replaced E us) ≡ invalids_replaced E us
  unfolding invalids_replaced
  invalids_replaced_idem us = invalids_replaced-encode (view E us)

-- Transcoding a string to any other encoding and back gives what `invalids_replaced` makes of it.
pub transcoded-transcoded :
    (E F : Encoding) (us : List ℕ) → transcoded E F (transcoded F E us) ≡ invalids_replaced E us
unfolding transcoded invalids_replaced
transcoded-transcoded E F us =
    ap (encode E) (view_encoded F (view E us)) ∙ encode-sanitized E (view E us)
