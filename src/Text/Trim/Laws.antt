-- ===== src/Text/Trim/Laws.antt =====
-- What the trimming methods of `sys::string` return.
use libcxxext.Prelude.{
  ℕ, zero, suc, ◌+◌, ◌-◌, ◌≤◌, ◌<◌, ◌&&◌, ◌≡◌, ◌≢◌, ap, ◌∙◌, sym, arith, List, ◌∷◌, Bool-cases, inl,
  inr,
}
use libcxxext.Prelude.{
  ◌==◌, if◌then◌else◌, length, take, drop, length-take, drop-take, drop-drop, drop-of_nil, leb_zero,
  lt→not_leb, ==_iff,
}
use native.Mathlib.Nat.{le_refl}
use libcxxext.Char.{CodepointData}
use libcxxext.Char.Encoding.{Encoding}
use libcxxext.Codepoints.{view}
use libcxxext.Codepoints.Views.{size_at, left_shorter}
use libcxxext.Text.{
  is_whitespace, first_non_ws_beg, last_ws_beg, trimmed, trim_start, trim_end, trim,
}
use libcxxext.Text.Trim.{
  Walk, done, step, Walk-below, start, start-cons, start-nil, cut, cut-nil, cut_more, cut_none,
  last_ws-cut, view-start, view-cut, left_length, drop_leading, drop_trailing,
}

self_sub : (n : ℕ) → n - n ≡ 0
self_sub n = omega arith

module _ (E : Encoding) where
  offset : ℕ → List ℕ → ℕ
  offset n us = length us - length (start E n us)

  start-le : (n : ℕ) {us : List ℕ} → Walk E us → length us ≤ n → length (start E n us) ≤ length us
  start-le n done h = rw (start-nil E n) (omega arith)
  start-le zero (step b rest w) h = elim h [ ]
  start-le (suc n) (step b rest w) h =
      let shorter = left_shorter E b rest in ground (arith, start-cons E n b rest, start-le n w)

  -- The units from the first code point that is no whitespace are the end of the buffer.
  start-drop :
      (n : ℕ) {us : List ℕ} → Walk E us → length us ≤ n → drop (offset n us) us ≡ start E n us
  unfolding offset
  start-drop n done h = rw (start-nil E n)
  start-drop zero (step b rest w) h = elim h [ ]
  start-drop (suc n) (step b rest w) h =
      let shorter = left_shorter E b rest in
      let left = drop (size_at E b rest) (b ∷ rest) in
      let le = start-le n w (omega arith) in
      let sizes = left_length E b rest in
      elim (Bool-cases (is_whitespace (E.read b rest).c)) [
        | inl ws ↦
            rw (start-cons E n b rest, ws)
              (ap (λ k. drop k (b ∷ rest)) (omega arith)
                ∙ sym (drop-drop (size_at E b rest) (offset n left) (b ∷ rest))
                ∙ start-drop n w (omega arith))
        | inr no_ws ↦ rw (start-cons E n b rest, no_ws, self_sub)
      ]

  start-take :
      (m b k j : ℕ) (rest : List ℕ)
      → size_at E b rest ≡ suc k
      → start E (suc m) (take (size_at E b rest + j) (b ∷ rest)) ≡ (
          if is_whitespace (E.read b rest).c
          then start E m (take j (drop (size_at E b rest) (b ∷ rest)))
          else take (size_at E b rest + j) (b ∷ rest))
  start-take m b k j rest e =
      let short : size_at E b rest + j ≡ suc (k + j) = omega arith in
      let same = E.prefix b (k + j) rest (omega arith) in
      let same_size : size_at E b (take (k + j) rest) ≡ suc k =
        ap (λ (d : CodepointData). d.size_bytes) same ∙ e in
      let same_c : (E.read b (take (k + j) rest)).c ≡ (E.read b rest).c =
        ap (λ (d : CodepointData). d.c) same in
      rw short
        (start-cons E m b (take (k + j) rest) ∙ rw (same_size, same_c, e, drop-take k j rest))

  -- The text before the trailing whitespace begins with the same whitespace.
  offset-take :
      (n m : ℕ) {us : List ℕ}
      → Walk E us
      → length us ≤ n
      → length us ≤ m
      → cut E n us ≢ 0
      → (offset m (take (cut E n us) us) ≡ offset n us) × (offset n us < cut E n us)
  unfolding offset
  offset-take n m done h k ne = absurd (ne (cut-nil E n))
  offset-take zero m (step b rest w) h k ne = elim h [ ]
  offset-take (suc n) zero (step b rest w) h k ne = elim k [ ]
  offset-take (suc n) (suc m) (step b rest w) h k ne =
      let shorter = left_shorter E b rest in
      let inside = E.in_bounds b rest in
      let left = drop (size_at E b rest) (b ∷ rest) in
      elim (Bool-cases (is_whitespace (E.read b rest).c && (cut E n left == 0))) [
        | inl stop ↦ absurd (ne (cut_none E n b rest stop))
        | inr go ↦ ground (
          arith,
          cut_more E n b rest go,
          start-cons E n b rest,
          start-take m b (size_at E b rest - 1) (cut E n left) rest (omega arith),
          offset-take n m w,
          start-le m (
              Walk-below E m (take (cut E n left) left)
                (omega (arith, length-take (cut E n left) left))),
          start-le n w,
          left_length E b rest,
          length-take (size_at E b rest + cut E n left) (b ∷ rest),
          length-take (cut E n left) left,
        )
      ]

  pub view-trim_start : (us : List ℕ) → view E (trim_start E us) ≡ drop_leading (view E us)
  unfolding trim_start first_non_ws_beg offset start
  view-trim_start us =
      let w = Walk-below E (length us) us (le_refl (length us)) in
      ap (view E) (start-drop (length us) w (le_refl (length us)))
      ∙ view-start E (length us) w (le_refl (length us))

  last_ws_beg-cut : (us : List ℕ) → last_ws_beg E us ≡ cut E (length us) us
  unfolding last_ws_beg
  last_ws_beg-cut us =
      let w = Walk-below E (length us) us (le_refl (length us)) in
      ground (arith, last_ws-cut E (length us) (length us) 0 w)

  pub view-trim_end : (us : List ℕ) → view E (trim_end E us) ≡ drop_trailing (view E us)
  unfolding trim_end
  view-trim_end us =
      let w = Walk-below E (length us) us (le_refl (length us)) in
      rw (last_ws_beg-cut us) (view-cut E (length us) w (le_refl (length us)))

  -- In every encoding and for every string, well formed or not, the code points of the string that
  -- `trim` leaves are those of the string less the leading and the trailing whitespace.
  pub view-trim : (us : List ℕ) → view E (trim E us) ≡ drop_leading (drop_trailing (view E us))
  unfolding trim
  view-trim us = view-trim_start (trim_end E us) ∙ ap drop_leading (view-trim_end us)

  start_enough :
      (n m : ℕ) {us : List ℕ}
      → Walk E us
      → length us ≤ n
      → length us ≤ m
      → start E n us ≡ start E m us
  start_enough n m done h k = rw (start-nil E n, start-nil E m)
  start_enough zero m (step b rest w) h k = elim h [ ]
  start_enough (suc n) zero (step b rest w) h k = elim k [ ]
  start_enough (suc n) (suc m) (step b rest w) h k =
      let shorter = left_shorter E b rest in
      rw (
        start-cons E n b rest,
        start-cons E m b rest,
        start_enough n m w (omega arith) (omega arith),
      )

  -- The offset of the first code point that is no whitespace, in the string and in its part.
  first_non_ws_beg-take :
      (us : List ℕ)
      → cut E (length us) us ≢ 0
      → (first_non_ws_beg E (take (cut E (length us) us) us) ≡ first_non_ws_beg E us)
        × (first_non_ws_beg E us < cut E (length us) us)
  unfolding first_non_ws_beg offset start
  first_non_ws_beg-take us ne =
      let n = length us in
      let part = take (cut E n us) us in
      let shorter : length part ≤ n = omega (arith, length-take (cut E n us) us) in
      let w = Walk-below E n us (le_refl n) in
      let moved = offset-take n n w (le_refl n) (le_refl n) ne in
      let same =
        start_enough (length part) n (Walk-below E n part shorter) (le_refl (length part))
          shorter in
      (ap (λ (r : List ℕ). length part - length r) same ∙ moved.0, moved.1)

  -- The copy that `trimmed` makes from its two offsets has the units that `trim` leaves in place,
  -- in every encoding and for every string.
  pub trimmed-eq-trim : (us : List ℕ) → trimmed E us ≡ trim E us
  unfolding trimmed trim trim_start trim_end
  trimmed-eq-trim us = elim (Bool-cases (cut E (length us) us == 0)) [
    | inl z ↦
        let none_left = (==_iff (cut E (length us) us) 0).0 z in
        rw (last_ws_beg-cut us, none_left, leb_zero (first_non_ws_beg E us)) (drop-of_nil _)
    | inr more ↦
        let ne : cut E (length us) us ≢ 0 = ground arith in
        let at = first_non_ws_beg-take us ne in
        let from = first_non_ws_beg E us in
        let to = cut E (length us) us in
        rw (last_ws_beg-cut us, at.0, lt→not_leb to from at.1)
          (sym (drop-take from (to - from) us) ∙ ap (λ k. drop from (take k us)) (omega arith))
  ]
