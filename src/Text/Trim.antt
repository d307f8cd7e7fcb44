-- ===== src/Text/Trim.antt =====
-- Trimming, in terms of the code points of the string: the loops of `first_non_ws_beg` and
-- `last_ws_beg` (sys.Text/StringEx.h).
pub mod Laws
use libcxxext.Prelude.{
  ℕ, zero, suc, ◌+◌, ◌-◌, ◌≤◌, ◌<◌, Bool, true, false, not, ◌&&◌, ◌||◌, ◌≡◌, ◌≢◌, refl, ap, ap₂,
  ◌∙◌, sym, arith, List, [], ◌∷◌, ◌++◌, Bool-cases, inl, inr,
}
use libcxxext.Prelude.{ltb, leb, ◌==◌, if◌then◌else◌, length, take, drop, length-drop, drop-take}
use libcxxext.Char.{CodepointData}
use libcxxext.Char.Encoding.{Encoding}
use libcxxext.Codepoints.{CodepointIter, iter_at, deref, next, view}
use libcxxext.Codepoints.Views.{
  size_at, view-cons, view-nil, left_shorter, deref_lem, deref-left, next-deref,
}
use libcxxext.Text.{
  is_whitespace, skip_ws, from_non_ws, last_ws, first_non_ws_beg, last_ws_beg, trimmed, trim_start,
  trim_end, trim,
}

-- The specification, on code points.
abbrev pub drop_leading : List ℕ → List ℕ
drop_leading [] = []
drop_leading (c ∷ cs) = if is_whitespace c then drop_leading cs else c ∷ cs

abbrev pub drop_trailing : List ℕ → List ℕ
drop_trailing [] = []
drop_trailing (c ∷ cs) =
    let rest = drop_trailing cs in if is_whitespace c && (length rest == 0) then [] else c ∷ rest

module _ (E : Encoding) where
  -- A buffer, cut at its code points.
  pub data Walk : List ℕ → Type 0 where
    done : Walk []
    step : (b : ℕ) (rest : List ℕ) → Walk (drop (size_at E b rest) (b ∷ rest)) → Walk (b ∷ rest)

  pub Walk-below : (n : ℕ) (us : List ℕ) → length us ≤ n → Walk us
  Walk-below n [] h = done
  Walk-below zero (b ∷ rest) h = elim h [ ]
  Walk-below (suc n) (b ∷ rest) h =
      let shorter = left_shorter E b rest in
      step b rest (Walk-below n (drop (size_at E b rest) (b ∷ rest)) (omega arith))

  skip_ws-cons :
      (n b : ℕ) (rest : List ℕ)
      → (skip_ws E (suc n) (iter_at (b ∷ rest))).left ≡ (
          if is_whitespace (E.read b rest).c
          then (skip_ws E n (iter_at (drop (size_at E b rest) (b ∷ rest)))).left
          else b ∷ rest)
  unfolding skip_ws
  skip_ws-cons n b rest =
      ground (arith, next-deref E b rest, deref_lem E b rest, deref-left E b rest)

  last_ws-cons :
      (n size ret b : ℕ) (rest : List ℕ)
      → last_ws E (suc n) size ret (iter_at (b ∷ rest))
        ≡ last_ws E n size
            (if is_whitespace (E.read b rest).c
              then ret
              else size - length (drop (size_at E b rest) (b ∷ rest)))
            (iter_at (drop (size_at E b rest) (b ∷ rest)))
  unfolding last_ws
  last_ws-cons n size ret b rest = ground (arith, next-deref E b rest, deref_lem E b rest)

  pub start : ℕ → List ℕ → List ℕ
  start n us = (skip_ws E n (iter_at us)).left

  pub start-cons :
      (n b : ℕ) (rest : List ℕ)
      → start (suc n) (b ∷ rest) ≡ (
          if is_whitespace (E.read b rest).c
          then start n (drop (size_at E b rest) (b ∷ rest))
          else b ∷ rest)
  unfolding start
  start-cons n b rest = skip_ws-cons n b rest

  pub start-nil : (n : ℕ) → start n [] ≡ []
  unfolding start skip_ws
  start-nil zero = refl
  start-nil (suc n) = refl

  -- Where the trailing whitespace begins: 0 if there is nothing else.
  pub cut : ℕ → List ℕ → ℕ
  cut zero us = 0
  cut (suc n) [] = 0
  cut (suc n) (b ∷ rest) =
      let later = cut n (drop (size_at E b rest) (b ∷ rest)) in
      if later == 0
      then (if is_whitespace (E.read b rest).c then 0 else size_at E b rest)
      else size_at E b rest + later

  cut-cons :
      (n b : ℕ) (rest : List ℕ)
      → cut (suc n) (b ∷ rest) ≡ (
          if cut n (drop (size_at E b rest) (b ∷ rest)) == 0
          then (if is_whitespace (E.read b rest).c then 0 else size_at E b rest)
          else size_at E b rest + cut n (drop (size_at E b rest) (b ∷ rest)))
  unfolding cut
  cut-cons n b rest = refl

  pub cut-nil : (n : ℕ) → cut n [] ≡ 0
  unfolding cut
  cut-nil zero = refl
  cut-nil (suc n) = refl

  last_ws-nil : (n size ret : ℕ) → last_ws E n size ret (iter_at []) ≡ ret
  unfolding last_ws
  last_ws-nil zero size ret = refl
  last_ws-nil (suc n) size ret = refl

  pub left_length :
      (b : ℕ) (rest : List ℕ)
      → size_at E b rest + length (drop (size_at E b rest) (b ∷ rest)) ≡ length (b ∷ rest)
  left_length b rest = omega (arith, E.in_bounds b rest, length-drop (size_at E b rest) (b ∷ rest))

  -- The offset that the loop of `last_ws_beg` returns.
  pub last_ws-cut :
      (n size ret : ℕ) {us : List ℕ}
      → Walk us
      → length us ≤ n
      → length us ≤ size
      → last_ws E n size ret (iter_at us)
        ≡ (if cut n us == 0 then ret else size - length us + cut n us)
  last_ws-cut n size ret done h k = rw (last_ws-nil n size ret, cut-nil n)
  last_ws-cut zero size ret (step b rest w) h k = elim h [ ]
  last_ws-cut (suc n) size ret (step b rest w) h k =
      let left = drop (size_at E b rest) (b ∷ rest) in
      let sizes = left_length b rest in
      let inside = E.in_bounds b rest in
      ground (
        arith,
        last_ws-cons n size ret b rest,
        cut-cons n b rest,
        last_ws-cut n size ret w,
        last_ws-cut n size (size - length left) w,
      )

  pub view-start :
      (n : ℕ) {us : List ℕ}
      → Walk us
      → length us ≤ n
      → view E (start n us) ≡ drop_leading (view E us)
  view-start n done h = rw (start-nil n, view-nil E)
  view-start zero (step b rest w) h = elim h [ ]
  view-start (suc n) (step b rest w) h =
      let shorter = left_shorter E b rest in
      elim (Bool-cases (is_whitespace (E.read b rest).c)) [
        | inl ws ↦ rw (start-cons n b rest, view-cons E b rest, ws) (view-start n w (omega arith))
        | inr no_ws ↦ rw (start-cons n b rest, view-cons E b rest, no_ws) (view-cons E b rest)
      ]

  view_of_empty : (us : List ℕ) → length us ≡ 0 → view E us ≡ []
  view_of_empty [] h = view-nil E
  view_of_empty (b ∷ rest) h = absurd (omega arith)

  -- A buffer that is cut behind its first code point or later begins with that code point.
  take-first :
      (b k j : ℕ) (rest : List ℕ)
      → size_at E b rest ≡ suc k
      → view E (take (size_at E b rest + j) (b ∷ rest))
        ≡ (E.read b rest).c ∷ view E (take j (drop (size_at E b rest) (b ∷ rest)))
  take-first b k j rest e =
      let short : size_at E b rest + j ≡ suc (k + j) = omega arith in
      let same = E.prefix b (k + j) rest (omega arith) in
      let same_size : size_at E b (take (k + j) rest) ≡ suc k =
        ap (λ (d : CodepointData). d.size_bytes) same ∙ e in
      let same_c : (E.read b (take (k + j) rest)).c ≡ (E.read b rest).c =
        ap (λ (d : CodepointData). d.c) same in
      rw short (
        view-cons E b (take (k + j) rest)
        ∙ rw (same_size, same_c, e) (ap (λ us. (E.read b rest).c ∷ view E us) (drop-take k j rest)))

  cut-zero :
      (n : ℕ) {us : List ℕ}
      → Walk us
      → length us ≤ n
      → (cut n us == 0) ≡ (length (drop_trailing (view E us)) == 0)
  cut-zero n done h = rw (cut-nil n, view-nil E)
  cut-zero zero (step b rest w) h = elim h [ ]
  cut-zero (suc n) (step b rest w) h =
      let shorter = left_shorter E b rest in
      let inside = E.in_bounds b rest in
      rw (view-cons E b rest) (ground (arith, cut-cons n b rest, cut-zero n w))

  -- Unless nothing but whitespace is left, the first code point stays.
  pub cut_more :
      (n b : ℕ) (rest : List ℕ)
      → let left = drop (size_at E b rest) (b ∷ rest) in
        (is_whitespace (E.read b rest).c && (cut n left == 0)) ≡ false
        → cut (suc n) (b ∷ rest) ≡ size_at E b rest + cut n left
  cut_more n b rest h = ground (arith, cut-cons n b rest)

  pub cut_none :
      (n b : ℕ) (rest : List ℕ)
      → let left = drop (size_at E b rest) (b ∷ rest) in
        (is_whitespace (E.read b rest).c && (cut n left == 0)) ≡ true → cut (suc n) (b ∷ rest) ≡ 0
  cut_none n b rest h = ground (arith, cut-cons n b rest)

  pub view-cut :
      (n : ℕ) {us : List ℕ}
      → Walk us
      → length us ≤ n
      → view E (take (cut n us) us) ≡ drop_trailing (view E us)
  view-cut n done h = rw (cut-nil n, view-nil E)
  view-cut zero (step b rest w) h = elim h [ ]
  view-cut (suc n) (step b rest w) h =
      let shorter = left_shorter E b rest in
      let inside = E.in_bounds b rest in
      let left = drop (size_at E b rest) (b ∷ rest) in
      let zeros = cut-zero n w (omega arith) in
      elim (Bool-cases (is_whitespace (E.read b rest).c && (cut n left == 0))) [
        | inl stop ↦ rw (cut_none n b rest stop, view-cons E b rest, ← zeros, stop, view-nil E)
        | inr go ↦
            rw (cut_more n b rest go, view-cons E b rest, ← zeros, go)
              (take-first b (size_at E b rest - 1) (cut n left) rest (omega arith)
                ∙ ap (λ cs. (E.read b rest).c ∷ cs) (view-cut n w (omega arith)))
      ]
