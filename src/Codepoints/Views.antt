-- ===== src/Codepoints/Views.antt =====
-- The code points of a buffer, as its iterator finds them, against a recursion over the buffer.
use libcxxext.Prelude.{
  sym, ℕ, zero, suc, ◌≤◌, ◌<◌, true, ◌≡◌, refl, ap, ◌∙◌, arith, List, [], ◌∷◌, ◌++◌, append_assoc,
  append-nil,
}
use libcxxext.Prelude.{length, drop, length-drop, drop-length_append, All, All-drop}
use mathlib.Core.List.{map}
use libcxxext.Char.{CodepointData, is_scalar}
use libcxxext.Char.RoundTrip.{sanitized, ReadsAs}
use libcxxext.Char.Encoding.{Encoding}
use libcxxext.Codepoints.{iter_at, deref, next, collect, view, encode}

abbrev pub IsScalar : ℕ → Type 0
IsScalar c = is_scalar c ≡ true

pub map-sanitized : (cs : List ℕ) → All IsScalar cs → map sanitized cs ≡ cs
map-sanitized [] h = refl
map-sanitized (c ∷ cs) h = rw (h.0, map-sanitized cs h.1) refl

module _ (E : Encoding) where
  -- the size of the first code point of b ∷ rest
  abbrev pub size_at : ℕ → List ℕ → ℕ
  size_at b rest = (E.read b rest).size_bytes

  pub deref_lem : (b : ℕ) (rest : List ℕ) → (deref E (iter_at (b ∷ rest))).0 ≡ (E.read b rest).c
  unfolding deref
  deref_lem b rest = refl

  pub deref-left : (b : ℕ) (rest : List ℕ) → (deref E (iter_at (b ∷ rest))).1.left ≡ b ∷ rest
  unfolding deref
  deref-left b rest = refl

  pub next-deref :
      (b : ℕ) (rest : List ℕ)
      → next E (deref E (iter_at (b ∷ rest))).1 ≡ iter_at (drop (size_at b rest) (b ∷ rest))
  unfolding next deref
  next-deref b rest = ground (arith, E.in_bounds b rest)

  pub left_shorter :
      (b : ℕ) (rest : List ℕ) → length (drop (size_at b rest) (b ∷ rest)) < length (b ∷ rest)
  left_shorter b rest = omega (arith, E.in_bounds b rest, length-drop (size_at b rest) (b ∷ rest))

  collect-suc :
      (n b : ℕ) (rest : List ℕ)
      → collect E (suc n) (iter_at (b ∷ rest))
        ≡ (E.read b rest).c ∷ collect E n (iter_at (drop (size_at b rest) (b ∷ rest)))
  unfolding collect
  collect-suc n b rest = ground (arith, next-deref b rest, deref_lem b rest)

  collect_enough :
      (n m : ℕ) (us : List ℕ)
      → length us ≤ n
      → length us ≤ m
      → collect E n (iter_at us) ≡ collect E m (iter_at us)
  unfolding collect
  collect_enough zero m (b ∷ rest) p q = elim p [ ]
  collect_enough n zero (b ∷ rest) p q = elim q [ ]
  collect_enough zero zero [] p q = refl
  collect_enough zero (suc m) [] p q = refl
  collect_enough (suc n) zero [] p q = refl
  collect_enough (suc n) (suc m) [] p q = refl
  collect_enough (suc n) (suc m) (b ∷ rest) p q =
      let left = drop (size_at b rest) (b ∷ rest) in
      let shorter = left_shorter b rest in
      rw (collect-suc n b rest, collect-suc m b rest)
        (ap (λ cs. (E.read b rest).c ∷ cs) (collect_enough n m left (omega arith) (omega arith)))

  -- The view of a buffer is the first code point and the view of what is left.
  pub view-cons :
      (b : ℕ) (rest : List ℕ)
      → view E (b ∷ rest) ≡ (E.read b rest).c ∷ view E (drop (size_at b rest) (b ∷ rest))
  unfolding view
  view-cons b rest =
      let left = drop (size_at b rest) (b ∷ rest) in
      let shorter = left_shorter b rest in
      collect-suc (length rest) b rest
      ∙ ap (λ cs. (E.read b rest).c ∷ cs)
          (collect_enough (length rest) (length left) left (omega arith) (omega arith))

  pub view-nil : view E [] ≡ []
  unfolding view collect
  view-nil = refl

  view-units :
      (units : List ℕ) (c : ℕ) (rest : List ℕ)
      → ReadsAs E.read units c rest
      → view E (units ++ rest) ≡ c ∷ view E rest
  view-units [] c rest h = absurd h
  view-units (b ∷ bs) c rest h =
      view-cons b (bs ++ rest)
      ∙ ap (λ (d : CodepointData). d.c ∷ view E (drop d.size_bytes (b ∷ (bs ++ rest)))) h
      ∙ ap (λ us. c ∷ view E us) (drop-length_append (b ∷ bs) rest)

  -- What is written at the front of a buffer is seen as its first code point.
  pub view-write : (c : ℕ) (rest : List ℕ) → view E (E.write c ++ rest) ≡ sanitized c ∷ view E rest
  view-write c rest = view-units (E.write c) (sanitized c) rest (E.round_trip c rest)

  pub view-encode :
      (cs : List ℕ) (rest : List ℕ) → view E (encode E cs ++ rest) ≡ map sanitized cs ++ view E rest
  unfolding encode
  view-encode [] rest = refl
  view-encode (c ∷ cs) rest =
      rw (append_assoc, view-write c (encode E cs ++ rest))
        (ap (λ r. sanitized c ∷ r) (view-encode cs rest))

  pub view_encoded : (cs : List ℕ) → view E (encode E cs) ≡ map sanitized cs
  view_encoded cs =
      ap (view E) (sym (append-nil (encode E cs)))
      ∙ view-encode cs []
      ∙ ap (λ r. map sanitized cs ++ r) view-nil
      ∙ append-nil (map sanitized cs)

  pub encode-sanitized : (cs : List ℕ) → encode E (map sanitized cs) ≡ encode E cs
  unfolding encode
  encode-sanitized [] = refl
  encode-sanitized (c ∷ cs) = rw (← E.sanitizes c, encode-sanitized cs)

  collect-scalar :
      (n : ℕ) (us : List ℕ)
      → All (λ u. u < E.unit_bound) us
      → All (λ c. is_scalar c ≡ true) (collect E n (iter_at us))
  unfolding collect
  collect-scalar zero us h = tt
  collect-scalar (suc n) [] h = tt
  collect-scalar (suc n) (b ∷ rest) h =
      let left = drop (size_at b rest) (b ∷ rest) in
      rw (collect-suc n b rest) (
        E.scalar b rest h.0,
        collect-scalar n left (All-drop (λ u. u < E.unit_bound) (size_at b rest) (b ∷ rest) h),
      )

  -- A code point view of any units of the character type, well formed or not, yields Unicode scalar
  -- values only.
  pub view-scalar :
      (us : List ℕ) → All (λ u. u < E.unit_bound) us → All (λ c. is_scalar c ≡ true) (view E us)
  unfolding view
  view-scalar us h = collect-scalar (length us) us h
