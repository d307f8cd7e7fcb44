-- ===== src/Text/Split.antt =====
-- Splitting and joining: each undoes the other.
use libcxxext.Prelude.{
  ℕ, zero, suc, Bool, true, false, ◌≡◌, ◌≢◌, refl, ap, ◌∙◌, sym, arith, List, [], ◌∷◌, ◌++◌,
  append-nil, append_assoc, All, ==_iff, ==_refl, Bool-cases, inl, inr,
}
use libcxxext.Prelude.{
  ltb, ◌==◌, if◌then◌else◌, length, take, drop, take-append-drop, length-eq-zero,
}
use libcxxext.Text.{
  member, equal, split_from, split, singletons, split_view_from, split_view, join_from, join,
}

-- What `join` puts before a part.
abbrev separator : Bool → List ℕ → List ℕ
separator need_prepend_sep sep = if need_prepend_sep then sep else []

pub equal-eq : (xs ys : List ℕ) → equal xs ys ≡ true → xs ≡ ys
unfolding equal
equal-eq [] [] h = refl
equal-eq [] (y ∷ ys) h = cc
equal-eq (x ∷ xs) [] h = cc
equal-eq (x ∷ xs) (y ∷ ys) h = ground (arith, equal-eq xs ys)

snoc_append : (piece us : List ℕ) (u : ℕ) → (piece ++ u ∷ []) ++ us ≡ piece ++ u ∷ us
snoc_append piece us u = append_assoc piece (u ∷ []) us

module _ (d : ℕ) where
  member-snoc :
      (piece : List ℕ) (u : ℕ)
      → member d piece ≡ false
      → (u == d) ≡ false
      → member d (piece ++ u ∷ []) ≡ false
  unfolding member
  member-snoc [] u h e = ground arith
  member-snoc (x ∷ piece) u h e = ground (arith, member-snoc piece u)

  joined_from :
      (b : Bool) (piece us : List ℕ)
      → join_from b (split_from d piece us) (d ∷ []) ≡ separator b (d ∷ []) ++ (piece ++ us)
  unfolding split_from join_from
  joined_from b piece [] = append_assoc (separator b (d ∷ [])) piece []
  joined_from b piece (u ∷ us) = elim (Bool-cases (u == d)) [
    | inl h ↦
        rw (h, joined_from true [] us, append_assoc)
          (ap (λ x. separator b (d ∷ []) ++ (piece ++ x ∷ us)) (sym ((==_iff u d).0 h)))
    | inr h ↦ rw h (
        joined_from b (piece ++ u ∷ []) us
        ∙ ap (λ r. separator b (d ∷ []) ++ r) (snoc_append piece us u))
  ]

  -- Joining the pieces by the delimiter gives the string back.
  pub join-split : (us : List ℕ) → join (split us d) (d ∷ []) ≡ us
  unfolding join split
  join-split us = joined_from false [] us

  split_at_delimiter :
      (piece p us : List ℕ)
      → member d p ≡ false
      → split_from d piece (p ++ d ∷ us) ≡ (piece ++ p) ∷ split_from d [] us
  unfolding split_from member
  split_at_delimiter piece [] us h = rw (==_refl d, append-nil)
  split_at_delimiter piece (x ∷ p) us h =
      let differs : (x == d) ≡ false = ground arith in
      rw differs (
        split_at_delimiter (piece ++ x ∷ []) p us (ground arith)
        ∙ ap (λ r. r ∷ split_from d [] us) (snoc_append piece p x))

  split_at_end : (piece p : List ℕ) → member d p ≡ false → split_from d piece p ≡ (piece ++ p) ∷ []
  unfolding split_from member
  split_at_end piece [] h = rw append-nil
  split_at_end piece (x ∷ p) h =
      let differs : (x == d) ≡ false = ground arith in
      rw differs
        (split_at_end (piece ++ x ∷ []) p (ground arith) ∙ ap (λ r. r ∷ []) (snoc_append piece p x))

  -- Splitting what was joined gives the parts back, if none holds the delimiter.
  split_joined :
      (p : List ℕ) (parts : List (List ℕ))
      → All (λ q. member d q ≡ false) (p ∷ parts)
      → split_from d [] (p ++ join_from true parts (d ∷ [])) ≡ p ∷ parts
  unfolding join_from
  split_joined p [] h = rw append-nil (split_at_end [] p h.0)
  split_joined p (q ∷ parts) h =
      split_at_delimiter [] p (q ++ join_from true parts (d ∷ [])) h.0
      ∙ ap (λ r. p ∷ r) (split_joined q parts h.1)

  -- Splitting by a unit what was joined by that unit gives the parts back, if there is at least one
  -- and none of them holds the unit.
  pub split-join :
      (parts : List (List ℕ))
      → parts ≢ []
      → All (λ q. member d q ≡ false) parts
      → split (join parts (d ∷ [])) d ≡ parts
  unfolding join split join_from
  split-join [] ne h = absurd (ne refl)
  split-join (p ∷ parts) ne h = split_joined p parts h

  pieces_from :
      (piece us : List ℕ)
      → member d piece ≡ false
      → All (λ q. member d q ≡ false) (split_from d piece us)
  unfolding split_from
  pieces_from piece [] h = (h, tt)
  pieces_from piece (u ∷ us) h = elim (Bool-cases (u == d)) [
    | inl e ↦ rw e (h, pieces_from [] us (unfold member in refl))
    | inr e ↦ rw e (pieces_from (piece ++ u ∷ []) us (member-snoc piece u h e))
  ]

  -- No piece holds the delimiter.
  pub split-pieces : (us : List ℕ) → All (λ q. member d q ≡ false) (split us d)
  unfolding split
  split-pieces us = pieces_from [] us (unfold member in refl)

module _ (delimiter : List ℕ) where
  joined_last :
      (b : Bool) (piece : List ℕ)
      → join_from b (piece ∷ []) delimiter ≡ separator b delimiter ++ piece
  unfolding join_from
  joined_last b piece = append-nil (separator b delimiter ++ piece)

  equal_prefix :
      (us : List ℕ)
      → equal (take (length delimiter) us) delimiter ≡ true
      → delimiter ++ drop (length delimiter) us ≡ us
  equal_prefix us h =
      ap (λ p. p ++ drop (length delimiter) us) (sym (equal-eq _ _ h))
      ∙ take-append-drop (length delimiter) us

  joined_view_from :
      (n : ℕ) (b : Bool) (piece us : List ℕ)
      → join_from b (split_view_from n delimiter piece us) delimiter
        ≡ separator b delimiter ++ (piece ++ us)
  unfolding split_view_from join_from
  joined_view_from zero b piece us = joined_last b (piece ++ us)
  joined_view_from (suc n) b piece [] = append_assoc (separator b delimiter) piece []
  joined_view_from (suc n) b piece (u ∷ us) =
      elim (Bool-cases (ltb (length (u ∷ us)) (length delimiter))) [
        | inl short ↦ rw short (joined_last b (piece ++ u ∷ us))
        | inr long ↦ elim (Bool-cases (equal (take (length delimiter) (u ∷ us)) delimiter)) [
          | inl h ↦
              rw (long, h, joined_view_from n true [] (drop (length delimiter) (u ∷ us)))
                (ap (λ r. (separator b delimiter ++ piece) ++ r) (equal_prefix (u ∷ us) h)
                  ∙ append_assoc (separator b delimiter) piece (u ∷ us))
          | inr h ↦
              rw (long, h)
                (joined_view_from n b (piece ++ u ∷ []) us
                  ∙ ap (λ r. separator b delimiter ++ r) (snoc_append piece us u))
        ]
      ]

  joined_singletons :
      (b : Bool) (us : List ℕ) → delimiter ≡ [] → join_from b (singletons us) delimiter ≡ us
  unfolding join_from singletons
  joined_singletons b [] e = refl
  joined_singletons true (u ∷ us) e = rw (joined_singletons true us e, e)
  joined_singletons false (u ∷ us) e = rw (joined_singletons true us e)

  -- Joining the pieces of `split` by a string, the empty one included, with that string gives back
  -- the string that was split.
  pub join-split_view : (us : List ℕ) → join (split_view us delimiter) delimiter ≡ us
  unfolding join split_view
  join-split_view us = elim (Bool-cases (length delimiter == 0)) [
    | inl h ↦ rw h (joined_singletons false us (length-eq-zero delimiter ((==_iff _ _).0 h)))
    | inr h ↦ elim (Bool-cases (ltb (length us) (length delimiter))) [
      | inl short ↦ rw (h, short) (joined_last false us)
      | inr long ↦ rw (h, long) (joined_view_from (length us) false [] us)
    ]
  ]
