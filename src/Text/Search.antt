-- ===== src/Text/Search.antt =====
-- Where a string has another one: `find_index`, `contains`, `starts_with` and `ends_with`.
use mathlib.Core.Option
use libcxxext.Prelude.{
  ℕ, zero, suc, ◌+◌, ◌-◌, ◌≤◌, ◌<◌, Bool, true, false, ◌≡◌, ◌⊎◌, ◌↔◌, inl, inr, refl, ap, ◌∙◌, sym,
  arith, List, [], ◌∷◌, ◌++◌, ◌==◌, ltb, leb, Bool-cases, length, take, drop, Option, none, some,
  length-drop, take-append-drop, take-length_append, drop-length_append, length-append, drop-drop,
  drop-of_nil, length-eq-zero,
}
use libcxxext.Text.Split.{equal-eq}
use libcxxext.Text.{
  equal, starts_with, starts_with_char, ends_with, ends_with_char, search, contains, index_of,
  find_index, find_index_view,
}

-- `substr` stands in `us` at index `i`.
abbrev pub occurs : List ℕ → List ℕ → ℕ → Bool
occurs us substr i = starts_with (drop i us) substr

abbrev pub IsFirst : List ℕ → List ℕ → ℕ → Option ℕ → Type 0
IsFirst us substr from none = (i : ℕ) → from ≤ i → i ≤ length us → occurs us substr i ≡ false
IsFirst us substr from (some k) =
    (from ≤ k)
    × (k ≤ length us)
    × (occurs us substr k ≡ true)
    × ((i : ℕ) → from ≤ i → i < k → occurs us substr i ≡ false)

starts_with_nil : (substr : List ℕ) → starts_with [] substr ≡ (length substr == 0)
unfolding starts_with equal
starts_with_nil [] = refl
starts_with_nil (x ∷ xs) = ground arith

widen :
    (u : ℕ) (us substr : List ℕ) (o : Option ℕ)
    → starts_with (u ∷ us) substr ≡ false
    → IsFirst us substr 0 o
    → IsFirst (u ∷ us) substr 0 (Option.map suc o)
widen u us substr none miss h = λ i.
    elim i as (λ n. 0 ≤ n → n ≤ length (u ∷ us) → occurs (u ∷ us) substr n ≡ false) [
      | zero ↦ λ low high. miss
      | suc j ↦ λ low high. h j (omega arith) (omega arith)
    ]
widen u us substr (some k) miss h = (
  omega arith,
  omega arith,
  h.2,
  λ i. elim i as (λ n. 0 ≤ n → n < suc k → occurs (u ∷ us) substr n ≡ false) [
    | zero ↦ λ low high. miss
    | suc j ↦ λ low high. h.3 j (omega arith) (omega arith)
  ],
)

search-IsFirst : (us substr : List ℕ) → IsFirst us substr 0 (search us substr)
unfolding search
search-IsFirst [] substr = elim (Bool-cases (length substr == 0)) [
  | inl here ↦
      rw here (
        omega arith,
        omega arith,
        starts_with_nil substr ∙ here,
        λ i low high. absurd (omega arith),
      )
  | inr miss ↦ rw miss (λ i low high.
      ap (λ l. starts_with l substr) (sym (drop-of_nil i)) ∙ starts_with_nil substr ∙ miss)
]
search-IsFirst (u ∷ us) substr = elim (Bool-cases (starts_with (u ∷ us) substr)) [
  | inl here ↦ rw here (omega arith, omega arith, here, λ i low high. absurd (omega arith))
  | inr miss ↦ rw miss (widen u us substr (search us substr) miss (search-IsFirst us substr))
]

starts_with_empty : (us substr : List ℕ) → length substr ≡ 0 → starts_with us substr ≡ true
unfolding starts_with equal
starts_with_empty us [] h = refl
starts_with_empty us (x ∷ xs) h = absurd (omega arith)

-- The index that `find_index` of a view promises.
abbrev pub FindsFirst : List ℕ → List ℕ → ℕ → ℕ → Type 0
FindsFirst us substr from r =
    ((from ≤ r)
      × (r < length us)
      × (occurs us substr r ≡ true)
      × ((i : ℕ) → from ≤ i → i < r → occurs us substr i ≡ false))
    ⊎ ((r ≡ length us) × ((i : ℕ) → from ≤ i → i < length us → occurs us substr i ≡ false))

occurs_shifted :
    (us substr : List ℕ) (from i : ℕ) → occurs (drop from us) substr i ≡ occurs us substr (from + i)
occurs_shifted us substr from i = ap (λ l. starts_with l substr) (drop-drop from i us)

occurs_unshifted :
    (us substr : List ℕ) (from i : ℕ)
    → from ≤ i
    → occurs (drop from us) substr (i - from) ≡ occurs us substr i
occurs_unshifted us substr from i low =
    occurs_shifted us substr from (i - from) ∙ ap (occurs us substr) (omega arith)

-- Behind the end only an empty string occurs, which occurs everywhere.
occurs_at_end :
    (us substr : List ℕ) (k : ℕ)
    → length us ≤ k
    → occurs us substr k ≡ true
    → occurs us substr 0 ≡ true
occurs_at_end us substr k h here =
    let gone : drop k us ≡ [] = length-eq-zero (drop k us) (omega (arith, length-drop k us)) in
    let no_units : (length substr == 0) ≡ true =
      sym (starts_with_nil substr) ∙ ap (λ l. starts_with l substr) (sym gone) ∙ here in
    starts_with_empty us substr (ground arith)

found_lem :
    (us substr : List ℕ) (from : ℕ) (o : Option ℕ)
    → from < length us
    → IsFirst (drop from us) substr 0 o
    → FindsFirst us substr from (elim o [ none ↦ length us | some i ↦ from + i ])
found_lem us substr from none h first = inr (
  refl,
  λ i low high.
      sym (occurs_unshifted us substr from i low)
      ∙ first (i - from) (omega arith) (omega (arith, length-drop from us)),
)
found_lem us substr from (some k) h (low, high, here, before) = inl (
  omega arith,
  elim (Bool-cases (ltb (from + k) (length us))) [
    | inl less ↦ ground arith
    | inr more ↦
        let at_start =
          occurs_at_end (drop from us) substr k (ground (arith, length-drop from us)) here in
        let missed = before 0 (omega arith) (ground arith) in absurd (ground arith)
  ],
  sym (occurs_shifted us substr from k) ∙ here,
  λ i lo hi.
      sym (occurs_unshifted us substr from i lo) ∙ before (i - from) (omega arith) (omega arith),
)

pub find_index_view-FindsFirst :
    (us substr : List ℕ) (from : ℕ) → FindsFirst us substr from (find_index_view us substr from)
unfolding find_index_view
find_index_view-FindsFirst us substr from = elim (Bool-cases (leb (length us) from)) [
  | inl behind ↦ rw behind (inr (refl, λ i low high. absurd (ground arith)))
  | inr inside ↦ rw inside (
      found_lem us substr from (search (drop from us) substr) (ground arith)
        (search-IsFirst (drop from us) substr))
]

-- A character is found as the string of it is.
abbrev index_or : ℕ → Option ℕ → ℕ
index_or default none = default
index_or default (some i) = i

index_or-suc : (n : ℕ) (o : Option ℕ) → suc (index_or n o) ≡ index_or (suc n) (Option.map suc o)
index_or-suc n none = refl
index_or-suc n (some i) = refl

starts_with_one : (u c : ℕ) (us : List ℕ) → starts_with (u ∷ us) (c ∷ []) ≡ (u == c)
unfolding starts_with equal
starts_with_one u c us = ground arith

index_of-search : (c : ℕ) (us : List ℕ) → index_of c us ≡ index_or (length us) (search us (c ∷ []))
unfolding index_of search
index_of-search c [] = refl
index_of-search c (u ∷ us) =
    let later = ap suc (index_of-search c us) ∙ index_or-suc (length us) (search us (c ∷ [])) in
    elim (Bool-cases (u == c)) [
      | inl here ↦ rw (starts_with_one u c us, here) refl
      | inr miss ↦ rw (starts_with_one u c us, miss) later
    ]

shifted_index :
    (n from m : ℕ) (o : Option ℕ)
    → n ≡ from + m
    → from + index_or m o ≡ elim o as (λ p. ℕ) [ none ↦ n | some i ↦ from + i ]
shifted_index n from m none h = sym h
shifted_index n from m (some i) h = refl

find_index-view :
    (us : List ℕ) (c from : ℕ) → find_index us c from ≡ find_index_view us (c ∷ []) from
unfolding find_index find_index_view
find_index-view us c from = elim (Bool-cases (leb (length us) from)) [
  | inl behind ↦ rw behind refl
  | inr inside ↦
      let rest = drop from us in
      rw inside (
        ap (λ i. from + i) (index_of-search c rest)
        ∙ shifted_index (length us) from (length rest) (search rest (c ∷ []))
            (ground (arith, length-drop from us)))
]

contains_iff :
    (us substr : List ℕ)
    → (contains us substr ≡ true) ↔ ((i : ℕ) × (i ≤ length us) × (occurs us substr i ≡ true))
unfolding contains
contains_iff us substr = by_search (search us substr) (search-IsFirst us substr)
  where
    by_search :
        (o : Option ℕ)
        → IsFirst us substr 0 o
        → (elim o as (λ p. Bool) [ none ↦ false | some i ↦ true ] ≡ true)
          ↔ ((i : ℕ) × (i ≤ length us) × (occurs us substr i ≡ true))
    by_search none first =
        (λ h. ground arith, λ (i, high, here). sym (first i (omega arith) high) ∙ here)
    by_search (some k) first = (λ h. (k, first.1, first.2), λ found. refl)

-- `find_index` of a view or of a character is the first index from `from`, below the size, where it
-- stands in the string, or the size when there is none, and `contains` is true just when the view
-- stands at some index.
pub find_index-FindsFirst :
    (us substr : List ℕ) (c from : ℕ)
    → FindsFirst us substr from (find_index_view us substr from)
      × FindsFirst us (c ∷ []) from (find_index us c from)
      × ((contains us substr ≡ true) ↔ ((i : ℕ) × (i ≤ length us) × (occurs us substr i ≡ true)))
find_index-FindsFirst us substr c from = (
  find_index_view-FindsFirst us substr from,
  rw (find_index-view us c from) (find_index_view-FindsFirst us (c ∷ []) from),
  contains_iff us substr,
)

equal_self : (xs : List ℕ) → equal xs xs ≡ true
unfolding equal
equal_self [] = refl
equal_self (x ∷ xs) = ground (arith, equal_self xs)

starts_with_iff :
    (us substr : List ℕ)
    → (starts_with us substr ≡ true) ↔ ((rest : List ℕ) × (us ≡ substr ++ rest))
unfolding starts_with
starts_with_iff us substr =
    let n = length substr in
    (
      λ h. (
        drop n us,
        sym (take-append-drop n us) ∙ ap (λ l. l ++ drop n us) (equal-eq (take n us) substr h),
      ),
      λ (rest, e).
          ap (λ l. equal (take n l) substr) e
          ∙ ap (λ l. equal l substr) (take-length_append substr rest)
          ∙ equal_self substr,
    )

ends_with_iff :
    (us substr : List ℕ)
    → (ends_with us substr ≡ true) ↔ ((front : List ℕ) × (us ≡ front ++ substr))
unfolding ends_with
ends_with_iff us substr =
    let n = length us - length substr in
    (
      λ h. (
        take n us,
        sym (take-append-drop n us)
            ∙ ap (λ l. take n us ++ l) (equal-eq (drop n us) substr (ground arith)),
      ),
      λ (front, e).
          let whole : length us ≡ length front + length substr =
            ap length e ∙ length-append front substr in
          let room : leb (length substr) (length us) ≡ true = ground arith in
          let at : length us - length substr ≡ length front = omega arith in
          rw (room, at)
            (ap (λ l. equal (drop (length front) l) substr) e
              ∙ ap (λ l. equal l substr) (drop-length_append front substr)
              ∙ equal_self substr),
    )

-- The tests of both ends, of a string and of a character, are those of a prefix and of a suffix.
starts_with_char_lem : (us : List ℕ) (c : ℕ) → starts_with_char us c ≡ starts_with us (c ∷ [])
unfolding starts_with_char
starts_with_char_lem [] c = sym (starts_with_nil (c ∷ []))
starts_with_char_lem (u ∷ us) c = sym (starts_with_one u c us)

ends_with_char_lem : (us : List ℕ) (c : ℕ) → ends_with_char us c ≡ ends_with us (c ∷ [])
unfolding ends_with_char ends_with equal
ends_with_char_lem [] c = refl
ends_with_char_lem (u ∷ []) c = ground arith
ends_with_char_lem (u ∷ v ∷ us) c =
    let one_less : suc (suc (length us)) - 1 ≡ suc (suc (length us) - 1) = omega arith in
    let room : leb 1 (suc (suc (length us))) ≡ true = ground arith in
    let room' : leb 1 (suc (length us)) ≡ true = ground arith in
    ends_with_char_lem (v ∷ us) c ∙ rw (one_less, room, room') refl

-- `starts_with` tests a prefix and `ends_with` a suffix, of a view and of a character.
pub affixes_iff :
    (us substr : List ℕ) (c : ℕ)
    → ((starts_with us substr ≡ true) ↔ ((rest : List ℕ) × (us ≡ substr ++ rest)))
      × ((ends_with us substr ≡ true) ↔ ((front : List ℕ) × (us ≡ front ++ substr)))
      × ((starts_with_char us c ≡ true) ↔ ((rest : List ℕ) × (us ≡ (c ∷ []) ++ rest)))
      × ((ends_with_char us c ≡ true) ↔ ((front : List ℕ) × (us ≡ front ++ c ∷ [])))
affixes_iff us substr c = (
  starts_with_iff us substr,
  ends_with_iff us substr,
  rw (starts_with_char_lem us c) (starts_with_iff us (c ∷ [])),
  rw (ends_with_char_lem us c) (ends_with_iff us (c ∷ [])),
)
