-- ===== src/Casing/Contexts.antt =====
-- What the casing contexts say of the code points around a position: the contexts of `string::as_cased`
-- against a search in those code points, and the search against the rule it stands for.
use libcxxext.Prelude.{
  ℕ, Bool, true, false, not, ◌&&◌, ◌≡◌, refl, sym, ap, ◌∙◌, ◌↔◌, List, [], ◌∷◌, ◌++◌,
}
use libcxxext.Prelude.{◌==◌, if◌then◌else◌, All, Bool-cases, inl, inr, arith}
use libcxxext.Casing.{ForwardCasingContext, LookaheadCasingContext, no_context}
use libcxxext.Casing.{resets_combining, lookahead_loop, lookahead_contexts_for_str}
use libcxxext.Casing.{update_fcontext_for_char, lower_special}
use libcxxext.Casing.Tables.Cased.{is_cased}
use libcxxext.Casing.Tables.CaseIgnorable.{is_case_ignorable}
use libcxxext.Casing.Tables.SoftDotted.{is_soft_dotted}
use libcxxext.Casing.Tables.ToLower.{to_lower_simple_sigma}
use libcxxext.Casing.Tables.CombiningClass.{ccc, above}

-- Whether the first code point that is decisive, by `hit` or by `stop`, is so by `hit`.
unfoldable pub first_decides : (hit stop : ℕ → Bool) → List ℕ → Bool
first_decides hit stop [] = false
first_decides hit stop (c ∷ cs) =
    if hit c then true else if stop c then false else first_decides hit stop cs

-- A code point with `hit`, behind code points that are not decisive.
abbrev pub Reaches : (hit stop : ℕ → Bool) → List ℕ → Type 0
Reaches hit stop cs =
    (skipped : List ℕ) × (c : ℕ) × (rest : List ℕ) × (cs ≡ skipped ++ c ∷ rest)
    × All (λ x. (hit x ≡ false) × (stop x ≡ false)) skipped
    × (hit c ≡ true)

abbrev pub not_ignorable : ℕ → Bool
not_ignorable c = not (is_case_ignorable c)

abbrev pub resets : ℕ → Bool
resets c = resets_combining (ccc c)

abbrev pub next_is_above : List ℕ → Bool
next_is_above [] = false
next_is_above (c ∷ cs) = not (c == 0) && (ccc c == above)

-- The contexts of a position, by the code points in front of it, nearest first, and behind it.
abbrev pub context_before : List ℕ → ForwardCasingContext
context_before before = record {
  is_preceded_by_cased = first_decides is_cased not_ignorable before;
  after_soft_dotted = first_decides is_soft_dotted resets before;
  after_i = first_decides (λ c. c == 0x0049) resets before;
}

abbrev pub context_after : List ℕ → LookaheadCasingContext
context_after after = record {
  followed_by_cased = first_decides is_cased not_ignorable after;
  more_above = next_is_above after;
  before_dot = first_decides (λ c. c == 0x0307) resets after;
}

abbrev pub contexts_after : List ℕ → List LookaheadCasingContext
contexts_after [] = []
contexts_after (c ∷ cs) = context_after cs ∷ contexts_after cs

first_decides-Reaches :
    (hit stop : ℕ → Bool) (cs : List ℕ) → first_decides hit stop cs ≡ true → Reaches hit stop cs
unfolding first_decides
first_decides-Reaches hit stop [] h = ground arith
first_decides-Reaches hit stop (c ∷ cs) h = elim (Bool-cases (hit c)) [
  | inl y ↦ ([], c, cs, refl, tt, y)
  | inr y ↦ elim (Bool-cases (stop c)) [
    | inl n ↦ ground arith
    | inr n ↦
        let (skipped, x, rest, split, skip, here) =
          first_decides-Reaches hit stop cs (ground arith) in
        (c ∷ skipped, x, rest, ap (λ r. c ∷ r) split, ((y, n), skip), here)
  ]
]

decides_at :
    (hit stop : ℕ → Bool) (skipped : List ℕ) (c : ℕ) (rest : List ℕ)
    → All (λ x. (hit x ≡ false) × (stop x ≡ false)) skipped
    → hit c ≡ true
    → first_decides hit stop (skipped ++ c ∷ rest) ≡ true
unfolding first_decides
decides_at hit stop [] c rest skip here = rw here refl
decides_at hit stop (s ∷ skipped) c rest skip here =
    rw (skip.0.0, skip.0.1) (decides_at hit stop skipped c rest skip.1 here)

pub first_decides_iff :
    (hit stop : ℕ → Bool) (cs : List ℕ) → (first_decides hit stop cs ≡ true) ↔ Reaches hit stop cs
first_decides_iff hit stop cs = (
  first_decides-Reaches hit stop cs,
  λ (skipped, c, rest, split, skip, here). rw split (decides_at hit stop skipped c rest skip here),
)

loop_followed :
    (cs : List ℕ) → (lookahead_loop cs).followed ≡ first_decides is_cased not_ignorable cs
unfolding lookahead_loop first_decides
loop_followed [] = refl
loop_followed (c ∷ cs) = rw (loop_followed cs) refl

loop_dot : (cs : List ℕ) → (lookahead_loop cs).dot ≡ first_decides (λ c. c == 0x0307) resets cs
unfolding lookahead_loop first_decides
loop_dot [] = refl
loop_dot (c ∷ cs) = rw (loop_dot cs) refl

loop_above :
    (cs : List ℕ)
    → (not ((lookahead_loop cs).next_cp == 0) && (ccc (lookahead_loop cs).next_cp == above))
      ≡ next_is_above cs
unfolding lookahead_loop
loop_above [] = refl
loop_above (c ∷ cs) = refl

pub lookahead_contexts_for_str-contexts_after :
    (cs : List ℕ) → lookahead_contexts_for_str cs ≡ contexts_after cs
unfolding lookahead_contexts_for_str lookahead_loop
lookahead_contexts_for_str-contexts_after [] = refl
lookahead_contexts_for_str-contexts_after (c ∷ cs) =
    rw
      (loop_followed cs, loop_dot cs, loop_above cs, ← lookahead_contexts_for_str-contexts_after cs)
      refl

pub update_fcontext_for_char-context_before :
    (c : ℕ) (before : List ℕ)
    → update_fcontext_for_char (context_before before) c ≡ context_before (c ∷ before)
unfolding update_fcontext_for_char first_decides
update_fcontext_for_char-context_before c before = refl

pub no_context-context_before : no_context ≡ context_before []
unfolding first_decides
no_context-context_before = refl

true≢false : ¬ (true ≡ false)
true≢false h = ground arith

not_true : (b : Bool) → ¬ (b ≡ true) → b ≡ false
not_true true h = absurd (h refl)
not_true false h = refl

to_lower_special_sigma :
    (lang : List ℕ) (f : ForwardCasingContext) (l : LookaheadCasingContext)
    → (lower_special 0x03A3 lang f l ≡ 0x03C2 ∷ [])
      ↔ ((f.is_preceded_by_cased ≡ true) × (l.followed_by_cased ≡ false))
unfolding lower_special
to_lower_special_sigma lang f l = elim (Bool-cases f.is_preceded_by_cased) [
  | inl p ↦ elim (Bool-cases l.followed_by_cased) [
    | inl q ↦ rw (p, q, to_lower_simple_sigma) (ground arith)
    | inr q ↦ rw (p, q) (ground arith)
  ]
  | inr p ↦ rw (p, to_lower_simple_sigma) (ground arith)
]

-- With the contexts of the code points around it, capital sigma is lowered to final sigma just when
-- a cased code point stands in front of it, and none behind it, with case-ignorable code points
-- that are not cased between at most.
pub lower_special_iff :
    (lang before after : List ℕ)
    → (lower_special 0x03A3 lang (context_before before) (context_after after) ≡ 0x03C2 ∷ [])
      ↔ (Reaches is_cased not_ignorable before × ¬ Reaches is_cased not_ignorable after)
lower_special_iff lang before after =
    let here = to_lower_special_sigma lang (context_before before) (context_after after) in
    let left = first_decides_iff is_cased not_ignorable before in
    let right = first_decides_iff is_cased not_ignorable after in
    (
      λ h. (left.0 (here.0 h).0, λ r. true≢false (sym (right.1 r) ∙ (here.0 h).1)),
      λ h. here.1 (
        left.1 h.0,
        not_true (first_decides is_cased not_ignorable after) (λ e. h.1 (right.0 e)),
      ),
    )
