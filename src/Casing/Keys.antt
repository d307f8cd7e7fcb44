-- ===== src/Casing/Keys.antt =====
-- What holds of every code point of a table holds of every code point that the table changes: a test
-- of the entries, run by run, says it of all code points.
use libcxxext.Prelude.{
  ℕ, zero, suc, ◌+◌, ◌-◌, ◌*◌, ◌/◌, ◌%◌, ◌≤◌, ◌<◌, Bool, true, ◌&&◌, ◌≡◌, ◌⊎◌, inl, inr, refl, ap,
  ◌∙◌, arith, List, [], ◌∷◌, Bool-cases, take, drop, leb, ◌==◌,
}
use native.Mathlib.Nat.{div-add-mod', div-lt_iff_lt-mul, mod-zero}
use libcxxext.Casing.Lookup.{in_runs, find_case}

module _ (p : ℕ → Bool) where
  -- `n` code points from `c` on.
  unfoldable pub each : ℕ → ℕ → ℕ → Bool
  each zero c stride = true
  each (suc n) c stride = p c && each n (c + stride) stride

  unfoldable pub every_run : List (ℕ × ℕ × ℕ × ℕ) → Bool
  unfolding each
  every_run [] = true
  every_run ((from, to, stride, out) ∷ rs) =
      each ((to - from) / stride + 1) from stride && every_run rs

  unfoldable pub every_case : List (ℕ × List ℕ) → Bool
  every_case [] = true
  every_case ((c, out) ∷ cases) = p c && every_case cases

  -- A long table is tested in two parts.
  pub every_run_split :
      (n : ℕ) (rs : List (ℕ × ℕ × ℕ × ℕ))
      → every_run (take n rs) ≡ true
      → every_run (drop n rs) ≡ true
      → every_run rs ≡ true
  unfolding every_run
  every_run_split zero rs h k = k
  every_run_split (suc n) [] h k = refl
  every_run_split (suc n) ((from, to, stride, out) ∷ rs) h k = ground (arith, every_run_split n rs)

  each_at : (n c stride k : ℕ) → each n c stride ≡ true → k < n → p (c + k * stride) ≡ true
  unfolding each
  each_at zero c stride k h lt = absurd (omega arith)
  each_at (suc n) c stride zero h lt =
      let here : c + 0 * stride ≡ c = omega arith in rw here (ground arith)
  each_at (suc n) c stride (suc k) h lt =
      let later : c + suc k * stride ≡ c + stride + k * stride = grind arith in
      rw later (each_at n (c + stride) stride k (ground arith) (omega arith))

  in_run :
      (from to stride c : ℕ)
      → each ((to - from) / stride + 1) from stride ≡ true
      → from ≤ c
      → c ≤ to
      → (c - from) % stride ≡ 0
      → p c ≡ true
  in_run from to zero c h low high fits =
      let here : c ≡ from + 0 * 0 = omega (arith, mod-zero (c - from)) in
      rw here (each_at ((to - from) / 0 + 1) from 0 0 h (omega arith))
  in_run from to (suc s) c h low high fits =
      let n = (to - from) / suc s in
      let k = (c - from) / suc s in
      let below : to - from < (n + 1) * suc s =
        (div-lt_iff_lt-mul {k = suc s} {x = to - from} {y = n + 1} (omega arith)).0 (omega arith) in
      let inside : k < n + 1 =
        (div-lt_iff_lt-mul {k = suc s} {x = c - from} {y = n + 1} (omega arith)).1 (omega arith) in
      let here : c ≡ from + k * suc s = omega (arith, div-add-mod' (c - from) (suc s)) in
      rw here (each_at (n + 1) from (suc s) k h inside)

  pub every_run-changes :
      (c : ℕ) (rs : List (ℕ × ℕ × ℕ × ℕ)) → every_run rs ≡ true → (p c ≡ true) ⊎ (in_runs c rs ≡ c)
  unfolding every_run in_runs
  every_run-changes c [] h = inr refl
  every_run-changes c ((from, to, stride, out) ∷ rs) h =
      elim (Bool-cases (leb from c && leb c to && ((c - from) % stride == 0))) [
        | inl hit ↦
            inl
              (in_run from to stride c (ground arith) (ground arith) (ground arith) (ground arith))
        | inr miss ↦ rw miss (every_run-changes c rs (ground arith))
      ]

  pub every_case-changes :
      (c : ℕ) (cases : List (ℕ × List ℕ)) (default : List ℕ)
      → every_case cases ≡ true
      → (p c ≡ true) ⊎ (find_case c cases default ≡ default)
  unfolding every_case find_case
  every_case-changes c [] default h = inr refl
  every_case-changes c ((from, out) ∷ cases) default h = elim (Bool-cases (c == from)) [
    | inl hit ↦ let same : c ≡ from = ground arith in inl (rw same (ground arith))
    | inr miss ↦ rw miss (every_case-changes c cases default (ground arith))
  ]

-- A table of runs with one of longer results in front of it.
abbrev pub table : List (ℕ × List ℕ) → List (ℕ × ℕ × ℕ × ℕ) → ℕ → List ℕ
table cases runs c = find_case c cases (in_runs c runs ∷ [])

-- A test of every entry holds of each code point that the table changes.
pub table_changes :
    (p : ℕ → Bool) (cases : List (ℕ × List ℕ)) (runs : List (ℕ × ℕ × ℕ × ℕ))
    → every_case p cases ≡ true
    → every_run p runs ≡ true
    → (c : ℕ) → (p c ≡ true) ⊎ (table cases runs c ≡ c ∷ [])
table_changes p cases runs in_cases in_table c =
    elim (every_case-changes p c cases (in_runs c runs ∷ []) in_cases) [
      | inl here ↦ inl here
      | inr none_here ↦ elim (every_run-changes p c runs in_table) [
        | inl here ↦ inl here
        | inr same ↦ inr (none_here ∙ ap (λ d. d ∷ []) same)
      ]
    ]
