-- ===== src/Result/Exchange.antt =====
-- `swap` of two results, and of a result with itself.
use libcxxext.Prelude.{ℕ, Bool, true, false, ◌≡◌, refl, ◌∙◌, if◌then◌else◌}
use libcxxext.Prelude.Outcome.{Outcome, done, ◌>>=◌}
use libcxxext.Result.{Result, Kind, exchange, b_first, swap, swap_self}
use libcxxext.Result.Lifetimes.{IsValid, contents, move_ctor-Moves, assign-Moves, destroy_leaves}

module _ {A E : Type 0} (value_kind err_kind : Kind) where
  -- Two valid results that hold what `b` and what `a` held.
  abbrev pub Exchanges : Outcome (Result A E × Result A E) → Result A E → Result A E → Type 0
  Exchanges o a b =
      (a' : Result A E) × (b' : Result A E) × (o ≡ done (a', b'))
      × IsValid value_kind err_kind a'
      × IsValid value_kind err_kind b'
      × (contents value_kind err_kind a' ≡ contents value_kind err_kind b)
      × (contents value_kind err_kind b' ≡ contents value_kind err_kind a)

  exchange-Exchanges :
      (a b : Result A E)
      → IsValid value_kind err_kind a
      → IsValid value_kind err_kind b
      → Exchanges (exchange value_kind err_kind a b) a b
  unfolding exchange
  exchange-Exchanges a b v w =
      let (tmp, a1, run1, valid_tmp, valid_a1, tmp_is, a1_is) =
        move_ctor-Moves value_kind err_kind a v in
      let (a2, b1, run2, valid_a2, valid_b1, a2_is, b1_is) =
        assign-Moves value_kind err_kind a1 b valid_a1 w in
      let (b2, tmp1, run3, valid_b2, valid_tmp1, b2_is, tmp1_is) =
        assign-Moves value_kind err_kind b1 tmp valid_b1 valid_tmp in
      let (left, run4, gone) = destroy_leaves value_kind err_kind tmp1 valid_tmp1 in
      (a2, b2, rw (run1, run2, run3, run4, gone) refl, valid_a2, valid_b2, a2_is, b2_is ∙ tmp_is)

  in_order :
      (swapped : Bool) (a b : Result A E)
      → IsValid value_kind err_kind a
      → IsValid value_kind err_kind b
      → Exchanges
          (if swapped
            then (exchange value_kind err_kind b a >>= λ r. done (r.1, r.0))
            else exchange value_kind err_kind a b)
          a
          b
  in_order true a b v w =
      let (b', a', run, valid_b, valid_a, b_is, a_is) = exchange-Exchanges b a w v in
      (a', b', rw run refl, valid_a, valid_b, a_is, b_is)
  in_order false a b v w = exchange-Exchanges a b v w

  -- For value and error types of every kind and size, `swap` of two different results whose storage
  -- has what its status says and no object beside it, succeeds and exchanges what they hold, and
  -- leaves such results.
  pub swap-Exchanges :
      (value_size err_size : ℕ) (a b : Result A E)
      → IsValid value_kind err_kind a
      → IsValid value_kind err_kind b
      → Exchanges (swap value_kind err_kind value_size err_size a b) a b
  unfolding swap
  swap-Exchanges value_size err_size a b v w =
      in_order (b_first value_size err_size b.status) a b v w

  pub swap_self-IsValid :
      (a : Result A E)
      → IsValid value_kind err_kind a
      → (a' : Result A E) × (swap_self value_kind err_kind a ≡ done a')
        × IsValid value_kind err_kind a'
        × (contents value_kind err_kind a' ≡ contents value_kind err_kind a)
  unfolding swap_self
  swap_self-IsValid a v =
      let (tmp, a1, run1, valid_tmp, valid_a1, tmp_is, a1_is) =
        move_ctor-Moves value_kind err_kind a v in
      let (a2, tmp1, run2, valid_a2, valid_tmp1, a2_is, tmp1_is) =
        assign-Moves value_kind err_kind a1 tmp valid_a1 valid_tmp in
      let (left, run3, gone) = destroy_leaves value_kind err_kind tmp1 valid_tmp1 in
      (a2, rw (run1, run2, run3, gone) refl, valid_a2, a2_is ∙ tmp_is)
