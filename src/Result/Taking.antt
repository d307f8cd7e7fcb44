-- ===== src/Result/Taking.antt =====
-- Taking what a result holds, and the contracts of doing so.
use libcxxext.Prelude.{true, false, ◌≡◌, ◌⊎◌, refl, arith, inl, inr, none, some}
use libcxxext.Prelude.Outcome.{Outcome, done, violated}
use libcxxext.Result.{
  Result, Kind, void_type, reference, object, Storage, raw, value_at, Status, ok, error, empty,
}
use libcxxext.Result.{is_void, ctor_ok, move_unsafe, is_good, move, move_or, to_single_error}
use libcxxext.Result.Lifetimes.{IsValid, contents, Held, good, bad, nothing}

module _ {A E : Type 0} where
  -- `x` is taken out of `r`, which leaves a valid result that holds nothing.
  abbrev pub Takes : Kind → Kind → Outcome (A × Result A E) → Result A E → Type 0
  Takes value_kind err_kind o r =
      (x : A) × (left : Result A E) × (o ≡ done (x, left))
      × (contents value_kind err_kind r ≡ good (some x))
      × IsValid value_kind err_kind left
      × (contents value_kind err_kind left ≡ nothing)

  take_value :
      (value_kind err_kind : Kind) (s : Storage A E) (t : Status)
      → is_void value_kind ≡ false
      → IsValid value_kind err_kind (record { storage = s; status = t })
      → t ≡ ok
      → Takes value_kind err_kind
          (move_unsafe value_kind err_kind (record { storage = s; status = t }))
          (record { storage = s; status = t })
  unfolding move_unsafe
  take_value reference err_kind (value_at x) ok n v e = (x, _, refl, refl, refl, refl)
  take_value object err_kind (value_at x) ok n v e = (x, _, refl, refl, refl, refl)
  take_value void_type err_kind raw ok n v e = ground arith
  take_value _ _ _ _ n v e = ground arith

  -- What `move` and `move_or` do to a result: both take the value of a good one; of another, `move` breaks
  -- its contract, and `move_or` returns its argument and changes nothing.
  abbrev pub TakesOr : Kind → Kind → A → Result A E → Type 0
  TakesOr value_kind err_kind other r =
      ((is_good value_kind err_kind r ≡ true)
        × Takes value_kind err_kind (move value_kind err_kind r) r
        × Takes value_kind err_kind (move_or value_kind err_kind other r) r)
      ⊎ ((is_good value_kind err_kind r ≡ false)
          × (move value_kind err_kind r ≡ violated)
          × (move_or value_kind err_kind other r ≡ done (other, r)))

  taken_or :
      (value_kind err_kind : Kind) (other : A) (s : Storage A E) (t : Status)
      → is_void value_kind ≡ false
      → IsValid value_kind err_kind (record { storage = s; status = t })
      → TakesOr value_kind err_kind other (record { storage = s; status = t })
  unfolding move move_or is_good
  taken_or value_kind err_kind other s ok n v =
      let taken = take_value value_kind err_kind s ok n v refl in inl (refl, taken, taken)
  taken_or value_kind err_kind other s error n v = inr (refl, refl, refl)
  taken_or value_kind err_kind other s empty n v = inr (refl, refl, refl)

  -- Of a result whose storage has what its status says and no object beside it, at a value type
  -- that is not void, `move` and `move_or` both take the value and leave it empty if it is good; if
  -- not, `move` violates its contract, and `move_or` returns its argument and changes nothing.
  pub move-TakesOr :
      (value_kind err_kind : Kind) (other : A) (r : Result A E)
      → is_void value_kind ≡ false
      → IsValid value_kind err_kind r
      → TakesOr value_kind err_kind other r
  move-TakesOr value_kind err_kind other r n v =
      taken_or value_kind err_kind other r.storage r.status n v

  -- The view that forgets which error it is.
  abbrev pub without_error : Held A E → Held A Unit
  without_error (good x) = good x
  without_error (bad e) = bad none
  without_error nothing = nothing

  abbrev pub Forgets : Kind → Kind → Outcome (Result A Unit × Result A E) → Result A E → Type 0
  Forgets value_kind err_kind o r =
      (made : Result A Unit) × (left : Result A E) × (o ≡ done (made, left))
      × IsValid value_kind void_type made
      × IsValid value_kind err_kind left
      × (contents value_kind void_type made ≡ without_error (contents value_kind err_kind r))

  forgotten :
      (value_kind err_kind : Kind) (s : Storage A E) (t : Status)
      → IsValid value_kind err_kind (record { storage = s; status = t })
      → Forgets value_kind err_kind
          (to_single_error value_kind err_kind (record { storage = s; status = t }))
          (record { storage = s; status = t })
  unfolding to_single_error move_unsafe ctor_ok
  forgotten void_type err_kind s ok v = (_, _, refl, refl, v, refl)
  forgotten reference err_kind (value_at x) ok v = (_, _, refl, refl, refl, refl)
  forgotten object err_kind (value_at x) ok v = (_, _, refl, refl, refl, refl)
  forgotten value_kind err_kind s error v = (_, _, refl, refl, v, refl)
  forgotten value_kind err_kind s empty v = (_, _, refl, refl, v, refl)
  forgotten _ _ _ _ v = ground arith

  pub to_single_error-Forgets :
      (value_kind err_kind : Kind) (r : Result A E)
      → IsValid value_kind err_kind r
      → Forgets value_kind err_kind (to_single_error value_kind err_kind r) r
  to_single_error-Forgets value_kind err_kind r v =
      forgotten value_kind err_kind r.storage r.status v
