-- ===== src/Result/Nullable.antt =====
-- `nullable_value_result<T>` (sys/Result.h), the result that is bad just when its value is null, and
-- its use for pointers, `result<T*>`.
use libcxxext.Prelude.{
  Bool, true, false, not, ◌≡◌, refl, arith, if◌then◌else◌, inl, inr, Option, none, some,
}
use libcxxext.Prelude.Outcome.{Outcome, done, violated, ◌>>=◌}
use libcxxext.Result.{Result, Kind, is_void, Storage, Status, ok, error, empty, move}
use libcxxext.Result.Lifetimes.{IsValid, contents, nothing}
use libcxxext.Result.Taking.{move-TakesOr}

pub record NullableResult (T : Type 0) : Type 0 where
  pub value : T

-- `T {}`, whether a `T` is null, and what a move leaves of one.
module _ {T : Type 0} (default : T) (is_null : T → Bool) (moved_from : T → T) where
  unfoldable pub nullable_swap :
      NullableResult T → NullableResult T → NullableResult T × NullableResult T
  nullable_swap a b = (record { value = b.value }, record { value = a.value })

  unfoldable pub nullable_move_ctor : NullableResult T → NullableResult T × NullableResult T
  unfolding nullable_swap
  nullable_move_ctor other = nullable_swap (record { value = default }) other

  unfoldable pub nullable_assign :
      NullableResult T → NullableResult T → NullableResult T × NullableResult T
  unfolding nullable_swap
  nullable_assign this other = nullable_swap this other

  unfoldable pub is_nonnull : NullableResult T → Bool
  is_nonnull r = not (is_null r.value)

  abbrev pub taken : NullableResult T → T × NullableResult T
  taken r = (r.value, record { value = moved_from r.value })

  -- `move()`, and `expect()`, which has the same body.
  unfoldable pub nullable_move : NullableResult T → Outcome (T × NullableResult T)
  unfolding is_nonnull
  nullable_move r = if is_nonnull r then done (taken r) else violated

  unfoldable nullable_move_or : T → NullableResult T → T × NullableResult T
  unfolding is_nonnull
  nullable_move_or other r = if not (is_nonnull r) then (other, r) else taken r

  unfoldable nullable_expect_err : NullableResult T → Outcome (NullableResult T)
  unfolding is_nonnull
  nullable_expect_err r = if not (is_nonnull r) then done r else violated

-- A pointer, which may be null, and which a move copies.
module _ {A : Type 0} where
  abbrev null_pointer : Option A → Bool
  null_pointer none = true
  null_pointer (some x) = false

  abbrev copied : Option A → Option A
  copied p = p

  -- `move()` of a `result<A*>`
  unfoldable pub pointer_move :
      NullableResult (Option A) → Outcome (Option A × NullableResult (Option A))
  unfolding nullable_move
  pointer_move = nullable_move none null_pointer copied

  -- The pointers that two calls of `move()` return.
  abbrev pub pointer_move_twice : NullableResult (Option A) → Outcome (Option A × Option A)
  pointer_move_twice r = do
    first ← pointer_move r
    second ← pointer_move first.1
    done (first.0, second.0)

  pub pointer_move_twice_same :
      (x : A) → pointer_move_twice (record { value = some x }) ≡ done (some x, some x)
  unfolding pointer_move is_nonnull
  pointer_move_twice_same x = refl

-- The values that two calls of `move()` return.
abbrev pub move_twice : {A E : Type 0} → Kind → Kind → Result A E → Outcome (A × A)
move_twice value_kind err_kind r = do
  first ← move value_kind err_kind r
  second ← move value_kind err_kind first.1
  done (first.0, second.0)

violated_after :
    {A E : Type 0} (value_kind err_kind : Kind) (s : Storage A E) (t : Status)
    → contents value_kind err_kind (record { storage = s; status = t }) ≡ nothing
    → move value_kind err_kind (record { storage = s; status = t }) ≡ violated
unfolding move
violated_after value_kind err_kind s ok h = ground (arith, h)
violated_after value_kind err_kind s error h = refl
violated_after value_kind err_kind s empty h = refl

pub move_twice_violated :
    {A E : Type 0} (value_kind err_kind : Kind) (other : A) (r : Result A E)
    → is_void value_kind ≡ false
    → IsValid value_kind err_kind r
    → move_twice value_kind err_kind r ≡ violated
move_twice_violated value_kind err_kind other r n v =
    elim (move-TakesOr value_kind err_kind other r n v) [
      | inl (good, (x, left, run, held, valid, emptied), _) ↦
          rw (run, violated_after value_kind err_kind left.storage left.status emptied) refl
      | inr (bad, run, _) ↦ rw run refl
    ]

-- A second `move` from a result whose storage has what its status says and no object beside it, at
-- a value type that is not void, violates the contract of `move`, unlike one from a `result<T*>`,
-- which returns the same pointer again.
pub second_move :
    {A E : Type 0} (value_kind err_kind : Kind) (x : A) (r : Result A E)
    → is_void value_kind ≡ false
    → IsValid value_kind err_kind r
    → (move_twice value_kind err_kind r ≡ violated)
      × (pointer_move_twice (record { value = some x }) ≡ done (some x, some x))
second_move value_kind err_kind x r n v =
    (move_twice_violated value_kind err_kind x r n v, pointer_move_twice_same x)
