-- ===== src/Result.antt =====
-- `sys::result<T, Err>` (sys/Result.h): the tagged union and the lifetimes of its contents.
pub mod Lifetimes
pub mod Exchange
pub mod Taking
pub mod Nullable
pub mod Void
use libcxxext.Prelude.{
  ℕ, Bool, true, false, ◌&&◌, ◌||◌, ltb, leb, if◌then◌else◌, Option, none, some,
}
use libcxxext.Prelude.Outcome.{Outcome, done, violated, undefined, ◌>>=◌}

pub data Status : Type 0 where
  ok error empty : Status

-- What the source's `if constexpr` tells apart of `T` and `Err`: `void`, a reference, which is stored as
-- a pointer, and an object type.
pub data Kind : Type 0 where
  void_type reference object : Kind

-- The storage: uninitialized, or with a value or an error (or the pointer to one).
pub data Storage (A E : Type 0) : Type 0 where
  raw : Storage A E
  value_at : A → Storage A E
  error_at : E → Storage A E

pub record Result (A E : Type 0) : Type 0 where
  pub storage : Storage A E
  pub status : Status

abbrev pub is_object : Kind → Bool
is_object object = true
is_object _ = false

abbrev pub is_void : Kind → Bool
is_void void_type = true
is_void _ = false

-- A result that holds nothing, as `result(decltype(unsafe))` makes it.
abbrev pub fresh : {A E : Type 0} → Result A E
fresh = record { storage = raw; status = empty }

-- Whether `swap` moves its second argument to the temporary, by the sizes of the storage types and that
-- argument's status.
abbrev pub b_first : ℕ → ℕ → Status → Bool
b_first value_size err_size ok = ltb value_size err_size
b_first value_size err_size error = leb err_size value_size
b_first value_size err_size empty = true

module _ {A E : Type 0} (value_kind err_kind : Kind) where
  -- Whether an object lives in the storage, which has to be destroyed before the storage is used again.
  abbrev pub has_object : Storage A E → Bool
  has_object raw = false
  has_object (value_at x) = is_object value_kind
  has_object (error_at x) = is_object err_kind

  unfoldable pub ctor_ok : A → Result A E → Outcome (Result A E)
  ctor_ok x r =
      if has_object r.storage
      then undefined
      else done (record { storage = value_at x; status = ok })

  unfoldable pub ctor_err : E → Result A E → Outcome (Result A E)
  ctor_err e r =
      if has_object r.storage
      then undefined
      else done (record { storage = error_at e; status = error })

  -- `move(unsafe)`: the value, and the result that it is taken from.
  unfoldable pub move_unsafe : Result A E → Outcome (A × Result A E)
  move_unsafe r = elim r.storage [
    | value_at x ↦
        done
          (x, record { storage = if is_object value_kind then raw else r.storage; status = empty })
    | _ ↦ undefined
  ]

  -- `err(unsafe)`
  unfoldable pub err_unsafe : Result A E → Outcome (E × Result A E)
  err_unsafe r = elim r.storage [
    | error_at e ↦
        done (e, record { storage = if is_object err_kind then raw else r.storage; status = empty })
    | _ ↦ undefined
  ]

  -- The second `switch` of the move constructor and of the move assignment: `r` becomes what `other`
  -- was.
  unfoldable pub take_from : Result A E → Result A E → Outcome (Result A E × Result A E)
  take_from r other = elim other.status [
    | ok ↦ elim value_kind [
      | void_type ↦ done (record r { status = ok }, record other { status = empty })
      | _ ↦ do taken ← move_unsafe other; made ← ctor_ok taken.0 r; done (made, taken.1)
    ]
    | error ↦ elim err_kind [
      | void_type ↦ done (record r { status = error }, record other { status = empty })
      | _ ↦ do taken ← err_unsafe other; made ← ctor_err taken.0 r; done (made, taken.1)
    ]
    | empty ↦ done (r, record other { status = empty })
  ]

  pub move_ctor : Result A E → Outcome (Result A E × Result A E)
  move_ctor other = take_from fresh other

  abbrev destroy_value : Storage A E → Outcome (Storage A E)
  destroy_value (value_at x) = done raw
  destroy_value _ = undefined

  abbrev destroy_error : Storage A E → Outcome (Storage A E)
  destroy_error (error_at e) = done raw
  destroy_error _ = undefined

  -- The destructor, and the first `switch` of the move assignment: the storage that is left.
  unfoldable pub destroy : Result A E → Outcome (Storage A E)
  destroy r = elim r.status [
    | ok ↦ if is_object value_kind then destroy_value r.storage else done r.storage
    | error ↦ if is_object err_kind then destroy_error r.storage else done r.storage
    | empty ↦ done r.storage
  ]

  -- The move assignment from another result.
  pub assign : Result A E → Result A E → Outcome (Result A E × Result A E)
  assign r other = do left ← destroy r; take_from (record { storage = left; status = empty }) other

  pub is_good : Result A E → Bool
  is_good r = elim r.status [ ok ↦ true | _ ↦ false ]

  pub is_bad : Result A E → Bool
  is_bad r = elim r.status [ error ↦ true | _ ↦ false ]

  -- `move()`, with the contract that the result is good.
  pub move : Result A E → Outcome (A × Result A E)
  move r = elim r.status [ ok ↦ move_unsafe r | _ ↦ violated ]

  pub move_or : A → Result A E → Outcome (A × Result A E)
  move_or other r = elim r.status [ ok ↦ move_unsafe r | _ ↦ done (other, r) ]

  -- `expect()`, which returns nothing if `T` is `void`.
  pub expect : Result A E → Outcome (Option A × Result A E)
  expect r = elim r.status [
    | ok ↦ elim value_kind [
      | void_type ↦ done (none, record r { status = empty })
      | _ ↦ do taken ← move_unsafe r; done (some taken.0, taken.1)
    ]
    | _ ↦ violated
  ]

  pub err : Result A E → Outcome (E × Result A E)
  err r = elim r.status [ error ↦ err_unsafe r | _ ↦ violated ]

  pub expect_err : Result A E → Outcome (Option E × Result A E)
  expect_err r = elim r.status [
    | error ↦ elim err_kind [
      | void_type ↦ done (none, record r { status = empty })
      | _ ↦ do taken ← err_unsafe r; done (some taken.0, taken.1)
    ]
    | _ ↦ violated
  ]

  -- `swap(a, b)` of two results, with the sizes of the storage types: the storage of the temporary, when
  -- its destructor has run, is nobody's.
  unfoldable pub exchange : Result A E → Result A E → Outcome (Result A E × Result A E)
  exchange first second = do
    tmp ← move_ctor first
    moved ← assign tmp.1 second
    last ← assign moved.1 tmp.0
    left ← destroy last.1
    if has_object left then undefined else done (moved.0, last.0)

  pub swap : ℕ → ℕ → Result A E → Result A E → Outcome (Result A E × Result A E)
  swap value_size err_size a b =
      let through_b = (do swapped ← exchange b a; done (swapped.1, swapped.0)) in
      if b_first value_size err_size b.status then through_b else exchange a b

  -- `swap(a, a)`, where the middle assignment is from a result to itself, which returns at once.
  pub swap_self : Result A E → Outcome (Result A E)
  swap_self a = do
    tmp ← move_ctor a
    last ← assign tmp.1 tmp.0
    left ← destroy last.1
    if has_object left then undefined else done last.0

-- `operator result<T, void>() &&`: the result with a single error state, and what is left of this one.
pub to_single_error :
    {A E : Type 0} → Kind → Kind → Result A E → Outcome (Result A Unit × Result A E)
to_single_error value_kind err_kind r = elim r.status [
  | ok ↦ if is_void value_kind then done (record { storage = raw; status = ok }, r) else do
    taken ← move_unsafe value_kind err_kind r
    made ← ctor_ok value_kind void_type taken.0 fresh
    done (made, taken.1)
  | error ↦ done (record { storage = raw; status = error }, r)
  | empty ↦ done (fresh, r)
]
