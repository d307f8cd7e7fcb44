-- ===== src/Result/Lifetimes.antt =====
-- The lifetimes of what a result holds: the moves, assignments and destructors of valid results destroy
-- each object once, and lose none.
use libcxxext.Prelude.{Bool, true, false, ◌≡◌, refl, arith, Option, none, some}
use libcxxext.Prelude.{if◌then◌else◌}
use libcxxext.Prelude.Outcome.{Outcome, done}
use libcxxext.Result.{Status, ok, error, empty, Kind, void_type, Storage, raw, value_at, error_at}
use libcxxext.Result.{
  Result, is_void, fresh, has_object, ctor_ok, ctor_err, move_unsafe, err_unsafe,
}
use libcxxext.Result.{take_from, move_ctor, destroy, assign}

-- What a result holds, whatever the storage: a good value, an error (`none` for one of type `void`), or
-- nothing.
pub data Held (A E : Type 0) : Type 0 where
  good : Option A → Held A E
  bad : Option E → Held A E
  nothing : Held A E

module _ {A E : Type 0} where
  abbrev value_of : Storage A E → Option A
  value_of (value_at x) = some x
  value_of _ = none

  abbrev error_of : Storage A E → Option E
  error_of (error_at e) = some e
  error_of _ = none

  abbrev has_value : Storage A E → Bool
  has_value (value_at x) = true
  has_value _ = false

  abbrev has_error : Storage A E → Bool
  has_error (error_at e) = true
  has_error _ = false

module _ {A E : Type 0} (value_kind err_kind : Kind) where
  abbrev pub contents : Result A E → Held A E
  contents r = elim r.status [
    | ok ↦ good (if is_void value_kind then none else value_of r.storage)
    | error ↦ bad (if is_void err_kind then none else error_of r.storage)
    | empty ↦ nothing
  ]

  -- The storage has what the status says, and no object beside it.
  abbrev pub IsValid : Result A E → Type 0
  IsValid r = elim r.status [
    | ok ↦
        (if is_void value_kind
          then has_object value_kind err_kind r.storage
          else has_value r.storage)
        ≡ (if is_void value_kind then false else true)
    | error ↦
        (if is_void err_kind then has_object value_kind err_kind r.storage else has_error r.storage)
        ≡ (if is_void err_kind then false else true)
    | empty ↦ has_object value_kind err_kind r.storage ≡ false
  ]

  -- What a move leaves behind, and what it makes of an empty result.
  abbrev drained : Result A E → Result A E
  drained other = record {
    storage = if has_object value_kind err_kind other.storage then raw else other.storage;
    status = empty;
  }

  abbrev becomes : Result A E → Result A E → Result A E
  becomes r other = record {
    storage = elim other.status [
      | ok ↦ if is_void value_kind then r.storage else other.storage
      | error ↦ if is_void err_kind then r.storage else other.storage
      | empty ↦ r.storage
    ];
    status = other.status;
  }

module _ {A E : Type 0} where
  take_from_lem :
      (value_kind err_kind : Kind) (s : Storage A E) (t : Status) (r : Result A E)
      → has_object value_kind err_kind r.storage ≡ false
      → r.status ≡ empty
      → IsValid value_kind err_kind (record { storage = s; status = t })
      → take_from value_kind err_kind r (record { storage = s; status = t })
        ≡ done (
          becomes value_kind err_kind r (record { storage = s; status = t }),
          drained value_kind err_kind (record { storage = s; status = t }),
        )
  unfolding take_from move_unsafe err_unsafe ctor_ok ctor_err
  take_from_lem void_type void_type raw ok r h e v = ground arith
  take_from_lem _ _ _ _ r h e v = ground arith

  drained-IsValid :
      (value_kind err_kind : Kind) (s : Storage A E) (t : Status)
      → IsValid value_kind err_kind (record { storage = s; status = t })
      → IsValid value_kind err_kind
          (drained value_kind err_kind (record { storage = s; status = t }))
  drained-IsValid void_type void_type raw ok v = ground arith
  drained-IsValid _ _ _ _ v = ground arith

  becomes-IsValid :
      (value_kind err_kind : Kind) (s : Storage A E) (t : Status) (r : Result A E)
      → has_object value_kind err_kind r.storage ≡ false
      → IsValid value_kind err_kind (record { storage = s; status = t })
      → IsValid value_kind err_kind
          (becomes value_kind err_kind r (record { storage = s; status = t }))
  becomes-IsValid void_type void_type raw ok r h v = ground arith
  becomes-IsValid _ _ _ _ r h v = ground arith

  contents-becomes :
      (value_kind err_kind : Kind) (s : Storage A E) (t : Status) (r : Result A E)
      → contents value_kind err_kind
          (becomes value_kind err_kind r (record { storage = s; status = t }))
        ≡ contents value_kind err_kind (record { storage = s; status = t })
  contents-becomes void_type void_type raw ok r = ground arith
  contents-becomes _ _ _ _ r = ground arith

  destroyed :
      (value_kind err_kind : Kind) (s : Storage A E) (t : Status)
      → IsValid value_kind err_kind (record { storage = s; status = t })
      → destroy value_kind err_kind (record { storage = s; status = t })
        ≡ done (if has_object value_kind err_kind s then raw else s)
  unfolding destroy
  destroyed void_type void_type raw ok v = ground arith
  destroyed _ _ _ _ v = ground arith

  no_object :
      (value_kind err_kind : Kind) (s : Storage A E)
      → has_object value_kind err_kind (if has_object value_kind err_kind s then raw else s) ≡ false
  no_object value_kind err_kind s = ground arith

module _ {A E : Type 0} (value_kind err_kind : Kind) where
  -- A move from a result: what it makes holds what the other held, and the other holds nothing.
  abbrev pub Moves : Outcome (Result A E × Result A E) → Result A E → Type 0
  Moves o other =
      (made : Result A E) × (left : Result A E) × (o ≡ done (made, left))
      × IsValid value_kind err_kind made
      × IsValid value_kind err_kind left
      × (contents value_kind err_kind made ≡ contents value_kind err_kind other)
      × (contents value_kind err_kind left ≡ nothing)

  take_from-Moves :
      (r other : Result A E)
      → has_object value_kind err_kind r.storage ≡ false
      → r.status ≡ empty
      → IsValid value_kind err_kind other
      → Moves (take_from value_kind err_kind r other) other
  take_from-Moves r other h e v = (
    becomes value_kind err_kind r other,
    drained value_kind err_kind other,
    take_from_lem value_kind err_kind other.storage other.status r h e v,
    becomes-IsValid value_kind err_kind other.storage other.status r h v,
    drained-IsValid value_kind err_kind other.storage other.status v,
    contents-becomes value_kind err_kind other.storage other.status r,
    refl,
  )

  pub move_ctor-Moves :
      (other : Result A E)
      → IsValid value_kind err_kind other
      → Moves (move_ctor value_kind err_kind other) other
  unfolding move_ctor
  move_ctor-Moves other v = take_from-Moves fresh other refl refl v

  pub destroy_leaves :
      (r : Result A E)
      → IsValid value_kind err_kind r
      → (left : Storage A E) × (destroy value_kind err_kind r ≡ done left)
        × (has_object value_kind err_kind left ≡ false)
  destroy_leaves r v = (
    _,
    destroyed value_kind err_kind r.storage r.status v,
    no_object value_kind err_kind r.storage,
  )

  -- For a value type and an error type that are objects, references or void, move assignment
  -- between two different results whose storage has what its status says and no object beside it,
  -- succeeds: the result assigned to holds what the other held, the other holds nothing, both are
  -- again such results, and no object is overwritten, left behind or destroyed twice.
  pub assign-Moves :
      (r other : Result A E)
      → IsValid value_kind err_kind r
      → IsValid value_kind err_kind other
      → Moves (assign value_kind err_kind r other) other
  unfolding assign
  assign-Moves r other v w =
      let (left, run, gone) = destroy_leaves r v in
      rw run (take_from-Moves (record { storage = left; status = empty }) other gone refl w)
