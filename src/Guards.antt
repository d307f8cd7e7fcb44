-- ===== src/Guards.antt =====
-- The scope guards: `sys::destructor` and `sys::optional_destructor` (sys/Destructor.h) and `sys::resource_guard`
-- (sys/ResourceGuard.h). What a destructor calls is the list it returns.
pub mod Cleanups
pub mod Scopes
use libcxxext.Prelude.{Bool, true, false, List, [], ◌∷◌, ◌++◌, Option, none, some, if◌then◌else◌}

-- The cleanup function, and whether the destructor calls it.
pub record OptionalDestructor (F : Type 0) : Type 0 where
  pub func : F
  pub execute : Bool

module _ {F : Type 0} where
  unfoldable pub guarding : F → OptionalDestructor F
  guarding func = record { func = func; execute = true }

  -- The new object and the other one.
  pub move_destructor : OptionalDestructor F → OptionalDestructor F × OptionalDestructor F
  move_destructor other = (other, record other { execute = false })

  -- `operator=` from another object, and the two after it.
  pub assign_destructor :
      OptionalDestructor F → OptionalDestructor F → OptionalDestructor F × OptionalDestructor F
  assign_destructor this other =
      (record { func = other.func; execute = other.execute }, record other { execute = false })

  unfoldable pub clear : OptionalDestructor F → OptionalDestructor F
  clear this = record this { execute = false }

  unfoldable pub run_destructor : OptionalDestructor F → List F
  run_destructor this = if this.execute then this.func ∷ [] else []

-- `resource`, a pointer that may be null
pub record ResourceGuard (R : Type 0) : Type 0 where
  pub resource : Option R

module _ {R : Type 0} where
  abbrev pub unguarded : ResourceGuard R
  unguarded = record { resource = none }

  unfoldable pub guard_resource : R → ResourceGuard R
  guard_resource r = record { resource = some r }

  unfoldable pub swap_guards : ResourceGuard R → ResourceGuard R → ResourceGuard R × ResourceGuard R
  swap_guards a b = (record a { resource = b.resource }, record b { resource = a.resource })

  pub move_guard : ResourceGuard R → ResourceGuard R × ResourceGuard R
  unfolding swap_guards
  move_guard other = swap_guards unguarded other

  unfoldable pub assign_guard :
      ResourceGuard R → ResourceGuard R → ResourceGuard R × ResourceGuard R
  unfolding swap_guards
  assign_guard this other = swap_guards this other

  -- The destructor: the resources it calls `Release` on.
  unfoldable pub release_guard : ResourceGuard R → List R
  release_guard this = elim this.resource [ none ↦ [] | some r ↦ r ∷ [] ]

-- An object with a cleanup: a `destructor`, which `_defer` makes too, calls its function in any case.
pub data Cleanup (F : Type 0) : Type 0 where
  deferred : F → Cleanup F
  optional : OptionalDestructor F → Cleanup F

module _ {F : Type 0} where
  unfoldable pub run_cleanup : Cleanup F → List F
  run_cleanup (deferred func) = func ∷ []
  run_cleanup (optional d) = run_destructor d

  -- The end of a scope, by its objects in the order of their construction: the last one is first
  -- destroyed.
  unfoldable pub scope_end : List (Cleanup F) → List F
  scope_end [] = []
  scope_end (object ∷ objects) = scope_end objects ++ run_cleanup object
