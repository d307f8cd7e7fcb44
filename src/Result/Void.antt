-- ===== src/Result/Void.antt =====
-- The specialization `sys::result<void, void>` (sys/Result.h), which is its status alone, against the
-- general template with `void` for both types.
use libcxxext.Prelude.{ℕ, ◌≡◌, refl, Option, none, arith}
use libcxxext.Prelude.Outcome.{Outcome, done, violated, ◌>>=◌}
use libcxxext.Result.{
  Status, ok, error, empty, void_type, raw, Result, take_from, move_ctor, destroy, assign, exchange,
  swap, expect, expect_err,
}

-- Each returns the object and, after it, the other one that it changes.
unfoldable pub void_move_ctor : Status → Status × Status
void_move_ctor other = (other, empty)

unfoldable pub void_swap : Status → Status → Status × Status
void_swap a b = (b, a)

unfoldable pub void_assign : Status → Status → Status × Status
unfolding void_swap
void_assign this other = void_swap this other

unfoldable pub void_expect : Status → Outcome Status
void_expect status = elim status [ ok ↦ done empty | _ ↦ violated ]

unfoldable pub void_expect_err : Status → Outcome Status
void_expect_err status = elim status [ error ↦ done empty | _ ↦ violated ]

-- The general template's result of the same status.
abbrev pub general : Status → Result Unit Unit
general status = record { storage = raw; status = status }

abbrev pub generals : Status × Status → Outcome (Result Unit Unit × Result Unit Unit)
generals p = done (general p.0, general p.1)

abbrev pub general_expect : Outcome Status → Outcome (Option (Unit {0}) × Result Unit Unit)
general_expect o = o >>= λ s. done (none, general s)

pub void_expect-general :
    (s : Status)
    → (expect void_type void_type (general s) ≡ general_expect (void_expect s))
      × (expect_err void_type void_type (general s) ≡ general_expect (void_expect_err s))
unfolding expect expect_err void_expect void_expect_err
void_expect-general ok = (refl, refl)
void_expect-general error = (refl, refl)
void_expect-general empty = (refl, refl)

pub void_move_ctor-general :
    (s : Status) → move_ctor void_type void_type (general s) ≡ generals (void_move_ctor s)
unfolding move_ctor take_from void_move_ctor
void_move_ctor-general ok = refl
void_move_ctor-general error = refl
void_move_ctor-general empty = refl

pub void_swap-general :
    (n m : ℕ) (s t : Status)
    → swap void_type void_type n m (general s) (general t) ≡ generals (void_swap s t)
unfolding swap exchange move_ctor assign destroy take_from void_swap
void_swap-general n m ok ok = ground arith
void_swap-general n m _ _ = ground arith

pub void_assign-general :
    (s t : Status)
    → (assign void_type void_type (general s) (general t)
        ≡ done (general (void_assign s t).0, general empty))
      × ((void_assign s t).1 ≡ s)
unfolding assign destroy take_from void_assign void_swap
void_assign-general ok ok = (refl, refl)
void_assign-general _ _ = ground arith
