-- ===== src/Threading/Thread/Handles.antt =====
-- `sys::thread_id` and `sys::thread` (sys.Threading/ThreadEx.h), which hold a handle and own nothing,
-- and their results, specializations of `nullable_value_result`.
use libcxxext.Prelude.{ℕ, Bool, true, false, not, ◌≡◌, ◌↔◌, refl, arith, ◌==◌, Option, none, some}
use libcxxext.Prelude.Outcome.{Outcome, done, violated, ◌>>=◌}
use libcxxext.Result.Nullable.{NullableResult, nullable_move, is_nonnull}

-- A handle: `none` for `nullptr`. Both classes have the same moves; only an id is copied.
pub record Handle : Type 0 where
  pub th : Option ℕ

abbrev pub empty_handle : Handle
empty_handle = record { th = none }

unfoldable pub swap_handles : Handle → Handle → Handle × Handle
swap_handles a b = (record { th = b.th }, record { th = a.th })

-- The move constructor; what it leaves comes second.
unfoldable pub move_handle : Handle → Handle × Handle
unfolding swap_handles
move_handle other = swap_handles empty_handle other

unfoldable pub assign_handle : Handle → Handle → Handle × Handle
unfolding swap_handles
assign_handle this other = swap_handles this other

-- `operator bool`
abbrev pub is_valid : Handle → Bool
is_valid h = elim h.th [ none ↦ false | some t ↦ true ]

abbrev pub same_handle : Option ℕ → Option ℕ → Bool
same_handle none none = true
same_handle none (some t) = false
same_handle (some t) none = false
same_handle (some t) (some s) = t == s

-- `operator==` of two ids
unfoldable pub same_id : Handle → Handle → Bool
same_id a b = same_handle a.th b.th

-- `thread::id`, `managed_thread::thread`, and `thread_current` of a thread
unfoldable pub id : Handle → Handle
id h = record { th = h.th }

unfoldable pub thread_of : Option ℕ → Handle
thread_of th = record { th = th }

unfoldable pub thread_current : ℕ → Handle
thread_current self = record { th = some self }

-- `move()` of `result<thread>`, of `result<thread_id>` and of `result<managed_thread>`
unfoldable pub handle_move : NullableResult Handle → Outcome (Handle × NullableResult Handle)
unfolding nullable_move move_handle
handle_move = nullable_move empty_handle (λ h. not (is_valid h)) (λ h. (move_handle h).1)

abbrev pub handle_move_twice : NullableResult Handle → Outcome (Handle × Handle)
handle_move_twice r = do
  first ← handle_move r
  second ← handle_move first.1
  done (first.0, second.0)

-- A move out of a result of a thread leaves none behind, so that a second one violates its contract, and
-- the thread that came out has the id of the one that was put in.
pub handle_move_once :
    (t : ℕ)
    → (handle_move (record { value = thread_current t })
        ≡ done (thread_current t, record { value = empty_handle }))
      × (handle_move_twice (record { value = thread_current t }) ≡ violated)
      × ((s : ℕ) → (same_id (id (thread_current t)) (id (thread_current s)) ≡ true) ↔ (t ≡ s))
unfolding handle_move is_nonnull thread_current move_handle same_id id
handle_move_once t = (refl, refl, λ s. ground arith)
