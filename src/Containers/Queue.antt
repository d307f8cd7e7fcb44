-- ===== src/Containers/Queue.antt =====
-- `sys::inplace_queue` (sys.Containers/InplaceQueue.h): a circular buffer of `length items` elements.
pub mod Window
pub mod Fifo
pub mod Traces
pub mod Iterators
use libcxxext.Prelude.{ℕ, zero, suc, ◌+◌, ◌-◌, ◌%◌, Bool, true, false, not, ◌&&◌, List, [], ◌∷◌}
use libcxxext.Prelude.{ltb, leb, ◌==◌, if◌then◌else◌, length, get_or, set}

pub record InplaceQueue {ℓ} (A : Type ℓ) : Type ℓ where
  pub items : List A
  pub begin : ℕ
  pub end : ℕ
  pub full : Bool

module _ {ℓ} {A : Type ℓ} where
  abbrev pub capacity : InplaceQueue A → ℕ
  capacity q = length q.items

  unfoldable pub size : InplaceQueue A → ℕ
  size q =
      if q.full
      then capacity q
      else if leb q.begin q.end
      then q.end - q.begin
      else capacity q - q.begin + q.end

  unfoldable pub empty : InplaceQueue A → Bool
  unfolding size
  empty q = size q == 0

  pub enqueue : A → InplaceQueue A → Bool × InplaceQueue A
  enqueue item q =
      let next = (q.end + 1) % capacity q in
      if q.full then (false, q) else (
        true,
        record q {
          items = set q.items q.end item;
          end = next;
          full = if next == q.begin then true else q.full;
        },
      )

  -- `out` is the caller's variable, which an empty queue leaves alone.
  pub try_dequeue : A → InplaceQueue A → Bool × A × InplaceQueue A
  try_dequeue out q = if not q.full && (q.begin == q.end) then (false, out, q) else (
    true,
    get_or q.items q.begin out,
    record q { begin = (q.begin + 1) % capacity q; full = false },
  )
