-- ===== src/Containers/Vector/Programs.antt =====
-- Programs over one vector, with what each operation returns, and over a bounded list.
use libcxxext.Prelude.{
  ℕ, ◌-◌, Bool, true, false, ◌&&◌, List, [], ◌∷◌, ◌++◌, Option, none, some, ltb, leb, ◌==◌,
  if◌then◌else◌, length, get_elem?, take,
}
use mathlib.Core.Option
use libcxxext.Containers.Vector.{InplaceVector, empty, at, push_back, pop_back, clear, find}
use libcxxext.Containers.Vector.Layout.{index_from}

pub data Op {ℓ} (A : Type ℓ) : Type ℓ where
  push_op find_op : A → Op A
  at_op : ℕ → Op A
  pop_op clear_op size_op empty_op : Op A

pub data Seen {ℓ} (A : Type ℓ) : Type ℓ where
  pushed : Bool → Seen A
  found : Option ℕ → Seen A
  element : A → Seen A
  counted : ℕ → Seen A
  found_empty : Bool → Seen A
  finished skipped undefined : Seen A

-- The rest of a program behind its first operation.
abbrev pub go_on {ℓ κ} :
    {A : Type ℓ} {S : Type κ} → (S → List (Seen A)) → Option (Seen A × S) → List (Seen A)
go_on rest none = undefined ∷ []
go_on rest (some (s, v)) = s ∷ rest v

module _ {ℓ} {A : Type ℓ} (scalar : Bool) (equals : A → A → Bool) where
  -- A program over a scalar type reads no index behind the elements, where popped ones may stand.
  -- `none` where the operation is undefined.
  abbrev pub step : Op A → InplaceVector A → Option (Seen A × InplaceVector A)
  step (push_op x) v = let (b, v') = push_back x v in some (pushed b, v')
  step (find_op x) v = Option.map (λ i. (found i, v)) (find equals x v)
  step (at_op i) v =
      if scalar && leb v.size i
      then some (skipped, v)
      else Option.map (λ x. (element x, v)) (at i v)
  step pop_op v = Option.map (λ v'. (finished, v')) (pop_back scalar v)
  step clear_op v = Option.map (λ v'. (finished, v')) (clear scalar v)
  step size_op v = some (counted v.size, v)
  step empty_op v = some (found_empty (empty v), v)

  -- What a program sees; it ends at the first operation that is undefined.
  unfoldable pub run : List (Op A) → InplaceVector A → List (Seen A)
  run [] v = []
  run (op ∷ ops) v = go_on (run ops) (step op v)

  -- The same of a bounded list. Its last element can be popped only of a scalar type, and only if there
  -- is room for another one.
  abbrev pub spec_step : ℕ → Op A → List A → Option (Seen A × List A)
  spec_step cap (push_op x) xs =
      if ltb (length xs) cap then some (pushed true, xs ++ x ∷ []) else some (pushed false, xs)
  spec_step cap (find_op x) xs = some (found (index_from equals x 0 xs), xs)
  spec_step cap (at_op i) xs =
      if scalar && leb (length xs) i
      then some (skipped, xs)
      else Option.map (λ x. (element x, xs)) (get_elem? xs i)
  spec_step cap pop_op xs =
      if length xs == 0
      then some (finished, xs)
      else if scalar && ltb (length xs) cap
      then some (finished, take (length xs - 1) xs)
      else none
  spec_step cap clear_op xs = some (finished, [])
  spec_step cap size_op xs = some (counted (length xs), xs)
  spec_step cap empty_op xs = some (found_empty (length xs == 0), xs)

  unfoldable pub spec_run : ℕ → List (Op A) → List A → List (Seen A)
  spec_run cap [] xs = []
  spec_run cap (op ∷ ops) xs = go_on (spec_run cap ops) (spec_step cap op xs)
