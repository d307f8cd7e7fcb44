-- ===== src/Containers/Queue/Traces.antt =====
-- Programs over one queue, with what each operation returns, against a bounded queue.
use libcxxext.Prelude.{
  ℕ, ◌≤◌, Bool, false, ◌≡◌, refl, ap, ◌∙◌, arith, List, [], ◌∷◌, replicate, length-replicate,
}
use libcxxext.Prelude.{◌==◌, length, length-set, Bool-cases, inl, inr}
use libcxxext.Containers.Queue.{InplaceQueue, capacity, size, empty, enqueue, try_dequeue}
use libcxxext.Containers.Queue.Fifo.{
  contents, IsValid, push, pop, length-contents, enqueue-IsValid, try_dequeue-IsValid, enqueue-push,
  try_dequeue-pop,
}

-- An operation; that of `try_dequeue` has what `out` holds before.
pub data Op {ℓ} (A : Type ℓ) : Type ℓ where
  enqueue_op dequeue_op : A → Op A
  size_op empty_op : Op A

pub data Seen {ℓ} (A : Type ℓ) : Type ℓ where
  accepted : Bool → Seen A
  taken : Bool → A → Seen A
  counted : ℕ → Seen A
  found_empty : Bool → Seen A

module _ {ℓ} {A : Type ℓ} (d : A) where
  -- `inplace_queue()`
  abbrev pub new_queue : ℕ → InplaceQueue A
  new_queue cap = record { items = replicate cap d; begin = 0; end = 0; full = false }

  abbrev pub step : Op A → InplaceQueue A → Seen A × InplaceQueue A
  step (enqueue_op v) q = let (b, q') = enqueue v q in (accepted b, q')
  step (dequeue_op out) q = let (b, x, q') = try_dequeue out q in (taken b x, q')
  step size_op q = (counted (size q), q)
  step empty_op q = (found_empty (empty q), q)

  unfoldable pub run : List (Op A) → InplaceQueue A → List (Seen A)
  run [] q = []
  run (op ∷ ops) q = let (s, q') = step op q in s ∷ run ops q'

  -- The same of a bounded queue.
  abbrev pub spec_step : ℕ → Op A → List A → Seen A × List A
  spec_step cap (enqueue_op v) xs = let (b, xs') = push d cap v xs in (accepted b, xs')
  spec_step cap (dequeue_op out) xs = let (b, x, xs') = pop d out xs in (taken b x, xs')
  spec_step cap size_op xs = (counted (length xs), xs)
  spec_step cap empty_op xs = (found_empty (length xs == 0), xs)

  unfoldable pub spec_run : ℕ → List (Op A) → List A → List (Seen A)
  spec_run cap [] xs = []
  spec_run cap (op ∷ ops) xs = let (s, xs') = spec_step cap op xs in s ∷ spec_run cap ops xs'

  step-IsValid : (op : Op A) (q : InplaceQueue A) → IsValid d q → IsValid d (step op q).1
  step-IsValid (enqueue_op v) q h = enqueue-IsValid d v q h
  step-IsValid (dequeue_op out) q h = try_dequeue-IsValid d out q h
  step-IsValid size_op q h = h
  step-IsValid empty_op q h = h

  capacity-step : (op : Op A) (q : InplaceQueue A) → capacity (step op q).1 ≡ capacity q
  unfolding enqueue try_dequeue
  capacity-step (enqueue_op v) q = elim (Bool-cases q.full) [
    | inl full ↦ rw full refl
    | inr room ↦ rw room (length-set q.items q.end v)
  ]
  capacity-step (dequeue_op out) q = ground arith
  capacity-step _ q = refl

  -- One operation does what it does on the bounded queue.
  step-spec :
      (op : Op A) (q : InplaceQueue A)
      → IsValid d q
      → ((step op q).0, contents d (step op q).1) ≡ spec_step (capacity q) op (contents d q)
  unfolding empty
  step-spec (enqueue_op v) q h = ap (λ r. (accepted r.0, r.1)) (enqueue-push d v q h)
  step-spec (dequeue_op out) q h = ap (λ r. (taken r.0 r.1, r.2)) (try_dequeue-pop d out q h)
  step-spec size_op q h = rw (length-contents d q) refl
  step-spec empty_op q h = rw (length-contents d q) refl

  run-spec_valid :
      (ops : List (Op A)) (q : InplaceQueue A)
      → IsValid d q
      → run ops q ≡ spec_run (capacity q) ops (contents d q)
  unfolding run spec_run
  run-spec_valid [] q h = refl
  run-spec_valid (op ∷ ops) q h =
      let rest = run-spec_valid ops (step op q).1 (step-IsValid op q h) in
      ap (λ l. (step op q).0 ∷ l)
        (rest ∙ ap (λ c. spec_run c ops (contents d (step op q).1)) (capacity-step op q))
      ∙ ap (λ r. r.0 ∷ spec_run (capacity q) ops r.1) (step-spec op q h)

  -- From its constructor on, in any sequence of operations, a queue of at least one place returns
  -- what a bounded queue, a list of at most `Capacity` elements, returns: from `enqueue` whether
  -- there was room, from `try_dequeue` the oldest element or that there is none, and the size and
  -- the emptiness.
  pub run-spec_run :
      (cap : ℕ) (ops : List (Op A)) → 1 ≤ cap → run ops (new_queue cap) ≡ spec_run cap ops []
  unfolding size
  run-spec_run cap ops h =
      let whole : capacity (new_queue cap) ≡ cap = length-replicate cap d in
      let valid : IsValid d (new_queue cap) = (omega arith, omega arith, λ e. refl) in
      run-spec_valid ops (new_queue cap) valid ∙ ap (λ c. spec_run c ops []) whole
