-- ===== src/Containers/Queue/Fifo.antt =====
-- The queue against a list of its elements, oldest first.
use libcxxext.Prelude.{
  ℕ, suc, ◌+◌, ◌%◌, ◌≤◌, ◌<◌, Bool, true, false, not, ◌&&◌, ◌≡◌, refl, ap, ◌∙◌, sym, arith, List,
  [], ◌∷◌, ◌++◌,
}
use libcxxext.Prelude.{
  ltb, ◌==◌, if◌then◌else◌, length, get_or, set, length-set, Bool-cases, le→not_ltb, lt→ltb, inl,
  inr,
}
use native.Mathlib.Nat.{mod-lt}
use libcxxext.Containers.Queue.Window.{
  wrap_index, window, length-window, window-cons, window-push, get_or_default,
}
use libcxxext.Containers.Queue.{InplaceQueue, capacity, size, enqueue, try_dequeue}

module _ {ℓ} {A : Type ℓ} (d : A) where
  -- The elements of the queue, oldest first.
  abbrev pub contents : InplaceQueue A → List A
  contents q = window d q.items q.begin (size q)

  abbrev pub IsValid : InplaceQueue A → Type 0
  IsValid q = (q.begin < capacity q) × (q.end < capacity q) × (q.full ≡ true → q.begin ≡ q.end)

  pub length-contents : (q : InplaceQueue A) → length (contents q) ≡ size q
  length-contents q = length-window d q.items q.begin (size q)

  pub size_le : (q : InplaceQueue A) → IsValid q → size q ≤ capacity q
  unfolding size
  size_le q h = ground arith

  pub end_index : (q : InplaceQueue A) → IsValid q → q.end ≡ (q.begin + size q) % capacity q
  unfolding size
  end_index q h =
      let wrapped = wrap_index (capacity q) q.begin (size q) h.0 (size_le q h) in ground arith

  enqueue-size :
      (v : A) (q : InplaceQueue A)
      → IsValid q
      → q.full ≡ false
      → size (enqueue v q).1 ≡ suc (size q)
  unfolding size enqueue
  enqueue-size v q h not_full =
      let next = wrap_index (capacity q) q.end 1 h.1 (omega arith) in
      rw (not_full, length-set) (ground arith)

  -- What the queue promises: a bounded queue of at most `cap` elements.
  abbrev pub push : ℕ → A → List A → Bool × List A
  push cap v xs = if ltb (length xs) cap then (true, xs ++ (v ∷ [])) else (false, xs)

  abbrev pub pop : A → List A → Bool × A × List A
  pop out [] = (false, out, [])
  pop out (x ∷ xs) = (true, x, xs)

  -- `enqueue` keeps a queue valid: both indices below the capacity, and equal when the queue is
  -- full.
  pub enqueue-IsValid : (v : A) (q : InplaceQueue A) → IsValid q → IsValid (enqueue v q).1
  unfolding enqueue
  enqueue-IsValid v q h =
      let next = mod-lt (q.end + 1) {m = capacity q} (omega arith) in
      elim (Bool-cases q.full) [
        | inl full ↦ rw full (h.0, h.1, λ e. h.2 full)
        | inr not_full ↦ rw (not_full, length-set) (h.0, next, ground arith)
      ]

  -- `try_dequeue` keeps a queue valid: both indices below the capacity, and equal when the queue is
  -- full.
  pub try_dequeue-IsValid :
      (out : A) (q : InplaceQueue A) → IsValid q → IsValid (try_dequeue out q).2
  unfolding try_dequeue
  try_dequeue-IsValid out q h =
      let next = mod-lt (q.begin + 1) {m = capacity q} (omega arith) in
      elim (Bool-cases (not q.full && (q.begin == q.end))) [
        | inl e ↦ rw e h
        | inr e ↦ rw e (next, h.1, ground arith)
      ]

  -- `enqueue` and `try_dequeue` keep a queue valid: both indices below the capacity, and equal when
  -- the queue is full.
  pub operations-IsValid :
      (v : A) (q : InplaceQueue A)
      → IsValid q
      → IsValid (enqueue v q).1 × IsValid (try_dequeue v q).2
  operations-IsValid v q h = (enqueue-IsValid v q h, try_dequeue-IsValid v q h)

  pub size_full : (q : InplaceQueue A) → q.full ≡ true → size q ≡ capacity q
  unfolding size
  size_full q full = rw full refl

  pub size_lt : (q : InplaceQueue A) → IsValid q → q.full ≡ false → size q < capacity q
  unfolding size
  size_lt q h not_full = ground arith

  try_dequeue-size :
      (out : A) (q : InplaceQueue A)
      → IsValid q
      → (not q.full && (q.begin == q.end)) ≡ false
      → size q ≡ suc (size (try_dequeue out q).2)
  unfolding size try_dequeue
  try_dequeue-size out q h some_left =
      let next = wrap_index (capacity q) q.begin 1 h.0 (omega arith) in rw some_left (ground arith)

  abbrev put : A → InplaceQueue A → InplaceQueue A
  put v q = record q {
    items = set q.items q.end v;
    end = (q.end + 1) % capacity q;
    full = if (q.end + 1) % capacity q == q.begin then true else q.full;
  }

  abbrev taken : InplaceQueue A → InplaceQueue A
  taken q = record q { begin = (q.begin + 1) % capacity q; full = false }

  enqueue_if :
      (v : A) (q : InplaceQueue A) (b : Bool)
      → q.full ≡ b
      → enqueue v q ≡ (if b then (false, q) else (true, put v q))
  unfolding enqueue
  enqueue_if v q b h =
      ap (λ (c : Bool). if◌then◌else◌ {A = Bool × InplaceQueue A} c (false, q) (true, put v q)) h

  try_dequeue_if :
      (out : A) (q : InplaceQueue A) (b : Bool)
      → (not q.full && (q.begin == q.end)) ≡ b
      → try_dequeue out q
        ≡ (if b then (false, out, q) else (true, get_or q.items q.begin out, taken q))
  unfolding try_dequeue
  try_dequeue_if out q b h =
      ap
        (λ (c : Bool).
          if◌then◌else◌ {A = Bool × A × InplaceQueue A} c (false, out, q)
            (true, get_or q.items q.begin out, taken q))
        h

  contents-put :
      (v : A) (q : InplaceQueue A)
      → IsValid q
      → q.full ≡ false
      → contents (put v q) ≡ contents q ++ (v ∷ [])
  contents-put v q h not_full =
      let sized : size (put v q) ≡ suc (size q) =
        sym (ap (λ r. size (r.1)) (enqueue_if v q false not_full)) ∙ enqueue-size v q h not_full in
      ap (window d (set q.items q.end v) q.begin) sized
      ∙ ap (λ i. window d (set q.items i v) q.begin (suc (size q))) (end_index q h)
      ∙ window-push d q.items q.begin (size q) v h.0 (size_lt q h not_full)

  contents-taken :
      (out : A) (q : InplaceQueue A)
      → IsValid q
      → (not q.full && (q.begin == q.end)) ≡ false
      → contents q ≡ get_or q.items q.begin out ∷ contents (taken q)
  contents-taken out q h some_left =
      let sized : size q ≡ suc (size (taken q)) =
        try_dequeue-size out q h some_left
        ∙ ap (λ r. suc (size (r.2))) (try_dequeue_if out q false some_left) in
      ap (window d q.items q.begin) sized
      ∙ window-cons d q.items q.begin (size (taken q)) h.0
      ∙ ap (λ x. x ∷ contents (taken q)) (get_or_default d q.items q.begin d out h.0)

  contents_empty :
      (q : InplaceQueue A) → (not q.full && (q.begin == q.end)) ≡ true → contents q ≡ []
  unfolding size
  contents_empty q none_left =
      let no_items : size q ≡ 0 = ground arith in ap (window d q.items q.begin) no_items

  push_if :
      (cap : ℕ) (v : A) (xs : List A) (b : Bool)
      → ltb (length xs) cap ≡ b
      → push cap v xs ≡ (if b then (true, xs ++ (v ∷ [])) else (false, xs))
  push_if cap v xs b h =
      ap (λ (c : Bool). if◌then◌else◌ {A = Bool × List A} c (true, xs ++ (v ∷ [])) (false, xs)) h

  -- `enqueue` on a valid queue implements the push of a bounded queue: it appends the item to the
  -- elements and returns true while there are fewer than `Capacity` of them, and otherwise returns
  -- false and leaves them as they are.
  pub enqueue-push :
      (v : A) (q : InplaceQueue A)
      → IsValid q
      → ((enqueue v q).0, contents (enqueue v q).1) ≡ push (capacity q) v (contents q)
  enqueue-push v q h =
      let sized = length-contents q in
      elim (Bool-cases q.full) [
        | inl full ↦
            let filled = size_full q full in
            ap (λ r. (r.0, contents r.1)) (enqueue_if v q true full)
            ∙ sym (
                push_if (capacity q) v (contents q) false
                  (le→not_ltb (length (contents q)) (capacity q) (omega arith)))
        | inr not_full ↦
            let room = size_lt q h not_full in
            ap (λ r. (r.0, contents r.1)) (enqueue_if v q false not_full)
            ∙ ap (λ xs. (true, xs)) (contents-put v q h not_full)
            ∙ sym (
                push_if (capacity q) v (contents q) true
                  (lt→ltb (length (contents q)) (capacity q) (omega arith)))
      ]

  -- `try_dequeue` on a valid queue implements the pop of a bounded queue: it returns true, stores
  -- the oldest element in `out` and leaves the others, or returns false and changes nothing when
  -- there is none.
  pub try_dequeue-pop :
      (out : A) (q : InplaceQueue A)
      → IsValid q
      → ((try_dequeue out q).0, (try_dequeue out q).1, contents (try_dequeue out q).2)
        ≡ pop out (contents q)
  try_dequeue-pop out q h = elim (Bool-cases (not q.full && (q.begin == q.end))) [
    | inl none_left ↦
        let gone = contents_empty q none_left in
        ap (λ r. (r.0, r.1, contents r.2)) (try_dequeue_if out q true none_left)
        ∙ ap (λ c. (false, out, c)) gone
        ∙ ap (pop out) (sym gone)
    | inr some_left ↦
        ap (λ r. (r.0, r.1, contents r.2)) (try_dequeue_if out q false some_left)
        ∙ ap (pop out) (sym (contents-taken out q h some_left))
  ]
