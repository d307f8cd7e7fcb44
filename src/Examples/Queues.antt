-- ===== src/Examples/Queues.antt =====
-- The queue from its constructor on, and the arithmetic of its iterators.
use libcxxext.Prelude.{
  ℕ, ◌+◌, ◌^◌, ◌%◌, true, false, ◌≡◌, refl, arith, List, [], ◌∷◌, if◌then◌else◌, leb,
}
use libcxxext.Prelude.Int.{pos, neg_ℤ}
use libcxxext.Containers.Queue.{InplaceQueue, size}
use libcxxext.Containers.Queue.Fifo.{IsValid}
use libcxxext.Containers.Queue.Traces.{
  Op, enqueue_op, dequeue_op, size_op, empty_op, accepted, taken, counted, found_empty, new_queue,
  run, spec_run, run-spec_run,
}
use libcxxext.Containers.Queue.Iterators.{
  it_add, it_sub, it_diff, nexts, prevs, it_add-nexts, it_diff_ends,
}

-- A queue of capacity 2 is filled, refuses a third element, and wraps around.
abbrev filling : List (Op ℕ)
filling =
    enqueue_op 7
    ∷ enqueue_op 8
    ∷ enqueue_op 9
    ∷ dequeue_op 0
    ∷ enqueue_op 9
    ∷ dequeue_op 0
    ∷ size_op
    ∷ dequeue_op 0
    ∷ dequeue_op 3
    ∷ empty_op
    ∷ []

run-spec_run_example : run 0 filling (new_queue 0 2) ≡ spec_run 0 2 filling []
run-spec_run_example = run-spec_run 0 2 filling (omega arith)

filling_seen :
    spec_run 0 2 filling []
    ≡ accepted true
      ∷ accepted true
      ∷ accepted false
      ∷ taken true 7
      ∷ accepted true
      ∷ taken true 8
      ∷ counted 1
      ∷ taken true 9
      ∷ taken false 3
      ∷ found_empty true
      ∷ []
unfolding spec_run
filling_seen = refl

-- Two steps back from index 1 of 3, by `- 2` and by `+ -2`.
it_add-nexts_example :
    (it_add 3 1 (pos 2) ≡ nexts 3 2 1)
    × (it_sub 3 1 (pos 2) ≡ prevs 3 2 1)
    × (it_add 3 1 (neg_ℤ (pos 2)) ≡ (if leb 2 1 then prevs 3 2 1 else (prevs 3 2 1 + 2 ^ 64) % 3))
it_add-nexts_example = it_add-nexts 3 1 2 (omega arith) (omega arith) (omega arith)

back_by_sum : (prevs 3 2 1 ≡ 2) × (it_add 3 1 (neg_ℤ (pos 2)) ≡ 0)
unfolding it_add
back_by_sum = (refl, refl)

-- The end stands in front of the begin.
abbrev wrapped : InplaceQueue ℕ
wrapped = record { items = 8 ∷ 0 ∷ 7 ∷ []; begin = 2; end = 1; full = false }

wrapped-IsValid : IsValid 0 wrapped
wrapped-IsValid = ground arith

diff_wrapped : it_diff 1 2 ≡ neg_ℤ (pos 1)
unfolding it_diff size
diff_wrapped = it_diff_ends 0 wrapped wrapped-IsValid
