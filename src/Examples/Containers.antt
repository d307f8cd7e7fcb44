-- ===== src/Examples/Containers.antt =====
-- The queue at concrete states.
use libcxxext.Prelude.{ℕ, true, false, ◌≡◌, arith, [], ◌∷◌}
use libcxxext.Containers.Queue.{InplaceQueue, capacity, enqueue, try_dequeue}
use libcxxext.Containers.Queue.Fifo.{
  contents, IsValid, push, pop, enqueue-push, try_dequeue-pop, operations-IsValid,
}

-- Two of three places are taken, and the second element stands in front of the first.
abbrev wrapped : InplaceQueue ℕ
wrapped = record { items = 8 ∷ 0 ∷ 7 ∷ []; begin = 2; end = 1; full = false }

abbrev filled : InplaceQueue ℕ
filled = record { items = 8 ∷ 9 ∷ 7 ∷ []; begin = 2; end = 2; full = true }

wrapped-IsValid : IsValid 0 wrapped
wrapped-IsValid = ground arith

filled-IsValid : IsValid 0 filled
filled-IsValid = ground arith

enqueue-push_example :
    ((enqueue 9 wrapped).0, contents 0 (enqueue 9 wrapped).1)
    ≡ push 0 (capacity wrapped) 9 (contents 0 wrapped)
enqueue-push_example = enqueue-push 0 9 wrapped wrapped-IsValid

try_dequeue-pop_example :
    ((try_dequeue 1 filled).0, (try_dequeue 1 filled).1, contents 0 (try_dequeue 1 filled).2)
    ≡ pop 0 1 (contents 0 filled)
try_dequeue-pop_example = try_dequeue-pop 0 1 filled filled-IsValid

operations-IsValid_example : IsValid 0 (enqueue 9 wrapped).1 × IsValid 0 (try_dequeue 9 wrapped).2
operations-IsValid_example = operations-IsValid 0 9 wrapped wrapped-IsValid
