-- ===== src/Examples/Threads.antt =====
-- The threading primitives after concrete steps.
use libcxxext.Prelude.{Bool, ◌==◌, ◌↔◌, some}
use libcxxext.Threading.Errors.{success}
use libcxxext.Threading.CondVar.Waiting.{EndsWithin, wait_until-EndsWithin}
use libcxxext.Threading.CondVar.{CondVarHandle, CondVar, wait_until, wait, try_init}
use libcxxext.Threading.Mutex.Discipline.{Event}
use libcxxext.Threading.Errors.{PlatformError}
use libcxxext.Threading.Errors
use libcxxext.Prelude.{List}
use libcxxext.Prelude.{ap}
use libcxxext.Prelude.{ℕ, ◌+◌, ◌≤◌, true, false, ◌≡◌, refl, arith}
use libcxxext.Threading.Once.{
  System, Reach, start, later, pick, call, incomplete, acquire, first, running, spinning, succeed,
  mark, release,
}
use libcxxext.Threading.Once.Invariant.{has_returned, completed_once, running_alone}
use libcxxext.Threading.Once.Progress.{Returns, in_call, call_can_return}
use libcxxext.Threading.Semaphore
use libcxxext.Threading.Semaphore.Permits.{permits_conserved}

-- Thread 0 runs its functor, and thread 1 spins.
contended : (s : System) × Reach s × (s.pc 0 ≡ running) × (s.pc 1 ≡ spinning)
contended = (
  _,
  later
      (later
        (later
          (later (later (later start (pick 0 call)) (pick 0 (incomplete refl)))
            (pick 0 (acquire refl)))
          (pick 0 (first refl)))
        (pick 1 call))
      (pick 1 (incomplete refl)),
  refl,
  refl,
)

-- Thread 0 has run its functor and marked the `once`.
returned : (s : System) × Reach s × (has_returned (s.pc 0) ≡ true)
returned = (
  _,
  later
      (later
        (later
          (later
            (later (later (later start (pick 0 call)) (pick 0 (incomplete refl)))
              (pick 0 (acquire refl)))
            (pick 0 (first refl)))
          (pick 0 succeed))
        (pick 0 mark))
      (pick 0 release),
  refl,
)

completed_once_example : (returned.0.flags.initialized ≡ true) × (returned.0.flags.successes ≡ 1)
completed_once_example = completed_once returned.1 0 returned.2

running_alone_example :
    (◌≡◌ {A = ℕ} 0 0) × (contended.0.flags.initialized ≡ false) × (contended.0.flags.successes ≡ 0)
running_alone_example = running_alone contended.1 0 0 contended.2 contended.2

-- The call of the thread that spins.
call_can_return_example : Returns contended.0 1
call_can_return_example = call_can_return contended.1 1 (ap in_call contended.3)

-- A binary semaphore of 8 bits after one `acquire`.
one_taken : (s : Semaphore.System 255) × Semaphore.Reach 255 1 s × (s.sem.acquired ≡ 1)
one_taken = (
  _,
  Semaphore.later
      (Semaphore.later
        (Semaphore.later (Semaphore.later Semaphore.start (Semaphore.pick 0 Semaphore.acquire))
          (Semaphore.pick 0 (Semaphore.lock_acquire refl)))
        (Semaphore.pick 0 (Semaphore.enough (omega arith))))
      (Semaphore.pick 0 Semaphore.take),
  refl,
)

permits_conserved_example :
    (one_taken.0.sem.counter ≤ 255)
    × (one_taken.0.sem.counter + one_taken.0.sem.acquired ≡ 1 + one_taken.0.sem.released)
    × (one_taken.0.sem.acquired ≤ 1 + one_taken.0.sem.released)
permits_conserved_example = permits_conserved 255 1 (omega arith) one_taken.1

-- A platform on which every call of the handle succeeds.
abbrev works : List Event → PlatformError
works _ = Errors.done

-- Another thread adds 1 while this one waits, until there are 2.
abbrev counting : CondVarHandle ℕ ℕ
counting = record {
  create = λ h. (Errors.done, h);
  wait_handle = λ h w. (Errors.done, h, w + 1);
  signal = λ h. (Errors.done, h);
  broadcast = λ h. (Errors.done, h);
  destroy_handle = λ h. h;
}

abbrev is_two : ℕ → Bool
is_two w = w == 2

abbrev unused : CondVar ℕ
unused = record { cond = 0; completed = false }

wait_until-EndsWithin_example :
    (wait_until counting 3 is_two unused 0
      ≡ some (success, record { cond = 0; completed = true }, 2))
    ↔ EndsWithin counting is_two 3 unused 0 (success, record { cond = 0; completed = true }, 2)
wait_until-EndsWithin_example =
    wait_until-EndsWithin counting is_two 3 unused 0
      (success, record { cond = 0; completed = true }, 2)

two_after_two_waits :
    wait_until counting 3 is_two unused 0 ≡ some (success, record { cond = 0; completed = true }, 2)
unfolding wait_until wait try_init
two_after_two_waits = refl
