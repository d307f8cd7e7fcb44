-- ===== src/Threading/Once/Progress.antt =====
-- No thread is locked out: from every reachable state there are steps after which a call has returned.
use libcxxext.Threading.Once.{later}
use libcxxext.Prelude.{ℕ, Bool, true, false, ◌≡◌, ◌≢◌, refl, ◌∙◌, arith, Bool-cases, inl, inr}
use libcxxext.Threading.Exclusive.{move_on, Exclusive, vacant, occupied}
use libcxxext.Threading.Once.{
  Flags, Pc, idle, entered, spinning, locked, running, marking, leaving, ended, Ending, consumed,
  succeeded, failed,
}
use libcxxext.Threading.Once.{
  Move, completed, incomplete, acquire, too_late, first, fail, mark, release,
}
use libcxxext.Threading.Once.{System, Step, pick, Reach, holds_busy}
use libcxxext.Threading.Once.Invariant.{Reach-Inv}

pub data Steps (s : System) : System → Type 0 where
  here : Steps s s
  next : {t u : System} → Steps s t → Step t u → Steps s u

Steps-append : {s t u : System} → Steps s t → Steps t u → Steps s u
Steps-append a here = a
Steps-append a (next b st) = next (Steps-append a b) st

Step-at :
    (s : System) (i : ℕ) {p p' : Pc} {m : Flags}
    → s.pc i ≡ p
    → Move s.flags p m p'
    → Step s (record { flags = m; pc = move_on s.pc i p' })
Step-at s i e mv = pick i (rw e mv)

moved : (pc : ℕ → Pc) (i : ℕ) (p : Pc) → move_on pc i p i ≡ p
moved pc i p = ground arith

-- Steps of thread `i` alone, after which its call has returned and `busy` is clear.
abbrev pub Finishes : System → ℕ → Type 0
Finishes s i =
    (t : System) × (r : Ending) × Steps s t
    × (t.pc i ≡ ended r)
    × (t.flags.busy ≡ false)
    × ((j : ℕ) → j ≢ i → t.pc j ≡ s.pc j)

prepend :
    (s : System) (i : ℕ) {p p' : Pc} {m : Flags}
    → s.pc i ≡ p
    → Move s.flags p m p'
    → Finishes (record { flags = m; pc = move_on s.pc i p' }) i
    → Finishes s i
prepend s i e mv (t, r, steps, done, clear, others) = (
  t,
  r,
  Steps-append (next here (Step-at s i e mv)) steps,
  done,
  clear,
  λ j ne. others j ne ∙ ground arith,
)

from_leaving : (s : System) (i : ℕ) {r : Ending} → s.pc i ≡ leaving r → Finishes s i
from_leaving s i {r} e =
    (_, r, next here (Step-at s i e release), moved s.pc i (ended r), refl, λ j ne. ground arith)

from_marking : (s : System) (i : ℕ) → s.pc i ≡ marking → Finishes s i
from_marking s i e = prepend s i e mark (from_leaving _ i (moved s.pc i (leaving succeeded)))

from_running : (s : System) (i : ℕ) → s.pc i ≡ running → Finishes s i
from_running s i e = prepend s i e fail (from_leaving _ i (moved s.pc i (leaving failed)))

from_locked : (s : System) (i : ℕ) → s.pc i ≡ locked → Finishes s i
from_locked s i e = elim (Bool-cases s.flags.initialized) [
  | inl t ↦ prepend s i e (too_late t) (from_leaving _ i (moved s.pc i (leaving consumed)))
  | inr f ↦ prepend s i e (first f) (from_running _ i (moved s.pc i running))
]

from_held : (s : System) (i : ℕ) (p : Pc) → s.pc i ≡ p → holds_busy p ≡ true → Finishes s i
from_held s i locked e h = from_locked s i e
from_held s i running e h = from_running s i e
from_held s i marking e h = from_marking s i e
from_held s i (leaving r) e h = from_leaving s i e
from_held s i idle e h = ground arith
from_held s i _ e h = ground arith

-- Steps of any threads, after which the call of thread `i` has returned.
abbrev pub Returns : System → ℕ → Type 0
Returns s i = (t : System) × (r : Ending) × Steps s t × (t.pc i ≡ ended r)

finished : {s : System} {i : ℕ} → Finishes s i → Returns s i
finished (t, r, steps, ended_here, clear, others) = (t, r, steps, ended_here)

when_clear : (s : System) (i : ℕ) → s.pc i ≡ spinning → s.flags.busy ≡ false → Returns s i
when_clear s i e clear =
    finished (prepend s i e (acquire clear) (from_locked _ i (moved s.pc i locked)))

when_held :
    (s : System) (i : ℕ) {b : Bool}
    → s.flags.busy ≡ b
    → Exclusive holds_busy s.pc b
    → s.pc i ≡ spinning
    → Returns s i
when_held s i clear (vacant none_inside) e = when_clear s i e clear
when_held s i taken (occupied k inside_k only) e =
    let (t, q, steps, ended_there, clear, others) = from_held s k (s.pc k) refl inside_k in
    let apart : i ≢ k = λ same. ground arith in
    let (u, r, more, ended_here) = when_clear t i (others i apart ∙ e) clear in
    (u, r, Steps-append steps more, ended_here)

from_entered : (s : System) → Reach s → (i : ℕ) → s.pc i ≡ entered → Returns s i
from_entered s reach i e = elim (Bool-cases s.flags.initialized) [
  | inl t ↦ (_, consumed, next here (Step-at s i e (completed t)), moved s.pc i (ended consumed))
  | inr f ↦
      let step = Step-at s i e (incomplete f) in
      let (t, r, steps, ended_here) =
        when_held _ i refl (Reach-Inv (later reach step)).alone (moved s.pc i spinning) in
      (t, r, Steps-append (next here step) steps, ended_here)
]

-- In a call of `call_once`.
abbrev pub in_call : Pc → Bool
in_call entered = true
in_call spinning = true
in_call p = holds_busy p

-- From every reachable state, for every thread in a call of `call_once` there are further steps of
-- the threads after which this call has returned.
pub call_can_return : {s : System} → Reach s → (i : ℕ) → in_call (s.pc i) ≡ true → Returns s i
call_can_return {s} reach i h = by_place (s.pc i) refl h
  where
    by_place : (p : Pc) → s.pc i ≡ p → in_call p ≡ true → Returns s i
    by_place entered e h = from_entered s reach i e
    by_place spinning e h = when_held s i refl (Reach-Inv reach).alone e
    by_place locked e h = finished (from_held s i locked e refl)
    by_place running e h = finished (from_held s i running e refl)
    by_place marking e h = finished (from_held s i marking e refl)
    by_place (leaving r) e h = finished (from_held s i (leaving r) e refl)
    by_place idle e h = ground arith
    by_place _ e h = ground arith
