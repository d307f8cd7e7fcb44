-- ===== src/Threading/CondVar.antt =====
-- `sys::cond_var` (sys.Threading/ConditionVariable.h) as one thread uses it. The operations of the
-- platform's handle are parameters (tinycthread is behind them); what others do meanwhile to the state
-- that a predicate reads is part of the handle's `wait`.
pub mod Waiting
use libcxxext.Prelude.{ℕ, zero, suc, Bool, true, false, if◌then◌else◌, Option, none, some}
use libcxxext.Threading.Errors.{
  ThreadingError, init_failed, operation_failed, PlatformError, Answer, success, failure,
}
use libcxxext.Threading.Mutex.{is_ok}

-- `create`, `wait`, `signal`, `broadcast` and `destroy` of `cond_var_handle`, over the state `W` that
-- threads share.
pub record CondVarHandle (H W : Type 0) : Type 0 where
  pub create : H → PlatformError × H
  pub wait_handle : H → W → PlatformError × H × W
  pub signal : H → PlatformError × H
  pub broadcast : H → PlatformError × H
  pub destroy_handle : H → H

pub record CondVar (H : Type 0) : Type 0 where
  pub cond : H
  pub completed : Bool

module _ {H W : Type 0} (P : CondVarHandle H W) where
  -- `try_init()`: `call_once` of `create`, whose failure leaves the `once` incomplete.
  unfoldable pub try_init : CondVar H → Bool × CondVar H
  try_init v =
      let (e, h) = P.create v.cond in
      if v.completed then (true, v) else (is_ok e, record { cond = h; completed = is_ok e })

  -- The answer to what the platform has returned.
  abbrev pub answered : PlatformError → Answer
  answered e = if is_ok e then success else failure operation_failed

  unfoldable pub wait : CondVar H → W → Answer × CondVar H × W
  wait v w =
      let (inited, v1) = try_init v in
      let (e, h, w1) = P.wait_handle v1.cond w in
      if inited then (answered e, record v1 { cond = h }, w1) else (failure init_failed, v1, w)

  -- `wait_until(mut, pred)` with at most `fuel` tests of the predicate; `none` when it waits longer.
  unfoldable pub wait_until : ℕ → (W → Bool) → CondVar H → W → Option (Answer × CondVar H × W)
  wait_until zero pred v w = none
  wait_until (suc fuel) pred v w =
      let (a, v1, w1) = wait v w in
      let rest = wait_until fuel pred v1 w1 in
      if pred w
      then some (success, v, w)
      else elim a [ success ↦ rest | failure e ↦ some (failure e, v1, w1) ]

  unfoldable pub notify_one : CondVar H → Answer × CondVar H
  notify_one v =
      let (inited, v1) = try_init v in
      let (e, h) = P.signal v1.cond in
      if inited then (answered e, record v1 { cond = h }) else (failure init_failed, v1)

  unfoldable pub notify_all : CondVar H → Answer × CondVar H
  notify_all v =
      let (inited, v1) = try_init v in
      let (e, h) = P.broadcast v1.cond in
      if inited then (answered e, record v1 { cond = h }) else (failure init_failed, v1)

  unfoldable pub destruct : CondVar H → H
  destruct v = if v.completed then P.destroy_handle v.cond else v.cond
