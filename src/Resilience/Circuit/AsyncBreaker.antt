-- ===== src/Resilience/Circuit/AsyncBreaker.antt =====
-- resilience/_circuit.py: `AsyncCircuitBreaker`. To take its lock a task waits, and may be cancelled
-- there. The loop that releases through cancellations takes fuel; a call whose fuel is used up in
-- it gives `none`: it is still releasing.
pub mod Settling
pub mod Course
pub mod Slots
pub mod Termination
use bluetape_py.Common.{ℕ, zero, suc, Bool, true, false, Option, none, some, ◌==◌, if◌then◌else◌}
use bluetape_py.Common.Exec.{
  Result, ok, raise, Exec, pure, throw, lift, ◌>>=◌, ◌>>◌, try_else, Cell, locked,
}
use bluetape_py.Resilience.Core.{
  Runtime, EventKind, PolicyOutcome, FailureCategory, CircuitSnapshot, Error, runtime_error,
  cancelled, is_exception, failure_category, emit,
}
use bluetape_py.Resilience.Operation.{Operation, ensure_async_operation}
use bluetape_py.Resilience.Releasing.{is_cancelled, raise_after}
use bluetape_py.Resilience.Circuit.{
  Admission, Transition, CircuitData, admit, succeed, fail, ignore, snapshot,
}
use bluetape_py.Resilience.Circuit.Breaker.{
  CircuitBreaker, make, read_clock, classify, emit_transition, announce,
}

-- What asyncio gives: the running loop, and the wait for the lock.
pub record Tasks (F W : Type 0) : Type 0 where
  pub running_loop : Exec (Error F) W ℕ
  pub lock : Exec (Error F) W (Unit {0})

abbrev same_loop : {F : Type 0} → ℕ → Option ℕ → Result (Error F) (Unit {0}) × Option ℕ
same_loop loop none = (ok tt, some loop)
same_loop loop (some bound) = ((if bound == loop then ok tt else raise runtime_error), some bound)

-- `_bind_loop`; `bound` is the place of `self._loop`
unfoldable pub bind_loop :
    {F W : Type 0} → Cell W (Option ℕ) → Tasks F W → Exec (Error F) W (Unit {0})
bind_loop bound tasks = do
  loop ← tasks.running_loop
  result ← locked bound (same_loop loop)
  lift result

module _ {F W : Type 0} ⦃py : Runtime F⦄ (cell : Cell W (CircuitData F)) (cb : CircuitBreaker F W)
    (tasks : Tasks F W) where
  -- `async with self._lock`
  abbrev async_locked : {A : Type 0} → (CircuitData F → A × CircuitData F) → Exec (Error F) W A
  async_locked f = do tasks.lock; locked cell f

  unfoldable pub take_snapshot : Cell W (Option ℕ) → Exec (Error F) W CircuitSnapshot
  take_snapshot bound = do bind_loop bound tasks; async_locked λ d. (snapshot cb.name d, d)

  unfoldable pub release : Admission → Exec (Error F) W CircuitSnapshot
  release admission = async_locked λ d. let d' = ignore admission d in (snapshot cb.name d', d')

  -- `_release_preserving_cancellation`, from the value of `cancelled` on
  unfoldable pub release_loop :
      ℕ → Bool → Admission → Exec (Error F) W (Option (CircuitSnapshot × Bool))
  release_loop zero was_cancelled admission = pure none
  release_loop (suc fuel) was_cancelled admission =
      try_else (release admission)
        (λ error. if is_cancelled error then release_loop fuel true admission else throw error)
        (λ snap. pure (some (snap, was_cancelled)))

  -- release, and raise the error, or `CancelledError` if the release was cancelled meanwhile
  unfoldable pub release_and_raise :
      {A : Type 0} → ℕ → Admission → Error F → Exec (Error F) W (Option A)
  release_and_raise fuel admission error = do
    released ← release_loop fuel false admission
    raise_after error released

  unfoldable pub admit_call :
      F → Exec (Error F) W (Option Admission × Option Transition × CircuitSnapshot)
  admit_call now =
      async_locked
        λ d. let (result, d') = admit now d in ((result.0, result.1, snapshot cb.name d'), d')

  unfoldable pub record_failure :
      Admission → F → Bool → Exec (Error F) W (Option Transition × CircuitSnapshot)
  record_failure admission now true =
      async_locked
        λ d. let (changed, d') = fail admission now d in ((changed, snapshot cb.name d'), d')
  record_failure admission now false =
      async_locked λ d. let d' = ignore admission d in ((none, snapshot cb.name d'), d')

  unfoldable pub record_success :
      Admission → F → Exec (Error F) W (Option Transition × CircuitSnapshot)
  record_success admission now =
      async_locked
        λ d. let (changed, d') = succeed admission now d in ((changed, snapshot cb.name d'), d')

  -- `except asyncio.CancelledError` round the last block under the lock
  abbrev on_lock_error : {A : Type 0} → ℕ → Admission → Error F → Exec (Error F) W (Option A)
  on_lock_error fuel admission error =
      if is_cancelled error then release_and_raise fuel admission error else throw error

  -- lines 457 to 501
  unfoldable pub on_exception : {A : Type 0} → ℕ → Admission → Error F → Exec (Error F) W (Option A)
  on_exception fuel admission error =
      try_else (classify cb error) (release_and_raise fuel admission) λ classified.
        try_else (read_clock cb) (release_and_raise fuel admission) λ now.
          try_else (record_failure admission now classified) (on_lock_error fuel admission)
            λ outcome. do
              emit_transition cb outcome.1 outcome.0
              emit cb.observer (
                  make cb.name EventKind.failed (some PolicyOutcome.failure)
                    (failure_category error) outcome.1 none)
              throw error

  -- the `except` clauses of the operation
  unfoldable pub on_error : {A : Type 0} → ℕ → Admission → Error F → Exec (Error F) W (Option A)
  on_error fuel admission error =
      if is_exception error
      then on_exception fuel admission error
      else release_and_raise fuel admission error

  -- lines 507 to 541
  unfoldable pub on_result : {A : Type 0} → ℕ → Admission → A → Exec (Error F) W (Option A)
  on_result fuel admission result =
      try_else (read_clock cb) (release_and_raise fuel admission) λ now.
        try_else (record_success admission now) (on_lock_error fuel admission) λ outcome. do
          emit_transition cb outcome.1 outcome.0
          emit cb.observer (
              make cb.name EventKind.succeeded (some PolicyOutcome.success) FailureCategory.nothing
                outcome.1 none)
          pure (some result)

  unfoldable pub run_admitted :
      {A : Type 0} → ℕ → Exec (Error F) W A → Admission → Exec (Error F) W (Option A)
  run_admitted fuel run admission =
      try_else run (on_error fuel admission) (on_result fuel admission)

  abbrev on_announce_error :
      {A : Type 0} → ℕ → Option Admission → Error F → Exec (Error F) W (Option A)
  on_announce_error fuel none error = throw error
  on_announce_error fuel (some admission) error = release_and_raise fuel admission error

  unfoldable pub call :
      {A : Type 0} → Cell W (Option ℕ) → ℕ → Operation F W A → Exec (Error F) W (Option A)
  call bound fuel operation = do
    lift (ensure_async_operation operation)
    bind_loop bound tasks
    now ← read_clock cb
    (admission, moved, snap) ← admit_call now
    try_else (announce cell cb admission moved snap) (on_announce_error fuel admission)
        (run_admitted fuel operation.run)
