-- ===== src/Resilience/AsyncBulkhead.antt =====
-- resilience/_bulkhead.py: `AsyncBulkhead`. Its counters are those of the sync one. To take its lock
-- a task waits and may be cancelled, and so it may while it waits for room. The loops that wait and
-- that release take fuel.
pub mod Settling
pub mod Visits
mod Examples
use bluetape_py.Common.{ℕ, zero, suc, Bool, true, false, Option, none, some, if◌then◌else◌}
use bluetape_py.Common.Exec.{Exec, pure, throw, lift, ◌>>=◌, ◌>>◌, try_else, Cell, locked}
use bluetape_py.Resilience.Core.{
  Runtime, EventKind, PolicyOutcome, FailureCategory, PolicyEvent, BulkheadSnapshot, Error,
  cancelled, timeout_error, policy_timeout_error, bulkhead_rejected_error, is_exception,
  failure_category, emit,
}
use bluetape_py.Resilience.Operation.{Operation, ensure_async_operation}
use bluetape_py.Resilience.Releasing.{is_cancelled, raise_after}
use bluetape_py.Resilience.Circuit.AsyncBreaker.{Tasks, bind_loop}
use bluetape_py.Resilience.Bulkhead.{
  Bulkhead, Counters, Acquired, bulkhead_event, snapshot_locked, is_full, enter, leave,
  enter_from_queue, try_enter, queue, unqueue, rejected_event,
}

-- `asyncio.timeout(delay)`: to enter its scope, and `Condition.wait` inside it. What `wait` raises is
-- what leaves the scope, where a cancellation by the timer has become a TimeoutError.
pub record Scope (F W : Type 0) : Type 0 where
  pub begin : F → Exec (Error F) W (Unit {0})
  pub wait : Exec (Error F) W (Unit {0})

abbrev is_timeout_error : {F : Type 0} → Error F → Bool
is_timeout_error timeout_error = true
is_timeout_error (policy_timeout_error n t) = true
is_timeout_error _ = false

module _ {F W : Type 0} ⦃py : Runtime F⦄ (cell : Cell W Counters) (b : Bulkhead F W)
    (tasks : Tasks F W) where
  -- `async with self._condition`
  abbrev async_locked : {A : Type 0} → (Counters → A × Counters) → Exec (Error F) W A
  async_locked f = do tasks.lock; locked cell f

  unfoldable pub take_snapshot : Cell W (Option ℕ) → Exec (Error F) W BulkheadSnapshot
  take_snapshot bound = do bind_loop bound tasks; async_locked λ d. (snapshot_locked b d, d)

  unfoldable pub release : Exec (Error F) W BulkheadSnapshot
  release = async_locked λ d. let d' = leave d in (snapshot_locked b d', d')

  -- `_release_preserving_cancellation`, from the value of `cancelled` on
  unfoldable pub release_loop : ℕ → Bool → Exec (Error F) W (Option (BulkheadSnapshot × Bool))
  release_loop zero was_cancelled = pure none
  release_loop (suc fuel) was_cancelled =
      try_else release (λ error. if is_cancelled error then release_loop fuel true else throw error)
        (λ snap. pure (some (snap, was_cancelled)))

  unfoldable pub release_and_raise : {A : Type 0} → ℕ → Error F → Exec (Error F) W (Option A)
  release_and_raise fuel error = do released ← release_loop fuel false; raise_after error released

  module _ (scope : Scope F W) where
    -- `except TimeoutError` and `finally`
    abbrev stop_waiting : Error F → Exec (Error F) W Acquired
    stop_waiting error = do
      unqueue cell b
      if is_timeout_error error then pure Acquired.full else throw error

    abbrev after_look :
        Option BulkheadSnapshot → Exec (Error F) W Acquired → Exec (Error F) W Acquired
    after_look (some snap) again = pure (Acquired.entered snap)
    after_look none again = try_else scope.wait stop_waiting λ _. again

    unfoldable pub wait_loop : ℕ → Exec (Error F) W Acquired
    wait_loop zero = pure Acquired.waiting
    wait_loop (suc fuel) = do look ← enter_from_queue cell b; after_look look (wait_loop fuel)

    abbrev acquire_from : ℕ → Option BulkheadSnapshot → Exec (Error F) W Acquired
    acquire_from fuel (some snap) = pure (Acquired.entered snap)
    acquire_from fuel none =
        if py.eqb b.max_wait py.zero
        then pure Acquired.full
        else (do queue cell b; try_else (scope.begin b.max_wait) stop_waiting λ _. wait_loop fuel)

    unfoldable pub acquire : ℕ → Exec (Error F) W Acquired
    acquire fuel = do tasks.lock; look ← try_enter cell b; acquire_from fuel look

  abbrev failed_event : Error F → BulkheadSnapshot → PolicyEvent F
  failed_event error released =
      bulkhead_event b.name EventKind.failed (some PolicyOutcome.failure) (failure_category error)
        released

  abbrev succeeded_event : BulkheadSnapshot → PolicyEvent F
  succeeded_event released =
      bulkhead_event b.name EventKind.succeeded (some PolicyOutcome.success) FailureCategory.nothing
        released

  -- the end of a call after its release: a cancelled release raises CancelledError
  abbrev after_release :
      {A : Type 0}
      → (BulkheadSnapshot → PolicyEvent F)
      → Exec (Error F) W (Option A)
      → Option (BulkheadSnapshot × Bool)
      → Exec (Error F) W (Option A)
  after_release event end none = pure none
  after_release event end (some (snap, true)) = throw cancelled
  after_release event end (some (snap, false)) = do emit b.observer (event snap); end

  unfoldable pub on_error : {A : Type 0} → ℕ → Error F → Exec (Error F) W (Option A)
  on_error fuel error =
      if is_exception error
      then (do
        released ← release_loop fuel false
        after_release (failed_event error) (throw error) released)
      else release_and_raise fuel error

  unfoldable pub on_result : {A : Type 0} → ℕ → A → Exec (Error F) W (Option A)
  on_result fuel result = do
    released ← release_loop fuel false
    after_release succeeded_event (pure (some result)) released

  unfoldable pub run_acquired :
      {A : Type 0}
      → Cell W (Option ℕ)
      → ℕ
      → Exec (Error F) W A
      → Acquired
      → Exec (Error F) W (Option A)
  run_acquired bound fuel run Acquired.waiting = pure none
  run_acquired bound fuel run Acquired.full = do
    rejected ← take_snapshot bound
    emit b.observer (rejected_event b rejected)
    throw (bulkhead_rejected_error b.name)
  run_acquired bound fuel run (Acquired.entered snap) =
      try_else
        (emit b.observer
          (bulkhead_event b.name EventKind.admitted none FailureCategory.nothing snap))
        (release_and_raise fuel) λ _. try_else run (on_error fuel) (on_result fuel)

  unfoldable pub call :
      {A : Type 0}
      → Cell W (Option ℕ)
      → Scope F W
      → ℕ
      → Operation F W A
      → Exec (Error F) W (Option A)
  call bound scope fuel operation = do
    lift (ensure_async_operation operation)
    bind_loop bound tasks
    acquired ← acquire scope fuel
    run_acquired bound fuel operation.run acquired
