-- ===== src/Resilience/Bulkhead.antt =====
-- resilience/_bulkhead.py: `Bulkhead`. Its two counters are one object of the world. The code
-- between two waits holds the condition's lock, and is one `locked` block each time; `wait` and
-- everything else that is called may let other threads change the counters.
pub mod Protocol
pub mod Bound
pub mod Run
mod Examples
use bluetape_py.Common.{
  ℕ, zero, suc, String, Bool, true, false, not, ◌||◌, Option, none, some, if◌then◌else◌,
}
use bluetape_py.Common.Int.{ℤ, pos, ltb_ℤ, increment, decrement}
use bluetape_py.Common.Exec.{
  Result, ok, raise, Exec, pure, throw, lift, ◌>>=◌, ◌>>◌, try_else, Cell, locked,
}
use bluetape_py.Resilience.Core.{
  Runtime, PyValue, Callback, PolicyType, EventKind, PolicyOutcome, FailureCategory, PolicyEvent,
  BulkheadSnapshot, Error, bulkhead_rejected_error, is_exception, failure_category, positive_int,
  validate_optional, emit, validate_name, finite_non_negative,
}
use bluetape_py.Resilience.Operation.{
  Returned, Operation, ensure_sync_operation, ensure_sync_result,
}
use bluetape_py.Resilience.Retry.{is_contract_error}

unfoldable pub bulkhead_event :
    {F : Type 0}
    → String
    → EventKind
    → Option PolicyOutcome
    → FailureCategory
    → BulkheadSnapshot
    → PolicyEvent F
bulkhead_event name kind outcome category snap = record {
  policy_name = name;
  policy_type = PolicyType.bulkhead;
  kind = kind;
  outcome = outcome;
  failure_category = category;
  attempt = none;
  delay = none;
  timeout = none;
  state = none;
  previous_state = none;
  in_flight = some snap.in_flight;
  waiters = some snap.waiters;
}

pub record Counters : Type 0 where
  pub in_flight : ℤ
  pub waiters : ℤ

pub record Bulkhead (F W : Type 0) : Type 0 where
  pub name : String
  pub max_concurrency : ℕ
  pub max_wait : F
  pub observer : Option (PolicyEvent F → Exec (Error F) W (Unit {0}))

-- What the runtime gives: `time.monotonic()` and `Condition.wait(timeout)`.
pub record Waiting (F W : Type 0) : Type 0 where
  pub monotonic : Exec (Error F) W F
  pub wait : F → Exec (Error F) W (Unit {0})

-- What `_acquire` gives: a snapshot, `None`, or neither yet, when the fuel of its loop is used up.
pub data Acquired : Type 0 where
  entered : BulkheadSnapshot → Acquired
  full waiting : Acquired

abbrev pub enter : Counters → Counters
enter d = record d { in_flight = increment d.in_flight }

abbrev pub leave : Counters → Counters
leave d = record d { in_flight = decrement d.in_flight }

module _ {F W : Type 0} ⦃py : Runtime F⦄ where
  unfoldable pub init :
      PyValue F
      → PyValue F
      → PyValue F
      → Option (Callback (PolicyEvent F → Exec (Error F) W (Unit {0})))
      → Exec (Error F) (Unit {0}) (Bulkhead F W × Counters)
  init name max_concurrency max_wait observer = do
    name' ← lift (validate_name name)
    limit ← lift (positive_int max_concurrency)
    wait ← lift (finite_non_negative max_wait)
    observer' ← lift (validate_optional observer)
    pure (
      record { name = name'; max_concurrency = limit; max_wait = wait; observer = observer' },
      record { in_flight = pos 0; waiters = pos 0 },
    )

  unfoldable pub snapshot_locked : Bulkhead F W → Counters → BulkheadSnapshot
  snapshot_locked b d = record {
    name = b.name;
    max_concurrency = b.max_concurrency;
    in_flight = d.in_flight;
    waiters = d.waiters;
  }

  -- `self._in_flight >= self._max_concurrency`
  abbrev pub is_full : Bulkhead F W → Counters → Bool
  is_full b d = not (ltb_ℤ d.in_flight (pos b.max_concurrency))

  abbrev pub rejected_event : Bulkhead F W → BulkheadSnapshot → PolicyEvent F
  rejected_event b snap =
      bulkhead_event b.name EventKind.rejected (some PolicyOutcome.rejection)
        FailureCategory.bulkhead_rejected snap

  module _ (cell : Cell W Counters) (b : Bulkhead F W) where
    unfoldable pub take_snapshot : Exec (Error F) W BulkheadSnapshot
    take_snapshot = locked cell λ d. (snapshot_locked b d, d)

    unfoldable pub release : Exec (Error F) W BulkheadSnapshot
    release = locked cell λ d. let d' = leave d in (snapshot_locked b d', d')

    abbrev pub queue : Exec (Error F) W (Unit {0})
    queue = locked cell λ d. (tt, record d { waiters = increment d.waiters })

    abbrev pub unqueue : Exec (Error F) W (Unit {0})
    unqueue = locked cell λ d. (tt, record d { waiters = decrement d.waiters })

    -- one look at the counter under the lock: enter if there is room
    unfoldable pub try_enter : Exec (Error F) W (Option BulkheadSnapshot)
    try_enter = locked cell λ d.
        if is_full b d then (none, d) else (let d' = enter d in (some (snapshot_locked b d'), d'))

    -- the test of the `while`: with room, the wait is over, `finally` runs and the call enters
    unfoldable pub enter_from_queue : Exec (Error F) W (Option BulkheadSnapshot)
    enter_from_queue = locked cell λ d.
        if is_full b d
        then (none, d)
        else (let d' = enter (record d { waiters = decrement d.waiters }) in
            (some (snapshot_locked b d'), d'))

    abbrev unqueue_and_raise : {A : Type 0} → Error F → Exec (Error F) W A
    unqueue_and_raise error = do unqueue; throw error

    module _ (waiting : Waiting F W) where
      abbrev wait_or_expire : F → Exec (Error F) W Acquired → Exec (Error F) W Acquired
      wait_or_expire remaining again =
          if py.le remaining py.zero
          then (unqueue >> pure Acquired.full)
          else try_else (waiting.wait remaining) unqueue_and_raise (λ _. again)

      -- the rest of a turn of the `while`
      abbrev after_look :
          F → Option BulkheadSnapshot → Exec (Error F) W Acquired → Exec (Error F) W Acquired
      after_look deadline (some snap) again = pure (Acquired.entered snap)
      after_look deadline none again =
          try_else waiting.monotonic unqueue_and_raise
            λ now. wait_or_expire (py.sub deadline now) again

      -- lines 90 to 99
      unfoldable pub wait_loop : ℕ → F → Exec (Error F) W Acquired
      wait_loop zero deadline = pure Acquired.waiting
      wait_loop (suc fuel) deadline = do
        look ← enter_from_queue
        after_look deadline look (wait_loop fuel deadline)

      abbrev acquire_from : ℕ → Option BulkheadSnapshot → Exec (Error F) W Acquired
      acquire_from fuel (some snap) = pure (Acquired.entered snap)
      acquire_from fuel none =
          if py.eqb b.max_wait py.zero
          then pure Acquired.full
          else do now ← waiting.monotonic; queue; wait_loop fuel (py.add now b.max_wait)

      unfoldable pub acquire : ℕ → Exec (Error F) W Acquired
      acquire fuel = do look ← try_enter; acquire_from fuel look

      abbrev release_and_raise : {A : Type 0} → Error F → Exec (Error F) W A
      release_and_raise error = do release; throw error

      unfoldable pub on_error : {A : Type 0} → Error F → Exec (Error F) W A
      on_error error =
          if is_contract_error error || not (is_exception error)
          then release_and_raise error
          else do
            released ← release
            emit b.observer (
                bulkhead_event b.name EventKind.failed (some PolicyOutcome.failure)
                  (failure_category error) released)
            throw error

      unfoldable pub on_result : {A : Type 0} → A → Exec (Error F) W (Option A)
      on_result result = do
        released ← release
        emit b.observer (
            bulkhead_event b.name EventKind.succeeded (some PolicyOutcome.success)
              FailureCategory.nothing released)
        pure (some result)

      -- lines 111 to 164
      unfoldable pub run_acquired :
          {A : Type 0} → Exec (Error F) W (Returned F W A) → Acquired → Exec (Error F) W (Option A)
      run_acquired run Acquired.waiting = pure none
      run_acquired run Acquired.full = do
        rejected ← take_snapshot
        emit b.observer (rejected_event b rejected)
        throw (bulkhead_rejected_error b.name)
      run_acquired run (Acquired.entered snap) =
          try_else
            (emit b.observer
              (bulkhead_event b.name EventKind.admitted none FailureCategory.nothing snap))
            release_and_raise λ _. try_else (run >>= ensure_sync_result) on_error on_result

      unfoldable pub call :
          {A : Type 0} → ℕ → Operation F W (Returned F W A) → Exec (Error F) W (Option A)
      call fuel operation = do
        lift (ensure_sync_operation operation)
        acquired ← acquire fuel
        run_acquired operation.run acquired
