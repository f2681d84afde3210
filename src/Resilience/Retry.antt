-- ===== src/Resilience/Retry.antt =====
-- resilience/_retry.py, from line 70: `Retry` and `AsyncRetry`. A loop takes fuel; `none` means that
-- it ran out.
pub mod Attempts
pub mod Termination
pub mod Schedule
mod Examples
use bluetape_py.Common.{
  ℕ, zero, suc, ◌+◌, String, Bool, true, false, not, ◌||◌, Option, none, some, leb, if◌then◌else◌,
}
use bluetape_py.Common.Exec.{Result, ok, raise, Exec, pure, throw, lift, ◌>>=◌, ◌>>◌, try_else}
use bluetape_py.Common.Int.{pos}
use bluetape_py.Resilience.Core.{
  Runtime, PyValue, bool, int, Callback, PolicyType, EventKind, PolicyOutcome, FailureCategory,
  PolicyEvent, Error, type_error, contract_error, circuit_open_error, bulkhead_rejected_error,
  policy_timeout_error, retry_exhausted_error, is_exception, failure_category, positive_int,
  validate_callable, validate_optional, emit, validate_name, finite_non_negative,
}
use bluetape_py.Resilience.Operation.{
  Returned, Operation, ensure_sync_operation, ensure_async_operation, ensure_sync_result,
}

unfoldable pub retry_event :
    {F : Type 0}
    → String
    → EventKind
    → Option PolicyOutcome
    → FailureCategory
    → ℕ
    → Option F
    → PolicyEvent F
retry_event name kind outcome category attempt delay = record {
  policy_name = name;
  policy_type = PolicyType.retry;
  kind = kind;
  outcome = outcome;
  failure_category = category;
  attempt = some attempt;
  delay = delay;
  timeout = none;
  state = none;
  previous_state = none;
  in_flight = none;
  waiters = none;
}

-- The fields of `Retry` and of `AsyncRetry`. A backoff is any callable.
pub record Retry (F W : Type 0) : Type 0 where
  pub name : String
  pub max_attempts : ℕ
  pub backoff : PyValue F → Exec (Error F) W (PyValue F)
  pub retry_if : Option (Error F → Exec (Error F) W (PyValue F))
  pub observer : Option (PolicyEvent F → Exec (Error F) W (Unit {0}))
  pub sleeper : F → Exec (Error F) W (Unit {0})

-- `not isinstance(error, (CircuitOpenError, BulkheadRejectedError, PolicyTimeoutError))`
unfoldable pub retryable_by_default : {F : Type 0} → Error F → Bool
retryable_by_default (circuit_open_error n s) = false
retryable_by_default (bulkhead_rejected_error n) = false
retryable_by_default (policy_timeout_error n t) = false
retryable_by_default _ = true

abbrev as_bool : {F : Type 0} → PyValue F → Result (Error F) Bool
as_bool (bool b) = ok b
as_bool _ = raise type_error

abbrev pub is_contract_error : {F : Type 0} → Error F → Bool
is_contract_error contract_error = true
is_contract_error _ = false

module _ {F W : Type 0} ⦃py : Runtime F⦄ where
  -- `__init__`, which is the same in both classes
  unfoldable pub init :
      PyValue F
      → PyValue F
      → Callback (PyValue F → Exec (Error F) W (PyValue F))
      → Option (Callback (Error F → Exec (Error F) W (PyValue F)))
      → Option (Callback (PolicyEvent F → Exec (Error F) W (Unit {0})))
      → Callback (F → Exec (Error F) W (Unit {0}))
      → Exec (Error F) (Unit {0}) (Retry F W)
  init name max_attempts backoff retry_if observer sleeper = do
    name' ← lift (validate_name name)
    attempts ← lift (positive_int max_attempts)
    backoff' ← lift (validate_callable backoff)
    retry_if' ← lift (validate_optional retry_if)
    observer' ← lift (validate_optional observer)
    sleeper' ← lift (validate_callable sleeper)
    pure (record {
      name = name';
      max_attempts = attempts;
      backoff = backoff';
      retry_if = retry_if';
      observer = observer';
      sleeper = sleeper';
    })

  abbrev is_retryable_by :
      Option (Error F → Exec (Error F) W (PyValue F)) → Error F → Exec (Error F) W Bool
  is_retryable_by none error = pure (retryable_by_default error)
  is_retryable_by (some retry_if) error = do result ← retry_if error; lift (as_bool result)

  unfoldable pub is_retryable : Retry F W → Error F → Exec (Error F) W Bool
  is_retryable p error = is_retryable_by p.retry_if error

  abbrev fail_with : Retry F W → ℕ → FailureCategory → Error F → Exec (Error F) W (Unit {0})
  fail_with p attempt category error = do
    emit p.observer
        (retry_event p.name EventKind.failed (some PolicyOutcome.failure) category attempt none)
    throw error

  -- lines 158 to 170
  unfoldable pub schedule : Retry F W → Error F → ℕ → Exec (Error F) W (Unit {0})
  schedule p error attempt = do
    value ← p.backoff (int (pos attempt))
    delay ← lift (finite_non_negative value)
    emit p.observer (
        retry_event p.name EventKind.retry_scheduled none (failure_category error) attempt
          (some delay))
    p.sleeper delay

  abbrev pub retry_or_fail : Retry F W → Error F → ℕ → Bool → Exec (Error F) W (Unit {0})
  retry_or_fail p error attempt retryable =
      if not retryable
      then fail_with p attempt (failure_category error) error
      else if leb p.max_attempts attempt
      then fail_with p attempt FailureCategory.retry_exhausted
          (retry_exhausted_error p.name attempt)
      else schedule p error attempt

  -- `except Exception as error`: raise, or come to the end of the block that goes on to the next
  -- attempt
  unfoldable pub after_error : Retry F W → Error F → ℕ → Exec (Error F) W (Unit {0})
  after_error p error attempt = do
    retryable ← is_retryable p error
    retry_or_fail p error attempt retryable

  -- what follows a result
  unfoldable pub succeed_at : {A : Type 0} → Retry F W → ℕ → A → Exec (Error F) W (Option A)
  succeed_at p attempt result = do
    emit p.observer (
        retry_event p.name EventKind.succeeded (some PolicyOutcome.success) FailureCategory.nothing
          attempt none)
    pure (some result)

  -- the `while True` of `Retry.call`
  unfoldable pub sync_loop :
      {A : Type 0}
      → Retry F W
      → Exec (Error F) W (Returned F W A)
      → ℕ
      → ℕ
      → Exec (Error F) W (Option A)
  sync_loop p run zero attempt = pure none
  sync_loop p run (suc fuel) attempt =
      try_else run
        (λ error.
          if is_contract_error error || not (is_exception error)
          then throw error
          else do after_error p error attempt; sync_loop p run fuel (attempt + 1))
        (λ returned. do result ← ensure_sync_result returned; succeed_at p attempt result)

  unfoldable pub call :
      {A : Type 0} → Retry F W → Operation F W (Returned F W A) → Exec (Error F) W (Option A)
  call p operation = do
    lift (ensure_sync_operation operation)
    sync_loop p operation.run p.max_attempts 1

  -- the `while True` of `AsyncRetry.call`
  unfoldable pub async_loop :
      {A : Type 0} → Retry F W → Exec (Error F) W A → ℕ → ℕ → Exec (Error F) W (Option A)
  async_loop p run zero attempt = pure none
  async_loop p run (suc fuel) attempt =
      try_else run
        (λ error.
          if not (is_exception error)
          then throw error
          else do after_error p error attempt; async_loop p run fuel (attempt + 1))
        (λ result. succeed_at p attempt result)

  unfoldable pub async_call :
      {A : Type 0} → Retry F W → Operation F W A → Exec (Error F) W (Option A)
  async_call p operation = do
    lift (ensure_async_operation operation)
    async_loop p operation.run p.max_attempts 1
