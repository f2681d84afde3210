-- ===== src/Resilience/Timeout.antt =====
-- resilience/_timeout.py: `AsyncTimeout`. The scope of `asyncio.timeout` is a parameter, which gives
-- how the `async with` block ended and what `expired()` says after it.
pub mod Events
mod Examples
use bluetape_py.Common.{String, Bool, true, false, Option, none, some, if◌then◌else◌}
use bluetape_py.Common.Exec.{Result, ok, raise, Exec, pure, throw, lift, ◌>>=◌, ◌>>◌}
use bluetape_py.Resilience.Core.{
  Runtime, PyValue, Callback, PolicyType, EventKind, PolicyOutcome, FailureCategory, PolicyEvent,
  Error, timeout_error, policy_timeout_error, is_exception, failure_category, emit, validate_name,
  validate_optional, finite_positive,
}
use bluetape_py.Resilience.Operation.{Operation, ensure_async_operation}

pub record AsyncTimeout (F W : Type 0) : Type 0 where
  pub name : String
  pub timeout : F
  pub observer : Option (PolicyEvent F → Exec (Error F) W (Unit {0}))

-- `asyncio.timeout(delay)`, round an action: how it ended, and whether the scope expired
pub record TimeoutScope (F W A : Type 0) : Type 0 where
  pub within : F → Exec (Error F) W A → W → (Result (Error F) A × Bool) × W

abbrev pub is_timeout_error : {F : Type 0} → Error F → Bool
is_timeout_error timeout_error = true
is_timeout_error (policy_timeout_error n t) = true
is_timeout_error _ = false

module _ {F W : Type 0} ⦃py : Runtime F⦄ where
  unfoldable pub init :
      PyValue F
      → PyValue F
      → Option (Callback (PolicyEvent F → Exec (Error F) W (Unit {0})))
      → Exec (Error F) (Unit {0}) (AsyncTimeout F W)
  init name timeout observer = do
    name' ← lift (validate_name name)
    timeout' ← lift (finite_positive timeout)
    observer' ← lift (validate_optional observer)
    pure (record { name = name'; timeout = timeout'; observer = observer' })

  unfoldable pub timeout_event :
      AsyncTimeout F W → EventKind → PolicyOutcome → FailureCategory → PolicyEvent F
  timeout_event p kind outcome category = record {
    policy_name = p.name;
    policy_type = PolicyType.timeout;
    kind = kind;
    outcome = some outcome;
    failure_category = category;
    attempt = none;
    delay = none;
    timeout = some p.timeout;
    state = none;
    previous_state = none;
    in_flight = none;
    waiters = none;
  }

  abbrev report : AsyncTimeout F W → PolicyEvent F → Exec (Error F) W (Unit {0})
  report p event = emit p.observer event

  abbrev fail_with : {A : Type 0} → AsyncTimeout F W → Error F → Exec (Error F) W A
  fail_with p error = do
    report p (timeout_event p EventKind.failed PolicyOutcome.failure (failure_category error))
    throw error

  -- the `except` clauses
  unfoldable pub on_error : {A : Type 0} → AsyncTimeout F W → Bool → Error F → Exec (Error F) W A
  on_error p expired error =
      if is_timeout_error error
      then (if expired
          then (do
            report p
                (timeout_event p EventKind.timed_out PolicyOutcome.failure FailureCategory.timeout)
            throw (policy_timeout_error p.name p.timeout))
          else fail_with p error)
      else if is_exception error
      then fail_with p error
      else throw error

  unfoldable pub on_end :
      {A : Type 0} → AsyncTimeout F W → Result (Error F) A × Bool → Exec (Error F) W A
  on_end p (raise error, expired) = on_error p expired error
  on_end p (ok result, expired) = do
    report p (timeout_event p EventKind.succeeded PolicyOutcome.success FailureCategory.nothing)
    pure result

  abbrev scoped :
      {A : Type 0}
      → AsyncTimeout F W
      → TimeoutScope F W A
      → Exec (Error F) W A
      → Exec (Error F) W (Result (Error F) A × Bool)
  scoped p scope run w = let (ended, w') = scope.within p.timeout run w in (ok ended, w')

  unfoldable pub call :
      {A : Type 0} → AsyncTimeout F W → TimeoutScope F W A → Operation F W A → Exec (Error F) W A
  call p scope operation = do
    lift (ensure_async_operation operation)
    ended ← scoped p scope operation.run
    on_end p ended
