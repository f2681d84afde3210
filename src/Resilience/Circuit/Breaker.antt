-- ===== src/Resilience/Circuit/Breaker.antt =====
-- resilience/_circuit.py: `_CircuitEvents` and `CircuitBreaker`. The breaker's data is one object
-- of the world, which every callback may change (other threads run meanwhile); `locked` blocks
-- are what the code does under its lock.
pub mod Protocol
pub mod Safety
use bluetape_py.Common.{ℕ, String, Bool, true, false, Option, none, some, if◌then◌else◌, is_some}
use bluetape_py.Common.Exec.{
  Result, ok, raise, Exec, pure, throw, lift, ◌>>=◌, ◌>>◌, try_else, Cell, locked,
}
use bluetape_py.Resilience.Core.{
  Runtime, PyValue, bool, Callback, PolicyType, EventKind, PolicyOutcome, FailureCategory,
  PolicyEvent, CircuitState, CircuitSnapshot, Error, type_error, contract_error, circuit_open_error,
  is_exception, failure_category, positive_int, validate_callable, validate_optional, emit,
  validate_name, finite_non_negative, finite_positive,
}
use bluetape_py.Resilience.Operation.{
  Returned, Operation, ensure_sync_operation, ensure_sync_result,
}
use bluetape_py.Resilience.Circuit.{
  Admission, Transition, CircuitData, new_data, admit, succeed, fail, ignore, snapshot,
}

-- `None if transition is None else transition.previous`
abbrev pub previous_of : Option Transition → Option CircuitState
previous_of none = none
previous_of (some moved) = some moved.previous

unfoldable pub make :
    {F : Type 0}
    → String
    → EventKind
    → Option PolicyOutcome
    → FailureCategory
    → CircuitSnapshot
    → Option Transition
    → PolicyEvent F
make name kind outcome category snap moved = record {
  policy_name = name;
  policy_type = PolicyType.circuit_breaker;
  kind = kind;
  outcome = outcome;
  failure_category = category;
  attempt = none;
  delay = none;
  timeout = none;
  state = some snap.state;
  previous_state = previous_of moved;
  in_flight = some snap.half_open_in_flight;
  waiters = none;
}

-- The fields of a breaker but for its data, which `cell` finds in the world.
pub record CircuitBreaker (F W : Type 0) : Type 0 where
  pub name : String
  pub failure_if : Option (Error F → Exec (Error F) W (PyValue F))
  pub observer : Option (PolicyEvent F → Exec (Error F) W (Unit {0}))
  pub clock : Exec (Error F) W (PyValue F)

abbrev as_bool : {F : Type 0} → PyValue F → Result (Error F) Bool
as_bool (bool b) = ok b
as_bool _ = raise type_error

abbrev is_contract_error : {F : Type 0} → Error F → Bool
is_contract_error contract_error = true
is_contract_error _ = false

module _ {F W : Type 0} ⦃py : Runtime F⦄ where
  -- `__init__`: the breaker and its data; a callback that ought to be callable may not be
  unfoldable pub init :
      PyValue F
      → PyValue F
      → PyValue F
      → PyValue F
      → PyValue F
      → Option (Callback (Error F → Exec (Error F) W (PyValue F)))
      → Option (Callback (PolicyEvent F → Exec (Error F) W (Unit {0})))
      → Callback (Exec (Error F) W (PyValue F))
      → Exec (Error F) (Unit {0}) (CircuitBreaker F W × CircuitData F)
  init name failure_threshold open_duration half_open_max_calls recovery_success_threshold
        failure_if observer clock =
      do
        name' ← lift (validate_name name)
        failures ← lift (positive_int failure_threshold)
        duration ← lift (finite_positive open_duration)
        calls ← lift (positive_int half_open_max_calls)
        successes ← lift (positive_int recovery_success_threshold)
        failure_if' ← lift (validate_optional failure_if)
        observer' ← lift (validate_optional observer)
        clock' ← lift (validate_callable clock)
        pure (
          record { name = name'; failure_if = failure_if'; observer = observer'; clock = clock' },
          new_data failures duration calls successes,
        )

  unfoldable pub read_clock : CircuitBreaker F W → Exec (Error F) W F
  read_clock cb = do value ← cb.clock; lift (finite_non_negative value)

  abbrev classify_by :
      Option (Error F → Exec (Error F) W (PyValue F)) → Error F → Exec (Error F) W Bool
  classify_by none error = pure true
  classify_by (some failure_if) error = do result ← failure_if error; lift (as_bool result)

  unfoldable pub classify : CircuitBreaker F W → Error F → Exec (Error F) W Bool
  classify cb error = classify_by cb.failure_if error

  abbrev pub emit_transition :
      CircuitBreaker F W → CircuitSnapshot → Option Transition → Exec (Error F) W (Unit {0})
  emit_transition cb snap none = pure tt
  emit_transition cb snap (some moved) =
      emit cb.observer
        (make cb.name EventKind.circuit_transitioned none FailureCategory.nothing snap (some moved))

  abbrev pub rejected_event : CircuitBreaker F W → CircuitSnapshot → PolicyEvent F
  rejected_event cb snap =
      make cb.name EventKind.rejected (some PolicyOutcome.rejection) FailureCategory.circuit_open
        snap none

  abbrev pub admitted_event : CircuitBreaker F W → CircuitSnapshot → PolicyEvent F
  admitted_event cb snap = make cb.name EventKind.admitted none FailureCategory.nothing snap none

  module _ (cell : Cell W (CircuitData F)) (cb : CircuitBreaker F W) where
    unfoldable pub take_snapshot : Exec (Error F) W CircuitSnapshot
    take_snapshot = locked cell λ d. (snapshot cb.name d, d)

    unfoldable pub release : Admission → Exec (Error F) W CircuitSnapshot
    release admission = locked cell λ d. let d' = ignore admission d in (snapshot cb.name d', d')

    -- the first block under the lock
    unfoldable pub admit_call :
        F → Exec (Error F) W (Option Admission × Option Transition × CircuitSnapshot)
    admit_call now =
        locked cell
          λ d. let (result, d') = admit now d in ((result.0, result.1, snapshot cb.name d'), d')

    -- the events of an admission or of a rejection, lines 221 to 246
    unfoldable pub announce :
        Option Admission → Option Transition → CircuitSnapshot → Exec (Error F) W Admission
    announce none moved snap = do
      emit_transition cb snap moved
      emit cb.observer (rejected_event cb snap)
      throw (circuit_open_error cb.name snap.state)
    announce (some admission) moved snap = do
      emit_transition cb snap moved
      emit cb.observer (admitted_event cb snap)
      pure admission

    abbrev release_if_admitted : Option Admission → Exec (Error F) W (Unit {0})
    release_if_admitted none = pure tt
    release_if_admitted (some admission) = do release admission; pure tt

    abbrev release_and_raise : {A : Type 0} → Admission → Error F → Exec (Error F) W A
    release_and_raise admission error = do release admission; throw error

    unfoldable pub record_failure :
        Admission → F → Bool → Exec (Error F) W (Option Transition × CircuitSnapshot)
    record_failure admission now true =
        locked cell
          λ d. let (changed, d') = fail admission now d in ((changed, snapshot cb.name d'), d')
    record_failure admission now false =
        locked cell λ d. let d' = ignore admission d in ((none, snapshot cb.name d'), d')

    unfoldable pub record_success :
        Admission → F → Exec (Error F) W (Option Transition × CircuitSnapshot)
    record_success admission now =
        locked cell
          λ d. let (changed, d') = succeed admission now d in ((changed, snapshot cb.name d'), d')

    -- `except Exception as error`, lines 256 to 292
    unfoldable pub on_exception : {A : Type 0} → Admission → Error F → Exec (Error F) W A
    on_exception admission error =
        try_else (classify cb error) (release_and_raise admission) λ classified.
          try_else (read_clock cb) (release_and_raise admission) λ now. do
            (changed, snap) ← record_failure admission now classified
            emit_transition cb snap changed
            emit cb.observer (
                make cb.name EventKind.failed (some PolicyOutcome.failure) (failure_category error)
                  snap none)
            throw error

    -- the three `except` clauses of the operation
    unfoldable pub on_error : {A : Type 0} → Admission → Error F → Exec (Error F) W A
    on_error admission error =
        if is_contract_error error
        then release_and_raise admission error
        else if is_exception error
        then on_exception admission error
        else release_and_raise admission error

    -- lines 296 to 324
    unfoldable pub on_result : {A : Type 0} → Admission → A → Exec (Error F) W A
    on_result admission result = try_else (read_clock cb) (release_and_raise admission) λ now. do
      (changed, snap) ← record_success admission now
      emit_transition cb snap changed
      emit cb.observer (
          make cb.name EventKind.succeeded (some PolicyOutcome.success) FailureCategory.nothing snap
            none)
      pure result

    unfoldable pub run_admitted :
        {A : Type 0} → Exec (Error F) W (Returned F W A) → Admission → Exec (Error F) W A
    run_admitted run admission =
        try_else (run >>= ensure_sync_result) (on_error admission) (on_result admission)

    unfoldable pub call : {A : Type 0} → Operation F W (Returned F W A) → Exec (Error F) W A
    call operation = do
      lift (ensure_sync_operation operation)
      now ← read_clock cb
      (admission, moved, snap) ← admit_call now
      try_else (announce admission moved snap)
          (λ error. do release_if_admitted admission; throw error) (run_admitted operation.run)
