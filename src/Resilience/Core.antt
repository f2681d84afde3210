-- ===== src/Resilience/Core.antt =====
-- resilience/_core.py: enumerations, events, snapshots, errors and the validation of arguments.
use text.Mathlib.Text.{◌==◌ as str_eq}
use bluetape_py.Common.{ℕ, String, Bool, true, false, not, ◌||◌, Option, none, some, if◌then◌else◌}
use bluetape_py.Common.Int.{ℤ, pos, pos_part, ltb_ℤ}
use bluetape_py.Common.Exec.{Result, ok, raise, Exec, pure}

-- What Python's `float` and `str` give to this code.
pub record Runtime (F : Type 0) : Type 0 where
  -- `float(n)`; `none` is an OverflowError
  pub of_int : ℤ → Option F
  pub is_finite : F → Bool
  pub zero : F
  pub one : F
  pub infinity : F
  pub eqb : F → F → Bool
  pub lt : F → F → Bool
  pub le : F → F → Bool
  pub add : F → F → F
  pub sub : F → F → F
  pub mul : F → F → F
  -- `x ** n`; `none` is an OverflowError
  pub pow : F → ℕ → Option F
  pub strip : String → String

-- An object, as `isinstance` tells them apart here.
pub data PyValue (F : Type 0) : Type 0 where
  bool : Bool → PyValue F
  int : ℤ → PyValue F
  float : F → PyValue F
  str : String → PyValue F
  object : PyValue F

-- An argument that ought to be callable.
pub data Callback (C : Type 0) : Type 0 where
  callable : C → Callback C
  not_callable : Callback C

pub data PolicyType : Type 0 where
  retry timeout circuit_breaker bulkhead : PolicyType

pub data EventKind : Type 0 where
  succeeded failed retry_scheduled timed_out circuit_transitioned admitted rejected : EventKind

pub data PolicyOutcome : Type 0 where
  success failure rejection : PolicyOutcome

pub data FailureCategory : Type 0 where
  nothing failure timeout retry_exhausted circuit_open bulkhead_rejected : FailureCategory

pub data CircuitState : Type 0 where
  closed opened half_open : CircuitState

pub record PolicyEvent (F : Type 0) : Type 0 where
  pub policy_name : String
  pub policy_type : PolicyType
  pub kind : EventKind
  pub outcome : Option PolicyOutcome
  pub failure_category : FailureCategory
  pub attempt : Option ℕ
  pub delay : Option F
  pub timeout : Option F
  pub state : Option CircuitState
  pub previous_state : Option CircuitState
  pub in_flight : Option ℤ
  pub waiters : Option ℤ

pub record CircuitSnapshot : Type 0 where
  pub name : String
  pub state : CircuitState
  pub consecutive_failures : ℕ
  pub recovery_successes : ℕ
  pub half_open_in_flight : ℤ

pub record BulkheadSnapshot : Type 0 where
  pub name : String
  pub max_concurrency : ℕ
  pub in_flight : ℤ
  pub waiters : ℤ

-- The exceptions of the package, those of Python that it raises or tells apart, and any other.
-- `contract_error` is `_SyncResultContractError`; `other` is an Exception, `base` is none.
pub data Error (F : Type 0) : Type 0 where
  type_error value_error overflow_error runtime_error contract_error timeout_error : Error F
  retry_exhausted_error : String → ℕ → Error F
  policy_timeout_error : String → F → Error F
  circuit_open_error : String → CircuitState → Error F
  bulkhead_rejected_error : String → Error F
  other : ℕ → Error F
  cancelled : Error F
  base : ℕ → Error F

-- `isinstance(error, Exception)`
unfoldable pub is_exception : {F : Type 0} → Error F → Bool
is_exception cancelled = false
is_exception (base n) = false
is_exception _ = true

unfoldable pub failure_category : {F : Type 0} → Error F → FailureCategory
failure_category (policy_timeout_error n t) = FailureCategory.timeout
failure_category (retry_exhausted_error n k) = FailureCategory.retry_exhausted
failure_category (circuit_open_error n s) = FailureCategory.circuit_open
failure_category (bulkhead_rejected_error n) = FailureCategory.bulkhead_rejected
failure_category _ = FailureCategory.failure

module _ {F : Type 0} where
  unfoldable pub positive_int : PyValue F → Result (Error F) ℕ
  positive_int (int value) = if ltb_ℤ value (pos 1) then raise value_error else ok (pos_part value)
  positive_int _ = raise type_error

  unfoldable pub validate_callable : {C : Type 0} → Callback C → Result (Error F) C
  validate_callable (callable value) = ok value
  validate_callable not_callable = raise type_error

  unfoldable pub validate_optional :
      {C : Type 0} → Option (Callback C) → Result (Error F) (Option C)
  validate_optional none = ok none
  validate_optional (some (callable value)) = ok (some value)
  validate_optional (some not_callable) = raise type_error

  unfoldable pub emit :
      {W : Type 0}
      → Option (PolicyEvent F → Exec (Error F) W (Unit {0}))
      → PolicyEvent F
      → Exec (Error F) W (Unit {0})
  emit none event = pure tt
  emit (some observer) event = observer event

module _ {F : Type 0} ⦃py : Runtime F⦄ where
  unfoldable pub validate_name : PyValue F → Result (Error F) String
  validate_name (str value) =
      if str_eq value "" || not (str_eq value (py.strip value)) then raise value_error else ok value
  validate_name _ = raise type_error

  -- `float(value)` of a number that is no bool
  unfoldable pub to_float : PyValue F → Result (Error F) F
  to_float (int value) = elim (py.of_int value) [ none ↦ raise overflow_error | some x ↦ ok x ]
  to_float (float value) = ok value
  to_float _ = raise type_error

  abbrev check_non_negative : F → Result (Error F) F
  check_non_negative x = if not (py.is_finite x) || py.lt x py.zero then raise value_error else ok x

  abbrev check_positive : F → Result (Error F) F
  check_positive x = if not (py.is_finite x) || py.le x py.zero then raise value_error else ok x

  unfoldable pub finite_non_negative : PyValue F → Result (Error F) F
  unfolding to_float
  finite_non_negative value = elim (to_float value) [
    | ok x ↦ check_non_negative x
    | raise e ↦ raise e
  ]

  unfoldable pub finite_positive : PyValue F → Result (Error F) F
  unfolding to_float
  finite_positive value = elim (to_float value) [ ok x ↦ check_positive x | raise e ↦ raise e ]
