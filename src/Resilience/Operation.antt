-- ===== src/Resilience/Operation.antt =====
-- resilience/_retry.py, lines 33 to 67: the checks of an operation and of its result. An operation
-- is a callable object with what `inspect` says of it, and an action on the world.
use bluetape_py.Common.{Bool, not, ◌||◌, Option, none, some, if◌then◌else◌}
use bluetape_py.Common.Exec.{Result, ok, raise, Exec, pure, throw, ◌>>◌}
use bluetape_py.Resilience.Core.{Error, type_error, contract_error}

-- What `inspect` says of a function.
pub record Target : Type 0 where
  pub is_coroutine_function : Bool
  pub is_generator_function : Bool
  pub is_async_generator_function : Bool

-- What a sync call returns: a value, or an awaitable with its `close` method, if it has one.
pub data Returned (F W A : Type 0) : Type 0 where
  value : A → Returned F W A
  awaitable : Option (Exec (Error F) W (Unit {0})) → Returned F W A

-- `self` and `call` are the two targets of the checks, `operation` and `operation.__call__`.
pub record Operation (F W R : Type 0) : Type 0 where
  pub is_callable : Bool
  pub self_target : Target
  pub call_target : Target
  pub run : Exec (Error F) W R

abbrev is_not_sync : Target → Bool
is_not_sync t = t.is_coroutine_function || t.is_generator_function || t.is_async_generator_function

abbrev is_generator : Target → Bool
is_generator t = t.is_generator_function || t.is_async_generator_function

module _ {F W R : Type 0} where
  unfoldable pub ensure_sync_operation : Operation F W R → Result (Error F) (Unit {0})
  ensure_sync_operation operation =
      if not operation.is_callable
      then raise type_error
      else if is_not_sync operation.self_target || is_not_sync operation.call_target
      then raise type_error
      else ok tt

  unfoldable pub ensure_async_operation : Operation F W R → Result (Error F) (Unit {0})
  ensure_async_operation operation =
      if not operation.is_callable
      then raise type_error
      else if not (
            operation.self_target.is_coroutine_function
            || operation.call_target.is_coroutine_function)
          || (is_generator operation.self_target || is_generator operation.call_target)
      then raise type_error
      else ok tt

module _ {F W A : Type 0} where
  unfoldable pub ensure_sync_result : Returned F W A → Exec (Error F) W A
  ensure_sync_result (value a) = pure a
  ensure_sync_result (awaitable none) = throw contract_error
  ensure_sync_result (awaitable (some close)) = close >> throw contract_error
