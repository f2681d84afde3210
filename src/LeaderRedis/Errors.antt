-- ===== src/LeaderRedis/Errors.antt =====
-- packages/bluetape-leader _errors.py, and the other exceptions that leader/redis/_lock.py tells apart.
use bluetape_py.Common.{ℕ, Bool, true, false, Option, none, some, if◌then◌else◌}
use bluetape_py.Common.Exec.{Result, ok, raise, Exec, pure, throw, try_else}

pub data PyError : Type 0 where
  -- the classes of LeaderError
  backend_error lease_lost_error release_error invalid_options_error invalid_lock_name_error :
      PyError
  execution_error : (action_cause lifecycle_cause : PyError) → PyError
  -- `_UNCERTAIN_ERRORS`: the time-outs and the loss of a connection
  uncertain_error : ℕ → PyError
  no_script_error value_error type_error runtime_error assertion_error : PyError
  -- any other Exception
  exception : ℕ → PyError
  -- KeyboardInterrupt, SystemExit and GeneratorExit
  interrupt : ℕ → PyError
  -- any other BaseException
  base_exception : ℕ → PyError

abbrev pub is_leader_error : PyError → Bool
is_leader_error backend_error = true
is_leader_error lease_lost_error = true
is_leader_error release_error = true
is_leader_error invalid_options_error = true
is_leader_error invalid_lock_name_error = true
is_leader_error (execution_error _ _) = true
is_leader_error _ = false

abbrev pub is_uncertain : PyError → Bool
is_uncertain (uncertain_error _) = true
is_uncertain _ = false

abbrev pub is_no_script : PyError → Bool
is_no_script no_script_error = true
is_no_script _ = false

abbrev pub is_interrupt : PyError → Bool
is_interrupt (interrupt _) = true
is_interrupt _ = false

-- `isinstance(error, Exception)`
abbrev pub is_exception : PyError → Bool
is_exception (interrupt _) = false
is_exception (base_exception _) = false
is_exception _ = true

module _ {W A : Type 0} where
  -- a `try` whose `except Exception` keeps the error for later
  abbrev pub attempt : Exec PyError W A → Exec PyError W (Result PyError A)
  attempt m =
      try_else m (λ e. if is_exception e then pure (raise e) else throw e) (λ a. pure (ok a))

  -- the same for every exception
  abbrev pub attempt_all : Exec PyError W A → Exec PyError W (Result PyError A)
  attempt_all m = try_else m (λ e. pure (raise e)) (λ a. pure (ok a))

  -- an `except LeaderError`
  abbrev pub leader_error_of : Exec PyError W A → Exec PyError W (Option PyError)
  leader_error_of m =
      try_else m (λ e. if is_leader_error e then pure (some e) else throw e) (λ a. pure none)
