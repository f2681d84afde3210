-- ===== src/Resilience/Timeout/Examples.antt =====
-- A test of the timeout policy.
use bluetape_py.Common.{ℕ, ◌≡◌, refl, true, List, [], ◌∷◌}
use bluetape_py.Common.Exec.{raise, pure, whole}
use bluetape_py.Resilience.Core.{
  EventKind, PolicyOutcome, FailureCategory, PolicyEvent, policy_timeout_error, timeout_error, emit,
}
use bluetape_py.Resilience.Operation.{Operation, ensure_async_operation}
use bluetape_py.Resilience.Ticks.{ticks, async_operation}
use bluetape_py.Resilience.Timeout.{TimeoutScope, timeout_event, on_error, on_end, call}
use bluetape_py.Resilience.Timeout.Events.{Reports, recording, call-Reports}

abbrev Log : Type 0
Log = List (PolicyEvent ℕ)

-- the scope has expired
abbrev expiring : TimeoutScope ℕ Log ℕ
expiring = record { within = λ delay run log. ((raise timeout_error, true), log) }

abbrev slow : Operation ℕ Log ℕ
slow = async_operation (pure 7)

times_out : call (recording whole "db" 5) expiring slow [] ≡ (
  raise (policy_timeout_error "db" 5),
  timeout_event
        (recording whole "db" 5)
        EventKind.timed_out
        PolicyOutcome.failure
        FailureCategory.timeout
      ∷ [],
)
unfolding call on_end on_error emit ensure_async_operation
times_out = refl

call-Reports_example :
    Reports
      (recording whole "db" 5)
      (raise timeout_error)
      true
      (call (recording whole "db" 5) expiring slow []).0
      []
      (call (recording whole "db" 5) expiring slow []).1
unfolding ensure_async_operation
call-Reports_example = call-Reports whole "db" 5 expiring slow refl (λ log. refl) []
