-- ===== src/Resilience/Retry/Examples.antt =====
-- Tests of the retry policies on concrete inputs.
use bluetape_py.Common.{ℕ, suc, ◌+◌, ◌≤◌, ◌≡◌, ◌≢◌, refl, none, [], ◌∷◌, arith}
use bluetape_py.Common.Exec.{ok, raise, Exec, whole}
use bluetape_py.Resilience.Core.{
  float, Error, timeout_error, retry_exhausted_error, value_error, emit, is_exception,
  finite_non_negative,
}
use bluetape_py.Resilience.Operation.{
  Returned, Operation, ensure_sync_operation, ensure_sync_result,
}
use bluetape_py.Resilience.Ticks.{ticks, sync_operation, async_operation}
use bluetape_py.Resilience.Retry.{
  Retry, is_retryable, retryable_by_default, call, async_call, sync_loop, async_loop, after_error,
  schedule, succeed_at,
}
use bluetape_py.Resilience.Retry.Attempts.{LeaveAlone, max_attempts-loops}
use bluetape_py.Resilience.Retry.Termination.{calls-end}
use bluetape_py.Resilience.Retry.Schedule.{Script, run_script, scripted, call-follows}

program : Unit {0}
unfolding call sync_loop after_error schedule succeed_at is_retryable retryable_by_default emit
    is_exception finite_non_negative ensure_sync_operation ensure_sync_result
program = tt

-- an operation that counts its runs and times out
abbrev tick_and_fail : {A : Type 0} → Exec (Error ℕ) ℕ A
tick_and_fail n = (raise timeout_error, suc n)

abbrev thrice : {W : Type 0} → Retry ℕ W
thrice = record {
  name = "http";
  max_attempts = 3;
  backoff = λ v w. (ok (float 1), w);
  retry_if = none;
  observer = none;
  sleeper = λ d w. (ok tt, w);
}

abbrev counting : Operation ℕ ℕ (Returned ℕ ℕ ℕ)
counting = sync_operation tick_and_fail

three_runs : call thrice counting 0 ≡ (raise (retry_exhausted_error "http" 3), 3)
unfolding program
three_runs = refl

thrice-LeaveAlone : LeaveAlone whole thrice
unfolding program
thrice-LeaveAlone = record {
  retry_if = λ error. record { at = λ w. refl };
  observer = λ event. record { at = λ w. refl };
  backoff = λ value. record { at = λ w. refl };
  sleeper = λ delay. record { at = λ w. refl };
}

max_attempts-loops_example :
    ((sync_loop thrice counting.run 9 1 0).1 ≤ 0 + 3)
    × ((async_loop thrice (tick_and_fail {A = ℕ}) 9 1 0).1 ≤ 0 + 3)
max_attempts-loops_example =
    max_attempts-loops whole thrice thrice-LeaveAlone counting.run (tick_and_fail {A = ℕ})
      (omega arith) (record { at = λ w. refl }) (record { at = λ w. tt })
      (record { at = λ w. refl }) 9 0

calls-end_example :
    ((call thrice counting 0).0 ≢ ok none)
    × ((async_call thrice (async_operation (tick_and_fail {A = ℕ})) 0).0 ≢ ok none)
calls-end_example =
    calls-end thrice counting (async_operation (tick_and_fail {A = ℕ})) 0 (omega arith)

abbrev twice_delay : ℕ → ℕ
twice_delay n = n + n

abbrev script_operation : Operation ℕ (Script ℕ ℕ) (Returned ℕ (Script ℕ ℕ) ℕ)
script_operation = sync_operation run_script

delay-valid : (n : ℕ) → finite_non_negative (float (twice_delay n)) ≡ ok (twice_delay n)
unfolding finite_non_negative
delay-valid n = ground arith

call-follows_example :
    call (scripted "http" 3 twice_delay) script_operation (record {
      outcomes = raise timeout_error ∷ raise value_error ∷ raise timeout_error ∷ ok 5 ∷ [];
      slept = [];
    })
    ≡ (raise (retry_exhausted_error "http" 3), record { outcomes = ok 5 ∷ []; slept = 2 ∷ 4 ∷ [] })
unfolding program
call-follows_example =
    call-follows "http" 3 twice_delay delay-valid script_operation refl refl
      (timeout_error ∷ value_error ∷ []) (raise timeout_error) (ok 5 ∷ [])
      ((refl, refl, refl), ((refl, refl, refl), tt)) ((refl, refl, refl), refl)
