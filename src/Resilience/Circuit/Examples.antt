-- ===== src/Resilience/Circuit/Examples.antt =====
-- Tests of the circuit breaker on concrete inputs.
use bluetape_py.Common.{ℕ, ◌≤◌, ◌≡◌, refl, true, false, none, some, [], ◌∷◌, arith, ltb}
use bluetape_py.Common.Int.{pos}
use bluetape_py.Common.Exec.{ok, raise, pure, throw, whole}
use bluetape_py.Common.Acts.{Acts}
use bluetape_py.Resilience.Core.{
  float, CircuitState, timeout_error, circuit_open_error, emit, is_exception, finite_non_negative,
}
use bluetape_py.Resilience.Ticks.{ticks, sync_operation}
use bluetape_py.Resilience.Operation.{
  Returned, value, Operation, ensure_sync_operation, ensure_sync_result,
}
use bluetape_py.Resilience.Circuit.{
  Admission, CircuitData, new_data, admit, take_slot, transition, succeed, fail, ignore, snapshot,
}
use bluetape_py.Resilience.Circuit.Slots.{holders, with_admitted, failed, resolve}
use bluetape_py.Resilience.Circuit.Run.{Steps, here, next, admits, resolves, half_open_bound}
use bluetape_py.Resilience.Circuit.Trip.{fail_all, trip, probe, probe_all, recovery}
use bluetape_py.Resilience.Circuit.Breaker.{
  CircuitBreaker, call, classify, read_clock, admit_call, announce, run_admitted, on_error,
  on_exception, on_result, release, record_failure, record_success,
}
use bluetape_py.Resilience.Circuit.Breaker.Protocol.{Behaves, Protocol, call-Protocol}
use bluetape_py.Resilience.Circuit.Breaker.Safety.{KeepsSlots, KeepsSlots-IsRely, call-KeepsSlots}

abbrev fresh : CircuitData ℕ
fresh = new_data 2 5 1 1

abbrev first : Admission
first = record { generation = 0; state = CircuitState.closed; owns_half_open_slot = false }

abbrev breaker : CircuitBreaker ℕ (CircuitData ℕ)
breaker = record { name = "db"; failure_if = none; observer = none; clock = pure (float 3) }

abbrev failing : Operation ℕ (CircuitData ℕ) (Returned ℕ (CircuitData ℕ) ℕ)
failing = sync_operation (throw timeout_error)

program : Unit {0}
unfolding call classify read_clock admit_call announce run_admitted on_error on_exception on_result
    release record_failure record_success new_data admit take_slot transition succeed fail ignore
    snapshot emit is_exception finite_non_negative ensure_sync_operation ensure_sync_result
program = tt

-- two failures open the breaker, and the next call is refused
two_failures :
    (call whole breaker failing
      (call whole breaker failing (call whole breaker failing fresh).1).1).0
    ≡ raise (circuit_open_error "db" CircuitState.opened)
unfolding program
two_failures = refl

-- with the clock at 3 and a duration of 5 it is open until 8, and then closes at a success
later : CircuitBreaker ℕ (CircuitData ℕ)
later = record breaker { clock = pure (float 8) }

working : Operation ℕ (CircuitData ℕ) (Returned ℕ (CircuitData ℕ) ℕ)
working = sync_operation (pure (value 7))

recovers :
    ((call whole later working
        (call whole breaker failing (call whole breaker failing fresh).1).1).0
      ≡ ok 7)
    × ((call whole later working
          (call whole breaker failing (call whole breaker failing fresh).1).1).1.state
        ≡ CircuitState.closed)
unfolding program later working
recovers = (refl, refl)

-- a breaker with one call admitted and failed, which opened it, and a probe at 10
abbrev strict : CircuitData ℕ
strict = new_data 1 5 1 1

abbrev opened : CircuitData ℕ
opened = resolve (failed 1) first (admit 0 strict).1

opening : Steps strict [] opened []
unfolding program
opening = next (next here (admits 0)) (resolves (failed 1) [] first [] refl)

half_open_bound_example :
    (holders (admit 10 opened).1.generation (with_admitted (admit 10 opened).0.0 []) ≤ 1)
    × ((admit 10 opened).1.half_open_in_flight
        ≡ pos (holders (admit 10 opened).1.generation (with_admitted (admit 10 opened).0.0 [])))
half_open_bound_example =
    half_open_bound 1 5 1 1 (omega arith) (omega arith) (next opening (admits 10))

trip_example :
    ((fail_all first (1 ∷ []) fresh).state ≡ CircuitState.closed)
    × (ltb 9 7 ≡ true
        → admit 9 (fail first 2 (fail_all first (1 ∷ []) fresh)).1
          ≡ ((none, none), (fail first 2 (fail_all first (1 ∷ []) fresh)).1))
    × (ltb 9 7 ≡ false
        → ((admit 9 (fail first 2 (fail_all first (1 ∷ []) fresh)).1).0.0
            ≡ some (record {
              generation = 2;
              state = CircuitState.half_open;
              owns_half_open_slot = true;
            }))
          × ((admit 9 (fail first 2 (fail_all first (1 ∷ []) fresh)).1).1.state
              ≡ CircuitState.half_open))
unfolding program
trip_example = trip first (1 ∷ []) 2 fresh 9 refl refl refl (omega arith)

abbrev probing : CircuitData ℕ
probing = record (new_data 1 5 1 2) { state = CircuitState.half_open; generation = 2 }

recovery_example :
    ((probe_all ((9, 10) ∷ []) probing).state ≡ CircuitState.half_open)
    × ((probe (11, 12) (probe_all ((9, 10) ∷ []) probing)).state ≡ CircuitState.closed)
    × ((probe (11, 12) (probe_all ((9, 10) ∷ []) probing)).consecutive_failures ≡ 0)
unfolding program
recovery_example = recovery ((9, 10) ∷ []) (11, 12) probing refl refl (omega arith) refl

breaker-Behaves : Behaves KeepsSlots-IsRely whole breaker
unfolding program
breaker-Behaves = record {
  clock = record { at = λ w calls h. h };
  observer = λ event. record { at = λ w calls h. h };
  failure_if = λ error. record { at = λ w calls h. h };
}

call-Protocol_example : Acts whole (Protocol KeepsSlots) (call whole breaker failing)
call-Protocol_example =
    call-Protocol KeepsSlots-IsRely whole breaker breaker-Behaves failing
      (record { at = λ w calls h. h })

call-KeepsSlots_example : KeepsSlots fresh (call whole breaker failing fresh).1
call-KeepsSlots_example =
    call-KeepsSlots whole breaker failing breaker-Behaves (record { at = λ w calls h. h }) fresh
