-- ===== src/Resilience/Circuit/AsyncExamples.antt =====
-- Tests of the async circuit breaker, with a cancellation that may come at its lock.
use bluetape_py.Common.{
  ℕ, ◌≡◌, ◌≢◌, refl, inl, inr, arith, Bool, true, false, Bool-cases, Option, none, if◌then◌else◌,
}
use bluetape_py.Common.Int.{pos}
use bluetape_py.Common.Exec.{ok, raise, pure, Cell}
use bluetape_py.Common.Does.{Does}
use bluetape_py.Resilience.Core.{
  float, CircuitState, timeout_error, cancelled, emit, is_exception, finite_non_negative,
}
use bluetape_py.Resilience.Ticks.{ticks, async_operation}
use bluetape_py.Resilience.Operation.{Operation, ensure_async_operation}
use bluetape_py.Resilience.Circuit.{
  CircuitData, new_data, admit, take_slot, transition, succeed, fail, ignore, snapshot,
}
use bluetape_py.Resilience.Circuit.Breaker.{CircuitBreaker, classify, read_clock, announce}
use bluetape_py.Resilience.Circuit.Breaker.Safety.{KeepsSlots, KeepsSlots-IsRely}
use bluetape_py.Resilience.Circuit.AsyncBreaker.{
  Tasks, bind_loop, release, release_loop, release_and_raise, admit_call, record_failure,
  record_success, on_exception, on_error, on_result, run_admitted, call,
}
use bluetape_py.Resilience.Circuit.AsyncBreaker.Course.{Course, BehavesAsync, call-Course}
use bluetape_py.Resilience.Circuit.AsyncBreaker.Slots.{async_call-KeepsSlots}
use bluetape_py.Resilience.Circuit.AsyncBreaker.Termination.{IsCancelledLessThan, breaker_call-ends}

record World : Type 0 where
  circuit : CircuitData ℕ
  loop : Option ℕ
  -- the next wait for the lock is cancelled
  cancelling : Bool

abbrev circuit_cell : Cell World (CircuitData ℕ)
circuit_cell = record {
  read = λ w. w.circuit;
  write = λ d w. record w { circuit = d };
  read-write = λ d w. refl;
}

abbrev loop_cell : Cell World (Option ℕ)
loop_cell = record {
  read = λ w. w.loop;
  write = λ l w. record w { loop = l };
  read-write = λ l w. refl;
}

abbrev tasks : Tasks ℕ World
tasks = record {
  running_loop = pure 1;
  lock =
      λ w. if w.cancelling then (raise cancelled, record w { cancelling = false }) else (ok tt, w);
}

abbrev breaker : CircuitBreaker ℕ World
breaker = record { name = "db"; failure_if = none; observer = none; clock = pure (float 3) }

-- the task is cancelled while the operation fails
abbrev failing : Operation ℕ World ℕ
failing = async_operation λ w. (raise timeout_error, record w { cancelling = true })

-- a breaker that has been open, with its probe due
abbrev start : World
start = record {
  circuit = record (new_data 1 1 1 1) {
    state = CircuitState.opened;
    open_until = 2;
    generation = 1;
  };
  loop = none;
  cancelling = false;
}

program : Unit {0}
unfolding call bind_loop release release_loop release_and_raise admit_call record_failure
    record_success on_exception on_error on_result run_admitted classify read_clock announce
    new_data admit take_slot transition succeed fail ignore snapshot emit is_exception
    finite_non_negative ensure_async_operation
program = tt

-- cancelled at the lock, the call frees its slot and raises CancelledError
frees_slot :
    ((call circuit_cell breaker tasks loop_cell 2 failing start).0 ≡ raise cancelled)
    × ((call circuit_cell breaker tasks loop_cell 2 failing start).1.circuit.half_open_in_flight
        ≡ pos 0)
unfolding program
frees_slot = (refl, refl)

behaves : BehavesAsync KeepsSlots-IsRely circuit_cell breaker tasks loop_cell
unfolding program
behaves = record {
  callbacks = record {
    clock = record { at = λ w calls h. h };
    observer = λ event. record { at = λ w calls h. h };
    failure_if = λ error. record { at = λ w calls h. h };
  };
  lock = record {
    at = λ w. elim (Bool-cases w.cancelling) [
      | inl b ↦ rw b (refl, λ calls h. h)
      | inr b ↦ rw b (λ calls h. h)
    ];
  };
  running_loop = record { at = λ w calls h. h };
  apart = λ l w. refl;
}

abbrev count : Bool → ℕ
count true = 1
count false = 0

few : IsCancelledLessThan 2 tasks (λ w. count w.cancelling)
few = record { fewer = λ w. ground arith; gone = λ w e h. ground arith }

call-Course_example :
    Does circuit_cell (Course KeepsSlots) (call circuit_cell breaker tasks loop_cell 2 failing)
call-Course_example =
    call-Course KeepsSlots-IsRely circuit_cell breaker tasks loop_cell behaves failing
      (record { at = λ w calls h. h }) 2

breaker_call-ends_example : (call circuit_cell breaker tasks loop_cell 2 failing start).0 ≢ ok none
breaker_call-ends_example =
    breaker_call-ends circuit_cell breaker tasks 2 (λ w. count w.cancelling) loop_cell failing few
      start

async_call-KeepsSlots_example :
    KeepsSlots start.circuit (call circuit_cell breaker tasks loop_cell 2 failing start).1.circuit
async_call-KeepsSlots_example =
    async_call-KeepsSlots circuit_cell breaker tasks loop_cell failing 2 behaves
      (record { at = λ w calls h. h }) start
      (breaker_call-ends circuit_cell breaker tasks 2 (λ w. count w.cancelling) loop_cell failing
        few start)
