-- ===== src/Resilience/AsyncBulkhead/Examples.antt =====
-- Tests of the async bulkhead, with a cancellation that may come at its lock.
use bluetape_py.Common.{
  ℕ, ◌≡◌, refl, inl, inr, Bool, true, false, Bool-cases, Option, none, some, if◌then◌else◌,
}
use bluetape_py.Common.Int.{pos}
use bluetape_py.Common.Exec.{ok, raise, pure, throw, Cell}
use bluetape_py.Common.Does.{Does}
use bluetape_py.Resilience.Core.{
  timeout_error, cancelled, bulkhead_rejected_error, emit, is_exception,
}
use bluetape_py.Resilience.Ticks.{ticks, async_operation}
use bluetape_py.Resilience.Operation.{Operation, ensure_async_operation}
use bluetape_py.Resilience.Circuit.AsyncBreaker.{Tasks, bind_loop}
use bluetape_py.Resilience.Bulkhead.{
  Bulkhead, Counters, snapshot_locked, try_enter, enter_from_queue,
}
use bluetape_py.Resilience.Bulkhead.Bound.{
  KeepsHolders, KeepsHolders-IsRely, KeepsHolders-IgnoresWaiters,
}
use bluetape_py.Resilience.AsyncBulkhead.{
  Scope, take_snapshot, release, release_loop, release_and_raise, wait_loop, acquire, on_error,
  on_result, run_acquired, call,
}
use bluetape_py.Resilience.AsyncBulkhead.Settling.{BehavesAsync}
use bluetape_py.Resilience.AsyncBulkhead.Visits.{AsyncVisit, call-AsyncVisit}

record World : Type 0 where
  counters : Counters
  loop : Option ℕ
  -- the next wait for the lock is cancelled
  cancelling : Bool

abbrev counters_cell : Cell World Counters
counters_cell = record {
  read = λ w. w.counters;
  write = λ d w. record w { counters = d };
  read-write = λ d w. refl;
}

abbrev loop_cell : Cell World (Option ℕ)
loop_cell = record {
  read = λ w. w.loop;
  write = λ l w. record w { loop = l };
  read-write = λ l w. refl;
}

abbrev tasks : Tasks ℕ World
tasks = record {
  running_loop = pure 1;
  lock =
      λ w. if w.cancelling then (raise cancelled, record w { cancelling = false }) else (ok tt, w);
}

-- every wait runs into the timeout
abbrev scope : Scope ℕ World
scope = record { begin = λ delay. pure tt; wait = throw timeout_error }

abbrev single : Bulkhead ℕ World
single = record { name = "db"; max_concurrency = 1; max_wait = 2; observer = none }

-- the task is cancelled when the operation returns
abbrev working : Operation ℕ World ℕ
working = async_operation λ w. (ok 7, record w { cancelling = true })

abbrev start : World
start = record {
  counters = record { in_flight = pos 0; waiters = pos 0 };
  loop = none;
  cancelling = false;
}

abbrev busy : World
busy = record start { counters = record { in_flight = pos 1; waiters = pos 0 }; loop = some 1 }

program : Unit {0}
unfolding call bind_loop take_snapshot release release_loop release_and_raise wait_loop acquire
    on_error on_result run_acquired snapshot_locked try_enter enter_from_queue emit is_exception
    ensure_async_operation
program = tt

-- cancelled at the lock, the call leaves and raises CancelledError
leaves_once :
    ((call counters_cell single tasks loop_cell scope 2 working start).0 ≡ raise cancelled)
    × ((call counters_cell single tasks loop_cell scope 2 working start).1.counters.in_flight
        ≡ pos 0)
unfolding program
leaves_once = (refl, refl)

refuses :
    call counters_cell single tasks loop_cell scope 2 working busy
    ≡ (raise (bulkhead_rejected_error "db"), busy)
unfolding program
refuses = refl

behaves :
    BehavesAsync
      (KeepsHolders-IsRely single)
      (KeepsHolders-IgnoresWaiters single)
      counters_cell
      single
      tasks
      scope
      loop_cell
unfolding program
behaves = record {
  observer = λ event. record { at = λ w n h. h };
  lock = record {
    at = λ w. elim (Bool-cases w.cancelling) [
      | inl b ↦ rw b (refl, λ n h. h)
      | inr b ↦ rw b (λ n h. h)
    ];
  };
  bind_loop = record { at = λ w n h. h };
  begin = λ delay. record { at = λ w n h. h };
  wait = record { at = λ w n h. h };
}

call-AsyncVisit_example :
    Does counters_cell
      (AsyncVisit single (KeepsHolders single))
      (call counters_cell single tasks loop_cell scope 2 working)
call-AsyncVisit_example =
    call-AsyncVisit (KeepsHolders-IsRely single) (KeepsHolders-IgnoresWaiters single) counters_cell
      single tasks scope loop_cell behaves working (record { at = λ w n h. h }) 2
