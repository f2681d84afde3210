-- ===== src/Resilience/Bulkhead/Examples.antt =====
-- Tests of the bulkhead on concrete inputs.
use bluetape_py.Common.{ℕ, ◌≤◌, ◌≡◌, ◌↔◌, refl, none, some, List, [], ◌∷◌}
use bluetape_py.Common.Int.{pos}
use bluetape_py.Common.Exec.{ok, raise, pure, whole}
use bluetape_py.Common.Acts.{Acts}
use bluetape_py.Resilience.Core.{bulkhead_rejected_error, emit, is_exception}
use bluetape_py.Resilience.Ticks.{ticks, sync_operation}
use bluetape_py.Resilience.Operation.{
  Returned, value, Operation, ensure_sync_operation, ensure_sync_result,
}
use bluetape_py.Resilience.Bulkhead.{
  Bulkhead, Counters, Waiting, snapshot_locked, take_snapshot, release, try_enter, enter_from_queue,
  wait_loop, acquire, on_error, on_result, run_acquired, call,
}
use bluetape_py.Resilience.Bulkhead.Protocol.{Behaves, Visit, call-Visit}
use bluetape_py.Resilience.Bulkhead.Bound.{
  KeepsHolders, KeepsHolders-IsRely, KeepsHolders-IgnoresWaiters,
}
use bluetape_py.Resilience.Bulkhead.Run.{
  Place, away, queued, inside, Steps, here, next, arrives, queues, looks, leaves, new_counters,
  insiders, in_queue, all_away, bulkhead_count,
}

abbrev single : Bulkhead ℕ Counters
single = record { name = "db"; max_concurrency = 1; max_wait = 2; observer = none }

abbrev standing : Waiting ℕ Counters
standing = record { monotonic = pure 0; wait = λ remaining. pure tt }

abbrev empty : Counters
empty = record { in_flight = pos 0; waiters = pos 0 }

abbrev working : Operation ℕ Counters (Returned ℕ Counters ℕ)
working = sync_operation (pure (value 7))

program : Unit {0}
unfolding snapshot_locked take_snapshot release try_enter enter_from_queue wait_loop acquire
    on_error on_result run_acquired call emit is_exception ensure_sync_operation ensure_sync_result
program = tt

runs : call whole single standing 3 working empty ≡ (ok (some 7), empty)
unfolding program
runs = refl

-- a full bulkhead that does not wait rejects the call
refuses :
    call whole
      (record single { max_wait = 0 })
      standing
      3
      working
      (record { in_flight = pos 1; waiters = pos 0 })
    ≡ (raise (bulkhead_rejected_error "db"), record { in_flight = pos 1; waiters = pos 0 })
unfolding program
refuses = refl

-- the other call leaves while this one waits
frees : Waiting ℕ Counters
frees = record { monotonic = pure 0; wait = λ remaining d. (ok tt, record d { in_flight = pos 0 }) }

waits :
    call whole single frees 3 working (record { in_flight = pos 1; waiters = pos 0 })
    ≡ (ok (some 7), empty)
unfolding program frees
waits = refl

single-Behaves :
    Behaves (KeepsHolders-IsRely single) (KeepsHolders-IgnoresWaiters single) whole single standing
unfolding program
single-Behaves = record {
  observer = λ event. record { at = λ w n h. h };
  monotonic = record { at = λ w n h. h };
  wait = λ remaining. record { at = λ w n h. h };
}

call-Visit_example :
    Acts whole (Visit single (KeepsHolders single)) (call whole single standing 3 working)
unfolding ensure_sync_result
call-Visit_example =
    call-Visit (KeepsHolders-IsRely single) (KeepsHolders-IgnoresWaiters single) whole single
      standing single-Behaves working (record { at = λ w n h. h }) 3

-- two calls, one of which enters, and the other has to wait for it
abbrev two_calls : List Place
two_calls = away ∷ away ∷ []

abbrev busy : ℕ → Counters
busy n = record { in_flight = pos 1; waiters = pos n }

takes_turns : Steps single new_counters two_calls (busy 0) (away ∷ inside ∷ [])
unfolding try_enter enter_from_queue release
takes_turns =
    next {e = record { in_flight = pos 0; waiters = pos 1 }} {p = queued} (away ∷ []) []
      (next {e = busy 1} {p = inside} [] (queued ∷ [])
        (next {e = busy 1} {p = queued} (inside ∷ []) []
          (next {e = busy 0} {p = away} (inside ∷ []) []
            (next {e = busy 0} {p = away} (inside ∷ []) []
              (next {e = new_counters} {p = away} [] (away ∷ []) here arrives) arrives)
            queues)
          looks)
        leaves)
      looks

bulkhead_count_example :
    (pos 1 ≡ pos (insiders (away ∷ inside ∷ [])))
    × (insiders (away ∷ inside ∷ []) ≤ 1)
    × (pos 0 ≡ pos (in_queue (away ∷ inside ∷ [])))
    × (((try_enter whole single (busy 0)).0 ≡ ok none) ↔ (insiders (away ∷ inside ∷ []) ≡ 1))
    × (((enter_from_queue whole single (busy 0)).0 ≡ ok none) ↔ (insiders (away ∷ inside ∷ []) ≡ 1))
unfolding all_away
bulkhead_count_example = bulkhead_count single 2 takes_turns
