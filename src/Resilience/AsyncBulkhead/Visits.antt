-- ===== src/Resilience/AsyncBulkhead/Visits.antt =====
-- The whole of an async call of a bulkhead.
use bluetape_py.Common.{ℕ, ◌≡◌, false, Option}
use bluetape_py.Common.Exec.{Result, ok, raise, Cell}
use bluetape_py.Common.Acts.{Acts, IsRely, Acts-bind, Acts-lift, Acts-throw}
use bluetape_py.Common.Does.{Does, Does-try, Does-prefix, Does-bind-Does, Does-Acts}
use bluetape_py.Resilience.Core.{Runtime, Error, bulkhead_rejected_error}
use bluetape_py.Resilience.Operation.{Operation, ensure_async_operation}
use bluetape_py.Resilience.Releasing.{Waited, Settled, then-Settled}
use bluetape_py.Resilience.Circuit.AsyncBreaker.{Tasks, bind_loop}
use bluetape_py.Resilience.Bulkhead.{Bulkhead, Counters, Acquired, is_full, enter, rejected_event}
use bluetape_py.Resilience.Bulkhead.Protocol.{IgnoresWaiters, Held, enters, Got, written}
use bluetape_py.Resilience.AsyncBulkhead.{Scope, take_snapshot, acquire, run_acquired, call}
use bluetape_py.Resilience.AsyncBulkhead.Settling.{
  BehavesAsync, Held-IsAbsorbing, release_and_raise-Settled, on_error-Settled, on_result-Settled,
  acquire-Got,
}

module _ {F : Type 0} ⦃py : Runtime F⦄ {W : Type 0} (b : Bulkhead F W)
    (R : Counters → Counters → Type 0) {A : Type 0} where
  pub data AsyncVisit (r : Result (Error F) (Option A)) (s u : Counters) : Type 0 where
    -- it never entered
    idle : R s u → AsyncVisit r s u
    -- it entered at `t`, where there was room
    visited :
        (t : Counters)
        → R s t
        → is_full b t ≡ false
        → Settled R (Held b R) r (enter t) u
        → AsyncVisit r s u

module _ {F W : Type 0} ⦃py : Runtime F⦄ {R : Counters → Counters → Type 0} (rely : IsRely R)
    (quiet : IgnoresWaiters R) (cell : Cell W Counters) (b : Bulkhead F W) (tasks : Tasks F W)
    (scope : Scope F W) (bound : Cell W (Option ℕ))
    (behaves : BehavesAsync rely quiet cell b tasks scope bound) where
  waited : {A : Type 0} (r : Result (Error F) A) (s u : Counters) → Waited R r s u → R s u
  waited (ok x) s u h = h
  waited (raise e) s u h = h.1

  take_snapshot-Acts : Acts cell R (take_snapshot cell b tasks bound)
  unfolding take_snapshot
  take_snapshot-Acts = Acts-bind rely rely.after (bind_loop bound tasks) _ behaves.bind_loop λ _.
      Acts-bind rely rely.after tasks.lock _
        (record { at = λ w. waited (tasks.lock w).0 _ _ (behaves.lock.at w) })
        λ _. record { at = λ w. written rely cell b _ w _ (rely.here _) }

  module _ {A : Type 0} (operation : Operation F W A) (runs : Acts cell R operation.run) where
    abbrev Rest : Acquired → Result (Error F) (Option A) → Counters → Counters → Type 0
    Rest (Acquired.entered snap) r s u = Settled R (Held b R) r s u
    Rest Acquired.full r s u = R s u
    Rest Acquired.waiting r s u = R s u

    run_acquired-Rest :
        (fuel : ℕ) (a : Acquired)
        → Does cell (Rest a) (run_acquired cell b tasks bound fuel operation.run a)
    unfolding run_acquired
    run_acquired-Rest fuel Acquired.waiting = record { at = λ w. rely.here (cell.read w) }
    run_acquired-Rest fuel Acquired.full = Does-Acts (
        Acts-bind rely rely.after (take_snapshot cell b tasks bound) _ take_snapshot-Acts
          λ rejected.
            Acts-bind rely rely.after _ _ (behaves.observer (rejected_event b rejected))
              λ _. Acts-throw rely (bulkhead_rejected_error b.name))
    run_acquired-Rest fuel (Acquired.entered snap) =
        let later = then-Settled (Held-IsAbsorbing rely quiet cell b tasks scope bound) in
        Does-try later _ _ _ (behaves.observer _)
          (release_and_raise-Settled rely quiet cell b tasks scope bound behaves fuel)
          λ _.
            Does-try later operation.run _ _ runs
              (on_error-Settled rely quiet cell b tasks scope bound behaves fuel)
              (on_result-Settled rely quiet cell b tasks scope bound behaves fuel)

    AsyncVisit-Got :
        (a : Acquired) (r : Result (Error F) (Option A)) (s t u : Counters)
        → Got b R (ok a) s t
        → Rest a r t u
        → AsyncVisit b R r s u
    AsyncVisit-Got (Acquired.entered snap) r s t u (enters m before room after) k =
        visited m before room
          (then-Settled (Held-IsAbsorbing rely quiet cell b tasks scope bound) r _ t u after k)
    AsyncVisit-Got Acquired.full r s t u h k = idle (rely.after s t u h k)
    AsyncVisit-Got Acquired.waiting r s t u h k = idle (rely.after s t u h k)

    then-AsyncVisit :
        (r : Result (Error F) (Option A)) (s t u : Counters)
        → R s t
        → AsyncVisit b R r t u
        → AsyncVisit b R r s u
    then-AsyncVisit r s t u h (idle k) = idle (rely.after s t u h k)
    then-AsyncVisit r s t u h (visited m before room k) =
        visited m (rely.after s t m h before) room k

    -- Let the callbacks, the operation and the waits change the counters only as the reflexive and
    -- transitive `R` allows, which says nothing of the waiters, and the wait for the lock raise
    -- nothing but `CancelledError`. Then an async call, wherever it is cancelled, changes the
    -- counters as `R` allows, and either never enters, or enters once, where there is room, and
    -- has left once when it has returned or raised.
    pub call-AsyncVisit :
        (fuel : ℕ) → Does cell (AsyncVisit b R) (call cell b tasks bound scope fuel operation)
    unfolding call
    call-AsyncVisit fuel =
        Does-prefix then-AsyncVisit _ _ (Acts-lift rely (ensure_async_operation operation))
          (λ e s t h. idle h)
          λ _.
            Does-prefix then-AsyncVisit (bind_loop bound tasks) _ behaves.bind_loop
              (λ e s t h. idle h)
              λ _.
                Does-bind-Does (Got b R) Rest (AsyncVisit b R) (λ e s t h. idle h) AsyncVisit-Got
                  (acquire cell b tasks scope fuel) _
                  (acquire-Got rely quiet cell b tasks scope bound behaves fuel)
                  (run_acquired-Rest fuel)
