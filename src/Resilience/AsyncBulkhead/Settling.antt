-- ===== src/Resilience/AsyncBulkhead/Settling.antt =====
-- One async call of a bulkhead enters at most once, where there is room, and leaves once for it,
-- wherever it is cancelled.
use bluetape_py.Common.{ℕ, zero, suc, Bool, true, false, Option, none, some, inl, inr, Bool-cases}
use bluetape_py.Common.Exec.{Exec, pure, throw, ◌>>=◌, Cell, locked}
use bluetape_py.Common.Acts.{Acts, IsRely}
use bluetape_py.Common.Does.{Does, Does-try, Does-prefix, Does-bind-Does}
use bluetape_py.Resilience.Core.{Runtime, Error, PolicyEvent, BulkheadSnapshot, is_exception, emit}
use bluetape_py.Resilience.Releasing.{
  Waited, Locked, Released, Settled, Finished, Reraised, IsAbsorbing, then-Finished, Locked-lock,
  turn-Released, loop-Settled, raise_after-Settled,
}
use bluetape_py.Resilience.Circuit.AsyncBreaker.{Tasks, bind_loop}
use bluetape_py.Resilience.Bulkhead.{
  Bulkhead, Counters, is_full, leave, snapshot_locked, enter_from_queue, try_enter, queue,
}
use bluetape_py.Resilience.Bulkhead.Protocol.{
  IgnoresWaiters, Held, leaves, enters, Got, then-Got, written, from_here, Held-then, then-Held,
}
use bluetape_py.Resilience.AsyncBulkhead.{
  Scope, is_timeout_error, release, release_loop, release_and_raise, stop_waiting, wait_loop,
  acquire_from, acquire, failed_event, succeeded_event, after_release, on_error, on_result,
}

module _ {F W : Type 0} ⦃py : Runtime F⦄ {R : Counters → Counters → Type 0} (rely : IsRely R)
    (quiet : IgnoresWaiters R) (cell : Cell W Counters) (b : Bulkhead F W) (tasks : Tasks F W)
    (scope : Scope F W) (bound : Cell W (Option ℕ)) where
  -- The callbacks and the tasks that run meanwhile change the counters only as `R` allows, and the
  -- wait for the lock raises nothing but a cancellation.
  pub record BehavesAsync : Type 0 where
    pub observer : (event : PolicyEvent F) → Acts cell R (emit b.observer event)
    pub lock : Does cell (Waited R) tasks.lock
    pub bind_loop : Acts cell R (bind_loop bound tasks)
    pub begin : (delay : F) → Acts cell R (scope.begin delay)
    pub wait : Acts cell R scope.wait

  pub Held-IsAbsorbing : IsAbsorbing R (Held b R)
  Held-IsAbsorbing = record {
    rely = rely;
    before = then-Held rely cell b;
    after = Held-then rely cell b;
  }

  stop_waiting-Got : (e : Error F) → Does cell (Got b R) (stop_waiting cell b tasks scope e)
  stop_waiting-Got e = elim (Bool-cases (is_timeout_error e)) [
    | inl t ↦ rw t (record { at = λ w. written rely cell b _ w _ (quiet _ _) })
    | inr t ↦ rw t (record { at = λ w. written rely cell b _ w _ (quiet _ _) })
  ]

  module _ (behaves : BehavesAsync) where
    wait_loop-Got : (fuel : ℕ) → Does cell (Got b R) (wait_loop cell b tasks scope fuel)
    unfolding wait_loop enter_from_queue
    wait_loop-Got zero = record { at = λ w. rely.here (cell.read w) }
    wait_loop-Got (suc fuel) = record {
      at = λ w. elim (Bool-cases (is_full b (cell.read w))) [
        | inl e ↦ rw e (
            from_here rely cell b _
              (Does-try (then-Got rely cell b) scope.wait _ _ behaves.wait stop_waiting-Got
                (λ _. wait_loop-Got fuel))
              w)
        | inr e ↦ rw e (enters _ (quiet _ _) e (written rely cell b _ w _ (rely.here _)))
      ];
    }

    acquire_from-Got : (fuel : ℕ) → Does cell (Got b R) (acquire_from cell b tasks scope fuel none)
    acquire_from-Got fuel = elim (Bool-cases (py.eqb b.max_wait py.zero)) [
      | inl e ↦ rw e (record { at = λ w. rely.here (cell.read w) })
      | inr e ↦ rw e (
          Does-prefix (then-Got rely cell b) (queue cell b) _
            (record { at = λ w. written rely cell b _ w _ (quiet _ _) }) (λ e s t h. h)
            λ _.
              Does-try (then-Got rely cell b) (scope.begin b.max_wait) _ _
                (behaves.begin b.max_wait) stop_waiting-Got λ _. wait_loop-Got fuel)
    ]

    look-Got :
        (fuel : ℕ)
        → Does cell
            (Got b R)
            (do look ← try_enter cell b; acquire_from cell b tasks scope fuel look)
    unfolding try_enter
    look-Got fuel = record {
      at = λ w. elim (Bool-cases (is_full b (cell.read w))) [
        | inl e ↦ rw e (from_here rely cell b _ (acquire_from-Got fuel) w)
        | inr e ↦
            rw e (enters (cell.read w) (rely.here _) e (written rely cell b _ w _ (rely.here _)))
      ];
    }

    pub acquire-Got : (fuel : ℕ) → Does cell (Got b R) (acquire cell b tasks scope fuel)
    unfolding acquire
    acquire-Got fuel =
        Does-bind-Does (Waited R) (λ _. Got b R) (Got b R) (λ e s t h. h.1)
          (λ _. then-Got rely cell b) tasks.lock _ behaves.lock λ _. look-Got fuel

    release-Locked : Does cell (Locked R (Held b R)) (release cell b tasks)
    unfolding release
    release-Locked =
        Locked-lock Held-IsAbsorbing cell tasks.lock
          (locked cell λ d. (snapshot_locked b (leave d), leave d)) behaves.lock
          (record {
            at = λ w. leaves (cell.read w) (rely.here _) (written rely cell b _ w _ (rely.here _));
          })

    release_loop-Released :
        (fuel : ℕ) (was_cancelled : Bool)
        → Does cell (Released R (Held b R)) (release_loop cell b tasks fuel was_cancelled)
    unfolding release_loop
    release_loop-Released zero was_cancelled = record { at = λ w. rely.here (cell.read w) }
    release_loop-Released (suc fuel) was_cancelled =
        turn-Released Held-IsAbsorbing cell was_cancelled (release cell b tasks)
          (release_loop cell b tasks fuel true) release-Locked (release_loop-Released fuel true)

    pub release_and_raise-Settled :
        {A : Type 0} (fuel : ℕ) (e : Error F)
        → Does cell (Settled R (Held b R)) (release_and_raise cell b tasks {A = A} fuel e)
    unfolding release_and_raise
    release_and_raise-Settled fuel e =
        raise_after-Settled Held-IsAbsorbing cell (release_loop cell b tasks fuel false) e
          (release_loop-Released fuel false)

    after_release-Reraised :
        {A : Type 0} (event : BulkheadSnapshot → PolicyEvent F) (end : Exec (Error F) W (Option A))
        → Does cell (Finished R) end
        → (x : Option (BulkheadSnapshot × Bool))
        → Does cell (Reraised R x) (after_release cell b tasks event end x)
    after_release-Reraised event end h none = record { at = λ w. rely.here (cell.read w) }
    after_release-Reraised event end h (some (snap, true)) = record {
      at = λ w. rely.here (cell.read w);
    }
    after_release-Reraised event end h (some (snap, false)) =
        Does-prefix (then-Finished Held-IsAbsorbing) (emit b.observer (event snap)) _
          (behaves.observer (event snap)) (λ e s t k. k) λ _. h

    pub on_error-Settled :
        {A : Type 0} (fuel : ℕ) (e : Error F)
        → Does cell (Settled R (Held b R)) (on_error cell b tasks {A = A} fuel e)
    unfolding on_error
    on_error-Settled fuel e = elim (Bool-cases (is_exception e)) [
      | inl t ↦ rw t (
          loop-Settled Held-IsAbsorbing cell (release_loop cell b tasks fuel false) _
            (release_loop-Released fuel false)
            (after_release-Reraised (failed_event cell b tasks e) (throw e)
              (record { at = λ w. rely.here (cell.read w) })))
      | inr t ↦ rw t (release_and_raise-Settled fuel e)
    ]

    pub on_result-Settled :
        {A : Type 0} (fuel : ℕ) (x : A)
        → Does cell (Settled R (Held b R)) (on_result cell b tasks fuel x)
    unfolding on_result
    on_result-Settled fuel x =
        loop-Settled Held-IsAbsorbing cell (release_loop cell b tasks fuel false) _
          (release_loop-Released fuel false)
          (after_release-Reraised (succeeded_event cell b tasks) (pure (some x))
            (record { at = λ w. rely.here (cell.read w) }))
