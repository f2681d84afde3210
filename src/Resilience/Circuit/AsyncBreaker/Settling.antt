-- ===== src/Resilience/Circuit/AsyncBreaker/Settling.antt =====
-- An async call that has been admitted resolves its admission once, also when it is cancelled at
-- the lock, on any of its paths.
use bluetape_py.Common.{
  ℕ, zero, suc, ◌≡◌, Bool, true, false, Option, none, some, inl, inr, Bool-cases,
}
use bluetape_py.Common.Exec.{Exec, pure, throw, ◌>>◌, try_else, Cell, locked}
use bluetape_py.Common.Acts.{Acts, IsRely}
use bluetape_py.Common.Does.{Does, Does-try, Does-prefix}
use bluetape_py.Resilience.Core.{Runtime, Error, PolicyEvent, CircuitSnapshot, is_exception, emit}
use bluetape_py.Resilience.Releasing.{
  is_cancelled, Waited, Locked, Released, Settled, Finished, IsAbsorbing, then-Settled,
  Settled-Finished, then-Finished, Locked-lock, try-Locked, turn-Released, raise_after-Settled,
}
use bluetape_py.Resilience.Circuit.{
  Admission, Transition, CircuitData, snapshot, ignore, succeed, fail,
}
use bluetape_py.Resilience.Circuit.Slots.{Resolution, ignored, succeeded, failed, resolve}
use bluetape_py.Resilience.Circuit.Breaker.{CircuitBreaker, classify, read_clock, emit_transition}
use bluetape_py.Resilience.Circuit.Breaker.Protocol.{
  Behaves, Resolved, Resolved-then, then-Resolved, Resolved-write, read_clock-Acts,
  emit_transition-Acts,
}
use bluetape_py.Resilience.Circuit.AsyncBreaker.{
  Tasks, async_locked, release, release_loop, release_and_raise, record_failure, record_success,
  on_lock_error, on_exception, on_error, on_result, run_admitted,
}

module _ {F W : Type 0} ⦃py : Runtime F⦄ {R : CircuitData F → CircuitData F → Type 0}
    (rely : IsRely R) (cell : Cell W (CircuitData F)) (cb : CircuitBreaker F W) (tasks : Tasks F W)
    (a : Admission) where
  pub Resolved-IsAbsorbing : IsAbsorbing R (Resolved R a)
  Resolved-IsAbsorbing = record {
    rely = rely;
    before = then-Resolved rely cell cb a;
    after = Resolved-then rely cell cb a;
  }

  module _ (waits : Does cell (Waited R) tasks.lock) where
    async_locked-Locked :
        {A : Type 0} (r : Resolution F) (view : CircuitData F → A)
        → Does cell
            (Locked R (Resolved R a))
            (async_locked cell cb tasks λ d. (view d, resolve r a d))
    async_locked-Locked r view =
        Locked-lock Resolved-IsAbsorbing cell tasks.lock (locked cell λ d. (view d, resolve r a d))
          waits (record { at = λ w. Resolved-write rely cell cb a w r })

    release-Locked : Does cell (Locked R (Resolved R a)) (release cell cb tasks a)
    unfolding release resolve
    release-Locked = async_locked-Locked ignored (λ d. snapshot cb.name (ignore a d))

    record_failure-Locked :
        (now : F) (classified : Bool)
        → Does cell (Locked R (Resolved R a)) (record_failure cell cb tasks a now classified)
    unfolding record_failure resolve
    record_failure-Locked now true =
        async_locked-Locked (failed now) λ d. ((fail a now d).0, snapshot cb.name (fail a now d).1)
    record_failure-Locked now false =
        async_locked-Locked ignored λ d. (none, snapshot cb.name (ignore a d))

    record_success-Locked :
        (now : F) → Does cell (Locked R (Resolved R a)) (record_success cell cb tasks a now)
    unfolding record_success resolve
    record_success-Locked now =
        async_locked-Locked (succeeded now)
          λ d. ((succeed a now d).0, snapshot cb.name (succeed a now d).1)

    release_loop-Released :
        (fuel : ℕ) (was_cancelled : Bool)
        → Does cell (Released R (Resolved R a)) (release_loop cell cb tasks fuel was_cancelled a)
    unfolding release_loop
    release_loop-Released zero was_cancelled = record { at = λ w. rely.here (cell.read w) }
    release_loop-Released (suc fuel) was_cancelled =
        turn-Released Resolved-IsAbsorbing cell was_cancelled (release cell cb tasks a)
          (release_loop cell cb tasks fuel true a) release-Locked (release_loop-Released fuel true)

    pub release_and_raise-Settled :
        {A : Type 0} (fuel : ℕ) (e : Error F)
        → Does cell (Settled R (Resolved R a)) (release_and_raise cell cb tasks {A = A} fuel a e)
    unfolding release_and_raise
    release_and_raise-Settled fuel e =
        raise_after-Settled Resolved-IsAbsorbing cell (release_loop cell cb tasks fuel false a) e
          (release_loop-Released fuel false)

    on_lock_error-Settled :
        {A : Type 0} (fuel : ℕ) (e : Error F)
        → is_cancelled e ≡ true
        → Does cell (Settled R (Resolved R a)) (on_lock_error cell cb tasks {A = A} fuel a e)
    on_lock_error-Settled fuel e c = rw c (release_and_raise-Settled fuel e)

    module _ (behaves : Behaves rely cell cb) where
      -- the events after a resolution, and what the call gives
      finish-Finished :
          {A : Type 0} (snap : CircuitSnapshot) (changed : Option Transition)
          (event : PolicyEvent F) (result : Exec (Error F) W (Option A))
          → Does cell (Finished R) result
          → Does cell
              (Finished R)
              (do emit_transition cb snap changed; emit cb.observer event; result)
      finish-Finished snap changed event result h =
          let later = then-Finished Resolved-IsAbsorbing in
          Does-prefix later (emit_transition cb snap changed) _
            (emit_transition-Acts rely cell cb behaves snap changed) (λ e s t k. k)
            λ _.
              Does-prefix later (emit cb.observer event) _ (behaves.observer event) (λ e s t k. k)
                λ _. h

      -- an action before the resolution
      before-Settled :
          {A B : Type 0} (fuel : ℕ) (m : Exec (Error F) W B) (f : B → Exec (Error F) W (Option A))
          → Acts cell R m
          → ((x : B) → Does cell (Settled R (Resolved R a)) (f x))
          → Does cell
              (Settled R (Resolved R a))
              (try_else m (release_and_raise cell cb tasks fuel a) f)
      before-Settled fuel m f hm hf =
          Does-try (then-Settled Resolved-IsAbsorbing) m _ f hm (release_and_raise-Settled fuel) hf

      -- the resolution and what follows it
      resolve-Settled :
          {A B : Type 0} (fuel : ℕ) (m : Exec (Error F) W B) (f : B → Exec (Error F) W (Option A))
          → Does cell (Locked R (Resolved R a)) m
          → ((x : B) → Does cell (Finished R) (f x))
          → Does cell (Settled R (Resolved R a)) (try_else m (on_lock_error cell cb tasks fuel a) f)
      resolve-Settled fuel m f hm hf =
          try-Locked Resolved-IsAbsorbing cell (Finished R) (Settled R (Resolved R a)) m _ f
            (then-Settled Resolved-IsAbsorbing) (Settled-Finished Resolved-IsAbsorbing) hm
            (on_lock_error-Settled fuel) hf

      on_exception-Settled :
          {A : Type 0} (fuel : ℕ) (e : Error F)
          → Does cell (Settled R (Resolved R a)) (on_exception cell cb tasks {A = A} fuel a e)
      unfolding on_exception
      on_exception-Settled fuel e =
          before-Settled fuel (classify cb e) _ (behaves.failure_if e) λ classified.
            before-Settled fuel (read_clock cb) _ (read_clock-Acts rely cell cb behaves) λ now.
              resolve-Settled fuel (record_failure cell cb tasks a now classified) _
                (record_failure-Locked now classified)
                λ outcome.
                  finish-Finished _ _ _ (throw e) (record { at = λ w. rely.here (cell.read w) })

      on_error-Settled :
          {A : Type 0} (fuel : ℕ) (e : Error F)
          → Does cell (Settled R (Resolved R a)) (on_error cell cb tasks {A = A} fuel a e)
      unfolding on_error
      on_error-Settled fuel e = elim (Bool-cases (is_exception e)) [
        | inl b ↦ rw b (on_exception-Settled fuel e)
        | inr b ↦ rw b (release_and_raise-Settled fuel e)
      ]

      on_result-Settled :
          {A : Type 0} (fuel : ℕ) (x : A)
          → Does cell (Settled R (Resolved R a)) (on_result cell cb tasks fuel a x)
      unfolding on_result
      on_result-Settled fuel x =
          before-Settled fuel (read_clock cb) _ (read_clock-Acts rely cell cb behaves) λ now.
            resolve-Settled fuel (record_success cell cb tasks a now) _ (record_success-Locked now)
              λ outcome.
                finish-Finished _ _ _ (pure (some x)) (record { at = λ w. rely.here (cell.read w) })

      pub run_admitted-Settled :
          {A : Type 0} (fuel : ℕ) (run : Exec (Error F) W A)
          → Acts cell R run
          → Does cell (Settled R (Resolved R a)) (run_admitted cell cb tasks fuel run a)
      unfolding run_admitted
      run_admitted-Settled fuel run h =
          Does-try (then-Settled Resolved-IsAbsorbing) run _ _ h (on_error-Settled fuel)
            (on_result-Settled fuel)
