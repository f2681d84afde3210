-- ===== src/Resilience/Circuit/AsyncBreaker/Course.antt =====
-- The whole of an async call: at most one admission, and one resolution of it.
use bluetape_py.Common.{ℕ, ◌≡◌, refl, subst, Option, none, some}
use bluetape_py.Common.Exec.{Result, ok, raise, try_else, Cell, locked}
use bluetape_py.Common.Acts.{Acts, IsRely, Acts-bind, Acts-lift}
use bluetape_py.Common.Does.{Does, Does-prefix, Does-try-Does, Does-bind-Does}
use bluetape_py.Resilience.Core.{Runtime, Error, CircuitSnapshot}
use bluetape_py.Resilience.Operation.{Operation, ensure_async_operation}
use bluetape_py.Resilience.Circuit.{Admission, Transition, CircuitData, admit}
use bluetape_py.Resilience.Circuit.Breaker.{CircuitBreaker, read_clock, announce, emit_transition}
use bluetape_py.Resilience.Circuit.Breaker.Protocol.{
  Behaves, Resolved, read_clock-Acts, emit_transition-Acts,
}
use bluetape_py.Resilience.Circuit.AsyncBreaker.{
  Tasks, same_loop, bind_loop, admit_call, on_announce_error, run_admitted, call,
}
use bluetape_py.Resilience.Releasing.{Waited, Settled, then-Settled}
use bluetape_py.Resilience.Circuit.AsyncBreaker.Settling.{
  Resolved-IsAbsorbing, release_and_raise-Settled, run_admitted-Settled,
}

module _ {F : Type 0} ⦃py : Runtime F⦄ (R : CircuitData F → CircuitData F → Type 0)
    {A : Type 0} where
  -- what one call that ends with `r` does to the data of its breaker
  pub data Course (r : Result (Error F) (Option A)) (s u : CircuitData F) : Type 0 where
    stopped : R s u → Course r s u
    refused :
        (t : CircuitData F) (now : F)
        → R s t
        → (admit now t).0.0 ≡ none
        → R (admit now t).1 u
        → Course r s u
    admitted :
        (t : CircuitData F) (now : F) (a : Admission)
        → R s t
        → (admit now t).0.0 ≡ some a
        → Settled R (Resolved R a) r (admit now t).1 u
        → Course r s u

module _ {F : Type 0} ⦃py : Runtime F⦄ (R : CircuitData F → CircuitData F → Type 0) where
  abbrev Announced :
      Option Admission → Result (Error F) Admission → CircuitData F → CircuitData F → Type 0
  Announced none (ok x) s u = ⊥
  Announced none (raise e) s u = R s u
  Announced (some a) (ok x) s u = (x ≡ a) × R s u
  Announced (some a) (raise e) s u = R s u

  -- the data in which the lock was had, and what `admit` made of it
  abbrev Admitted :
      F
      → Result (Error F) (Option Admission × Option Transition × CircuitSnapshot)
      → CircuitData F
      → CircuitData F
      → Type 0
  Admitted now (ok x) s u =
      (t : CircuitData F) × R s t × ((admit now t).0.0 ≡ x.0) × R (admit now t).1 u
  Admitted now (raise e) s u = R s u

module _ {F W : Type 0} ⦃py : Runtime F⦄ {R : CircuitData F → CircuitData F → Type 0}
    (rely : IsRely R) (cell : Cell W (CircuitData F)) (cb : CircuitBreaker F W) (tasks : Tasks F W)
    (bound : Cell W (Option ℕ)) where
  -- The callbacks and the tasks that run meanwhile change the data only as `R` allows, the wait for
  -- the lock raises nothing but a cancellation, and the breaker's loop is another object.
  pub record BehavesAsync : Type 0 where
    pub callbacks : Behaves rely cell cb
    pub lock : Does cell (Waited R) tasks.lock
    pub running_loop : Acts cell R tasks.running_loop
    pub apart : (loop : Option ℕ) (w : W) → cell.read (bound.write loop w) ≡ cell.read w

  then-Announced :
      (o : Option Admission) (r : Result (Error F) Admission) (s t u : CircuitData F)
      → R s t
      → Announced R o r t u
      → Announced R o r s u
  then-Announced none (ok x) s t u h k = absurd k
  then-Announced none (raise e) s t u h k = rely.after s t u h k
  then-Announced (some a) (ok x) s t u h k = (k.0, rely.after s t u h k.1)
  then-Announced (some a) (raise e) s t u h k = rely.after s t u h k

  then-Admitted :
      (now : F) (r : Result (Error F) (Option Admission × Option Transition × CircuitSnapshot))
      (s t u : CircuitData F)
      → R s t
      → Admitted R now r t u
      → Admitted R now r s u
  then-Admitted now (ok x) s t u h (m, before, e, after) = (m, rely.after s t m h before, e, after)
  then-Admitted now (raise e) s t u h k = rely.after s t u h k

  module _ (behaves : BehavesAsync) where
    bind_loop-Acts : Acts cell R (bind_loop bound tasks)
    unfolding bind_loop
    bind_loop-Acts = Acts-bind rely rely.after tasks.running_loop _ behaves.running_loop λ loop.
        Acts-bind rely rely.after (locked bound (same_loop loop)) _
          (record { at = λ w. rw (behaves.apart _ w) (rely.here _) })
          λ result. Acts-lift rely result

    admit_call-Admitted : (now : F) → Does cell (Admitted R now) (admit_call cell cb tasks now)
    unfolding admit_call
    admit_call-Admitted now =
        Does-bind-Does (Waited R) (λ _. Admitted R now) (Admitted R now) (λ e s t h. h.1)
          (λ _. then-Admitted now) tasks.lock _ behaves.lock
          λ _. record {
            at = λ w. (cell.read w, rely.here _, refl, rw (cell.read-write _ w) (rely.here _));
          }

    announce-Announced :
        (o : Option Admission) (moved : Option Transition) (snap : CircuitSnapshot)
        → Does cell (Announced R o) (announce cell cb o moved snap)
    unfolding announce
    announce-Announced none moved snap =
        Does-prefix (then-Announced none) (emit_transition cb snap moved) _
          (emit_transition-Acts rely cell cb behaves.callbacks snap moved) (λ e s t h. h)
          λ _.
            Does-prefix (then-Announced none) _ _ (behaves.callbacks.observer _) (λ e s t h. h)
              λ _. record { at = λ w. rely.here (cell.read w) }
    announce-Announced (some a) moved snap =
        Does-prefix (then-Announced (some a)) (emit_transition cb snap moved) _
          (emit_transition-Acts rely cell cb behaves.callbacks snap moved) (λ e s t h. h)
          λ _.
            Does-prefix (then-Announced (some a)) _ _ (behaves.callbacks.observer _) (λ e s t h. h)
              λ _. record { at = λ w. (refl, rely.here (cell.read w)) }

    module _ {A : Type 0} (operation : Operation F W A) (runs : Acts cell R operation.run) where
      abbrev Sequel :
          Option Admission → Result (Error F) (Option A) → CircuitData F → CircuitData F → Type 0
      Sequel none r s u = R s u
      Sequel (some a) r s u = Settled R (Resolved R a) r s u

      admission-Sequel :
          (fuel : ℕ) (o : Option Admission) (moved : Option Transition) (snap : CircuitSnapshot)
          → Does cell (Sequel o) (
              try_else
                (announce cell cb o moved snap)
                (on_announce_error cell cb tasks fuel o)
                (run_admitted cell cb tasks fuel operation.run))
      admission-Sequel fuel none moved snap =
          Does-try-Does (Announced R none) (λ x r s u. Unit) (Sequel none) (λ e r. R)
            (λ e r. rely.after) (λ x r s t u h k. absurd h) (announce cell cb none moved snap) _ _
            (announce-Announced none moved snap) (λ e. record { at = λ w. rely.here (cell.read w) })
            (λ x. record { at = λ w. tt })
      admission-Sequel fuel (some a) moved snap =
          Does-try-Does (Announced R (some a)) (λ x. Settled R (Resolved R x)) (Sequel (some a))
            (λ e. Settled R (Resolved R a))
            (λ e. then-Settled (Resolved-IsAbsorbing rely cell cb tasks a))
            (λ x r s t u h k.
              then-Settled (Resolved-IsAbsorbing rely cell cb tasks a) r s t u h.1
                (subst (λ y. Settled R (Resolved R y) r t u) h.0 k))
            (announce cell cb (some a) moved snap) _ _ (announce-Announced (some a) moved snap)
            (release_and_raise-Settled rely cell cb tasks a behaves.lock fuel)
            (λ x.
              run_admitted-Settled rely cell cb tasks x behaves.lock behaves.callbacks fuel
                operation.run runs)

      Course-Sequel :
          (now : F) (o : Option Admission) (r : Result (Error F) (Option A))
          (s t u v : CircuitData F)
          → R s t
          → (admit now t).0.0 ≡ o
          → R (admit now t).1 u
          → Sequel o r u v
          → Course R r s v
      Course-Sequel now none r s t u v before e between after =
          refused t now before e (rely.after _ u v between after)
      Course-Sequel now (some a) r s t u v before e between after =
          admitted t now a before e
            (then-Settled (Resolved-IsAbsorbing rely cell cb tasks a) r _ u v between after)

      Course-Admitted :
          (now : F) (x : Option Admission × Option Transition × CircuitSnapshot)
          (r : Result (Error F) (Option A)) (s u v : CircuitData F)
          → Admitted R now (ok x) s u
          → Sequel x.0 r u v
          → Course R r s v
      Course-Admitted now x r s u v (t, before, e, after) k =
          Course-Sequel now x.0 r s t u v before e after k

      then-Course :
          (r : Result (Error F) (Option A)) (s t u : CircuitData F)
          → R s t
          → Course R r t u
          → Course R r s u
      then-Course r s t u h (stopped after) = stopped (rely.after s t u h after)
      then-Course r s t u h (refused m now before e after) =
          refused m now (rely.after s t m h before) e after
      then-Course r s t u h (admitted m now a before e after) =
          admitted m now a (rely.after s t m h before) e after

      -- Let the callbacks, the operation and the waits change the breaker's data only as the
      -- reflexive and transitive `R` allows, and the wait for the lock raise nothing but
      -- `CancelledError`. Then an async call, wherever it is cancelled and whatever is raised in
      -- it, changes the data as `R` allows with at most one admission in between, and when it has
      -- returned or raised, it has resolved what it was admitted with exactly once.
      pub call-Course : (fuel : ℕ) → Does cell (Course R) (call cell cb tasks bound fuel operation)
      unfolding call
      call-Course fuel =
          Does-prefix then-Course _ _ (Acts-lift rely (ensure_async_operation operation))
            (λ e s t h. stopped h)
            λ _.
              Does-prefix then-Course (bind_loop bound tasks) _ bind_loop-Acts
                (λ e s t h. stopped h)
                λ _.
                  Does-prefix then-Course (read_clock cb) _
                    (read_clock-Acts rely cell cb behaves.callbacks) (λ e s t h. stopped h)
                    λ now.
                      Does-bind-Does (Admitted R now) (λ x. Sequel x.0) (Course R)
                        (λ e s t h. stopped h) (Course-Admitted now) (admit_call cell cb tasks now)
                        _ (admit_call-Admitted now) λ x. admission-Sequel fuel x.0 x.1 x.2
