-- ===== src/Resilience/Circuit/Breaker/Protocol.antt =====
-- One call of a breaker is one admission and one resolution of it, whatever the callbacks raise
-- and whatever they and other threads do to the breaker meanwhile.
use bluetape_py.Common.{◌≡◌, refl, Bool, true, false, Option, none, some}
use bluetape_py.Common.Exec.{Exec, throw, ◌>>=◌, ◌>>◌, try_else, Cell}
use bluetape_py.Common.Acts.{
  Acts, IsRely, Acts-pure, Acts-throw, Acts-lift, Acts-bind, Acts-try, Acts-if, Acts-try_raised,
  Acts-try-Gives, Acts-prefix, Raises-after, Gives-after,
}
use bluetape_py.Resilience.Core.{
  Runtime, Error, PolicyEvent, CircuitSnapshot, circuit_open_error, emit,
}
use bluetape_py.Resilience.Operation.{
  Returned, Operation, ensure_sync_operation, ensure_sync_result,
}
use bluetape_py.Resilience.Circuit.{Admission, Transition, CircuitData, admit, snapshot}
use bluetape_py.Resilience.Circuit.Slots.{Resolution, ignored, succeeded, failed, resolve}
use bluetape_py.Resilience.Circuit.Breaker.{
  CircuitBreaker, classify, read_clock, release, admit_call, announce, record_failure,
  record_success, on_exception, on_error, on_result, run_admitted, call, emit_transition,
  rejected_event, admitted_event, release_and_raise, release_if_admitted,
}

module _ {F : Type 0} ⦃py : Runtime F⦄ (R : CircuitData F → CircuitData F → Type 0) where
  -- one resolution of `a`, with changes by others before and after it
  pub data Resolved (a : Admission) (s u : CircuitData F) : Type 0 where
    resolves : (t : CircuitData F) (r : Resolution F) → R s t → R (resolve r a t) u → Resolved a s u

  -- what one call does to the data of its breaker
  pub data Protocol (s u : CircuitData F) : Type 0 where
    -- it never came to the admission
    stopped : R s u → Protocol s u
    -- `admit` refused it
    refused :
        (t : CircuitData F) (now : F)
        → R s t
        → (admit now t).0.0 ≡ none
        → R (admit now t).1 u
        → Protocol s u
    -- `admit` gave `a`, and it was resolved once
    admitted :
        (t : CircuitData F) (now : F) (a : Admission)
        → R s t
        → (admit now t).0.0 ≡ some a
        → Resolved a (admit now t).1 u
        → Protocol s u

module _ {F W : Type 0} ⦃py : Runtime F⦄ {R : CircuitData F → CircuitData F → Type 0}
    (rely : IsRely R) (cell : Cell W (CircuitData F)) (cb : CircuitBreaker F W) where
  -- The callbacks of a breaker change its data only as `R` allows.
  pub record Behaves : Type 0 where
    pub clock : Acts cell R cb.clock
    pub observer : (event : PolicyEvent F) → Acts cell R (emit cb.observer event)
    pub failure_if : (error : Error F) → Acts cell R (classify cb error)

  pub Resolved-then :
      (a : Admission) (s t u : CircuitData F) → Resolved R a s t → R t u → Resolved R a s u
  Resolved-then a s t u (resolves m r before after) h =
      resolves m r before (rely.after _ t u after h)

  pub then-Resolved :
      (a : Admission) (s t u : CircuitData F) → R s t → Resolved R a t u → Resolved R a s u
  then-Resolved a s t u h (resolves m r before after) =
      resolves m r (rely.after s t m h before) after

  -- every block under the lock that ends a call is a resolution
  pub Resolved-write :
      (a : Admission) (w : W) (r : Resolution F)
      → Resolved R a (cell.read w) (cell.read (cell.write (resolve r a (cell.read w)) w))
  Resolved-write a w r =
      resolves (cell.read w) r (rely.here _) (rw (cell.read-write _ _) (rely.here _))

  release-Resolved : (a : Admission) → Acts cell (Resolved R a) (release cell cb a)
  unfolding release resolve
  release-Resolved a = record { at = λ w. Resolved-write a w ignored }

  record_failure-Resolved :
      (a : Admission) (now : F) (classified : Bool)
      → Acts cell (Resolved R a) (record_failure cell cb a now classified)
  unfolding record_failure resolve
  record_failure-Resolved a now true = record { at = λ w. Resolved-write a w (failed now) }
  record_failure-Resolved a now false = record { at = λ w. Resolved-write a w ignored }

  record_success-Resolved :
      (a : Admission) (now : F) → Acts cell (Resolved R a) (record_success cell cb a now)
  unfolding record_success resolve
  record_success-Resolved a now = record { at = λ w. Resolved-write a w (succeeded now) }

  module _ (behaves : Behaves) where
    pub emit_transition-Acts :
        (snap : CircuitSnapshot) (moved : Option Transition)
        → Acts cell R (emit_transition cb snap moved)
    emit_transition-Acts snap none = Acts-pure rely tt
    emit_transition-Acts snap (some moved) = behaves.observer _

    pub read_clock-Acts : Acts cell R (read_clock cb)
    unfolding read_clock
    read_clock-Acts = Acts-bind rely rely.after cb.clock _ behaves.clock (λ value. Acts-lift rely _)

    release_and_raise-Resolved :
        {A : Type 0} (a : Admission) (e : Error F)
        → Acts cell (Resolved R a) (release_and_raise cell cb {A = A} a e)
    release_and_raise-Resolved a e =
        Acts-bind rely (Resolved-then a) _ _ (release-Resolved a) (λ _. Acts-throw rely e)

    -- the events after a resolution, and what the call gives
    finish-Resolved :
        {A : Type 0} (a : Admission) (m : Exec (Error F) W (Option Transition × CircuitSnapshot))
        (event : CircuitSnapshot → PolicyEvent F) (result : Exec (Error F) W A)
        → Acts cell (Resolved R a) m
        → Acts cell R result
        → Acts cell (Resolved R a) (do
          (changed, snap) ← m
          emit_transition cb snap changed
          emit cb.observer (event snap)
          result)
    finish-Resolved a m event result hm hr = Acts-bind rely (Resolved-then a) m _ hm λ s.
        Acts-bind rely rely.after _ _ (emit_transition-Acts s.1 s.0)
          λ _. Acts-bind rely rely.after _ _ (behaves.observer (event s.1)) λ _. hr

    on_exception-Resolved :
        {A : Type 0} (a : Admission) (e : Error F)
        → Acts cell (Resolved R a) (on_exception cell cb {A = A} a e)
    unfolding on_exception
    on_exception-Resolved a e =
        Acts-try rely (then-Resolved a) (classify cb e) _ _ (behaves.failure_if e)
          (release_and_raise-Resolved a)
          λ classified.
            Acts-try rely (then-Resolved a) (read_clock cb) _ _ read_clock-Acts
              (release_and_raise-Resolved a)
              λ now.
                finish-Resolved a _ _ _ (record_failure-Resolved a now classified)
                  (Acts-throw rely e)

    on_error-Resolved :
        {A : Type 0} (a : Admission) (e : Error F)
        → Acts cell (Resolved R a) (on_error cell cb {A = A} a e)
    unfolding on_error
    on_error-Resolved a e =
        Acts-if rely _ _ _ (release_and_raise-Resolved a e)
          (Acts-if rely _ _ _ (on_exception-Resolved a e) (release_and_raise-Resolved a e))

    on_result-Resolved :
        {A : Type 0} (a : Admission) (x : A) → Acts cell (Resolved R a) (on_result cell cb a x)
    unfolding on_result
    on_result-Resolved a x =
        Acts-try rely (then-Resolved a) (read_clock cb) _ _ read_clock-Acts
          (release_and_raise-Resolved a)
          λ now. finish-Resolved a _ _ _ (record_success-Resolved a now) (Acts-pure rely x)

    module _ {A : Type 0} (operation : Operation F W (Returned F W A))
        (runs : Acts cell R (operation.run >>= ensure_sync_result)) where
      run_admitted-Resolved :
          (a : Admission) → Acts cell (Resolved R a) (run_admitted cell cb operation.run a)
      unfolding run_admitted
      run_admitted-Resolved a =
          Acts-try rely (then-Resolved a) (operation.run >>= ensure_sync_result) _ _ runs
            (on_error-Resolved a) (on_result-Resolved a)

      -- what follows the admission: a refused call leaves the data to the others
      abbrev Sequel : Option Admission → CircuitData F → CircuitData F → Type 0
      Sequel none s u = R s u
      Sequel (some a) s u = Resolved R a s u

      admission-Sequel :
          (o : Option Admission) (moved : Option Transition) (snap : CircuitSnapshot)
          → Acts cell (Sequel o) (
              try_else
                (announce cell cb o moved snap)
                (λ error. do release_if_admitted cell cb o; throw error)
                (run_admitted cell cb operation.run))
      unfolding announce
      admission-Sequel none moved snap =
          Acts-try_raised rely _ _ _
            (Acts-bind rely rely.after _ _ (emit_transition-Acts snap moved)
              λ _. Acts-bind rely rely.after _ _ (behaves.observer _) λ _. Acts-throw rely _)
            (Raises-after (emit_transition cb snap moved)
              (emit cb.observer (rejected_event cb snap)) (circuit_open_error cb.name snap.state))
            (λ e. Acts-bind rely rely.after _ _ (Acts-pure rely tt) (λ _. Acts-throw rely e))
      admission-Sequel (some a) moved snap =
          Acts-try-Gives rely (then-Resolved a) a _ _ _
            (Acts-bind rely rely.after _ _ (emit_transition-Acts snap moved)
              λ _. Acts-bind rely rely.after _ _ (behaves.observer _) λ _. Acts-pure rely a)
            (Gives-after (emit_transition cb snap moved) (emit cb.observer (admitted_event cb snap))
              a)
            (λ e.
              Acts-bind rely (Resolved-then a) _ _
                (Acts-bind rely (Resolved-then a) _ _ (release-Resolved a) (λ _. Acts-pure rely tt))
                (λ _. Acts-throw rely e))
            (run_admitted-Resolved a)

      Protocol-Sequel :
          (s t u : CircuitData F) (now : F) (o : Option Admission)
          → R s t
          → (admit now t).0.0 ≡ o
          → Sequel o (admit now t).1 u
          → Protocol R s u
      Protocol-Sequel s t u now none before e after = refused t now before e after
      Protocol-Sequel s t u now (some a) before e after = admitted t now a before e after

      admit_call-Protocol :
          (now : F)
          → Acts cell (Protocol R) (do
            (o, moved, snap) ← admit_call cell cb now
            try_else
                (announce cell cb o moved snap)
                (λ error. do release_if_admitted cell cb o; throw error)
                (run_admitted cell cb operation.run))
      unfolding admit_call
      admit_call-Protocol now = record {
        at = λ w.
            let t = cell.read w in
            let w' = cell.write (admit now t).1 w in
            Protocol-Sequel t t _ now (admit now t).0.0 (rely.here t) refl (
              rw (cell.read-write (admit now t).1 w) at (
                (admission-Sequel (admit now t).0.0 (admit now t).0.1
                    (snapshot cb.name (admit now t).1)).at
                  w'));
      }

      then-Protocol : (s t u : CircuitData F) → R s t → Protocol R t u → Protocol R s u
      then-Protocol s t u h (stopped after) = stopped (rely.after s t u h after)
      then-Protocol s t u h (refused m now before e after) =
          refused m now (rely.after s t m h before) e after
      then-Protocol s t u h (admitted m now a before e after) =
          admitted m now a (rely.after s t m h before) e after

      -- Let every callback of a breaker, and the operation, change the breaker's data only as the
      -- reflexive and transitive `R` allows. Then a call, whatever is raised in it, changes the data
      -- as `R` allows with at most one admission in between, and resolves what it is admitted
      -- with exactly once, by `ignore`, `succeed` or `fail`.
      pub call-Protocol : Acts cell (Protocol R) (call cell cb operation)
      unfolding call
      call-Protocol =
          Acts-prefix rely (λ s t h. stopped h) then-Protocol _ _
            (Acts-lift rely (ensure_sync_operation operation))
            λ _.
              Acts-prefix rely (λ s t h. stopped h) then-Protocol (read_clock cb) _ read_clock-Acts
                admit_call-Protocol
