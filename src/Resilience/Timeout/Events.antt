-- ===== src/Resilience/Timeout/Events.antt =====
-- What a timeout (recording log name timeout) reports of a call.
use bluetape_py.Common.{
  ◌≡◌, refl, subst, inl, inr, Bool, true, false, Bool-cases, ◌&&◌, some, List, [], ◌∷◌, ◌++◌,
  String,
}
use bluetape_py.Common.Exec.{Result, ok, raise, locked, Cell}
use bluetape_py.Common.Does.{Does}
use bluetape_py.Resilience.Core.{
  Runtime, EventKind, PolicyOutcome, FailureCategory, PolicyEvent, Error, policy_timeout_error,
  timeout_error, runtime_error, type_error, value_error, overflow_error, contract_error,
  retry_exhausted_error, circuit_open_error, bulkhead_rejected_error, other, cancelled, base,
  is_exception, failure_category, emit,
}
use bluetape_py.Resilience.Operation.{Operation, ensure_async_operation}
use bluetape_py.Resilience.Ticks.{ticks}
use bluetape_py.Resilience.Timeout.{
  AsyncTimeout, TimeoutScope, is_timeout_error, timeout_event, on_error, on_end, call,
}

module _ {F : Type 0} ⦃py : Runtime F⦄ {W : Type 0} (p : AsyncTimeout F W) {A : Type 0} where
  -- How a call ends, with the events before and after it, where the body of its scope has ended so, and
  -- the scope has expired or not.
  pub data Reports (ended : Result (Error F) A) (expired : Bool) (r : Result (Error F) A)
      (s u : List (PolicyEvent F)) : Type 0 where
    succeeded :
        (x : A)
        → ended ≡ ok x
        → r ≡ ok x
        → u
          ≡ s
            ++ timeout_event p EventKind.succeeded PolicyOutcome.success FailureCategory.nothing
              ∷ []
        → Reports ended expired r s u
    -- a TimeoutError of the scope itself
    timed_out :
        (e : Error F)
        → ended ≡ raise e
        → is_timeout_error e ≡ true
        → expired ≡ true
        → r ≡ raise (policy_timeout_error p.name p.timeout)
        → u
          ≡ s
            ++ timeout_event p EventKind.timed_out PolicyOutcome.failure FailureCategory.timeout
              ∷ []
        → Reports ended expired r s u
    -- any other `Exception`, also a TimeoutError that is not of the scope
    failed :
        (e : Error F)
        → ended ≡ raise e
        → is_exception e ≡ true
        → is_timeout_error e && expired ≡ false
        → r ≡ raise e
        → u ≡ s ++ timeout_event p EventKind.failed PolicyOutcome.failure (failure_category e) ∷ []
        → Reports ended expired r s u
    -- a cancellation, or another exception that is no `Exception`
    passed :
        (e : Error F)
        → ended ≡ raise e
        → is_exception e ≡ false
        → r ≡ raise e
        → u ≡ s
        → Reports ended expired r s u

timeout_error-exception :
    {F : Type 0} (e : Error F) → is_timeout_error e ≡ true → is_exception e ≡ true
unfolding is_exception
timeout_error-exception type_error h = refl
timeout_error-exception value_error h = refl
timeout_error-exception overflow_error h = refl
timeout_error-exception runtime_error h = refl
timeout_error-exception contract_error h = refl
timeout_error-exception timeout_error h = refl
timeout_error-exception (retry_exhausted_error n k) h = refl
timeout_error-exception (policy_timeout_error n t) h = refl
timeout_error-exception (circuit_open_error n s) h = refl
timeout_error-exception (bulkhead_rejected_error n) h = refl
timeout_error-exception (other n) h = refl
timeout_error-exception cancelled h = cc h
timeout_error-exception (base n) h = cc h

module _ {F W : Type 0} ⦃py : Runtime F⦄ (log : Cell W (List (PolicyEvent F))) (name : String)
    (timeout : F) where
  -- the observer that writes every event down
  abbrev pub recording : AsyncTimeout F W
  recording = record {
    name = name;
    timeout = timeout;
    observer = some λ event. locked log λ events. (tt, events ++ event ∷ []);
  }

module _ {F W A : Type 0} ⦃py : Runtime F⦄ (log : Cell W (List (PolicyEvent F))) (name : String)
    (timeout : F) where
  on_error-Reports :
      (expired : Bool) (e : Error F)
      → Does log
          (Reports (recording log name timeout) {A = A} (raise e) expired)
          (on_error (recording log name timeout) expired e)
  unfolding on_error emit
  on_error-Reports expired e = elim (Bool-cases (is_timeout_error e)) [
    | inl t ↦ elim (Bool-cases expired) [
      | inl x ↦ rw (t, x) (record { at = λ w. timed_out e refl t refl refl (log.read-write _ w) })
      | inr x ↦
          rw (t, x)
            (record {
              at = λ w.
                  failed e refl (timeout_error-exception e t) (rw t refl) refl (log.read-write _ w);
            })
    ]
    | inr t ↦ elim (Bool-cases (is_exception e)) [
      | inl x ↦
          rw (t, x) (record { at = λ w. failed e refl x (rw t refl) refl (log.read-write _ w) })
      | inr x ↦ rw (t, x) (record { at = λ w. passed e refl x refl refl })
    ]
  ]

  on_end-Reports :
      (ended : Result (Error F) A) (expired : Bool)
      → Does log
          (Reports (recording log name timeout) ended expired)
          (on_end (recording log name timeout) (ended, expired))
  unfolding on_end emit
  on_end-Reports (ok x) expired = record { at = λ w. succeeded x refl refl (log.read-write _ w) }
  on_end-Reports (raise e) expired = on_error-Reports expired e

  -- Let the observer write each event down, where neither the operation nor its scope writes. Then a
  -- call with an operation that the checks accept ends as the body of its scope has, with one event:
  -- of its success, or of its failure with an `Exception`. But a TimeoutError of a scope that has
  -- expired is the policy's own error, with the event of a timeout; and an exception that is no
  -- `Exception`, such as a cancellation, is raised without an event.
  pub call-Reports :
      (scope : TimeoutScope F W A) (operation : Operation F W A)
      → ensure_async_operation operation ≡ ok tt
      → ((w : W) → log.read (scope.within timeout operation.run w).1 ≡ log.read w)
      → (w : W)
      → let (ended, expired) = (scope.within timeout operation.run w).0 in
        let called = call (recording log name timeout) scope operation w in
        Reports (recording log name timeout) ended expired called.0 (log.read w) (log.read called.1)
  unfolding call
  call-Reports scope operation accepted apart w = rw accepted (
      let ended = scope.within timeout operation.run w in
      subst
        (λ s.
          Reports (recording log name timeout) ended.0.0 ended.0.1
            (on_end (recording log name timeout) ended.0 ended.1).0 s
            (log.read (on_end (recording log name timeout) ended.0 ended.1).1))
        (apart w) ((on_end-Reports ended.0.0 ended.0.1).at ended.1))
