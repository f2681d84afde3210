-- ===== src/Resilience/Circuit/AsyncBreaker/Termination.antt =====
-- An async call gets through its release: fuel beyond the number of cancellations is enough.
use bluetape_py.Common.{
  ℕ, zero, suc, ◌<◌, ◌≡◌, ◌≢◌, refl, inl, inr, arith, Bool, true, false, Option, none, some,
  Bool-cases, if◌then◌else◌,
}
use bluetape_py.Common.Exec.{
  Result, ok, raise, Exec, pure, throw, locked, ◌>>◌, continue, resume, Cell,
}
use bluetape_py.Common.Post.{Post, Post-bind, Post-try}
use bluetape_py.Resilience.Core.{Runtime, Error, PolicyEvent, CircuitSnapshot, is_exception, emit}
use bluetape_py.Resilience.Operation.{Operation}
use bluetape_py.Resilience.Releasing.{is_cancelled, raise_after}
use bluetape_py.Resilience.Circuit.{Admission, Transition, CircuitData, ignore, snapshot}
use bluetape_py.Resilience.Circuit.Breaker.{
  CircuitBreaker, classify, read_clock, announce, emit_transition,
}
use bluetape_py.Resilience.Circuit.AsyncBreaker.{
  Tasks, bind_loop, release, release_loop, release_and_raise, admit_call, record_failure,
  record_success, on_lock_error, on_exception, on_error, on_result, on_announce_error, run_admitted,
  call,
}

abbrev Ends : {E A : Type 0} → Result E (Option A) → Type 0
Ends r = r ≢ ok none

-- There are `pending` cancellations, fewer than the fuel: each that is raised at the lock is gone.
pub record IsCancelledLessThan {F W : Type 0} (fuel : ℕ) (tasks : Tasks F W) (pending : W → ℕ)
    : Type 0 where
  pub fewer : (w : W) → pending w < fuel
  pub gone :
      (w : W) (e : Error F) → (tasks.lock w).0 ≡ raise e → pending (tasks.lock w).1 < pending w

module _ {F W : Type 0} ⦃py : Runtime F⦄ (cell : Cell W (CircuitData F)) (cb : CircuitBreaker F W)
    (tasks : Tasks F W) (pending : W → ℕ)
    (gone : (w : W) (e : Error F)
      → (tasks.lock w).0 ≡ raise e
      → pending (tasks.lock w).1 < pending w) where
  abbrev handler : ℕ → Admission → Error F → Exec (Error F) W (Option (CircuitSnapshot × Bool))
  handler fuel a e = if is_cancelled e then release_loop cell cb tasks fuel true a else throw e

  abbrev block : Admission → CircuitData F → CircuitSnapshot × CircuitData F
  block a d = (snapshot cb.name (ignore a d), ignore a d)

  -- one turn of the loop, after the lock gave `r`
  turn-Ends :
      (fuel : ℕ) (was_cancelled : Bool) (a : Admission) (r : Result (Error F) (Unit {0})) (w : W)
      → ((e : Error F) → r ≡ raise e → Ends (release_loop cell cb tasks fuel true a w).0)
      → Ends
          (resume
            (continue r (λ _. locked cell (block a)) w).0
            (handler fuel a)
            (λ snap. pure (some (snap, was_cancelled)))
            (continue r (λ _. locked cell (block a)) w).1).0
  turn-Ends fuel was_cancelled a (ok x) w again = cc
  turn-Ends fuel was_cancelled a (raise e) w again = elim (Bool-cases (is_cancelled e)) [
    | inl b ↦ rw b (again e refl)
    | inr b ↦ rw b cc
  ]

  release_loop-Ends :
      (fuel : ℕ) (was_cancelled : Bool) (a : Admission) (w : W)
      → pending w < fuel
      → Ends (release_loop cell cb tasks fuel was_cancelled a w).0
  unfolding release_loop release
  release_loop-Ends zero was_cancelled a w h = absurd (omega arith)
  release_loop-Ends (suc fuel) was_cancelled a w h =
      turn-Ends fuel was_cancelled a (tasks.lock w).0 (tasks.lock w).1 (λ e raised.
        release_loop-Ends fuel true a (tasks.lock w).1 (omega (arith, gone w e raised)))

  raise_after-Ends :
      {A : Type 0} (e : Error F) (r : Result (Error F) (Option (CircuitSnapshot × Bool))) (w : W)
      → Ends r
      → Ends (continue {B = Option A} r (raise_after e) w).0
  raise_after-Ends e (ok none) w h = absurd (h refl)
  raise_after-Ends e (ok (some x)) w h = cc
  raise_after-Ends e (raise f) w h = cc

  module _ (fuel : ℕ) (fewer : (w : W) → pending w < fuel) where
    release_and_raise-Ends :
        {A : Type 0} (a : Admission) (e : Error F)
        → Post Ends (release_and_raise cell cb tasks {A = A} fuel a e)
    unfolding release_and_raise
    release_and_raise-Ends a e = record {
      at = λ w.
          let r = release_loop cell cb tasks fuel false a w in
          raise_after-Ends e r.0 r.1 (release_loop-Ends fuel false a w (fewer w));
    }

    on_lock_error-Ends :
        {A : Type 0} (a : Admission) (e : Error F)
        → Post Ends (on_lock_error cell cb tasks {A = A} fuel a e)
    on_lock_error-Ends a e = elim (Bool-cases (is_cancelled e)) [
      | inl b ↦ rw b (release_and_raise-Ends a e)
      | inr b ↦ rw b (record { at = λ w. cc })
    ]

    finish-Ends :
        {A : Type 0} (snap : CircuitSnapshot) (changed : Option Transition) (event : PolicyEvent F)
        (result : Exec (Error F) W (Option A))
        → Post Ends result
        → Post Ends (do emit_transition cb snap changed; emit cb.observer event; result)
    finish-Ends snap changed event result h =
        Post-bind (emit_transition cb snap changed) _ (λ e. cc)
          λ _. Post-bind (emit cb.observer event) _ (λ e. cc) λ _. h

    on_exception-Ends :
        {A : Type 0} (a : Admission) (e : Error F)
        → Post Ends (on_exception cell cb tasks {A = A} fuel a e)
    unfolding on_exception
    on_exception-Ends a e = Post-try (classify cb e) _ _ (release_and_raise-Ends a) λ classified.
        Post-try (read_clock cb) _ _ (release_and_raise-Ends a) λ now.
          Post-try (record_failure cell cb tasks a now classified) _ _ (on_lock_error-Ends a)
            λ outcome. finish-Ends _ _ _ (throw e) (record { at = λ w. cc })

    on_error-Ends :
        {A : Type 0} (a : Admission) (e : Error F)
        → Post Ends (on_error cell cb tasks {A = A} fuel a e)
    unfolding on_error
    on_error-Ends a e = elim (Bool-cases (is_exception e)) [
      | inl b ↦ rw b (on_exception-Ends a e)
      | inr b ↦ rw b (release_and_raise-Ends a e)
    ]

    on_result-Ends :
        {A : Type 0} (a : Admission) (x : A) → Post Ends (on_result cell cb tasks fuel a x)
    unfolding on_result
    on_result-Ends a x = Post-try (read_clock cb) _ _ (release_and_raise-Ends a) λ now.
        Post-try (record_success cell cb tasks a now) _ _ (on_lock_error-Ends a)
          λ outcome. finish-Ends _ _ _ (pure (some x)) (record { at = λ w. cc })

    on_announce_error-Ends :
        {A : Type 0} (o : Option Admission) (e : Error F)
        → Post Ends (on_announce_error cell cb tasks {A = A} fuel o e)
    on_announce_error-Ends none e = record { at = λ w. cc }
    on_announce_error-Ends (some a) e = release_and_raise-Ends a e

module _ {F W A : Type 0} ⦃py : Runtime F⦄ (cell : Cell W (CircuitData F)) (cb : CircuitBreaker F W)
    (tasks : Tasks F W) where
  -- If fewer cancellations are pending in any world than the fuel, and each that is raised at the
  -- lock is gone after it, an async call returns or raises in every world.
  pub breaker_call-ends :
      (fuel : ℕ) (pending : W → ℕ) (bound : Cell W (Option ℕ)) (operation : Operation F W A)
      → IsCancelledLessThan fuel tasks pending
      → (w : W) → (call cell cb tasks bound fuel operation w).0 ≢ ok none
  unfolding call run_admitted
  breaker_call-ends fuel pending bound operation few w = ends.at w
    where
      ends : Post Ends (call cell cb tasks bound fuel operation)
      ends =
          Post-bind _ _ (λ e. cc)
            λ _.
              Post-bind (bind_loop bound tasks) _ (λ e. cc)
                λ _.
                  Post-bind (read_clock cb) _ (λ e. cc)
                    λ now.
                      Post-bind (admit_call cell cb tasks now) _ (λ e. cc)
                        λ x.
                          Post-try (announce cell cb x.0 x.1 x.2) _ _
                            (on_announce_error-Ends cell cb tasks pending few.gone fuel few.fewer
                              x.0)
                            λ a.
                              Post-try operation.run _ _
                                (on_error-Ends cell cb tasks pending few.gone fuel few.fewer a)
                                (on_result-Ends cell cb tasks pending few.gone fuel few.fewer a)
