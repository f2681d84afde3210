-- ===== src/Resilience/Retry/Attempts.antt =====
-- How often a retry runs its operation.
use bluetape_py.Common.{
  ℕ, zero, suc, ◌+◌, ◌-◌, ◌≤◌, ◌≡◌, refl, inl, inr, Bool, Bool-cases, not, Option, some, arith, leb,
  if◌then◌else◌,
}
use bluetape_py.Common.Exec.{Result, ok, raise, Exec, throw, ◌>>◌, Cell}
use bluetape_py.Common.Does.{Does, Does-bind-Acts}
use bluetape_py.Common.Acts.{
  Acts, IsRely, Acts-pure, Acts-throw, Acts-lift, Acts-bind, Acts-try, Acts-if, Acts-prefix,
}
use bluetape_py.Common.Post.{Post, OnOk, Post-bind, Acts-try-Post}
use bluetape_py.Resilience.Core.{Runtime, PyValue, Error, PolicyEvent, emit}
use bluetape_py.Resilience.Operation.{Returned, ensure_sync_result}
use bluetape_py.Resilience.Retry.{
  Retry, is_retryable, schedule, retry_or_fail, after_error, succeed_at, sync_loop, async_loop,
}

abbrev Same : ℕ → ℕ → Type 0
Same s t = s ≡ t

abbrev Once : ℕ → ℕ → Type 0
Once s t = t ≡ suc s

abbrev AtMost : ℕ → ℕ → ℕ → Type 0
AtMost n s t = t ≤ s + n

Same-IsRely : IsRely Same
Same-IsRely = record { here = λ s. refl; after = λ s t u p q. omega arith }

module _ {F W : Type 0} ⦃py : Runtime F⦄ (count : Cell W ℕ) (p : Retry F W) where
  -- `count` is left alone by the callbacks of the policy.
  pub record LeaveAlone : Type 0 where
    pub retry_if : (error : Error F) → Acts count Same (is_retryable p error)
    pub observer : (event : PolicyEvent F) → Acts count Same (emit p.observer event)
    pub backoff : (value : PyValue F) → Acts count Same (p.backoff value)
    pub sleeper : (delay : F) → Acts count Same (p.sleeper delay)

  module _ (alone : LeaveAlone) where
    after_error-Same :
        (error : Error F) (attempt : ℕ) → Acts count Same (after_error p error attempt)
    unfolding after_error schedule
    after_error-Same error attempt =
        Acts-bind Same-IsRely (Same-IsRely.after) _ _ (alone.retry_if error) λ retryable.
          Acts-if Same-IsRely (not retryable) _ _ (fails _ _) (
            Acts-if Same-IsRely (leb p.max_attempts attempt) _ _ (fails _ _) (
              Acts-bind Same-IsRely (Same-IsRely.after) _ _ (alone.backoff _) λ value.
                Acts-bind Same-IsRely (Same-IsRely.after) _ _ (Acts-lift Same-IsRely _) λ delay.
                  Acts-bind Same-IsRely (Same-IsRely.after) _ _ (alone.observer _)
                    λ _. alone.sleeper delay))
      where
        fails :
            (event : PolicyEvent F) (e : Error F)
            → Acts {A = Unit {0}} count Same (do emit p.observer event; throw e)
        fails event e =
            Acts-bind Same-IsRely (Same-IsRely.after) _ _ (alone.observer event)
              λ _. Acts-throw Same-IsRely e

    succeed_at-Same :
        {A : Type 0} (attempt : ℕ) (result : A) → Acts count Same (succeed_at p attempt result)
    unfolding succeed_at
    succeed_at-Same attempt result =
        Acts-bind Same-IsRely (Same-IsRely.after) _ _ (alone.observer _)
          λ _. Acts-pure Same-IsRely (some result)

    GoesOn : ℕ → {A : Type 0} → Result (Error F) A → Type 0
    GoesOn attempt = OnOk (λ _. suc attempt ≤ p.max_attempts)

    -- an attempt is followed by another only while attempts are left
    after_error-GoesOn :
        (error : Error F) (attempt : ℕ) → Post (GoesOn attempt) (after_error p error attempt)
    unfolding after_error GoesOn
    after_error-GoesOn error attempt =
        Post-bind (is_retryable p error) (retry_or_fail p error attempt) (λ e. tt)
          λ retryable. elim (Bool-cases retryable) [
            | inr b ↦ rw b (fails _ _)
            | inl b ↦ elim (Bool-cases (leb p.max_attempts attempt)) [
              | inl spent ↦ rw (b, spent) (fails _ _)
              | inr left ↦
                  rw (b, left)
                    (anyhow {G = suc attempt ≤ p.max_attempts} (schedule p error attempt)
                      (ground (arith, left)))
            ]
          ]
      where
        anyhow : {A G : Type 0} (m : Exec (Error F) W A) → G → Post (OnOk (λ _. G)) m
        anyhow {A = A} {G = G} m g = record { at = λ w. by_result (m w).0 }
          where
            by_result : (r : Result (Error F) A) → OnOk (λ _. G) r
            by_result (ok a) = g
            by_result (raise e) = tt

        fails :
            {G : Type 0} (event : PolicyEvent F) (e : Error F)
            → Post {A = Unit {0}} (OnOk (λ _. G)) (do emit p.observer event; throw e)
        fails event e =
            Post-bind (emit p.observer event) (λ x. throw e) (λ k. tt) λ x. record { at = λ w. tt }

    after_error-Does :
        (error : Error F) (attempt : ℕ)
        → Does count (λ r s t. Same s t × GoesOn attempt r) (after_error p error attempt)
    after_error-Does error attempt = record {
      at = λ w. ((after_error-Same error attempt).at w, (after_error-GoesOn error attempt).at w);
    }

    -- how many attempts are left after one
    abbrev left_after : ℕ → ℕ
    left_after attempt = p.max_attempts - attempt

    spend : (n s t u : ℕ) → Once s t → AtMost n t u → AtMost (suc n) s u
    spend n s t u h k = omega arith

    handler-AtMost :
        {A : Type 0} (raises : Bool) (error : Error F) (attempt : ℕ)
        (rest : Exec (Error F) W (Option A))
        → Acts count (AtMost (suc (left_after (attempt + 1)))) rest
        → Acts count
            (AtMost (left_after attempt))
            (if raises then throw error else (do after_error p error attempt; rest))
    unfolding GoesOn
    handler-AtMost raises error attempt rest h =
        Acts-if Same-IsRely raises _ _ (record { at = λ w. omega arith })
          (Does-bind-Acts (λ r s t. Same s t × GoesOn attempt r)
            (λ e s t k. let same = k.0 in omega arith)
            (λ a s t u k more. let same = k.0 in let left = k.1 in omega arith) _ _
            (after_error-Does error attempt) (λ _. h))

    sync_loop-AtMost :
        {A : Type 0} (run : Exec (Error F) W (Returned F W A))
        → Acts count Once run
        → Post (OnOk (λ returned. Acts count Same (ensure_sync_result returned))) run
        → (fuel attempt : ℕ)
        → Acts count (AtMost (suc (left_after attempt))) (sync_loop p run fuel attempt)
    unfolding sync_loop
    sync_loop-AtMost run once closes zero attempt = record { at = λ w. omega arith }
    sync_loop-AtMost run once closes (suc fuel) attempt =
        Acts-try-Post {P = Once} {Q = AtMost (left_after attempt)} (spend (left_after attempt)) run
          _ _ once closes
          (λ error.
            handler-AtMost _ error attempt _ (sync_loop-AtMost run once closes fuel (attempt + 1)))
          (λ returned quiet.
            Acts-prefix Same-IsRely {P = Same} {Q = Same} (λ s t e. omega arith)
              (λ s t u e k. omega arith) _ _ quiet (succeed_at-Same attempt))

    async_loop-AtMost :
        {A : Type 0} (run : Exec (Error F) W A)
        → Acts count Once run
        → (fuel attempt : ℕ)
        → Acts count (AtMost (suc (left_after attempt))) (async_loop p run fuel attempt)
    unfolding async_loop
    async_loop-AtMost run once zero attempt = record { at = λ w. omega arith }
    async_loop-AtMost run once (suc fuel) attempt =
        Acts-try Same-IsRely {P = Once} {Q = AtMost (left_after attempt)}
          (spend (left_after attempt)) run _ _ once
          (λ error.
            handler-AtMost _ error attempt _ (async_loop-AtMost run once fuel (attempt + 1)))
          (λ result. record {
            at = λ w. let e = (succeed_at-Same attempt result).at w in omega arith;
          })

    -- Let at least one attempt be allowed, and the operation add one to a counter that the callbacks of
    -- the policy, and the `close` of an awaitable that it returns, leave alone. Then the loop of a sync
    -- or of an async call, from its first attempt on, adds at most `max_attempts`, whatever is raised
    -- in it and however many rounds its fuel would let it make.
    pub max_attempts-loops :
        {A : Type 0} (run : Exec (Error F) W (Returned F W A)) (awaited : Exec (Error F) W A)
        → 1 ≤ p.max_attempts
        → Acts count Once run
        → Post (OnOk (λ returned. Acts count Same (ensure_sync_result returned))) run
        → Acts count Once awaited
        → (fuel : ℕ) (w : W)
        → (count.read (sync_loop p run fuel 1 w).1 ≤ count.read w + p.max_attempts)
          × (count.read (async_loop p awaited fuel 1 w).1 ≤ count.read w + p.max_attempts)
    max_attempts-loops run awaited some_allowed once closes awaited_once fuel w =
        let sync = (sync_loop-AtMost run once closes fuel 1).at w in
        let async = (async_loop-AtMost awaited awaited_once fuel 1).at w in
        (omega arith, omega arith)
