-- ===== src/Resilience/Retry/Termination.antt =====
-- A retry always ends: the fuel of its loops, `max_attempts`, is enough.
use bluetape_py.Common.{
  ℕ, zero, suc, ◌+◌, ◌≤◌, ◌<◌, ◌≡◌, ◌≢◌, ◌⊎◌, inl, inr, Bool, true, false, Option, none, arith,
  le→leb, if◌then◌else◌,
}
use bluetape_py.Common.Exec.{Result, ok, Exec, throw, lift, ◌>>◌}
use bluetape_py.Common.Post.{Post, IsRaised, Post-bind, Post-bind_raised, Post-try}
use bluetape_py.Resilience.Core.{Runtime, Error, emit}
use bluetape_py.Resilience.Operation.{
  Returned, Operation, ensure_sync_operation, ensure_async_operation, ensure_sync_result,
}
use bluetape_py.Resilience.Retry.{
  Retry, is_retryable, retry_or_fail, after_error, succeed_at, sync_loop, call, async_loop,
  async_call,
}

abbrev Ends : {E A : Type 0} → Result E (Option A) → Type 0
Ends r = r ≢ ok none

module _ {F W : Type 0} ⦃py : Runtime F⦄ (p : Retry F W) where
  fails-IsRaised :
      (m : Exec (Error F) W (Unit {0})) (e : Error F) → Post IsRaised (do m; throw {A = Unit {0}} e)
  fails-IsRaised m e = Post-bind m _ (λ e. tt) (λ _. record { at = λ w. tt })

  -- at the last attempt the handler raises
  retry_or_fail-last :
      (error : Error F) (attempt : ℕ) (retryable : Bool)
      → p.max_attempts ≤ attempt
      → Post IsRaised (retry_or_fail p error attempt retryable)
  retry_or_fail-last error attempt false h = fails-IsRaised (emit p.observer _) error
  retry_or_fail-last error attempt true h = rw (le→leb _ _ h) (fails-IsRaised (emit p.observer _) _)

  after_error-last :
      (error : Error F) (attempt : ℕ)
      → p.max_attempts ≤ attempt
      → Post IsRaised (after_error p error attempt)
  unfolding after_error
  after_error-last error attempt h =
      Post-bind (is_retryable p error) _ (λ e. tt)
        (λ retryable. retry_or_fail-last error attempt retryable h)

  succeed_at-Ends :
      {A : Type 0} (attempt : ℕ) (result : A) → Post Ends (succeed_at p attempt result)
  unfolding succeed_at
  succeed_at-Ends attempt result =
      Post-bind (emit p.observer _) _ (λ e. cc) (λ _. record { at = λ w. cc })

  module _ {A : Type 0} where
    -- one turn of the loop, `rest` being the turns after it
    turn-Ends :
        (raises : Bool) (error : Error F) (attempt : ℕ) (rest : Exec (Error F) W (Option A))
        → (p.max_attempts ≤ attempt) ⊎ Post Ends rest
        → Post Ends (if raises then throw error else (do after_error p error attempt; rest))
    turn-Ends true error attempt rest h = record { at = λ w. cc }
    turn-Ends false error attempt rest (inl last) =
        Post-bind_raised _ _ (after_error-last error attempt last) (λ e. cc)
    turn-Ends false error attempt rest (inr ends) =
        Post-bind (after_error p error attempt) _ (λ e. cc) (λ _. ends)

    sync_loop-Ends :
        (run : Exec (Error F) W (Returned F W A)) (fuel attempt : ℕ)
        → 0 < fuel
        → attempt + fuel ≡ suc p.max_attempts
        → Post Ends (sync_loop p run fuel attempt)
    unfolding sync_loop
    sync_loop-Ends run zero attempt h e = absurd (omega arith)
    sync_loop-Ends run (suc zero) attempt h e =
        Post-try run _ _ (λ error. turn-Ends _ error attempt _ (inl (omega arith)))
          (λ returned.
            Post-bind (ensure_sync_result returned) _ (λ e. cc) (succeed_at-Ends attempt))
    sync_loop-Ends run (suc (suc fuel)) attempt h e =
        Post-try run _ _
          (λ error.
            turn-Ends _ error attempt _
              (inr (sync_loop-Ends run (suc fuel) (attempt + 1) (omega arith) (omega arith))))
          (λ returned.
            Post-bind (ensure_sync_result returned) _ (λ e. cc) (succeed_at-Ends attempt))

    async_loop-Ends :
        (run : Exec (Error F) W (A)) (fuel attempt : ℕ)
        → 0 < fuel
        → attempt + fuel ≡ suc p.max_attempts
        → Post Ends (async_loop p run fuel attempt)
    unfolding async_loop
    async_loop-Ends run zero attempt h e = absurd (omega arith)
    async_loop-Ends run (suc zero) attempt h e =
        Post-try run _ _ (λ error. turn-Ends _ error attempt _ (inl (omega arith)))
          (succeed_at-Ends attempt)
    async_loop-Ends run (suc (suc fuel)) attempt h e =
        Post-try run _ _
          (λ error.
            turn-Ends _ error attempt _
              (inr (async_loop-Ends run (suc fuel) (attempt + 1) (omega arith) (omega arith))))
          (succeed_at-Ends attempt)

    -- a sync call
    call-ends :
        (operation : Operation F W (Returned F W A)) (w : W)
        → 0 < p.max_attempts
        → (call p operation w).0 ≢ ok none
    unfolding call
    call-ends operation w h =
        (Post-bind {P = Ends} (lift (ensure_sync_operation operation)) _ (λ e. cc)
            (λ _. sync_loop-Ends operation.run p.max_attempts 1 h (omega arith))).at
          w

    -- an async call
    async_call-ends :
        (operation : Operation F W A) (w : W)
        → 0 < p.max_attempts
        → (async_call p operation w).0 ≢ ok none
    unfolding async_call
    async_call-ends operation w h =
        (Post-bind {P = Ends} (lift (ensure_async_operation operation)) _ (λ e. cc)
            (λ _. async_loop-Ends operation.run p.max_attempts 1 h (omega arith))).at
          w

    -- A sync or an async call with at least one attempt allowed ends, with a result or an exception, in
    -- every world and whatever its callbacks do: it never runs out of fuel.
    pub calls-end :
        (operation : Operation F W (Returned F W A)) (awaited : Operation F W A) (w : W)
        → 0 < p.max_attempts
        → ((call p operation w).0 ≢ ok none) × ((async_call p awaited w).0 ≢ ok none)
    calls-end operation awaited w h = (call-ends operation w h, async_call-ends awaited w h)
