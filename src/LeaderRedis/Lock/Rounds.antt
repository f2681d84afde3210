-- ===== src/LeaderRedis/Lock/Rounds.antt =====
-- An acquisition ends: each round in which others hold the lease sleeps, and the time is up after a
-- number of rounds.
use bluetape_py.Common.{
  ℕ, zero, suc, ◌+◌, ◌-◌, ◌*◌, ◌≤◌, ◌≡◌, ◌≢◌, refl, sym, ap, ◌⊎◌, inl, inr, Bool, true, false, ◌&&◌,
  Option, none, some, List, if◌then◌else◌, leb, Bool-cases, arith,
}
use bluetape_py.Common.Int.{pos}
use bluetape_py.Common.Exec.{Result, ok, raise, Exec, pure, throw, lift, ◌>>=◌, ◌>>◌, Cell}
use bluetape_py.Common.Acts.{
  Acts, IsRely, Acts-bind, Acts-try, Acts-if, Acts-pure, Acts-throw, Acts-lift,
}
use bluetape_py.Common.Does.{Does, Does-bind-Does}
use bluetape_py.LeaderRedis.Errors.{
  PyError, backend_error, runtime_error, is_uncertain, is_exception, is_no_script, attempt,
}
use bluetape_py.LeaderRedis.Scripts.{Call, acquires}
use bluetape_py.LeaderRedis.Replies.{Acquisition, was_acquired, was_contended, was_corrupt}
use bluetape_py.LeaderRedis.Handle.{
  Handle, Commands, run_script, duration_milliseconds, microseconds,
}
use bluetape_py.LeaderRedis.Keys.{
  Name, RedisKeys, redis_keys, ElectionOptions, validated_redis_options, with_interval, rounded,
  check_fit, is_default_interval, in_milliseconds,
}
use bluetape_py.LeaderRedis.Lock.Rounds.Rules.{
  Over, OkThen, Reads, Sleeps, Over-bind, Over-given, Over-raise, later_than, whatever, reading,
  sleeping, lifted, over_result,
}
use bluetape_py.LeaderRedis.Lock.Rounds.Waits.{validated_redis_options-wait}
use bluetape_py.LeaderRedis.Lock.{
  Lease, Pauses, Lock, validated_script_args, new_handle, reconcile_acquire, ask, granted, pause,
  after_ask, acquire_loop, try_acquire,
}
mod Rules
mod Waits

time-IsRely : IsRely (λ s t. s ≤ t)
time-IsRely = record { here = λ s. omega arith; after = λ s t u p q. omega arith }

module _ {W : Type 0} (cell : Cell W Handle) (clock : Cell W ℕ) (commands : Commands W)
    (monotonic_ns : Exec PyError W ℕ) (pauses : Pauses W) where
  -- Time never goes back.
  pub record KeepsTime : Type 0 where
    pub evals : (call : Call) → Acts clock (λ s t. s ≤ t) (commands.eval call)
    pub evalshas : (call : Call) → Acts clock (λ s t. s ≤ t) (commands.evalsha call)
    pub ticks : Does clock Reads monotonic_ns
    pub jitters : Acts clock (λ s t. s ≤ t) pauses.jitter
    pub sleeps :
        (delay : pauses.Float) (rest : ℕ)
        → pauses.is_valid delay ≡ true
        → Does clock (Sleeps rest) (pauses.sleep delay rest)

  module _ (keeps : KeepsTime) (utc_now : Exec PyError W (Unit {0})) (owner : List ℕ)
      (options : ElectionOptions) where
    after : (s t u : ℕ) → s ≤ t → t ≤ u → s ≤ u
    after = time-IsRely.after

    run_script-Acts : (call : Call) → Acts clock (λ s t. s ≤ t) (run_script commands call)
    unfolding run_script
    run_script-Acts call =
        Acts-try time-IsRely after (commands.evalsha call)
          (λ e. if is_no_script e then commands.eval call else throw e) pure (keeps.evalshas call)
          (λ e.
            Acts-if time-IsRely (is_no_script e) _ _ (keeps.evals call) (Acts-throw time-IsRely e))
          (λ a. Acts-pure time-IsRely a)

    attempt_ask-Acts :
        (ttl_ms : ℕ)
        → Acts clock (λ s t. s ≤ t) (attempt (ask cell commands utc_now owner options ttl_ms))
    attempt_ask-Acts ttl_ms =
        Acts-try time-IsRely after (ask cell commands utc_now owner options ttl_ms) _ _
          (Acts-bind time-IsRely after (lift (validated_script_args owner ttl_ms)) _
            (Acts-lift time-IsRely _)
            (λ args.
              Acts-bind time-IsRely after (run_script commands (acquires args.0 args.1)) _
                (run_script-Acts (acquires args.0 args.1)) (λ raw. Acts-lift time-IsRely _)))
          (λ e.
            Acts-if time-IsRely (is_exception e) _ _ (Acts-pure time-IsRely _)
              (Acts-throw time-IsRely e))
          (λ a. Acts-pure time-IsRely _)

    module _ (deadline ttl_ms : ℕ) where
      abbrev Round : Type 0
      Round = Exec PyError W (Option (Option (Lease W)))

      -- so many pauses are enough
      abbrev Enough : ℕ → ℕ → Type 0
      Enough n s = deadline ≤ s + 40000000 * n

      -- a round less, where there was one
      abbrev Fewer : ℕ → ℕ → Type 0
      Fewer n s = (1 ≤ n) × (deadline ≤ s + 40000000 * (n - 1))

      granted-Over :
          {D : ℕ → Type 0} (m : Exec PyError W (Lease W))
          → Does clock
              (Over D)
              (granted cell commands utc_now owner options monotonic_ns pauses deadline ttl_ms m)
      granted-Over m =
          Over-bind (λ a s t. Unit) (λ a t. Unit) m _ (whatever m) (λ a s t p d. tt)
            (λ lease. Over-given (some lease))

      pause-Over :
          (n : ℕ) (again : Round)
          → Does clock (Over (Fewer n)) again
          → Does clock
              (Over (Enough n))
              (pause cell commands utc_now owner options monotonic_ns pauses deadline ttl_ms again)
      pause-Over n again h =
          Over-bind (λ now s t. (s ≤ now) × (now ≤ t))
            (λ now t. (now ≤ t) × (deadline ≤ now + 40000000 * n)) monotonic_ns _
            (reading monotonic_ns keeps.ticks)
            (λ now s t p d. (p.1, let early = p.0 in omega arith))
            λ now. by_time now (leb deadline now) refl
        where
          sleep_or :
              (delay : pauses.Float) (rest : ℕ) (b : Bool)
              → pauses.is_valid delay ≡ b
              → Does clock
                  (OkThen (λ x s t. (s + 40000000 ≤ t) ⊎ (s + rest ≤ t)))
                  (if b then pauses.sleep delay rest else throw runtime_error)
          sleep_or delay rest true e = sleeping rest _ (keeps.sleeps delay rest e)
          sleep_or delay rest false e = record { at = λ w. tt }

          woken :
              (now s t : ℕ)
              → (leb deadline now ≡ false)
              → (s + 40000000 ≤ t) ⊎ (s + (deadline - now) ≤ t)
              → (now ≤ s) × (deadline ≤ now + 40000000 * n)
              → Fewer n t
          woken now s t early (inl p) (a, b) = (ground arith, ground arith)
          woken now s t early (inr p) (a, b) = (ground arith, ground arith)

          by_time :
              (now : ℕ) (late : Bool)
              → leb deadline now ≡ late
              → Does clock (Over (λ t. (now ≤ t) × (deadline ≤ now + 40000000 * n))) (
                  if late then pure (some none) else do
                    delay ← pauses.jitter
                    if pauses.is_valid delay
                        then pauses.sleep delay (deadline - now)
                        else throw runtime_error
                    again)
          by_time now true e = Over-given none
          by_time now false e =
              Over-bind (λ delay s t. s ≤ t)
                (λ delay t. (now ≤ t) × (deadline ≤ now + 40000000 * n)) pauses.jitter _
                (later_than pauses.jitter keeps.jitters)
                (λ delay s t p d. (let a = d.0 in omega arith, d.1))
                λ delay.
                  Over-bind (λ x s t. (s + 40000000 ≤ t) ⊎ (s + (deadline - now) ≤ t))
                    (λ x. Fewer n) _ _
                    (sleep_or delay (deadline - now) (pauses.is_valid delay) refl)
                    (λ x s t p d. woken now s t e p d) λ x. h

      after_ask-Over :
          (n acquired_ns : ℕ) (again : Round)
          → Does clock (Over (Fewer n)) again
          → (asked : Result PyError Acquisition)
          → Does clock (Over (Enough n)) (
              after_ask cell commands utc_now owner options monotonic_ns pauses deadline ttl_ms
                acquired_ns again asked)
      after_ask-Over n acquired_ns again h (raise e) = elim (Bool-cases (is_uncertain e)) [
        | inl b ↦
            rw b (granted-Over (reconcile_acquire cell commands utc_now owner options acquired_ns))
        | inr b ↦ rw b (Over-raise backend_error)
      ]
      after_ask-Over n acquired_ns again h (ok (was_acquired fence)) =
          granted-Over (new_handle cell commands utc_now owner options fence acquired_ns)
      after_ask-Over n acquired_ns again h (ok was_corrupt) = Over-raise backend_error
      after_ask-Over n acquired_ns again h (ok was_contended) = pause-Over n again h

      -- each round but the last sleeps
      round-Over :
          (n : ℕ)
          → Does clock (Over (Fewer n)) (
              acquire_loop cell commands utc_now owner options monotonic_ns pauses deadline ttl_ms n
                true)
          → (attempted : Bool)
          → Does clock (Over (Enough n)) (
              acquire_loop cell commands utc_now owner options monotonic_ns pauses deadline ttl_ms
                (suc n)
                attempted)
      unfolding acquire_loop
      round-Over n rest attempted =
          Over-bind (λ now s t. (s ≤ now) × (now ≤ t)) (λ now. Enough n) monotonic_ns _
            (reading monotonic_ns keeps.ticks)
            (λ now s t p d. let a = p.0 in let b = p.1 in omega arith)
            λ acquired_ns. by_time acquired_ns rest (attempted && leb deadline acquired_ns)
        where
          by_time :
              (acquired_ns : ℕ)
              → Does clock (Over (Fewer n)) (
                  acquire_loop cell commands utc_now owner options monotonic_ns pauses deadline
                    ttl_ms n true)
              → (late : Bool)
              → Does clock (Over (Enough n)) (
                  let again =
                    acquire_loop cell commands utc_now owner options monotonic_ns pauses deadline
                      ttl_ms n true in
                  if late
                  then pure (some none)
                  else (attempt (ask cell commands utc_now owner options ttl_ms)
                      >>= after_ask cell commands utc_now owner options monotonic_ns pauses deadline
                          ttl_ms acquired_ns again))
          by_time acquired_ns rest true = Over-given none
          by_time acquired_ns rest false =
              Over-bind (λ a s t. s ≤ t) (λ a. Enough n) _ _
                (later_than _ (attempt_ask-Acts ttl_ms)) (λ a s t p d. omega arith)
                (after_ask-Over n acquired_ns _ rest)

      loop-Fewer :
          (n : ℕ)
          → Does clock (Over (Fewer n)) (
              acquire_loop cell commands utc_now owner options monotonic_ns pauses deadline ttl_ms n
                true)
      loop-Fewer zero = record { at = λ w d. absurd (let one = d.0 in omega arith) }
      loop-Fewer (suc n) = record {
        at = λ w d. (round-Over n (loop-Fewer n) true).at w (let left = d.1 in omega arith);
      }

      acquire_loop-Over :
          (n : ℕ) (attempted : Bool)
          → Does clock (Over (Enough n)) (
              acquire_loop cell commands utc_now owner options monotonic_ns pauses deadline ttl_ms
                (suc n)
                attempted)
      acquire_loop-Over n attempted = round-Over n (loop-Fewer n) attempted

module _ {W : Type 0} (cell : Cell W Handle) (clock : Cell W ℕ) (lock : Lock W)
    (keeps : (keys : RedisKeys)
      → KeepsTime cell clock (lock.commands keys) lock.monotonic_ns lock.pauses) where
  try_acquire-Over :
      (n : ℕ) (lock_name : Name) (given : ElectionOptions)
      → given.wait_time ≤ 40000 * n
      → Does clock (Over (λ s. Unit)) (try_acquire cell lock (suc n) lock_name given)
  unfolding try_acquire
  try_acquire-Over n lock_name given short =
      Over-bind (λ options s t. validated_redis_options lock.fits given ≡ ok options)
        (λ options t. options.wait_time ≡ given.wait_time) _ _ (lifted _)
        (λ options s t p d. validated_redis_options-wait lock.fits given options p)
        λ options.
          Over-bind (λ keys s t. redis_keys lock.texts lock_name lock.prefix ≡ ok keys)
            (λ keys t. options.wait_time ≡ given.wait_time) _ _ (lifted _) (λ keys s t p d. d)
            λ keys.
              Over-bind (λ owner s t. Unit) (λ owner t. options.wait_time ≡ given.wait_time) _ _
                (whatever lock.token_factory) (λ owner s t p d. d)
                λ owner.
                  Over-bind (λ ttl s t. Unit) (λ ttl t. options.wait_time ≡ given.wait_time) _ _
                    (whatever
                      (lift (duration_milliseconds (microseconds (pos options.lease_time)))))
                    (λ ttl s t p d. d)
                    λ ttl_ms.
                      Over-bind (λ now s t. (s ≤ now) × (now ≤ t))
                        (λ started.
                          Enough cell clock (lock.commands keys) lock.monotonic_ns lock.pauses
                            (keeps keys) lock.utc_now owner options
                            (started + options.wait_time * 1000) ttl_ms n)
                        lock.monotonic_ns _ (reading lock.monotonic_ns (keeps keys).ticks)
                        (λ started s t p d. let b = p.1 in omega (arith, d))
                        λ started_ns.
                          acquire_loop-Over cell clock (lock.commands keys) lock.monotonic_ns
                            lock.pauses (keeps keys) lock.utc_now owner options
                            (started_ns + options.wait_time * 1000) ttl_ms n false

  -- Where no clock goes back and a sleep takes the 40 ms that a valid jitter is at least, or what remains of
  -- the time to wait, an acquisition that may wait for at most `n` times 40 ms ends within `n + 1` rounds:
  -- with a lease, with none, or with an exception, whatever the server replies.
  pub try_acquire-ends :
      (n : ℕ) (lock_name : Name) (given : ElectionOptions) (w : W)
      → given.wait_time ≤ 40000 * n
      → (try_acquire cell lock (suc n) lock_name given w).0 ≢ ok none
  try_acquire-ends n lock_name given w short =
      over_result _ ((try_acquire-Over n lock_name given short).at w tt)
