-- ===== src/LeaderRedis/Lock/Acquired.antt =====
-- A lock that was acquired was held on the server.
use bluetape_py.Common.{
  ℕ, zero, suc, ◌+◌, ◌-◌, ◌*◌, ◌≡◌, sym, ap, List, Bool, true, false, ◌&&◌, ◌||◌, Option, none,
  some, if◌then◌else◌, leb, ltb, Bool-cases, inl, inr,
}
use bluetape_py.Common.Int.{pos}
use bluetape_py.Common.Texts.{same_text}
use bluetape_py.Common.Exec.{Result, ok, raise, Exec, pure, throw, lift, ◌>>=◌, ◌>>◌, Cell, locked}
use bluetape_py.Common.Acts.{Acts, Acts-lift, Acts-if, Acts-throw}
use bluetape_py.Common.Does.{Does}
use bluetape_py.LeaderRedis.Errors.{PyError, backend_error, runtime_error, is_uncertain, attempt}
use bluetape_py.LeaderRedis.Redis.{Redis, number_from, max_fence}
use bluetape_py.LeaderRedis.Decimal.{decimal}
use bluetape_py.LeaderRedis.Scripts.{acquires, reconciles, reconcile}
use bluetape_py.LeaderRedis.Scripts.Fences.{IsRedis, Steps, run_call}
use bluetape_py.LeaderRedis.Replies.{
  wire, Acquisition, was_acquired, was_contended, parse_acquire_response,
}
use bluetape_py.LeaderRedis.Record.{
  is_owner_token, new_record, Found, was_present, was_absent, parse_reconcile_response,
}
use bluetape_py.LeaderRedis.Record.Read.{same_text-eq, new_record-some}
use bluetape_py.LeaderRedis.Handle.{
  Handle, Commands, microseconds, duration_milliseconds, parsed, new_state,
}
use bluetape_py.LeaderRedis.Keys.{Name, RedisKeys, redis_keys, ElectionOptions}
use bluetape_py.LeaderRedis.Lock.{
  Lease, Pauses, Lock, validated_script_args, new_handle, handle_found, reconcile_acquire, ask,
  granted, pause, after_ask, acquire_loop, try_acquire,
}
use bluetape_py.LeaderRedis.Lock.Answers.{
  At, At-bind, At-after, At-lift, Then, Then-known, Then-bind, Then-pure, Then-throw, Then-lift,
  Then-after, Kept, attempt-At, Replied, Serves, run_script-Replied, Steps-IsRely,
}
use bluetape_py.LeaderRedis.Lock.Stands.{parsed-ok, Stood, reconciled-Stood, granted-Stood}

module _ (redis : Redis) (laws : IsRedis redis) {W : Type 0} (cell : Cell W Handle)
    (server : Cell W redis.Data)
    (apart : (h : Handle) (w : W) → server.read (cell.write h w) ≡ server.read w) where
  module _ (commands : Commands W) (serves : Serves redis server commands) where
    module _ (utc_now : Exec PyError W (Unit {0})) (dates : Acts server (Steps redis) utc_now)
        (owner : List ℕ) (options : ElectionOptions) where
      abbrev Grants : Lease W → redis.Data → Type 0
      Grants lease d = Stood redis laws lease.mine d

      abbrev Asked : Acquisition → redis.Data → Type 0
      Asked (was_acquired n) d =
          Stood redis laws (record { owner_token = owner; fencing_token = n }) d
      Asked _ d = Unit

      abbrev Known : Found → redis.Data → Type 0
      Known (was_present r) d = Stood redis laws r d
      Known _ d = Unit

      new_handle-Grants :
          {P : redis.Data → Type 0} (n acquired_ns : ℕ)
          → ((d : redis.Data)
              → P d
              → Stood redis laws (record { owner_token = owner; fencing_token = n }) d)
          → Does server
              (Then redis P Grants)
              (new_handle cell commands utc_now owner options n acquired_ns)
      new_handle-Grants n acquired_ns stood = Then-after redis utc_now _ dates λ x.
          Then-bind redis (λ mine d. Stood redis laws mine d) _ _
            (Then-lift redis (parsed (new_record owner n)) (λ mine e d p.
              rw ((new_record-some owner n mine (parsed-ok _ mine e)).1) (stood d p)))
            λ mine.
              Then-after redis (locked cell λ h. (tt {0}, new_state)) _
                (record {
                  at = λ w. rw (apart new_state w) ((Steps-IsRely redis).here (server.read w));
                })
                λ y.
                  Then-pure redis
                    (record {
                      commands = commands;
                      mine = mine;
                      options = options;
                      acquired_ns = acquired_ns;
                    })
                    (λ d p. p)

      handle_found-Grants :
          (acquired_ns : ℕ) (found : Result PyError Found)
          → Does server
              (Then redis (Kept redis Known found) Grants)
              (handle_found cell commands utc_now owner options acquired_ns found)
      handle_found-Grants acquired_ns (raise e) = Then-throw redis backend_error
      handle_found-Grants acquired_ns (ok was_absent) = Then-throw redis backend_error
      handle_found-Grants acquired_ns (ok Found.was_corrupt) = Then-throw redis backend_error
      handle_found-Grants acquired_ns (ok (was_present r)) =
          elim (Bool-cases (same_text r.owner_token owner)) [
            | inr b ↦ rw b (Then-throw redis backend_error)
            | inl b ↦ rw b (
                new_handle-Grants r.fencing_token acquired_ns
                  (λ d p. rw (sym (same_text-eq r.owner_token owner b)) p))
          ]

      found-Known :
          (found : Found) (d e : redis.Data)
          → parse_reconcile_response (wire (run_call redis reconciles d).0) ≡ some found
          → e ≡ (run_call redis reconciles d).1
          → Known found e
      unfolding run_call reconcile
      found-Known was_absent d e read same = tt
      found-Known Found.was_corrupt d e read same = tt
      found-Known (was_present r) d e read same = rw same (reconciled-Stood redis laws d r read)

      reconcile_acquire-Grants :
          (acquired_ns : ℕ)
          → Does server
              (At redis Grants)
              (reconcile_acquire cell commands utc_now owner options acquired_ns)
      unfolding reconcile_acquire
      reconcile_acquire-Grants acquired_ns =
          At-bind redis (Kept redis Known) _ _
            (attempt-At redis Known _ (
              At-bind redis (Replied redis reconciles) _ _ (serves.evals reconciles) (λ raw.
                Then-lift redis _ (λ found e d p.
                  found-Known found (p.0) d (cc (parsed-ok _ found e, p.2)) (p.1)))))
            (handle_found-Grants acquired_ns)

      args-token :
          (ttl_ms : ℕ) (args : List ℕ × List ℕ)
          → validated_script_args owner ttl_ms ≡ ok args
          → (args.0 ≡ owner) × (is_owner_token owner ≡ true)
      unfolding validated_script_args
      args-token ttl_ms args e = elim (Bool-cases (is_owner_token owner)) [
        | inr b ↦ absurd (cc (rw b at e))
        | inl b ↦ elim (Bool-cases (leb ttl_ms 0 || ltb (number_from 0 max_fence) ttl_ms)) [
          | inl c ↦ absurd (cc (rw (b, c) at e))
          | inr c ↦
              let same : (owner, decimal ttl_ms) ≡ args = cc (rw (b, c) at e) in
              (sym (ap (λ x. x.0) same), b)
        ]
      ]

      reply-Asked :
          (args : List ℕ × List ℕ) (a : Acquisition) (d e : redis.Data)
          → (args.0 ≡ owner) × (is_owner_token owner ≡ true)
          → parse_acquire_response (wire (run_call redis (acquires args.0 args.1) d).0) ≡ some a
          → e ≡ (run_call redis (acquires args.0 args.1) d).1
          → Asked a e
      unfolding run_call
      reply-Asked args was_contended d e known read same = tt
      reply-Asked args Acquisition.was_corrupt d e known read same = tt
      reply-Asked args (was_acquired n) d e (mine, token) read same =
          rw same (rw (sym mine) (granted-Stood redis laws args.0 args.1 n d (rw mine token) read))

      ask-Asked :
          (ttl_ms : ℕ)
          → Does server (At redis Asked) (ask cell commands utc_now owner options ttl_ms)
      ask-Asked ttl_ms =
          At-bind redis (λ args d. (args.0 ≡ owner) × (is_owner_token owner ≡ true)) _ _
            (At-lift redis (validated_script_args owner ttl_ms)
              (λ args e d. args-token ttl_ms args e))
            λ args. Then-known redis _ λ d known.
              At-bind redis (Replied redis (acquires args.0 args.1)) _ _
                (run_script-Replied redis commands serves (acquires args.0 args.1))
                (λ raw.
                  Then-lift redis _
                    (λ a e d p. reply-Asked args a (p.0) d known (cc (parsed-ok _ a e, p.2)) (p.1)))

      -- what an acquisition shows
      abbrev pub Acquires : Option (Option (Lease W)) → redis.Data → Type 0
      Acquires (some (some lease)) d = Stood redis laws lease.mine d
      Acquires _ d = Unit

      module _ (monotonic_ns : Exec PyError W ℕ) (ticks : Acts server (Steps redis) monotonic_ns)
          (pauses : Pauses W) (jitters : Acts server (Steps redis) pauses.jitter)
          (sleeps : (delay : pauses.Float) (rest : ℕ)
            → Acts server (Steps redis) (pauses.sleep delay rest))
          (deadline ttl_ms : ℕ) where
        abbrev Round : Type 0
        Round = Exec PyError W (Option (Option (Lease W)))

        over_in_time :
            Does server (At redis Acquires) (pure {A = Option (Option (Lease W))} (some none))
        over_in_time =
            At-lift redis (ok (some none))
              (λ b e d. let same : some none ≡ b = cc e in rw (sym same) tt)

        pause-Acquires :
            (again : Round)
            → Does server (At redis Acquires) again
            → Does server (At redis Acquires) (
                pause cell commands utc_now owner options monotonic_ns pauses deadline ttl_ms again)
        pause-Acquires again h = At-after redis _ _ ticks λ now. by_time now (leb deadline now)
          where
            by_time :
                (now : ℕ) (late : Bool)
                → Does server (At redis Acquires) (
                    if late then pure (some none) else do
                      delay ← pauses.jitter
                      if pauses.is_valid delay
                          then pauses.sleep delay (deadline - now)
                          else throw runtime_error
                      again)
            by_time now true = over_in_time
            by_time now false = At-after redis _ _ jitters λ delay.
                At-after redis _ _
                  (Acts-if (Steps-IsRely redis) (pauses.is_valid delay) _ _
                    (sleeps delay (deadline - now)) (Acts-throw (Steps-IsRely redis) runtime_error))
                  λ x. h

        granted-Acquires :
            {P : redis.Data → Type 0} (m : Exec PyError W (Lease W))
            → Does server (Then redis P Grants) m
            → Does server
                (Then redis P Acquires)
                (granted cell commands utc_now owner options monotonic_ns pauses deadline ttl_ms m)
        granted-Acquires m h =
            Then-bind redis Grants m _ h (λ lease. Then-pure redis (some (some lease)) (λ d p. p))

        after_ask-Acquires :
            (acquired_ns : ℕ) (again : Round)
            → Does server (At redis Acquires) again
            → (asked : Result PyError Acquisition)
            → Does server (Then redis (Kept redis Asked asked) Acquires) (
                after_ask cell commands utc_now owner options monotonic_ns pauses deadline ttl_ms
                  acquired_ns again asked)
        after_ask-Acquires acquired_ns again h (raise e) = elim (Bool-cases (is_uncertain e)) [
          | inl b ↦ rw b (
              granted-Acquires _ (Then-known redis _ (λ d p. reconcile_acquire-Grants acquired_ns)))
          | inr b ↦ rw b (Then-throw redis backend_error)
        ]
        after_ask-Acquires acquired_ns again h (ok (was_acquired n)) =
            granted-Acquires _ (new_handle-Grants n acquired_ns (λ d p. p))
        after_ask-Acquires acquired_ns again h (ok Acquisition.was_corrupt) =
            Then-throw redis backend_error
        after_ask-Acquires acquired_ns again h (ok was_contended) =
            Then-known redis _ (λ d p. pause-Acquires again h)

        -- If the loop of an acquisition gives a lease, then at some moment the server held its very text, also
        -- where the acquisition was uncertain and had to be reconciled.
        pub acquire_loop-Acquires :
            (fuel : ℕ) (attempted : Bool)
            → Does server (At redis Acquires) (
                acquire_loop cell commands utc_now owner options monotonic_ns pauses deadline ttl_ms
                  fuel attempted)
        unfolding acquire_loop
        acquire_loop-Acquires zero attempted =
            At-lift redis (ok none) (λ b e d. let same : none ≡ b = cc e in rw (sym same) tt)
        acquire_loop-Acquires (suc fuel) attempted =
            At-after redis _ _ ticks
              let rest = acquire_loop-Acquires fuel true in
                λ acquired_ns. by_time acquired_ns rest (attempted && leb deadline acquired_ns)
          where
            by_time :
                (acquired_ns : ℕ)
                → Does server (At redis Acquires) (
                    acquire_loop cell commands utc_now owner options monotonic_ns pauses deadline
                      ttl_ms fuel true)
                → (late : Bool)
                → Does server (At redis Acquires) (
                    let again =
                      acquire_loop cell commands utc_now owner options monotonic_ns pauses deadline
                        ttl_ms fuel true in
                    if late
                    then pure (some none)
                    else (attempt (ask cell commands utc_now owner options ttl_ms)
                        >>= after_ask cell commands utc_now owner options monotonic_ns pauses
                            deadline ttl_ms acquired_ns again))
            by_time acquired_ns rest true = over_in_time
            by_time acquired_ns rest false =
                At-bind redis (Kept redis Asked) _ _ (attempt-At redis Asked _ (ask-Asked ttl_ms))
                  (after_ask-Acquires acquired_ns _ rest)

  -- The clocks, the pauses and the tokens leave the server to others, and the commands for the keys of this
  -- name are served there.
  pub record IsServed (lock : Lock W) (lock_name : Name) : Type 0 where
    pub serves :
        (keys : RedisKeys)
        → redis_keys lock.texts lock_name lock.prefix ≡ ok keys
        → Serves redis server (lock.commands keys)
    pub dates : Acts server (Steps redis) lock.utc_now
    pub ticks : Acts server (Steps redis) lock.monotonic_ns
    pub jitters : Acts server (Steps redis) lock.pauses.jitter
    pub sleeps :
        (delay : lock.pauses.Float) (rest : ℕ)
        → Acts server (Steps redis) (lock.pauses.sleep delay rest)
    pub tokens : Acts server (Steps redis) lock.token_factory

  module _ (lock : Lock W) (lock_name : Name) (served : IsServed lock lock_name) where
    abbrev pub Acquired : Option (Option (Lease W)) → redis.Data → Type 0
    Acquired (some (some lease)) d = Stood redis laws lease.mine d
    Acquired _ d = Unit

    with_keys :
        (fuel : ℕ) (options : ElectionOptions) (keys : RedisKeys)
        → redis_keys lock.texts lock_name lock.prefix ≡ ok keys
        → Does server (At redis Acquired) (do
          owner ← lock.token_factory
          ttl_ms ← lift (duration_milliseconds (microseconds (pos options.lease_time)))
          started_ns ← lock.monotonic_ns
          acquire_loop cell
              (lock.commands keys)
              lock.utc_now
              owner
              options
              lock.monotonic_ns
              lock.pauses
              (started_ns + options.wait_time * 1000)
              ttl_ms
              fuel
              false)
    with_keys fuel options keys e = At-after redis _ _ served.tokens λ owner.
        At-after redis _ _ (Acts-lift (Steps-IsRely redis) _) λ ttl_ms.
          At-after redis _ _ served.ticks λ started_ns.
            acquire_loop-Acquires (lock.commands keys) (served.serves keys e) lock.utc_now
              served.dates owner options lock.monotonic_ns served.ticks lock.pauses served.jitters
              served.sleeps (started_ns + options.wait_time * 1000) ttl_ms fuel false

    -- Where each command for the keys of the name runs its script at one moment on the server, or raises,
    -- and any scripts may run and time may pass before and after: if `try_acquire` gives a lease, then at
    -- some moment of the call the server held the very text of this lease, also where the acquisition
    -- raised an uncertain error and was reconciled.
    pub try_acquire-Acquired :
        (fuel : ℕ) (given : ElectionOptions)
        → Does server (At redis Acquired) (try_acquire cell lock fuel lock_name given)
    unfolding try_acquire
    try_acquire-Acquired fuel given =
        At-after redis _ _ (Acts-lift (Steps-IsRely redis) _) λ options.
          At-bind redis (λ keys d. redis_keys lock.texts lock_name lock.prefix ≡ ok keys) _ _
            (At-lift redis _ (λ keys e d. e))
            λ keys. Then-known redis _ λ d e. with_keys fuel options keys e
