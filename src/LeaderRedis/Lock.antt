-- ===== src/LeaderRedis/Lock.antt =====
-- leader/redis/_lock.py: `RedisDistributedLock.try_acquire`.
pub mod Answers
pub mod Stands
pub mod Probed
pub mod Acquired
pub mod Rounds
use bluetape_py.Common.{
  ℕ, zero, suc, ◌+◌, ◌-◌, ◌*◌, Bool, true, false, not, ◌&&◌, ◌||◌, Option, none, some, List,
  if◌then◌else◌, leb, ltb,
}
use bluetape_py.Common.Texts.{same_text}
use bluetape_py.Common.Exec.{Result, ok, raise, Exec, pure, throw, lift, ◌>>=◌, ◌>>◌, Cell, locked}
use bluetape_py.LeaderRedis.Errors.{
  PyError, backend_error, value_error, runtime_error, is_uncertain, attempt,
}
use bluetape_py.LeaderRedis.Scripts.{acquires, reconciles}
use bluetape_py.LeaderRedis.Redis.{number_from, max_fence}
use bluetape_py.LeaderRedis.Decimal.{decimal}
use bluetape_py.LeaderRedis.Replies.{
  Acquisition, was_contended, was_corrupt, was_acquired, parse_acquire_response,
}
use bluetape_py.LeaderRedis.Record.{
  LeaseRecord, new_record, is_owner_token, Found, was_present, parse_reconcile_response,
}
use bluetape_py.LeaderRedis.Handle.{
  Handle, Commands, new_state, run_script, parsed, duration_milliseconds, microseconds,
}
use bluetape_py.LeaderRedis.Keys.{
  Name, Texts, RedisKeys, redis_keys, ElectionOptions, validated_redis_options,
}
use bluetape_py.Common.Int.{pos}

-- What an acquisition gives: the handle itself is the object that the cell finds.
pub record Lease (W : Type 0) : Type 0 where
  pub commands : Commands W
  pub mine : LeaseRecord
  pub options : ElectionOptions
  pub acquired_ns : ℕ

-- `_validated_script_args`
unfoldable pub validated_script_args : List ℕ → ℕ → Result PyError (List ℕ × List ℕ)
validated_script_args owner ttl_ms =
    if not (is_owner_token owner)
    then raise value_error
    else if leb ttl_ms 0 || ltb (number_from 0 max_fence) ttl_ms
    then raise value_error
    else ok (owner, decimal ttl_ms)

-- A pause of an acquisition: `_jitter`, whether it gave a number from 0.04 to 0.06, and `_sleep` for that
-- time or for the nanoseconds that remain, whichever is less.
pub record Pauses (W : Type 0) : Type 1 where
  pub Float : Type 0
  pub jitter : Exec PyError W Float
  pub is_valid : Float → Bool
  pub sleep : Float → ℕ → Exec PyError W (Unit {0})

-- What a lock has of its own and what it is given.
pub record Lock (W : Type 0) : Type 1 where
  pub texts : Texts
  pub prefix : Name
  pub fits : ℕ → ℕ → Bool
  pub commands : RedisKeys → Commands W
  pub monotonic_ns : Exec PyError W ℕ
  pub pauses : Pauses W
  pub token_factory : Exec PyError W (List ℕ)
  -- `datetime.now(UTC)` and the times of the lease
  pub utc_now : Exec PyError W (Unit {0})

module _ {W : Type 0} (cell : Cell W Handle) (commands : Commands W)
    (utc_now : Exec PyError W (Unit {0})) (owner : List ℕ) (options : ElectionOptions) where
  -- `_new_handle`
  abbrev pub new_handle : ℕ → ℕ → Exec PyError W (Lease W)
  new_handle fencing_token acquired_ns = do
    utc_now
    mine ← lift (parsed (new_record owner fencing_token))
    locked cell λ h. (tt {0}, new_state)
    pure (record { commands = commands; mine = mine; options = options; acquired_ns = acquired_ns })

  abbrev pub handle_found : ℕ → Result PyError Found → Exec PyError W (Lease W)
  handle_found acquired_ns (ok (was_present r)) =
      if same_text r.owner_token owner
      then new_handle r.fencing_token acquired_ns
      else throw backend_error
  handle_found acquired_ns _ = throw backend_error

  -- `_reconcile_acquire`
  unfoldable pub reconcile_acquire : ℕ → Exec PyError W (Lease W)
  reconcile_acquire acquired_ns = do
    found ←
        attempt (do raw ← commands.eval reconciles; lift (parsed (parse_reconcile_response raw)))
    handle_found acquired_ns found

  -- a run of the acquiring script
  abbrev pub ask : ℕ → Exec PyError W Acquisition
  ask ttl_ms = do
    args ← lift (validated_script_args owner ttl_ms)
    raw ← run_script commands (acquires args.0 args.1)
    lift (parsed (parse_acquire_response raw))

  module _ (monotonic_ns : Exec PyError W ℕ) (pauses : Pauses W) (deadline ttl_ms : ℕ) where
    abbrev pub granted : Exec PyError W (Lease W) → Exec PyError W (Option (Option (Lease W)))
    granted m = do lease ← m; pure (some (some lease))

    -- after a contention: none is the deadline
    abbrev pub pause :
        Exec PyError W (Option (Option (Lease W))) → Exec PyError W (Option (Option (Lease W)))
    pause again = do
      now ← monotonic_ns
      if leb deadline now then pure (some none) else do
        delay ← pauses.jitter
        if pauses.is_valid delay then pauses.sleep delay (deadline - now) else throw runtime_error
        again

    abbrev pub after_ask :
        ℕ
        → Exec PyError W (Option (Option (Lease W)))
        → Result PyError Acquisition
        → Exec PyError W (Option (Option (Lease W)))
    after_ask acquired_ns again (raise e) =
        if is_uncertain e then granted (reconcile_acquire acquired_ns) else throw backend_error
    after_ask acquired_ns again (ok (was_acquired fencing_token)) =
        granted (new_handle fencing_token acquired_ns)
    after_ask acquired_ns again (ok was_corrupt) = throw backend_error
    after_ask acquired_ns again (ok was_contended) = pause again

    -- the `while` of `try_acquire`, for so many rounds: none is that they were not enough
    unfoldable pub acquire_loop : ℕ → Bool → Exec PyError W (Option (Option (Lease W)))
    acquire_loop zero attempted = pure none
    acquire_loop (suc fuel) attempted = do
      acquired_ns ← monotonic_ns
      let again = acquire_loop fuel true in
          if attempted && leb deadline acquired_ns
          then pure (some none)
          else (attempt (ask ttl_ms) >>= after_ask acquired_ns again)

module _ {W : Type 0} (cell : Cell W Handle) (lock : Lock W) where
  -- `try_acquire`
  unfoldable pub try_acquire :
      ℕ → Name → ElectionOptions → Exec PyError W (Option (Option (Lease W)))
  try_acquire fuel lock_name given = do
    options ← lift (validated_redis_options lock.fits given)
    keys ← lift (redis_keys lock.texts lock_name lock.prefix)
    owner ← lock.token_factory
    ttl_ms ← lift (duration_milliseconds (microseconds (pos options.lease_time)))
    started_ns ← lock.monotonic_ns
    acquire_loop cell (lock.commands keys) lock.utc_now owner options lock.monotonic_ns lock.pauses
        (started_ns + options.wait_time * 1000) ttl_ms fuel false
