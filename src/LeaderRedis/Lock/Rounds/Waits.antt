-- ===== src/LeaderRedis/Lock/Rounds/Waits.antt =====
-- The options that a lock puts in the place of those given wait for the same time.
use bluetape_py.Common.{ℕ, ◌*◌, ◌≡◌, sym, ap, inl, inr, Bool, true, Option, none, some, Bool-cases}
use bluetape_py.Common.Exec.{Result, ok, raise}
use bluetape_py.LeaderRedis.Errors.{PyError}
use bluetape_py.LeaderRedis.Keys.{
  ElectionOptions, validated_redis_options, with_interval, rounded, check_fit, is_default_interval,
  in_milliseconds,
}

module _ (fits : ℕ → ℕ → Bool) where
  check_fit-wait :
      (given options : ElectionOptions) (interval : ℕ) (r : Result PyError ℕ)
      → check_fit fits given interval r ≡ ok options
      → options.wait_time ≡ given.wait_time
  check_fit-wait given options interval (raise e) h = absurd (cc h)
  check_fit-wait given options interval (ok lease_ms) h =
      elim (Bool-cases (fits interval lease_ms)) [
        | inr b ↦ absurd (cc (rw b at h))
        | inl b ↦
            let same : record given { renew_interval = some interval } ≡ options = cc (rw b at h) in
            sym (ap (λ o. o.wait_time) same)
      ]

  with_interval-wait :
      (given options : ElectionOptions) (interval : Option ℕ)
      → with_interval fits given interval ≡ ok options
      → options.wait_time ≡ given.wait_time
  with_interval-wait given options none h = absurd (cc h)
  with_interval-wait given options (some interval) h =
      elim (Bool-cases (is_default_interval interval given.lease_time)) [
        | inr b ↦ check_fit-wait given options interval _ (rw b at h)
        | inl b ↦ by_rounding (in_milliseconds interval) (rw b at h)
      ]
    where
      by_rounding :
          (r : Result PyError ℕ)
          → rounded fits given r ≡ ok options
          → options.wait_time ≡ given.wait_time
      by_rounding (raise e) h = absurd (cc h)
      by_rounding (ok ms) h = check_fit-wait given options (ms * 1000) _ h

  pub validated_redis_options-wait :
      (given options : ElectionOptions)
      → validated_redis_options fits given ≡ ok options
      → options.wait_time ≡ given.wait_time
  unfolding validated_redis_options
  validated_redis_options-wait given options h = elim (Bool-cases given.auto_renew) [
    | inr b ↦ let same : given ≡ options = cc (rw b at h) in sym (ap (λ o. o.wait_time) same)
    | inl b ↦
        with_interval-wait (record given { auto_renew = true }) options given.renew_interval
          (rw b at h)
  ]
