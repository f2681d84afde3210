-- ===== src/LeaderRedis/Options/Sound.antt =====
-- Options that were made are fit for a lock, and stay so.
use bluetape_py.Common.{
  ℕ, ◌*◌, ◌/◌, ◌≤◌, ◌<◌, ◌≡◌, refl, sym, Bool, true, false, ◌&&◌, Option, none, some, List,
  if◌then◌else◌, leb, ltb, ◌==◌, Bool-cases, inl, inr, arith,
}
use bluetape_py.Common.Int.{ℤ, pos, negsuc}
use bluetape_py.Common.Exec.{Result, ok, raise}
use bluetape_py.LeaderRedis.Errors.{PyError, invalid_options_error}
use bluetape_py.LeaderRedis.Handle.{duration_milliseconds}
use bluetape_py.LeaderRedis.Keys.{
  Texts, ElectionOptions, check_fit, with_interval, validated_redis_options, is_default_interval,
  in_milliseconds,
}
use bluetape_py.LeaderRedis.Options.{
  Given, then_ok, exact_timedelta, exact_bool, exact_interval, exact_str, validate_node_id,
  not_negative, derived_interval, check_interval, check_times, new_options, with_times,
}

-- An interval lies within the lease time, and there is one where leases are renewed.
abbrev pub HasInterval : Bool → Option ℕ → ℕ → Type 0
HasInterval true none lease_time = ⊥
HasInterval false none lease_time = Unit
HasInterval auto_renew (some interval) lease_time = (0 < interval) × (interval < lease_time)

pub record IsSound (o : ElectionOptions) : Type 0 where
  pub lasts : 0 < o.lease_time
  pub least : o.min_lease_time ≤ o.lease_time
  pub interval : HasInterval o.auto_renew o.renew_interval o.lease_time

then_ok-ok :
    {A B : Type 0} (r : Result PyError A) (f : A → Result PyError B) (b : B)
    → then_ok r f ≡ ok b
    → (a : A) × (r ≡ ok a) × (f a ≡ ok b)
then_ok-ok (ok a) f b h = (a, refl, h)
then_ok-ok (raise e) f b h = absurd (cc h)

check_interval-IsSound :
    (wait lease min_lease : ℕ) (auto_renew : Bool) (interval : Option ℤ) (o : ElectionOptions)
    → 0 < lease
    → min_lease ≤ lease
    → check_interval wait lease min_lease auto_renew interval ≡ ok o
    → IsSound o
unfolding check_interval
check_interval-IsSound wait lease min_lease true none o lasts least h =
    elim (Bool-cases (leb (derived_interval lease) 0)) [
      | inl b ↦ absurd (cc (rw b at h))
      | inr b ↦
          let same : with_times wait lease min_lease true (some (derived_interval lease)) ≡ o =
            cc (rw b at h) in
          rw (sym same) (record {
            lasts = lasts;
            least = least;
            interval = (ground (arith, b), omega (arith, lasts));
          })
    ]
check_interval-IsSound wait lease min_lease false none o lasts least h =
    let same : with_times wait lease min_lease false none ≡ o = cc h in
    rw (sym same) (record { lasts = lasts; least = least; interval = tt })
check_interval-IsSound wait lease min_lease auto_renew (some (negsuc n)) o lasts least h =
    absurd (cc h)
check_interval-IsSound wait lease min_lease auto_renew (some (pos interval)) o lasts least h =
    elim (Bool-cases (ltb 0 interval && ltb interval lease)) [
      | inr b ↦ absurd (cc (rw b at h))
      | inl b ↦
          let same : with_times wait lease min_lease auto_renew (some interval) ≡ o =
            cc (rw b at h) in
          rw (sym same) (record {
            lasts = lasts;
            least = least;
            interval = (ground (arith, b), ground (arith, b));
          })
    ]

check_times-IsSound :
    (lib : Texts) (wait lease min_lease : ℤ) (auto_renew : Bool) (interval : Option ℤ)
    (node_id : Option (List ℕ)) (o : ElectionOptions)
    → check_times lib wait lease min_lease auto_renew interval node_id ≡ ok o
    → IsSound o
unfolding check_times
check_times-IsSound lib wait lease min_lease auto_renew interval node_id o h =
    let (w, a, h1) = then_ok-ok (not_negative wait) _ o h in
    let (l, b, h2) = then_ok-ok (not_negative lease) _ o h1 in
    elim (Bool-cases (leb l 0)) [
      | inl c ↦ absurd (cc (rw c at h2))
      | inr c ↦
          let (m, d, h3) = then_ok-ok (not_negative min_lease) _ o (rw c at h2) in
          elim (Bool-cases (ltb l m)) [
            | inl e ↦ absurd (cc (rw e at h3))
            | inr e ↦
                let (v, f, h4) = then_ok-ok (validate_node_id lib node_id) _ o (rw e at h3) in
                check_interval-IsSound w l m auto_renew interval o (ground (arith, c))
                  (ground (arith, e)) h4
          ]
    ]

new_options-IsSound :
    (lib : Texts) (given : Given) (o : ElectionOptions) → new_options lib given ≡ ok o → IsSound o
unfolding new_options
new_options-IsSound lib given o h =
    let (w, a, h1) = then_ok-ok (exact_timedelta given.given_wait_time) _ o h in
    let (l, b, h2) = then_ok-ok (exact_timedelta given.given_lease_time) _ o h1 in
    let (m, c, h3) = then_ok-ok (exact_timedelta given.given_min_lease_time) _ o h2 in
    let (r, d, h4) = then_ok-ok (exact_bool given.given_auto_renew) _ o h3 in
    let (i, e, h5) = then_ok-ok (exact_interval given.given_renew_interval) _ o h4 in
    let (n, f, h6) = then_ok-ok (exact_str given.given_node_id) _ o h5 in
    check_times-IsSound lib w l m r i n o h6

-- What a lock makes of options: sound ones again, or the one error.
abbrev pub Validated : Result PyError ElectionOptions → Type 0
Validated (ok o) = IsSound o
Validated (raise e) = e ≡ invalid_options_error

module _ (fits : ℕ → ℕ → Bool) where
  check_fit-Validated :
      (o : ElectionOptions) (interval : ℕ) (r : Result PyError ℕ)
      → IsSound o
      → (0 < interval) × (interval < o.lease_time)
      → Validated (check_fit fits o interval r)
  check_fit-Validated o interval (raise e) sound between = refl
  check_fit-Validated o interval (ok lease_ms) sound between =
      elim (Bool-cases (fits interval lease_ms)) [
        | inr b ↦ rw b refl
        | inl b ↦
            rw b (record { lasts = sound.lasts; least = sound.least; interval = has o.auto_renew })
      ]
    where
      has : (auto_renew : Bool) → HasInterval auto_renew (some interval) o.lease_time
      has true = between
      has false = between

  with_interval-Validated :
      (o : ElectionOptions) (interval : Option ℕ)
      → IsSound o
      → HasInterval true interval o.lease_time
      → Validated (with_interval fits o interval)
  unfolding duration_milliseconds
  with_interval-Validated o none sound has = absurd has
  with_interval-Validated o (some interval) sound (low, high) =
      elim (Bool-cases (is_default_interval interval o.lease_time)) [
        | inr b ↦
            rw b (check_fit-Validated o interval (in_milliseconds o.lease_time) sound (low, high))
        | inl b ↦ rw b (elim (Bool-cases (interval / 1000 == 0)) [
          | inl c ↦ rw c refl
          | inr c ↦ rw c (
              check_fit-Validated o (interval / 1000 * 1000) (in_milliseconds o.lease_time) sound
                (ground (arith, c), omega (arith, high)))
        ])
      ]

  sound_or_refused : (o : ElectionOptions) → IsSound o → Validated (validated_redis_options fits o)
  unfolding validated_redis_options
  sound_or_refused o sound = by_renewal o.auto_renew refl
    where
      by_renewal :
          (b : Bool)
          → o.auto_renew ≡ b
          → Validated (if b then with_interval fits o o.renew_interval else ok o)
      by_renewal false e = sound
      by_renewal true e =
          with_interval-Validated o o.renew_interval sound (has o.renew_interval sound.interval)
        where
          has :
              (interval : Option ℕ)
              → HasInterval o.auto_renew interval o.lease_time
              → HasInterval true interval o.lease_time
          has interval h = rw (sym e) h

  -- Options that their class has made are accepted by a lock, or refused with an `InvalidLeaderOptionsError`
  -- and with nothing else, neither with the assertion that there is an interval nor with a `ValueError` of
  -- a duration; and those that it puts in their place would be made by the class too: the lease time is
  -- positive and not below the minimum, and an interval lies within it.
  pub new_options-Validated :
      (lib : Texts) (given : Given) (o : ElectionOptions)
      → new_options lib given ≡ ok o
      → Validated (validated_redis_options fits o)
  new_options-Validated lib given o h = sound_or_refused o (new_options-IsSound lib given o h)
