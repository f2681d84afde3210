-- ===== src/LeaderRedis/Options.antt =====
-- packages/bluetape-leader _options.py: `LeaderElectionOptions`. Durations are in microseconds, and an
-- object of another class than the one that is due is `object` or none.
pub mod Sound
use bluetape_py.Common.{
  ℕ, zero, suc, ◌+◌, ◌/◌, Bool, true, false, not, ◌&&◌, ◌||◌, Option, none, some, List, [], ◌∷◌,
  if◌then◌else◌, leb, ltb, length, ◌==◌,
}
use bluetape_py.Common.Int.{ℤ, pos, negsuc}
use bluetape_py.Common.Exec.{Result, ok, raise}
use bluetape_py.LeaderRedis.Errors.{PyError, type_error, invalid_options_error}
use bluetape_py.LeaderRedis.Handle.{Duration, microseconds, object}
use bluetape_py.LeaderRedis.Keys.{Name, text, Texts, all_of, ElectionOptions}

-- what the constructor is given
pub record Given : Type 0 where
  pub given_wait_time : Duration
  pub given_lease_time : Duration
  pub given_min_lease_time : Duration
  -- none is no bool
  pub given_auto_renew : Option Bool
  pub given_renew_interval : Option Duration
  pub given_node_id : Option Name

module _ {A B : Type 0} where
  abbrev pub then_ok : Result PyError A → (A → Result PyError B) → Result PyError B
  then_ok (ok a) f = f a
  then_ok (raise e) f = raise e

-- `_require_exact_timedelta`
abbrev pub exact_timedelta : Duration → Result PyError ℤ
exact_timedelta (microseconds us) = ok us
exact_timedelta object = raise type_error

-- `_require_exact_bool`
abbrev pub exact_bool : Option Bool → Result PyError Bool
exact_bool none = raise type_error
exact_bool (some b) = ok b

abbrev pub exact_interval : Option Duration → Result PyError (Option ℤ)
exact_interval none = ok none
exact_interval (some (microseconds us)) = ok (some us)
exact_interval (some object) = raise type_error

-- `_require_exact_str`
abbrev pub exact_str : Option Name → Result PyError (Option (List ℕ))
exact_str none = ok none
exact_str (some (text value)) = ok (some value)
exact_str (some Name.object) = raise type_error

module _ (lib : Texts) where
  abbrev is_blank : List ℕ → Bool
  is_blank value = all_of lib.is_space value

  abbrev pub encoded_node_id : List ℕ → Option (List ℕ) → Result PyError (Unit {0})
  encoded_node_id node_id none = raise invalid_options_error
  encoded_node_id node_id (some encoded) =
      if is_blank node_id || ltb 256 (length encoded) then raise invalid_options_error else ok tt

  -- `_validate_node_id`; a text without characters is blank too
  abbrev pub validate_node_id : Option (List ℕ) → Result PyError (Unit {0})
  validate_node_id none = ok tt
  validate_node_id (some node_id) = encoded_node_id node_id (lib.utf8 node_id)

-- the end of `__post_init__`
abbrev pub with_times :
    (wait_time lease_time min_lease_time : ℕ) → Bool → Option ℕ → ElectionOptions
with_times wait_time lease_time min_lease_time auto_renew renew_interval = record {
  wait_time = wait_time;
  lease_time = lease_time;
  min_lease_time = min_lease_time;
  auto_renew = auto_renew;
  renew_interval = renew_interval;
}

-- `lease_time / 3`, to the nearest microsecond
abbrev pub derived_interval : ℕ → ℕ
derived_interval lease_time = (lease_time + 1) / 3

unfoldable pub check_interval :
    (wait_time lease_time min_lease_time : ℕ) → Bool → Option ℤ → Result PyError ElectionOptions
check_interval wait_time lease_time min_lease_time true none =
    if leb (derived_interval lease_time) 0
    then raise invalid_options_error
    else ok
        (with_times wait_time lease_time min_lease_time true (some (derived_interval lease_time)))
check_interval wait_time lease_time min_lease_time false none =
    ok (with_times wait_time lease_time min_lease_time false none)
check_interval wait_time lease_time min_lease_time auto_renew (some (negsuc n)) =
    raise invalid_options_error
check_interval wait_time lease_time min_lease_time auto_renew (some (pos interval)) =
    if not (ltb 0 interval && ltb interval lease_time)
    then raise invalid_options_error
    else ok (with_times wait_time lease_time min_lease_time auto_renew (some interval))

-- a duration that may not be negative
abbrev pub not_negative : ℤ → Result PyError ℕ
not_negative (pos us) = ok us
not_negative (negsuc n) = raise invalid_options_error

module _ (lib : Texts) where
  unfoldable pub check_times :
      (wait_time lease_time min_lease_time : ℤ)
      → Bool
      → Option ℤ
      → Option (List ℕ)
      → Result PyError ElectionOptions
  check_times wait_time lease_time min_lease_time auto_renew renew_interval node_id =
      then_ok (not_negative wait_time) λ wait. then_ok (not_negative lease_time) λ lease.
        if leb lease 0
        then raise invalid_options_error
        else then_ok (not_negative min_lease_time) λ min_lease.
          if ltb lease min_lease
          then raise invalid_options_error
          else then_ok (validate_node_id lib node_id)
              λ valid. check_interval wait lease min_lease auto_renew renew_interval

  -- `__post_init__`
  unfoldable pub new_options : Given → Result PyError ElectionOptions
  new_options given = then_ok (exact_timedelta given.given_wait_time) λ wait_time.
      then_ok (exact_timedelta given.given_lease_time) λ lease_time.
        then_ok (exact_timedelta given.given_min_lease_time) λ min_lease_time.
          then_ok (exact_bool given.given_auto_renew) λ auto_renew.
            then_ok (exact_interval given.given_renew_interval) λ renew_interval.
              then_ok (exact_str given.given_node_id) λ node_id.
                check_times wait_time lease_time min_lease_time auto_renew renew_interval node_id
