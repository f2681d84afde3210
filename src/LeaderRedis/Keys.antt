-- ===== src/LeaderRedis/Keys.antt =====
-- leader/redis/_keys.py, and `_validated_redis_options` of _support.py: what is checked before a lock is
-- asked for. Unicode, SHA-256 and the arithmetic of floats are parameters.
use bluetape_py.Common.{
  ℕ, ◌+◌, ◌*◌, ◌/◌, Bool, true, ◌&&◌, ◌||◌, Option, none, some, List, [], ◌∷◌, ◌++◌, if◌then◌else◌,
  leb, ltb, length, ◌==◌,
}
use bluetape_py.Common.Int.{pos}
use bluetape_py.Common.Texts.{codes}
use bluetape_py.Common.Exec.{Result, ok, raise}
use bluetape_py.LeaderRedis.Errors.{
  PyError, value_error, invalid_options_error, invalid_lock_name_error, assertion_error,
}
use bluetape_py.LeaderRedis.Handle.{Options, microseconds, duration_milliseconds}
use bluetape_py.LeaderRedis.Scripts.{is_word}

-- A name that ought to be a text.
pub data Name : Type 0 where
  text : List ℕ → Name
  object : Name

pub record Texts : Type 0 where
  -- what `str.strip` takes away
  pub is_space : ℕ → Bool
  -- the bytes in UTF-8; none is a UnicodeEncodeError
  pub utf8 : List ℕ → Option (List ℕ)
  pub sha256_hex : List ℕ → List ℕ

pub record RedisKeys : Type 0 where
  pub lease : List ℕ
  pub fence : List ℕ
  pub history : List ℕ

unfoldable pub all_of : (ℕ → Bool) → List ℕ → Bool
all_of test [] = true
all_of test (c ∷ value) = test c && all_of test value

-- `[A-Za-z0-9._-]`
abbrev is_prefix_character : ℕ → Bool
is_prefix_character c = is_word c || c == b'.'

-- `_validated_prefix`
unfoldable pub validated_prefix : Name → Result PyError (List ℕ)
validated_prefix object = raise value_error
validated_prefix (text value) =
    if leb 1 (length value) && leb (length value) 64 && all_of is_prefix_character value
    then ok value
    else raise value_error

module _ (lib : Texts) where
  abbrev keys_of_bytes : List ℕ → Option (List ℕ) → Result PyError RedisKeys
  keys_of_bytes prefix none = raise invalid_lock_name_error
  keys_of_bytes prefix (some encoded) =
      if ltb 1024 (length encoded)
      then raise invalid_lock_name_error
      else (let hash_tag = prefix ++ codes ":{" ++ lib.sha256_hex encoded ++ codes "}" in
          ok (record {
            lease = hash_tag ++ codes ":lease";
            fence = hash_tag ++ codes ":fence";
            history = hash_tag ++ codes ":history";
          }))

  abbrev keys_of_name : List ℕ → Name → Result PyError RedisKeys
  keys_of_name prefix object = raise invalid_lock_name_error
  keys_of_name prefix (text name) =
      if all_of lib.is_space name
      then raise invalid_lock_name_error
      else keys_of_bytes prefix (lib.utf8 name)

  abbrev with_prefix : Result PyError (List ℕ) → Name → Result PyError RedisKeys
  with_prefix (raise e) name = raise e
  with_prefix (ok prefix) name = keys_of_name prefix name

  -- `_redis_keys`
  unfoldable pub redis_keys : Name → Name → Result PyError RedisKeys
  redis_keys lock_name prefix = with_prefix (validated_prefix prefix) lock_name

-- The options of an acquisition, with durations in microseconds, not negative.
pub record ElectionOptions : Type 0 where
  pub wait_time : ℕ
  pub lease_time : ℕ
  pub min_lease_time : ℕ
  pub auto_renew : Bool
  pub renew_interval : Option ℕ

abbrev pub in_milliseconds : ℕ → Result PyError ℕ
in_milliseconds us = duration_milliseconds (microseconds (pos us))

-- `interval == lease_time / 3`: a timedelta is divided to the nearest microsecond
abbrev pub is_default_interval : ℕ → ℕ → Bool
is_default_interval interval lease_time = interval == (lease_time + 1) / 3

-- `timing.renew < interval_seconds and timing.renew + interval_seconds < effective_lease_seconds`, of
-- an interval in microseconds and a lease time in milliseconds
module _ (fits : ℕ → ℕ → Bool) where
  abbrev pub check_fit : ElectionOptions → ℕ → Result PyError ℕ → Result PyError ElectionOptions
  check_fit options interval (raise e) = raise invalid_options_error
  check_fit options interval (ok lease_ms) =
      if fits interval lease_ms
      then ok (record options { renew_interval = some interval })
      else raise invalid_options_error

  abbrev pub rounded : ElectionOptions → Result PyError ℕ → Result PyError ElectionOptions
  rounded options (raise e) = raise invalid_options_error
  rounded options (ok interval_ms) =
      check_fit options (interval_ms * 1000) (in_milliseconds options.lease_time)

  abbrev pub with_interval : ElectionOptions → Option ℕ → Result PyError ElectionOptions
  with_interval options none = raise assertion_error
  with_interval options (some interval) =
      if is_default_interval interval options.lease_time
      then rounded options (in_milliseconds interval)
      else check_fit options interval (in_milliseconds options.lease_time)

  -- `_validated_redis_options`
  unfoldable pub validated_redis_options : ElectionOptions → Result PyError ElectionOptions
  validated_redis_options options =
      if options.auto_renew then with_interval options options.renew_interval else ok options

-- the options that a handle reads
abbrev pub handle_options : ElectionOptions → Options
handle_options o = record {
  lease_time = microseconds (pos o.lease_time);
  min_lease_time = o.min_lease_time;
  auto_renew = o.auto_renew;
}
