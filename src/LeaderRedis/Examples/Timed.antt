-- ===== src/LeaderRedis/Examples/Timed.antt =====
-- Tests of a lock that others hold all the time, in a world that is a handle and a time.
use bluetape_py.Common.{ℕ, ◌+◌, ◌≡◌, ◌≢◌, refl, inl, true, false, none, some, leb, arith}
use bluetape_py.Common.Texts.{codes, is_ascii, is_among}
use bluetape_py.Common.Exec.{ok, Exec, pure, Cell}
use bluetape_py.LeaderRedis.Errors.{PyError}
use bluetape_py.LeaderRedis.Scripts.{Call, contended}
use bluetape_py.LeaderRedis.Replies.{Value, wire, response_parts, parse_acquire_response}
use bluetape_py.LeaderRedis.Record.{is_owner_token, all_among}
use bluetape_py.LeaderRedis.Handle.{Handle, Commands, new_state, duration_milliseconds, run_script}
use bluetape_py.LeaderRedis.Keys.{
  text, ElectionOptions, validated_redis_options, redis_keys, validated_prefix, all_of,
}
use bluetape_py.LeaderRedis.Lock.{Lock, Pauses, try_acquire, acquire_loop, validated_script_args}
use bluetape_py.LeaderRedis.Lock.Rounds.{KeepsTime, try_acquire-ends}
use bluetape_py.LeaderRedis.Examples.{alice, program}

record World : Type 0 where
  handle : Handle
  now : ℕ

abbrev handle_cell : Cell World Handle
handle_cell = record {
  read = λ w. w.handle;
  write = λ h w. record w { handle = h };
  read-write = λ h w. refl;
}

abbrev clock : Cell World ℕ
clock = record { read = λ w. w.now; write = λ t w. record w { now = t }; read-write = λ t w. refl }

abbrev contends : Call → Exec PyError World Value
contends call = pure (wire contended)

abbrev commands : Commands World
commands = record { evalsha = contends; eval = contends }

abbrev read_clock : Exec PyError World ℕ
read_clock w = (ok w.now, w)

abbrev pauses : Pauses World
pauses = record {
  Float = ℕ;
  jitter = pure 50000000;
  is_valid = leb 40000000;
  sleep = λ delay rest w. (ok tt, record w { now = w.now + delay });
}

abbrev busy : Lock World
busy = record {
  texts = record {
    is_space = λ c. false;
    utf8 = λ name. some name;
    sha256_hex = λ bytes. codes "ab";
  };
  prefix = text (codes "leader");
  fits = λ interval lease. true;
  commands = λ keys. commands;
  monotonic_ns = read_clock;
  pauses = pauses;
  token_factory = pure alice;
  utc_now = pure tt;
}

abbrev patient : ElectionOptions
patient = record {
  wait_time = 100000;
  lease_time = 60000000;
  min_lease_time = 0;
  auto_renew = false;
  renew_interval = none;
}

abbrev midnight : World
midnight = record { handle = new_state; now = 7 }

busy-KeepsTime : KeepsTime handle_cell clock commands read_clock pauses
busy-KeepsTime = record {
  evals = λ call. record { at = λ w. omega arith };
  evalshas = λ call. record { at = λ w. omega arith };
  ticks = record { at = λ w. (omega arith, omega arith) };
  jitters = record { at = λ w. omega arith };
  sleeps = λ delay rest valid. record { at = λ w. inl (ground (arith, valid)) };
}

busy_program : Unit {0}
unfolding is_owner_token all_among parse_acquire_response response_parts is_ascii is_among all_of
    validated_prefix redis_keys validated_redis_options duration_milliseconds run_script
    validated_script_args acquire_loop try_acquire new_state
busy_program = tt

-- after two pauses of 50 ms the 100 ms are over
gives_up :
    (try_acquire handle_cell busy 4 (text (codes "jobs")) patient midnight).0 ≡ ok (some none)
unfolding program busy_program
gives_up = refl

-- two rounds were not enough
too_few : (try_acquire handle_cell busy 2 (text (codes "jobs")) patient midnight).0 ≡ ok none
unfolding program busy_program
too_few = refl

try_acquire-ends_example :
    (try_acquire handle_cell busy 4 (text (codes "jobs")) patient midnight).0 ≢ ok none
try_acquire-ends_example =
    try_acquire-ends handle_cell clock busy (λ keys. busy-KeepsTime) 3 (text (codes "jobs")) patient
      midnight (omega arith)
