-- ===== src/LeaderRedis/Examples/Served.antt =====
-- Tests of a lock on the small server, which runs each script at once.
use bluetape_py.Common.{ℕ, ◌≡◌, refl, true, false, none, some}
use bluetape_py.Common.Texts.{codes, is_among, is_ascii}
use bluetape_py.Common.Exec.{ok, raise, Exec, pure, Cell}
use bluetape_py.Common.Does.{Does}
use bluetape_py.LeaderRedis.Errors.{PyError, uncertain_error}
use bluetape_py.LeaderRedis.Scripts.{Call}
use bluetape_py.LeaderRedis.Scripts.Fences.{here, next, run_call}
use bluetape_py.LeaderRedis.Replies.{Value, wire, response_parts, is_canonical_fence}
use bluetape_py.LeaderRedis.Record.{
  LeaseRecord, to_bytes, is_owner_token, all_among, new_record, split_colon, parse_record,
  parse_reconcile_response,
}
use bluetape_py.LeaderRedis.Handle.{
  Handle, Commands, new_state, is_held, duration_milliseconds, run_script,
}
use bluetape_py.LeaderRedis.Keys.{
  Name, text, ElectionOptions, validated_redis_options, redis_keys, validated_prefix, all_of,
  handle_options,
}
use bluetape_py.LeaderRedis.Lock.{
  Lock, Pauses, try_acquire, acquire_loop, reconcile_acquire, validated_script_args,
}
use bluetape_py.LeaderRedis.Lock.Answers.{At, Serves}
use bluetape_py.LeaderRedis.Lock.Stands.{Stands}
use bluetape_py.LeaderRedis.Lock.Probed.{is_held-Stands}
use bluetape_py.LeaderRedis.Lock.Acquired.{IsServed, Acquired, try_acquire-Acquired}
use bluetape_py.LeaderRedis.Examples.{Server, server, server-IsRedis, alice, no_data, program}

client_program : Unit {0}
unfolding is_owner_token all_among new_record to_bytes split_colon parse_record
    parse_reconcile_response response_parts is_ascii is_among is_canonical_fence all_of
    validated_prefix redis_keys validated_redis_options duration_milliseconds run_script
    validated_script_args reconcile_acquire acquire_loop try_acquire new_state
client_program = tt

record World : Type 0 where
  handle : Handle
  database : Server

abbrev handle_cell : Cell World Handle
handle_cell = record {
  read = λ w. w.handle;
  write = λ h w. record w { handle = h };
  read-write = λ h w. refl;
}

abbrev data_cell : Cell World Server
data_cell = record {
  read = λ w. w.database;
  write = λ d w. record w { database = d };
  read-write = λ d w. refl;
}

abbrev run_at_once : Call → Exec PyError World Value
run_at_once call w =
    let (reply, d) = run_call server call w.database in (ok (wire reply), record w { database = d })

-- the reply is lost
abbrev run_and_raise : Call → Exec PyError World Value
run_and_raise call w =
    let (reply, d) = run_call server call w.database in
    (raise (uncertain_error 0), record w { database = d })

abbrev commands : Commands World
commands = record { evalsha = run_and_raise; eval = run_at_once }

commands-Serves : Serves server data_cell commands
commands-Serves = record {
  evals = λ call. record {
    at = λ w. ((run_call server call w.database).1, next here call, here, (w.database, refl, refl));
  };
  evalshas = λ call. record { at = λ w. next here call };
}

-- nothing is lost
abbrev prompt : Commands World
prompt = record { evalsha = run_at_once; eval = run_at_once }

prompt-Serves : Serves server data_cell prompt
prompt-Serves = record { evals = commands-Serves.evals; evalshas = commands-Serves.evals }

abbrev pauses : Pauses World
pauses = record {
  Float = ℕ;
  jitter = pure 50;
  is_valid = λ delay. true;
  sleep = λ delay rest. pure tt;
}

abbrev lock : Lock World
lock = record {
  texts = record {
    is_space = λ c. false;
    utf8 = λ name. some name;
    sha256_hex = λ bytes. codes "ab";
  };
  prefix = text (codes "leader");
  fits = λ interval lease. true;
  commands = λ keys. commands;
  monotonic_ns = pure 0;
  pauses = pauses;
  token_factory = pure alice;
  utc_now = pure tt;
}

abbrev options : ElectionOptions
options = record {
  wait_time = 5000000;
  lease_time = 60000000;
  min_lease_time = 0;
  auto_renew = false;
  renew_interval = none;
}

abbrev lock_name : Name
lock_name = text (codes "jobs")

lock-IsServed : IsServed server server-IsRedis handle_cell data_cell (λ h w. refl) lock lock_name
lock-IsServed = record {
  serves = λ keys e. commands-Serves;
  dates = record { at = λ w. here };
  ticks = record { at = λ w. here };
  jitters = record { at = λ w. here };
  sleeps = λ delay rest. record { at = λ w. here };
  tokens = record { at = λ w. here };
}

try_acquire-Acquired_example :
    Does data_cell
      (At server (
        Acquired server server-IsRedis handle_cell data_cell
          (λ h w. refl)
          lock
          lock_name
          lock-IsServed))
      (try_acquire handle_cell lock 3 lock_name options)
try_acquire-Acquired_example =
    try_acquire-Acquired server server-IsRedis handle_cell data_cell (λ h w. refl) lock lock_name
      lock-IsServed 3 options

abbrev mine : LeaseRecord
mine = record { owner_token = alice; fencing_token = 1 }

is_held-Stands_example :
    Does data_cell
      (At server (Stands server server-IsRedis mine))
      (is_held handle_cell prompt mine (handle_options options) (pure 0) 0)
is_held-Stands_example =
    is_held-Stands server server-IsRedis handle_cell data_cell (λ h w. refl) prompt prompt-Serves
      mine (handle_options options) (pure 0) 0

abbrev start : World
start = record { handle = new_state; database = no_data }

-- an acquisition whose reply was lost is reconciled
regains :
    (try_acquire handle_cell lock 3 lock_name options start).0
    ≡ ok (
        some
          (some (record { commands = commands; mine = mine; options = options; acquired_ns = 0 })))
unfolding program client_program
regains = refl
