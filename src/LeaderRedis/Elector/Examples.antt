-- ===== src/LeaderRedis/Elector/Examples.antt =====
-- Tests of a handle and of an elector whose server always grants; the handle is the whole world.
use bluetape_py.Common.{ℕ, ◌≡◌, refl, true, false, some, List, none}
use bluetape_py.Common.Int.{pos}
use bluetape_py.Common.Texts.{codes, same_text, is_among, is_ascii}
use bluetape_py.Common.Exec.{Result, ok, raise, Exec, pure, throw, whole}
use bluetape_py.Common.Does.{Does}
use bluetape_py.LeaderRedis.Errors.{
  PyError, exception, interrupt, lease_lost_error, execution_error,
}
use bluetape_py.LeaderRedis.Redis.{number_from, valid_fence, is_positive, are_digits, text_le}
use bluetape_py.LeaderRedis.Scripts.{
  Call, acquires, renews, probes, reconciles, releases, Reply, acquired, renewed, held, present,
  deleted, not_held,
}
use bluetape_py.LeaderRedis.Replies.{wire, response_parts, is_canonical_fence}
use bluetape_py.LeaderRedis.Decimal.{digits_loop}
use bluetape_py.LeaderRedis.Record.{
  LeaseRecord, to_bytes, new_record, is_owner_token, all_among, split_colon, parse_record,
  parse_status_response, is_allowed, parse_reconcile_response,
}
use bluetape_py.LeaderRedis.Handle.{
  Handle, entered, released, Commands, Options, microseconds, new_state, duration_milliseconds,
  open_block, over_release, settle_renewal, settle_probe, finish_release_status, settle_release,
  settle_found, settle_repeat, run_script, renew, is_held, release_handle, reconcile_release, lost,
}
use bluetape_py.LeaderRedis.Handle.Ends.{Advances, Advances-IsRely, Ends}
use bluetape_py.LeaderRedis.Handle.Blocks.{Release}
use bluetape_py.LeaderRedis.Handle.Settles.{Behaves, release_handle-Release}
use bluetape_py.LeaderRedis.Handle.Worker.{
  Threads, stop_worker, start_failed, start_succeeded, start_worker, renew_loop,
}
use bluetape_py.LeaderRedis.Handle.Scoped.{ThreadsBehave}
use bluetape_py.LeaderRedis.Handle.Scope.{enter, exit}
use bluetape_py.LeaderRedis.Handle.Leaves.{Exited, exit-Exited}
use bluetape_py.LeaderRedis.Keys.{ElectionOptions, Texts, text, all_of, validated_redis_options}
use bluetape_py.LeaderRedis.Lock.{Lease}
use bluetape_py.LeaderRedis.Elector.{elected, action_failed, run_scoped}
use bluetape_py.LeaderRedis.Options.{Given, new_options, check_times, check_interval}
use bluetape_py.LeaderRedis.Options.Sound.{Validated, new_options-Validated}

abbrev token : List ℕ
token = codes "abcdefghijklmnopqrstuvwxyz_-0123"

abbrev mine : LeaseRecord
mine = record { owner_token = token; fencing_token = 7 }

abbrev election : ElectionOptions
election = record {
  wait_time = 5000000;
  lease_time = 60000000;
  min_lease_time = 0;
  auto_renew = true;
  renew_interval = some 20000000;
}

abbrev options : Options
options = record { lease_time = microseconds (pos 60000000); min_lease_time = 0; auto_renew = true }

abbrev answer : Call → Reply
answer (acquires owner ttl) = acquired (codes "7")
answer (renews lease ttl) = renewed
answer (probes lease) = held
answer reconciles = present (to_bytes mine)
answer (releases lease ttl) = deleted

abbrev commands : Commands Handle
commands = record {
  evalsha = λ call w. (ok (wire (answer call)), w);
  eval = λ call w. (ok (wire (answer call)), w);
}

abbrev clock : Exec PyError Handle ℕ
clock w = (ok 1000, w)

abbrev threads : Threads Handle
threads = record {
  start = pure tt;
  is_alive = pure false;
  wait_ready = pure true;
  wait_stop = pure true;
  join = pure tt;
}

abbrev here : (h : Handle) → Advances h h
here = Advances-IsRely.here

commands-Behaves : Behaves whole commands clock
commands-Behaves = record {
  evals = λ call. record { at = λ w. here w };
  evalshas = λ call. record { at = λ w. here w };
  ticks = record { at = λ w. here w };
}

threads-Behave : ThreadsBehave whole threads
threads-Behave = record {
  starts = record { at = λ w. (here w, tt) };
  lives = record { at = λ w. (here w, tt) };
  readies = record { at = λ w. (here w, tt) };
  joins = record { at = λ w. (here w, tt) };
}

abbrev lease : Lease Handle
lease = record { commands = commands; mine = mine; options = election; acquired_ns = 0 }

abbrev working : Lease Handle → Exec PyError Handle ℕ
working given = pure 42

abbrev failing : Lease Handle → Exec PyError Handle ℕ
failing given = throw (exception 3)

program : Unit {0}
unfolding same_text number_from valid_fence is_positive are_digits text_le response_parts is_ascii
    is_canonical_fence is_among digits_loop to_bytes new_record is_owner_token all_among split_colon
    parse_record parse_status_response is_allowed parse_reconcile_response new_state
    duration_milliseconds open_block over_release settle_renewal settle_probe finish_release_status
    settle_release settle_found settle_repeat run_script renew is_held release_handle
    reconcile_release stop_worker start_failed start_succeeded start_worker enter exit run_scoped
program = tt

-- an action that returns is reported, and the lease is released
elects : (run_scoped whole clock threads working lease new_state).0 ≡ ok (elected 42 lease)
unfolding program
elects = refl

-- so is one that fails
reports :
    (run_scoped whole clock threads failing lease new_state).0
    ≡ ok (action_failed (exception 3) lease)
unfolding program
reports = refl

releases_at_end : (run_scoped whole clock threads failing lease new_state).1.state ≡ released
unfolding program
releases_at_end = refl

-- a server that has lost the lease
abbrev forgetful : Commands Handle
forgetful = record {
  evalsha = λ call w. (ok (wire not_held), w);
  eval = λ call w. (ok (wire not_held), w);
}

-- and then both are told of
tells_both :
    (exit whole forgetful mine options clock 0 threads
      (some (exception 3))
      (record new_state { state = entered })).0
    ≡ raise (execution_error (exception 3) lease_lost_error)
unfolding program
tells_both = refl

-- the action returns 42, and moves the handle on if it changes it
abbrev Gives42 : Result PyError ℕ → Handle → Handle → Type 0
Gives42 end s t = (end ≡ ok 42) × Advances s t

exit-Exited_example :
    Does whole
      (Ends (Exited (some (interrupt 0))))
      (exit whole commands mine options clock 0 threads (some (interrupt 0)))
exit-Exited_example =
    exit-Exited whole commands mine options clock 0 commands-Behaves threads threads-Behave
      (some (interrupt 0))

release_handle-Release_example :
    Does whole (Ends Release) (release_handle whole commands mine options clock 0 false)
release_handle-Release_example =
    release_handle-Release whole commands mine options clock 0 commands-Behaves false

-- an event that is set when the loop asks for it
abbrev waiting : Threads Handle
waiting = record threads { wait_stop = λ h. (ok h.stop_event, h) }

-- a lease that is not held ends the loop
ends_the_loop :
    (renew_loop whole waiting (renew whole forgetful mine options clock 0 none) 5 new_state).1.state
    ≡ lost
unfolding program renew_loop
ends_the_loop = refl

abbrev plain_texts : Texts
plain_texts = record { is_space = λ c. false; utf8 = λ t. some t; sha256_hex = λ bytes. bytes }

abbrev given : Given
given = record {
  given_wait_time = microseconds (pos 5000000);
  given_lease_time = microseconds (pos 60000000);
  given_min_lease_time = microseconds (pos 0);
  given_auto_renew = some true;
  given_renew_interval = none;
  given_node_id = some (text (codes "node"));
}

new_options-Validated_example :
    Validated (validated_redis_options (λ interval lease_ms. true) election)
unfolding new_options check_times check_interval all_of
new_options-Validated_example =
    new_options-Validated (λ interval lease_ms. true) plain_texts given election refl
