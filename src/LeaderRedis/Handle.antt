-- ===== src/LeaderRedis/Handle.antt =====
-- leader/redis/_lock.py: `_RedisLockLease`, the handle of a lease that was acquired. The handle is one
-- object of the world, and each block under its lock one step of it. What the server is sent, the
-- clock and the threads are parameters.
pub mod Ends
pub mod Blocks
pub mod Settles
pub mod Scoped
pub mod Leaves
pub mod Renewing
pub mod Worker
pub mod Scope
use bluetape_py.Common.{
  ℕ, ◌+◌, ◌-◌, ◌*◌, ◌/◌, Bool, true, false, not, ◌&&◌, ◌||◌, Option, none, some, List, [], ◌∷◌,
  if◌then◌else◌, leb, ltb, ◌==◌,
}
use bluetape_py.Common.Int.{ℤ, pos, negsuc}
use bluetape_py.Common.Texts.{codes, same_text}
use bluetape_py.Common.Exec.{
  Result, ok, raise, Exec, pure, throw, lift, ◌>>=◌, ◌>>◌, try_else, Cell, locked,
}
use bluetape_py.LeaderRedis.Errors.{
  PyError, backend_error, lease_lost_error, release_error, is_no_script, value_error,
  assertion_error, is_uncertain, attempt,
}
use bluetape_py.LeaderRedis.Scripts.{Call, acquires, renews, probes, reconciles, releases}
use bluetape_py.LeaderRedis.Decimal.{decimal}
use bluetape_py.LeaderRedis.Replies.{Value}
use bluetape_py.LeaderRedis.Record.{
  LeaseRecord, to_bytes, parse_status_response, parse_reconcile_response, Found, was_absent,
  was_corrupt, was_present,
}

-- The client's commands: EVALSHA and EVAL of a script.
pub record Commands (W : Type 0) : Type 0 where
  pub evalsha : Call → Exec PyError W Value
  pub eval : Call → Exec PyError W Value

-- A `timedelta` in microseconds, or another object.
pub data Duration : Type 0 where
  microseconds : ℤ → Duration
  object : Duration

-- Those of the options that a handle reads.
pub record Options : Type 0 where
  pub lease_time : Duration
  -- in microseconds, not negative
  pub min_lease_time : ℕ
  pub auto_renew : Bool

pub data State : Type 0 where
  acquired entered lost released unknown : State

pub record Handle : Type 0 where
  pub state : State
  pub failure : Option PyError
  -- whether there is a worker, and `_stop_event` and `_worker_ready`
  pub worker : Bool
  pub stop_event : Bool
  pub worker_ready : Bool

-- `__init__`
unfoldable pub new_state : Handle
new_state = record {
  state = acquired;
  failure = none;
  worker = false;
  stop_event = false;
  worker_ready = true;
}

pub data RenewOutcome : Type 0 where
  renewed not_held : RenewOutcome
  renew_backend_failure : PyError → RenewOutcome

unfoldable pub duration_milliseconds : Duration → Result PyError ℕ
duration_milliseconds object = raise value_error
duration_milliseconds (microseconds (negsuc n)) = raise value_error
duration_milliseconds (microseconds (pos n)) =
    if n / 1000 == 0 then raise value_error else ok (n / 1000)

-- A block under the lock.
abbrev pub Block : Type 0 → Type 0
Block A = Handle → Result PyError A × Handle

abbrev pub failure_of : Option PyError → PyError
failure_of none = assertion_error
failure_of (some e) = e

module _ {A : Type 0} where
  -- `_fail_unknown`
  abbrev pub fail_unknown : PyError → Block A
  fail_unknown e h = (raise e, record h { state = unknown; failure = some e })

  -- `_raise_if_unknown`, then what is done of a handle that is lost or released, and of another
  abbrev pub open_state : State → Block A → Block A → Block A
  open_state unknown over live h = (raise (failure_of h.failure), h)
  open_state lost over live h = over h
  open_state released over live h = over h
  open_state acquired over live h = live h
  open_state entered over live h = live h

  unfoldable pub open_block : Block A → Block A → Block A
  open_block over live h = open_state h.state over live h

  abbrev pub returning : A → Block A
  returning a h = (ok a, h)

  abbrev pub to_lost : PyError → Block A
  to_lost e h = (raise e, record h { state = lost })

abbrev pub is_released : State → Bool
is_released released = true
is_released _ = false

-- the end of `_finish_terminal_release`
unfoldable pub over_release : {A : Type 0} → Bool → A → Block A
over_release scoped done h =
    if scoped && is_released h.state
    then (ok done, h)
    else (raise (if scoped then lease_lost_error else release_error), h)

unfoldable pub settle_renewal : Result PyError (List ℕ) → Block RenewOutcome
settle_renewal (raise e) h = (
  ok (renew_backend_failure backend_error),
  record h { state = unknown; failure = some backend_error },
)
settle_renewal (ok status) h =
    if same_text status (codes "RENEWED")
    then (ok renewed, h)
    else if same_text status (codes "NOT_HELD")
    then (ok not_held, record h { state = lost })
    else (
      ok (renew_backend_failure backend_error),
      record h { state = unknown; failure = some backend_error },
    )

unfoldable pub settle_probe : Result PyError (List ℕ) → Block Bool
settle_probe (raise e) h = fail_unknown backend_error h
settle_probe (ok status) h =
    if same_text status (codes "HELD")
    then (ok true, h)
    else if same_text status (codes "NOT_HELD")
    then (ok false, record h { state = lost })
    else fail_unknown backend_error h

-- `_finish_release_status`
unfoldable pub finish_release_status : List ℕ → Bool → Block (Unit {0})
finish_release_status status scoped h =
    if same_text status (codes "DELETED") || same_text status (codes "MIN_TTL_APPLIED")
    then (ok tt, record h { state = released })
    else if same_text status (codes "NOT_HELD")
    then to_lost (if scoped then lease_lost_error else release_error) h
    else fail_unknown backend_error h

unfoldable pub settle_release : Result PyError (List ℕ) → Bool → Block (Unit {0})
settle_release (raise e) scoped h = fail_unknown backend_error h
settle_release (ok status) scoped h = finish_release_status status scoped h

unfoldable pub settle_found : LeaseRecord → Result PyError Found → Bool → Block Bool
settle_found mine (raise e) scoped h = fail_unknown backend_error h
settle_found mine (ok was_absent) scoped h = fail_unknown release_error h
settle_found mine (ok was_corrupt) scoped h = fail_unknown backend_error h
settle_found mine (ok (was_present r)) scoped h =
    if not (same_text r.owner_token mine.owner_token)
    then to_lost (if scoped then lease_lost_error else release_error) h
    else (ok false, h)

unfoldable pub settle_repeat : Result PyError (List ℕ) → Bool → Block (Unit {0})
settle_repeat (raise e) scoped h =
    fail_unknown (if is_uncertain e then release_error else backend_error) h
settle_repeat (ok status) scoped h = finish_release_status status scoped h

module _ {W : Type 0} (commands : Commands W) where
  -- `_run_script`; what a handle sends passes `_validate_dispatch`
  unfoldable pub run_script : Call → Exec PyError W Value
  run_script call =
      try_else (commands.evalsha call) (λ e. if is_no_script e then commands.eval call else throw e)
        pure

abbrev pub parsed : {A : Type 0} → Option A → Result PyError A
parsed none = raise value_error
parsed (some a) = ok a

module _ {W : Type 0} (cell : Cell W Handle) where
  abbrev pub block : {A : Type 0} → Block A → Exec PyError W A
  block f = do r ← locked cell f; lift r

module _ {W : Type 0} (cell : Cell W Handle) (commands : Commands W) (mine : LeaseRecord)
    (options : Options) (monotonic_ns : Exec PyError W ℕ) (acquired_ns : ℕ) where
  -- the run of a script, and the status that it replies
  abbrev pub status_from : Call → List (List ℕ) → Exec PyError W (List ℕ)
  status_from call allowed = do
    raw ← run_script commands call
    lift (parsed (parse_status_response raw allowed))

  abbrev pub duration_or : Option Duration → Duration
  duration_or none = options.lease_time
  duration_or (some d) = d

  -- the rest of `renew` for a handle that was not over
  abbrev pub renew_open : Option Duration → Exec PyError W RenewOutcome
  renew_open lease_time = do
    ttl_ms ← lift (duration_milliseconds (duration_or lease_time))
    status ← attempt (
        status_from (renews (to_bytes mine) (decimal ttl_ms))
          (codes "RENEWED" ∷ codes "NOT_HELD" ∷ codes "CORRUPT" ∷ []))
    block cell (open_block (returning not_held) (settle_renewal status))

  unfoldable pub renew : Option Duration → Exec PyError W RenewOutcome
  renew lease_time = do
    over ← block cell (open_block (returning true) (returning false))
    if over then pure not_held else renew_open lease_time

  abbrev pub probe_open : Exec PyError W Bool
  probe_open = do
    status ← attempt (
        status_from (probes (to_bytes mine))
          (codes "HELD" ∷ codes "NOT_HELD" ∷ codes "CORRUPT" ∷ []))
    block cell (open_block (returning false) (settle_probe status))

  unfoldable pub is_held : Exec PyError W Bool
  is_held = do
    over ← block cell (open_block (returning true) (returning false))
    if over then pure false else probe_open

  unfoldable pub assert_held : Exec PyError W (Unit {0})
  assert_held = do held ← is_held; if held then pure tt else throw lease_lost_error

  -- `_remaining_minimum_ms`: nanoseconds rounded up to milliseconds
  abbrev pub remaining_minimum_ms : ℕ → ℕ
  remaining_minimum_ms now =
      let until = options.min_lease_time * 1000 + acquired_ns in
      if leb until now then 0 else (until - now + 999999) / 1000000

  -- `_dispatch_release`
  abbrev pub dispatch_release : Exec PyError W (List ℕ)
  dispatch_release = do
    now ← monotonic_ns
    status_from (releases (to_bytes mine) (decimal (remaining_minimum_ms now)))
        (codes "DELETED" ∷ codes "MIN_TTL_APPLIED" ∷ codes "NOT_HELD" ∷ codes "CORRUPT" ∷ [])

  abbrev pub reconcile : Exec PyError W Found
  reconcile = do raw ← commands.eval reconciles; lift (parsed (parse_reconcile_response raw))

  -- the second release of `_reconcile_release`
  abbrev pub repeat_release : Bool → Exec PyError W (Unit {0})
  repeat_release scoped = do
    status ← attempt dispatch_release
    block cell (open_block (over_release scoped tt) (settle_repeat status scoped))

  -- `_reconcile_release`
  unfoldable pub reconcile_release : Bool → Exec PyError W (Unit {0})
  reconcile_release scoped = do
    found ← attempt reconcile
    done ← block cell (open_block (over_release scoped true) (settle_found mine found scoped))
    if done then pure tt else repeat_release scoped

  abbrev pub is_uncertain_result : Result PyError (List ℕ) → Bool
  is_uncertain_result (ok status) = false
  is_uncertain_result (raise e) = is_uncertain e

  -- the rest of `_release` for a handle that was not over
  abbrev pub release_open : Bool → Exec PyError W (Unit {0})
  release_open scoped = do
    status ← attempt dispatch_release
    if is_uncertain_result status
        then reconcile_release scoped
        else block cell (open_block (over_release scoped tt) (settle_release status scoped))

  -- `_release`
  unfoldable pub release_handle : Bool → Exec PyError W (Unit {0})
  release_handle scoped = do
    done ← block cell (open_block (over_release scoped true) (returning false))
    if done then pure tt else release_open scoped
