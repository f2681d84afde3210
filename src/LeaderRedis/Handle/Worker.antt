-- ===== src/LeaderRedis/Handle/Worker.antt =====
-- leader/redis/_lock.py: the thread that renews a lease, `_start_worker`, `_stop_worker`, `_renew_loop`.
use bluetape_py.Common.{ℕ, zero, suc, Bool, true, false, not, Option, none, some, if◌then◌else◌}
use bluetape_py.Common.Exec.{ok, Exec, pure, throw, ◌>>=◌, ◌>>◌, try_else, Cell}
use bluetape_py.LeaderRedis.Errors.{
  PyError, backend_error, lease_lost_error, is_interrupt, leader_error_of,
}
use bluetape_py.LeaderRedis.Handle.{
  Handle, State, acquired, entered, unknown, Block, open_block, fail_unknown, returning, block,
  RenewOutcome, renewed,
}

-- Python's threads: `worker.start()`, `worker.is_alive()`, the waits on `_worker_ready` and on
-- `_stop_event`, which tell whether the event was set, and `worker.join(...)`.
pub record Threads (W : Type 0) : Type 0 where
  pub start : Exec PyError W (Unit {0})
  pub is_alive : Exec PyError W Bool
  pub wait_ready : Exec PyError W Bool
  pub wait_stop : Exec PyError W Bool
  pub join : Exec PyError W (Unit {0})

abbrev pub is_unknown : State → Bool
is_unknown unknown = true
is_unknown _ = false

-- LOST, RELEASED or UNKNOWN
abbrev pub is_terminal : State → Bool
is_terminal acquired = false
is_terminal entered = false
is_terminal _ = true

-- `_raise_if_unknown` and `_fail_unknown`
abbrev pub give_up : Block (Unit {0})
give_up = open_block (fail_unknown backend_error) (fail_unknown backend_error)

-- what the loop does when a renewal raises
abbrev pub note_failure : Block (Unit {0})
note_failure h = (
  ok tt,
  if is_unknown h.state then h else record h { state = unknown; failure = some backend_error },
)

abbrev pub set_worker : Bool → Block (Unit {0})
set_worker b h = (ok tt, record h { worker = b })

abbrev pub set_ready : Bool → Block (Unit {0})
set_ready b h = (ok tt, record h { worker_ready = b })

abbrev pub set_stop : Block (Unit {0})
set_stop h = (ok tt, record h { stop_event = true })

abbrev pub new_worker : Block (Unit {0})
new_worker h = (ok tt, record h { worker = true; worker_ready = false })

abbrev pub terminal_block : Block Bool
terminal_block h = (ok (is_terminal h.state), record h { worker_ready = true })

abbrev pub not_started : Bool → Block (Unit {0})
not_started started h =
    (ok tt, record h { worker_ready = true; worker = if started then h.worker else false })

abbrev pub get_worker : Block Bool
get_worker h = (ok h.worker, h)

module _ {W : Type 0} (cell : Cell W Handle) (threads : Threads W) where
  abbrev pub join_worker : Exec PyError W (Unit {0})
  join_worker = do
    threads.join
    alive ← threads.is_alive
    if alive then block cell give_up else pure tt
    block cell (set_worker false)

  -- `_stop_worker`
  unfoldable pub stop_worker : Exec PyError W (Unit {0})
  stop_worker = do
    working ← block cell get_worker
    if not working then pure tt else do
      block cell set_stop
      ready ← threads.wait_ready
      if ready then pure tt else block cell give_up
      still ← block cell get_worker
      if still then join_worker else pure tt

  module _ (release_scoped : Exec PyError W (Unit {0})) where
    abbrev pub after_cleanup : PyError → Option PyError → Exec PyError W (Unit {0})
    after_cleanup start_failure none =
        throw (if is_interrupt start_failure then start_failure else backend_error)
    after_cleanup start_failure (some lifecycle_failure) =
        throw (if is_interrupt start_failure then start_failure else lifecycle_failure)

    -- the part of `_start_worker` after a start that raised
    unfoldable pub start_failed : PyError → Exec PyError W (Unit {0})
    start_failed start_failure = do
      started ← threads.is_alive
      block cell (not_started started)
      lifecycle_failure ←
          leader_error_of (do if started then stop_worker else pure tt; release_scoped)
      after_cleanup start_failure lifecycle_failure

    unfoldable pub start_succeeded : Exec PyError W (Unit {0})
    start_succeeded = do
      terminal ← block cell terminal_block
      if not terminal then pure tt else do
        stop_worker
        block cell (open_block (returning tt) (returning tt))
        throw lease_lost_error

    -- `_start_worker`
    unfoldable pub start_worker : Exec PyError W (Unit {0})
    start_worker = do
      block cell new_worker
      try_else threads.start start_failed (λ x. start_succeeded)

  module _ (renew : Exec PyError W RenewOutcome) where
    abbrev pub is_over : RenewOutcome → Bool
    is_over renewed = false
    is_over _ = true

    abbrev pub renewal_failed : PyError → Exec PyError W Bool
    renewal_failed e = do block cell note_failure; block cell set_stop; pure true

    abbrev pub renewal_done : RenewOutcome → Exec PyError W Bool
    renewal_done outcome =
        if is_over outcome then (do block cell set_stop; pure true) else pure false

    -- `_renew_loop`, for so many rounds: whether it has ended
    unfoldable pub renew_loop : ℕ → Exec PyError W Bool
    renew_loop zero = pure false
    renew_loop (suc fuel) = do
      stopped ← threads.wait_stop
      if stopped then pure true else do
        over ← try_else renew renewal_failed renewal_done
        let rest = renew_loop fuel in if over then pure true else rest
