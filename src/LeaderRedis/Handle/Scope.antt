-- ===== src/LeaderRedis/Handle/Scope.antt =====
-- leader/redis/_lock.py: `release`, `__enter__` and `__exit__` of a handle.
use bluetape_py.Common.{ℕ, true, false, Option, none, some, if◌then◌else◌}
use bluetape_py.Common.Exec.{ok, raise, Exec, pure, throw, ◌>>=◌, ◌>>◌, Cell}
use bluetape_py.LeaderRedis.Errors.{
  PyError, lease_lost_error, execution_error, is_interrupt, is_exception, leader_error_of,
}
use bluetape_py.LeaderRedis.Record.{LeaseRecord}
use bluetape_py.LeaderRedis.Handle.{
  Handle, State, acquired, entered, Commands, Options, Block, open_block, block, RenewOutcome,
  renewed, not_held, renew_backend_failure, renew, is_held, release_handle,
}
use bluetape_py.LeaderRedis.Handle.Worker.{Threads, stop_worker, start_worker}

abbrev pub enter_live : State → Block (Unit {0})
enter_live acquired h = (ok tt, record h { state = entered })
enter_live _ h = (raise lease_lost_error, h)

-- the first block of `__enter__`
abbrev pub enter_block : Block (Unit {0})
enter_block = open_block (λ h. (raise lease_lost_error, h)) (λ h. enter_live h.state h)

module _ {W : Type 0} (cell : Cell W Handle) (commands : Commands W) (mine : LeaseRecord)
    (options : Options) (monotonic_ns : Exec PyError W ℕ) (acquired_ns : ℕ)
    (threads : Threads W) where
  abbrev pub release_scoped : Exec PyError W (Unit {0})
  release_scoped = release_handle cell commands mine options monotonic_ns acquired_ns true

  unfoldable pub release : Exec PyError W (Unit {0})
  release = do
    stop_worker cell threads
    release_handle cell commands mine options monotonic_ns acquired_ns false

  abbrev pub after_renewal : RenewOutcome → Exec PyError W (Unit {0})
  after_renewal renewed = start_worker cell threads release_scoped
  after_renewal not_held = throw lease_lost_error
  after_renewal (renew_backend_failure cause) = throw cause

  abbrev pub renewed_enter : Exec PyError W (Unit {0})
  renewed_enter = do
    outcome ← renew cell commands mine options monotonic_ns acquired_ns none
    after_renewal outcome

  abbrev pub probed_enter : Exec PyError W (Unit {0})
  probed_enter = do
    held ← is_held cell commands mine options monotonic_ns acquired_ns
    if held then pure tt else throw lease_lost_error

  -- `__enter__`
  unfoldable pub enter : Exec PyError W (Unit {0})
  enter = do block cell enter_block; if options.auto_renew then renewed_enter else probed_enter

  abbrev pub reraise : Option PyError → Option PyError → Exec PyError W (Unit {0})
  reraise exc none = pure tt
  reraise none (some failure) = throw failure
  reraise (some exc) (some failure) =
      if is_interrupt exc
      then pure tt
      else if is_exception exc
      then throw (execution_error exc failure)
      else throw failure

  -- `__exit__`; to return is to let `exc` go on
  unfoldable pub exit : Option PyError → Exec PyError W (Unit {0})
  exit exc = do
    lifecycle_failure ← leader_error_of (do stop_worker cell threads; release_scoped)
    reraise exc lifecycle_failure
