-- ===== src/LeaderRedis/Elector.antt =====
-- leader/redis/_elector.py: `RedisLeaderElector`.
pub mod Released
mod Examples
use bluetape_py.Common.{ℕ, Bool, true, false, Option, none, some, if◌then◌else◌}
use bluetape_py.Common.Exec.{
  Result, ok, raise, Exec, pure, throw, lift, ◌>>=◌, ◌>>◌, try_else, Cell,
}
use bluetape_py.LeaderRedis.Errors.{PyError, execution_error, is_leader_error, attempt, attempt_all}
use bluetape_py.LeaderRedis.Handle.{Handle, Commands}
use bluetape_py.LeaderRedis.Handle.Worker.{Threads}
use bluetape_py.LeaderRedis.Handle.Scope.{enter, exit}
use bluetape_py.LeaderRedis.Keys.{Name, ElectionOptions, handle_options}
use bluetape_py.LeaderRedis.Lock.{Lease, Lock, try_acquire}

pub data RunResult (W T : Type 0) : Type 0 where
  elected : (value : T) (lease : Lease W) → RunResult W T
  skipped : RunResult W T
  action_failed : (cause : PyError) (lease : Lease W) → RunResult W T

module _ {W T : Type 0} (cell : Cell W Handle) (monotonic_ns : Exec PyError W ℕ)
    (threads : Threads W) (action : Lease W → Exec PyError W T) where
  abbrev pub leave : Lease W → Option PyError → Exec PyError W (Unit {0})
  leave lease exc =
      exit cell lease.commands lease.mine (handle_options lease.options) monotonic_ns
        lease.acquired_ns threads exc

  -- what follows the body of the `with`, in terms of how it ended
  abbrev pub after_body :
      Lease W → Result PyError (Result PyError T) → Exec PyError W (RunResult W T)
  after_body lease (ok (ok value)) = do leave lease none; pure (elected value lease)
  after_body lease (ok (raise caught)) = do
    try_else (leave lease none)
        (λ e. throw (if is_leader_error e then execution_error caught e else e)) pure
    pure (action_failed caught lease)
  after_body lease (raise e) = do leave lease (some e); throw e

  -- the `with` of `run_if_leader_result`
  unfoldable pub run_scoped : Lease W → Exec PyError W (RunResult W T)
  run_scoped lease = do
    enter cell lease.commands lease.mine (handle_options lease.options) monotonic_ns
        lease.acquired_ns threads
    body ← attempt_all (attempt (action lease))
    after_body lease body

module _ {W T : Type 0} (cell : Cell W Handle) (lock : Lock W) (threads : Threads W)
    (action : Lease W → Exec PyError W T) where
  abbrev pub after_acquire : Option (Option (Lease W)) → Exec PyError W (Option (RunResult W T))
  after_acquire none = pure none
  after_acquire (some none) = pure (some skipped)
  after_acquire (some (some lease)) = do
    r ← run_scoped cell lock.monotonic_ns threads action lease
    pure (some r)

  -- `run_if_leader_result`; none is that the rounds were not enough
  unfoldable pub run_if_leader_result :
      ℕ → Name → ElectionOptions → Exec PyError W (Option (RunResult W T))
  run_if_leader_result fuel lock_name options =
      try_acquire cell lock fuel lock_name options >>= after_acquire

  abbrev pub value_of : Option (RunResult W T) → Exec PyError W (Option (Option T))
  value_of none = pure none
  value_of (some skipped) = pure (some none)
  value_of (some (action_failed cause lease)) = throw cause
  value_of (some (elected value lease)) = pure (some (some value))

  -- `run_if_leader`
  unfoldable pub run_if_leader : ℕ → Name → ElectionOptions → Exec PyError W (Option (Option T))
  run_if_leader fuel lock_name options = run_if_leader_result fuel lock_name options >>= value_of
