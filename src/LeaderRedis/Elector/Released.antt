-- ===== src/LeaderRedis/Elector/Released.antt =====
-- An elector runs its action between the enter and the exit of the scope of a lease.
use bluetape_py.Common.{ℕ, ◌≤◌, ◌≡◌, true}
use bluetape_py.Common.Exec.{Result, ok, raise, Exec, Cell}
use bluetape_py.Common.Does.{Does}
use bluetape_py.LeaderRedis.Errors.{PyError, is_exception}
use bluetape_py.LeaderRedis.Lock.{Lease}
use bluetape_py.LeaderRedis.Handle.{Handle, acquired, released}
use bluetape_py.LeaderRedis.Handle.Ends.{rank, Advances, Ends}
use bluetape_py.LeaderRedis.Handle.Settles.{Behaves}
use bluetape_py.LeaderRedis.Handle.Scoped.{ThreadsBehave}
use bluetape_py.LeaderRedis.Handle.Worker.{Threads}
use bluetape_py.LeaderRedis.Elector.{RunResult, elected, action_failed}

module _ {W T : Type 0} (lease : Lease W) where
  -- What is reported of an action that ended so, and the handle in the end.
  abbrev pub Reported : Result PyError (RunResult W T) → Result PyError T → Handle → Type 0
  Reported (ok result) (ok value) u = (result ≡ elected value lease) × (u.state ≡ released)
  Reported (ok result) (raise e) u =
      (is_exception e ≡ true) × (result ≡ action_failed e lease) × (u.state ≡ released)
  Reported (raise f) end u = 1 ≤ rank u.state

  -- A scoped run from the handle `s` to `u`, of an action that does `R`.
  pub data Ran (R : Result PyError T → Handle → Handle → Type 0)
      (r : Result PyError (RunResult W T)) (s u : Handle) : Type 0 where
    -- the scope was not entered, and the action not run
    refused : (e : PyError) → r ≡ raise e → Advances s u → 1 ≤ rank u.state → Ran R r s u
    -- it was entered, the action ran from `t` to `t'`, and then the scope was left
    ran :
        (t : Handle) (end : Result PyError T) (t' : Handle)
        → s.state ≡ acquired
        → Advances s t
        → 1 ≤ rank t.state
        → R end t t'
        → Advances t' u
        → Reported r end u
        → Ran R r s u

module _ {W T : Type 0} (cell : Cell W Handle) (monotonic_ns : Exec PyError W ℕ)
    (threads : Threads W) (action : Lease W → Exec PyError W T) (lease : Lease W)
    (behaves : Behaves cell lease.commands monotonic_ns) (behave : ThreadsBehave cell threads)
    (R : Result PyError T → Handle → Handle → Type 0)
    (onward : (end : Result PyError T) (s t : Handle) → R end s t → Advances s t)
    (acts : Does cell R (action lease)) where
  -- how the body of the `with` ended, by how the action did
  abbrev Tried : Result PyError (Result PyError (Result PyError T)) → Handle → Handle → Type 0
  Tried (ok (ok (ok value))) s u = R (ok value) s u
  Tried (ok (ok (raise e))) s u = (is_exception e ≡ true) × R (raise e) s u
  Tried (ok (raise e)) s u = R (raise e) s u
  Tried (raise e) s u = ⊥

  abbrev Told : Result PyError (RunResult W T) → Result PyError (Result PyError T) → Handle → Type 0
  Told (ok result) (ok (ok value)) u = (result ≡ elected value lease) × (u.state ≡ released)
  Told (ok result) (ok (raise e)) u = (result ≡ action_failed e lease) × (u.state ≡ released)
  Told (ok result) (raise e) u = ⊥
  Told (raise f) body u = 1 ≤ rank u.state

  -- what a scope that failed comes to
  abbrev Failed : Result PyError (Unit {0}) → Handle → Type 0
  Failed (ok x) u = u.state ≡ released
  Failed (raise e) u = Unit

  -- the run of the body and the exit, once the scope was entered
  pub data Body (r : Result PyError (RunResult W T)) (t u : Handle) : Type 0 where
    went_on :
        (end : Result PyError T) (t' : Handle)
        → R end t t'
        → Advances t' u
        → Reported lease r end u
        → Body r t u
