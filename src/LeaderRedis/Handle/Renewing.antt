-- ===== src/LeaderRedis/Handle/Renewing.antt =====
-- The thread that renews a lease keeps to what the theorems on the handle take of others.
use bluetape_py.Common.{◌≡◌, Bool, true, false}
use bluetape_py.Common.Exec.{Result, ok, raise, Exec, ◌>>=◌, ◌>>◌}
use bluetape_py.Common.Does.{Does}
use bluetape_py.LeaderRedis.Errors.{PyError, is_leader_error}
use bluetape_py.LeaderRedis.Handle.{Handle}
use bluetape_py.LeaderRedis.Handle.Ends.{Ends}

-- The loop of a worker ends with the stop event set, and raises no LeaderError.
abbrev pub Worked : Result PyError Bool → Handle → Type 0
Worked (ok true) u = u.stop_event ≡ true
Worked (ok false) u = Unit
Worked (raise e) u = is_leader_error e ≡ false

abbrev Always : {A : Type 0} → Result PyError A → Handle → Type 0
Always (ok a) u = Unit
Always (raise e) u = ⊥

abbrev Stopped : Result PyError (Unit {0}) → Handle → Type 0
Stopped (ok x) u = u.stop_event ≡ true
Stopped (raise e) u = ⊥
