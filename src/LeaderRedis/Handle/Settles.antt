-- ===== src/LeaderRedis/Handle/Settles.antt =====
-- How a renewal, a probe and a release leave the handle.
use bluetape_py.Common.{
  ℕ, ◌≤◌, ◌≡◌, Bool, true, false, ◌⊎◌, Option, List, if◌then◌else◌, Bool-cases, inl, inr,
}
use bluetape_py.Common.Exec.{Result, ok, raise, Exec, pure, throw, lift, ◌>>=◌, Cell}
use bluetape_py.Common.Acts.{Acts, Acts-pure, Acts-throw, Acts-lift, Acts-bind, Acts-try, Acts-if}
use bluetape_py.Common.Does.{Does}
use bluetape_py.LeaderRedis.Errors.{PyError, is_no_script, is_exception, attempt}
use bluetape_py.LeaderRedis.Scripts.{Call, reconciles}
use bluetape_py.LeaderRedis.Record.{LeaseRecord}
use bluetape_py.LeaderRedis.Handle.{
  Handle, Commands, Options, duration_milliseconds, Block, block, open_block, over_release,
  returning, not_held, settle_renewal, settle_probe, settle_release, settle_found, settle_repeat,
  run_script, status_from, dispatch_release, reconcile, renew, is_held, renew_open, probe_open,
  repeat_release, release_open, is_uncertain_result, duration_or, Duration, reconcile_release,
  release_handle,
}
use bluetape_py.LeaderRedis.Handle.Ends.{
  rank, Advances, Advances-IsRely, Ends, Any, Good, Raises, Ends-bind, Ends-try, Ends-anyhow,
  Ends-pure, Ends-block, open_block-Good,
}
use bluetape_py.LeaderRedis.Handle.Blocks.{
  Looked, Renewal, Probe, Release, Caught, Caught-Raises, over_by_rank, over_by_failure,
  look-Looked, Lasts, duration-Lasts, settle_renewal-Good, settle_probe-Good, settle_release-Good,
  settle_repeat-Good, Done, settle_found-Good, over_release-Good, over_release-Done,
}

module _ {W : Type 0} (cell : Cell W Handle) where
  attempt-Caught :
      {A : Type 0} (m : Exec PyError W A)
      → Acts cell Advances m
      → Does cell (Ends Caught) (attempt m)
  attempt-Caught m h =
      Ends-try Any m _ _ (record { at = λ w. (h.at w, tt) })
        (λ e. by_class e (Bool-cases (is_exception e)))
        (λ a. record { at = λ w u. (Advances-IsRely.here _, tt) })
    where
      by_class :
          {A : Type 0} (e : PyError)
          → (is_exception e ≡ true) ⊎ (is_exception e ≡ false)
          → Does cell
              (λ r s u. Unit → Ends Caught r s u)
              (if is_exception e then pure {A = Result PyError A} (raise e) else throw e)
      by_class e (inl b) = rw b (record { at = λ w u. (Advances-IsRely.here _, tt) })
      by_class e (inr b) = rw b (record { at = λ w u. (Advances-IsRely.here _, b) })

  -- The commands, the clock, and all others meanwhile change the handle as its own operations may.
  pub record Behaves (commands : Commands W) (monotonic_ns : Exec PyError W ℕ) : Type 0 where
    pub evals : (call : Call) → Acts cell Advances (commands.eval call)
    pub evalshas : (call : Call) → Acts cell Advances (commands.evalsha call)
    pub ticks : Acts cell Advances monotonic_ns

  module _ (commands : Commands W) (mine : LeaseRecord) (options : Options)
      (monotonic_ns : Exec PyError W ℕ) (acquired_ns : ℕ)
      (behaves : Behaves commands monotonic_ns) where
    abbrev after : (s t u : Handle) → Advances s t → Advances t u → Advances s u
    after = Advances-IsRely.after

    run_script-Acts : (call : Call) → Acts cell Advances (run_script commands call)
    unfolding run_script
    run_script-Acts call =
        Acts-try Advances-IsRely after (commands.evalsha call)
          (λ e. if is_no_script e then commands.eval call else throw e) pure (behaves.evalshas call)
          (λ e.
            Acts-if Advances-IsRely (is_no_script e) _ _ (behaves.evals call)
              (Acts-throw Advances-IsRely e))
          (λ a. Acts-pure Advances-IsRely a)

    status_from-Acts :
        (call : Call) (allowed : List (List ℕ))
        → Acts cell Advances
            (status_from cell commands mine options monotonic_ns acquired_ns call allowed)
    status_from-Acts call allowed =
        Acts-bind Advances-IsRely after (run_script commands call) _ (run_script-Acts call)
          (λ raw. Acts-lift Advances-IsRely _)

    dispatch_release-Acts :
        Acts cell Advances (dispatch_release cell commands mine options monotonic_ns acquired_ns)
    dispatch_release-Acts =
        Acts-bind Advances-IsRely after monotonic_ns _ behaves.ticks (λ now. status_from-Acts _ _)

    reconcile-Acts :
        Acts cell Advances (reconcile cell commands mine options monotonic_ns acquired_ns)
    reconcile-Acts =
        Acts-bind Advances-IsRely after (commands.eval reconciles) _ (behaves.evals reconciles)
          (λ raw. Acts-lift Advances-IsRely _)

    look : Does cell (Ends Looked) (block cell (open_block (returning true) (returning false)))
    look = Ends-block _ look-Looked

    -- an `attempt`, then a block
    attempted :
        {A B : Type 0} {F : Result PyError B → Handle → Type 0} (m : Exec PyError W A)
        (f : Result PyError A → Block B)
        → Acts cell Advances m
        → ((e : PyError) (u : Handle) → Raises e u → F (raise e) u)
        → ((r : Result PyError A) (h : Handle) → Good F (f r) h)
        → Does cell (Ends F) (do r ← attempt m; block cell (f r))
    attempted m f hm weak good =
        Ends-bind Caught (λ e u p. weak e u (Caught-Raises e u p)) (attempt m)
          (λ r. block cell (f r)) (attempt-Caught m hm) λ r. Ends-anyhow (Ends-block (f r) (good r))

    probe_open-Probe :
        Does cell (Ends Probe) (probe_open cell commands mine options monotonic_ns acquired_ns)
    probe_open-Probe =
        attempted _ (λ status. open_block (returning false) (settle_probe status))
          (status_from-Acts _ _) (λ e u p. p)
          λ status h.
            open_block-Good Probe (returning false) (settle_probe status) h
              (λ e. (Advances-IsRely.here h, over_by_rank h e)) (settle_probe-Good status h)
              (λ e u k. over_by_failure h u)

    -- A `LeaderError` is all that a probe raises of its own, and then the handle is lost, released or
    -- unknown; so it is when the probe says that the lease is not held.
    pub is_held-Probe :
        Does cell (Ends Probe) (is_held cell commands mine options monotonic_ns acquired_ns)
    unfolding is_held
    is_held-Probe =
        Ends-bind Looked (λ e u p. p) (block cell (open_block (returning true) (returning false))) _
          look λ over. by_look over
      where
        by_look :
            (over : Bool)
            → Does cell
                (λ r s u. Looked (ok over) s → Ends Probe r s u)
                (if over
                  then pure false
                  else probe_open cell commands mine options monotonic_ns acquired_ns)
        by_look true = Ends-pure false
        by_look false = Ends-anyhow probe_open-Probe

    renew_open-Renewal :
        (lease_time : Option Duration)
        → Does cell
            (Ends Renewal)
            (renew_open cell commands mine options monotonic_ns acquired_ns lease_time)
    renew_open-Renewal lease_time =
        Ends-bind Lasts (λ e u p. p)
          (lift (
            duration_milliseconds
              (duration_or cell commands mine options monotonic_ns acquired_ns lease_time)))
          _
          (record {
            at = λ w. (
              Advances-IsRely.here _,
              duration-Lasts
                  (duration_or cell commands mine options monotonic_ns acquired_ns lease_time)
                  (cell.read w),
            );
          })
          λ ttl_ms. Ends-anyhow (
            attempted _ (λ status. open_block (returning not_held) (settle_renewal status))
              (status_from-Acts _ _) (λ e u p. p)
              λ status h.
                open_block-Good Renewal (returning not_held) (settle_renewal status) h
                  (λ e. (Advances-IsRely.here h, over_by_rank h e)) (settle_renewal-Good status h)
                  (λ e u k. over_by_failure h u))

    pub renew-Renewal :
        (lease_time : Option Duration)
        → Does cell
            (Ends Renewal)
            (renew cell commands mine options monotonic_ns acquired_ns lease_time)
    unfolding renew
    renew-Renewal lease_time =
        Ends-bind Looked (λ e u p. p) (block cell (open_block (returning true) (returning false))) _
          look λ over. by_look over
      where
        by_look :
            (over : Bool)
            → Does cell
                (λ r s u. Looked (ok over) s → Ends Renewal r s u)
                (if over
                  then pure not_held
                  else renew_open cell commands mine options monotonic_ns acquired_ns lease_time)
        by_look true = Ends-pure not_held
        by_look false = Ends-anyhow (renew_open-Renewal lease_time)

    settled_with :
        (scoped : Bool) (f : Block (Unit {0}))
        → ((h : Handle) → rank h.state ≤ 1 → Good Release f h)
        → (h : Handle) → Good Release (open_block (over_release scoped tt) f) h
    settled_with scoped f good h =
        open_block-Good Release (over_release scoped tt) f h (over_release-Good scoped h) (good h)
          (λ e u k. over_by_failure h u)

    terminal_or :
        (scoped : Bool) (f : Block Bool)
        → ((h : Handle) → rank h.state ≤ 1 → Good Done f h)
        → (h : Handle) → Good Done (open_block (over_release scoped true) f) h
    terminal_or scoped f good h =
        open_block-Good Done (over_release scoped true) f h (over_release-Done scoped h) (good h)
          (λ e u k. over_by_failure h u)

    -- nothing is left to do, or the rest of a release
    unless_terminal :
        (done : Bool) (rest : Exec PyError W (Unit {0}))
        → Does cell (Ends Release) rest
        → Does cell
            (λ r s u. Done (ok done) s → Ends Release r s u)
            (if done then pure tt else rest)
    unless_terminal true rest h = Ends-pure tt
    unless_terminal false rest h = Ends-anyhow h

    repeat_release-Release :
        (scoped : Bool)
        → Does cell
            (Ends Release)
            (repeat_release cell commands mine options monotonic_ns acquired_ns scoped)
    repeat_release-Release scoped =
        attempted _ (λ status. open_block (over_release scoped tt) (settle_repeat status scoped))
          dispatch_release-Acts (λ e u p. p)
          λ status.
            settled_with scoped (settle_repeat status scoped) (settle_repeat-Good status scoped)

    reconcile_release-Release :
        (scoped : Bool)
        → Does cell
            (Ends Release)
            (reconcile_release cell commands mine options monotonic_ns acquired_ns scoped)
    unfolding reconcile_release
    reconcile_release-Release scoped =
        Ends-bind Caught Caught-Raises
          (attempt (reconcile cell commands mine options monotonic_ns acquired_ns)) _
          (attempt-Caught _ reconcile-Acts)
          λ found. Ends-anyhow (
            Ends-bind Done (λ e u p. p)
              (block cell (open_block (over_release scoped true) (settle_found mine found scoped)))
              _
              (Ends-block _ (
                terminal_or scoped (settle_found mine found scoped)
                  (settle_found-Good mine found scoped)))
              λ done. unless_terminal done _ (repeat_release-Release scoped))

    release_open-Release :
        (scoped : Bool)
        → Does cell
            (Ends Release)
            (release_open cell commands mine options monotonic_ns acquired_ns scoped)
    release_open-Release scoped =
        Ends-bind Caught Caught-Raises
          (attempt (dispatch_release cell commands mine options monotonic_ns acquired_ns)) _
          (attempt-Caught _ dispatch_release-Acts) λ status. Ends-anyhow (by_status status)
      where
        by_status :
            (status : Result PyError (List ℕ))
            → Does cell (Ends Release) (
                if is_uncertain_result cell commands mine options monotonic_ns acquired_ns status
                then reconcile_release cell commands mine options monotonic_ns acquired_ns scoped
                else block cell
                    (open_block (over_release scoped tt) (settle_release status scoped)))
        by_status status =
            elim (Bool-cases
              (is_uncertain_result cell commands mine options monotonic_ns acquired_ns status)) [
                | inl b ↦ rw b (reconcile_release-Release scoped)
                | inr b ↦ rw b (
                    Ends-block _ (
                      settled_with scoped (settle_release status scoped)
                        (settle_release-Good status scoped)))
              ]

    -- A release that returns leaves the handle released, and one that ends with a `LeaderError` leaves it
    -- lost, released or unknown.
    pub release_handle-Release :
        (scoped : Bool)
        → Does cell
            (Ends Release)
            (release_handle cell commands mine options monotonic_ns acquired_ns scoped)
    unfolding release_handle
    release_handle-Release scoped =
        Ends-bind Done (λ e u p. p)
          (block cell (open_block (over_release scoped true) (returning false))) _
          (Ends-block _
            (terminal_or scoped (returning false) (λ h low. (Advances-IsRely.here h, tt))))
          λ done. unless_terminal done _ (release_open-Release scoped)
