-- ===== src/LeaderRedis/Handle/Leaves.antt =====
-- What `release`, `__enter__` and `__exit__` of a handle leave behind.
use bluetape_py.Common.{
  ℕ, ◌≤◌, ◌≡◌, refl, ap, ◌⊎◌, Bool, true, false, not, Option, none, some, if◌then◌else◌, Bool-cases,
  inl, inr, arith,
}
use bluetape_py.Common.Exec.{Result, ok, raise, Exec, pure, throw, ◌>>=◌, ◌>>◌, Cell}
use bluetape_py.Common.Acts.{Acts, Acts-bind, Acts-try, Acts-if, Acts-pure, Acts-throw}
use bluetape_py.Common.Does.{Does, Does-bind-Does}
use bluetape_py.LeaderRedis.Errors.{
  PyError, lease_lost_error, is_leader_error, is_exception, is_interrupt, leader_error_of,
}
use bluetape_py.LeaderRedis.Record.{LeaseRecord}
use bluetape_py.LeaderRedis.Handle.{
  Handle, State, acquired, entered, lost, released, unknown, Commands, Options, Block, block,
  open_block, open_state, returning, RenewOutcome, renewed, not_held, renew_backend_failure,
  release_handle,
}
use bluetape_py.LeaderRedis.Handle.Ends.{
  rank, Advances, Advances-IsRely, Ends, Any, Good, IsSettled, Raises, Ends-bind, Ends-try,
  Ends-anyhow, Ends-pure, Ends-block, open_block-Good,
}
use bluetape_py.LeaderRedis.Handle.Blocks.{Release}
use bluetape_py.LeaderRedis.Handle.Settles.{
  Behaves, release_handle-Release, renew-Renewal, is_held-Probe,
}
use bluetape_py.LeaderRedis.Handle.Scoped.{
  climbs, same_state, Ended, ThreadsBehave, stop_worker-Ended, by_flag, nothing,
}
use bluetape_py.LeaderRedis.Handle.Worker.{
  Threads, stop_worker, start_failed, start_succeeded, start_worker, after_cleanup, terminal_block,
  not_started, new_worker,
}
use bluetape_py.LeaderRedis.Handle.Scope.{
  enter_block, enter_live, release_scoped, release, enter, exit, reraise, after_renewal,
  renewed_enter, probed_enter,
}

-- what the lifecycle came to: none is a release that returned
abbrev Cleaned : Result PyError (Option PyError) → Handle → Type 0
Cleaned (ok none) u = u.state ≡ released
Cleaned (ok (some f)) u = IsSettled u.state
Cleaned (raise e) u = is_leader_error e ≡ false

-- What a `with` block that `exc` ends, or none, comes to.
abbrev pub Exited : Option PyError → Result PyError (Unit {0}) → Handle → Type 0
Exited none (ok x) u = u.state ≡ released
Exited (some exc) (ok x) u = (u.state ≡ released) ⊎ ((is_interrupt exc ≡ true) × IsSettled u.state)
Exited exc (raise e) u = Raises e u

-- An enter is over once: whatever comes of it, the handle has left ACQUIRED.
abbrev pub Entered : Result PyError (Unit {0}) → Handle → Type 0
Entered r u = 1 ≤ rank u.state

-- to enter is for a handle that is still ACQUIRED
abbrev pub Fresh : {A : Type 0} → Result PyError A → Handle → Type 0
Fresh (ok a) s = s.state ≡ acquired
Fresh (raise e) s = Unit

enter_block-Fresh : (h : Handle) → Fresh (enter_block h).0 h
unfolding open_block
enter_block-Fresh h = by_state h.state refl
  where
    live : (s : State) → h.state ≡ s → Fresh (enter_live s h).0 h
    live acquired e = e
    live entered e = tt
    live lost e = tt
    live released e = tt
    live unknown e = tt

    by_state :
        (s : State)
        → h.state ≡ s
        → Fresh (open_state s (λ k. (raise lease_lost_error, k)) (λ k. enter_live k.state k) h).0 h
    by_state acquired e = live h.state refl
    by_state entered e = live h.state refl
    by_state lost e = tt
    by_state released e = tt
    by_state unknown e = tt

pub over_by_release : (u : Handle) → u.state ≡ released → IsSettled u.state
over_by_release u e = let two = ap rank e in omega (arith, two)

module _ {W : Type 0} (cell : Cell W Handle) (commands : Commands W) (mine : LeaseRecord)
    (options : Options) (monotonic_ns : Exec PyError W ℕ) (acquired_ns : ℕ)
    (behaves : Behaves cell commands monotonic_ns) (threads : Threads W)
    (behave : ThreadsBehave cell threads) where
  -- stop the worker, then release
  let_go :
      (scoped : Bool)
      → Does cell (Ends Release) (do
        stop_worker cell threads
        release_handle cell commands mine options monotonic_ns acquired_ns scoped)
  let_go scoped =
      Ends-bind Ended (λ e u p. p) (stop_worker cell threads) _
        (stop_worker-Ended cell threads behave)
        λ x. Ends-anyhow (
          release_handle-Release cell commands mine options monotonic_ns acquired_ns behaves scoped)

  leader_error_of-Cleaned :
      (m : Exec PyError W (Unit {0}))
      → Does cell (Ends Release) m
      → Does cell (Ends Cleaned) (leader_error_of m)
  leader_error_of-Cleaned m h =
      Ends-try Release m (λ e. if is_leader_error e then pure (some e) else throw e)
        (λ a. pure none) h
        (λ e. elim (Bool-cases (is_leader_error e)) [
          | inl b ↦ rw b (record { at = λ w p. (Advances-IsRely.here _, p refl) })
          | inr b ↦ rw b (record { at = λ w p. (Advances-IsRely.here _, b) })
        ])
        (λ a. Ends-pure none)

  reraise-Exited :
      (exc failure : Option PyError)
      → Does cell
          (λ r s u. Cleaned (ok failure) s → Ends (Exited exc) r s u)
          (reraise cell commands mine options monotonic_ns acquired_ns threads exc failure)
  reraise-Exited none none = Ends-pure tt
  reraise-Exited (some exc) none = record { at = λ w p. (Advances-IsRely.here _, inl p) }
  reraise-Exited none (some f) = record { at = λ w p. (Advances-IsRely.here _, λ k. p) }
  reraise-Exited (some exc) (some f) = elim (Bool-cases (is_interrupt exc)) [
    | inl b ↦ rw b (record { at = λ w p. (Advances-IsRely.here _, inr (b, p)) })
    | inr b ↦ elim (Bool-cases (is_exception exc)) [
      | inl c ↦ rw (b, c) (record { at = λ w p. (Advances-IsRely.here _, λ k. p) })
      | inr c ↦ rw (b, c) (record { at = λ w p. (Advances-IsRely.here _, λ k. p) })
    ]
  ]

  -- However a `with` block ended: an exit that returns has released the lease, or lets an interrupt go
  -- on with a handle that is lost, released or unknown; and so is the handle of an exit that raises
  -- a `LeaderError`.
  pub exit-Exited :
      (exc : Option PyError)
      → Does cell
          (Ends (Exited exc))
          (exit cell commands mine options monotonic_ns acquired_ns threads exc)
  unfolding exit
  exit-Exited exc =
      Ends-bind Cleaned (λ e u b. λ k. absurd (cc (b, k))) _ _
        (leader_error_of-Cleaned _ (let_go true)) (reraise-Exited exc)

  -- An explicit release.
  pub release-Release :
      Does cell (Ends Release) (release cell commands mine options monotonic_ns acquired_ns threads)
  unfolding release
  release-Release = let_go false

  enter_block-Good : (h : Handle) → Good Entered enter_block h
  enter_block-Good h =
      open_block-Good Entered (λ h. (raise lease_lost_error, h)) (λ h. enter_live h.state h) h
        (λ e. (Advances-IsRely.here h, omega arith)) (λ low. live h.state refl)
        (λ e u. let top = ap rank u in omega (arith, top))
    where
      live : (s : State) → h.state ≡ s → Good Entered (λ k. enter_live s k) h
      live acquired e =
          (climbs h _ (let zero_rank = ap rank e in omega (arith, zero_rank)), omega arith)
      live entered e = (Advances-IsRely.here h, let one_rank = ap rank e in omega (arith, one_rank))
      live lost e = (Advances-IsRely.here h, let two_rank = ap rank e in omega (arith, two_rank))
      live released e =
          (Advances-IsRely.here h, let two_rank = ap rank e in omega (arith, two_rank))
      live unknown e = (Advances-IsRely.here h, let top = ap rank e in omega (arith, top))

  pub Does-Advances :
      {A : Type 0} {F : Result PyError A → Handle → Type 0} {m : Exec PyError W A}
      → Does cell (Ends F) m
      → Acts cell Advances m
  Does-Advances h = record { at = λ w. (h.at w).0 }

  -- what is done after a point that was reached stays above it
  pub keeps :
      {A : Type 0} (n : ℕ) (m : Exec PyError W A)
      → Acts cell Advances m
      → Does cell (λ r s u. n ≤ rank s.state → Ends (λ r' u'. n ≤ rank u'.state) r s u) m
  keeps n m h = record { at = λ w p. let d = h.at w in let up = d.onward in (d, omega arith) }

  bind :
      {A B : Type 0} (m : Exec PyError W A) (f : A → Exec PyError W B)
      → Acts cell Advances m
      → ((a : A) → Acts cell Advances (f a))
      → Acts cell Advances (m >>= f)
  bind = Acts-bind Advances-IsRely Advances-IsRely.after

  block-Acts :
      {A : Type 0} (f : Block A)
      → ((h : Handle) → Good Ended f h)
      → Acts cell Advances (block cell f)
  block-Acts f good = Does-Advances {F = Ended} (Ends-block f good)

  plain-Acts :
      {A : Type 0} (f : Block A)
      → ((h : Handle) → (f h).1.state ≡ h.state)
      → ((h : Handle) → (f h).1.failure ≡ h.failure)
      → Acts cell Advances (block cell f)
  plain-Acts f e x = Does-Advances (Ends-block {F = Any} f (λ h. (same_state h _ (e h) (x h), tt)))

  stop_worker-Acts : Acts cell Advances (stop_worker cell threads)
  stop_worker-Acts = Does-Advances (stop_worker-Ended cell threads behave)

  start_failed-Acts :
      (e : PyError)
      → Acts cell Advances (
          start_failed cell threads
            (release_scoped cell commands mine options monotonic_ns acquired_ns threads)
            e)
  unfolding start_failed
  start_failed-Acts e = bind threads.is_alive _ (Does-Advances behave.lives) λ started.
      bind _ _ (plain-Acts (not_started started) (λ h. refl) (λ h. refl)) λ x.
        bind _ _ (Does-Advances (leader_error_of-Cleaned _ (cleanup started)))
          λ failure. over failure
    where
      over :
          (failure : Option PyError)
          → Acts cell Advances (
              after_cleanup cell threads
                (release_scoped cell commands mine options monotonic_ns acquired_ns threads)
                e
                failure)
      over none = Acts-throw Advances-IsRely _
      over (some f) = Acts-throw Advances-IsRely _

      cleanup :
          (started : Bool)
          → Does cell (Ends Release) (do
            if started then stop_worker cell threads else pure tt
            release_scoped cell commands mine options monotonic_ns acquired_ns threads)
      cleanup started =
          Ends-bind Ended (λ e u p. p) _ _
            (by_flag cell threads behave started _ _ (stop_worker-Ended cell threads behave)
              (nothing cell threads behave))
            λ x. Ends-anyhow (
              release_handle-Release cell commands mine options monotonic_ns acquired_ns behaves
                true)

  start_succeeded-Acts : Acts cell Advances (
      start_succeeded cell threads
        (release_scoped cell commands mine options monotonic_ns acquired_ns threads))
  unfolding start_succeeded
  start_succeeded-Acts = bind _ _ (plain-Acts terminal_block (λ h. refl) (λ h. refl)) λ terminal.
      Acts-if Advances-IsRely (not terminal) _ _ (Acts-pure Advances-IsRely tt) (
        bind _ _ stop_worker-Acts λ x.
          bind _ _ (block-Acts (open_block (returning tt) (returning tt)) checked)
            λ y. Acts-throw Advances-IsRely lease_lost_error)
    where
      checked : (h : Handle) → Good Ended (open_block (returning tt) (returning tt)) h
      checked h =
          open_block-Good Ended (returning tt) (returning tt) h (λ e. (Advances-IsRely.here h, tt))
            (λ low. (Advances-IsRely.here h, tt))
            (λ e u k. let top = ap rank u in omega (arith, top))

  start_worker-Acts : Acts cell Advances (
      start_worker cell threads
        (release_scoped cell commands mine options monotonic_ns acquired_ns threads))
  unfolding start_worker
  start_worker-Acts = bind _ _ (plain-Acts new_worker (λ h. refl) (λ h. refl)) λ x.
      Acts-try Advances-IsRely Advances-IsRely.after threads.start _ _ (Does-Advances behave.starts)
        start_failed-Acts (λ y. start_succeeded-Acts)

  renewed_enter-Acts :
      Acts cell Advances (renewed_enter cell commands mine options monotonic_ns acquired_ns threads)
  renewed_enter-Acts =
      bind _ _
        (Does-Advances
          (renew-Renewal cell commands mine options monotonic_ns acquired_ns behaves none))
        by_outcome
    where
      by_outcome :
          (outcome : RenewOutcome)
          → Acts cell Advances
              (after_renewal cell commands mine options monotonic_ns acquired_ns threads outcome)
      by_outcome renewed = start_worker-Acts
      by_outcome not_held = Acts-throw Advances-IsRely lease_lost_error
      by_outcome (renew_backend_failure cause) = Acts-throw Advances-IsRely cause

  probed_enter-Acts :
      Acts cell Advances (probed_enter cell commands mine options monotonic_ns acquired_ns threads)
  probed_enter-Acts =
      bind _ _
        (Does-Advances (is_held-Probe cell commands mine options monotonic_ns acquired_ns behaves))
        λ held.
          Acts-if Advances-IsRely held _ _ (Acts-pure Advances-IsRely tt)
            (Acts-throw Advances-IsRely lease_lost_error)

  -- However `__enter__` ends, the handle has left ACQUIRED for good; one that returns began there.
  pub enter-Fresh :
      Does cell
        (λ r s u. Ends Entered r s u × Fresh r s)
        (enter cell commands mine options monotonic_ns acquired_ns threads)
  unfolding enter
  enter-Fresh =
      Does-bind-Does (λ r s u. Ends Entered r s u × Fresh r s)
        (λ a r s u. 1 ≤ rank s.state → Ends Entered r s u) (λ r s u. Ends Entered r s u × Fresh r s)
        (λ e s t p. p) then_on (block cell enter_block) _
        (record {
          at = λ w. (
            (Ends-block {cell = cell} {F = Entered} enter_block enter_block-Good).at w,
            enter_block-Fresh (cell.read w),
          );
        })
        λ x.
          keeps 1 _
            (Acts-if Advances-IsRely options.auto_renew _ _ renewed_enter-Acts probed_enter-Acts)
    where
      then_on :
          (a : Unit {0}) (r : Result PyError (Unit {0})) (s t u : Handle)
          → Ends Entered (ok a) s t × (s.state ≡ acquired)
          → (1 ≤ rank t.state → Ends Entered r t u)
          → Ends Entered r s u × Fresh r s
      then_on a (ok x) s t u (p, fresh) q =
          ((Advances-IsRely.after s t u p.0 (q p.1).0, (q p.1).1), fresh)
      then_on a (raise e) s t u (p, fresh) q =
          ((Advances-IsRely.after s t u p.0 (q p.1).0, (q p.1).1), tt)
