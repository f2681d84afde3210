-- ===== src/LeaderRedis/Handle/Blocks.antt =====
-- What each block under the lock of a handle does to it.
use bluetape_py.Common.{
  ℕ, ◌/◌, ◌==◌, ◌≤◌, ◌≡◌, refl, ap, Bool, true, false, ◌&&◌, ◌||◌, some, List, Bool-cases, inl, inr,
  arith,
}
use bluetape_py.Common.Int.{pos, negsuc}
use bluetape_py.Common.Texts.{codes, same_text}
use bluetape_py.Common.Exec.{Result, ok, raise}
use bluetape_py.LeaderRedis.Errors.{PyError, is_leader_error, is_exception}
use bluetape_py.LeaderRedis.Record.{LeaseRecord, Found, was_absent, was_corrupt, was_present}
use bluetape_py.LeaderRedis.Handle.{
  Handle, State, acquired, entered, lost, released, unknown, duration_milliseconds, open_block,
  over_release, returning, RenewOutcome, renewed, not_held, renew_backend_failure, settle_renewal,
  settle_probe, settle_release, settle_found, settle_repeat, finish_release_status, is_released,
  Duration, microseconds, object,
}
use bluetape_py.LeaderRedis.Handle.Ends.{
  rank, Advances, Advances-IsRely, Good, IsSettled, Raises, open_block-Good,
}

not_exception : (e : PyError) → is_exception e ≡ false → is_leader_error e ≡ true → ⊥
not_exception (PyError.interrupt n) h k = cc k
not_exception (PyError.base_exception n) h k = cc k
not_exception PyError.backend_error h k = cc h
not_exception PyError.lease_lost_error h k = cc h
not_exception PyError.release_error h k = cc h
not_exception PyError.invalid_options_error h k = cc h
not_exception PyError.invalid_lock_name_error h k = cc h
not_exception (PyError.execution_error a b) h k = cc h
not_exception (PyError.uncertain_error n) h k = cc h
not_exception PyError.no_script_error h k = cc h
not_exception PyError.value_error h k = cc h
not_exception PyError.type_error h k = cc h
not_exception PyError.runtime_error h k = cc h
not_exception PyError.assertion_error h k = cc h
not_exception (PyError.exception n) h k = cc h

-- What a block that may find the handle over gives.
abbrev pub Looked : Result PyError Bool → Handle → Type 0
Looked (ok true) u = IsSettled u.state
Looked (ok false) u = Unit
Looked (raise e) u = Raises e u

-- What a renewal comes to.
abbrev pub Renewal : Result PyError RenewOutcome → Handle → Type 0
Renewal (ok renewed) u = Unit
Renewal (ok not_held) u = IsSettled u.state
Renewal (ok (renew_backend_failure e)) u = (u.state ≡ unknown) × (u.failure ≡ some e)
Renewal (raise e) u = Raises e u

-- What a probe comes to.
abbrev pub Probe : Result PyError Bool → Handle → Type 0
Probe (ok true) u = Unit
Probe (ok false) u = IsSettled u.state
Probe (raise e) u = Raises e u

-- What a release comes to.
abbrev pub Release : Result PyError (Unit {0}) → Handle → Type 0
Release (ok x) u = u.state ≡ released
Release (raise e) u = Raises e u

-- what an `attempt` lets out is no LeaderError
abbrev pub Caught : {A : Type 0} → Result PyError (Result PyError A) → Handle → Type 0
Caught (ok r) u = Unit
Caught (raise e) u = is_exception e ≡ false

pub Caught-Raises : (e : PyError) (u : Handle) → is_exception e ≡ false → Raises e u
Caught-Raises e u h k = absurd (not_exception e h k)

-- a handle that is not over goes to any state that is
moves : (h k : Handle) → rank h.state ≤ 1 → 2 ≤ rank k.state → Advances h k
moves h k low high = record {
  onward = omega arith;
  settled = λ e. absurd (omega arith);
  kept = λ e. absurd (not_low e low);
}
  where
    not_low : {s : State} → s ≡ unknown → rank s ≤ 1 → ⊥
    not_low e l = let top : rank _ ≡ 3 = ap rank e in omega (arith, top, l)

pub over_by_rank : (h : Handle) → rank h.state ≡ 2 → IsSettled h.state
over_by_rank h e = omega arith

pub over_by_failure : (h : Handle) → h.state ≡ unknown → IsSettled h.state
over_by_failure h e = rw e (omega arith)

pub look-Looked : (h : Handle) → Good Looked (open_block (returning true) (returning false)) h
look-Looked h =
    open_block-Good Looked (returning true) (returning false) h
      (λ e. (Advances-IsRely.here h, over_by_rank h e)) (λ low. (Advances-IsRely.here h, tt))
      (λ e u k. over_by_failure h u)

-- a duration is no LeaderError
abbrev pub Lasts : Result PyError ℕ → Handle → Type 0
Lasts (ok n) u = Unit
Lasts (raise e) u = Raises e u

pub duration-Lasts : (d : Duration) (u : Handle) → Lasts (duration_milliseconds d) u
unfolding duration_milliseconds
duration-Lasts object u = λ k. cc k
duration-Lasts (microseconds (negsuc n)) u = λ k. cc k
duration-Lasts (microseconds (pos n)) u = elim (Bool-cases (n / 1000 == 0)) [
  | inl b ↦ rw b (λ k. cc k)
  | inr b ↦ rw b tt
]

pub settle_renewal-Good :
    (status : Result PyError (List ℕ)) (h : Handle)
    → rank h.state ≤ 1
    → Good Renewal (settle_renewal status) h
unfolding settle_renewal
settle_renewal-Good (raise e) h low = (moves h _ low (omega arith), (refl, refl))
settle_renewal-Good (ok status) h low = elim (Bool-cases (same_text status (codes "RENEWED"))) [
  | inl a ↦ rw a (Advances-IsRely.here h, tt)
  | inr a ↦ elim (Bool-cases (same_text status (codes "NOT_HELD"))) [
    | inl b ↦ rw (a, b) (moves h _ low (omega arith), omega arith)
    | inr b ↦ rw (a, b) (moves h _ low (omega arith), (refl, refl))
  ]
]

pub settle_probe-Good :
    (status : Result PyError (List ℕ)) (h : Handle)
    → rank h.state ≤ 1
    → Good Probe (settle_probe status) h
unfolding settle_probe
settle_probe-Good (raise e) h low = (moves h _ low (omega arith), λ k. omega arith)
settle_probe-Good (ok status) h low = elim (Bool-cases (same_text status (codes "HELD"))) [
  | inl a ↦ rw a (Advances-IsRely.here h, tt)
  | inr a ↦ elim (Bool-cases (same_text status (codes "NOT_HELD"))) [
    | inl b ↦ rw (a, b) (moves h _ low (omega arith), omega arith)
    | inr b ↦ rw (a, b) (moves h _ low (omega arith), λ k. omega arith)
  ]
]

finish_release_status-Good :
    (status : List ℕ) (scoped : Bool) (h : Handle)
    → rank h.state ≤ 1
    → Good Release (finish_release_status status scoped) h
unfolding finish_release_status
finish_release_status-Good status scoped h low =
    elim (Bool-cases
      (same_text status (codes "DELETED") || same_text status (codes "MIN_TTL_APPLIED"))) [
        | inl a ↦ rw a (moves h _ low (omega arith), refl)
        | inr a ↦ elim (Bool-cases (same_text status (codes "NOT_HELD"))) [
          | inl b ↦ rw (a, b) (moves h _ low (omega arith), λ k. omega arith)
          | inr b ↦ rw (a, b) (moves h _ low (omega arith), λ k. omega arith)
        ]
      ]

pub settle_release-Good :
    (status : Result PyError (List ℕ)) (scoped : Bool) (h : Handle)
    → rank h.state ≤ 1
    → Good Release (settle_release status scoped) h
unfolding settle_release
settle_release-Good (raise e) scoped h low = (moves h _ low (omega arith), λ k. omega arith)
settle_release-Good (ok status) scoped h low = finish_release_status-Good status scoped h low

pub settle_repeat-Good :
    (status : Result PyError (List ℕ)) (scoped : Bool) (h : Handle)
    → rank h.state ≤ 1
    → Good Release (settle_repeat status scoped) h
unfolding settle_repeat
settle_repeat-Good (raise e) scoped h low = (moves h _ low (omega arith), λ k. omega arith)
settle_repeat-Good (ok status) scoped h low = finish_release_status-Good status scoped h low

-- the reconciliation goes on with a handle that is open
abbrev pub Done : Result PyError Bool → Handle → Type 0
Done (ok true) u = u.state ≡ released
Done (ok false) u = Unit
Done (raise e) u = Raises e u

pub settle_found-Good :
    (mine : LeaseRecord) (found : Result PyError Found) (scoped : Bool) (h : Handle)
    → rank h.state ≤ 1
    → Good Done (settle_found mine found scoped) h
unfolding settle_found
settle_found-Good mine (raise e) scoped h low = (moves h _ low (omega arith), λ k. omega arith)
settle_found-Good mine (ok was_absent) scoped h low =
    (moves h _ low (omega arith), λ k. omega arith)
settle_found-Good mine (ok was_corrupt) scoped h low =
    (moves h _ low (omega arith), λ k. omega arith)
settle_found-Good mine (ok (was_present r)) scoped h low =
    elim (Bool-cases (same_text r.owner_token mine.owner_token)) [
      | inl a ↦ rw a (Advances-IsRely.here h, tt)
      | inr a ↦ rw a (moves h _ low (omega arith), λ k. omega arith)
    ]

is_released-true : (s : State) → is_released s ≡ true → s ≡ released
is_released-true acquired h = cc h
is_released-true entered h = cc h
is_released-true lost h = cc h
is_released-true released h = refl
is_released-true unknown h = cc h

pub over_release-Good :
    (scoped : Bool) (h : Handle) → rank h.state ≡ 2 → Good Release (over_release scoped tt) h
unfolding over_release
over_release-Good scoped h e = elim (Bool-cases (scoped && is_released h.state)) [
  | inl b ↦ rw b (Advances-IsRely.here h, is_released-true h.state (ground (arith, b)))
  | inr b ↦ rw b (Advances-IsRely.here h, λ k. over_by_rank h e)
]

pub over_release-Done :
    (scoped : Bool) (h : Handle) → rank h.state ≡ 2 → Good Done (over_release scoped true) h
unfolding over_release
over_release-Done scoped h e = elim (Bool-cases (scoped && is_released h.state)) [
  | inl b ↦ rw b (Advances-IsRely.here h, is_released-true h.state (ground (arith, b)))
  | inr b ↦ rw b (Advances-IsRely.here h, λ k. over_by_rank h e)
]
