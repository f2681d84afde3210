-- ===== src/Resilience/Circuit/Slots.antt =====
-- The slots of a half-open breaker: an invariant of the state and the calls that are admitted and
-- not yet resolved.
use bluetape_py.Common.{
  ℕ, suc, ◌+◌, ◌≤◌, ◌<◌, ◌≡◌, refl, inl, inr, ◌&&◌, Option, none, some, List, [], ◌∷◌, ◌++◌, arith,
  ◌==◌, if◌then◌else◌, All, Bool-cases,
}
use bluetape_py.Common.Int.{pos}
use bluetape_py.Resilience.Core.{Runtime, CircuitState}
use bluetape_py.Resilience.Circuit.{
  Admission, Transition, CircuitData, is_opened, is_half_open, admit, take_slot, succeed, fail,
  ignore, transition,
}

-- How a call ends: `ignore`, `succeed` or `fail` of its admission.
pub data Resolution (F : Type 0) : Type 0 where
  ignored : Resolution F
  succeeded failed : F → Resolution F

-- The owners of a slot of the present generation among the calls in flight.
unfoldable pub holders : ℕ → List Admission → ℕ
holders g [] = 0
holders g (a ∷ rest) =
    (if a.generation == g && a.owns_half_open_slot then 1 else 0) + holders g rest

abbrev IsCurrentlyOwned : ℕ → CircuitState → Admission → Type 0
IsCurrentlyOwned g state a =
    (a.generation ≤ g) × (a.generation ≡ g → a.owns_half_open_slot ≡ is_half_open state)

pub record IsConsistent {F : Type 0} (d : CircuitData F) (calls : List Admission) : Type 0 where
  -- the counter is the number of slots that are owned, and within the limit
  pub counted : d.half_open_in_flight ≡ pos (holders d.generation calls)
  pub within : holders d.generation calls ≤ d.half_open_max_calls
  pub below_failures : d.consecutive_failures < d.failure_threshold
  pub below_recovery : d.recovery_successes < d.recovery_success_threshold
  pub owned : All (IsCurrentlyOwned d.generation d.state) calls

holders-none :
    (g : ℕ) (s : CircuitState) (calls : List Admission)
    → All (IsCurrentlyOwned g s) calls
    → holders (suc g) calls ≡ 0
unfolding holders
holders-none g s [] h = refl
holders-none g s (a ∷ rest) h = ground (arith, holders-none g s rest h.1)

owned-suc :
    (g : ℕ) (s t : CircuitState) (calls : List Admission)
    → All (IsCurrentlyOwned g s) calls
    → All (IsCurrentlyOwned (suc g) t) calls
owned-suc g s t [] h = tt
owned-suc g s t (a ∷ rest) h = ((omega arith, λ e. absurd (omega arith)), owned-suc g s t rest h.1)

abbrev pub with_admitted : Option Admission → List Admission → List Admission
with_admitted none calls = calls
with_admitted (some a) calls = a ∷ calls

-- what is left of the calls when `a` is resolved
holders-middle :
    (g : ℕ) (xs : List Admission) (a : Admission) (ys : List Admission)
    → holders g (xs ++ a ∷ ys) ≡ holders g (a ∷ []) + holders g (xs ++ ys)
unfolding holders
holders-middle g [] a ys = omega arith
holders-middle g (x ∷ xs) a ys = omega (arith, holders-middle g xs a ys)

All-middle :
    (g : ℕ) (s : CircuitState) (xs : List Admission) (a : Admission) (ys : List Admission)
    → All (IsCurrentlyOwned g s) (xs ++ a ∷ ys)
    → IsCurrentlyOwned g s a × All (IsCurrentlyOwned g s) (xs ++ ys)
All-middle g s [] a ys h = h
All-middle g s (x ∷ xs) a ys h = let (p, q) = All-middle g s xs a ys h.1 in (p, (h.0, q))

module _ {F : Type 0} ⦃py : Runtime F⦄ where
  unfoldable pub resolve : Resolution F → Admission → CircuitData F → CircuitData F
  unfolding ignore succeed fail
  resolve ignored a d = ignore a d
  resolve (succeeded now) a d = (succeed a now d).1
  resolve (failed now) a d = (fail a now d).1

  transition-IsConsistent :
      (s : CircuitState) (now : F) (d : CircuitData F) (calls : List Admission)
      → 0 < d.failure_threshold
      → 0 < d.recovery_success_threshold
      → All (IsCurrentlyOwned d.generation d.state) calls
      → IsConsistent (transition s now d).1 calls
  unfolding transition
  transition-IsConsistent s now d calls hf hr h = record {
    counted = rw (holders-none d.generation d.state calls h);
    within = rw (holders-none d.generation d.state calls h) (omega arith);
    below_failures = hf;
    below_recovery = hr;
    owned = owned-suc d.generation d.state s calls h;
  }

  pub take_slot-IsConsistent :
      (moved : Option Transition) (d : CircuitData F) (calls : List Admission)
      → IsConsistent d calls
      → IsConsistent (take_slot moved d).1 (with_admitted (take_slot moved d).0.0 calls)
  unfolding take_slot holders
  take_slot-IsConsistent moved d calls h = ground arith

  pub admit-IsConsistent :
      (now : F) (d : CircuitData F) (calls : List Admission)
      → IsConsistent d calls
      → IsConsistent (admit now d).1 (with_admitted (admit now d).0.0 calls)
  unfolding admit
  admit-IsConsistent now d calls h = elim (Bool-cases (is_opened d.state)) [
    | inl e ↦ elim (Bool-cases (py.lt now d.open_until)) [
      | inl f ↦ rw (e, f, admit) h
      | inr f ↦
          rw (e, f, admit)
            (take_slot-IsConsistent _ _ calls (
              transition-IsConsistent CircuitState.half_open now d calls (omega arith) (omega arith)
                h.owned))
    ]
    | inr e ↦ rw (e, admit) (take_slot-IsConsistent none d calls h)
  ]

  pub resolve-IsConsistent :
      (r : Resolution F) (d : CircuitData F) (xs : List Admission) (a : Admission)
      (ys : List Admission)
      → IsConsistent d (xs ++ a ∷ ys)
      → IsConsistent (resolve r a d) (xs ++ ys)
  unfolding resolve transition holders
  resolve-IsConsistent ignored d xs a ys h =
      ground (
        arith,
        holders-middle d.generation xs a ys,
        All-middle d.generation d.state xs a ys h.owned,
      )
  resolve-IsConsistent (succeeded now) d xs a ys h =
      let q = All-middle d.generation d.state xs a ys h.owned in
      ground (
        arith,
        holders-middle d.generation xs a ys,
        q,
        holders-none d.generation d.state (xs ++ ys) q.1,
        owned-suc d.generation d.state CircuitState.closed (xs ++ ys) q.1,
      )
  resolve-IsConsistent (failed now) d xs a ys h =
      let q = All-middle d.generation d.state xs a ys h.owned in
      ground (
        arith,
        holders-middle d.generation xs a ys,
        q,
        holders-none d.generation d.state (xs ++ ys) q.1,
        owned-suc d.generation d.state CircuitState.opened (xs ++ ys) q.1,
      )
