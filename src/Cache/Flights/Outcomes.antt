-- ===== src/Cache/Flights/Outcomes.antt =====
-- Every caller of one load is given what its loader gave.
use bluetape_py.Common.{ℕ, ◌≡◌, ◌≢◌, refl, subst, ◌⊎◌, inl, inr, true, some, Bool-cases}
use bluetape_py.Common.Int.{ℤ}
use bluetape_py.Common.Exec.{Result, ok, raise}
use bluetape_py.Cache.Flights.{
  Cache, CacheError, SyncFlight, get_elem?, owns, finish_flight, publish, can_publish, settle,
  flight_outcome, new_cache, first_error, error_of, result_of,
}
use bluetape_py.Cache.Flights.Places.{Holds, Holds-modify_self}
use bluetape_py.Cache.Flights.Steps.{
  Block, finishes, run_block, Steps, here, next, publish-state, run_block-Holds, IsAllowed,
}
use bluetape_py.Cache.Flights.Consistent.Owned.{IsConsistent}
use bluetape_py.Cache.Flights.Consistent.{Steps-IsConsistent, new_cache-IsConsistent}

module _ {K V : Type 0} (dec : Discrete K) where
  -- The flight has ended, with this outcome.
  abbrev pub HasEnded : Result CacheError V → SyncFlight K V → Type 0
  HasEnded r f = (f.terminal ≡ true) × (flight_outcome (some f) ≡ r)

  HasEnded-superseded :
      (r : Result CacheError V) (f : SyncFlight K V)
      → HasEnded r f
      → HasEnded r (record f { superseded = true })
  unfolding flight_outcome
  HasEnded-superseded r f h = h

  -- A block ends no flight that has ended.
  run_block-HasEnded :
      (limit : ℕ) (b : Block K V) (c : Cache K V) (i : ℕ) (r : Result CacheError V)
      → IsConsistent dec limit c
      → IsAllowed dec b c
      → Holds (HasEnded r) i c.flights
      → Holds (HasEnded r) i (run_block dec b c).flights
  run_block-HasEnded limit b c i r v allowed (f, at, h) =
      run_block-Holds dec (HasEnded r) (HasEnded-superseded r) i b c
        (λ j outcome clock e. inl (other j outcome clock e)) (f, at, h)
    where
      other :
          (j : ℕ) (outcome : Result CacheError V) (clock : Result CacheError ℤ)
          → b ≡ finishes j outcome clock
          → i ≢ j
      other j outcome clock e same =
          let own : owns j c.owned_flights ≡ true = subst (λ x. IsAllowed dec x c) e allowed in
          let (g, at', open_) = v.owns_open.owned_open j own in cc (at, at', same, open_, h.0)

  Steps-HasEnded :
      (limit : ℕ) {c d : Cache K V}
      → Steps dec c d
      → (i : ℕ) (r : Result CacheError V) → IsConsistent dec limit c
      → Holds (HasEnded r) i c.flights
      → Holds (HasEnded r) i d.flights
  Steps-HasEnded limit here i r v h = h
  Steps-HasEnded limit (next {d} steps b allowed) i r v h =
      run_block-HasEnded limit b d i r (Steps-IsConsistent dec limit steps v) allowed
        (Steps-HasEnded limit steps i r v h)

  -- What its callers are to be given: what the loader gave, unless the clock raised at the publication.
  pub data IsGiven (outcome : Result CacheError V) (clock : Result CacheError ℤ)
      (r : Result CacheError V) : Type 0 where
    loaded : r ≡ outcome → IsGiven outcome clock r
    unpublished : (e : CacheError) → clock ≡ raise e → r ≡ raise e → IsGiven outcome clock r

  ended_flight :
      SyncFlight K V → Result CacheError (Unit {0}) → Result CacheError V → SyncFlight K V
  ended_flight f published outcome = record f {
    result = result_of outcome;
    error = first_error (error_of published) (error_of outcome);
    terminal = true;
  }

  publish-raise :
      (i : ℕ) (f : SyncFlight K V) (outcome : Result CacheError V) (clock : Result CacheError ℤ)
      (c : Cache K V)
      → ((publish dec i f outcome clock c).0 ≡ ok tt)
        ⊎ ((e : CacheError) × (clock ≡ raise e) × ((publish dec i f outcome clock c).0 ≡ raise e))
  unfolding publish
  publish-raise i f (raise e) clock c = inl refl
  publish-raise i f (ok v) (raise e) c = elim (Bool-cases (can_publish dec i f c)) [
    | inl b ↦ inr (e, refl, rw b)
    | inr b ↦ inl (rw b)
  ]
  publish-raise i f (ok v) (ok tick) c = elim (Bool-cases (can_publish dec i f c)) [
    | inl b ↦ inl (rw b)
    | inr b ↦ inl (rw b)
  ]

  flight_outcome-ended :
      (f g : SyncFlight K V) (outcome : Result CacheError V)
      → flight_outcome (some (ended_flight g (ok tt) outcome)) ≡ outcome
  unfolding flight_outcome ended_flight
  flight_outcome-ended f g (ok v) = refl
  flight_outcome-ended f g (raise e) = refl

  flight_outcome-unpublished :
      (g : SyncFlight K V) (e : CacheError) (outcome : Result CacheError V)
      → flight_outcome (some (ended_flight g (raise e) outcome)) ≡ raise e
  unfolding flight_outcome ended_flight
  flight_outcome-unpublished g e outcome = refl

  finish_flight-HasEnded :
      (i : ℕ) (outcome : Result CacheError V) (clock : Result CacheError ℤ) (c : Cache K V)
      (f : SyncFlight K V)
      → get_elem? c.flights i ≡ some f
      → (r : Result CacheError V) × IsGiven outcome clock r
        × Holds (HasEnded r) i (finish_flight dec i outcome clock c).flights
  unfolding finish_flight settle ended_flight
  finish_flight-HasEnded i outcome clock c f at = elim (publish-raise i f outcome clock c) [
    | inl good ↦ (
      outcome,
      loaded refl,
      rw (at, finish_flight)
          (rw (publish-state dec i f outcome clock c) (
            rw good (
              Holds-modify_self (λ x. Unit) (HasEnded outcome) (λ g. ended_flight g (ok tt) outcome)
                (λ g u. (refl, flight_outcome-ended f g outcome)) c.flights i (f, at, tt)))),
    )
    | inr (e, stopped, bad) ↦ (
      raise e,
      unpublished e stopped refl,
      rw (at, finish_flight)
          (rw (publish-state dec i f outcome clock c) (
            rw bad (
              Holds-modify_self (λ x. Unit) (HasEnded (raise e))
                (λ g. ended_flight g (raise e) outcome)
                (λ g u. (refl, flight_outcome-unpublished g e outcome)) c.flights i (f, at, tt)))),
    )
  ]

  -- In a cache that has come about by any blocks, let a load end. Then whatever blocks follow, in
  -- any order, everyone who waits for it is given one outcome: what its loader returned or raised,
  -- or, if the clock raised at the publication, what the clock raised.
  pub waiters_agree :
      (max_size max_inflight : ℕ) {c d : Cache K V} (i : ℕ) (outcome : Result CacheError V)
      (clock : Result CacheError ℤ)
      → Steps dec (new_cache max_size max_inflight) c
      → owns i c.owned_flights ≡ true
      → Steps dec (finish_flight dec i outcome clock c) d
      → IsGiven outcome clock (flight_outcome (get_elem? d.flights i))
  unfolding run_block
  waiters_agree max_size max_inflight {c} {d} i outcome clock before own after =
      let v =
        Steps-IsConsistent dec max_inflight before
          (new_cache-IsConsistent dec max_inflight max_size) in
      let (f, at, open_) = v.owns_open.owned_open i own in
      let (r, given, ended) = finish_flight-HasEnded i outcome clock c f at in
      let v' =
        Steps-IsConsistent dec max_inflight (next before (finishes i outcome clock) own)
          (new_cache-IsConsistent dec max_inflight max_size) in
      let (g, at', h) = Steps-HasEnded max_inflight after i r v' ended in rw at' (rw h.1 given)
