-- ===== src/Cache/Flights/Steps.antt =====
-- The blocks of a cache in any order, as its threads may run them, and what no block undoes.
use bluetape_py.Common.{
  ℕ, ◌≡◌, ◌≢◌, refl, ◌⊎◌, inl, inr, true, Option, none, some, Option-cases, Bool-cases, leb, length,
}
use bluetape_py.Common.Int.{ℤ}
use bluetape_py.Common.Exec.{Result, ok, raise}
use bluetape_py.Cache.Dict.{lookup}
use bluetape_py.Cache.State.{get, clamp_tick}
use bluetape_py.Cache.Flights.{
  Cache, CacheError, SyncFlight, get_elem?, get_block, set_block, invalidate_block, clear_block,
  start_block, start_flight, after_get, finish_flight, publish, can_publish, settle, stats_block,
  len_block, supersede, owns, owned_keys, is_key_error,
}
use bluetape_py.Cache.Flights.Places.{
  Holds, Holds-modify, Holds-modify_ne, Holds-append, Holds-supersede_if, Holds-supersede_all,
  Outlives,
}

-- A block under the lock, with what the clock and the loader gave.
pub data Block (K V : Type 0) : Type 0 where
  gets : K → Result CacheError ℤ → Block K V
  sets : K → V → ℕ → Result CacheError ℤ → Block K V
  invalidates : K → Result CacheError ℤ → Block K V
  clears : Result CacheError ℤ → Block K V
  starts : K → ℕ → Result CacheError ℤ → Block K V
  counts : Result CacheError ℤ → Block K V
  sizes : Result CacheError ℤ → Block K V
  finishes : ℕ → Result CacheError V → Result CacheError ℤ → Block K V

module _ {K V : Type 0} (dec : Discrete K) where
  unfoldable pub run_block : Block K V → Cache K V → Cache K V
  run_block (gets key clock) c = (get_block dec key clock c).1
  run_block (sets key value ttl_ns clock) c = (set_block dec key value ttl_ns clock c).1
  run_block (invalidates key clock) c = (invalidate_block dec key clock c).1
  run_block (clears clock) c = (clear_block dec clock c).1
  run_block (starts key ttl_ns clock) c = (start_block dec key ttl_ns clock c).1
  run_block (counts clock) c = (stats_block dec clock c).1
  run_block (sizes clock) c = (len_block dec clock c).1
  run_block (finishes i outcome clock) c = finish_flight dec i outcome clock c

  -- Only a flight that is under way is finished: its owner does so, once.
  abbrev pub IsAllowed : Block K V → Cache K V → Type 0
  IsAllowed (finishes i outcome clock) c = owns i c.owned_flights ≡ true
  IsAllowed _ c = Unit

  pub data Steps (c : Cache K V) : Cache K V → Type 0 where
    here : Steps c c
    next : {d : Cache K V} → Steps c d → (b : Block K V) → IsAllowed b d → Steps c (run_block b d)

  -- a publication changes the state alone
  pub publish-state :
      (j : ℕ) (flight : SyncFlight K V) (outcome : Result CacheError V)
      (clock : Result CacheError ℤ) (c : Cache K V)
      → (publish dec j flight outcome clock c).1
        ≡ record c { state = (publish dec j flight outcome clock c).1.state }
  unfolding publish
  publish-state j flight (raise e) clock c = refl
  publish-state j flight (ok v) (raise e) c = elim (Bool-cases (can_publish dec j flight c)) [
    | inl b ↦ rw b
    | inr b ↦ rw b
  ]
  publish-state j flight (ok v) (ok tick) c = elim (Bool-cases (can_publish dec j flight c)) [
    | inl b ↦ rw b
    | inr b ↦ rw b
  ]

  module _ (P : SyncFlight K V → Type 0) (outlives : Outlives P) (i : ℕ) where
    -- A finish of `j` leaves the property of `i`.
    abbrev pub Spares : ℕ → Type 0
    Spares j =
        (i ≢ j)
        ⊎ ((result : Option V) (error : Option CacheError) (f : SyncFlight K V)
            → P f
            → P (record f { result = result; error = error; terminal = true }))

    start_flight-Holds :
        (key : K) (ttl_ns : ℕ) (c : Cache K V)
        → Holds P i c.flights
        → Holds P i (start_flight dec key ttl_ns c).1.flights
    start_flight-Holds key ttl_ns c h =
        elim (Bool-cases (leb c.max_inflight (length c.owned_flights))) [
          | inl full ↦ unfold start_flight in rw full h
          | inr room ↦ unfold start_flight in rw room (Holds-append P c.flights _ i h)
        ]

    after_get-Holds :
        (key : K) (ttl_ns : ℕ) (value : Option V) (c : Cache K V)
        → Holds P i c.flights
        → Holds P i (after_get dec key ttl_ns value c).1.flights
    after_get-Holds key ttl_ns (some value) c h = h
    after_get-Holds key ttl_ns none c h = elim (Option-cases (lookup dec key c.active_flights)) [
      | inr (j, a) ↦ rw a h
      | inl a ↦ rw a (start_flight-Holds key ttl_ns c h)
    ]

    start_block-Holds :
        (key : K) (ttl_ns : ℕ) (clock : Result CacheError ℤ) (c : Cache K V)
        → Holds P i c.flights
        → Holds P i (start_block dec key ttl_ns clock c).1.flights
    unfolding start_block
    start_block-Holds key ttl_ns (raise e) c h = elim (Bool-cases (is_key_error e)) [
      | inl missing ↦ rw (missing, start_block) (after_get-Holds key ttl_ns none c h)
      | inr other ↦ rw (other, start_block) h
    ]
    start_block-Holds key ttl_ns (ok tick) c h =
        let t = clamp_tick tick c.state in
        after_get-Holds key ttl_ns (get dec key t.0 (owned_keys c) t.1).0
          (record c { state = (get dec key t.0 (owned_keys c) t.1).1 }) h

    supersede-Holds :
        (key : K) (c : Cache K V) → Holds P i c.flights → Holds P i (supersede dec key c).flights
    unfolding supersede
    supersede-Holds key c h =
        Holds-supersede_if P outlives (lookup dec key c.active_flights) c.flights i h

    set_block-Holds :
        (key : K) (value : V) (ttl_ns : ℕ) (clock : Result CacheError ℤ) (c : Cache K V)
        → Holds P i c.flights
        → Holds P i (set_block dec key value ttl_ns clock c).1.flights
    unfolding set_block
    set_block-Holds key value ttl_ns (raise e) c h = supersede-Holds key c h
    set_block-Holds key value ttl_ns (ok tick) c h = supersede-Holds key c h

    invalidate_block-Holds :
        (key : K) (clock : Result CacheError ℤ) (c : Cache K V)
        → Holds P i c.flights
        → Holds P i (invalidate_block dec key clock c).1.flights
    unfolding invalidate_block
    invalidate_block-Holds key (raise e) c h = h
    invalidate_block-Holds key (ok tick) c h =
        supersede-Holds key (record c { state = (clamp_tick tick c.state).1 }) h

    clear_block-Holds :
        (clock : Result CacheError ℤ) (c : Cache K V)
        → Holds P i c.flights
        → Holds P i (clear_block dec clock c).1.flights
    unfolding clear_block
    clear_block-Holds (raise e) c h = h
    clear_block-Holds (ok tick) c h = Holds-supersede_all P outlives c.active_flights c.flights i h

    finish_flight-Holds :
        (j : ℕ) (outcome : Result CacheError V) (clock : Result CacheError ℤ) (c : Cache K V)
        → Spares j
        → Holds P i c.flights
        → Holds P i (finish_flight dec j outcome clock c).flights
    unfolding finish_flight settle
    finish_flight-Holds j outcome clock c spares h = elim (Option-cases (get_elem? c.flights j)) [
      | inl e ↦ rw (e, finish_flight) h
      | inr (flight, e) ↦
          rw (e, finish_flight)
            (rw (publish-state j flight outcome clock c) (elim spares [
              | inl ne ↦ Holds-modify_ne P _ c.flights i j ne h
              | inr keeps ↦ Holds-modify P _ (λ f. keeps _ _ f) c.flights i j h
            ]))
    ]

    -- What a supersession keeps, and each finish that the block may be, every block keeps.
    pub run_block-Holds :
        (b : Block K V) (c : Cache K V)
        → ((j : ℕ) (outcome : Result CacheError V) (clock : Result CacheError ℤ)
            → b ≡ finishes j outcome clock
            → Spares j)
        → Holds P i c.flights
        → Holds P i (run_block b c).flights
    unfolding run_block get_block stats_block len_block
    run_block-Holds (gets key (raise e)) c spares h = h
    run_block-Holds (gets key (ok tick)) c spares h = h
    run_block-Holds (sets key value ttl_ns clock) c spares h =
        set_block-Holds key value ttl_ns clock c h
    run_block-Holds (invalidates key clock) c spares h = invalidate_block-Holds key clock c h
    run_block-Holds (clears clock) c spares h = clear_block-Holds clock c h
    run_block-Holds (starts key ttl_ns clock) c spares h = start_block-Holds key ttl_ns clock c h
    run_block-Holds (counts (raise e)) c spares h = h
    run_block-Holds (counts (ok tick)) c spares h = h
    run_block-Holds (sizes (raise e)) c spares h = h
    run_block-Holds (sizes (ok tick)) c spares h = h
    run_block-Holds (finishes j outcome clock) c spares h =
        finish_flight-Holds j outcome clock c (spares j outcome clock refl) h
