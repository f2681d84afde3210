-- ===== src/Cache/Flights/Consistent.antt =====
-- The active and the owned flights of a cache, whatever blocks run in whatever order.
use bluetape_py.Common.{
  ℕ, ◌≤◌, ◌<◌, ◌≡◌, ◌≢◌, ◌↔◌, refl, sym, ap, inl, inr, true, false, Option, none, some, List, [],
  ◌∷◌, ◌++◌, Option-cases, Bool-cases, if◌then◌else◌, arith, leb, length, ℕ_discrete,
}
use bluetape_py.Common.Int.{ℤ}
use bluetape_py.Common.Exec.{Result, ok, raise}
use bluetape_py.Cache.Dict.{lookup, remove, put_last, lookup-remove_self, lookup-remove_ne}
use bluetape_py.Cache.State.{CacheState, get, clamp_tick, version}
use bluetape_py.Cache.State.Tracked.{lookup-put_last}
use bluetape_py.Cache.Flights.{
  Cache, CacheError, SyncFlight, get_elem?, modify, owns, discard, get_block, set_block,
  invalidate_block, clear_block, start_block, start_flight, finish_flight, publish, settle,
  stats_block, len_block, supersede, supersede_all, supersede_at, supersede_if, new_cache,
  owned_keys, is_key_error, after_get, is_active, new_flight,
}
use bluetape_py.Cache.Flights.Places.{
  Holds, Holds-modify, Holds-modify_ne, Holds-append, Holds-last, get_elem?-modify,
  get_elem?-append, owns-discard, owns-discard_self, length-discard-le,
}
use bluetape_py.Cache.Flights.Steps.{
  Block, gets, sets, invalidates, clears, starts, counts, sizes, finishes, run_block, Steps, here,
  next, publish-state,
}
use bluetape_py.Cache.Flights.Consistent.Owned.{
  IsOpen, IsFor, OwnsOpen, ActiveOpen, IsConsistent, supersede_all-OwnsOpen, supersede-IsConsistent,
  IsConsistent-state,
}
use bluetape_py.Cache.Flights.Consistent.Ended.{finish_flight-IsConsistent}
pub mod Owned
mod Ended

module _ {K V : Type 0} (dec : Discrete K) (limit : ℕ) where
  -- a new flight at the end
  started : K → ℕ → ℕ → ℕ → Cache K V → Cache K V
  started key epoch version ttl_ns c = record c {
    flights = c.flights ++ new_flight key epoch version ttl_ns ∷ [];
    active_flights = put_last dec key (length c.flights) c.active_flights;
    owned_flights = length c.flights ∷ c.owned_flights;
  }

  started-IsConsistent :
      (key : K) (epoch version ttl_ns : ℕ) (c : Cache K V)
      → length c.owned_flights < c.max_inflight
      → IsConsistent dec limit c
      → IsConsistent dec limit (started key epoch version ttl_ns c)
  unfolding started owns
  started-IsConsistent key epoch version ttl_ns c room v = record {
    kept = v.kept;
    active_open = λ k i e. elim (dec key k) [
      | yes p ↦
          let is_new : length c.flights ≡ i =
            ground (arith, lookup-put_last dec key k (length c.flights) c.active_flights) in
          (
            ground arith,
            rw (sym is_new)
                (Holds-last (IsFor k) c.flights (new_flight key epoch version ttl_ns) (p, refl)),
          )
      | no p ↦
          let old =
            v.active_open k i
              (ground (arith, lookup-put_last dec key k (length c.flights) c.active_flights)) in
          (ground (arith, old.0), Holds-append (IsFor k) c.flights _ i old.1)
    ];
    owns_open = record {
      owned_open = λ i own. elim (ℕ_discrete (length c.flights) i) [
        | yes is_new ↦
            rw (sym is_new) (Holds-last IsOpen c.flights (new_flight key epoch version ttl_ns) refl)
        | no old ↦ Holds-append IsOpen c.flights _ i (v.owns_open.owned_open i (ground arith))
      ];
      open_owned = λ i f at open_. elim (get_elem?-append c.flights _ i f at) [
        | inl old ↦ ground (arith, v.owns_open.open_owned i f old open_)
        | inr (is_new, same) ↦ ground arith
      ];
    };
    bounded = omega (arith, v.kept);
  }

  start_flight-IsConsistent :
      (key : K) (ttl_ns : ℕ) (c : Cache K V)
      → IsConsistent dec limit c
      → IsConsistent dec limit (start_flight dec key ttl_ns c).1
  unfolding start_flight started
  start_flight-IsConsistent key ttl_ns c v =
      elim (Bool-cases (leb c.max_inflight (length c.owned_flights))) [
        | inl full ↦ rw full (IsConsistent-state dec limit c _ v)
        | inr room ↦ rw room (
            IsConsistent-state dec limit _ _
              (started-IsConsistent key _ _ ttl_ns c (ground arith) v))
      ]

  after_get-IsConsistent :
      (key : K) (ttl_ns : ℕ) (value : Option V) (c : Cache K V)
      → IsConsistent dec limit c
      → IsConsistent dec limit (after_get dec key ttl_ns value c).1
  after_get-IsConsistent key ttl_ns (some value) c v = v
  after_get-IsConsistent key ttl_ns none c v =
      elim (Option-cases (lookup dec key c.active_flights)) [
        | inr (j, a) ↦ rw a (IsConsistent-state dec limit c _ v)
        | inl a ↦ rw a (start_flight-IsConsistent key ttl_ns c v)
      ]

  start_block-IsConsistent :
      (key : K) (ttl_ns : ℕ) (clock : Result CacheError ℤ) (c : Cache K V)
      → IsConsistent dec limit c
      → IsConsistent dec limit (start_block dec key ttl_ns clock c).1
  unfolding start_block
  start_block-IsConsistent key ttl_ns (raise e) c v = elim (Bool-cases (is_key_error e)) [
    | inl missing ↦ rw (missing, start_block) (after_get-IsConsistent key ttl_ns none c v)
    | inr other ↦ rw (other, start_block) v
  ]
  start_block-IsConsistent key ttl_ns (ok tick) c v =
      let t = clamp_tick tick c.state in
      after_get-IsConsistent key ttl_ns (get dec key t.0 (owned_keys c) t.1).0
        (record c { state = (get dec key t.0 (owned_keys c) t.1).1 })
        (IsConsistent-state dec limit c _ v)

  set_block-IsConsistent :
      (key : K) (value : V) (ttl_ns : ℕ) (clock : Result CacheError ℤ) (c : Cache K V)
      → IsConsistent dec limit c
      → IsConsistent dec limit (set_block dec key value ttl_ns clock c).1
  unfolding set_block
  set_block-IsConsistent key value ttl_ns (raise e) c v = supersede-IsConsistent dec limit key c v
  set_block-IsConsistent key value ttl_ns (ok tick) c v =
      IsConsistent-state dec limit _ _ (supersede-IsConsistent dec limit key c v)

  invalidate_block-IsConsistent :
      (key : K) (clock : Result CacheError ℤ) (c : Cache K V)
      → IsConsistent dec limit c
      → IsConsistent dec limit (invalidate_block dec key clock c).1
  unfolding invalidate_block
  invalidate_block-IsConsistent key (raise e) c v = v
  invalidate_block-IsConsistent key (ok tick) c v = IsConsistent-state dec limit _ _ (
      supersede-IsConsistent dec limit key (record c { state = (clamp_tick tick c.state).1 })
        (IsConsistent-state dec limit c _ v))

  clear_block-IsConsistent :
      (clock : Result CacheError ℤ) (c : Cache K V)
      → IsConsistent dec limit c
      → IsConsistent dec limit (clear_block dec clock c).1
  unfolding clear_block lookup
  clear_block-IsConsistent (raise e) c v = v
  clear_block-IsConsistent (ok tick) c v = record {
    kept = v.kept;
    active_open = λ k i e. absurd (cc e);
    owns_open = supersede_all-OwnsOpen c.active_flights c.flights c.owned_flights v.owns_open;
    bounded = v.bounded;
  }

  run_block-IsConsistent :
      (b : Block K V) (c : Cache K V)
      → IsConsistent dec limit c
      → IsConsistent dec limit (run_block dec b c)
  unfolding run_block get_block stats_block len_block
  run_block-IsConsistent (gets key (raise e)) c v = v
  run_block-IsConsistent (gets key (ok tick)) c v = IsConsistent-state dec limit c _ v
  run_block-IsConsistent (sets key value ttl_ns clock) c v =
      set_block-IsConsistent key value ttl_ns clock c v
  run_block-IsConsistent (invalidates key clock) c v = invalidate_block-IsConsistent key clock c v
  run_block-IsConsistent (clears clock) c v = clear_block-IsConsistent clock c v
  run_block-IsConsistent (starts key ttl_ns clock) c v =
      start_block-IsConsistent key ttl_ns clock c v
  run_block-IsConsistent (counts (raise e)) c v = v
  run_block-IsConsistent (counts (ok tick)) c v = IsConsistent-state dec limit c _ v
  run_block-IsConsistent (sizes (raise e)) c v = v
  run_block-IsConsistent (sizes (ok tick)) c v = IsConsistent-state dec limit c _ v
  run_block-IsConsistent (finishes i outcome clock) c v =
      finish_flight-IsConsistent dec limit i outcome clock c v

  pub Steps-IsConsistent :
      {c d : Cache K V} → Steps dec c d → IsConsistent dec limit c → IsConsistent dec limit d
  Steps-IsConsistent here v = v
  Steps-IsConsistent (next {d} steps b allowed) v =
      run_block-IsConsistent b d (Steps-IsConsistent steps v)

  pub new_cache-IsConsistent :
      (max_size : ℕ) → IsConsistent {V = V} dec limit (new_cache max_size limit)
  unfolding new_cache lookup owns
  new_cache-IsConsistent max_size = record {
    kept = refl;
    active_open = λ k i e. absurd (cc e);
    owns_open = record {
      owned_open = λ i own. absurd (cc own);
      open_owned = λ i f at open_. absurd (cc at);
    };
    bounded = omega arith;
  }

-- From a new cache, whatever blocks run in whatever order, with each flight ended only while its
-- owner has it: at most `max_inflight` loads are under way; they are exactly the flights that have
-- not ended; and the flight that a caller joins for a key is one of them, of that key, and not
-- overtaken.
pub flights_invariant :
    {K V : Type 0} (dec : Discrete K) (max_size max_inflight : ℕ) {c : Cache K V}
    → Steps dec (new_cache max_size max_inflight) c
    → (length c.owned_flights ≤ max_inflight)
      × ((i : ℕ) (f : SyncFlight K V)
          → get_elem? c.flights i ≡ some f
          → (f.terminal ≡ false) ↔ (owns i c.owned_flights ≡ true))
      × ((k : K) (i : ℕ)
          → lookup dec k c.active_flights ≡ some i
          → (owns i c.owned_flights ≡ true)
            × (f : SyncFlight K V) × (get_elem? c.flights i ≡ some f)
            × (f.key ≡ k)
            × (f.superseded ≡ false))
flights_invariant dec max_size max_inflight {c} steps =
    let v =
      Steps-IsConsistent dec max_inflight steps
        (new_cache-IsConsistent dec max_inflight max_size) in
    (
      v.bounded,
      (λ i f at. (
        v.owns_open.open_owned i f at,
        (λ own. let (g, e, open_) = v.owns_open.owned_open i own in cc (at, e, open_)),
      )),
      (λ k i a. let (own, (f, e, p)) = v.active_open k i a in (own, f, e, p.0, p.1)),
    )
