-- ===== src/Cache/Flights/Consistent/Ended.antt =====
-- The end of a flight keeps a cache consistent.
use bluetape_py.Common.{
  ℕ, ◌≡◌, ◌≢◌, sym, ap, inl, inr, true, false, Option, some, Option-cases, Bool-cases,
  if◌then◌else◌, arith, ℕ_discrete,
}
use bluetape_py.Common.Int.{ℤ}
use bluetape_py.Common.Exec.{Result}
use bluetape_py.Cache.Dict.{lookup, remove, lookup-remove_self, lookup-remove_ne}
use bluetape_py.Cache.Flights.{
  Cache, CacheError, SyncFlight, get_elem?, modify, owns, discard, finish_flight, publish, settle,
  is_active,
}
use bluetape_py.Cache.Flights.Places.{
  Holds-modify_ne, get_elem?-modify, owns-discard, owns-discard_self, length-discard-le,
}
use bluetape_py.Cache.Flights.Steps.{publish-state}
use bluetape_py.Cache.Flights.Consistent.Owned.{IsOpen, IsFor, IsConsistent, IsConsistent-state}

module _ {K V : Type 0} (dec : Discrete K) (limit : ℕ) where
  -- a flight that its owner has ended
  ended : ℕ → SyncFlight K V → Option V → Option CacheError → Cache K V → Cache K V
  ended j flight result error c = record c {
    flights = modify c.flights j λ f. record f { result = result; error = error; terminal = true };
    active_flights =
        if is_active dec j flight.key c
        then remove dec flight.key c.active_flights
        else c.active_flights;
    owned_flights = discard j c.owned_flights;
  }

  -- what stays active is not the flight that has ended
  still_active :
      (j : ℕ) (flight : SyncFlight K V) (c : Cache K V) (k : K) (i : ℕ)
      → IsConsistent dec limit c
      → get_elem? c.flights j ≡ some flight
      → lookup dec k (
          if is_active dec j flight.key c
          then remove dec flight.key c.active_flights
          else c.active_flights)
        ≡ some i
      → (i ≢ j) × (lookup dec k c.active_flights ≡ some i)
  still_active j flight c k i v at e = elim (Bool-cases (is_active dec j flight.key c)) [
    | inl b ↦ elim (dec flight.key k) [
      | yes p ↦ absurd (cc (e, b, p, lookup-remove_self dec k c.active_flights))
      | no p ↦
          let was : lookup dec k c.active_flights ≡ some i =
            cc (rw b at e, lookup-remove_ne dec flight.key k c.active_flights (λ q. p (sym q))) in
          ((λ same. let (g, e', q) = (v.active_open k i was).1 in p (cc (at, e', same, q.0))), was)
    ]
    | inr b ↦
        let was : lookup dec k c.active_flights ≡ some i = rw b at e in
        (
          (λ same.
              let (g, e', q) = (v.active_open k i was).1 in
              let is_k : flight.key ≡ k = cc (at, e', same, q.0) in
              cc (own_place flight.key k i is_k was same b)),
          was,
        )
  ]
    where
      own_place :
          (m k : K) (i : ℕ)
          → m ≡ k
          → lookup dec k c.active_flights ≡ some i
          → i ≡ j
          → is_active dec j m c ≡ false
          → false ≡ true
      own_place m k i p was same b = ground arith

  ended-IsConsistent :
      (j : ℕ) (flight : SyncFlight K V) (result : Option V) (error : Option CacheError)
      (c : Cache K V)
      → get_elem? c.flights j ≡ some flight
      → IsConsistent dec limit c
      → IsConsistent dec limit (ended j flight result error c)
  unfolding ended
  ended-IsConsistent j flight result error c at v = record {
    kept = v.kept;
    active_open = λ k i e.
        let (ne, was) = still_active j flight c k i v at e in
        let old = v.active_open k i was in
        (
          rw (owns-discard i j c.owned_flights ne) old.0,
          Holds-modify_ne (IsFor k) _ c.flights i j ne old.1,
        );
    owns_open = record {
      owned_open = λ i own. elim (ℕ_discrete i j) [
        | yes same ↦ absurd (cc (own, same, owns-discard_self j c.owned_flights))
        | no ne ↦
            let was : owns i c.owned_flights ≡ true =
              cc (own, owns-discard i j c.owned_flights ne) in
            Holds-modify_ne IsOpen _ c.flights i j ne (v.owns_open.owned_open i was)
      ];
      open_owned = λ i f at' open_.
          let (g, was, how) = get_elem?-modify _ c.flights i j f at' in
          elim how [
            | inl (same, is) ↦ absurd (cc (open_, ap (λ (x : SyncFlight K V). x.terminal) is))
            | inr (ne, is) ↦
                let still =
                  v.owns_open.open_owned i g was
                    (cc (open_, ap (λ (x : SyncFlight K V). x.terminal) is)) in
                cc (still, owns-discard i j c.owned_flights ne)
          ];
    };
    bounded = omega (arith, v.bounded, length-discard-le j c.owned_flights);
  }

  pub finish_flight-IsConsistent :
      (j : ℕ) (outcome : Result CacheError V) (clock : Result CacheError ℤ) (c : Cache K V)
      → IsConsistent dec limit c
      → IsConsistent dec limit (finish_flight dec j outcome clock c)
  unfolding finish_flight settle ended
  finish_flight-IsConsistent j outcome clock c v = elim (Option-cases (get_elem? c.flights j)) [
    | inl e ↦ rw (e, finish_flight) v
    | inr (flight, e) ↦
        rw (e, finish_flight)
          (rw (publish-state dec j flight outcome clock c) (
            IsConsistent-state dec limit _ _ (
              ended-IsConsistent j flight _ _
                (record c { state = (publish dec j flight outcome clock c).1.state }) e
                (IsConsistent-state dec limit c _ v))))
  ]
