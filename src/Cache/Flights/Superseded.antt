-- ===== src/Cache/Flights/Superseded.antt =====
-- A load that was overtaken by a `set`, an `invalidate` or a `clear` never publishes.
use bluetape_py.Common.{ℕ, ◌≡◌, refl, inr, true, some, List, [], ◌∷◌, arith}
use bluetape_py.Common.Int.{ℤ}
use bluetape_py.Common.Exec.{Result, ok, raise}
use bluetape_py.Cache.Dict.{lookup}
use bluetape_py.Cache.State.{clamp_tick}
use bluetape_py.Cache.State.Expiry.{entries-drop}
use bluetape_py.Cache.Flights.{
  Cache, CacheError, SyncFlight, get_elem?, set_block, invalidate_block, clear_block, finish_flight,
  publish, can_publish, settle, supersede, supersede_all,
}
use bluetape_py.Cache.Flights.Places.{Holds, Holds-modify, Holds-modify_self, Holds-supersede_all}
use bluetape_py.Cache.Flights.Steps.{
  Block, sets, invalidates, clears, run_block, Steps, here, next, run_block-Holds,
}

module _ {K V : Type 0} (dec : Discrete K) where
  abbrev pub IsSuperseded : SyncFlight K V → Type 0
  IsSuperseded f = f.superseded ≡ true

  abbrev IsAny : SyncFlight K V → Type 0
  IsAny f = Unit

  -- The block overtakes a load of `key`.
  pub data Overtakes (key : K) : Block K V → Type 0 where
    by_set :
        (value : V) (ttl_ns : ℕ) (clock : Result CacheError ℤ)
        → Overtakes key (sets key value ttl_ns clock)
    by_invalidate : (tick : ℤ) → Overtakes key (invalidates key (ok tick))
    by_clear : (tick : ℤ) → Overtakes key (clears (ok tick))

  supersede-Holds :
      (key : K) (i : ℕ) (c : Cache K V)
      → lookup dec key c.active_flights ≡ some i
      → Holds IsAny i c.flights
      → Holds IsSuperseded i (supersede dec key c).flights
  unfolding supersede
  supersede-Holds key i c a h =
      rw (a, supersede) (Holds-modify_self IsAny IsSuperseded _ (λ f u. refl) c.flights i h)

  supersede_all-Holds :
      (key : K) (i : ℕ) (active : List (K × ℕ)) (flights : List (SyncFlight K V))
      → lookup dec key active ≡ some i
      → Holds IsAny i flights
      → Holds IsSuperseded i (supersede_all active flights)
  unfolding supersede_all lookup
  supersede_all-Holds key i [] flights a h = absurd (cc a)
  supersede_all-Holds key i ((k, j) ∷ active) flights a h = elim (dec k key) [
    | yes p ↦
        let same : j ≡ i = ground (arith) in
        Holds-supersede_all IsSuperseded (λ f s. refl) active _ i
          (rw same (Holds-modify_self IsAny IsSuperseded _ (λ f u. refl) flights i h))
    | no p ↦
        supersede_all-Holds key i active _ (ground (arith))
          (Holds-modify IsAny _ (λ f u. tt) flights i j h)
  ]

  overtaken :
      (key : K) (b : Block K V)
      → Overtakes key b
      → (i : ℕ) (c : Cache K V) → lookup dec key c.active_flights ≡ some i
      → Holds IsAny i c.flights
      → Holds IsSuperseded i (run_block dec b c).flights
  unfolding run_block set_block invalidate_block clear_block
  overtaken key b (by_set value ttl_ns (raise e)) i c a h = supersede-Holds key i c a h
  overtaken key b (by_set value ttl_ns (ok tick)) i c a h = supersede-Holds key i c a h
  overtaken key b (by_invalidate tick) i c a h =
      supersede-Holds key i (record c { state = (clamp_tick tick c.state).1 }) a h
  overtaken key b (by_clear tick) i c a h = supersede_all-Holds key i c.active_flights c.flights a h

  Steps-superseded :
      {c d : Cache K V}
      → Steps dec c d
      → (i : ℕ) → Holds IsSuperseded i c.flights
      → Holds IsSuperseded i d.flights
  Steps-superseded here i h = h
  Steps-superseded (next {d} steps b allowed) i h =
      run_block-Holds dec IsSuperseded (λ f s. refl) i b d (λ j o clock e. inr (λ r x f s. s))
        (Steps-superseded steps i h)

  publish-superseded :
      (i : ℕ) (flight : SyncFlight K V) (outcome : Result CacheError V)
      (clock : Result CacheError ℤ) (c : Cache K V)
      → IsSuperseded flight
      → publish dec i flight outcome clock c ≡ (ok tt, c)
  unfolding publish can_publish
  publish-superseded i flight (raise e) clock c s = refl
  publish-superseded i flight (ok v) clock c s = rw s

  finish-superseded :
      (i : ℕ) (outcome : Result CacheError V) (clock : Result CacheError ℤ) (c : Cache K V)
      → Holds IsSuperseded i c.flights
      → (finish_flight dec i outcome clock c).state.entries ≡ c.state.entries
  unfolding finish_flight settle
  finish-superseded i (ok v) clock c (flight, e, s) =
      rw (e, finish_flight)
        (rw (publish-superseded i flight (ok v) clock c s) (entries-drop dec flight.key _ _))
  finish-superseded i (raise f) clock c (flight, e, s) =
      rw (e, finish_flight)
        (rw (publish-superseded i flight (raise f) clock c s) (entries-drop dec flight.key _ _))

  -- A load of a key is under way when a `set` or an `invalidate` of its key, or a `clear`, takes the
  -- lock. Then whatever other blocks follow, in any order, the end of the load, with a value or with
  -- an error, leaves the entries of the cache as they are.
  pub superseded_load :
      (key : K) (b : Block K V)
      → Overtakes key b
      → (i : ℕ) (c d : Cache K V) (outcome : Result CacheError V) (clock : Result CacheError ℤ)
      → lookup dec key c.active_flights ≡ some i
      → (f : SyncFlight K V) → get_elem? c.flights i ≡ some f
      → Steps dec (run_block dec b c) d
      → (finish_flight dec i outcome clock d).state.entries ≡ d.state.entries
  superseded_load key b o i c d outcome clock a f e steps =
      finish-superseded i outcome clock d
        (Steps-superseded steps i (overtaken key b o i c a (f, e, tt)))
