-- ===== src/Cache/Flights/Examples.antt =====
-- Tests of the flights of a cache on concrete inputs.
use bluetape_py.Common.{ℕ, List, ◌∙◌, ◌≡◌, ◌≤◌, ◌↔◌, refl, some, true, false, [], length}
use native.Mathlib.Decide.{ℕ_discrete}
use bluetape_py.Common.Int.{ℤ, pos}
use bluetape_py.Common.Exec.{Cell, Exec, ok, raise, pure, throw}
use bluetape_py.Common.Acts.{Acts}
use bluetape_py.Cache.Flights.Load.{get_or_load, load_outcome, drop_token, without}
use bluetape_py.Cache.Flights.Load.Course.{Course, IsLoaded, get_or_load-Course}
use bluetape_py.Cache.Dict.{lookup, remove, member}
use bluetape_py.Cache.State.{
  new_state, clamp_tick, bump_version, version, get, store, purge_expired, purge_loop, expire,
  is_live, drop_unused_version, insert, evict_loop, trim_heap, heap_push, rebuild_expiry_heap,
  rebuild_from,
}
use bluetape_py.Cache.Flights.{
  Cache, SyncFlight, CacheError, raised, new_cache, new_flight, get_elem?, modify, owns, discard,
  keys_of, supersede, get_block, set_block, start_flight, start_block, can_publish, publish, settle,
  finish_flight, flight_outcome,
}
use bluetape_py.Cache.Flights.Steps.{sets, starts, run_block, Steps, here, next}
use bluetape_py.Cache.Flights.Consistent.{flights_invariant}
use bluetape_py.Cache.Flights.Superseded.{by_set, superseded_load}
use bluetape_py.Cache.Flights.Outcomes.{IsGiven, waiters_agree}

program : Unit {0}
unfolding lookup remove member new_state clamp_tick bump_version version get store purge_expired
    purge_loop expire is_live drop_unused_version insert evict_loop trim_heap heap_push
    rebuild_expiry_heap rebuild_from new_cache modify owns discard keys_of supersede get_block
    set_block start_flight start_block can_publish publish settle finish_flight flight_outcome
    run_block ℕ_discrete
program = tt

abbrev empty_cache : Cache ℕ ℕ
empty_cache = new_cache 2 2

-- the load of one key is under way
abbrev loading : Cache ℕ ℕ
loading = run_block ℕ_discrete (starts 4 9 (ok (pos 0))) empty_cache

abbrev loading_steps : Steps ℕ_discrete empty_cache loading
loading_steps = next here (starts 4 9 (ok (pos 0))) tt

-- its value is published
publishes :
    (get_block ℕ_discrete 4
      (ok (pos 2))
      (finish_flight ℕ_discrete 0 (ok 40) (ok (pos 1)) loading)).0
    ≡ ok 40
unfolding program
publishes = refl

-- the same load, when the key was set meanwhile
abbrev overtaken : Cache ℕ ℕ
overtaken = run_block ℕ_discrete (sets 4 41 9 (ok (pos 1))) loading

keeps_set :
    (get_block ℕ_discrete 4
      (ok (pos 2))
      (finish_flight ℕ_discrete 0 (ok 40) (ok (pos 1)) overtaken)).0
    ≡ ok 41
unfolding program
keeps_set = refl

abbrev flight : SyncFlight ℕ ℕ
flight = new_flight 4 0 0 9

flights_invariant_example :
    (length loading.owned_flights ≤ 2)
    × ((i : ℕ) (f : SyncFlight ℕ ℕ)
        → get_elem? loading.flights i ≡ some f
        → (f.terminal ≡ false) ↔ (owns i loading.owned_flights ≡ true))
    × ((k : ℕ) (i : ℕ)
        → lookup ℕ_discrete k loading.active_flights ≡ some i
        → (owns i loading.owned_flights ≡ true)
          × (f : SyncFlight ℕ ℕ) × (get_elem? loading.flights i ≡ some f)
          × (f.key ≡ k)
          × (f.superseded ≡ false))
flights_invariant_example = flights_invariant ℕ_discrete 2 2 loading_steps

superseded_load_example :
    (finish_flight ℕ_discrete 0 (ok 40) (ok (pos 1)) overtaken).state.entries
    ≡ overtaken.state.entries
unfolding program
superseded_load_example =
    superseded_load ℕ_discrete 4 (sets 4 41 9 (ok (pos 1))) (by_set 41 9 (ok (pos 1))) 0 loading
      overtaken (ok 40) (ok (pos 1)) refl flight refl here

waiters_agree_example : IsGiven ℕ_discrete (raise (raised 7)) (ok (pos 1)) (
    flight_outcome
      (get_elem? (finish_flight ℕ_discrete 0 (raise (raised 7)) (ok (pos 1)) loading).flights 0))
unfolding program
waiters_agree_example =
    waiters_agree ℕ_discrete 2 2 0 (raise (raised 7)) (ok (pos 1)) loading_steps refl here

-- a thread alone with its cache: the world is the cache and the thread's tokens
abbrev cache_cell : Cell (Cache ℕ ℕ × List ℕ) (Cache ℕ ℕ)
cache_cell = record { read = λ w. w.0; write = λ c w. (c, w.1); read-write = λ c w. refl }

abbrev token_cell : Cell (Cache ℕ ℕ × List ℕ) (List ℕ)
token_cell = record { read = λ w. w.1; write = λ held w. (w.0, held); read-write = λ held w. refl }

abbrev zero_clock : Exec CacheError (Cache ℕ ℕ × List ℕ) ℤ
zero_clock = pure (pos 0)

abbrev no_wait : ℕ → Exec CacheError (Cache ℕ ℕ × List ℕ) (Unit {0})
no_wait i = pure tt

abbrev failing : ℕ → Exec CacheError (Cache ℕ ℕ × List ℕ) ℕ
failing key = throw (raised 7)

abbrev Same : Cache ℕ ℕ → Cache ℕ ℕ → Type 0
Same c d = c ≡ d

-- the loader's error is given to the caller, and no load is left under way
raises_error :
    (get_or_load ℕ_discrete cache_cell token_cell zero_clock no_wait 4 failing
      (ok 9)
      (empty_cache, [])).0
    ≡ raise (raised 7)
unfolding program get_or_load load_outcome drop_token without
raises_error = refl

get_or_load-Course_example :
    Acts cache_cell
      (Course ℕ_discrete Same (IsLoaded 4 failing) 4)
      (get_or_load ℕ_discrete cache_cell token_cell zero_clock no_wait 4 failing (ok 9))
get_or_load-Course_example =
    get_or_load-Course ℕ_discrete (record { here = λ s. refl; after = λ s t u p q. p ∙ q })
      cache_cell token_cell zero_clock no_wait 4 failing
      (record {
        apart = λ held w. refl;
        ticks = record { at = λ w. refl };
        waits = λ i. record { at = λ w. refl };
        loads = record { at = λ w. refl };
        loads-tokens = λ w. refl;
      })
      (ok 9)
