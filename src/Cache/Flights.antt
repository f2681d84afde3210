-- ===== src/Cache/Flights.antt =====
-- cache/_sync.py: `TTLCache` and its flights, the loads under way. The cache is one object of the
-- world and each block under its lock one step of it; the clock, a callback that does not touch the
-- cache, has been read (or has raised) when the block starts. A flight is known by its place in
-- `flights`, where every flight ever made stays.
pub mod Places
pub mod Steps
pub mod Consistent
pub mod Superseded
pub mod Outcomes
pub mod Load
mod Examples
use bluetape_py.Common.{
  ℕ, zero, suc, ◌+◌, Bool, true, false, not, ◌&&◌, Option, none, some, List, [], ◌∷◌, ◌++◌, leb,
  ◌==◌, if◌then◌else◌, length, is_some,
}
use bluetape_py.Common.Int.{ℤ}
use bluetape_py.Common.Exec.{Result, ok, raise}
use bluetape_py.Cache.Dict.{lookup, remove, put_last}
use bluetape_py.Cache.State.{
  CacheState, CacheStats, new_state, clamp_tick, bump_version, version, drop_unused_version, get,
  store, invalidate, clear, size, stats,
}

pub data CacheError : Type 0 where
  key_error recursive_load_error load_limit_error runtime_error type_error value_error : CacheError
  -- what a loader or a clock raises
  raised : ℕ → CacheError

pub record SyncFlight (K V : Type 0) : Type 0 where
  pub key : K
  pub epoch : ℕ
  pub version : ℕ
  pub ttl_ns : ℕ
  pub terminal : Bool
  pub superseded : Bool
  pub result : Option V
  pub error : Option CacheError

pub record Cache (K V : Type 0) : Type 0 where
  pub max_inflight : ℕ
  pub state : CacheState K V
  pub flights : List (SyncFlight K V)
  pub active_flights : List (K × ℕ)
  pub owned_flights : List ℕ

abbrev pub get_elem? : {A : Type 0} → List A → ℕ → Option A
get_elem? [] i = none
get_elem? (x ∷ xs) zero = some x
get_elem? (x ∷ xs) (suc i) = get_elem? xs i

-- an assignment to fields of the object at a place
unfoldable pub modify : {A : Type 0} → List A → ℕ → (A → A) → List A
modify [] i f = []
modify (x ∷ xs) zero f = f x ∷ xs
modify (x ∷ xs) (suc i) f = x ∷ modify xs i f

-- `i in s` and `s.discard(i)` of a set of flights
unfoldable pub owns : ℕ → List ℕ → Bool
owns i [] = false
owns i (j ∷ owned) = let rest = owns i owned in if j == i then true else rest

unfoldable pub discard : ℕ → List ℕ → List ℕ
discard i [] = []
discard i (j ∷ owned) = let rest = discard i owned in if j == i then rest else j ∷ rest

abbrev result_of : {V : Type 0} → Result CacheError V → Option V
result_of (ok value) = some value
result_of (raise e) = none

abbrev error_of : {A : Type 0} → Result CacheError A → Option CacheError
error_of (ok value) = none
error_of (raise e) = some e

abbrev pub first_error : Option CacheError → Option CacheError → Option CacheError
first_error none e = e
first_error (some e) _ = some e

abbrev found : {A : Type 0} → Option A → Result CacheError A
found none = raise key_error
found (some value) = ok value

abbrev is_flight : ℕ → Option ℕ → Bool
is_flight i none = false
is_flight i (some j) = i == j

abbrev pub is_key_error : CacheError → Bool
is_key_error key_error = true
is_key_error _ = false

-- How `get_or_load` leaves its first block without an exception.
pub data Start (V : Type 0) : Type 0 where
  hit : V → Start V
  joined : ℕ → Start V
  started : ℕ → Start V

module _ {K V : Type 0} where
  unfoldable pub new_cache : ℕ → ℕ → Cache K V
  new_cache max_size max_inflight = record {
    max_inflight = max_inflight;
    state = new_state max_size;
    flights = [];
    active_flights = [];
    owned_flights = [];
  }

  abbrev pub key_at : Option (SyncFlight K V) → List K → List K
  key_at none keys = keys
  key_at (some flight) keys = flight.key ∷ keys

  unfoldable pub keys_of : List (SyncFlight K V) → List ℕ → List K
  keys_of flights [] = []
  keys_of flights (i ∷ owned) = key_at (get_elem? flights i) (keys_of flights owned)

  -- `_owned_keys`
  abbrev pub owned_keys : Cache K V → List K
  owned_keys c = keys_of c.flights c.owned_flights

  -- `_now`, and what follows it
  abbrev pub with_now :
      {A : Type 0}
      → Result CacheError ℤ
      → Cache K V
      → (ℕ → Cache K V → Result CacheError A × Cache K V)
      → Result CacheError A × Cache K V
  with_now (raise e) c f = (raise e, c)
  with_now (ok tick) c f = let (now, s) = clamp_tick tick c.state in f now (record c { state = s })

  abbrev pub supersede_at : List (SyncFlight K V) → ℕ → List (SyncFlight K V)
  supersede_at flights i = modify flights i λ flight. record flight { superseded = true }

  abbrev supersede_if : Option ℕ → List (SyncFlight K V) → List (SyncFlight K V)
  supersede_if none flights = flights
  supersede_if (some i) flights = supersede_at flights i

  -- the `for` of `clear`
  unfoldable pub supersede_all : List (K × ℕ) → List (SyncFlight K V) → List (SyncFlight K V)
  supersede_all [] flights = flights
  supersede_all ((key, i) ∷ active) flights = supersede_all active (supersede_at flights i)

  abbrev pub new_flight : K → ℕ → ℕ → ℕ → SyncFlight K V
  new_flight key epoch version ttl_ns = record {
    key = key;
    epoch = epoch;
    version = version;
    ttl_ns = ttl_ns;
    terminal = false;
    superseded = false;
    result = none;
    error = none;
  }

  -- `_flight_outcome`
  unfoldable pub flight_outcome : Option (SyncFlight K V) → Result CacheError V
  flight_outcome none = raise runtime_error
  flight_outcome (some flight) = elim flight.error [
    | some e ↦ raise e
    | none ↦ elim flight.result [ none ↦ raise runtime_error | some value ↦ ok value ]
  ]

module _ {K V : Type 0} (dec : Discrete K) where
  -- `_supersede`
  unfoldable pub supersede : K → Cache K V → Cache K V
  supersede key c = record c {
    flights = supersede_if (lookup dec key c.active_flights) c.flights;
    active_flights = remove dec key c.active_flights;
  }

  -- `get`
  unfoldable pub get_block : K → Result CacheError ℤ → Cache K V → Result CacheError V × Cache K V
  get_block key clock c = with_now clock c λ now c'.
      let (value, s) = get dec key now (owned_keys c') c'.state in
      (found value, record c' { state = s })

  -- `set`
  unfoldable pub set_block :
      K → V → ℕ → Result CacheError ℤ → Cache K V → Result CacheError (Unit {0}) × Cache K V
  set_block key value ttl_ns clock c = with_now clock (supersede key c) λ now c'.
      (ok tt, record c' { state = store dec key value ttl_ns now (owned_keys c') c'.state })

  -- `invalidate`
  unfoldable pub invalidate_block :
      K → Result CacheError ℤ → Cache K V → Result CacheError Bool × Cache K V
  invalidate_block key clock c = with_now clock c λ now c1.
      let c2 = supersede key c1 in
      let (removed, s) = invalidate dec key now (owned_keys c2) c2.state in
      (ok removed, record c2 { state = s })

  -- `clear`
  unfoldable pub clear_block :
      Result CacheError ℤ → Cache K V → Result CacheError (Unit {0}) × Cache K V
  clear_block clock c = with_now clock c λ now c1.
      let c2 = record c1 {
        flights = supersede_all c1.active_flights c1.flights;
        active_flights = [];
      } in
      (ok tt, record c2 { state = clear dec (owned_keys c2) c2.state })

  -- a miss with no flight to join
  unfoldable pub start_flight : K → ℕ → Cache K V → Result CacheError (Start V) × Cache K V
  start_flight key ttl_ns c =
      if leb c.max_inflight (length c.owned_flights)
      then (
        raise load_limit_error,
        record c { state = record c.state { load_rejections = suc c.state.load_rejections } },
      )
      else (let i = length c.flights in
          (
            ok (started i),
            record c {
              flights =
                  c.flights
                  ++ new_flight key c.state.clear_epoch (version dec key c.state) ttl_ns ∷ [];
              active_flights = put_last dec key i c.active_flights;
              owned_flights = i ∷ c.owned_flights;
              state = record c.state { loads = suc c.state.loads };
            },
          ))

  abbrev pub join_or_start : K → ℕ → Option ℕ → Cache K V → Result CacheError (Start V) × Cache K V
  join_or_start key ttl_ns (some i) c = (
    ok (joined i),
    record c { state = record c.state { coalesced_waiters = suc c.state.coalesced_waiters } },
  )
  join_or_start key ttl_ns none c = start_flight key ttl_ns c

  abbrev pub after_get : K → ℕ → Option V → Cache K V → Result CacheError (Start V) × Cache K V
  after_get key ttl_ns (some value) c = (ok (hit value), c)
  after_get key ttl_ns none c = join_or_start key ttl_ns (lookup dec key c.active_flights) c

  -- the block of `get_or_load` under the lock; a KeyError of the clock is taken for a miss
  unfoldable pub start_block :
      K → ℕ → Result CacheError ℤ → Cache K V → Result CacheError (Start V) × Cache K V
  start_block key ttl_ns (raise e) c =
      if is_key_error e then after_get key ttl_ns none c else (raise e, c)
  start_block key ttl_ns (ok tick) c =
      let (now, s) = clamp_tick tick c.state in
      let (value, s') = get dec key now (owned_keys c) s in
      after_get key ttl_ns value (record c { state = s' })

  -- the flight is the one that the key now has
  abbrev is_active : ℕ → K → Cache K V → Bool
  is_active i key c = is_flight i (lookup dec key c.active_flights)

  unfoldable pub can_publish : ℕ → SyncFlight K V → Cache K V → Bool
  can_publish i flight c =
      not flight.superseded
      && c.state.clear_epoch == flight.epoch
      && version dec flight.key c.state == flight.version
      && is_active i flight.key c

  -- the `try` of `_finish_flight`
  unfoldable pub publish :
      ℕ
      → SyncFlight K V
      → Result CacheError V
      → Result CacheError ℤ
      → Cache K V
      → Result CacheError (Unit {0}) × Cache K V
  publish i flight (raise e) clock c = (ok tt, c)
  publish i flight (ok value) clock c =
      if can_publish i flight c
      then with_now clock c (λ now c'. (
        ok tt,
        record c' { state = store dec flight.key value flight.ttl_ns now (owned_keys c') c'.state },
      ))
      else (ok tt, c)

  abbrev count_failure : Result CacheError V → CacheState K V → CacheState K V
  count_failure (ok value) s = s
  count_failure (raise e) s = record s { load_failures = suc s.load_failures }

  -- `_finish_flight` after its `try`
  unfoldable pub settle :
      ℕ
      → SyncFlight K V
      → Result CacheError V
      → Result CacheError (Unit {0})
      → Cache K V
      → Cache K V
  settle i flight outcome published c =
      let c' = record c {
        flights = modify c.flights i λ f. record f {
          result = result_of outcome;
          error = first_error (error_of published) (error_of outcome);
          terminal = true;
        };
        active_flights =
            if is_active i flight.key c
            then remove dec flight.key c.active_flights
            else c.active_flights;
        owned_flights = discard i c.owned_flights;
      } in
      record c' {
        state = drop_unused_version dec flight.key (owned_keys c') (count_failure outcome c'.state);
      }

  abbrev finish_at :
      ℕ
      → Option (SyncFlight K V)
      → Result CacheError V
      → Result CacheError ℤ
      → Cache K V
      → Cache K V
  finish_at i none outcome clock c = c
  finish_at i (some flight) outcome clock c =
      let (published, c') = publish i flight outcome clock c in settle i flight outcome published c'

  -- `_finish_flight`
  unfoldable pub finish_flight :
      ℕ → Result CacheError V → Result CacheError ℤ → Cache K V → Cache K V
  finish_flight i outcome clock c = finish_at i (get_elem? c.flights i) outcome clock c

  -- `stats` and `__len__`
  unfoldable pub superseded_among : List (SyncFlight K V) → List ℕ → ℕ
  superseded_among flights [] = 0
  superseded_among flights (i ∷ owned) =
      let rest = superseded_among flights owned in
      elim (get_elem? flights i) [
        | none ↦ rest
        | some flight ↦ if flight.superseded then suc rest else rest
      ]

  unfoldable pub stats_block :
      Result CacheError ℤ → Cache K V → Result CacheError CacheStats × Cache K V
  stats_block clock c = with_now clock c λ now c'.
      let (counts, s) =
        stats dec now (owned_keys c') (length c'.owned_flights) 0
          (superseded_among c'.flights c'.owned_flights) c'.state in
      (ok counts, record c' { state = s })

  unfoldable pub len_block : Result CacheError ℤ → Cache K V → Result CacheError ℕ × Cache K V
  len_block clock c = with_now clock c λ now c'.
      let (n, s) = size dec now (owned_keys c') c'.state in (ok n, record c' { state = s })
