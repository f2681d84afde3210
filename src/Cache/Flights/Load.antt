-- ===== src/Cache/Flights/Load.antt =====
-- cache/_sync.py: `TTLCache.get_or_load`. `tokens` are the keys that the thread's loaders of this cache
-- are loading. The lock's blocks are those of Cache/Flights; the clock is read just before each.
pub mod Course
use bluetape_py.Common.{ℕ, Bool, true, false, Option, none, some, List, [], ◌∷◌, if◌then◌else◌}
use mathlib.Core.Logic.{ite}
use bluetape_py.Common.Int.{ℤ}
use bluetape_py.Common.Exec.{Result, ok, raise, Exec, pure, throw, lift, ◌>>=◌, ◌>>◌, Cell, locked}
use bluetape_py.Cache.Dict.{member}
use bluetape_py.Cache.Flights.{
  Cache, CacheError, key_error, recursive_load_error, Start, hit, joined, started, start_block,
  finish_flight, flight_outcome, get_elem?,
}

-- `try: ... except BaseException as caught`, as a value
abbrev pub attempt : {W A : Type 0} → Exec CacheError W A → Exec CacheError W (Result CacheError A)
attempt m w = let (r, w') = m w in (ok r, w')

module _ {K : Type 0} (dec : Discrete K) where
  unfoldable pub without : K → List K → List K
  without key [] = []
  without key (k ∷ held) = ite (dec k key) (without key held) (k ∷ without key held)

  -- `tokens.remove(token)`
  unfoldable pub drop_token : K → List K → Result CacheError (Unit {0}) × List K
  drop_token key held =
      if member dec key held then (ok tt, without key held) else (raise key_error, held)

module _ {K V W : Type 0} (dec : Discrete K) (cell : Cell W (Cache K V))
    (tokens : Cell W (List K)) where
  -- the loader, with its token put before it and taken away after it
  unfoldable pub load_outcome :
      K → (K → Exec CacheError W V) → Exec CacheError W (Result CacheError V)
  load_outcome key loader = do
    locked tokens λ held. (tt, key ∷ held)
    outcome ← attempt (loader key)
    dropped ← locked tokens (drop_token dec key)
    lift dropped
    pure outcome

  -- the outcome of the flight, as the cache now has it
  abbrev pub outcome_now : ℕ → Exec CacheError W V
  outcome_now i w = (flight_outcome (get_elem? (cell.read w).flights i), w)

  abbrev pub finish_then : ℕ → Result CacheError V → Result CacheError ℤ → Exec CacheError W V
  finish_then i outcome tick = do
    locked cell λ c. (tt {0}, finish_flight dec i outcome tick c)
    outcome_now i

  module _ (clock : Exec CacheError W ℤ) (wait : ℕ → Exec CacheError W (Unit {0})) (key : K)
      (loader : K → Exec CacheError W V) where
    abbrev pub after_start : Start V → Exec CacheError W V
    after_start (hit value) = pure value
    after_start (joined i) = do wait i; outcome_now i
    after_start (started i) = do
      outcome ← load_outcome key loader
      tick ← attempt clock
      finish_then i outcome tick

    -- `ttl` is what `_ttl_ns` gives of the argument, or the default
    unfoldable pub get_or_load : Result CacheError ℕ → Exec CacheError W V
    get_or_load ttl w =
        if member dec key (tokens.read w)
        then throw recursive_load_error w
        else (do
          ttl_ns ← lift ttl
          tick ← attempt clock
          start ← locked cell (start_block dec key ttl_ns tick)
          lift start >>= after_start)
            w
