-- ===== src/Cache/Examples.antt =====
-- Tests of a cache's state on concrete inputs.
use bluetape_py.Common.{
  ℕ, true, ◌-◌, ◌*◌, ◌≤◌, ◌<◌, ◌≡◌, ◌↔◌, refl, none, some, [], ◌∷◌, arith, length, inl,
}
use native.Mathlib.Decide.{ℕ_discrete}
use bluetape_py.Common.Int.{pos}
use bluetape_py.Common.Exec.{ok}
use bluetape_py.Cache.Flights.{new_cache}
use bluetape_py.Cache.Arguments.{int, float, ttl_ns, positive_int, init}
use bluetape_py.Cache.Dict.{lookup, remove, member}
use bluetape_py.Cache.State.{
  CacheState, Entry, heap_push, new_state, bump_version, drop_unused_version, is_live, expire,
  purge_loop, purge_expired, get, evict_loop, insert, trim_heap, store, invalidate,
  rebuild_expiry_heap, rebuild_from,
}
use bluetape_py.Cache.State.Bounds.{drop, store_bounds}
use bluetape_py.Cache.State.Expiry.{purge_exact}
use bluetape_py.Cache.State.Reuse.{premature_expiry}
use bluetape_py.Cache.State.Calls.{stores, step, run, get_after_calls}

abbrev small : CacheState ℕ ℕ
small = new_state 1

program : Unit {0}
unfolding lookup remove member heap_push new_state bump_version drop_unused_version is_live expire
    purge_loop purge_expired get evict_loop insert trim_heap store invalidate rebuild_expiry_heap
    rebuild_from step run ℕ_discrete
program = tt

-- two entries in a cache of one: the first is evicted
evicts :
    (get ℕ_discrete 4 1 [] (store ℕ_discrete 5 50 9 1 [] (store ℕ_discrete 4 40 9 0 [] small))).0
    ≡ none
unfolding program
evicts = refl

abbrev one_entry : CacheState ℕ ℕ
one_entry = record (new_state 2) {
  entries = (4, record { value = 40; expires_at = 9; version = 1 }) ∷ [];
  expiry_heap = record { expires_at = 9; sequence = 1; key = 4; version = 1 } ∷ [];
}

store_bounds_example :
    (length (store ℕ_discrete 5 50 9 1 [] small).entries ≤ 1)
    × ((store ℕ_discrete 5 50 9 1 [] small).entries
        ≡ drop
            (length (insert ℕ_discrete 5 50 9 1 [] small).entries - 1)
            (insert ℕ_discrete 5 50 9 1 [] small).entries)
    × (length (store ℕ_discrete 5 50 9 1 [] small).expiry_heap ≤ 2 * 1)
unfolding new_state
store_bounds_example = store_bounds ℕ_discrete 5 50 9 1 [] small

abbrev forty : Entry ℕ
forty = record { value = 40; expires_at = 9; version = 1 }

purge_exact_example :
    (lookup ℕ_discrete 4 (purge_expired ℕ_discrete 3 [] one_entry).entries ≡ some forty)
    ↔ ((lookup ℕ_discrete 4 one_entry.entries ≡ some forty) × (3 < 9))
unfolding lookup new_state
purge_exact_example =
    purge_exact ℕ_discrete 3 [] one_entry 4 forty (λ k e h. inl (ground arith)) (tt, tt)
      (λ k e h. (λ p q. ground arith, tt))

premature_expiry_example :
    (get {V = ℕ} ℕ_discrete 4 9 [] (
      store ℕ_discrete 4 41 9 5 []
        (invalidate ℕ_discrete 4 3 [] (store ℕ_discrete 4 40 9 0 [] (new_state 1))).1)).0
    ≡ none
premature_expiry_example =
    premature_expiry ℕ_discrete 4 0 40 41 9 9 0 3 5 9 (omega arith) (omega arith) (omega arith)
      (omega arith)

get_after_calls_example :
    (e : Entry ℕ) × (lookup ℕ_discrete 4
        (run ℕ_discrete (stores 4 40 9 0 [] ∷ []) (new_state 2)).entries
      ≡ some e)
    × (e.value ≡ 40)
    × (3 < e.expires_at)
unfolding program
get_after_calls_example = get_after_calls ℕ_discrete 2 (stores 4 40 9 0 [] ∷ []) 4 3 [] 40 refl

-- a cache with a time to live of half a second, as a float
makes :
    init {K = ℕ} {V = ℕ} (float (pos 1) 1) (int (pos 8)) none true ≡ ok (500000000, new_cache 8 8)
unfolding init ttl_ns positive_int
makes = refl
