-- ===== src/Cache/State/Reuse.antt =====
-- A version number that is given out twice: the stale item of an invalidated entry takes away the
-- entry that is stored after it.
use bluetape_py.Common.{ℕ, suc, ◌+◌, ◌≤◌, ◌<◌, ◌≡◌, none, [], ◌∷◌, arith}
use bluetape_py.Cache.Dict.{lookup, remove, member}
use bluetape_py.Cache.State.{
  CacheState, Entry, ExpiryItem, heap_push, new_state, bump_version, drop_unused_version, is_live,
  expire, purge_loop, purge_expired, get, evict_loop, insert, trim_heap, store, invalidate,
}

abbrev item : {K : Type 0} → K → ℕ → ℕ → ExpiryItem K
item k t n = record { expires_at = t; sequence = n; key = k; version = 1 }

abbrev entry : {V : Type 0} → V → ℕ → Entry V
entry v t = record { value = v; expires_at = t; version = 1 }

abbrev stored : {K V : Type 0} → K → ℕ → V → ℕ → CacheState K V
stored k m v t = record (new_state (suc m)) {
  entries = (k, entry v t) ∷ [];
  key_versions = (k, 1) ∷ [];
  expiry_heap = item k t 1 ∷ [];
  sequence = 1;
}

abbrev invalidated : {K V : Type 0} → K → ℕ → V → ℕ → CacheState K V
invalidated k m v t = record (stored k m v t) { entries = []; key_versions = []; invalidations = 1 }

abbrev again : {K V : Type 0} → K → ℕ → V → ℕ → V → ℕ → CacheState K V
again k m v t v' t' = record (invalidated k m v t) {
  entries = (k, entry v' t') ∷ [];
  key_versions = (k, 1) ∷ [];
  expiry_heap = item k t 1 ∷ item k t' 2 ∷ [];
  sequence = 2;
}

module _ {K V : Type 0} (dec : Discrete K) (k : K) (m : ℕ) (v v' : V) where
  first_stored :
      (ttl now : ℕ) → store dec k v ttl now [] (new_state (suc m)) ≡ stored k m v (now + ttl)
  unfolding store insert purge_expired purge_loop bump_version lookup remove heap_push evict_loop
      trim_heap new_state
  first_stored ttl now = ground arith

  first_invalidated :
      (t now : ℕ) → now < t → (invalidate dec k now [] (stored k m v t)).1 ≡ invalidated k m v t
  unfolding invalidate purge_expired purge_loop bump_version drop_unused_version lookup remove
      member new_state
  first_invalidated t now h = ground arith

  second_stored :
      (t ttl now : ℕ)
      → now < t
      → t < now + ttl
      → store dec k v' ttl now [] (invalidated k m v t) ≡ again k m v t v' (now + ttl)
  unfolding store insert purge_expired purge_loop bump_version lookup remove heap_push evict_loop
      trim_heap new_state
  second_stored t ttl now h later = ground arith

  second_missed :
      (t t' now : ℕ) → t ≤ now → now < t' → (get dec k now [] (again k m v t v' t')).0 ≡ none
  unfolding get purge_expired purge_loop expire is_live drop_unused_version lookup remove member
      new_state
  second_missed t t' now due early = ground arith

  -- In a new cache of any size, with no load under way: store a key, invalidate it and store it
  -- anew, all before the first entry would have expired. From the time at which the first entry
  -- would have expired a `get` misses, although the second entry is not due yet.
  pub premature_expiry :
      (ttl ttl' t0 t1 t2 now : ℕ)
      → t1 < t0 + ttl
      → t2 < t0 + ttl
      → t0 + ttl ≤ now
      → now < t2 + ttl'
      → (get dec k now [] (
          store dec k v' ttl' t2 []
            (invalidate dec k t1 [] (store dec k v ttl t0 [] (new_state (suc m)))).1)).0
        ≡ none
  premature_expiry ttl ttl' t0 t1 t2 now h1 h2 due early = rw first_stored (
      rw (first_invalidated (t0 + ttl) t1 h1) (
        rw (second_stored (t0 + ttl) ttl' t2 h2 (omega arith))
          (second_missed (t0 + ttl) (t2 + ttl') now due early)))
