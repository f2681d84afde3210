-- ===== src/Cache/State/Calls.antt =====
-- Any sequence of calls on a cache's state, each with its time and the keys of the loads under way.
use bluetape_py.Common.{
  ℕ, ◌-◌, ◌<◌, ◌≡◌, refl, inl, inr, some, List, [], ◌∷◌, arith, length, ltb, ◌*◌, Bool-cases,
  Option-cases,
}
use bluetape_py.Cache.Dict.{lookup}
use bluetape_py.Cache.State.{
  CacheState, Entry, rebuild_expiry_heap, bump_version, drop_unused_version, purge_loop,
  purge_expired, get, evict_loop, insert, trim_heap, store, invalidate, clear, new_state, size,
}
use bluetape_py.Cache.State.Heap.{Ascending-rebuild, InHeap-rebuild, later_than}
use bluetape_py.Cache.State.Expiry.{purge_loop-Covered, lookup-purge_loop, entries-drop}
use bluetape_py.Cache.State.Bounds.{SameSize-drop, SameSize-evict_loop, entries-evict_loop}
use bluetape_py.Cache.State.Tracked.{
  IsTracked, IsTracked-drop, IsTracked-remove, IsTracked-insert, IsTracked-move, Unique-purge_loop,
}

pub data Call (K V : Type 0) : Type 0 where
  gets : K → ℕ → List K → Call K V
  stores : K → V → ℕ → ℕ → List K → Call K V
  invalidates : K → ℕ → List K → Call K V
  clears : List K → Call K V
  sizes : ℕ → List K → Call K V

module _ {K V : Type 0} (dec : Discrete K) where
  unfoldable pub step : Call K V → CacheState K V → CacheState K V
  step (gets key now owned) s = (get dec key now owned s).1
  step (stores key value ttl now owned) s = store dec key value ttl now owned s
  step (invalidates key now owned) s = (invalidate dec key now owned s).1
  step (clears owned) s = clear dec owned s
  step (sizes now owned) s = (size dec now owned s).1

  unfoldable pub run : List (Call K V) → CacheState K V → CacheState K V
  run [] s = s
  run (c ∷ calls) s = run calls (step c s)

  abbrev IsTrackedState : CacheState K V → Type 0
  IsTrackedState s = IsTracked dec s.entries s.expiry_heap

  purge_expired-IsTracked :
      (now : ℕ) (owned : List K) (s : CacheState K V)
      → IsTrackedState s
      → IsTrackedState (purge_expired dec now owned s)
  unfolding purge_expired
  purge_expired-IsTracked now owned s t =
      let left = purge_loop-Covered dec owned now s.expiry_heap s t.covered t.ascending in
      record {
        covered = left.0;
        ascending = left.1;
        unique = Unique-purge_loop dec now owned s.expiry_heap s t.unique;
      }

  get-IsTracked :
      (key : K) (now : ℕ) (owned : List K) (s : CacheState K V)
      → IsTrackedState s
      → IsTrackedState (get dec key now owned s).1
  unfolding get
  get-IsTracked key now owned s t =
      elim (Option-cases (lookup dec key (purge_expired dec now owned s).entries)) [
        | inl e ↦ rw (e, get) (purge_expired-IsTracked now owned s t)
        | inr (entry, e) ↦
            rw (e, get) (IsTracked-move dec key entry _ _ e (purge_expired-IsTracked now owned s t))
      ]

  insert-IsTracked :
      (key : K) (value : V) (ttl now : ℕ) (owned : List K) (s : CacheState K V)
      → IsTrackedState s
      → IsTrackedState (insert dec key value ttl now owned s)
  unfolding insert bump_version
  insert-IsTracked key value ttl now owned s t =
      IsTracked-insert dec key _ _ _ _ (refl, refl, refl) (purge_expired-IsTracked now owned s t)

  evict_loop-IsTracked :
      (owned : List K) (s : CacheState K V)
      → IsTrackedState s
      → IsTrackedState (evict_loop dec owned s.entries s)
  evict_loop-IsTracked owned s t =
      rw (entries-evict_loop dec owned s.entries s, (SameSize-evict_loop dec owned s.entries s).1)
        (IsTracked-drop dec (length s.entries - s.max_size) s.entries s.expiry_heap t)

  trim_heap-IsTracked : (s : CacheState K V) → IsTrackedState s → IsTrackedState (trim_heap dec s)
  unfolding trim_heap rebuild_expiry_heap
  trim_heap-IsTracked s t = elim (Bool-cases (ltb (2 * s.max_size) (length s.expiry_heap))) [
    | inl e ↦
        rw (e, trim_heap)
          (record {
            covered = λ k f h. InHeap-rebuild dec s.sequence k f s.entries h;
            ascending = Ascending-rebuild s.sequence s.entries;
            unique = t.unique;
          })
    | inr e ↦ rw (e, trim_heap) t
  ]

  store-IsTracked :
      (key : K) (value : V) (ttl now : ℕ) (owned : List K) (s : CacheState K V)
      → IsTrackedState s
      → IsTrackedState (store dec key value ttl now owned s)
  unfolding store
  store-IsTracked key value ttl now owned s t = trim_heap-IsTracked _ (
      evict_loop-IsTracked owned (insert dec key value ttl now owned s)
        (insert-IsTracked key value ttl now owned s t))

  drop-IsTracked :
      (key : K) (owned : List K) (s : CacheState K V)
      → IsTrackedState s
      → IsTrackedState (drop_unused_version dec key owned s)
  drop-IsTracked key owned s t =
      rw (entries-drop dec key owned s, (SameSize-drop dec key owned s).1) t

  invalidate-IsTracked :
      (key : K) (now : ℕ) (owned : List K) (s : CacheState K V)
      → IsTrackedState s
      → IsTrackedState (invalidate dec key now owned s).1
  unfolding invalidate bump_version
  invalidate-IsTracked key now owned s t =
      drop-IsTracked key owned _
        (IsTracked-remove dec key _ _ (purge_expired-IsTracked now owned s t))

  step-IsTracked :
      (c : Call K V) (s : CacheState K V) → IsTrackedState s → IsTrackedState (step c s)
  unfolding step clear size
  step-IsTracked (gets key now owned) s t = get-IsTracked key now owned s t
  step-IsTracked (stores key value ttl now owned) s t = store-IsTracked key value ttl now owned s t
  step-IsTracked (invalidates key now owned) s t = invalidate-IsTracked key now owned s t
  step-IsTracked (clears owned) s t = record {
    covered = λ k e h. unfold lookup in cc h;
    ascending = tt;
    unique = tt;
  }
  step-IsTracked (sizes now owned) s t = purge_expired-IsTracked now owned s t

  run-IsTracked :
      (calls : List (Call K V)) (s : CacheState K V)
      → IsTrackedState s
      → IsTrackedState (run calls s)
  unfolding run
  run-IsTracked [] s t = t
  run-IsTracked (c ∷ calls) s t = run-IsTracked calls (step c s) (step-IsTracked c s t)

  new_state-IsTracked : (max_size : ℕ) → IsTrackedState (new_state max_size)
  unfolding new_state lookup
  new_state-IsTracked max_size = record { covered = λ k e h. cc h; ascending = tt; unique = tt }

  get-Fresh :
      (key : K) (now : ℕ) (owned : List K) (s : CacheState K V) (v : V)
      → IsTrackedState s
      → (get dec key now owned s).0 ≡ some v
      → (e : Entry V) × (lookup dec key s.entries ≡ some e) × (e.value ≡ v) × (now < e.expires_at)
  unfolding get purge_expired
  get-Fresh key now owned s v t =
      elim (Option-cases (lookup dec key (purge_loop dec now owned s.expiry_heap s).entries)) [
        | inl e ↦ rw (e, get) (λ h. absurd (ground arith))
        | inr (entry, e) ↦
            let left = purge_loop-Covered dec owned now s.expiry_heap s t.covered t.ascending in
            rw (e, get)
              (λ h. (
                entry,
                lookup-purge_loop dec owned now s.expiry_heap s key entry e,
                ground arith,
                later_than now key entry _ left.2 (left.0 key entry e),
              ))
      ]

  -- After any calls on a new cache, whatever their times, a value that `get` gives is that of the
  -- entry that the key has then, and `now` is before the time at which that entry expires.
  pub get_after_calls :
      (max_size : ℕ) (calls : List (Call K V)) (key : K) (now : ℕ) (owned : List K) (v : V)
      → (get dec key now owned (run calls (new_state max_size))).0 ≡ some v
      → (e : Entry V) × (lookup dec key (run calls (new_state max_size)).entries ≡ some e)
        × (e.value ≡ v)
        × (now < e.expires_at)
  get_after_calls max_size calls key now owned v =
      get-Fresh key now owned (run calls (new_state max_size)) v
        (run-IsTracked calls (new_state max_size) (new_state-IsTracked max_size))
