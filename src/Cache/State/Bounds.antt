-- ===== src/Cache/State/Bounds.antt =====
-- The sizes of the entries and of the heap after a `store`, and what it evicts.
use bluetape_py.Common.{
  ℕ, zero, suc, ◌-◌, ◌*◌, ◌≤◌, ◌≡◌, refl, List, [], ◌∷◌, arith, ltb, length, Bool-cases, inl, inr,
}
use bluetape_py.Cache.Dict.{remove}
use bluetape_py.Cache.State.{
  CacheState, Entry, ExpiryItem, drop_unused_version, bump_version, expire, purge_loop,
  purge_expired, evict_loop, insert, trim_heap, store, rebuild_expiry_heap,
}
use bluetape_py.Cache.State.Heap.{length-rebuild}

-- What is left of a list without its first `n` items.
abbrev pub drop {ℓ} : {A : Type ℓ} → ℕ → List A → List A
drop zero xs = xs
drop (suc n) [] = []
drop (suc n) (x ∷ xs) = drop n xs

length-drop : {A : Type 0} (n : ℕ) (xs : List A) → length (drop n xs) ≡ length xs - n
length-drop zero xs = omega arith
length-drop (suc n) [] = omega arith
length-drop (suc n) (x ∷ xs) = omega (arith, length-drop n xs)

-- The parts of a state that the eviction and the purge leave alone.
abbrev pub SameSize : {K V : Type 0} → CacheState K V → CacheState K V → Type 0
SameSize s t = (t.max_size ≡ s.max_size) × (t.expiry_heap ≡ s.expiry_heap)

module _ {K V : Type 0} (dec : Discrete K) where
  pub SameSize-drop :
      (key : K) (owned : List K) (s : CacheState K V)
      → SameSize s (drop_unused_version dec key owned s)
  unfolding drop_unused_version
  SameSize-drop key owned s = ground arith

  pub SameSize-evict_loop :
      (owned : List K) (entries : List (K × Entry V)) (s : CacheState K V)
      → SameSize s (evict_loop dec owned entries s)
  unfolding evict_loop
  SameSize-evict_loop owned [] s = (refl, refl)
  SameSize-evict_loop owned ((k, e) ∷ entries) s =
      let s' : CacheState K V = record s { entries = entries; evictions = suc s.evictions } in
      ground (
        arith,
        SameSize-drop k owned s',
        SameSize-evict_loop owned entries (drop_unused_version dec k owned s'),
      )

  -- The eviction takes the least recently used entries, as many as are too many.
  pub entries-evict_loop :
      (owned : List K) (entries : List (K × Entry V)) (s : CacheState K V)
      → (evict_loop dec owned entries s).entries ≡ drop (length entries - s.max_size) entries
  unfolding evict_loop
  entries-evict_loop owned [] s = ground arith
  entries-evict_loop owned ((k, e) ∷ entries) s =
      let s' : CacheState K V = record s { entries = entries; evictions = suc s.evictions } in
      let same = SameSize-drop k owned s' in
      elim (Bool-cases (ltb s.max_size (suc (length entries)))) [
        | inl b ↦
            let more : suc (length entries) - s.max_size ≡ suc (length entries - s.max_size) =
              ground arith in
            rw (b, more, evict_loop)
              (simp same.0 at
                (entries-evict_loop owned entries (drop_unused_version dec k owned s')))
        | inr b ↦
            let none_over : suc (length entries) - s.max_size ≡ 0 = ground arith in
            rw (b, none_over, evict_loop)
      ]

  length-trim_heap :
      (s : CacheState K V)
      → length s.entries ≤ s.max_size
      → length (trim_heap dec s).expiry_heap ≤ 2 * s.max_size
  unfolding trim_heap rebuild_expiry_heap
  length-trim_heap s h = ground (arith, length-rebuild s.sequence s.entries)

  entries-trim_heap : (s : CacheState K V) → (trim_heap dec s).entries ≡ s.entries
  unfolding trim_heap rebuild_expiry_heap
  entries-trim_heap s = ground arith

  SameSize-purge_loop :
      (now : ℕ) (owned : List K) (heap : List (ExpiryItem K)) (s : CacheState K V)
      → (purge_loop dec now owned heap s).max_size ≡ s.max_size
  unfolding purge_loop expire
  SameSize-purge_loop now owned [] s = refl
  SameSize-purge_loop now owned (i ∷ heap) s =
      let s' : CacheState K V = record s {
        entries = remove dec i.key s.entries;
        expirations = suc s.expirations;
      } in
      ground (
        arith,
        SameSize-drop i.key owned s',
        SameSize-purge_loop now owned heap (expire dec owned i s),
      )

  max_size-insert :
      (key : K) (value : V) (ttl now : ℕ) (owned : List K) (s : CacheState K V)
      → (insert dec key value ttl now owned s).max_size ≡ s.max_size
  unfolding insert bump_version purge_expired
  max_size-insert key value ttl now owned s = SameSize-purge_loop now owned s.expiry_heap s

  -- After a `store`, from any state, there are at most `max_size` entries, which are the most
  -- recently used of those before the eviction, in order, and the expiry heap has at most twice
  -- `max_size` items.
  pub store_bounds :
      (key : K) (value : V) (ttl now : ℕ) (owned : List K) (s : CacheState K V)
      → (length (store dec key value ttl now owned s).entries ≤ s.max_size)
        × ((store dec key value ttl now owned s).entries
            ≡ drop
                (length (insert dec key value ttl now owned s).entries - s.max_size)
                (insert dec key value ttl now owned s).entries)
        × (length (store dec key value ttl now owned s).expiry_heap ≤ 2 * s.max_size)
  unfolding store
  store_bounds key value ttl now owned s =
      let s' = insert dec key value ttl now owned s in
      let t = evict_loop dec owned s'.entries s' in
      let size = max_size-insert key value ttl now owned s in
      let same = SameSize-evict_loop owned s'.entries s' in
      let kept = entries-evict_loop owned s'.entries s' in
      let within : length t.entries ≤ s.max_size =
        rw kept (omega (arith, length-drop (length s'.entries - s'.max_size) s'.entries)) in
      (
        rw (entries-trim_heap t) within,
        rw (entries-trim_heap t) (simp size at kept),
        omega (arith, length-trim_heap t),
      )
