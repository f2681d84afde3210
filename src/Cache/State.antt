-- ===== src/Cache/State.antt =====
-- cache/_core.py: `_CacheState`, the entries of a cache with their expiry, recency, versions and
-- counters. `heapq`'s heap is the list of its items in order: what the code reads of a heap, its
-- least item and its length, does not depend on how the rest lies.
pub mod Heap
pub mod Expiry
pub mod Bounds
pub mod Reuse
pub mod Tracked
pub mod Calls
use bluetape_py.Common.{
  ℕ, zero, suc, ◌+◌, ◌*◌, max, Bool, true, false, not, ◌&&◌, ◌||◌, Option, none, some, List, [],
  ◌∷◌, ◌++◌, ltb, leb, ◌==◌, if◌then◌else◌, length, is_some,
}
use bluetape_py.Common.Int.{ℤ, pos_part}
use bluetape_py.Cache.Dict.{lookup, remove, put_last, member}

pub record CacheStats : Type 0 where
  pub hits : ℕ
  pub misses : ℕ
  pub loads : ℕ
  pub load_failures : ℕ
  pub load_rejections : ℕ
  pub coalesced_waiters : ℕ
  pub evictions : ℕ
  pub expirations : ℕ
  pub invalidations : ℕ
  pub inflight_loads : ℕ
  pub abandoned_loads : ℕ
  pub superseded_loads : ℕ

pub record Entry (V : Type 0) : Type 0 where
  pub value : V
  pub expires_at : ℕ
  pub version : ℕ

-- An item of the expiry heap.
pub record ExpiryItem (K : Type 0) : Type 0 where
  pub expires_at : ℕ
  pub sequence : ℕ
  pub key : K
  pub version : ℕ

-- `entries` has the least recently used first.
pub record CacheState (K V : Type 0) : Type 0 where
  pub max_size : ℕ
  pub entries : List (K × Entry V)
  pub expiry_heap : List (ExpiryItem K)
  pub key_versions : List (K × ℕ)
  pub clear_epoch : ℕ
  pub last_tick : ℕ
  pub sequence : ℕ
  pub hits : ℕ
  pub misses : ℕ
  pub loads : ℕ
  pub load_failures : ℕ
  pub load_rejections : ℕ
  pub coalesced_waiters : ℕ
  pub evictions : ℕ
  pub expirations : ℕ
  pub invalidations : ℕ
  pub abandoned_loads : ℕ
  pub superseded_loads : ℕ

abbrev pub or_zero : Option ℕ → ℕ
or_zero none = 0
or_zero (some n) = n

module _ {K : Type 0} where
  -- the order of the tuples; no two have one sequence number
  abbrev is_before : ExpiryItem K → ExpiryItem K → Bool
  is_before a b =
      ltb a.expires_at b.expires_at || (a.expires_at == b.expires_at && ltb a.sequence b.sequence)

  -- `heapq.heappush`
  unfoldable pub heap_push : ExpiryItem K → List (ExpiryItem K) → List (ExpiryItem K)
  heap_push a [] = a ∷ []
  heap_push a (b ∷ heap) =
      let rest = heap_push a heap in if is_before a b then a ∷ b ∷ heap else b ∷ rest

module _ {K V : Type 0} where
  unfoldable pub new_state : ℕ → CacheState K V
  new_state max_size = record {
    max_size = max_size;
    entries = [];
    expiry_heap = [];
    key_versions = [];
    clear_epoch = 0;
    last_tick = 0;
    sequence = 0;
    hits = 0;
    misses = 0;
    loads = 0;
    load_failures = 0;
    load_rejections = 0;
    coalesced_waiters = 0;
    evictions = 0;
    expirations = 0;
    invalidations = 0;
    abandoned_loads = 0;
    superseded_loads = 0;
  }

  -- `max(self.last_tick, tick)`: the last tick is not negative
  unfoldable pub clamp_tick : ℤ → CacheState K V → ℕ × CacheState K V
  clamp_tick tick s =
      let now = max s.last_tick (pos_part tick) in (now, record s { last_tick = now })

  -- the loop and the `heapify` of `rebuild_expiry_heap`
  unfoldable pub rebuild_from : ℕ → List (K × Entry V) → List (ExpiryItem K)
  rebuild_from sequence [] = []
  rebuild_from sequence ((key, entry) ∷ entries) =
      heap_push
        (record {
          expires_at = entry.expires_at;
          sequence = suc sequence;
          key = key;
          version = entry.version;
        })
        (rebuild_from (suc sequence) entries)

  unfoldable pub rebuild_expiry_heap : CacheState K V → CacheState K V
  rebuild_expiry_heap s = record s {
    expiry_heap = rebuild_from s.sequence s.entries;
    sequence = s.sequence + length s.entries;
  }

module _ {K : Type 0} (dec : Discrete K) where
  -- the comprehension of `clear`
  unfoldable pub keep_owned : List K → List (K × ℕ) → List (K × ℕ)
  keep_owned owned [] = []
  keep_owned owned ((key, v) ∷ versions) =
      let rest = keep_owned owned versions in if member dec key owned then (key, v) ∷ rest else rest

module _ {K V : Type 0} (dec : Discrete K) where
  unfoldable pub bump_version : K → CacheState K V → ℕ × CacheState K V
  bump_version key s =
      let next = or_zero (lookup dec key s.key_versions) + 1 in
      (next, record s { key_versions = put_last dec key next s.key_versions })

  unfoldable pub version : K → CacheState K V → ℕ
  version key s = or_zero (lookup dec key s.key_versions)

  unfoldable pub drop_unused_version : K → List K → CacheState K V → CacheState K V
  drop_unused_version key owned s =
      if not (is_some (lookup dec key s.entries)) && not (member dec key owned)
      then record s { key_versions = remove dec key s.key_versions }
      else s

  -- the item is that of the entry that its key now has
  unfoldable pub is_live : ExpiryItem K → List (K × Entry V) → Bool
  is_live item entries = elim (lookup dec item.key entries) [
    | none ↦ false
    | some entry ↦ entry.version == item.version
  ]

  -- what one round of `purge_expired` does with the item that it has taken off the heap
  unfoldable pub expire : List K → ExpiryItem K → CacheState K V → CacheState K V
  expire owned item s =
      if is_live item s.entries
      then drop_unused_version item.key owned
          (record s { entries = remove dec item.key s.entries; expirations = suc s.expirations })
      else s

  unfoldable pub purge_loop : ℕ → List K → List (ExpiryItem K) → CacheState K V → CacheState K V
  purge_loop now owned [] s = record s { expiry_heap = [] }
  purge_loop now owned (item ∷ heap) s =
      let rest = purge_loop now owned heap (expire owned item s) in
      if leb item.expires_at now then rest else record s { expiry_heap = item ∷ heap }

  unfoldable pub purge_expired : ℕ → List K → CacheState K V → CacheState K V
  purge_expired now owned s = purge_loop now owned s.expiry_heap s

  -- `none` is a KeyError
  unfoldable pub get : K → ℕ → List K → CacheState K V → Option V × CacheState K V
  get key now owned s =
      let s' = purge_expired now owned s in
      elim (lookup dec key s'.entries) [
        | none ↦ (none, record s' { misses = suc s'.misses })
        | some entry ↦ (
          some entry.value,
          record s' { entries = put_last dec key entry s'.entries; hits = suc s'.hits },
        )
      ]

  -- the `while` of `store`
  unfoldable pub evict_loop : List K → List (K × Entry V) → CacheState K V → CacheState K V
  evict_loop owned [] s = record s { entries = [] }
  evict_loop owned ((key, entry) ∷ entries) s =
      let rest = evict_loop owned entries (
        drop_unused_version key owned
          (record s { entries = entries; evictions = suc s.evictions })) in
      if ltb s.max_size (length ((key, entry) ∷ entries))
      then rest
      else record s { entries = (key, entry) ∷ entries }

  -- `store` up to its `while`
  unfoldable pub insert : K → V → ℕ → ℕ → List K → CacheState K V → CacheState K V
  insert key value ttl_ns now owned s =
      let (next, s') = bump_version key (purge_expired now owned s) in
      record s' {
        entries =
            put_last dec key (record { value = value; expires_at = now + ttl_ns; version = next })
              s'.entries;
        sequence = suc s'.sequence;
        expiry_heap =
            heap_push
              (record {
                expires_at = now + ttl_ns;
                sequence = suc s'.sequence;
                key = key;
                version = next;
              })
              s'.expiry_heap;
      }

  unfoldable pub trim_heap : CacheState K V → CacheState K V
  trim_heap s = if ltb (2 * s.max_size) (length s.expiry_heap) then rebuild_expiry_heap s else s

  unfoldable pub store : K → V → ℕ → ℕ → List K → CacheState K V → CacheState K V
  store key value ttl_ns now owned s =
      let s' = insert key value ttl_ns now owned s in trim_heap (evict_loop owned s'.entries s')

  -- `owned` is what `on_supersede` gives
  unfoldable pub invalidate : K → ℕ → List K → CacheState K V → Bool × CacheState K V
  invalidate key now owned s =
      let s' = purge_expired now owned s in
      let found = is_some (lookup dec key s'.entries) in
      let s'' = (bump_version key (record s' { entries = remove dec key s'.entries })).1 in
      (
        found,
        drop_unused_version key owned (record s'' {
          invalidations = if found then suc s''.invalidations else s''.invalidations;
        }),
      )

  unfoldable pub clear : List K → CacheState K V → CacheState K V
  clear owned s = record s {
    clear_epoch = suc s.clear_epoch;
    entries = [];
    expiry_heap = [];
    key_versions = keep_owned dec owned s.key_versions;
  }

  unfoldable pub size : ℕ → List K → CacheState K V → ℕ × CacheState K V
  size now owned s = let s' = purge_expired now owned s in (length s'.entries, s')

  unfoldable pub stats : ℕ → List K → ℕ → ℕ → ℕ → CacheState K V → CacheStats × CacheState K V
  stats now owned inflight_loads abandoned_loads superseded_loads s =
      let s' = purge_expired now owned s in
      (
        record {
          hits = s'.hits;
          misses = s'.misses;
          loads = s'.loads;
          load_failures = s'.load_failures;
          load_rejections = s'.load_rejections;
          coalesced_waiters = s'.coalesced_waiters;
          evictions = s'.evictions;
          expirations = s'.expirations;
          invalidations = s'.invalidations;
          inflight_loads = inflight_loads;
          abandoned_loads = abandoned_loads;
          superseded_loads = superseded_loads;
        },
        s',
      )
