-- ===== src/Cache/State/Tracked.antt =====
-- Whatever is called on a cache, its heap has an item for each of its entries, so a `get` never gives
-- a value that has expired.
use bluetape_py.Common.{
  ℕ, zero, suc, ◌≡◌, refl, inl, inr, none, some, List, [], ◌∷◌, ◌++◌, arith, leb, Bool-cases,
}
use mathlib.Core.Logic.{if_pos, if_neg}
use bluetape_py.Cache.Dict.{
  lookup, remove, put_last, Unique, lookup-remove_self, lookup-remove_ne, lookup-append,
}
use bluetape_py.Cache.State.{CacheState, Entry, ExpiryItem, heap_push, is_live, expire, purge_loop}
use bluetape_py.Cache.State.Heap.{
  Ascending, Ascending-heap_push, IsItemOf, InHeap-push_self, InHeap-push,
}
use bluetape_py.Cache.State.Expiry.{Covered, entries-expire}
use bluetape_py.Cache.State.Bounds.{drop}

module _ {K V : Type 0} (dec : Discrete K) where
  pub lookup-put_last :
      (k j : K) (v : V) (d : List (K × V))
      → lookup dec j (put_last dec k v d)
        ≡ elim (dec k j) [ yes _ ↦ some v | no _ ↦ lookup dec j d ]
  unfolding lookup
  lookup-put_last k j v d = ground (
    arith,
    lookup-append dec j (remove dec k d) ((k, v) ∷ []),
    lookup-remove_self dec k d,
    lookup-remove_ne dec k j d,
  )

  Unique-remove : (k : K) (d : List (K × V)) → Unique dec d → Unique dec (remove dec k d)
  unfolding remove
  Unique-remove k [] u = tt
  Unique-remove k ((j, v) ∷ d) u = elim (dec j k) [
    | yes p ↦ rw (if_pos _ p) (Unique-remove k d u.1)
    | no p ↦ rw (if_neg _ p) (rw (lookup-remove_ne dec k j d p) u.0, Unique-remove k d u.1)
  ]

  Unique-snoc :
      (k : K) (v : V) (d : List (K × V))
      → lookup dec k d ≡ none
      → Unique dec d
      → Unique dec (d ++ (k, v) ∷ [])
  unfolding lookup
  Unique-snoc k v [] h u = (refl, tt)
  Unique-snoc k v ((j, w) ∷ d) h u =
      (ground (arith, lookup-append dec j d ((k, v) ∷ [])), Unique-snoc k v d (ground arith) u.1)

  Unique-put_last :
      (k : K) (v : V) (d : List (K × V)) → Unique dec d → Unique dec (put_last dec k v d)
  Unique-put_last k v d u =
      Unique-snoc k v (remove dec k d) (lookup-remove_self dec k d) (Unique-remove k d u)

  lookup-drop :
      (n : ℕ) (d : List (K × V)) (k : K) (v : V)
      → Unique dec d
      → lookup dec k (drop n d) ≡ some v
      → lookup dec k d ≡ some v
  unfolding lookup
  lookup-drop zero d k v u h = h
  lookup-drop (suc n) [] k v u h = h
  lookup-drop (suc n) ((j, w) ∷ d) k v u h =
      let found = lookup-drop n d k v u.1 h in
      elim (dec j k) [ yes p ↦ absurd (ground arith) | no p ↦ rw (if_neg _ p) found ]

  Unique-drop : (n : ℕ) (d : List (K × V)) → Unique dec d → Unique dec (drop n d)
  Unique-drop zero d u = u
  Unique-drop (suc n) [] u = u
  Unique-drop (suc n) (x ∷ d) u = Unique-drop n d u.1

module _ {K V : Type 0} (dec : Discrete K) where
  pub record IsTracked (entries : List (K × Entry V)) (heap : List (ExpiryItem K)) : Type 0 where
    pub covered : Covered dec entries heap
    pub ascending : Ascending heap
    pub unique : Unique dec entries

  pub IsTracked-drop :
      (n : ℕ) (entries : List (K × Entry V)) (heap : List (ExpiryItem K))
      → IsTracked entries heap
      → IsTracked (drop n entries) heap
  IsTracked-drop n entries heap t = record {
    covered = λ k e h. t.covered k e (lookup-drop dec n entries k e t.unique h);
    ascending = t.ascending;
    unique = Unique-drop dec n entries t.unique;
  }

  pub IsTracked-remove :
      (key : K) (entries : List (K × Entry V)) (heap : List (ExpiryItem K))
      → IsTracked entries heap
      → IsTracked (remove dec key entries) heap
  IsTracked-remove key entries heap t = record {
    covered = λ k e h. t.covered k e (
        ground (
          arith,
          lookup-remove_self dec key entries,
          lookup-remove_ne dec key k entries,
          dec k key,
        ));
    ascending = t.ascending;
    unique = Unique-remove dec key entries t.unique;
  }

  -- a new entry, with a new item for it
  pub IsTracked-insert :
      (key : K) (entry : Entry V) (i : ExpiryItem K) (entries : List (K × Entry V))
      (heap : List (ExpiryItem K))
      → IsItemOf key entry i
      → IsTracked entries heap
      → IsTracked (put_last dec key entry entries) (heap_push i heap)
  IsTracked-insert key entry i entries heap own t = record {
    covered = λ k e h. elim (dec key k) [
      | yes p ↦
          InHeap-push_self k e i heap (ground (arith, lookup-put_last dec key k entry entries))
      | no p ↦
          InHeap-push k e i heap
            (t.covered k e (ground (arith, lookup-put_last dec key k entry entries)))
    ];
    ascending = Ascending-heap_push i heap t.ascending;
    unique = Unique-put_last dec key entry entries t.unique;
  }

  -- an entry that moves to the end
  pub IsTracked-move :
      (key : K) (entry : Entry V) (entries : List (K × Entry V)) (heap : List (ExpiryItem K))
      → lookup dec key entries ≡ some entry
      → IsTracked entries heap
      → IsTracked (put_last dec key entry entries) heap
  IsTracked-move key entry entries heap found t = record {
    covered = λ k e h. t.covered k e (ground (arith, lookup-put_last dec key k entry entries));
    ascending = t.ascending;
    unique = Unique-put_last dec key entry entries t.unique;
  }

  Unique-expire :
      (owned : List K) (i : ExpiryItem K) (s : CacheState K V)
      → Unique dec s.entries
      → Unique dec (expire dec owned i s).entries
  Unique-expire owned i s u = elim (Bool-cases (is_live dec i s.entries)) [
    | inl e ↦ rw (entries-expire dec owned i s, e) (Unique-remove dec i.key s.entries u)
    | inr e ↦ rw (entries-expire dec owned i s, e) u
  ]

  pub Unique-purge_loop :
      (now : ℕ) (owned : List K) (heap : List (ExpiryItem K)) (s : CacheState K V)
      → Unique dec s.entries
      → Unique dec (purge_loop dec now owned heap s).entries
  unfolding purge_loop
  Unique-purge_loop now owned [] s u = u
  Unique-purge_loop now owned (i ∷ heap) s u = elim (Bool-cases (leb i.expires_at now)) [
    | inl due ↦
        rw (due, purge_loop)
          (Unique-purge_loop now owned heap (expire dec owned i s) (Unique-expire owned i s u))
    | inr later ↦ rw (later, purge_loop) u
  ]
