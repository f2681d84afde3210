-- ===== src/Cache/State/Expiry.antt =====
-- What `purge_expired` takes away, and the invariant that makes it find every expired entry.
use bluetape_py.Common.{
  ℕ, ◌≤◌, ◌<◌, ◌≡◌, ◌≢◌, ◌↔◌, inl, inr, some, List, [], ◌∷◌, arith, leb, leb→le, All, Bool-cases,
  if◌then◌else◌,
}
use bluetape_py.Cache.Dict.{lookup, remove, lookup-remove_self, lookup-remove_ne}
use bluetape_py.Cache.State.{
  CacheState, Entry, ExpiryItem, drop_unused_version, is_live, expire, purge_loop, purge_expired,
}
use bluetape_py.Cache.State.Heap.{Ascending, InHeap, later_than}

All-later :
    {K : Type 0} (now t : ℕ) (heap : List (ExpiryItem K))
    → now < t
    → All (λ j. t ≤ j.expires_at) heap
    → All (λ j. now < j.expires_at) heap
All-later now t [] h a = tt
All-later now t (j ∷ heap) h a = (omega arith, All-later now t heap h a.1)

module _ {K V : Type 0} (dec : Discrete K) where
  -- Each entry has its item in the heap.
  abbrev pub Covered : List (K × Entry V) → List (ExpiryItem K) → Type 0
  Covered entries heap = (k : K) (e : Entry V) → lookup dec k entries ≡ some e → InHeap k e heap

  -- An item with the key and the version of an entry is its item.
  abbrev pub NoReuse : List (K × Entry V) → List (ExpiryItem K) → Type 0
  NoReuse entries heap =
      (k : K) (e : Entry V)
      → lookup dec k entries ≡ some e
      → All (λ i. i.key ≡ k → i.version ≡ e.version → i.expires_at ≡ e.expires_at) heap

  pub entries-drop :
      (key : K) (owned : List K) (s : CacheState K V)
      → (drop_unused_version dec key owned s).entries ≡ s.entries
  unfolding drop_unused_version
  entries-drop key owned s = ground arith

  pub entries-expire :
      (owned : List K) (i : ExpiryItem K) (s : CacheState K V)
      → (expire dec owned i s).entries
        ≡ (if is_live dec i s.entries then remove dec i.key s.entries else s.entries)
  unfolding expire
  entries-expire owned i s = elim (Bool-cases (is_live dec i s.entries)) [
    | inl e ↦ rw (e, expire) (entries-drop i.key owned _)
    | inr e ↦ rw (e, expire)
  ]

  module _ (owned : List K) (i : ExpiryItem K) (s : CacheState K V) (k : K) (e : Entry V) where
    -- an item takes away no entry but its own
    lookup-expire :
        lookup dec k (expire dec owned i s).entries ≡ some e → lookup dec k s.entries ≡ some e
    lookup-expire h = elim (Bool-cases (is_live dec i s.entries)) [
      | inl live ↦ elim (dec k i.key) [
        | yes p ↦
            absurd
              (ground (arith, entries-expire owned i s, lookup-remove_self dec i.key s.entries))
        | no p ↦ ground (arith, entries-expire owned i s, lookup-remove_ne dec i.key k s.entries)
      ]
      | inr dead ↦ ground (arith, entries-expire owned i s)
    ]

    -- an entry that is still there when its item has been taken is another item's
    not-own :
        lookup dec k (expire dec owned i s).entries ≡ some e → i.key ≡ k → i.version ≢ e.version
    unfolding is_live
    not-own h p q = ground (arith, entries-expire owned i s, lookup-remove_self dec i.key s.entries)

    expire-keeps :
        lookup dec k s.entries ≡ some e
        → (i.key ≡ k → i.version ≢ e.version)
        → lookup dec k (expire dec owned i s).entries ≡ some e
    unfolding is_live
    expire-keeps h other =
        ground (arith, entries-expire owned i s, lookup-remove_ne dec i.key k s.entries)

  module _ (owned : List K) where
    Covered-expire :
        (i : ExpiryItem K) (heap : List (ExpiryItem K)) (s : CacheState K V)
        → Covered s.entries (i ∷ heap)
        → Covered (expire dec owned i s).entries heap
    Covered-expire i heap s c k e h = elim (c k e (lookup-expire owned i s k e h)) [
      | inl here ↦ absurd (not-own owned i s k e h here.0 here.1)
      | inr there ↦ there
    ]

    NoReuse-expire :
        (i : ExpiryItem K) (heap : List (ExpiryItem K)) (s : CacheState K V)
        → NoReuse s.entries (i ∷ heap)
        → NoReuse (expire dec owned i s).entries heap
    NoReuse-expire i heap s n k e h = (n k e (lookup-expire owned i s k e h)).1

    -- what a purge leaves: an entry for each of which there is an item, and no item is due
    pub purge_loop-Covered :
        (now : ℕ) (heap : List (ExpiryItem K)) (s : CacheState K V)
        → Covered s.entries heap
        → Ascending heap
        → Covered
            (purge_loop dec now owned heap s).entries
            (purge_loop dec now owned heap s).expiry_heap
          × Ascending (purge_loop dec now owned heap s).expiry_heap
          × All (λ j. now < j.expires_at) (purge_loop dec now owned heap s).expiry_heap
    unfolding purge_loop
    purge_loop-Covered now [] s c a = (c, tt, tt)
    purge_loop-Covered now (i ∷ heap) s c a = elim (Bool-cases (leb i.expires_at now)) [
      | inl due ↦
          rw (due, purge_loop)
            (purge_loop-Covered now heap (expire dec owned i s) (Covered-expire i heap s c) a.1)
      | inr later ↦
          let after : now < i.expires_at = ground arith in
          rw (later, purge_loop) (c, a, (after, All-later now i.expires_at heap after a.0))
    ]

    pub lookup-purge_loop :
        (now : ℕ) (heap : List (ExpiryItem K)) (s : CacheState K V) (k : K) (e : Entry V)
        → lookup dec k (purge_loop dec now owned heap s).entries ≡ some e
        → lookup dec k s.entries ≡ some e
    unfolding purge_loop
    lookup-purge_loop now [] s k e = λ h. h
    lookup-purge_loop now (i ∷ heap) s k e = elim (Bool-cases (leb i.expires_at now)) [
      | inl due ↦
          rw (due, purge_loop)
            (λ h.
              lookup-expire owned i s k e (lookup-purge_loop now heap (expire dec owned i s) k e h))
      | inr later ↦ rw (later, purge_loop) (λ h. h)
    ]

    purge_loop-keeps :
        (now : ℕ) (heap : List (ExpiryItem K)) (s : CacheState K V) (k : K) (e : Entry V)
        → NoReuse s.entries heap
        → now < e.expires_at
        → lookup dec k s.entries ≡ some e
        → lookup dec k (purge_loop dec now owned heap s).entries ≡ some e
    unfolding purge_loop
    purge_loop-keeps now [] s k e n fresh h = h
    purge_loop-keeps now (i ∷ heap) s k e n fresh h = elim (Bool-cases (leb i.expires_at now)) [
      | inl due ↦
          let past : i.expires_at ≤ now = leb→le i.expires_at now due in
          let kept =
            expire-keeps owned i s k e h (λ p q. absurd (omega (arith, (n k e h).0 p q))) in
          rw (due, purge_loop)
            (purge_loop-keeps now heap (expire dec owned i s) k e (NoReuse-expire i heap s n) fresh
              kept)
      | inr later ↦ rw (later, purge_loop) h
    ]

  -- Of a state with an item in the ascending heap for each entry, and no item that has the key and
  -- the version of an entry and another time, a purge keeps exactly the entries that expire later.
  pub purge_exact :
      (now : ℕ) (owned : List K) (s : CacheState K V) (k : K) (e : Entry V)
      → Covered s.entries s.expiry_heap
      → Ascending s.expiry_heap
      → NoReuse s.entries s.expiry_heap
      → (lookup dec k (purge_expired dec now owned s).entries ≡ some e)
        ↔ ((lookup dec k s.entries ≡ some e) × (now < e.expires_at))
  unfolding purge_expired
  purge_exact now owned s k e c a n = (
    (λ h.
        let left = purge_loop-Covered owned now s.expiry_heap s c a in
        (
          lookup-purge_loop owned now s.expiry_heap s k e h,
          later_than now k e _ left.2 (left.0 k e h),
        )),
    (λ h. purge_loop-keeps owned now s.expiry_heap s k e n h.1 h.0),
  )
