-- ===== src/Cache/Flights/Consistent/Owned.antt =====
-- Flights that are owned exactly while they are open, and active only while they are owned.
use bluetape_py.Common.{
  ℕ, ◌≤◌, ◌≡◌, ◌≢◌, refl, sym, ap, inl, inr, true, false, Option, none, some, List, [], ◌∷◌, length,
}
use bluetape_py.Cache.Dict.{lookup, remove, lookup-remove_self, lookup-remove_ne}
use bluetape_py.Cache.State.{CacheState}
use bluetape_py.Cache.Flights.{
  Cache, SyncFlight, get_elem?, owns, supersede, supersede_all, supersede_at, supersede_if,
}
use bluetape_py.Cache.Flights.Places.{Holds, Holds-modify, Holds-modify_ne, get_elem?-modify}

module _ {K V : Type 0} where
  abbrev pub IsOpen : SyncFlight K V → Type 0
  IsOpen f = f.terminal ≡ false

  abbrev pub IsFor : K → SyncFlight K V → Type 0
  IsFor k f = (f.key ≡ k) × (f.superseded ≡ false)

  -- The owned flights are the open ones.
  pub record OwnsOpen (flights : List (SyncFlight K V)) (owned : List ℕ) : Type 0 where
    pub owned_open : (i : ℕ) → owns i owned ≡ true → Holds IsOpen i flights
    pub open_owned :
        (i : ℕ) (f : SyncFlight K V)
        → get_elem? flights i ≡ some f
        → f.terminal ≡ false
        → owns i owned ≡ true

  supersede_at-OwnsOpen :
      (j : ℕ) (flights : List (SyncFlight K V)) (owned : List ℕ)
      → OwnsOpen flights owned
      → OwnsOpen (supersede_at flights j) owned
  supersede_at-OwnsOpen j flights owned o = record {
    owned_open = λ i own. Holds-modify IsOpen _ (λ f open_. open_) flights i j (o.owned_open i own);
    open_owned = λ i f at open_.
        let (g, was, how) = get_elem?-modify _ flights i j f at in
        o.open_owned i g was (elim how [
          | inl (same, is) ↦ cc (open_, ap (λ (x : SyncFlight K V). x.terminal) is)
          | inr (ne, is) ↦ cc (open_, ap (λ (x : SyncFlight K V). x.terminal) is)
        ]);
  }

  pub supersede_all-OwnsOpen :
      (active : List (K × ℕ)) (flights : List (SyncFlight K V)) (owned : List ℕ)
      → OwnsOpen flights owned
      → OwnsOpen (supersede_all active flights) owned
  unfolding supersede_all
  supersede_all-OwnsOpen [] flights owned o = o
  supersede_all-OwnsOpen ((k, j) ∷ active) flights owned o =
      supersede_all-OwnsOpen active (supersede_at flights j) owned
        (supersede_at-OwnsOpen j flights owned o)

module _ {K V : Type 0} (dec : Discrete K) where
  -- Each key's active flight is a load of that key under way, which nothing has overtaken.
  abbrev pub ActiveOpen : List (SyncFlight K V) → List (K × ℕ) → List ℕ → Type 0
  ActiveOpen flights active owned =
      (k : K) (i : ℕ)
      → lookup dec k active ≡ some i
      → (owns i owned ≡ true) × Holds (IsFor k) i flights

module _ {K V : Type 0} (dec : Discrete K) (limit : ℕ) where
  pub record IsConsistent (c : Cache K V) : Type 0 where
    pub kept : c.max_inflight ≡ limit
    pub active_open : ActiveOpen dec c.flights c.active_flights c.owned_flights
    pub owns_open : OwnsOpen c.flights c.owned_flights
    pub bounded : length c.owned_flights ≤ limit

  -- the flights of different keys stand at different places
  other_place :
      (flights : List (SyncFlight K V)) (k j : K) (i m : ℕ)
      → k ≢ j
      → Holds (IsFor k) i flights
      → Holds (IsFor j) m flights
      → i ≢ m
  other_place flights k j i m ne (f, e, p) (g, e', q) same = ne (cc (e, e', p.0, q.0, same))

  supersede-ActiveOpen :
      (key : K) (flights : List (SyncFlight K V)) (active : List (K × ℕ)) (owned : List ℕ)
      → ActiveOpen dec flights active owned
      → ActiveOpen dec (supersede_if (lookup dec key active) flights) (remove dec key active) owned
  supersede-ActiveOpen key flights active owned a k i e = elim (dec key k) [
    | yes p ↦
        absurd
          (cc (e, lookup-remove_self dec k active, ap (λ j. lookup dec k (remove dec j active)) p))
    | no p ↦
        after p (a k i (cc (e, lookup-remove_ne dec key k active (λ q. p (sym q)))))
          (lookup dec key active) refl
  ]
    where
      after :
          key ≢ k
          → (owns i owned ≡ true) × Holds (IsFor k) i flights
          → (o : Option ℕ) → lookup dec key active ≡ o
          → (owns i owned ≡ true) × Holds (IsFor k) i (supersede_if o flights)
      after p h none at = h
      after p h (some j) at = (
        h.0,
        Holds-modify_ne (IsFor k) _ flights i j
            (other_place flights k key i j (λ q. p (sym q)) h.1 (a key j at).1) h.1,
      )

  pub supersede-IsConsistent :
      (key : K) (c : Cache K V) → IsConsistent c → IsConsistent (supersede dec key c)
  unfolding supersede
  supersede-IsConsistent key c v = record {
    kept = v.kept;
    active_open = supersede-ActiveOpen key c.flights c.active_flights c.owned_flights v.active_open;
    owns_open = by_active (lookup dec key c.active_flights);
    bounded = v.bounded;
  }
    where
      by_active : (o : Option ℕ) → OwnsOpen (supersede_if o c.flights) c.owned_flights
      by_active none = v.owns_open
      by_active (some j) = supersede_at-OwnsOpen j c.flights c.owned_flights v.owns_open

  -- the state is no part of it
  pub IsConsistent-state :
      (c : Cache K V) (s : CacheState K V) → IsConsistent c → IsConsistent (record c { state = s })
  IsConsistent-state c s v = record {
    kept = v.kept;
    active_open = v.active_open;
    owns_open = v.owns_open;
    bounded = v.bounded;
  }
