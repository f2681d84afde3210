-- ===== src/Cache/Flights/Load/Course.antt =====
-- A load that was started is ended once, whatever its loader raises.
use bluetape_py.Common.{ℕ, ◌≡◌, refl, sym, true, List, ◌∷◌, inl, inr, Bool-cases, arith}
use bluetape_py.Common.Int.{ℤ}
use bluetape_py.Common.Exec.{Result, ok, raise, Exec, lift, ◌>>=◌, Cell, locked}
use bluetape_py.Common.Acts.{Acts, IsRely, Acts-bind}
use bluetape_py.Common.Does.{Does, Does-bind-Acts}
use bluetape_py.Cache.Dict.{member}
use bluetape_py.Cache.Flights.{
  Cache, CacheError, Start, hit, joined, started, start_block, finish_flight,
}
use bluetape_py.Cache.Flights.Load.{
  attempt, drop_token, load_outcome, finish_then, after_start, get_or_load,
}

-- What the loader gives, in some world.
abbrev pub IsLoaded :
    {K V W : Type 0} → K → (K → Exec CacheError W V) → Result CacheError V → Type 0
IsLoaded {W} key loader outcome = (w : W) × ((loader key w).0 ≡ outcome)

-- `R` is what other threads may do to the cache; `IsLoaded` holds of what the loader gives.
module _ {K V : Type 0} (dec : Discrete K) (R : Cache K V → Cache K V → Type 0)
    (IsLoaded : Result CacheError V → Type 0) (key : K) where
  -- what follows the first block, in terms of what it gave
  abbrev pub Follows : Result CacheError (Start V) → Cache K V → Cache K V → Type 0
  Follows (ok (started i)) t u =
      (outcome : Result CacheError V) × IsLoaded outcome
      × (tick : Result CacheError ℤ) × (b : Cache K V) × R t b
      × R (finish_flight dec i outcome tick b) u
  Follows _ t u = R t u

  pub data Course (s u : Cache K V) : Type 0 where
    -- no block was run
    refused : R s u → Course s u
    ran :
        (ttl_ns : ℕ) (tick : Result CacheError ℤ) (a : Cache K V)
        → R s a
        → Follows (start_block dec key ttl_ns tick a).0 (start_block dec key ttl_ns tick a).1 u
        → Course s u

module _ {K V W : Type 0} (dec : Discrete K) {R : Cache K V → Cache K V → Type 0} (rely : IsRely R)
    (cell : Cell W (Cache K V)) (tokens : Cell W (List K)) (clock : Exec CacheError W ℤ)
    (wait : ℕ → Exec CacheError W (Unit {0})) (key : K) (loader : K → Exec CacheError W V) where
  -- The tokens are no part of the cache. The callbacks, and the others meanwhile, change the cache only
  -- as `R` allows, and the loader leaves the thread's tokens as they were.
  pub record Behaves : Type 0 where
    pub apart : (held : List K) (w : W) → cell.read (tokens.write held w) ≡ cell.read w
    pub ticks : Acts cell R clock
    pub waits : (i : ℕ) → Acts cell R (wait i)
    pub loads : Acts cell R (loader key)
    pub loads-tokens : (w : W) → tokens.read (loader key w).1 ≡ tokens.read w

  attempt-Acts : {A : Type 0} (m : Exec CacheError W A) → Acts cell R m → Acts cell R (attempt m)
  attempt-Acts m h = record { at = h.at }

  -- An action that raises nothing.
  abbrev Surely : {A : Type 0} → Result CacheError A → Cache K V → Cache K V → Type 0
  Surely (ok x) s t = R s t
  Surely (raise e) s t = ⊥

  attempt-Surely :
      {A : Type 0} (m : Exec CacheError W A) → Acts cell R m → Does cell Surely (attempt m)
  attempt-Surely m h = record { at = h.at }

  drop_token-held : (held : List K) → (drop_token dec key (key ∷ held)).0 ≡ ok tt
  unfolding drop_token member
  drop_token-held held = rw member_self refl
    where
      member_self : member dec key (key ∷ held) ≡ true
      member_self = ground (arith)

  module _ (behaves : Behaves) where
    abbrev Loaded : Result CacheError (Result CacheError V) → Cache K V → Cache K V → Type 0
    Loaded (ok outcome) s t = IsLoaded key loader outcome × R s t
    Loaded (raise e) s t = ⊥

    load_outcome-Loaded : Does cell Loaded (load_outcome dec cell tokens key loader)
    unfolding load_outcome
    load_outcome-Loaded = record {
      at = λ w.
          let w1 = tokens.write (key ∷ tokens.read w) w in
          let w2 = (loader key w1).1 in
          let kept : tokens.read w2 ≡ key ∷ tokens.read w =
            cc (behaves.loads-tokens w1, tokens.read-write (key ∷ tokens.read w) w) in
          let same : (drop_token dec key (tokens.read w2)).0 ≡ ok tt =
            rw kept (drop_token-held (tokens.read w)) in
          let moved : R (cell.read w) (cell.read w2) =
            rw (sym (behaves.apart (key ∷ tokens.read w) w)) (behaves.loads.at w1) in
          rw same ((w1, refl), rw (behaves.apart (drop_token dec key (tokens.read w2)).1 w2) moved);
    }

    -- what a block makes of the cache that it finds
    locked-at :
        {A : Type 0} (f : Cache K V → A × Cache K V) (w : W)
        → cell.read (locked {E = CacheError} cell f w).1 ≡ (f (cell.read w)).1
    locked-at f w = cell.read-write (f (cell.read w)).1 w

    finish_then-Acts :
        (i : ℕ) (outcome : Result CacheError V) (tick : Result CacheError ℤ)
        → Acts cell
            (λ t u. R (finish_flight dec i outcome tick t) u)
            (finish_then dec cell tokens i outcome tick)
    finish_then-Acts i outcome tick = record {
      at = λ w.
          rw (cell.read-write (finish_flight dec i outcome tick (cell.read w)) w) (rely.here _);
    }

    abbrev Ended : ℕ → Result CacheError V → Cache K V → Cache K V → Type 0
    Ended i outcome t u =
        (tick : Result CacheError ℤ) × (b : Cache K V) × R t b
        × R (finish_flight dec i outcome tick b) u

    -- the end of a load that was started: one end of the flight, with what its loader gave
    started-Acts :
        (i : ℕ)
        → Acts cell
            (Follows dec R (IsLoaded key loader) key (ok (started i)))
            (after_start dec cell tokens clock wait key loader (started i))
    started-Acts i =
        Does-bind-Acts Loaded {Q = Ended i} (λ e s t h. absurd h)
          (λ outcome s t u h (tick, b, before, after).
            (outcome, h.0, tick, b, rely.after s t b h.1 before, after))
          (load_outcome dec cell tokens key loader) _ load_outcome-Loaded
          (λ outcome.
            Does-bind-Acts Surely {Q = λ tick t u. R (finish_flight dec i outcome tick t) u}
              (λ e s t h. absurd h) (λ tick s t u h after. (tick, t, h, after)) (attempt clock)
              (finish_then dec cell tokens i outcome) (attempt-Surely clock behaves.ticks)
              (finish_then-Acts i outcome))

    after_start-Acts :
        (r : Result CacheError (Start V))
        → Acts cell
            (Follows dec R (IsLoaded key loader) key r)
            (lift r >>= after_start dec cell tokens clock wait key loader)
    after_start-Acts (raise e) = record { at = λ w. rely.here _ }
    after_start-Acts (ok (hit value)) = record { at = λ w. rely.here _ }
    after_start-Acts (ok (joined i)) =
        Acts-bind rely rely.after (wait i) _ (behaves.waits i)
          (λ x. record { at = λ w. rely.here _ })
    after_start-Acts (ok (started i)) = record { at = λ w. (started-Acts i).at w }

    -- what the first block gave, and what it made of the cache
    abbrev Ran :
        ℕ
        → Result CacheError ℤ
        → Result CacheError (Result CacheError (Start V))
        → Cache K V
        → Cache K V
        → Type 0
    Ran ttl_ns tick (raise e) s t = ⊥
    Ran ttl_ns tick (ok r) s t =
        (r ≡ (start_block dec key ttl_ns tick s).0) × (t ≡ (start_block dec key ttl_ns tick s).1)

    block-Ran :
        (ttl_ns : ℕ) (tick : Result CacheError ℤ)
        → Does cell (Ran ttl_ns tick) (locked cell (start_block dec key ttl_ns tick))
    block-Ran ttl_ns tick = record {
      at = λ w. (refl, locked-at (start_block dec key ttl_ns tick) w);
    }

    abbrev RanFrom : ℕ → Result CacheError ℤ → Cache K V → Cache K V → Type 0
    RanFrom ttl_ns tick a u =
        Follows dec R (IsLoaded key loader) key (start_block dec key ttl_ns tick a).0
          (start_block dec key ttl_ns tick a).1 u

    ran-Acts :
        (ttl_ns : ℕ) (tick : Result CacheError ℤ)
        → Acts cell (RanFrom ttl_ns tick) (do
          start ← locked cell (start_block dec key ttl_ns tick)
          lift start >>= after_start dec cell tokens clock wait key loader)
    ran-Acts ttl_ns tick =
        Does-bind-Acts (Ran ttl_ns tick)
          {Q = λ r t u. Follows dec R (IsLoaded key loader) key r t u} (λ e s t h. absurd h)
          (λ r s t u h f. rw (sym h.0, sym h.1) f) _ _ (block-Ran ttl_ns tick) after_start-Acts

    -- A call of `get_or_load`, whatever its loader, its clock and its wait raise: it runs no block; or its
    -- one first block gives a value, an error or a flight to wait for, and nothing else is done; or that
    -- block starts a flight, and then the call ends this very flight exactly once. What other threads
    -- do before, between and after the blocks is any change that `R` allows.
    pub get_or_load-Course :
        (ttl : Result CacheError ℕ)
        → Acts cell
            (Course dec R (IsLoaded key loader) key)
            (get_or_load dec cell tokens clock wait key loader ttl)
    unfolding get_or_load
    get_or_load-Course (raise e) = record {
      at = λ w. elim (Bool-cases (member dec key (tokens.read w))) [
        | inl b ↦ rw b (refused (rely.here _))
        | inr b ↦ rw b (refused (rely.here _))
      ];
    }
    get_or_load-Course (ok ttl_ns) = record {
      at = λ w. elim (Bool-cases (member dec key (tokens.read w))) [
        | inl b ↦ rw b (refused (rely.here _))
        | inr b ↦ rw b (ticked.at w)
      ];
    }
      where
        ticked : Acts cell (Course dec R (IsLoaded key loader) key) (do
          tick ← attempt clock
          start ← locked cell (start_block dec key ttl_ns tick)
          lift start >>= after_start dec cell tokens clock wait key loader)
        ticked =
            Does-bind-Acts Surely {Q = RanFrom ttl_ns} (λ e s t h. absurd h)
              (λ tick s t u h f. ran ttl_ns tick t h f) (attempt clock) _
              (attempt-Surely clock behaves.ticks) (ran-Acts ttl_ns)
