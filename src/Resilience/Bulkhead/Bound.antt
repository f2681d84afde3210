-- ===== src/Resilience/Bulkhead/Bound.antt =====
-- A change that others may make to the counters of a bulkhead: the number of calls inside is kept.
use bluetape_py.Common.{ℕ, ◌≤◌, ◌≡◌}
use bluetape_py.Common.Int.{pos}
use bluetape_py.Common.Acts.{IsRely}
use bluetape_py.Resilience.Core.{Runtime}
use bluetape_py.Resilience.Bulkhead.{Bulkhead, Counters}
use bluetape_py.Resilience.Bulkhead.Protocol.{IgnoresWaiters}

module _ {F W : Type 0} ⦃py : Runtime F⦄ (b : Bulkhead F W) where
  -- `holders` calls are inside, and that is what the counter says.
  pub record HasHolders (holders : ℕ) (d : Counters) : Type 0 where
    pub counted : d.in_flight ≡ pos holders
    pub within : holders ≤ b.max_concurrency

  -- However many calls are inside, they stay as many, and within the limit.
  abbrev pub KeepsHolders : Counters → Counters → Type 0
  KeepsHolders s t = (holders : ℕ) → HasHolders holders s → HasHolders holders t

  pub KeepsHolders-IsRely : IsRely KeepsHolders
  KeepsHolders-IsRely = record { here = λ s n h. h; after = λ s t u f g n h. g n (f n h) }

  pub KeepsHolders-IgnoresWaiters : IgnoresWaiters KeepsHolders
  KeepsHolders-IgnoresWaiters d w n h = record { counted = h.counted; within = h.within }
