-- ===== src/Resilience/Circuit/Trip.antt =====
-- When a breaker opens, refuses, probes and closes again.
use bluetape_py.Common.{
  suc, ◌+◌, ◌<◌, ◌≡◌, true, false, Option, none, some, List, [], ◌∷◌, arith, length,
}
use bluetape_py.Common.Int.{pos}
use bluetape_py.Resilience.Core.{Runtime, CircuitState}
use bluetape_py.Resilience.Circuit.{
  Admission, Transition, CircuitData, admit, succeed, fail, transition, take_slot,
}

module _ {F : Type 0} ⦃py : Runtime F⦄ where
  -- the same call outcome again and again, at the given times
  pub fail_all : Admission → List F → CircuitData F → CircuitData F
  fail_all a [] d = d
  fail_all a (now ∷ times) d = fail_all a times (fail a now d).1

  -- A closed breaker stays closed, and counts, through fewer failures than its threshold.
  fail_all-closed :
      (a : Admission) (times : List F) (d : CircuitData F)
      → d.state ≡ CircuitState.closed
      → a.generation ≡ d.generation
      → d.consecutive_failures + length times < d.failure_threshold
      → fail_all a times d
        ≡ record d { consecutive_failures = d.consecutive_failures + length times }
  unfolding fail_all fail
  fail_all-closed a [] d hs hg h = ground arith
  fail_all-closed a (now ∷ times) d hs hg h = ground (
    arith,
    fail_all-closed a times (record d { consecutive_failures = suc d.consecutive_failures }),
  )

  fail-trips :
      (a : Admission) (last : F) (d : CircuitData F)
      → d.state ≡ CircuitState.closed
      → a.generation ≡ d.generation
      → suc d.consecutive_failures ≡ d.failure_threshold
      → ((fail a last d).1.state ≡ CircuitState.opened)
        × ((fail a last d).1.open_until ≡ py.add last d.open_duration)
        × ((fail a last d).1.generation ≡ suc d.generation)
        × ((fail a last d).1.half_open_max_calls ≡ d.half_open_max_calls)
  unfolding fail transition
  fail-trips a last d hs hg h = ground arith

  abbrev probe_slot : CircuitData F → Admission
  probe_slot d = record {
    generation = d.generation;
    state = CircuitState.half_open;
    owns_half_open_slot = true;
  }

  admit-opened :
      (now : F) (d : CircuitData F)
      → d.state ≡ CircuitState.opened
      → 0 < d.half_open_max_calls
      → (py.lt now d.open_until ≡ true → admit now d ≡ ((none, none), d))
        × (py.lt now d.open_until ≡ false
            → ((admit now d).0.0
                ≡ some (record {
                  generation = suc d.generation;
                  state = CircuitState.half_open;
                  owns_half_open_slot = true;
                }))
              × ((admit now d).1.state ≡ CircuitState.half_open))
  unfolding admit take_slot transition
  admit-opened now d hs hm = ground arith

  -- A closed breaker, with `times` and then `last` the times at which further calls of its
  -- generation fail, one fewer than the threshold before `last`: it is still closed before `last`.
  -- Sequel it, a call before `last + open_duration` is refused and changes nothing, and a later one
  -- gets a half-open slot.
  pub trip :
      (a : Admission) (times : List F) (last : F) (d : CircuitData F) (now : F)
      → d.state ≡ CircuitState.closed
      → a.generation ≡ d.generation
      → suc (d.consecutive_failures + length times) ≡ d.failure_threshold
      → 0 < d.half_open_max_calls
      → ((fail_all a times d).state ≡ CircuitState.closed)
        × (py.lt now (py.add last d.open_duration) ≡ true
            → admit now (fail a last (fail_all a times d)).1
              ≡ ((none, none), (fail a last (fail_all a times d)).1))
        × (py.lt now (py.add last d.open_duration) ≡ false
            → ((admit now (fail a last (fail_all a times d)).1).0.0
                ≡ some (record {
                  generation = suc (suc d.generation);
                  state = CircuitState.half_open;
                  owns_half_open_slot = true;
                }))
              × ((admit now (fail a last (fail_all a times d)).1).1.state ≡ CircuitState.half_open))
  trip a times last d now hs hg h hm =
      let d' = record d { consecutive_failures = d.consecutive_failures + length times } in
      let (opened, until, generation, max_calls) = fail-trips a last d' hs hg h in
      let after = admit-opened now (fail a last d').1 opened (rw max_calls hm) in
      rw (fail_all-closed a times d hs hg (omega arith)) (
        hs,
        (λ early. after.0 (rw until early)),
        (λ late. rw (← generation) (after.1 (rw until late))),
      )

  -- one probe after the other: admitted at the first time, successful at the second
  abbrev probe_with : F → (Option Admission × Option Transition) × CircuitData F → CircuitData F
  probe_with done ((none, moved), d) = d
  probe_with done ((some a, moved), d) = (succeed a done d).1

  pub probe : F × F → CircuitData F → CircuitData F
  probe (start, done) d = probe_with done (admit start d)

  pub probe_all : List (F × F) → CircuitData F → CircuitData F
  probe_all [] d = d
  probe_all (t ∷ times) d = probe_all times (probe t d)

  probe-half_open :
      (t : F × F) (d : CircuitData F)
      → d.state ≡ CircuitState.half_open
      → d.half_open_in_flight ≡ pos 0
      → 0 < d.half_open_max_calls
      → suc d.recovery_successes < d.recovery_success_threshold
      → probe t d ≡ record d { recovery_successes = suc d.recovery_successes }
  unfolding probe admit take_slot succeed transition
  probe-half_open t d hs hf hm h = ground arith

  probe-closes :
      (t : F × F) (d : CircuitData F)
      → d.state ≡ CircuitState.half_open
      → d.half_open_in_flight ≡ pos 0
      → 0 < d.half_open_max_calls
      → suc d.recovery_successes ≡ d.recovery_success_threshold
      → ((probe t d).state ≡ CircuitState.closed) × ((probe t d).consecutive_failures ≡ 0)
  unfolding probe admit take_slot succeed transition
  probe-closes t d hs hf hm h = ground arith

  probe_all-half_open :
      (times : List (F × F)) (d : CircuitData F)
      → d.state ≡ CircuitState.half_open
      → d.half_open_in_flight ≡ pos 0
      → 0 < d.half_open_max_calls
      → d.recovery_successes + length times < d.recovery_success_threshold
      → probe_all times d ≡ record d { recovery_successes = d.recovery_successes + length times }
  unfolding probe_all
  probe_all-half_open [] d hs hf hm h = ground arith
  probe_all-half_open (t ∷ times) d hs hf hm h = rw (probe-half_open t d hs hf hm (omega arith)) (
      ground (
        arith,
        probe_all-half_open times (record d { recovery_successes = suc d.recovery_successes }),
      ))

  -- A half-open breaker with no call in flight stays half open through fewer successful probes
  -- than its recovery threshold, and closes, with no failure counted, at the probe that reaches it.
  pub recovery :
      (times : List (F × F)) (last : F × F) (d : CircuitData F)
      → d.state ≡ CircuitState.half_open
      → d.half_open_in_flight ≡ pos 0
      → 0 < d.half_open_max_calls
      → suc (d.recovery_successes + length times) ≡ d.recovery_success_threshold
      → ((probe_all times d).state ≡ CircuitState.half_open)
        × ((probe last (probe_all times d)).state ≡ CircuitState.closed)
        × ((probe last (probe_all times d)).consecutive_failures ≡ 0)
  recovery times last d hs hf hm h =
      let closes =
        probe-closes last (record d { recovery_successes = d.recovery_successes + length times }) hs
          hf hm h in
      rw (probe_all-half_open times d hs hf hm (omega arith)) (hs, closes.0, closes.1)
