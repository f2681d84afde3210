-- ===== src/Resilience/Circuit/Run.antt =====
-- Threads that share a breaker: every interleaving of their admissions and resolutions.
use bluetape_py.Common.{ℕ, ◌≤◌, ◌<◌, ◌≡◌, refl, subst, List, [], ◌∷◌, ◌++◌, arith}
use bluetape_py.Common.Int.{pos}
use bluetape_py.Resilience.Core.{Runtime}
use bluetape_py.Resilience.Circuit.{Admission, CircuitData, new_data, admit, transition, take_slot}
use bluetape_py.Resilience.Circuit.Slots.{
  IsConsistent, Resolution, ignored, succeeded, failed, resolve, holders, with_admitted,
  admit-IsConsistent, resolve-IsConsistent,
}

module _ {F : Type 0} ⦃py : Runtime F⦄ where
  -- One step of some thread: it asks for an admission, or resolves one of the calls in flight.
  pub data Step (d : CircuitData F) (calls : List Admission)
      : CircuitData F → List Admission → Type 0 where
    admits : (now : F) → Step d calls (admit now d).1 (with_admitted (admit now d).0.0 calls)
    resolves :
        (r : Resolution F) (xs : List Admission) (a : Admission) (ys : List Admission)
        → calls ≡ xs ++ a ∷ ys
        → Step d calls (resolve r a d) (xs ++ ys)

  pub data Steps (d : CircuitData F) (calls : List Admission)
      : CircuitData F → List Admission → Type 0 where
    here : Steps d calls d calls
    next :
        {e f : CircuitData F} {cs ds : List Admission}
        → Steps d calls e cs
        → Step e cs f ds
        → Steps d calls f ds

  Step-IsConsistent :
      {d : CircuitData F} {cs : List Admission} {e : CircuitData F} {ds : List Admission}
      → Step d cs e ds
      → IsConsistent d cs
      → IsConsistent e ds
  Step-IsConsistent {d} {cs} (admits now) h = admit-IsConsistent now d cs h
  Step-IsConsistent {d} (resolves r xs a ys e) h =
      resolve-IsConsistent r d xs a ys (subst (IsConsistent d) e h)

  pub Steps-IsConsistent :
      {d : CircuitData F} {cs : List Admission} {e : CircuitData F} {ds : List Admission}
      → IsConsistent d cs
      → Steps d cs e ds
      → IsConsistent e ds
  Steps-IsConsistent h here = h
  Steps-IsConsistent h (next steps step) = Step-IsConsistent step (Steps-IsConsistent h steps)

  new_data-IsConsistent :
      (failures : ℕ) (duration : F) (max_calls successes : ℕ)
      → 0 < failures
      → 0 < successes
      → IsConsistent (new_data failures duration max_calls successes) []
  unfolding new_data holders
  new_data-IsConsistent failures duration max_calls successes hf hs = record {
    counted = refl;
    within = omega arith;
    below_failures = hf;
    below_recovery = hs;
    owned = tt;
  }

  max_calls-admit :
      (now : F) (d : CircuitData F) → (admit now d).1.half_open_max_calls ≡ d.half_open_max_calls
  unfolding admit take_slot transition
  max_calls-admit now d = ground arith

  max_calls-resolve :
      (r : Resolution F) (a : Admission) (d : CircuitData F)
      → (resolve r a d).half_open_max_calls ≡ d.half_open_max_calls
  unfolding resolve transition
  max_calls-resolve ignored a d = ground arith
  max_calls-resolve (succeeded now) a d = ground arith
  max_calls-resolve (failed now) a d = ground arith

  Step-max_calls :
      {d : CircuitData F} {cs : List Admission} {e : CircuitData F} {ds : List Admission}
      → Step d cs e ds
      → e.half_open_max_calls ≡ d.half_open_max_calls
  Step-max_calls {d} (admits now) = max_calls-admit now d
  Step-max_calls {d} (resolves r xs a ys _) = max_calls-resolve r a d

  Steps-max_calls :
      {d : CircuitData F} {cs : List Admission} {e : CircuitData F} {ds : List Admission}
      → Steps d cs e ds
      → e.half_open_max_calls ≡ d.half_open_max_calls
  Steps-max_calls here = refl
  Steps-max_calls (next steps step) = omega (arith, Step-max_calls step, Steps-max_calls steps)

  -- From a new breaker with positive thresholds, after any interleaving of admissions and
  -- resolutions: at most `max_calls` of the calls in flight own a slot of the present generation,
  -- and the counter is exactly their number (so it never falls below zero).
  pub half_open_bound :
      (failures : ℕ) (duration : F) (max_calls successes : ℕ) {d : CircuitData F}
      {calls : List Admission}
      → 0 < failures
      → 0 < successes
      → Steps (new_data failures duration max_calls successes) [] d calls
      → (holders d.generation calls ≤ max_calls)
        × (d.half_open_in_flight ≡ pos (holders d.generation calls))
  unfolding new_data
  half_open_bound failures duration max_calls successes {d} {calls} hf hs steps =
      let h =
        Steps-IsConsistent (new_data-IsConsistent failures duration max_calls successes hf hs)
          steps in
      (omega (arith, h.within, Steps-max_calls steps), h.counted)
