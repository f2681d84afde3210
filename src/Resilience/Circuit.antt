-- ===== src/Resilience/Circuit.antt =====
-- resilience/_circuit.py: `_CircuitData`, the state of one breaker, and its operations. Each takes
-- the state and gives the result and the new state.
pub mod Slots
pub mod Breaker
pub mod AsyncBreaker
pub mod Run
pub mod Trip
mod Examples
mod AsyncExamples
use bluetape_py.Common.{
  ℕ, suc, ◌+◌, String, Bool, true, false, ◌&&◌, not, Option, none, some, leb, ◌==◌, if◌then◌else◌,
}
use bluetape_py.Common.Int.{ℤ, pos, ltb_ℤ, increment, decrement}
use bluetape_py.Resilience.Core.{Runtime, CircuitState, CircuitSnapshot}

pub record Admission : Type 0 where
  pub generation : ℕ
  pub state : CircuitState
  pub owns_half_open_slot : Bool

pub record Transition : Type 0 where
  pub previous : CircuitState
  pub current : CircuitState

pub record CircuitData (F : Type 0) : Type 0 where
  pub failure_threshold : ℕ
  pub open_duration : F
  pub half_open_max_calls : ℕ
  pub recovery_success_threshold : ℕ
  pub state : CircuitState
  pub consecutive_failures : ℕ
  pub recovery_successes : ℕ
  pub half_open_in_flight : ℤ
  pub open_until : F
  pub generation : ℕ

abbrev pub is_opened : CircuitState → Bool
is_opened CircuitState.opened = true
is_opened _ = false

abbrev pub is_half_open : CircuitState → Bool
is_half_open CircuitState.half_open = true
is_half_open _ = false

abbrev pub is_closed : CircuitState → Bool
is_closed CircuitState.closed = true
is_closed _ = false

module _ {F : Type 0} ⦃py : Runtime F⦄ where
  unfoldable pub new_data : ℕ → F → ℕ → ℕ → CircuitData F
  new_data failure_threshold open_duration half_open_max_calls recovery_success_threshold = record {
    failure_threshold = failure_threshold;
    open_duration = open_duration;
    half_open_max_calls = half_open_max_calls;
    recovery_success_threshold = recovery_success_threshold;
    state = CircuitState.closed;
    consecutive_failures = 0;
    recovery_successes = 0;
    half_open_in_flight = pos 0;
    open_until = py.zero;
    generation = 0;
  }

  unfoldable pub transition : CircuitState → F → CircuitData F → Transition × CircuitData F
  transition state now d = (
    record { previous = d.state; current = state },
    record d {
      state = state;
      generation = suc d.generation;
      consecutive_failures = 0;
      recovery_successes = 0;
      half_open_in_flight = pos 0;
      open_until = if is_opened state then py.add now d.open_duration else d.open_until;
    },
  )

  -- the second half of `admit`: take a slot if the breaker is half open
  unfoldable pub take_slot :
      Option Transition → CircuitData F → (Option Admission × Option Transition) × CircuitData F
  take_slot moved d =
      if is_half_open d.state
      then (if not (ltb_ℤ d.half_open_in_flight (pos d.half_open_max_calls))
          then ((none, moved), d)
          else (
            (
              some (record {
                generation = d.generation;
                state = d.state;
                owns_half_open_slot = true;
              }),
              moved,
            ),
            record d { half_open_in_flight = increment d.half_open_in_flight },
          ))
      else (
        (
          some (record { generation = d.generation; state = d.state; owns_half_open_slot = false }),
          moved,
        ),
        d,
      )

  unfoldable pub admit : F → CircuitData F → (Option Admission × Option Transition) × CircuitData F
  admit now d =
      if is_opened d.state
      then (if py.lt now d.open_until
          then ((none, none), d)
          else let (moved, d') = transition CircuitState.half_open now d in
            take_slot (some moved) d')
      else take_slot none d

  unfoldable pub succeed : Admission → F → CircuitData F → Option Transition × CircuitData F
  succeed admission now d =
      if not (admission.generation == d.generation)
      then (none, d)
      else if admission.owns_half_open_slot && is_half_open d.state
      then (let d' = record d {
        half_open_in_flight = decrement d.half_open_in_flight;
        recovery_successes = suc d.recovery_successes;
      } in
          if leb d'.recovery_success_threshold d'.recovery_successes
          then (let (moved, d'') = transition CircuitState.closed now d' in (some moved, d''))
          else (none, d'))
      else if is_closed d.state
      then (none, record d { consecutive_failures = 0 })
      else (none, d)

  unfoldable pub fail : Admission → F → CircuitData F → Option Transition × CircuitData F
  fail admission now d =
      if not (admission.generation == d.generation)
      then (none, d)
      else if admission.owns_half_open_slot && is_half_open d.state
      then (let d' = record d { half_open_in_flight = decrement d.half_open_in_flight } in
          let (moved, d'') = transition CircuitState.opened now d' in (some moved, d''))
      else if is_closed d.state
      then (let d' = record d { consecutive_failures = suc d.consecutive_failures } in
          if leb d'.failure_threshold d'.consecutive_failures
          then (let (moved, d'') = transition CircuitState.opened now d' in (some moved, d''))
          else (none, d'))
      else (none, d)

module _ {F : Type 0} where
  unfoldable pub ignore : Admission → CircuitData F → CircuitData F
  ignore admission d =
      if admission.generation == d.generation
        && admission.owns_half_open_slot
        && is_half_open d.state
      then record d { half_open_in_flight = decrement d.half_open_in_flight }
      else d

  unfoldable pub snapshot : String → CircuitData F → CircuitSnapshot
  snapshot name d = record {
    name = name;
    state = d.state;
    consecutive_failures = d.consecutive_failures;
    recovery_successes = d.recovery_successes;
    half_open_in_flight = d.half_open_in_flight;
  }
