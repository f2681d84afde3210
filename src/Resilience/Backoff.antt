-- ===== src/Resilience/Backoff.antt =====
-- resilience/_backoff.py: the delay before the next attempt.
use bluetape_py.Common.{ℕ, ◌-◌, not, ◌&&◌, Option, none, some, if◌then◌else◌}
use bluetape_py.Common.Exec.{Result, ok, raise, Exec, pure, throw, lift, ◌>>=◌, ◌>>◌}
use bluetape_py.Resilience.Core.{
  Runtime, PyValue, float, Callback, Error, value_error, positive_int, validate_callable, to_float,
  finite_non_negative, finite_positive,
}

-- `_ExponentialBackoff`; its random source is an action.
pub record ExponentialBackoff (F W : Type 0) : Type 0 where
  pub initial_delay : F
  pub multiplier : F
  pub max_delay : Option F
  pub jitter : F
  pub random_source : Exec (Error F) W (PyValue F)

-- The two strategies of the module.
pub data Backoff (F W : Type 0) : Type 0 where
  constant : F → Backoff F W
  exponential : ExponentialBackoff F W → Backoff F W

module _ {F : Type 0} ⦃py : Runtime F⦄ where
  -- `self.initial_delay * self.multiplier ** (attempt - 1)`, and infinity if it overflows
  unfoldable pub base_delay : F → F → ℕ → F
  base_delay initial multiplier attempt = elim (py.pow multiplier (attempt - 1)) [
    | none ↦ py.infinity
    | some p ↦ py.mul initial p
  ]

  -- `min(base, self.max_delay)`: the first of the two unless the second is smaller
  unfoldable pub cap_delay : Option F → F → F
  cap_delay none base = base
  cap_delay (some limit) base = if py.lt limit base then limit else base

  -- the check of a random number, and the factor that it gives
  unfoldable pub jitter_factor : F → PyValue F → Result (Error F) F
  jitter_factor jitter value = elim (to_float value) [
    | raise e ↦ raise e
    | ok x ↦
        if not (py.le py.zero x && py.le x py.one)
        then raise value_error
        else ok (py.add (py.sub py.one jitter) (py.mul (py.mul (py.add py.one py.one) jitter) x))
  ]

  abbrev optional_positive : Option (PyValue F) → Exec (Error F) (Unit {0}) (Option F)
  optional_positive none = pure none
  optional_positive (some value) = do x ← lift (finite_positive value); pure (some x)

  module _ {W : Type 0} where
    unfoldable pub exponential_delay : ExponentialBackoff F W → PyValue F → Exec (Error F) W F
    exponential_delay b failed_attempt = do
      attempt ← lift (positive_int failed_attempt)
      let base = cap_delay b.max_delay (base_delay b.initial_delay b.multiplier attempt)
      if py.eqb b.jitter py.zero then lift (finite_non_negative (float base)) else do
        random_value ← b.random_source
        factor ← lift (jitter_factor b.jitter random_value)
        lift (finite_non_negative (float (py.mul base factor)))

    -- `__call__` of either strategy
    unfoldable pub delay_of : Backoff F W → PyValue F → Exec (Error F) W F
    delay_of (constant delay) failed_attempt = do lift (positive_int failed_attempt); pure delay
    delay_of (exponential b) failed_attempt = exponential_delay b failed_attempt

    unfoldable pub constant_backoff : PyValue F → Result (Error F) (Backoff F W)
    constant_backoff delay = elim (finite_non_negative delay) [
      | ok x ↦ ok (constant x)
      | raise e ↦ raise e
    ]

    unfoldable pub exponential_backoff :
        PyValue F
        → PyValue F
        → Option (PyValue F)
        → PyValue F
        → Callback (Exec (Error F) W (PyValue F))
        → Exec (Error F) (Unit {0}) (Backoff F W)
    exponential_backoff initial_delay multiplier max_delay jitter random_source = do
      initial ← lift (finite_positive initial_delay)
      factor ← lift (finite_positive multiplier)
      maximum ← optional_positive max_delay
      jitter_value ← lift (finite_non_negative jitter)
      if py.lt py.one jitter_value then throw value_error else do
        source ← lift (validate_callable random_source)
        pure (
            exponential (record {
              initial_delay = initial;
              multiplier = factor;
              max_delay = maximum;
              jitter = jitter_value;
              random_source = source;
            }))
