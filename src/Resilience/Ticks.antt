-- ===== src/Resilience/Ticks.antt =====
-- The instance of the tests: time in whole ticks, and operations that `inspect` finds plain.
use Prim.Native.Nat.{◌^◌}
use bluetape_py.Common.{ℕ, ◌+◌, ◌-◌, ◌*◌, true, false, Option, none, some, ltb, leb, ◌==◌}
use bluetape_py.Common.Int.{ℤ, pos, negsuc}
use bluetape_py.Common.Exec.{Exec}
use bluetape_py.Resilience.Core.{Runtime, Error}
use bluetape_py.Resilience.Operation.{Target, Returned, Operation}

abbrev tick_of : ℤ → Option ℕ
tick_of (pos n) = some n
tick_of (negsuc n) = none

instance abbrev pub ticks : Runtime ℕ
ticks = record {
  of_int = tick_of;
  is_finite = λ t. true;
  zero = 0;
  one = 1;
  infinity = 2 ^ 64;
  eqb = ◌==◌;
  lt = ltb;
  le = leb;
  add = ◌+◌;
  sub = ◌-◌;
  mul = ◌*◌;
  pow = λ x n. some (x ^ n);
  strip = λ s. s;
}

abbrev pub plain : Target
plain = record {
  is_coroutine_function = false;
  is_generator_function = false;
  is_async_generator_function = false;
}

abbrev pub sync_operation :
    {W A : Type 0} → Exec (Error ℕ) W (Returned ℕ W A) → Operation ℕ W (Returned ℕ W A)
sync_operation run = record {
  is_callable = true;
  self_target = plain;
  call_target = plain;
  run = run;
}

abbrev pub coroutine : Target
coroutine = record plain { is_coroutine_function = true }

abbrev pub async_operation : {W A : Type 0} → Exec (Error ℕ) W A → Operation ℕ W A
async_operation run = record {
  is_callable = true;
  self_target = coroutine;
  call_target = plain;
  run = run;
}
