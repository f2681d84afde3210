-- ===== src/Resilience/Retry/Schedule.antt =====
-- A retry against an operation with scripted outcomes: which outcome it gives, and how long it sleeps
-- before each further attempt.
use bluetape_py.Common.{
  ℕ, suc, ◌+◌, ◌-◌, ◌≤◌, ◌<◌, ◌≡◌, refl, ◌∙◌, subst, String, true, false, Option, none, some, List,
  [], ◌∷◌, ◌++◌, map, arith, leb, le→leb, length, All,
}
use mathlib.Core.List.{append-nil, append_assoc}
use native.Mathlib.Nat.{zero-add, add-zero, suc-add}
use bluetape_py.Common.Int.{pos}
use bluetape_py.Common.Exec.{Result, ok, raise, Exec}
use bluetape_py.Resilience.Core.{
  Runtime, PyValue, int, float, Error, retry_exhausted_error, base, emit, is_exception,
  finite_non_negative,
}
use bluetape_py.Resilience.Operation.{
  Returned, value, Operation, ensure_sync_operation, ensure_sync_result,
}
use bluetape_py.Resilience.Retry.{
  Retry, retryable_by_default, is_retryable, schedule, after_error, succeed_at, is_contract_error,
  sync_loop, call,
}

-- What the operation will do, and the delays of the sleeps so far.
pub record Script (F A : Type 0) : Type 0 where
  pub outcomes : List (Result (Error F) A)
  pub slept : List F

abbrev delay_at : {F : Type 0} → (ℕ → F) → PyValue F → PyValue F
delay_at delay (int (pos n)) = float (delay n)
delay_at delay v = v

module _ {F A : Type 0} where
  abbrev pub run_script : Exec (Error F) (Script F A) (Returned F (Script F A) A)
  run_script s = next s.outcomes
    where
      give : Result (Error F) A → Result (Error F) (Returned F (Script F A) A)
      give (ok a) = ok (value a)
      give (raise e) = raise e

      next : List (Result (Error F) A) → Result (Error F) (Returned F (Script F A) A) × Script F A
      next [] = (raise (base 0), s)
      next (o ∷ rest) = (give o, record s { outcomes = rest })

  -- A policy with the defaults for what it does not need, a backoff that is a function of the
  -- attempt, and a sleeper that notes the delay.
  abbrev pub scripted : String → ℕ → (ℕ → F) → Retry F (Script F A)
  scripted name max_attempts delay = record {
    name = name;
    max_attempts = max_attempts;
    backoff = λ v s. (ok (delay_at delay v), s);
    retry_if = none;
    observer = none;
    sleeper = λ d s. (ok tt, record s { slept = s.slept ++ d ∷ [] });
  }

-- The errors that are retried with no `retry_if`.
abbrev pub IsRetried : {F : Type 0} → Error F → Type 0
IsRetried e =
    (is_contract_error e ≡ false) × (is_exception e ≡ true) × (retryable_by_default e ≡ true)

-- The delays after the attempts `from`, `from + 1` and so on.
abbrev pub delays : {F : Type 0} → (ℕ → F) → ℕ → List (Error F) → List F
delays delay from [] = []
delays delay from (e ∷ es) = delay from ∷ delays delay (from + 1) es

module _ {F A : Type 0} ⦃py : Runtime F⦄ (name : String) (limit : ℕ) (delay : ℕ → F)
    (valid : (n : ℕ) → finite_non_negative (float (delay n)) ≡ ok (delay n)) where
  abbrev policy : Retry F (Script F A)
  policy = scripted name limit delay

  sleeps :
      (error : Error F) (attempt : ℕ) (s : Script F A)
      → IsRetried error
      → attempt < limit
      → after_error policy error attempt s
        ≡ (ok tt, record s { slept = s.slept ++ delay attempt ∷ [] })
  unfolding after_error is_retryable schedule emit
  sleeps error attempt s h lt =
      let early : leb limit attempt ≡ false = ground arith in simp (h.2, early, valid attempt)

  -- the loop over errors that are all retried, up to what follows them
  loop_errors :
      (errors : List (Error F)) (rest : List (Result (Error F) A)) (slept : List F)
      (fuel attempt : ℕ)
      → All IsRetried errors
      → attempt + length errors ≤ limit
      → sync_loop policy run_script
          (length errors + fuel)
          attempt
          (record { outcomes = map raise errors ++ rest; slept = slept })
        ≡ sync_loop policy run_script fuel
            (attempt + length errors)
            (record { outcomes = rest; slept = slept ++ delays delay attempt errors })
  unfolding sync_loop
  loop_errors [] rest slept fuel attempt h le = simp (zero-add, add-zero, append-nil)
  loop_errors (e ∷ errors) rest slept fuel attempt h le =
      let shift : attempt + 1 + length errors ≡ attempt + suc (length errors) = omega arith in
      simp (suc-add, h.0.0, h.0.1, sleeps e attempt _ h.0 (omega arith))
        (simp (append_assoc, shift) at
          (loop_errors errors rest (slept ++ delay attempt ∷ []) fuel (attempt + 1) h.1
            (omega arith)))

  loop_limit :
      (errors : List (Error F)) (rest : List (Result (Error F) A)) (fuel : ℕ)
      → All IsRetried errors
      → length errors + suc fuel ≡ limit
      → sync_loop policy run_script limit 1
          (record { outcomes = map raise errors ++ rest; slept = [] })
        ≡ sync_loop policy run_script
            (suc fuel)
            (1 + length errors)
            (record { outcomes = rest; slept = delays delay 1 errors })
  loop_limit errors rest fuel h e =
      subst
        (λ n.
          sync_loop policy run_script n 1
            (record { outcomes = map raise errors ++ rest; slept = [] })
          ≡ sync_loop policy run_script (suc fuel) (1 + length errors)
              (record { outcomes = rest; slept = delays delay 1 errors }))
        e (loop_errors errors rest [] (suc fuel) 1 h (omega arith))

  returns :
      (a : A) (rest : List (Result (Error F) A)) (slept : List F) (fuel attempt : ℕ)
      → sync_loop policy run_script
          (suc fuel)
          attempt
          (record { outcomes = ok a ∷ rest; slept = slept })
        ≡ (ok (some a), record { outcomes = rest; slept = slept })
  unfolding sync_loop ensure_sync_result succeed_at emit
  returns a rest slept fuel attempt = refl

  exhausts :
      (e : Error F) (rest : List (Result (Error F) A)) (slept : List F) (fuel attempt : ℕ)
      → IsRetried e
      → attempt ≡ limit
      → sync_loop policy run_script
          (suc fuel)
          attempt
          (record { outcomes = raise e ∷ rest; slept = slept })
        ≡ (raise (retry_exhausted_error name limit), record { outcomes = rest; slept = slept })
  unfolding sync_loop after_error is_retryable emit
  exhausts e rest slept fuel attempt h at_limit =
      let late : leb limit attempt ≡ true = le→leb limit attempt (omega arith) in
      simp (h.0, h.1, h.2, late) (rw at_limit)

  module _ (operation : Operation F (Script F A) (Returned F (Script F A) A))
      (runs : operation.run ≡ run_script) (fits : ensure_sync_operation operation ≡ ok tt) where
    -- the last outcome is a value
    call-succeeds :
        (errors : List (Error F)) (a : A) (rest : List (Result (Error F) A))
        → All IsRetried errors
        → length errors < limit
        → call policy operation (record { outcomes = map raise errors ++ ok a ∷ rest; slept = [] })
          ≡ (ok (some a), record { outcomes = rest; slept = delays delay 1 errors })
    unfolding call
    call-succeeds errors a rest h lt =
        rw (fits, runs)
          (loop_limit errors (ok a ∷ rest) (limit - length errors - 1) h (omega arith)
            ∙ returns a rest (delays delay 1 errors) _ (1 + length errors))

    -- the last outcome is an error
    call-exhausts :
        (errors : List (Error F)) (last : Error F) (rest : List (Result (Error F) A))
        → All IsRetried errors
        → IsRetried last
        → suc (length errors) ≡ limit
        → call policy operation
            (record { outcomes = map raise errors ++ raise last ∷ rest; slept = [] })
          ≡ (
            raise (retry_exhausted_error name limit),
            record { outcomes = rest; slept = delays delay 1 errors },
          )
    unfolding call
    call-exhausts errors last rest h hl e =
        rw (fits, runs)
          (loop_limit errors (raise last ∷ rest) (limit - length errors - 1) h (omega arith)
            ∙ exhausts last rest (delays delay 1 errors) _ (1 + length errors) hl (omega arith))

    -- The last outcome is that of an attempt that is allowed: a value, or a retried error of the last one.
    abbrev pub IsLast : List (Error F) → Result (Error F) A → Type 0
    IsLast errors (ok a) = length errors < limit
    IsLast errors (raise e) = IsRetried e × (suc (length errors) ≡ limit)

    abbrev pub result_of : Result (Error F) A → Result (Error F) (Option A)
    result_of (ok a) = ok (some a)
    result_of (raise e) = raise (retry_exhausted_error name limit)

    -- An operation that fails with `errors`, all of which are retried, and then either gives a value while
    -- attempts are left, or fails so at the last attempt allowed: the call gives the value, or raises
    -- `RetryExhaustedError` with that number; it leaves the later outcomes alone, and has slept for the
    -- backoff's delay of each attempt of `errors`, in order, and not after the last one.
    pub call-follows :
        (errors : List (Error F)) (last : Result (Error F) A) (rest : List (Result (Error F) A))
        → All IsRetried errors
        → IsLast errors last
        → call policy operation (record { outcomes = map raise errors ++ last ∷ rest; slept = [] })
          ≡ (result_of last, record { outcomes = rest; slept = delays delay 1 errors })
    call-follows errors (ok a) rest h few = call-succeeds errors a rest h few
    call-follows errors (raise e) rest h (again, all) = call-exhausts errors e rest h again all
