-- ===== src/LeaderRedis/Lock/Rounds/Rules.antt =====
-- Rules for code that may run out of rounds: it does not where the time that is left is short enough.
use bluetape_py.Common.{ℕ, ◌+◌, ◌≤◌, ◌≡◌, ◌≢◌, refl, ◌⊎◌, Option, none, some}
use bluetape_py.Common.Exec.{Result, ok, raise, Exec, pure, throw, lift, ◌>>=◌, Cell}
use bluetape_py.Common.Acts.{Acts}
use bluetape_py.Common.Does.{Does, Does-bind-Does}
use bluetape_py.LeaderRedis.Errors.{PyError}

-- the rounds were enough
abbrev pub IsOver : {A : Type 0} → Result PyError (Option A) → Type 0
IsOver (ok none) = ⊥
IsOver (ok (some a)) = Unit
IsOver (raise e) = Unit

-- from a time at which `D` holds
abbrev pub Over : {A : Type 0} → (ℕ → Type 0) → Result PyError (Option A) → ℕ → ℕ → Type 0
Over D r s t = D s → IsOver r

abbrev pub OkThen : {A : Type 0} → (A → ℕ → ℕ → Type 0) → Result PyError A → ℕ → ℕ → Type 0
OkThen P (ok a) s t = P a s t
OkThen P (raise e) s t = Unit

-- A clock reads a time between its call and its return.
abbrev pub Reads : Result PyError ℕ → ℕ → ℕ → Type 0
Reads (ok now) s t = (s ≤ now) × (now ≤ t)
Reads (raise e) s t = Unit

-- A sleep takes at least the time that it was asked for: 40 ms, or what remained, whichever is less.
abbrev pub Sleeps : ℕ → Result PyError (Unit {0}) → ℕ → ℕ → Type 0
Sleeps rest (ok x) s t = (s + 40000000 ≤ t) ⊎ (s + rest ≤ t)
Sleeps rest (raise e) s t = Unit

module _ {W : Type 0} {clock : Cell W ℕ} where
  pub Over-bind :
      {A B : Type 0} {D : ℕ → Type 0} (P : A → ℕ → ℕ → Type 0) (D' : A → ℕ → Type 0)
      (m : Exec PyError W A) (f : A → Exec PyError W (Option B))
      → Does clock (OkThen P) m
      → ((a : A) (s t : ℕ) → P a s t → D s → D' a t)
      → ((a : A) → Does clock (Over (D' a)) (f a))
      → Does clock (Over D) (m >>= f)
  Over-bind {D = D} P D' m f hm next hf =
      Does-bind-Does (OkThen P) (λ a. Over (D' a)) (Over D) (λ e s t p d. tt)
        (λ a r s t u p q d. q (next a s t p d)) m f hm hf

  -- what is over wherever it starts
  pub Over-given :
      {A : Type 0} {D : ℕ → Type 0} (a : A) → Does clock (Over D) (pure {E = PyError} (some a))
  Over-given a = record { at = λ w d. tt }

  pub Over-raise :
      {A : Type 0} {D : ℕ → Type 0} (e : PyError) → Does clock (Over {A = A} D) (throw e)
  Over-raise e = record { at = λ w d. tt }

  pub later_than :
      {A : Type 0} (m : Exec PyError W A)
      → Acts clock (λ s t. s ≤ t) m
      → Does clock (OkThen (λ a s t. s ≤ t)) m
  later_than m h = record { at = λ w. by_result (m w).0 (h.at w) }
    where
      by_result :
          {A : Type 0} {s t : ℕ} (r : Result PyError A) → s ≤ t → OkThen (λ a s t. s ≤ t) r s t
      by_result (ok a) h = h
      by_result (raise e) h = tt

  -- of what is not read of
  pub whatever : {A : Type 0} (m : Exec PyError W A) → Does clock (OkThen (λ a s t. Unit)) m
  whatever m = record { at = λ w. by_result (m w).0 (clock.read w) (clock.read (m w).1) }
    where
      by_result : {A : Type 0} (r : Result PyError A) (s t : ℕ) → OkThen (λ a s t. Unit) r s t
      by_result (ok a) s t = tt
      by_result (raise e) s t = tt

  -- a time that is read is at hand when the code goes on
  pub reading :
      (m : Exec PyError W ℕ)
      → Does clock Reads m
      → Does clock (OkThen (λ now s t. (s ≤ now) × (now ≤ t))) m
  reading m h = record { at = λ w. by_result _ _ _ (h.at w) }
    where
      by_result :
          (r : Result PyError ℕ) (s t : ℕ)
          → Reads r s t
          → OkThen (λ now s t. (s ≤ now) × (now ≤ t)) r s t
      by_result (ok now) s t p = p
      by_result (raise e) s t p = tt

  pub sleeping :
      (rest : ℕ) (m : Exec PyError W (Unit {0}))
      → Does clock (Sleeps rest) m
      → Does clock (OkThen (λ x s t. (s + 40000000 ≤ t) ⊎ (s + rest ≤ t))) m
  sleeping rest m h = record { at = λ w. by_result _ _ _ (h.at w) }
    where
      by_result :
          (r : Result PyError (Unit {0})) (s t : ℕ)
          → Sleeps rest r s t
          → OkThen (λ x s t. (s + 40000000 ≤ t) ⊎ (s + rest ≤ t)) r s t
      by_result (ok x) s t p = p
      by_result (raise e) s t p = tt

  pub lifted :
      {A : Type 0} (r : Result PyError A) → Does clock (OkThen (λ a s t. r ≡ ok a)) (lift r)
  lifted (ok a) = record { at = λ w. refl }
  lifted (raise e) = record { at = λ w. tt }

pub over_result : {A : Type 0} (r : Result PyError (Option A)) → IsOver r → r ≢ ok none
over_result (ok none) h = absurd h
over_result (ok (some a)) h = λ e. cc e
over_result (raise e) h = λ k. cc k
