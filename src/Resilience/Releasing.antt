-- ===== src/Resilience/Releasing.antt =====
-- The release of the async policies: a task waits for the lock, may be cancelled there, and tries
-- again until it has released. What each end of such code means for the object under the lock.
use bluetape_py.Common.{◌≡◌, Bool, true, false, Option, none, some, if◌then◌else◌}
use bluetape_py.Common.Exec.{Result, ok, raise, Exec, pure, throw, ◌>>=◌, ◌>>◌, try_else, Cell}
use bluetape_py.Common.Acts.{IsRely}
use bluetape_py.Common.Does.{Does, Does-try-Does, Does-bind-Does}
use bluetape_py.Resilience.Core.{Error, cancelled}

abbrev pub is_cancelled : {F : Type 0} → Error F → Bool
is_cancelled cancelled = true
is_cancelled _ = false

-- the end of a release on the way out with `error`; the flag says that it was cancelled meanwhile
abbrev pub raise_after :
    {F W A X : Type 0} → Error F → Option (X × Bool) → Exec (Error F) W (Option A)
raise_after error none = pure none
raise_after error (some (snap, was_cancelled)) = throw (if was_cancelled then cancelled else error)

-- To wait for the lock is all that can be interrupted, and only by a cancellation.
module _ {F S : Type 0} (R : S → S → Type 0) where
  abbrev pub Waited : {A : Type 0} → Result (Error F) A → S → S → Type 0
  Waited (ok x) s u = R s u
  Waited (raise e) s u = (is_cancelled e ≡ true) × R s u

-- `R` is what others may do, `Q` what the release does.
module _ {F S : Type 0} (R Q : S → S → Type 0) where
  abbrev pub Locked : {A : Type 0} → Result (Error F) A → S → S → Type 0
  Locked (ok x) s u = Q s u
  Locked (raise e) s u = (is_cancelled e ≡ true) × R s u

  -- one block under the lock, which raises nothing
  abbrev pub Once : {A : Type 0} → Result (Error F) A → S → S → Type 0
  Once (ok x) s u = Q s u
  Once (raise e) s u = ⊥

  -- the loop of the release raises nothing
  abbrev pub Released : {A : Type 0} → Result (Error F) (Option A) → S → S → Type 0
  Released (ok none) s u = R s u
  Released (ok (some x)) s u = Q s u
  Released (raise e) s u = ⊥

  -- The call has done its `Q`, or it is still at the release.
  abbrev pub Settled : {A : Type 0} → Result (Error F) (Option A) → S → S → Type 0
  Settled (ok none) s u = R s u
  Settled (ok (some x)) s u = Q s u
  Settled (raise e) s u = Q s u

module _ {F S : Type 0} (R : S → S → Type 0) where
  -- what follows a release is left to the others
  abbrev pub Finished : {A : Type 0} → Result (Error F) (Option A) → S → S → Type 0
  Finished (ok none) s u = ⊥
  Finished (ok (some x)) s u = R s u
  Finished (raise e) s u = R s u

  -- the end of the loop after its release
  abbrev Freed : {A : Type 0} → Result (Error F) (Option A) → S → S → Type 0
  Freed (ok (some x)) s u = R s u
  Freed (ok none) s u = ⊥
  Freed (raise e) s u = ⊥

  -- what the end of the release becomes
  abbrev pub Reraised : {A B : Type 0} → Option B → Result (Error F) (Option A) → S → S → Type 0
  Reraised none (ok none) s u = R s u
  Reraised none _ s u = ⊥
  Reraised (some x) r s u = Finished r s u

-- What others do before and after a `Q` belongs to it.
pub record IsAbsorbing {S : Type 0} (R Q : S → S → Type 0) : Type 0 where
  pub rely : IsRely R
  pub before : (s t u : S) → R s t → Q t u → Q s u
  pub after : (s t u : S) → Q s t → R t u → Q s u

module _ {F S : Type 0} {R Q : S → S → Type 0} (absorbing : IsAbsorbing R Q) where
  then-Once :
      {A : Type 0} (r : Result (Error F) A) (s t u : S) → R s t → Once R Q r t u → Locked R Q r s u
  then-Once (ok x) s t u h k = absorbing.before s t u h k
  then-Once (raise e) s t u h k = absurd k

  then-Released :
      {A : Type 0} (r : Result (Error F) (Option A)) (s t u : S)
      → R s t
      → Released R Q r t u
      → Released R Q r s u
  then-Released (ok none) s t u h k = absorbing.rely.after s t u h k
  then-Released (ok (some x)) s t u h k = absorbing.before s t u h k
  then-Released (raise e) s t u h k = absurd k

  pub then-Settled :
      {A : Type 0} (r : Result (Error F) (Option A)) (s t u : S)
      → R s t
      → Settled R Q r t u
      → Settled R Q r s u
  then-Settled (ok none) s t u h k = absorbing.rely.after s t u h k
  then-Settled (ok (some x)) s t u h k = absorbing.before s t u h k
  then-Settled (raise e) s t u h k = absorbing.before s t u h k

  pub Settled-Finished :
      {A : Type 0} (r : Result (Error F) (Option A)) (s t u : S)
      → Q s t
      → Finished R r t u
      → Settled R Q r s u
  Settled-Finished (ok none) s t u h k = absurd k
  Settled-Finished (ok (some x)) s t u h k = absorbing.after s t u h k
  Settled-Finished (raise e) s t u h k = absorbing.after s t u h k

  pub then-Finished :
      {A : Type 0} (r : Result (Error F) (Option A)) (s t u : S)
      → R s t
      → Finished R r t u
      → Finished R r s u
  then-Finished (ok none) s t u h k = absurd k
  then-Finished (ok (some x)) s t u h k = absorbing.rely.after s t u h k
  then-Finished (raise e) s t u h k = absorbing.rely.after s t u h k

  Released-Freed :
      {A : Type 0} (r : Result (Error F) (Option A)) (s t u : S)
      → Q s t
      → Freed R r t u
      → Released R Q r s u
  Released-Freed (ok none) s t u h k = absurd k
  Released-Freed (ok (some x)) s t u h k = absorbing.after s t u h k
  Released-Freed (raise e) s t u h k = absurd k

  Settled-Reraised :
      {A B : Type 0} (x : Option B) (r : Result (Error F) (Option A)) (s t u : S)
      → Released {F = F} R Q {A = B} (ok x) s t
      → Reraised R x r t u
      → Settled R Q r s u
  Settled-Reraised none (ok none) s t u h k = absorbing.rely.after s t u h k
  Settled-Reraised none (ok (some x)) s t u h k = absurd k
  Settled-Reraised none (raise e) s t u h k = absurd k
  Settled-Reraised (some x) r s t u h k = Settled-Finished r s t u h k

module _ {F S W : Type 0} {R Q : S → S → Type 0} (absorbing : IsAbsorbing R Q)
    (cell : Cell W S) where
  pub Locked-lock :
      {A : Type 0} (lock : Exec (Error F) W (Unit {0})) (m : Exec (Error F) W A)
      → Does cell (Waited R) lock
      → Does cell (Once R Q) m
      → Does cell (Locked R Q) (lock >> m)
  Locked-lock lock m hl hm =
      Does-bind-Does (Waited R) (λ _. Once R Q) (Locked R Q) (λ e s t h. h)
        (λ _. then-Once absorbing) lock _ hl λ _. hm

  -- a `try` round a block under the lock, whose handler is reached by a cancellation alone
  pub try-Locked :
      {A B : Type 0} (P T : Result (Error F) B → S → S → Type 0) (m : Exec (Error F) W A)
      (h : Error F → Exec (Error F) W B) (f : A → Exec (Error F) W B)
      → ((r : Result (Error F) B) (s t u : S) → R s t → T r t u → T r s u)
      → ((r : Result (Error F) B) (s t u : S) → Q s t → P r t u → T r s u)
      → Does cell (Locked R Q) m
      → ((e : Error F) → is_cancelled e ≡ true → Does cell T (h e))
      → ((x : A) → Does cell P (f x))
      → Does cell T (try_else m h f)
  try-Locked P T m h f before after hm hh hf =
      Does-try-Does (Locked R Q) (λ _. P) T (λ e r s u. is_cancelled e ≡ true → T r s u)
        (λ e r s t u l k. before r s t u l.1 (k l.0)) (λ _. after) m h f hm
        (λ e. record { at = λ w c. (hh e c).at w }) hf

  -- one turn of the loop
  pub turn-Released :
      {X : Type 0} (was_cancelled : Bool) (release : Exec (Error F) W X)
      (again : Exec (Error F) W (Option (X × Bool)))
      → Does cell (Locked R Q) release
      → Does cell (Released R Q) again
      → Does cell (Released R Q) (
          try_else release
            (λ e. if is_cancelled e then again else throw e)
            (λ snap. pure (some (snap, was_cancelled))))
  turn-Released was_cancelled release again hr ha =
      try-Locked (Freed R) (Released R Q) release _ _ (then-Released absorbing)
        (Released-Freed absorbing) hr (λ e c. rw c ha)
        (λ snap. record { at = λ w. absorbing.rely.here (cell.read w) })

  raise_after-Reraised :
      {A X : Type 0} (e : Error F) (x : Option (X × Bool))
      → Does cell (Reraised R {A = A} x) (raise_after e x)
  raise_after-Reraised e none = record { at = λ w. absorbing.rely.here (cell.read w) }
  raise_after-Reraised e (some (snap, was_cancelled)) = record {
    at = λ w. absorbing.rely.here (cell.read w);
  }

  -- the release and what follows it
  pub loop-Settled :
      {A X : Type 0} (loop : Exec (Error F) W (Option (X × Bool)))
      (f : Option (X × Bool) → Exec (Error F) W (Option A))
      → Does cell (Released R Q) loop
      → ((x : Option (X × Bool)) → Does cell (Reraised R x) (f x))
      → Does cell (Settled R Q) (loop >>= f)
  loop-Settled loop f h hf =
      Does-bind-Does (Released R Q) (Reraised R) (Settled R Q) (λ e s t h. absurd h)
        (Settled-Reraised absorbing) loop f h hf

  pub raise_after-Settled :
      {A X : Type 0} (loop : Exec (Error F) W (Option (X × Bool))) (e : Error F)
      → Does cell (Released R Q) loop
      → Does cell (Settled R Q {A = A}) (loop >>= raise_after e)
  raise_after-Settled loop e h = loop-Settled loop (raise_after e) h (raise_after-Reraised e)
