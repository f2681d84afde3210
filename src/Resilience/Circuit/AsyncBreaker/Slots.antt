-- ===== src/Resilience/Circuit/AsyncBreaker/Slots.antt =====
-- The slots of an async breaker are safe under any use of its `call`.
use bluetape_py.Common.{ℕ, subst, Option, none, some, List, ◌∷◌, ◌≢◌, refl}
use bluetape_py.Common.Exec.{Result, ok, raise, Cell}
use bluetape_py.Common.Acts.{Acts}
use bluetape_py.Resilience.Core.{Runtime, Error}
use bluetape_py.Resilience.Operation.{Operation}
use bluetape_py.Resilience.Circuit.{Admission, CircuitData, admit}
use bluetape_py.Resilience.Circuit.Slots.{IsConsistent, with_admitted, admit-IsConsistent}
use bluetape_py.Resilience.Circuit.Breaker.{CircuitBreaker}
use bluetape_py.Resilience.Circuit.Breaker.Safety.{KeepsSlots, KeepsSlots-IsRely, Resolved-drop}
use bluetape_py.Resilience.Circuit.AsyncBreaker.{Tasks, call}
use bluetape_py.Resilience.Releasing.{Settled}
use bluetape_py.Resilience.Circuit.Breaker.Protocol.{Resolved}
use bluetape_py.Resilience.Circuit.AsyncBreaker.Course.{
  Course, stopped, refused, admitted, BehavesAsync, call-Course,
}

module _ {F : Type 0} ⦃py : Runtime F⦄ {A : Type 0} where
  Settled-drop :
      (a : Admission) (r : Result (Error F) (Option A)) (s t : CircuitData F)
      (calls : List Admission)
      → r ≢ ok none
      → Settled KeepsSlots (Resolved KeepsSlots a) r s t
      → IsConsistent s (a ∷ calls)
      → IsConsistent t calls
  Settled-drop a (ok none) s t calls n k h = absurd (n refl)
  Settled-drop a (ok (some x)) s t calls n k h = Resolved-drop a s t calls k h
  Settled-drop a (raise e) s t calls n k h = Resolved-drop a s t calls k h

  Course-KeepsSlots :
      (r : Result (Error F) (Option A)) (s t : CircuitData F)
      → r ≢ ok none
      → Course KeepsSlots r s t
      → KeepsSlots s t
  Course-KeepsSlots r s t n (stopped keeps) calls h = keeps calls h
  Course-KeepsSlots r s t n (refused m now before e after) calls h = after calls (
      subst (λ o. IsConsistent (admit now m).1 (with_admitted o calls)) e
        (admit-IsConsistent now m calls (before calls h)))
  Course-KeepsSlots r s t n (admitted m now a before e after) calls h =
      Settled-drop a r (admit now m).1 t calls n after (
        subst (λ o. IsConsistent (admit now m).1 (with_admitted o calls)) e
          (admit-IsConsistent now m calls (before calls h)))

  -- If the callbacks, the operation and the waits keep a breaker consistent with the calls in
  -- flight, and the wait for the lock raises nothing but `CancelledError`, then an async call that
  -- has returned or raised has given back its slot: the counter is again the number of the slots
  -- that the other calls own.
  pub async_call-KeepsSlots :
      {W : Type 0} (cell : Cell W (CircuitData F)) (cb : CircuitBreaker F W) (tasks : Tasks F W)
      (bound : Cell W (Option ℕ)) (operation : Operation F W A) (fuel : ℕ)
      → BehavesAsync KeepsSlots-IsRely cell cb tasks bound
      → Acts cell KeepsSlots operation.run
      → (w : W) → (call cell cb tasks bound fuel operation w).0 ≢ ok none
      → KeepsSlots (cell.read w) (cell.read (call cell cb tasks bound fuel operation w).1)
  async_call-KeepsSlots cell cb tasks bound operation fuel behaves runs w n =
      Course-KeepsSlots _ _ _ n
        ((call-Course KeepsSlots-IsRely cell cb tasks bound behaves operation runs fuel).at w)
