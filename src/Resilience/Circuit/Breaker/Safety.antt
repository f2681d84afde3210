-- ===== src/Resilience/Circuit/Breaker/Safety.antt =====
-- The slots of a breaker are safe under any use of its `call`.
use bluetape_py.Common.{subst, List, [], ◌∷◌}
use bluetape_py.Common.Exec.{Cell, ◌>>=◌}
use bluetape_py.Common.Acts.{Acts, IsRely}
use bluetape_py.Resilience.Core.{Runtime}
use bluetape_py.Resilience.Operation.{Returned, Operation, ensure_sync_result}
use bluetape_py.Resilience.Circuit.{Admission, CircuitData, admit}
use bluetape_py.Resilience.Circuit.Slots.{
  IsConsistent, with_admitted, admit-IsConsistent, resolve-IsConsistent,
}
use bluetape_py.Resilience.Circuit.Breaker.{CircuitBreaker, call}
use bluetape_py.Resilience.Circuit.Breaker.Protocol.{
  Behaves, Protocol, stopped, refused, admitted, Resolved, resolves, call-Protocol,
}

-- Whatever calls are in flight, a breaker that is consistent with them stays so.
abbrev pub KeepsSlots : {F : Type 0} → CircuitData F → CircuitData F → Type 0
KeepsSlots s t = (calls : List Admission) → IsConsistent s calls → IsConsistent t calls

pub KeepsSlots-IsRely : {F : Type 0} → IsRely {S = CircuitData F} KeepsSlots
KeepsSlots-IsRely = record {
  here = λ s calls h. h;
  after = λ s t u f g calls h. g calls (f calls h);
}

module _ {F : Type 0} ⦃py : Runtime F⦄ where
  pub Resolved-drop :
      (a : Admission) (s t : CircuitData F) (calls : List Admission)
      → Resolved KeepsSlots a s t
      → IsConsistent s (a ∷ calls)
      → IsConsistent t calls
  Resolved-drop a s t calls (resolves m r before after) h =
      after calls (resolve-IsConsistent r m [] a calls (before (a ∷ calls) h))

  Protocol-KeepsSlots : (s t : CircuitData F) → Protocol KeepsSlots s t → KeepsSlots s t
  Protocol-KeepsSlots s t (stopped keeps) calls h = keeps calls h
  Protocol-KeepsSlots s t (refused m now before e after) calls h = after calls (
      subst (λ o. IsConsistent (admit now m).1 (with_admitted o calls)) e
        (admit-IsConsistent now m calls (before calls h)))
  Protocol-KeepsSlots s t (admitted m now a before e after) calls h =
      Resolved-drop a (admit now m).1 t calls after (
        subst (λ o. IsConsistent (admit now m).1 (with_admitted o calls)) e
          (admit-IsConsistent now m calls (before calls h)))

  -- If the callbacks and the operation keep a breaker consistent with the calls in flight, so does
  -- a call: however it ends, it has given back its slot, and the counter is again the number of
  -- the slots that the other calls own.
  pub call-KeepsSlots :
      {W A : Type 0} (cell : Cell W (CircuitData F)) (cb : CircuitBreaker F W)
      (operation : Operation F W (Returned F W A))
      → Behaves KeepsSlots-IsRely cell cb
      → Acts cell KeepsSlots (operation.run >>= ensure_sync_result)
      → (w : W) → KeepsSlots (cell.read w) (cell.read (call cell cb operation w).1)
  call-KeepsSlots cell cb operation behaves runs w =
      Protocol-KeepsSlots _ _
        ((call-Protocol KeepsSlots-IsRely cell cb behaves operation runs).at w)
