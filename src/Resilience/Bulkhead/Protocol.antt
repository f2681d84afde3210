-- ===== src/Resilience/Bulkhead/Protocol.antt =====
-- One call of a bulkhead enters at most once, only when there is room, and leaves once for it,
-- whatever is raised and whatever other threads do to the counters meanwhile.
use bluetape_py.Common.{ℕ, zero, suc, ◌≡◌, inl, inr, false, none, some, Bool-cases}
use bluetape_py.Common.Int.{ℤ}
use bluetape_py.Common.Exec.{Result, ok, raise, Exec, ◌>>=◌, ◌>>◌, Cell}
use bluetape_py.Common.Acts.{
  Acts, IsRely, Acts-pure, Acts-throw, Acts-lift, Acts-bind, Acts-try, Acts-if, Acts-prefix,
}
use bluetape_py.Common.Does.{Does, Does-try, Does-prefix, Does-bind-Acts}
use bluetape_py.Resilience.Core.{
  Runtime, Error, PolicyEvent, BulkheadSnapshot, bulkhead_rejected_error, emit,
}
use bluetape_py.Resilience.Operation.{
  Returned, Operation, ensure_sync_operation, ensure_sync_result,
}
use bluetape_py.Resilience.Bulkhead.{
  Bulkhead, Counters, Waiting, Acquired, is_full, enter, leave, take_snapshot, release, queue,
  try_enter, enter_from_queue, unqueue_and_raise, wait_or_expire, after_look, wait_loop,
  acquire_from, acquire, release_and_raise, on_error, on_result, rejected_event, run_acquired, call,
}

-- `R` says nothing of the number of waiters.
abbrev pub IgnoresWaiters : (Counters → Counters → Type 0) → Type 0
IgnoresWaiters R = (d : Counters) (n : ℤ) → R d (record d { waiters = n })

module _ {F W : Type 0} ⦃py : Runtime F⦄ (b : Bulkhead F W) (R : Counters → Counters → Type 0) where
  pub data Held (s u : Counters) : Type 0 where
    leaves : (t : Counters) → R s t → R (leave t) u → Held s u

  pub data Visit (s u : Counters) : Type 0 where
    -- it never entered
    idle : R s u → Visit s u
    -- it entered at `t`, where there was room, and left once
    visited : (t : Counters) → R s t → is_full b t ≡ false → Held (enter t) u → Visit s u

  -- the data when `_acquire` is done
  pub data Entered (s u : Counters) : Type 0 where
    enters : (t : Counters) → R s t → is_full b t ≡ false → R (enter t) u → Entered s u

  abbrev pub Got : Result (Error F) Acquired → Counters → Counters → Type 0
  Got (ok (Acquired.entered snap)) s u = Entered s u
  Got (ok Acquired.full) s u = R s u
  Got (ok Acquired.waiting) s u = R s u
  Got (raise e) s u = R s u

module _ {F W : Type 0} ⦃py : Runtime F⦄ {R : Counters → Counters → Type 0} (rely : IsRely R)
    (cell : Cell W Counters) (b : Bulkhead F W) where
  pub then-Got :
      (r : Result (Error F) Acquired) (s t u : Counters) → R s t → Got b R r t u → Got b R r s u
  then-Got (ok (Acquired.entered snap)) s t u h (enters m before room after) =
      enters m (rely.after s t m h before) room after
  then-Got (ok Acquired.full) s t u h k = rely.after s t u h k
  then-Got (ok Acquired.waiting) s t u h k = rely.after s t u h k
  then-Got (raise e) s t u h k = rely.after s t u h k

  pub written : (d : Counters) (w : W) (s : Counters) → R s d → R s (cell.read (cell.write d w))
  written d w s h = rw (cell.read-write d w) h

  -- a look that finds no room leaves the data, and the others do the rest
  pub from_here :
      (m : Exec (Error F) W Acquired)
      → Does cell (Got b R) m
      → (w : W)
      → Got b R
          (m (cell.write (cell.read w) w)).0
          (cell.read w)
          (cell.read (m (cell.write (cell.read w) w)).1)
  from_here m h w = rw (cell.read-write (cell.read w) w) at (h.at (cell.write (cell.read w) w))

  pub Held-then : (s t u : Counters) → Held b R s t → R t u → Held b R s u
  Held-then s t u (leaves m before after) h = leaves m before (rely.after _ t u after h)

  pub then-Held : (s t u : Counters) → R s t → Held b R t u → Held b R s u
  then-Held s t u h (leaves m before after) = leaves m (rely.after s t m h before) after

module _ {F W : Type 0} ⦃py : Runtime F⦄ {R : Counters → Counters → Type 0} (rely : IsRely R)
    (quiet : IgnoresWaiters R) (cell : Cell W Counters) (b : Bulkhead F W)
    (waiting : Waiting F W) where
  -- The callbacks of a bulkhead, and the others while it waits, change the counters only as `R` allows.
  pub record Behaves : Type 0 where
    pub observer : (event : PolicyEvent F) → Acts cell R (emit b.observer event)
    pub monotonic : Acts cell R waiting.monotonic
    pub wait : (remaining : F) → Acts cell R (waiting.wait remaining)

  unqueue_and_raise-Got : (e : Error F) → Does cell (Got b R) (unqueue_and_raise cell b e)
  unqueue_and_raise-Got e = record { at = λ w. (written rely cell b) _ w _ (quiet _ _) }

  module _ (behaves : Behaves) where
    wait_or_expire-Got :
        (remaining : F) (again : Exec (Error F) W Acquired)
        → Does cell (Got b R) again
        → Does cell (Got b R) (wait_or_expire cell b waiting remaining again)
    wait_or_expire-Got remaining again h = elim (Bool-cases (py.le remaining py.zero)) [
      | inl e ↦ rw e (record { at = λ w. (written rely cell b) _ w _ (quiet _ _) })
      | inr e ↦ rw e (
          Does-try (then-Got rely cell b) (waiting.wait remaining) _ _ (behaves.wait remaining)
            unqueue_and_raise-Got (λ _. h))
    ]

    after_look-Got :
        (deadline : F) (again : Exec (Error F) W Acquired)
        → Does cell (Got b R) again
        → Does cell (Got b R) (after_look cell b waiting deadline none again)
    after_look-Got deadline again h =
        Does-try (then-Got rely cell b) waiting.monotonic _ _ behaves.monotonic
          unqueue_and_raise-Got λ now. wait_or_expire-Got (py.sub deadline now) again h

    wait_loop-Got :
        (fuel : ℕ) (deadline : F) → Does cell (Got b R) (wait_loop cell b waiting fuel deadline)
    unfolding wait_loop enter_from_queue
    wait_loop-Got zero deadline = record { at = λ w. rely.here (cell.read w) }
    wait_loop-Got (suc fuel) deadline = record {
      at = λ w. elim (Bool-cases (is_full b (cell.read w))) [
        | inl e ↦
            rw e (
              (from_here rely cell b) _ (after_look-Got deadline _ (wait_loop-Got fuel deadline)) w)
        | inr e ↦ rw e (enters _ (quiet _ _) e ((written rely cell b) _ w _ (rely.here _)))
      ];
    }

    acquire_from-Got : (fuel : ℕ) → Does cell (Got b R) (acquire_from cell b waiting fuel none)
    acquire_from-Got fuel = elim (Bool-cases (py.eqb b.max_wait py.zero)) [
      | inl e ↦ rw e (record { at = λ w. rely.here (cell.read w) })
      | inr e ↦ rw e (
          Does-prefix (then-Got rely cell b) waiting.monotonic _ behaves.monotonic (λ e s t h. h)
            λ now.
              Does-prefix (then-Got rely cell b) (queue cell b) _
                (record { at = λ w. (written rely cell b) _ w _ (quiet _ _) }) (λ e s t h. h)
                λ _. wait_loop-Got fuel (py.add now b.max_wait))
    ]

    acquire-Got : (fuel : ℕ) → Does cell (Got b R) (acquire cell b waiting fuel)
    unfolding acquire try_enter
    acquire-Got fuel = record {
      at = λ w. elim (Bool-cases (is_full b (cell.read w))) [
        | inl e ↦ rw e ((from_here rely cell b) _ (acquire_from-Got fuel) w)
        | inr e ↦
            rw e (enters (cell.read w) (rely.here _) e ((written rely cell b) _ w _ (rely.here _)))
      ];
    }

    release-Held : Acts cell (Held b R) (release cell b)
    unfolding release
    release-Held = record {
      at = λ w. leaves (cell.read w) (rely.here _) ((written rely cell b) _ w _ (rely.here _));
    }

    release_and_raise-Held :
        {A : Type 0} (e : Error F)
        → Acts cell (Held b R) (release_and_raise cell b waiting {A = A} e)
    release_and_raise-Held e =
        Acts-bind rely (Held-then rely cell b) (release cell b) _ release-Held
          (λ _. Acts-throw rely e)

    -- after a release, an event and an end of the call
    finish-Held :
        {A : Type 0} (event : BulkheadSnapshot → PolicyEvent F) (end : Exec (Error F) W A)
        → Acts cell R end
        → Acts cell (Held b R) (do released ← release cell b; emit b.observer (event released); end)
    finish-Held event end h =
        Acts-bind rely (Held-then rely cell b) (release cell b) _ release-Held
          λ released. Acts-bind rely rely.after _ _ (behaves.observer (event released)) λ _. h

    on_error-Held :
        {A : Type 0} (e : Error F) → Acts cell (Held b R) (on_error cell b waiting {A = A} e)
    unfolding on_error
    on_error-Held e =
        Acts-if rely _ _ _ (release_and_raise-Held e) (finish-Held _ _ (Acts-throw rely e))

    on_result-Held : {A : Type 0} (x : A) → Acts cell (Held b R) (on_result cell b waiting x)
    unfolding on_result
    on_result-Held x = finish-Held _ _ (Acts-pure rely (some x))

    module _ {A : Type 0} (operation : Operation F W (Returned F W A))
        (runs : Acts cell R (operation.run >>= ensure_sync_result)) where
      abbrev Rest : Acquired → Counters → Counters → Type 0
      Rest (Acquired.entered snap) = Held b R
      Rest Acquired.full = R
      Rest Acquired.waiting = R

      run_acquired-Rest :
          (a : Acquired) → Acts cell (Rest a) (run_acquired cell b waiting operation.run a)
      unfolding run_acquired take_snapshot
      run_acquired-Rest Acquired.waiting = Acts-pure rely none
      run_acquired-Rest Acquired.full =
          Acts-bind rely rely.after (take_snapshot cell b) _
            (record { at = λ w. (written rely cell b) _ w _ (rely.here _) })
            λ rejected.
              Acts-bind rely rely.after _ _ (behaves.observer (rejected_event b rejected))
                λ _. Acts-throw rely (bulkhead_rejected_error b.name)
      run_acquired-Rest (Acquired.entered snap) =
          Acts-try rely (then-Held rely cell b) _ _ _ (behaves.observer _) release_and_raise-Held
            λ _.
              Acts-try rely (then-Held rely cell b) (operation.run >>= ensure_sync_result) _ _ runs
                on_error-Held on_result-Held

      Visit-Got :
          (a : Acquired) (s t u : Counters) → Got b R (ok a) s t → Rest a t u → Visit b R s u
      Visit-Got (Acquired.entered snap) s t u (enters m before room after) held =
          visited m before room ((then-Held rely cell b) _ t u after held)
      Visit-Got Acquired.full s t u h k = idle (rely.after s t u h k)
      Visit-Got Acquired.waiting s t u h k = idle (rely.after s t u h k)

      then-Visit : (s t u : Counters) → R s t → Visit b R t u → Visit b R s u
      then-Visit s t u h (idle k) = idle (rely.after s t u h k)
      then-Visit s t u h (visited m before room held) =
          visited m (rely.after s t m h before) room held

      -- Let the callbacks, the operation and the others change the counters only as the reflexive
      -- and transitive `R` allows, which says nothing of the waiters. Then a call, whatever is
      -- raised in it and however long it waits, changes them as `R` allows, and either never enters,
      -- or enters once, where there is room, and leaves once.
      pub call-Visit : (fuel : ℕ) → Acts cell (Visit b R) (call cell b waiting fuel operation)
      unfolding call
      call-Visit fuel =
          Acts-prefix rely (λ s t h. idle h) then-Visit _ _
            (Acts-lift rely (ensure_sync_operation operation))
            λ _.
              Does-bind-Acts (Got b R) (λ e s t h. idle h) Visit-Got (acquire cell b waiting fuel) _
                (acquire-Got fuel) run_acquired-Rest
