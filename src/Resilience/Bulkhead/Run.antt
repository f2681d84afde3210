-- ===== src/Resilience/Bulkhead/Run.antt =====
-- Calls that share a bulkhead: every interleaving of the blocks that they run under its lock. An async
-- bulkhead runs the same blocks.
use bluetape_py.Common.{
  ℕ, zero, suc, ◌≤◌, ◌≡◌, ◌↔◌, refl, sym, subst, ap, ◌∙◌, Option, none, some, List, [], ◌∷◌, ◌++◌,
  arith, inl, inr, Bool-cases, true, false,
}
use bluetape_py.Common.Int.{pos}
use bluetape_py.Common.Exec.{Result, ok, raise, whole}
use bluetape_py.Resilience.Core.{Runtime, Error, BulkheadSnapshot}
use bluetape_py.Resilience.Bulkhead.{
  Bulkhead, Counters, is_full, try_enter, enter_from_queue, queue, unqueue, release,
}

-- Where a call is: not in the bulkhead, in its queue, or inside.
pub data Place : Type 0 where
  away queued inside : Place

-- one more, for a call that is inside
abbrev add_inside : Place → ℕ → ℕ
add_inside away n = n
add_inside queued n = n
add_inside inside n = suc n

abbrev add_queued : Place → ℕ → ℕ
add_queued away n = n
add_queued queued n = suc n
add_queued inside n = n

-- the number of calls inside, and of calls in the queue
unfoldable pub insiders : List Place → ℕ
insiders [] = 0
insiders (p ∷ ps) = add_inside p (insiders ps)

unfoldable pub in_queue : List Place → ℕ
in_queue [] = 0
in_queue (p ∷ ps) = add_queued p (in_queue ps)

abbrev pub new_counters : Counters
new_counters = record { in_flight = pos 0; waiters = pos 0 }

-- so many calls, none of which has begun
unfoldable pub all_away : ℕ → List Place
all_away zero = []
all_away (suc n) = away ∷ all_away n

add_inside_comm :
    (p q : Place) (n : ℕ) → add_inside p (add_inside q n) ≡ add_inside q (add_inside p n)
add_inside_comm away away n = refl
add_inside_comm away queued n = refl
add_inside_comm away inside n = refl
add_inside_comm queued away n = refl
add_inside_comm queued queued n = refl
add_inside_comm queued inside n = refl
add_inside_comm inside away n = refl
add_inside_comm inside queued n = refl
add_inside_comm inside inside n = refl

insiders-split :
    (xs : List Place) (p : Place) (ys : List Place)
    → insiders (xs ++ p ∷ ys) ≡ add_inside p (insiders (xs ++ ys))
unfolding insiders
insiders-split [] p ys = refl
insiders-split (x ∷ xs) p ys =
    ap (add_inside x) (insiders-split xs p ys) ∙ add_inside_comm x p (insiders (xs ++ ys))

add_queued_comm :
    (p q : Place) (n : ℕ) → add_queued p (add_queued q n) ≡ add_queued q (add_queued p n)
add_queued_comm away away n = refl
add_queued_comm away queued n = refl
add_queued_comm away inside n = refl
add_queued_comm queued away n = refl
add_queued_comm queued queued n = refl
add_queued_comm queued inside n = refl
add_queued_comm inside away n = refl
add_queued_comm inside queued n = refl
add_queued_comm inside inside n = refl

in_queue-split :
    (xs : List Place) (p : Place) (ys : List Place)
    → in_queue (xs ++ p ∷ ys) ≡ add_queued p (in_queue (xs ++ ys))
unfolding in_queue
in_queue-split [] p ys = refl
in_queue-split (x ∷ xs) p ys =
    ap (add_queued x) (in_queue-split xs p ys) ∙ add_queued_comm x p (in_queue (xs ++ ys))

insiders-all_away : (n : ℕ) → insiders (all_away n) ≡ 0
unfolding insiders all_away
insiders-all_away zero = refl
insiders-all_away (suc n) = insiders-all_away n

in_queue-all_away : (n : ℕ) → in_queue (all_away n) ≡ 0
unfolding in_queue all_away
in_queue-all_away zero = refl
in_queue-all_away (suc n) = in_queue-all_away n

module _ {F : Type 0} where
  -- a look at the counter that finds room lets the call in
  abbrev pub after_look : Place → Result (Error F) (Option BulkheadSnapshot) → Place
  after_look p (ok none) = p
  after_look p (ok (some snap)) = inside
  after_look p (raise e) = p

module _ {F : Type 0} ⦃py : Runtime F⦄ (b : Bulkhead F Counters) where
  -- The next block of one call, by where the call is.
  pub data Step (d : Counters) : Place → Counters → Place → Type 0 where
    arrives : Step d away (try_enter whole b d).1 (after_look away (try_enter whole b d).0)
    queues : Step d away (queue whole b d).1 queued
    looks :
        Step d queued
          (enter_from_queue whole b d).1
          (after_look queued (enter_from_queue whole b d).0)
    gives_up : Step d queued (unqueue whole b d).1 away
    leaves : Step d inside (release whole b d).1 away

  -- Any calls take any steps, in any order.
  pub data Steps (d : Counters) (calls : List Place) : Counters → List Place → Type 0 where
    here : Steps d calls d calls
    next :
        {e f : Counters} {p q : Place} (xs ys : List Place)
        → Steps d calls e (xs ++ p ∷ ys)
        → Step e p f q
        → Steps d calls f (xs ++ q ∷ ys)

  record IsCounted (n m : ℕ) (d : Counters) : Type 0 where
    in_flight : d.in_flight ≡ pos n
    within : n ≤ b.max_concurrency
    waiters : d.waiters ≡ pos m

  full_at : (n m : ℕ) (d : Counters) → IsCounted n m d → is_full b d ≡ true → n ≡ b.max_concurrency
  full_at n m d h full = ground (arith, h.in_flight, h.within)

  room_at :
      (n m : ℕ) (d : Counters) → IsCounted n m d → is_full b d ≡ false → suc n ≤ b.max_concurrency
  room_at n m d h room = ground (arith, h.in_flight)

  Step-IsCounted :
      {d e : Counters} {p q : Place} (n m : ℕ)
      → Step d p e q
      → IsCounted (add_inside p n) (add_queued p m) d
      → IsCounted (add_inside q n) (add_queued q m) e
  unfolding try_enter enter_from_queue release
  Step-IsCounted {d} n m arrives h = elim (Bool-cases (is_full b d)) [
    | inl full ↦ rw full h
    | inr room ↦ rw room (record {
      in_flight = ground (arith, h.in_flight);
      within = room_at n m d h room;
      waiters = h.waiters;
    })
  ]
  Step-IsCounted {d} n m queues h = record {
    in_flight = h.in_flight;
    within = h.within;
    waiters = ground (arith, h.waiters);
  }
  Step-IsCounted {d} n m looks h = elim (Bool-cases (is_full b d)) [
    | inl full ↦ rw full h
    | inr room ↦ rw room (record {
      in_flight = ground (arith, h.in_flight);
      within = room_at n (suc m) d h room;
      waiters = ground (arith, h.waiters);
    })
  ]
  Step-IsCounted {d} n m gives_up h = record {
    in_flight = h.in_flight;
    within = h.within;
    waiters = ground (arith, h.waiters);
  }
  Step-IsCounted {d} n m leaves h = record {
    in_flight = ground (arith, h.in_flight);
    within = let w = h.within in omega arith;
    waiters = h.waiters;
  }

  -- the calls and the counters agree
  Agree : Counters → List Place → Type 0
  Agree d calls = IsCounted (insiders calls) (in_queue calls) d

  Agree-split :
      (d : Counters) (xs : List Place) (p : Place) (ys : List Place)
      → Agree d (xs ++ p ∷ ys)
        ≡ IsCounted (add_inside p (insiders (xs ++ ys))) (add_queued p (in_queue (xs ++ ys))) d
  unfolding Agree
  Agree-split d xs p ys = rw (insiders-split xs p ys, in_queue-split xs p ys) refl

  Steps-Agree :
      {d : Counters} {cs : List Place} {e : Counters} {ds : List Place}
      → Steps d cs e ds
      → Agree d cs
      → Agree e ds
  Steps-Agree here h = h
  Steps-Agree (next {e} {f} {p} {q} xs ys steps step) h =
      subst (λ X. X) (sym (Agree-split f xs q ys))
        (Step-IsCounted (insiders (xs ++ ys)) (in_queue (xs ++ ys)) step
          (subst (λ X. X) (Agree-split e xs p ys) (Steps-Agree steps h)))

  new-Agree : (n : ℕ) → Agree new_counters (all_away n)
  unfolding Agree
  new-Agree n =
      rw (insiders-all_away n, in_queue-all_away n)
        (record { in_flight = refl; within = omega arith; waiters = refl })

  refuses-eq :
      (n m : ℕ) (d : Counters)
      → IsCounted n m d
      → (((try_enter whole b d).0 ≡ ok none) ↔ (n ≡ b.max_concurrency))
        × (((enter_from_queue whole b d).0 ≡ ok none) ↔ (n ≡ b.max_concurrency))
  unfolding try_enter enter_from_queue
  refuses-eq n m d h = elim (Bool-cases (is_full b d)) [
    | inl full ↦
        let e = full_at n m d h full in rw full (((λ k. e), (λ k. refl)), ((λ k. e), (λ k. refl)))
    | inr room ↦
        let less = room_at n m d h room in
        rw room (
          ((λ k. absurd (cc k)), (λ k. absurd (omega arith))),
          ((λ k. absurd (cc k)), (λ k. absurd (omega arith))),
        )
  ]

  -- Let any number of calls share a new bulkhead, and run the blocks of its lock in any order, each call
  -- those that are its next ones: it arrives, and enters or is refused; it joins the queue, looks for
  -- room there, or gives up; and inside, it leaves. Then the counter is always the number of the
  -- calls inside, which is at most `max_concurrency`, the waiters are those in the queue, and a look,
  -- on arrival or in the queue, refuses exactly while `max_concurrency` calls are inside.
  pub bulkhead_count :
      (n : ℕ) {d : Counters} {calls : List Place}
      → Steps new_counters (all_away n) d calls
      → (d.in_flight ≡ pos (insiders calls))
        × (insiders calls ≤ b.max_concurrency)
        × (d.waiters ≡ pos (in_queue calls))
        × (((try_enter whole b d).0 ≡ ok none) ↔ (insiders calls ≡ b.max_concurrency))
        × (((enter_from_queue whole b d).0 ≡ ok none) ↔ (insiders calls ≡ b.max_concurrency))
  unfolding Agree
  bulkhead_count n {d} {calls} steps =
      let h = Steps-Agree steps (new-Agree n) in
      let refused = refuses-eq (insiders calls) (in_queue calls) d h in
      (h.in_flight, h.within, h.waiters, refused.0, refused.1)
