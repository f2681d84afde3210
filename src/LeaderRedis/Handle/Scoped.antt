-- ===== src/LeaderRedis/Handle/Scoped.antt =====
-- How a `with` block of a handle, and its release, leave the handle.
use bluetape_py.Common.{◌≤◌, ◌<◌, ◌≡◌, refl, sym, ap, Bool, true, false, not, if◌then◌else◌, arith}
use bluetape_py.Common.Exec.{Result, ok, raise, Exec, pure, ◌>>=◌, Cell}
use bluetape_py.Common.Does.{Does}
use bluetape_py.LeaderRedis.Errors.{PyError, backend_error, is_leader_error}
use bluetape_py.LeaderRedis.Handle.{
  Handle, State, acquired, entered, lost, released, unknown, Block, block, fail_unknown,
}
use bluetape_py.LeaderRedis.Handle.Ends.{
  rank, Advances, Advances-IsRely, Ends, Good, Raises, Ends-bind, Ends-anyhow, Ends-block,
  open_block-Good,
}
use bluetape_py.LeaderRedis.Handle.Worker.{
  Threads, give_up, set_worker, set_stop, get_worker, join_worker, stop_worker,
}

rank_le : (s : State) → rank s ≤ 3
rank_le acquired = omega arith
rank_le entered = omega arith
rank_le lost = omega arith
rank_le released = omega arith
rank_le unknown = omega arith

pub climbs : (h k : Handle) → rank h.state < rank k.state → Advances h k
climbs h k up = record {
  onward = omega arith;
  settled = λ e. absurd (omega arith);
  kept =
      λ e. let top : rank h.state ≡ 3 = ap rank e in absurd (omega (arith, top, rank_le k.state));
}

pub same_state : (h k : Handle) → k.state ≡ h.state → k.failure ≡ h.failure → Advances h k
same_state h k e f =
    let same = ap rank e in
    record { onward = omega (arith, same); settled = λ x. sym e; kept = λ x. f }

-- nothing is said of what is returned
abbrev pub Ended : {A : Type 0} → Result PyError A → Handle → Type 0
Ended (ok a) u = Unit
Ended (raise e) u = Raises e u

-- no LeaderError is raised
abbrev pub Quiet : {A : Type 0} → Result PyError A → Handle → Type 0
Quiet (ok a) u = Unit
Quiet (raise e) u = is_leader_error e ≡ false

pub Quiet-Raises : (e : PyError) (u : Handle) → is_leader_error e ≡ false → Raises e u
Quiet-Raises e u h k = absurd (cc (h, k))

give_up-Good : (h : Handle) → Good Ended give_up h
give_up-Good h =
    open_block-Good Ended (fail_unknown backend_error) (fail_unknown backend_error) h
      (λ e. (climbs h _ (omega arith), λ k. omega arith))
      (λ low. (climbs h _ (omega arith), λ k. omega arith))
      (λ e u k. let top = ap rank u in omega (arith, top))

-- a block that changes neither state nor failure, and raises nothing
pub plain-Good :
    {A : Type 0} (f : Block A) (h : Handle)
    → (f h).1.state ≡ h.state
    → (f h).1.failure ≡ h.failure
    → ((e : PyError) → (f h).0 ≡ raise e → ⊥)
    → Good Ended f h
plain-Good f h e x n = (same_state h _ e x, ended (f h).0 n)
  where
    ended :
        {A : Type 0} (r : Result PyError A) → ((e : PyError) → r ≡ raise e → ⊥) → Ended r (f h).1
    ended (ok a) n = tt
    ended (raise e) n = absurd (n e refl)

module _ {W : Type 0} (cell : Cell W Handle) (threads : Threads W) where
  -- The functions of `threading` raise no LeaderError, and others change the handle meanwhile as its own
  -- operations may.
  pub record ThreadsBehave : Type 0 where
    pub starts : Does cell (Ends Quiet) threads.start
    pub lives : Does cell (Ends Quiet) threads.is_alive
    pub readies : Does cell (Ends Quiet) threads.wait_ready
    pub joins : Does cell (Ends Quiet) threads.join

  module _ (behave : ThreadsBehave) where
    -- a plain block, then the rest
    pub then_plain :
        {A B : Type 0} (f : Block A) (rest : A → Exec PyError W B)
        → ((h : Handle) → Good Ended f h)
        → ((a : A) → Does cell (Ends Ended) (rest a))
        → Does cell (Ends Ended) (block cell f >>= rest)
    then_plain f rest good h =
        Ends-bind Ended (λ e u p. p) (block cell f) rest (Ends-block f good)
          (λ a. Ends-anyhow (h a))

    -- an action of a thread, then the rest
    pub then_quiet :
        {A B : Type 0} (m : Exec PyError W A) (rest : A → Exec PyError W B)
        → Does cell (Ends Quiet) m
        → ((a : A) → Does cell (Ends Ended) (rest a))
        → Does cell (Ends Ended) (m >>= rest)
    then_quiet m rest hm h = Ends-bind Quiet Quiet-Raises m rest hm (λ a. Ends-anyhow (h a))

    pub then_ended :
        {A B : Type 0} (m : Exec PyError W A) (rest : A → Exec PyError W B)
        → Does cell (Ends Ended) m
        → ((a : A) → Does cell (Ends Ended) (rest a))
        → Does cell (Ends Ended) (m >>= rest)
    then_ended m rest hm h = Ends-bind Ended (λ e u p. p) m rest hm (λ a. Ends-anyhow (h a))

    pub nothing : Does cell (Ends Ended) (pure {E = PyError} (tt {0}))
    nothing = record { at = λ w. (Advances-IsRely.here _, tt) }

    pub by_flag :
        (b : Bool) (m n : Exec PyError W (Unit {0}))
        → Does cell (Ends Ended) m
        → Does cell (Ends Ended) n
        → Does cell (Ends Ended) (if b then m else n)
    by_flag true m n hm hn = hm
    by_flag false m n hm hn = hn

    giving_up : Does cell (Ends Ended) (block cell give_up)
    giving_up = Ends-block give_up give_up-Good

    set_worker-Good : (b : Bool) (h : Handle) → Good Ended (set_worker b) h
    set_worker-Good b h = plain-Good (set_worker b) h refl refl (λ e k. cc k)

    join_worker-Ended : Does cell (Ends Ended) (join_worker cell threads)
    join_worker-Ended = then_quiet threads.join _ behave.joins λ x.
        then_quiet threads.is_alive _ behave.lives λ alive.
          then_ended _ _ (by_flag alive _ _ giving_up nothing)
            λ y. Ends-block (set_worker false) (set_worker-Good false)

    pub stop_worker-Ended : Does cell (Ends Ended) (stop_worker cell threads)
    unfolding stop_worker
    stop_worker-Ended =
        then_plain get_worker _ (λ h. plain-Good get_worker h refl refl (λ e k. cc k))
          λ working. by_flag (not working) _ _ nothing (
            then_plain set_stop _ (λ h. plain-Good set_stop h refl refl (λ e k. cc k))
              λ x. then_quiet threads.wait_ready _ behave.readies λ ready.
                then_ended _ _ (by_flag ready _ _ nothing giving_up) λ y.
                  then_plain get_worker _ (λ h. plain-Good get_worker h refl refl (λ e k. cc k))
                    λ still. by_flag still _ _ join_worker-Ended nothing)
