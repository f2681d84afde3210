-- ===== src/LeaderRedis/Handle/Ends.antt =====
-- What the actions on a handle do to its state, and the rules to prove it.
use bluetape_py.Common.{ℕ, ◌≤◌, ◌≡◌, ◌∙◌, refl, sym, true, arith}
use bluetape_py.Common.Exec.{Result, ok, raise, Exec, pure, throw, ◌>>=◌, try_else, Cell}
use bluetape_py.Common.Acts.{IsRely}
use bluetape_py.Common.Does.{Does, Does-bind-Does, Does-try-Does}
use bluetape_py.LeaderRedis.Errors.{PyError, is_leader_error}
use bluetape_py.LeaderRedis.Handle.{
  Handle, State, acquired, entered, lost, released, unknown, Block, open_block, open_state, block,
}

-- ACQUIRED before ENTERED before LOST and RELEASED before UNKNOWN
abbrev pub rank : State → ℕ
rank acquired = 0
rank entered = 1
rank lost = 2
rank released = 2
rank unknown = 3

-- A handle never goes back, a lost lease is never taken for a released one nor the reverse, and an unknown
-- handle keeps its failure.
pub record Advances (h k : Handle) : Type 0 where
  pub onward : rank h.state ≤ rank k.state
  pub settled : rank h.state ≡ rank k.state → h.state ≡ k.state
  pub kept : h.state ≡ unknown → k.failure ≡ h.failure

pub Advances-IsRely : IsRely Advances
Advances-IsRely = record {
  here = λ s. record { onward = omega arith; settled = λ e. refl; kept = λ e. refl };
  after = λ s t u p q.
      let a = p.onward in
      let b = q.onward in
      record {
        onward = omega arith;
        settled = λ e. p.settled (omega arith) ∙ q.settled (omega arith);
        kept = λ e.
            let top : rank s.state ≡ 3 = ap_rank e in
            let same : s.state ≡ t.state = p.settled (unknown_rank t.state (omega arith) top) in
            q.kept (sym same ∙ e) ∙ p.kept e;
      };
}
  where
    ap_rank : {s : State} → s ≡ unknown → rank s ≡ 3
    ap_rank e = rw e refl

    unknown_rank : {n : ℕ} (t : State) → n ≤ rank t → n ≡ 3 → n ≡ rank t
    unknown_rank acquired h e = absurd (omega arith)
    unknown_rank entered h e = absurd (omega arith)
    unknown_rank lost h e = absurd (omega arith)
    unknown_rank released h e = absurd (omega arith)
    unknown_rank unknown h e = e

-- What an action does to the handle, `F` being what holds of its result and of the handle at its end.
abbrev pub Ends :
    {A : Type 0}
    → (Result PyError A → Handle → Type 0)
    → Result PyError A
    → Handle
    → Handle
    → Type 0
Ends F r s u = Advances s u × F r u

abbrev pub Any : {A : Type 0} → Result PyError A → Handle → Type 0
Any r u = Unit

-- a block, by what it does to each handle
abbrev pub Good : {A : Type 0} → (Result PyError A → Handle → Type 0) → Block A → Handle → Type 0
Good F f h = Advances h (f h).1 × F (f h).0 (f h).1

-- A LeaderError is raised of a handle that is lost, released or unknown.
abbrev pub IsSettled : State → Type 0
IsSettled s = 2 ≤ rank s

abbrev pub Raises : PyError → Handle → Type 0
Raises e u = is_leader_error e ≡ true → IsSettled u.state

module _ {W A B : Type 0} {cell : Cell W Handle} (G : Result PyError A → Handle → Type 0)
    {F : Result PyError B → Handle → Type 0} where
  pub Ends-bind :
      ((e : PyError) (u : Handle) → G (raise e) u → F (raise e) u)
      → (m : Exec PyError W A) (f : A → Exec PyError W B) → Does cell (Ends G) m
      → ((a : A) → Does cell (λ r s u. G (ok a) s → Ends F r s u) (f a))
      → Does cell (Ends F) (m >>= f)
  Ends-bind stop m f hm hf =
      Does-bind-Does (Ends G) (λ a r s u. G (ok a) s → Ends F r s u) (Ends F)
        (λ e s t p. (p.0, stop e t p.1))
        (λ a r s t u p q. let d = q p.1 in (Advances-IsRely.after s t u p.0 d.0, d.1)) m f hm hf

  pub Ends-try :
      (m : Exec PyError W A) (h : PyError → Exec PyError W B) (f : A → Exec PyError W B)
      → Does cell (Ends G) m
      → ((e : PyError) → Does cell (λ r s u. G (raise e) s → Ends F r s u) (h e))
      → ((a : A) → Does cell (λ r s u. G (ok a) s → Ends F r s u) (f a))
      → Does cell (Ends F) (try_else m h f)
  Ends-try m h f hm hh hf =
      Does-try-Does (Ends G) (λ a r s u. G (ok a) s → Ends F r s u) (Ends F)
        (λ e r s u. G (raise e) s → Ends F r s u)
        (λ e r s t u p q. let d = q p.1 in (Advances-IsRely.after s t u p.0 d.0, d.1))
        (λ a r s t u p q. let d = q p.1 in (Advances-IsRely.after s t u p.0 d.0, d.1)) m h f hm hh
        hf

module _ {W A : Type 0} {cell : Cell W Handle} {F : Result PyError A → Handle → Type 0} where
  -- what needs nothing of what came before
  pub Ends-anyhow :
      {P : Handle → Type 0} {m : Exec PyError W A}
      → Does cell (Ends F) m
      → Does cell (λ r s u. P s → Ends F r s u) m
  Ends-anyhow h = record { at = λ w p. h.at w }

  pub Ends-pure : (a : A) → Does cell (λ r s u. F (ok a) s → Ends F r s u) (pure a)
  Ends-pure a = record { at = λ w p. (Advances-IsRely.here (cell.read w), p) }

  pub Ends-throw : (e : PyError) → Does cell (λ r s u. F (raise e) s → Ends F r s u) (throw e)
  Ends-throw e = record { at = λ w p. (Advances-IsRely.here (cell.read w), p) }

  pub Ends-block : (f : Block A) → ((h : Handle) → Good F f h) → Does cell (Ends F) (block cell f)
  Ends-block f good = record {
    at = λ w. rw (cell.read-write (f (cell.read w)).1 w) (good (cell.read w));
  }

module _ {A : Type 0} (F : Result PyError A → Handle → Type 0) (over live : Block A)
    (h : Handle) where
  -- by what has become of the handle
  pub open_block-Good :
      (rank h.state ≡ 2 → Good F over h)
      → (rank h.state ≤ 1 → Good F live h)
      → ((e : PyError) → h.state ≡ unknown → F (raise e) h)
      → Good F (open_block over live) h
  unfolding open_block
  open_block-Good ho hl hu = by_state h.state ho hl hu
    where
      by_state :
          (s : State)
          → (rank s ≡ 2 → Good F over h)
          → (rank s ≤ 1 → Good F live h)
          → ((e : PyError) → s ≡ unknown → F (raise e) h)
          → Good F (open_state s over live) h
      by_state acquired ho hl hu = hl (omega arith)
      by_state entered ho hl hu = hl (omega arith)
      by_state lost ho hl hu = ho refl
      by_state released ho hl hu = ho refl
      by_state unknown ho hl hu = (Advances-IsRely.here h, hu _ refl)
