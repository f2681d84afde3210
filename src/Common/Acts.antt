-- ===== src/Common/Acts.antt =====
-- What an action may do to one object of the world, and the rules to prove it of `do` and `try`.
use bluetape_py.Common.Tests.{if◌then◌else◌}
use mathlib.Core.Path.{◌≡◌, refl}
use mathlib.Core.Logic.{◌⊎◌, inl, inr}
use mathlib.Core.Bool.{Bool, true, false}
use bluetape_py.Common.Exec.{
  Result, ok, raise, Exec, pure, throw, lift, ◌>>=◌, ◌>>◌, try_else, resume, continue, Cell,
}

-- What an action does to the object that `cell` finds lies in `Q`.
pub record Acts {E S W A : Type 0} (cell : Cell W S) (Q : S → S → Type 0) (m : Exec E W A)
    : Type 0 where
  pub at : (w : W) → Q (cell.read w) (cell.read (m w).1)

-- A change that others may make, at any number of places.
pub record IsRely {S : Type 0} (R : S → S → Type 0) : Type 0 where
  pub here : (s : S) → R s s
  pub after : (s t u : S) → R s t → R t u → R s u

-- An action that never returns, and one that can return `a` alone.
pub record Raises {E W A : Type 0} (m : Exec E W A) : Type 0 where
  pub at : (w : W) → (e : E) × ((m w).0 ≡ raise e)

pub record Gives {E W A : Type 0} (a : A) (m : Exec E W A) : Type 0 where
  pub at : (w : W) → ((e : E) × ((m w).0 ≡ raise e)) ⊎ ((m w).0 ≡ ok a)

module _ {E W A B : Type 0} (m : Exec E W B) where
  Raises-continue :
      (r : Result E B) (f : B → Exec E W A)
      → ((b : B) → Raises (f b))
      → (w : W) → (e : E) × ((continue r f w).0 ≡ raise e)
  Raises-continue (ok b) f raises w = (raises b).at w
  Raises-continue (raise e) f raises w = (e, refl)

  pub Raises-then : (n : Exec E W A) → Raises n → Raises (m >> n)
  Raises-then n h = record { at = λ w. Raises-continue (m w).0 (λ _. n) (λ _. h) (m w).1 }

  Gives-continue :
      (a : A) (r : Result E B) (f : B → Exec E W A)
      → ((b : B) → Gives a (f b))
      → (w : W) → ((e : E) × ((continue r f w).0 ≡ raise e)) ⊎ ((continue r f w).0 ≡ ok a)
  Gives-continue a (ok b) f gives w = (gives b).at w
  Gives-continue a (raise e) f gives w = inl (e, refl)

  pub Gives-then : {a : A} (n : Exec E W A) → Gives a n → Gives a (m >> n)
  Gives-then {a} n h = record { at = λ w. Gives-continue a (m w).0 (λ _. n) (λ _. h) (m w).1 }

-- The two shapes of a block that ends after two actions.
module _ {E W A B C : Type 0} (m : Exec E W B) (n : Exec E W C) where
  pub Raises-after : (e : E) → Raises {A = A} (m >> (n >> throw e))
  Raises-after e =
      Raises-then m (n >> throw e) (Raises-then n (throw e) (record { at = λ w. (e, refl) }))

  pub Gives-after : (a : A) → Gives a (m >> (n >> pure a))
  Gives-after a = Gives-then m (n >> pure a) (Gives-then n (pure a) (record { at = λ w. inr refl }))

module _ {E S W : Type 0} {cell : Cell W S} {R : S → S → Type 0} (rely : IsRely R) where
  pub Acts-pure : {A : Type 0} (a : A) → Acts {E = E} cell R (pure a)
  Acts-pure a = record { at = λ w. rely.here (cell.read w) }

  pub Acts-throw : {A : Type 0} (e : E) → Acts {A = A} cell R (throw e)
  Acts-throw e = record { at = λ w. rely.here (cell.read w) }

  pub Acts-lift : {A : Type 0} (r : Result E A) → Acts cell R (lift r)
  Acts-lift r = record { at = λ w. rely.here (cell.read w) }

  Acts-continue :
      {A B : Type 0} {Q : S → S → Type 0}
      → ((s t u : S) → Q s t → R t u → Q s u)
      → (r : Result E A) (f : A → Exec E W B) → ((a : A) → Acts cell R (f a))
      → (s : S) (w : W) → Q s (cell.read w)
      → Q s (cell.read (continue r f w).1)
  Acts-continue trans (ok a) f hf s w q = trans s _ _ q ((hf a).at w)
  Acts-continue trans (raise e) f hf s w q = q

  -- what a block does after its first action is left to the others
  pub Acts-bind :
      {A B : Type 0} {Q : S → S → Type 0}
      → ((s t u : S) → Q s t → R t u → Q s u)
      → (m : Exec E W A) (f : A → Exec E W B) → Acts cell Q m
      → ((a : A) → Acts cell R (f a))
      → Acts cell Q (m >>= f)
  Acts-bind trans m f hm hf = record {
    at = λ w. Acts-continue trans (m w).0 f hf (cell.read w) (m w).1 (hm.at w);
  }

  Acts-resume :
      {A B : Type 0} {P Q T : S → S → Type 0}
      → ((s t u : S) → P s t → Q t u → T s u)
      → (r : Result E A) (h : E → Exec E W B) (f : A → Exec E W B) → ((e : E) → Acts cell Q (h e))
      → ((a : A) → Acts cell Q (f a))
      → (s : S) (w : W) → P s (cell.read w)
      → T s (cell.read (resume r h f w).1)
  Acts-resume trans (ok a) h f hh hf s w q = trans s _ _ q ((hf a).at w)
  Acts-resume trans (raise e) h f hh hf s w q = trans s _ _ q ((hh e).at w)

  -- a `try` whose block does `P`, and whose every way out does `Q`
  pub Acts-try :
      {A B : Type 0} {P Q T : S → S → Type 0}
      → ((s t u : S) → P s t → Q t u → T s u)
      → (m : Exec E W A) (h : E → Exec E W B) (f : A → Exec E W B) → Acts cell P m
      → ((e : E) → Acts cell Q (h e))
      → ((a : A) → Acts cell Q (f a))
      → Acts cell T (try_else m h f)
  Acts-try trans m h f hm hh hf = record {
    at = λ w. Acts-resume trans (m w).0 h f hh hf (cell.read w) (m w).1 (hm.at w);
  }

  pub Acts-if :
      {A : Type 0} {Q : S → S → Type 0} (b : Bool) (m n : Exec E W A)
      → Acts cell Q m
      → Acts cell Q n
      → Acts cell Q (if b then m else n)
  Acts-if true m n hm hn = hm
  Acts-if false m n hm hn = hn

  Acts-resume_raised :
      {A B : Type 0} (r : Result E A) (h : E → Exec E W B) (f : A → Exec E W B)
      → (e : E) × (r ≡ raise e)
      → ((e : E) → Acts cell R (h e))
      → (s : S) (w : W) → R s (cell.read w)
      → R s (cell.read (resume r h f w).1)
  Acts-resume_raised (ok a) h f raised hh s w q = cc raised.1
  Acts-resume_raised (raise e) h f raised hh s w q = rely.after s _ _ q ((hh e).at w)

  Acts-continue_prefix :
      {A B : Type 0} {P Q T : S → S → Type 0}
      → ((s t : S) → P s t → T s t)
      → ((s t u : S) → P s t → Q t u → T s u)
      → (r : Result E A) (f : A → Exec E W B) → ((a : A) → Acts cell Q (f a))
      → (s : S) (w : W) → P s (cell.read w)
      → T s (cell.read (continue r f w).1)
  Acts-continue_prefix stop trans (ok a) f hf s w h = trans s _ _ h ((hf a).at w)
  Acts-continue_prefix stop trans (raise e) f hf s w h = stop s _ h

  -- a first action that does `P`, where to stop after it is allowed
  pub Acts-prefix :
      {A B : Type 0} {P Q T : S → S → Type 0}
      → ((s t : S) → P s t → T s t)
      → ((s t u : S) → P s t → Q t u → T s u)
      → (m : Exec E W A) (f : A → Exec E W B) → Acts cell P m
      → ((a : A) → Acts cell Q (f a))
      → Acts cell T (m >>= f)
  Acts-prefix stop trans m f hm hf = record {
    at = λ w. Acts-continue_prefix stop trans (m w).0 f hf (cell.read w) (m w).1 (hm.at w);
  }

  -- a `try` whose block never gets to its end
  pub Acts-try_raised :
      {A B : Type 0} (m : Exec E W A) (h : E → Exec E W B) (f : A → Exec E W B)
      → Acts cell R m
      → Raises m
      → ((e : E) → Acts cell R (h e))
      → Acts cell R (try_else m h f)
  Acts-try_raised m h f hm raises hh = record {
    at = λ w. Acts-resume_raised (m w).0 h f (raises.at w) hh (cell.read w) (m w).1 (hm.at w);
  }

  Acts-resume-Gives :
      {A B : Type 0} {Q : S → S → Type 0}
      → ((s t u : S) → R s t → Q t u → Q s u)
      → (a : A) (r : Result E A) (h : E → Exec E W B) (f : A → Exec E W B)
      → ((e : E) × (r ≡ raise e)) ⊎ (r ≡ ok a)
      → ((e : E) → Acts cell Q (h e))
      → Acts cell Q (f a)
      → (s : S) (w : W) → R s (cell.read w)
      → Q s (cell.read (resume r h f w).1)
  Acts-resume-Gives trans a (ok x) h f (inl raised) hh hf s w q = cc raised.1
  Acts-resume-Gives trans a (ok x) h f (inr e) hh hf s w q =
      let same : x ≡ a = cc e in rw same (trans s _ _ q (hf.at w))
  Acts-resume-Gives trans a (raise e) h f gives hh hf s w q = trans s _ _ q ((hh e).at w)

  -- a `try` whose `else` gets `a`
  pub Acts-try-Gives :
      {A B : Type 0} {Q : S → S → Type 0}
      → ((s t u : S) → R s t → Q t u → Q s u)
      → (a : A) (m : Exec E W A) (h : E → Exec E W B) (f : A → Exec E W B) → Acts cell R m
      → Gives a m
      → ((e : E) → Acts cell Q (h e))
      → Acts cell Q (f a)
      → Acts cell Q (try_else m h f)
  Acts-try-Gives trans a m h f hm gives hh hf = record {
    at = λ w.
        Acts-resume-Gives trans a (m w).0 h f (gives.at w) hh hf (cell.read w) (m w).1 (hm.at w);
  }
