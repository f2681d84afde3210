-- ===== src/Common/Post.antt =====
-- What an action gives: a predicate of its result, in every world.
use bluetape_py.Common.Exec.{Result, ok, raise, Exec, ◌>>=◌, try_else, resume, continue, Cell}
use bluetape_py.Common.Acts.{Acts}

pub record Post {E W A : Type 0} (P : Result E A → Type 0) (m : Exec E W A) : Type 0 where
  pub at : (w : W) → P (m w).0

abbrev pub IsRaised : {E A : Type 0} → Result E A → Type 0
IsRaised (ok a) = ⊥
IsRaised (raise e) = Unit

abbrev pub OnOk : {E A : Type 0} → (A → Type 0) → Result E A → Type 0
OnOk G (ok a) = G a
OnOk G (raise e) = Unit

module _ {E W A B : Type 0} {P : Result E B → Type 0} where
  Post-continue :
      (r : Result E A) (f : A → Exec E W B)
      → ((e : E) → P (raise e))
      → ((a : A) → Post P (f a))
      → (w : W) → P (continue r f w).0
  Post-continue (ok a) f he hf w = (hf a).at w
  Post-continue (raise e) f he hf w = he e

  pub Post-bind :
      (m : Exec E W A) (f : A → Exec E W B)
      → ((e : E) → P (raise e))
      → ((a : A) → Post P (f a))
      → Post P (m >>= f)
  Post-bind m f he hf = record { at = λ w. Post-continue (m w).0 f he hf (m w).1 }

  Post-resume :
      (r : Result E A) (h : E → Exec E W B) (f : A → Exec E W B)
      → ((e : E) → Post P (h e))
      → ((a : A) → Post P (f a))
      → (w : W) → P (resume r h f w).0
  Post-resume (ok a) h f hh hf w = (hf a).at w
  Post-resume (raise e) h f hh hf w = (hh e).at w

  pub Post-try :
      (m : Exec E W A) (h : E → Exec E W B) (f : A → Exec E W B)
      → ((e : E) → Post P (h e))
      → ((a : A) → Post P (f a))
      → Post P (try_else m h f)
  Post-try m h f hh hf = record { at = λ w. Post-resume (m w).0 h f hh hf (m w).1 }

module _ {E W A B : Type 0} where
  Post-continue_raised :
      (P : Result E B → Type 0) (r : Result E A) (f : A → Exec E W B)
      → IsRaised r
      → ((e : E) → P (raise e))
      → (w : W) → P (continue r f w).0
  Post-continue_raised P (ok a) f raised he w = absurd raised
  Post-continue_raised P (raise e) f raised he w = he e

  pub Post-bind_raised :
      {P : Result E B → Type 0} (m : Exec E W A) (f : A → Exec E W B)
      → Post IsRaised m
      → ((e : E) → P (raise e))
      → Post P (m >>= f)
  Post-bind_raised {P} m f raised he = record {
    at = λ w. Post-continue_raised P (m w).0 f (raised.at w) he (m w).1;
  }

module _ {E S W A B : Type 0} {cell : Cell W S} {P Q T : S → S → Type 0} {G : A → Type 0} where
  Acts-resume-Post :
      ((s t u : S) → P s t → Q t u → T s u)
      → (r : Result E A) (h : E → Exec E W B) (f : A → Exec E W B) → OnOk G r
      → ((e : E) → Acts cell Q (h e))
      → ((a : A) → G a → Acts cell Q (f a))
      → (s : S) (w : W) → P s (cell.read w)
      → T s (cell.read (resume r h f w).1)
  Acts-resume-Post trans (ok a) h f g hh hf s w p = trans s _ _ p ((hf a g).at w)
  Acts-resume-Post trans (raise e) h f g hh hf s w p = trans s _ _ p ((hh e).at w)

  -- the `else` of a `try` may use what the block is known to return
  pub Acts-try-Post :
      ((s t u : S) → P s t → Q t u → T s u)
      → (m : Exec E W A) (h : E → Exec E W B) (f : A → Exec E W B) → Acts cell P m
      → Post (OnOk G) m
      → ((e : E) → Acts cell Q (h e))
      → ((a : A) → G a → Acts cell Q (f a))
      → Acts cell T (try_else m h f)
  Acts-try-Post trans m h f hm good hh hf = record {
    at = λ w. Acts-resume-Post trans (m w).0 h f (good.at w) hh hf (cell.read w) (m w).1 (hm.at w);
  }
