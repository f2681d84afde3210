-- ===== src/Common/Does.antt =====
-- What an action does to one object of the world, in terms of what it gives.
use bluetape_py.Common.Exec.{Result, ok, raise, Exec, ◌>>=◌, try_else, resume, continue, Cell}
use bluetape_py.Common.Acts.{Acts}

pub record Does {E S W A : Type 0} (cell : Cell W S) (Q : Result E A → S → S → Type 0)
    (m : Exec E W A) : Type 0 where
  pub at : (w : W) → Q (m w).0 (cell.read w) (cell.read (m w).1)

module _ {E S W A B : Type 0} {cell : Cell W S} where
  module _ {P : S → S → Type 0} {Q : Result E B → S → S → Type 0}
      (trans : (r : Result E B) (s t u : S) → P s t → Q r t u → Q r s u) where
    Does-resume :
        (r : Result E A) (h : E → Exec E W B) (f : A → Exec E W B)
        → ((e : E) → Does cell Q (h e))
        → ((a : A) → Does cell Q (f a))
        → (s : S) (w : W) → P s (cell.read w)
        → Q (resume r h f w).0 s (cell.read (resume r h f w).1)
    Does-resume (ok a) h f hh hf s w p = trans _ s _ _ p ((hf a).at w)
    Does-resume (raise e) h f hh hf s w p = trans _ s _ _ p ((hh e).at w)

    pub Does-try :
        (m : Exec E W A) (h : E → Exec E W B) (f : A → Exec E W B)
        → Acts cell P m
        → ((e : E) → Does cell Q (h e))
        → ((a : A) → Does cell Q (f a))
        → Does cell Q (try_else m h f)
    Does-try m h f hm hh hf = record {
      at = λ w. Does-resume (m w).0 h f hh hf (cell.read w) (m w).1 (hm.at w);
    }

    Does-continue :
        (r : Result E A) (f : A → Exec E W B)
        → ((e : E) (s t : S) → P s t → Q (raise e) s t)
        → ((a : A) → Does cell Q (f a))
        → (s : S) (w : W) → P s (cell.read w)
        → Q (continue r f w).0 s (cell.read (continue r f w).1)
    Does-continue (ok a) f he hf s w p = trans _ s _ _ p ((hf a).at w)
    Does-continue (raise e) f he hf s w p = he e s _ p

    pub Does-prefix :
        (m : Exec E W A) (f : A → Exec E W B)
        → Acts cell P m
        → ((e : E) (s t : S) → P s t → Q (raise e) s t)
        → ((a : A) → Does cell Q (f a))
        → Does cell Q (m >>= f)
    Does-prefix m f hm he hf = record {
      at = λ w. Does-continue (m w).0 f he hf (cell.read w) (m w).1 (hm.at w);
    }

  module _ (P : Result E A → S → S → Type 0) {Q : A → S → S → Type 0} {T : S → S → Type 0} where
    Does-continue_Acts :
        ((e : E) (s t : S) → P (raise e) s t → T s t)
        → ((a : A) (s t u : S) → P (ok a) s t → Q a t u → T s u)
        → (r : Result E A) (f : A → Exec E W B) → ((a : A) → Acts cell (Q a) (f a))
        → (s : S) (w : W) → P r s (cell.read w)
        → T s (cell.read (continue r f w).1)
    Does-continue_Acts he trans (ok a) f hf s w p = trans a s _ _ p ((hf a).at w)
    Does-continue_Acts he trans (raise e) f hf s w p = he e s _ p

    -- what follows may depend on what the first action gave
    pub Does-bind-Acts :
        ((e : E) (s t : S) → P (raise e) s t → T s t)
        → ((a : A) (s t u : S) → P (ok a) s t → Q a t u → T s u)
        → (m : Exec E W A) (f : A → Exec E W B) → Does cell P m
        → ((a : A) → Acts cell (Q a) (f a))
        → Acts cell T (m >>= f)
    Does-bind-Acts he trans m f hm hf = record {
      at = λ w. Does-continue_Acts he trans (m w).0 f hf (cell.read w) (m w).1 (hm.at w);
    }

module _ {E S W A B : Type 0} {cell : Cell W S} (P : Result E A → S → S → Type 0)
    (Q : A → Result E B → S → S → Type 0) (T : Result E B → S → S → Type 0) where
  Does-resume_Does :
      (H : E → Result E B → S → S → Type 0)
      → ((e : E) (r : Result E B) (s t u : S) → P (raise e) s t → H e r t u → T r s u)
      → ((a : A) (r : Result E B) (s t u : S) → P (ok a) s t → Q a r t u → T r s u)
      → (r : Result E A) (h : E → Exec E W B) (f : A → Exec E W B)
      → ((e : E) → Does cell (H e) (h e))
      → ((a : A) → Does cell (Q a) (f a))
      → (s : S) (w : W) → P r s (cell.read w)
      → T (resume r h f w).0 s (cell.read (resume r h f w).1)
  Does-resume_Does H te tf (ok a) h f hh hf s w p = tf a _ s _ _ p ((hf a).at w)
  Does-resume_Does H te tf (raise e) h f hh hf s w p = te e _ s _ _ p ((hh e).at w)

  -- a `try` whose handler and `else` depend on how its block ended
  pub Does-try-Does :
      (H : E → Result E B → S → S → Type 0)
      → ((e : E) (r : Result E B) (s t u : S) → P (raise e) s t → H e r t u → T r s u)
      → ((a : A) (r : Result E B) (s t u : S) → P (ok a) s t → Q a r t u → T r s u)
      → (m : Exec E W A) (h : E → Exec E W B) (f : A → Exec E W B) → Does cell P m
      → ((e : E) → Does cell (H e) (h e))
      → ((a : A) → Does cell (Q a) (f a))
      → Does cell T (try_else m h f)
  Does-try-Does H te tf m h f hm hh hf = record {
    at = λ w. Does-resume_Does H te tf (m w).0 h f hh hf (cell.read w) (m w).1 (hm.at w);
  }

  Does-continue_Does :
      ((e : E) (s t : S) → P (raise e) s t → T (raise e) s t)
      → ((a : A) (r : Result E B) (s t u : S) → P (ok a) s t → Q a r t u → T r s u)
      → (r : Result E A) (f : A → Exec E W B) → ((a : A) → Does cell (Q a) (f a))
      → (s : S) (w : W) → P r s (cell.read w)
      → T (continue r f w).0 s (cell.read (continue r f w).1)
  Does-continue_Does te tf (ok a) f hf s w p = tf a _ s _ _ p ((hf a).at w)
  Does-continue_Does te tf (raise e) f hf s w p = te e s _ p

  pub Does-bind-Does :
      ((e : E) (s t : S) → P (raise e) s t → T (raise e) s t)
      → ((a : A) (r : Result E B) (s t u : S) → P (ok a) s t → Q a r t u → T r s u)
      → (m : Exec E W A) (f : A → Exec E W B) → Does cell P m
      → ((a : A) → Does cell (Q a) (f a))
      → Does cell T (m >>= f)
  Does-bind-Does te tf m f hm hf = record {
    at = λ w. Does-continue_Does te tf (m w).0 f hf (cell.read w) (m w).1 (hm.at w);
  }

-- what holds of every result
pub Does-Acts :
    {E S W A : Type 0} {cell : Cell W S} {R : S → S → Type 0} {m : Exec E W A}
    → Acts cell R m
    → Does cell (λ r. R) m
Does-Acts h = record { at = h.at }
