-- ===== src/Common/Exec.antt =====
-- Code that reads and writes a world `W` and may raise an `E`. What was written before a raise
-- stays written. Callbacks of the program (operations, observers, clocks) are such actions on the
-- whole world, so whatever other threads or tasks do while one runs is part of what it does.
use mathlib.Core.Path.{◌≡◌, refl}

pub data Result (E A : Type 0) : Type 0 where
  ok : A → Result E A
  raise : E → Result E A

abbrev pub Exec : Type 0 → Type 0 → Type 0 → Type 0
Exec E W A = W → Result E A × W

module _ {E W A : Type 0} where
  abbrev pub pure : A → Exec E W A
  pure a w = (ok a, w)

  abbrev pub throw : E → Exec E W A
  throw e w = (raise e, w)

  abbrev pub lift : Result E A → Exec E W A
  lift r w = (r, w)

module _ {E W A B : Type 0} where
  abbrev pub continue : Result E A → (A → Exec E W B) → Exec E W B
  continue (ok a) f w = f a w
  continue (raise e) f w = (raise e, w)

  infixl 10 ◌>>=◌ ◌>>◌
  abbrev pub ◌>>=◌ : Exec E W A → (A → Exec E W B) → Exec E W B
  ◌>>=◌ m f w = let (r, w') = m w in continue r f w'

  abbrev pub ◌>>◌ : Exec E W A → Exec E W B → Exec E W B
  m >> n = m >>= λ _. n

  abbrev pub resume : Result E A → (E → Exec E W B) → (A → Exec E W B) → Exec E W B
  resume (ok a) handler orelse w = orelse a w
  resume (raise e) handler orelse w = handler e w

  -- `try: m / except BaseException as e: handler / else: orelse`
  abbrev pub try_else : Exec E W A → (E → Exec E W B) → (A → Exec E W B) → Exec E W B
  try_else m handler orelse w = let (r, w') = m w in resume r handler orelse w'

-- The place of one object in the world.
pub record Cell (W S : Type 0) : Type 0 where
  pub read : W → S
  pub write : S → W → W
  pub read-write : (s : S) (w : W) → read (write s w) ≡ s

module _ {E W S A : Type 0} (cell : Cell W S) where
  -- A block under the object's lock: no other action takes place inside it.
  abbrev pub locked : (S → A × S) → Exec E W A
  locked f w = let (a, s) = f (cell.read w) in (ok a, cell.write s w)

-- An action on an object that is the whole world.
abbrev pub whole : {S : Type 0} → Cell S S
whole = record { read = λ w. w; write = λ s w. s; read-write = λ s w. refl }
