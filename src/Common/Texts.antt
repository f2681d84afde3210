-- ===== src/Common/Texts.antt =====
-- Texts as lists of code points.
use Prim.Native.Char.{code}
use Prim.Native.Nat.{ℕ}
use Prim.Native.String.{String}
use mathlib.Core.Bool.{Bool, true, false, ◌&&◌, ◌||◌}
use mathlib.Core.List.{List, [], ◌∷◌}
use bluetape_py.Common.Tests.{◌==◌, ltb}

abbrev pub codes : String → List ℕ
codes String.[] = []
codes (String.◌∷◌ character rest) = code character ∷ codes rest

-- `==` of two texts
unfoldable pub same_text : List ℕ → List ℕ → Bool
same_text [] [] = true
same_text (x ∷ a) (y ∷ b) = x == y && same_text a b
same_text _ _ = false

-- `str.isascii`
unfoldable pub is_ascii : List ℕ → Bool
is_ascii [] = true
is_ascii (c ∷ text) = ltb c 128 && is_ascii text

-- a character in a text
unfoldable pub is_among : ℕ → List ℕ → Bool
is_among c [] = false
is_among c (x ∷ xs) = c == x || is_among c xs
