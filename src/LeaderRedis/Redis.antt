-- ===== src/LeaderRedis/Redis.antt =====
-- What the scripts of leader/redis/_scripts.py use of Redis: commands on three keys, each script being
-- one step during which no time passes. A text is the list of its bytes.
use bluetape_py.Common.{
  ℕ, ◌+◌, ◌-◌, ◌*◌, List, [], ◌∷◌, Bool, true, false, ◌&&◌, if◌then◌else◌, ltb, leb, length, ◌==◌,
  ◌||◌,
}
use bluetape_py.Common.Int.{ℤ, negsuc}
use bluetape_py.Common.Texts.{codes}

-- `KEYS`
pub data Key : Type 0 where
  lease_key fence_key history_key : Key

-- `TYPE`: none, a string, or another type
pub data Kind : Type 0 where
  missing string other_kind : Kind

-- The commands. `PTTL` is -1 for a key that does not expire.
pub record Redis : Type 1 where
  pub Data : Type 0
  pub kind : Key → Data → Kind
  pub get : Key → Data → List ℕ
  pub pttl : Key → Data → ℤ
  pub set : Key → List ℕ → Data → Data
  pub set_px : Key → List ℕ → List ℕ → Data → Data
  pub incr : Key → Data → Data
  pub del : Key → Data → Data
  pub pexpire : Key → List ℕ → Data → Data
  -- what the passing of time may make of the data
  pub Later : Data → Data → Type 0

abbrev pub forever : ℤ
forever = negsuc 0

-- The decimal number that a text of digits is, after `acc`.
unfoldable pub number_from : ℕ → List ℕ → ℕ
number_from acc [] = acc
number_from acc (c ∷ text) = number_from (acc * 10 + (c - b'0')) text

unfoldable pub are_digits : List ℕ → Bool
are_digits [] = true
are_digits (c ∷ text) = leb b'0' c && leb c b'9' && are_digits text

-- `<=` of two texts
unfoldable pub text_le : List ℕ → List ℕ → Bool
text_le [] b = true
text_le (x ∷ a) [] = false
text_le (x ∷ a) (y ∷ b) =
    let rest = text_le a b in if ltb x y then true else if x == y then rest else false

-- `[1-9][0-9]*`
unfoldable pub is_positive : List ℕ → Bool
is_positive [] = false
is_positive (c ∷ text) = leb b'1' c && leb c b'9' && are_digits text

abbrev pub max_fence : List ℕ
max_fence = codes "9223372036854775807"

-- `valid_fence`
unfoldable pub valid_fence : List ℕ → Bool
valid_fence fence =
    is_positive fence && (ltb (length fence) 19 || (length fence == 19 && text_le fence max_fence))
