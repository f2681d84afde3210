-- ===== src/Id.antt =====
-- packages/bluetape-id/src/bluetape/id: _errors.py and _entropy.py. Clocks and sources of entropy are
-- callbacks, and give objects of any class.
pub mod Ulid
pub mod Monotonic
pub mod Uuid
mod Examples
use bluetape_py.Common.{
  ℕ, zero, suc, ◌+◌, ◌-◌, ◌*◌, Bool, true, false, not, ◌||◌, List, [], ◌∷◌, if◌then◌else◌, ltb, leb,
  length, ◌==◌, ◌≡◌,
}
use bluetape_py.Common.Int.{ℤ, pos, negsuc}
use bluetape_py.Common.Exec.{Result, ok, raise, Exec, pure, throw, lift, ◌>>=◌}
use Prim.Native.Nat.{◌^◌}

pub data IdError : Type 0 where
  type_error invalid_id_error id_overflow_error : IdError
  -- what a callback raises
  other : ℕ → IdError

abbrev pub max_timestamp : ℕ
max_timestamp = 2 ^ 48 - 1

-- What a clock gives.
pub data Tick : Type 0 where
  int : ℤ → Tick
  bool : Bool → Tick
  object : Tick

-- What a source of entropy gives: bytes, or anything else.
pub data Entropy : Type 0 where
  bytes : List ℕ → Entropy
  object : Entropy

unfoldable pub check_timestamp : Tick → Result IdError ℕ
check_timestamp (int (pos n)) = if leb n max_timestamp then ok n else raise id_overflow_error
check_timestamp (int (negsuc n)) = raise id_overflow_error
check_timestamp (bool b) = raise type_error
check_timestamp Tick.object = raise type_error

unfoldable pub check_entropy : Entropy → Result IdError (List ℕ)
check_entropy (bytes value) = if length value == 10 then ok value else raise invalid_id_error
check_entropy Entropy.object = raise type_error

module _ {W : Type 0} where
  unfoldable pub read_timestamp : Exec IdError W Tick → Exec IdError W ℕ
  read_timestamp clock = do value ← clock; lift (check_timestamp value)

  unfoldable pub read_entropy : (ℕ → Exec IdError W Entropy) → Exec IdError W (List ℕ)
  read_entropy random_bytes = do value ← random_bytes 10; lift (check_entropy value)

-- `int.from_bytes(value, "big")`, from the value so far on
unfoldable pub from_bytes : ℕ → List ℕ → ℕ
from_bytes acc [] = acc
from_bytes acc (b ∷ value) = from_bytes (acc * 256 + b) value

-- What a `bytes` object holds.
pub data AreBytes : List ℕ → Type 0 where
  none_left : AreBytes []
  one_more : {b : ℕ} {value : List ℕ} → ltb b 256 ≡ true → AreBytes value → AreBytes (b ∷ value)
