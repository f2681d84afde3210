-- ===== src/Id/Uuid.antt =====
-- id/_uuid.py: `UUID7Generator` and `uuid7_timestamp_ms`. A UUID is the number `int` that it is made
-- of; what Python's `uuid` module makes of texts and numbers is a parameter.
pub mod Fields
use Prim.Native.Nat.{◌^◌}
use bluetape_py.Common.Texts.{same_text}
use bluetape_py.Common.{
  ℕ, zero, suc, ◌+◌, ◌-◌, ◌*◌, ◌/◌, ◌%◌, ◌≡◌, Bool, true, false, not, ◌&&◌, ◌||◌, Option, none,
  some, List, [], ◌∷◌, if◌then◌else◌, ltb, ◌==◌, length,
}
use bluetape_py.Common.Exec.{Result, ok, raise, Exec, pure, lift, ◌>>=◌, Cell, locked}
use bluetape_py.Id.{
  IdError, type_error, invalid_id_error, id_overflow_error, max_timestamp, Tick, Entropy,
  read_timestamp, read_entropy, from_bytes,
}

abbrev pub rand_a_mask : ℕ
rand_a_mask = 2 ^ 12 - 1

-- `entropy[:2]`
abbrev first_two : List ℕ → List ℕ
first_two (a ∷ b ∷ rest) = a ∷ b ∷ []
first_two short = short

-- `entropy[2:]`
abbrev rest_after_two : List ℕ → List ℕ
rest_after_two (a ∷ b ∷ rest) = rest
rest_after_two short = []

-- `int.from_bytes(entropy[:2], "big") & _RAND_A_MASK`
unfoldable pub seed_of : List ℕ → ℕ
seed_of entropy = from_bytes 0 (first_two entropy) % 2 ^ 12

-- `int.from_bytes(entropy[2:], "big") & _RAND_B_MASK`
unfoldable pub random_bits_of : List ℕ → ℕ
random_bits_of entropy = from_bytes 0 (rest_after_two entropy) % 2 ^ 62

pub record Uuid7State : Type 0 where
  pub last_ms : Option ℕ
  pub counter : ℕ

abbrev pub new_state : Uuid7State
new_state = record { last_ms = none; counter = 0 }

abbrev choose_from : Option ℕ → ℕ → ℕ → Uuid7State → Result IdError (ℕ × ℕ)
choose_from none observed seed s = ok (observed, seed)
choose_from (some last) observed seed s =
    if ltb last observed
    then ok (observed, seed)
    else if ltb s.counter rand_a_mask
    then ok (last, s.counter + 1)
    else if ltb max_timestamp (last + 1)
    then raise id_overflow_error
    else ok (last + 1, seed)

-- the timestamp and the counter of the next UUID
unfoldable pub choose : ℕ → ℕ → Uuid7State → Result IdError (ℕ × ℕ)
choose observed seed s = choose_from s.last_ms observed seed s

-- The five shifted parts do not overlap: the counter is below 2^12 and the random bits below 2^62.
unfoldable pub pack : ℕ → ℕ → ℕ → ℕ
pack logical counter random_bits =
    logical * 2 ^ 80 + 7 * 2 ^ 76 + counter * 2 ^ 64 + 2 * 2 ^ 62 + random_bits

abbrev issue_chosen : ℕ → Result IdError (ℕ × ℕ) → Uuid7State → Result IdError ℕ × Uuid7State
issue_chosen random_bits (raise e) s = (raise e, s)
issue_chosen random_bits (ok (logical, counter)) s =
    (ok (pack logical counter random_bits), record { last_ms = some logical; counter = counter })

-- the block under the lock
unfoldable pub issue : ℕ → List ℕ → Uuid7State → Result IdError ℕ × Uuid7State
issue observed entropy s =
    issue_chosen (random_bits_of entropy) (choose observed (seed_of entropy) s) s

module _ {W : Type 0} (cell : Cell W Uuid7State) (clock : Exec IdError W Tick)
    (random_bytes : ℕ → Exec IdError W Entropy) where
  unfoldable pub new : Exec IdError W ℕ
  new = do
    observed ← read_timestamp clock
    entropy ← read_entropy random_bytes
    result ← locked cell (issue observed entropy)
    lift result

-- What the `uuid` module gives: `UUID(text)` (none is a ValueError), `str(uuid)`, `version`, and
-- whether `variant` is RFC_4122; and `str.lower`.
pub record UuidModule : Type 0 where
  pub parse : List ℕ → Option ℕ
  pub print : ℕ → List ℕ
  pub version : ℕ → Option ℕ
  pub is_rfc_4122 : ℕ → Bool
  pub lower : List ℕ → List ℕ

pub data UuidValue : Type 0 where
  text : List ℕ → UuidValue
  uuid : ℕ → UuidValue
  object : UuidValue

module _ (lib : UuidModule) where
  abbrev check_print : List ℕ → Option ℕ → Result IdError ℕ
  check_print value none = raise invalid_id_error
  check_print value (some parsed) =
      if same_text (lib.print parsed) value then ok parsed else raise invalid_id_error

  unfoldable pub read_uuid : UuidValue → Result IdError ℕ
  read_uuid UuidValue.object = raise type_error
  read_uuid (uuid value) = ok value
  read_uuid (text value) =
      if not (length value == 36) || not (same_text value (lib.lower value))
      then raise invalid_id_error
      else check_print value (lib.parse value)

  abbrev is_seven : Option ℕ → Bool
  is_seven none = false
  is_seven (some version) = version == 7

  abbrev check_version : Result IdError ℕ → Result IdError ℕ
  check_version (raise e) = raise e
  check_version (ok parsed) =
      if not (is_seven (lib.version parsed)) || not (lib.is_rfc_4122 parsed)
      then raise invalid_id_error
      else ok (parsed / 2 ^ 80)

  unfoldable pub uuid7_timestamp_ms : UuidValue → Result IdError ℕ
  uuid7_timestamp_ms value = check_version (read_uuid value)
