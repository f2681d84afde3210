-- ===== src/Id/Ulid.antt =====
-- id/_ulid.py: the text of a ULID. A text is the list of its code points.
pub mod Digits
pub mod Order
use bluetape_py.Common.Texts.{codes}
use Prim.Native.Nat.{◌^◌}
use bluetape_py.Common.{
  ℕ, zero, suc, ◌+◌, ◌*◌, ◌/◌, ◌%◌, String, Bool, true, false, Option, none, some, List, [], ◌∷◌,
  if◌then◌else◌, ltb, leb, length, ◌==◌,
}
use bluetape_py.Common.Exec.{Result, ok, raise}
use bluetape_py.Id.{IdError, type_error, invalid_id_error}

abbrev pub alphabet : List ℕ
alphabet = codes "0123456789ABCDEFGHJKMNPQRSTVWXYZ"

-- `_ALPHABET[index]`; no index out of range is used
abbrev pub get_or : ℕ → List ℕ → ℕ → ℕ
get_or d [] i = d
get_or d (x ∷ xs) zero = x
get_or d (x ∷ xs) (suc i) = get_or d xs i

unfoldable pub symbol : ℕ → ℕ
symbol digit = get_or b'0' alphabet digit

-- the key's value in `{character: index for index, character in enumerate(...)}`, from `index` on
unfoldable pub position : ℕ → ℕ → List ℕ → Option ℕ
position character index [] = none
position character index (x ∷ xs) =
    let rest = position character (suc index) xs in if x == character then some index else rest

-- `_DECODE[character]`
unfoldable pub digit_of : ℕ → Option ℕ
digit_of character = position character 0 alphabet

-- the `for` of `_encode`, `rounds` being the places still to be written, before `output`
unfoldable pub encode_loop : ℕ → ℕ → List ℕ → List ℕ
encode_loop zero value output = output
encode_loop (suc rounds) value output =
    encode_loop rounds (value / 32) (symbol (value % 32) ∷ output)

-- `randomness` is below 2^80: no bit of it meets one of the shifted timestamp
unfoldable pub encode : ℕ → ℕ → List ℕ
encode timestamp randomness = encode_loop 26 (timestamp * 2 ^ 80 + randomness) []

unfoldable pub decode_loop : ℕ → List ℕ → Result IdError ℕ
decode_loop decoded [] = ok decoded
decode_loop decoded (character ∷ value) = elim (digit_of character) [
  | none ↦ raise invalid_id_error
  | some digit ↦ decode_loop (decoded * 32 + digit) value
]

abbrev pub check_range : Result IdError ℕ → Result IdError ℕ
check_range (raise e) = raise e
check_range (ok decoded) = if leb (2 ^ 128) decoded then raise invalid_id_error else ok decoded

unfoldable pub decode : List ℕ → Result IdError ℕ
decode value = check_range (decode_loop 0 value)

-- An argument that ought to be a text.
pub data Text : Type 0 where
  text : List ℕ → Text
  object : Text

abbrev pub keep_text : List ℕ → Result IdError ℕ → Result IdError (List ℕ)
keep_text value (raise e) = raise e
keep_text value (ok decoded) = ok value

unfoldable pub parse_ulid : Text → Result IdError (List ℕ)
parse_ulid Text.object = raise type_error
parse_ulid (text value) =
    if length value == 26 then keep_text value (decode value) else raise invalid_id_error

abbrev pub timestamp_of : Result IdError ℕ → Result IdError ℕ
timestamp_of (raise e) = raise e
timestamp_of (ok decoded) = ok (decoded / 2 ^ 80)

abbrev pub decode_parsed : Result IdError (List ℕ) → Result IdError ℕ
decode_parsed (raise e) = raise e
decode_parsed (ok value) = decode value

unfoldable pub ulid_timestamp_ms : Text → Result IdError ℕ
ulid_timestamp_ms value = timestamp_of (decode_parsed (parse_ulid value))
