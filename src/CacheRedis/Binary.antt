-- ===== src/CacheRedis/Binary.antt =====
-- cache/redis/_formats.py: `BinaryEnvelopeFormat`. What is left of the data after the cursor is what a
-- reading action finds and leaves; UTF-8 is a parameter.
pub mod RoundTrip
use Prim.Native.Nat.{◌^◌}
use bluetape_py.Common.{
  ℕ, zero, suc, ◌+◌, ◌-◌, ◌*◌, ◌/◌, ◌%◌, Bool, true, false, not, ◌&&◌, ◌||◌, Option, none, some,
  List, [], ◌∷◌, ◌++◌, if◌then◌else◌, leb, ltb, length, ◌==◌,
}
use bluetape_py.Common.Texts.{codes, same_text, is_ascii}
use bluetape_py.Common.Exec.{Result, ok, raise, Exec, pure, throw, lift, ◌>>=◌, ◌>>◌}
use bluetape_py.CacheRedis.Envelope.{
  EnvelopeError, size_error, malformed, unsupported_version, value_error, struct_error, type_error,
  TrustProfile, PayloadMetadata, ResultEnvelope, new_metadata, new_envelope, trust_value, trust_of,
}

pub record Utf8 : Type 0 where
  -- none is a UnicodeEncodeError, and a UnicodeDecodeError
  pub encode : List ℕ → Option (List ℕ)
  pub decode : List ℕ → Option (List ℕ)

abbrev pub null_length : ℕ
null_length = 4294967295

-- `_U32.pack`, before the rest
unfoldable pub pack_u32 : ℕ → List ℕ → List ℕ
pack_u32 n rest = n / 2 ^ 24 % 256 ∷ n / 2 ^ 16 % 256 ∷ n / 2 ^ 8 % 256 ∷ n % 256 ∷ rest

unfoldable pub unpack_u32 : List ℕ → Result EnvelopeError ℕ
unpack_u32 (a ∷ b ∷ c ∷ d ∷ []) = ok (((a * 256 + b) * 256 + c) * 256 + d)
unpack_u32 _ = raise struct_error

-- `data[cursor:cursor + size]` and what follows
unfoldable pub split_at : ℕ → List ℕ → List ℕ × List ℕ
split_at zero bytes = ([], bytes)
split_at (suc size) [] = ([], [])
split_at (suc size) (c ∷ bytes) = let parts = split_at size bytes in (c ∷ parts.0, parts.1)

-- `_take`
unfoldable pub take_bytes : ℕ → Exec EnvelopeError (List ℕ) (List ℕ)
take_bytes size rest =
    if ltb (length rest) size
    then (raise malformed, rest)
    else (let parts = split_at size rest in (ok parts.0, parts.1))

abbrev pub read_u32 : Exec EnvelopeError (List ℕ) ℕ
read_u32 = do raw ← take_bytes 4; lift (unpack_u32 raw)

abbrev pub ascii_text : List ℕ → Result EnvelopeError (List ℕ)
ascii_text raw = if is_ascii raw then ok raw else raise malformed

abbrev pub check : Bool → EnvelopeError → Exec EnvelopeError (List ℕ) (Unit {0})
check fails e = if fails then throw e else pure tt

-- `_read_required_text` in ASCII
unfoldable pub read_required_text : ℕ → Exec EnvelopeError (List ℕ) (List ℕ)
read_required_text maximum = do
  size ← read_u32
  check (not (leb 1 size && leb size maximum)) malformed
  raw ← take_bytes size
  lift (ascii_text raw)

abbrev first : List ℕ → ℕ
first [] = 0
first (c ∷ rest) = c

module _ (utf8 : Utf8) where
  abbrev utf8_text : Option (List ℕ) → Result EnvelopeError (Option (List ℕ))
  utf8_text none = raise malformed
  utf8_text (some value) = ok (some value)

  unfoldable pub read_content_type : Exec EnvelopeError (List ℕ) (Option (List ℕ))
  read_content_type = do
    content_size ← read_u32
    if content_size == null_length then pure none else do
      check (ltb 1024 content_size) malformed
      raw ← take_bytes content_size
      lift (utf8_text (utf8.decode raw))

  unfoldable pub read_version : Exec EnvelopeError (List ℕ) ℕ
  read_version = do
    magic ← take_bytes 4
    check (not (same_text magic (codes "BTRE"))) malformed
    version_bytes ← take_bytes 1
    check (not (first version_bytes == 1)) unsupported_version
    pure (first version_bytes)

  unfoldable pub read_payload : Exec EnvelopeError (List ℕ) (List ℕ)
  read_payload = do payload_size ← read_u32; take_bytes payload_size

  abbrev is_left : List ℕ → Bool
  is_left [] = false
  is_left (c ∷ rest) = true

  -- `cursor != len(data)`
  unfoldable pub check_end : Exec EnvelopeError (List ℕ) (Unit {0})
  check_end rest = check (is_left rest) malformed rest

  -- the `try` of `decode`
  unfoldable pub read_envelope : Exec EnvelopeError (List ℕ) ResultEnvelope
  read_envelope = do
    version ← read_version
    owner ← read_required_text 128
    serde_format ← read_required_text 64
    serde_version ← read_u32
    content_type ← read_content_type
    trust ← read_required_text 64
    algorithm ← read_required_text 64
    payload ← read_payload
    check_end
    trust_profile ← lift (trust_of trust)
    metadata ← lift (new_metadata serde_format serde_version content_type trust_profile)
    lift (new_envelope version owner metadata algorithm payload)

  -- its `except`
  abbrev pub as_decode_error :
      Result EnvelopeError ResultEnvelope → Result EnvelopeError ResultEnvelope
  as_decode_error (raise value_error) = raise malformed
  as_decode_error (raise struct_error) = raise malformed
  as_decode_error (raise type_error) = raise malformed
  as_decode_error r = r

  -- `decode`
  unfoldable pub decode : ℕ → List ℕ → Result EnvelopeError ResultEnvelope
  decode max_encoded_size bytes =
      if ltb max_encoded_size (length bytes)
      then raise size_error
      else as_decode_error (read_envelope bytes).0

module _ {A B : Type 0} where
  abbrev pub and_then :
      Result EnvelopeError A → (A → Result EnvelopeError B) → Result EnvelopeError B
  and_then (ok a) f = f a
  and_then (raise e) f = raise e

-- `value.encode("ascii")`
abbrev pub ascii : List ℕ → Option (List ℕ)
ascii value = if is_ascii value then some value else none

-- the rest of `_encoded_text`
abbrev pub encoded_text : Option (List ℕ) → ℕ → Result EnvelopeError (List ℕ)
encoded_text none maximum = raise value_error
encoded_text (some encoded) maximum =
    if ltb maximum (length encoded) then raise value_error else ok encoded

-- a field with its length, before the rest
abbrev pub field : List ℕ → List ℕ → List ℕ
field value rest = pack_u32 (length value) (value ++ rest)

abbrev pub content_field : Option (List ℕ) → List ℕ → List ℕ
content_field none rest = pack_u32 null_length rest
content_field (some content_type) rest = field content_type rest

abbrev pub any_over : ℕ → List (List ℕ) → Bool
any_over maximum [] = false
any_over maximum (value ∷ fields) = ltb maximum (length value) || any_over maximum fields

abbrev pub total : List (List ℕ) → ℕ
total [] = 0
total (value ∷ fields) = length value + total fields

abbrev pub content_length : Option (List ℕ) → ℕ
content_length none = 0
content_length (some content_type) = length content_type

-- `output`
unfoldable pub output :
    ResultEnvelope
    → (owner serde_format : List ℕ) (content_type : Option (List ℕ))
      (trust_profile algorithm : List ℕ)
    → List ℕ
output envelope owner serde_format content_type trust_profile algorithm =
    codes "BTRE"
    ++ (envelope.version
        ∷ field owner (
            field serde_format (
              pack_u32 envelope.metadata.version (
                content_field content_type
                  (field trust_profile (field algorithm (field envelope.payload [])))))))

-- a byte is below 256, and an unsigned 32-bit number below 2 ** 32
unfoldable pub write_output :
    ℕ
    → ResultEnvelope
    → (owner serde_format : List ℕ) (content_type : Option (List ℕ))
      (trust_profile algorithm : List ℕ)
    → Result EnvelopeError (List ℕ)
write_output max_encoded_size envelope owner serde_format content_type trust_profile algorithm =
    let fields = owner ∷ serde_format ∷ trust_profile ∷ algorithm ∷ envelope.payload ∷ [] in
    let encoded = output envelope owner serde_format content_type trust_profile algorithm in
    if any_over (null_length - 1) fields
    then raise size_error
    else if ltb max_encoded_size (33 + total fields + content_length content_type)
    then raise size_error
    else if ltb 255 envelope.version
    then raise value_error
    else if leb (2 ^ 32) envelope.metadata.version
    then raise struct_error
    else if ltb max_encoded_size (length encoded)
    then raise size_error
    else ok encoded

module _ (utf8 : Utf8) where
  abbrev some_text : Result EnvelopeError (List ℕ) → Result EnvelopeError (Option (List ℕ))
  some_text (ok value) = ok (some value)
  some_text (raise e) = raise e

  abbrev pub encoded_content : Option (List ℕ) → Result EnvelopeError (Option (List ℕ))
  encoded_content none = ok none
  encoded_content (some value) = some_text (encoded_text (utf8.encode value) 1024)

  -- `encode`
  unfoldable pub encode : ℕ → ResultEnvelope → Result EnvelopeError (List ℕ)
  encode max_encoded_size envelope =
      and_then (encoded_text (ascii envelope.owner_token) 128) λ owner.
        and_then (encoded_text (ascii envelope.metadata.format) 64) λ serde_format.
          and_then (encoded_content envelope.metadata.content_type) λ content_type.
            and_then (encoded_text (ascii (trust_value envelope.metadata.trust_profile)) 64)
              λ trust_profile.
                and_then (encoded_text (ascii envelope.compression_algorithm) 64) λ algorithm.
                  write_output max_encoded_size envelope owner serde_format content_type
                    trust_profile algorithm
