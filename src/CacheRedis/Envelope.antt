-- ===== src/CacheRedis/Envelope.antt =====
-- cache/redis/_contracts.py, `ResultEnvelope`, and serde/_contracts.py, `PayloadMetadata`. A number that
-- is not positive is refused, so that 0 stands for all of them.
use bluetape_py.Common.{
  ℕ, Bool, true, not, ◌&&◌, ◌||◌, Option, List, [], ◌∷◌, if◌then◌else◌, leb, length,
}
use bluetape_py.Common.Texts.{codes, same_text, is_among}
use bluetape_py.Common.Exec.{Result, ok, raise}

-- the other codes of `EnvelopeErrorCode`
pub data Failure : Type 0 where
  unsupported_format unknown_algorithm compression_failure payload_codec_failure : Failure

pub data EnvelopeError : Type 0 where
  -- EnvelopeSizeError
  size_error : EnvelopeError
  -- EnvelopeDecodeError, with its code
  malformed unsupported_version : EnvelopeError
  -- EnvelopeEncodeError and EnvelopeDecodeError
  encode_failure decode_failure : Failure → EnvelopeError
  -- other classes of ValueError, struct.error and TypeError
  value_error struct_error type_error : EnvelopeError
  -- any other Exception
  exception : ℕ → EnvelopeError

pub data TrustProfile : Type 0 where
  untrusted trusted_internal : TrustProfile

pub record PayloadMetadata : Type 0 where
  pub format : List ℕ
  pub version : ℕ
  pub content_type : Option (List ℕ)
  pub trust_profile : TrustProfile

pub record ResultEnvelope : Type 0 where
  pub version : ℕ
  pub owner_token : List ℕ
  pub metadata : PayloadMetadata
  pub compression_algorithm : List ℕ
  -- bytes
  pub payload : List ℕ

unfoldable pub are_from : List ℕ → List ℕ → Bool
are_from alphabet [] = true
are_from alphabet (c ∷ value) = is_among c alphabet && are_from alphabet value

abbrev pub format_characters : List ℕ
format_characters = codes "abcdefghijklmnopqrstuvwxyz0123456789-_./"

abbrev pub token_characters : List ℕ
token_characters = codes "abcdefghijklmnopqrstuvwxyzABCDEFGHIJKLMNOPQRSTUVWXYZ0123456789._~-"

abbrev pub algorithm_characters : List ℕ
algorithm_characters = codes "abcdefghijklmnopqrstuvwxyz0123456789-_."

-- from 1 to so many characters of an alphabet
unfoldable pub is_name : List ℕ → ℕ → List ℕ → Bool
is_name alphabet maximum value =
    leb 1 (length value) && leb (length value) maximum && are_from alphabet value

-- `PayloadMetadata.__post_init__`
unfoldable pub new_metadata :
    List ℕ → ℕ → Option (List ℕ) → TrustProfile → Result EnvelopeError PayloadMetadata
new_metadata format version content_type trust_profile =
    if not (is_name format_characters 64 format) || leb version 0
    then raise value_error
    else ok (record {
      format = format;
      version = version;
      content_type = content_type;
      trust_profile = trust_profile;
    })

-- `ResultEnvelope.__post_init__`
unfoldable pub new_envelope :
    ℕ → List ℕ → PayloadMetadata → List ℕ → List ℕ → Result EnvelopeError ResultEnvelope
new_envelope version owner_token metadata compression_algorithm payload =
    if leb version 0
    then raise value_error
    else if not (is_name token_characters 128 owner_token)
    then raise value_error
    else if not (is_name algorithm_characters 64 compression_algorithm)
    then raise value_error
    else ok (record {
      version = version;
      owner_token = owner_token;
      metadata = metadata;
      compression_algorithm = compression_algorithm;
      payload = payload;
    })

-- `TrustProfile.value`
abbrev pub trust_value : TrustProfile → List ℕ
trust_value untrusted = codes "untrusted"
trust_value trusted_internal = codes "trusted_internal"

-- `TrustProfile(value)`
unfoldable pub trust_of : List ℕ → Result EnvelopeError TrustProfile
trust_of value =
    if same_text value (codes "untrusted")
    then ok untrusted
    else if same_text value (codes "trusted_internal")
    then ok trusted_internal
    else raise value_error
