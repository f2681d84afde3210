-- ===== src/CacheRedis/Codec.antt =====
-- cache/redis/_envelope.py: `ResultEnvelopeCodec`. The payload codec, the format and the compressors that
-- it is given are parameters whose results depend on their arguments alone; an object of another class
-- than the one that is due is `none`.
pub mod Registered
pub mod Matches
use bluetape_py.Common.{
  ℕ, zero, suc, ◌-◌, Bool, true, false, not, ◌&&◌, ◌||◌, Option, none, some, List, [], ◌∷◌, ◌++◌,
  if◌then◌else◌, leb, ltb, length, ◌==◌,
}
use bluetape_py.Common.Texts.{codes, same_text}
use bluetape_py.Common.Exec.{Result, ok, raise}
use bluetape_py.CacheRedis.Envelope.{
  EnvelopeError, size_error, malformed, unsupported_version, value_error, struct_error, type_error,
  encode_failure, decode_failure, exception, Failure, unsupported_format, unknown_algorithm,
  compression_failure, payload_codec_failure, PayloadMetadata, ResultEnvelope, is_name,
  token_characters, algorithm_characters, new_envelope,
}
use bluetape_py.CacheRedis.Binary.{and_then, null_length, Utf8, encode, decode}

pub record SerializedPayload : Type 0 where
  pub metadata : PayloadMetadata
  pub bytes : List ℕ

pub record Compressor : Type 0 where
  pub algorithm : Result EnvelopeError (Option (List ℕ))
  pub compress : List ℕ → Result EnvelopeError (Option (List ℕ))
  pub decompress : List ℕ → Result EnvelopeError (Option (List ℕ))

pub record EnvelopeFormat : Type 0 where
  -- the `max_encoded_size` of a format of _formats.py
  pub bound : Option ℕ
  pub encode_envelope : ResultEnvelope → Result EnvelopeError (Option (List ℕ))
  pub decode_envelope : List ℕ → Result EnvelopeError (Option ResultEnvelope)

-- `BinaryEnvelopeFormat`
abbrev pub binary_format : Utf8 → ℕ → EnvelopeFormat
binary_format utf8 maximum = record {
  bound = some maximum;
  encode_envelope = λ e. and_then (encode utf8 maximum e) (λ b. ok (some b));
  decode_envelope = λ b. and_then (decode utf8 maximum b) (λ e. ok (some e));
}

pub record PayloadCodec (T : Type 0) : Type 0 where
  pub encode_value : T → Result EnvelopeError (Option SerializedPayload)
  pub decode_payload : SerializedPayload → Result EnvelopeError T

-- `isinstance(error, EnvelopeError)`
abbrev pub is_envelope_error : EnvelopeError → Bool
is_envelope_error value_error = false
is_envelope_error struct_error = false
is_envelope_error type_error = false
is_envelope_error (exception n) = false
is_envelope_error _ = true

module _ {A : Type 0} (failure : EnvelopeError) where
  -- `except EnvelopeError: raise / except Exception`
  abbrev pub wrapped : Result EnvelopeError A → Result EnvelopeError A
  wrapped (ok a) = ok a
  wrapped (raise e) = raise (if is_envelope_error e then e else failure)

  -- `except Exception`
  abbrev pub wrapped_all : Result EnvelopeError A → Result EnvelopeError A
  wrapped_all (ok a) = ok a
  wrapped_all (raise e) = raise failure

  -- a test of the class
  abbrev pub exact : Option A → Result EnvelopeError A
  exact none = raise failure
  exact (some a) = ok a

abbrev pub algorithm_text : Result EnvelopeError (Option (List ℕ)) → Result EnvelopeError (List ℕ)
algorithm_text (raise e) = raise value_error
algorithm_text (ok none) = raise type_error
algorithm_text (ok (some algorithm)) =
    if not (is_name algorithm_characters 64 algorithm)
    then raise value_error
    else if same_text algorithm (codes "identity")
    then raise value_error
    else ok algorithm

-- `_algorithm_for`
unfoldable pub algorithm_for : Compressor → Result EnvelopeError (List ℕ)
algorithm_for compressor = algorithm_text compressor.algorithm

abbrev pub Registry : Type 0
Registry = List (List ℕ × Compressor)

-- `registry.get`
unfoldable pub find_reader : List ℕ → Registry → Option Compressor
find_reader algorithm [] = none
find_reader algorithm ((key, compressor) ∷ registry) =
    let rest = find_reader algorithm registry in
    if same_text key algorithm then some compressor else rest

abbrev pub unless_found :
    Option Compressor → Result EnvelopeError Registry → Result EnvelopeError Registry
unless_found none added = added
unless_found (some other) added = raise value_error

-- the loop of `_build_reader_registry`
unfoldable pub add_readers : List Compressor → Registry → Result EnvelopeError Registry
add_readers [] registry = ok registry
add_readers (compressor ∷ readers) registry = and_then (algorithm_for compressor) λ algorithm.
    unless_found (find_reader algorithm registry)
      (add_readers readers ((algorithm, compressor) ∷ registry))

abbrev pub writer_first : Option Compressor → List Compressor → List Compressor
writer_first none readers = readers
writer_first (some writer) readers = writer ∷ readers

-- `_build_reader_registry`
unfoldable pub build_reader_registry :
    Option Compressor → List Compressor → Result EnvelopeError Registry
build_reader_registry writer readers = add_readers (writer_first writer readers) []

-- `_validated_envelope`
abbrev pub as_malformed : Result EnvelopeError ResultEnvelope → Result EnvelopeError ResultEnvelope
as_malformed (raise e) = raise malformed
as_malformed (ok envelope) = ok envelope

unfoldable pub validated_envelope : Option ResultEnvelope → Result EnvelopeError ResultEnvelope
validated_envelope none = raise (decode_failure unsupported_format)
validated_envelope (some e) =
    as_malformed (new_envelope e.version e.owner_token e.metadata e.compression_algorithm e.payload)

pub record ResultEnvelopeCodec (T : Type 0) : Type 0 where
  pub payload_codec : PayloadCodec T
  pub envelope_format : EnvelopeFormat
  pub compressor : Option Compressor
  pub max_encoded_size : ℕ
  pub readers : Registry

abbrev pub is_below : Option ℕ → ℕ → Bool
is_below none maximum = false
is_below (some bound) maximum = ltb bound maximum

-- the algorithm and the payload of an envelope
unfoldable pub compressed : Option Compressor → List ℕ → Result EnvelopeError (List ℕ × List ℕ)
compressed none bytes = ok (codes "identity", bytes)
compressed (some compressor) bytes = and_then (algorithm_for compressor) λ algorithm.
    and_then (wrapped_all (encode_failure compression_failure) (compressor.compress bytes)) λ given.
      and_then (exact (encode_failure compression_failure) given) λ payload. ok (algorithm, payload)

abbrev pub within : ℕ → List ℕ → Result EnvelopeError (List ℕ)
within maximum encoded = if ltb maximum (length encoded) then raise size_error else ok encoded

abbrev pub decompressed_by : Option Compressor → List ℕ → Result EnvelopeError (List ℕ)
decompressed_by none payload = raise (decode_failure unknown_algorithm)
decompressed_by (some reader) payload =
    and_then (wrapped_all (decode_failure compression_failure) (reader.decompress payload))
      (exact (decode_failure compression_failure))

unfoldable pub decompressed : Registry → ResultEnvelope → Result EnvelopeError (List ℕ)
decompressed readers envelope =
    if same_text envelope.compression_algorithm (codes "identity")
    then ok envelope.payload
    else decompressed_by (find_reader envelope.compression_algorithm readers) envelope.payload

module _ {T : Type 0} where
  -- `__post_init__`
  unfoldable pub new_codec :
      PayloadCodec T
      → EnvelopeFormat
      → Option Compressor
      → List Compressor
      → ℕ
      → Result EnvelopeError (ResultEnvelopeCodec T)
  new_codec payload_codec envelope_format compressor decompressors max_encoded_size =
      if not (leb 1 max_encoded_size && leb max_encoded_size (null_length - 1))
      then raise value_error
      else if is_below envelope_format.bound max_encoded_size
      then raise value_error
      else and_then (build_reader_registry compressor decompressors) λ registry. ok (record {
        payload_codec = payload_codec;
        envelope_format = envelope_format;
        compressor = compressor;
        max_encoded_size = max_encoded_size;
        readers = registry;
      })

  -- `encode`
  unfoldable pub encode_result : ResultEnvelopeCodec T → List ℕ → T → Result EnvelopeError (List ℕ)
  encode_result codec owner_token value =
      if not (is_name token_characters 128 owner_token)
      then raise value_error
      else and_then
          (wrapped (encode_failure payload_codec_failure) (codec.payload_codec.encode_value value))
          λ given. and_then (exact (encode_failure payload_codec_failure) given) λ serialized.
            and_then (compressed codec.compressor serialized.bytes) λ parts.
              and_then (new_envelope 1 owner_token serialized.metadata parts.0 parts.1) λ envelope.
                and_then
                  (wrapped (encode_failure unsupported_format)
                    (codec.envelope_format.encode_envelope envelope))
                  λ written.
                    and_then (exact (encode_failure unsupported_format) written)
                      λ encoded. within codec.max_encoded_size encoded

  abbrev pub matched :
      ResultEnvelopeCodec T → List ℕ → ResultEnvelope → Result EnvelopeError (Option T)
  matched codec expected_owner_token envelope =
      if not (envelope.version == 1)
      then raise unsupported_version
      else if not (same_text envelope.owner_token expected_owner_token)
      then ok none
      else and_then (decompressed codec.readers envelope) λ logical.
        and_then
          (wrapped (decode_failure payload_codec_failure) (
            codec.payload_codec.decode_payload
              (record { metadata = envelope.metadata; bytes = logical })))
          λ value. ok (some value)

  -- `decode_matching`, and `decode`, whose None stands for both
  unfoldable pub decode_matching :
      ResultEnvelopeCodec T → List ℕ → List ℕ → Result EnvelopeError (Option T)
  decode_matching codec bytes expected_owner_token =
      if not (is_name token_characters 128 expected_owner_token)
      then raise value_error
      else if ltb codec.max_encoded_size (length bytes)
      then raise size_error
      else and_then
          (wrapped (decode_failure unsupported_format)
            (codec.envelope_format.decode_envelope bytes))
          λ given. and_then (validated_envelope given) (matched codec expected_owner_token)
