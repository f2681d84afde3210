-- ===== src/CacheRedis/Examples.antt =====
-- Tests of envelopes, whose texts are all ASCII.
use bluetape_py.Common.{
  none, Option, true, false, ℕ, ◌≡◌, refl, sym, ap, ◌∙◌, some, List, [], ◌∷◌, ◌++◌,
}
use bluetape_py.Common.Texts.{codes, same_text, is_ascii, is_among}
use bluetape_py.Common.Exec.{Result, ok, raise}
use bluetape_py.CacheRedis.Envelope.{
  EnvelopeError, exception, token_characters, ResultEnvelope, untrusted, size_error, malformed,
  unsupported_version, are_from, is_name, new_metadata, new_envelope, trust_of,
}
use bluetape_py.CacheRedis.Binary.{
  Utf8, pack_u32, unpack_u32, split_at, take_bytes, read_required_text, read_content_type,
  read_version, read_payload, check_end, read_envelope, decode, output, write_output, encode,
}
use bluetape_py.CacheRedis.Codec.{
  Compressor, PayloadCodec, binary_format, ResultEnvelopeCodec, algorithm_for, find_reader,
  add_readers, build_reader_registry, validated_envelope, new_codec, compressed, encode_result,
  decompressed, decode_matching,
}
use bluetape_py.CacheRedis.Codec.Matches.{ReadsBack, encoded_is_matched, binary-reads}
use bluetape_py.CacheRedis.Binary.RoundTrip.{binary_is_read}

abbrev ascii_only : Utf8
ascii_only = record { encode = λ t. some t; decode = λ b. some b }

abbrev sample : ResultEnvelope
sample = record {
  version = 1;
  owner_token = codes "worker-1";
  metadata = record {
    format = codes "json";
    version = 3;
    content_type = some (codes "text");
    trust_profile = untrusted;
  };
  compression_algorithm = codes "identity";
  payload = codes "[1]";
}

abbrev sample_bytes : List ℕ
sample_bytes =
    output sample (codes "worker-1") (codes "json") (some (codes "text")) (codes "untrusted")
      (codes "identity")

-- a compressor that only writes a 0 before the bytes
abbrev unpacked : List ℕ → Result EnvelopeError (Option (List ℕ))
unpacked [] = raise (exception 1)
unpacked (c ∷ bytes) = ok (some bytes)

abbrev padding : Compressor
padding = record {
  algorithm = ok (some (codes "pad"));
  compress = λ bytes. ok (some (0 ∷ bytes));
  decompress = unpacked;
}

abbrev read_number : List ℕ → Result EnvelopeError ℕ
read_number [] = raise (exception 2)
read_number (n ∷ bytes) = ok n

abbrev numbers : PayloadCodec ℕ
numbers = record {
  encode_value = λ n. ok (some (record { metadata = sample.metadata; bytes = n ∷ [] }));
  decode_payload = λ s. read_number s.bytes;
}

abbrev codec : ResultEnvelopeCodec ℕ
codec = record {
  payload_codec = numbers;
  envelope_format = binary_format ascii_only 100;
  compressor = some padding;
  max_encoded_size = 100;
  readers = (codes "pad", padding) ∷ [];
}

program : Unit {0}
unfolding same_text is_ascii is_among are_from is_name new_metadata new_envelope trust_of pack_u32
    unpack_u32 split_at take_bytes read_required_text read_content_type read_version read_payload
    check_end read_envelope decode output write_output encode algorithm_for find_reader add_readers
    build_reader_registry validated_envelope new_codec compressed encode_result decompressed
    decode_matching
program = tt

-- 69 bytes are written, and one less is too few
writes : encode ascii_only 69 sample ≡ ok sample_bytes
unfolding program
writes = refl

too_large : encode ascii_only 68 sample ≡ raise size_error
unfolding program
too_large = refl

-- a byte more at the end is refused, and so is another version
one_more : decode ascii_only 100 (sample_bytes ++ (0 ∷ [])) ≡ raise malformed
unfolding program
one_more = refl

another_version : decode ascii_only 100 (codes "BTRE" ++ (2 ∷ [])) ≡ raise unsupported_version
unfolding program
another_version = refl

binary_is_read_example : decode ascii_only 69 sample_bytes ≡ ok sample
unfolding program
binary_is_read_example =
    binary_is_read ascii_only (λ t b e. sym e) 69 sample sample_bytes (refl, refl) refl refl

codec-ReadsBack : ReadsBack codec
unfolding program
codec-ReadsBack = record {
  reads_format = λ e b made one h. binary-reads ascii_only (λ t b e. sym e) 100 e b made one h;
  reads_payload = λ value s h.
      let same : record { metadata = sample.metadata; bytes = value ∷ [] } ≡ s = cc h in
      rw (sym same) refl;
  makes_metadata = λ value s h.
      let same : record { metadata = sample.metadata; bytes = value ∷ [] } ≡ s = cc h in
      rw (sym same) refl;
  decompresses = λ c x y e h.
      let same : padding ≡ c = cc e in
      let packed : padding.compress x ≡ ok (some y) = ap (λ k. k.compress x) same ∙ h in
      let bytes : 0 ∷ x ≡ y = cc packed in rw (sym same) (rw (sym bytes) refl);
}

abbrev result_bytes : List ℕ
result_bytes =
    output (record sample { compression_algorithm = codes "pad"; payload = 0 ∷ 42 ∷ [] })
      (codes "worker-1") (codes "json") (some (codes "text")) (codes "untrusted") (codes "pad")

encoded_is_matched_example :
    (decode_matching codec result_bytes (codes "worker-1") ≡ ok (some 42))
    × ((other : List ℕ)
        → is_name token_characters 128 other ≡ true
        → same_text (codes "worker-1") other ≡ false
        → decode_matching codec result_bytes other ≡ ok none)
unfolding program
encoded_is_matched_example =
    encoded_is_matched numbers (binary_format ascii_only 100) (some padding) [] 100 codec refl
      (codes "worker-1") 42 result_bytes codec-ReadsBack refl
