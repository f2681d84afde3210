-- ===== src/CacheRedis/Codec/Matches.antt =====
-- A result that a codec encodes is given back to the one who names its owner, and to no one else.
use bluetape_py.Common.{
  ℕ, ◌≡◌, ◌-◌, refl, sym, ap, ◌∙◌, true, false, ◌&&◌, Option, none, some, List, leb, ltb, length,
  Bool-cases, inl, inr,
}
use bluetape_py.Common.Texts.{codes, same_text}
use bluetape_py.Common.Exec.{Result, ok, raise}
use bluetape_py.CacheRedis.Envelope.{
  EnvelopeError, encode_failure, unsupported_format, compression_failure, payload_codec_failure,
  PayloadMetadata, ResultEnvelope, is_name, token_characters, algorithm_characters, new_envelope,
  new_metadata,
}
use bluetape_py.CacheRedis.Binary.{null_length, Utf8, encode}
use bluetape_py.CacheRedis.Binary.RoundTrip.{IsMade, and_then-ok, binary_is_read}
use bluetape_py.CacheRedis.Codec.Registered.{same_text_self, build_reader_registry-writer}
use bluetape_py.CacheRedis.Codec.{
  SerializedPayload, Compressor, EnvelopeFormat, PayloadCodec, wrapped, wrapped_all, exact,
  algorithm_text, algorithm_for, find_reader, build_reader_registry, validated_envelope,
  ResultEnvelopeCodec, new_codec, is_below, binary_format, compressed, within, encode_result,
  decompressed, decode_matching,
}

-- What the parts of a codec promise: they read what they write, and metadata are made by their class.
pub record ReadsBack {T : Type 0} (codec : ResultEnvelopeCodec T) : Type 0 where
  pub reads_format :
      (e : ResultEnvelope) (b : List ℕ)
      → IsMade e
      → e.version ≡ 1
      → codec.envelope_format.encode_envelope e ≡ ok (some b)
      → codec.envelope_format.decode_envelope b ≡ ok (some e)
  pub reads_payload :
      (value : T) (s : SerializedPayload)
      → codec.payload_codec.encode_value value ≡ ok (some s)
      → codec.payload_codec.decode_payload s ≡ ok value
  pub makes_metadata :
      (value : T) (s : SerializedPayload)
      → codec.payload_codec.encode_value value ≡ ok (some s)
      → new_metadata s.metadata.format s.metadata.version s.metadata.content_type
          s.metadata.trust_profile
        ≡ ok s.metadata
  pub decompresses :
      (c : Compressor) (x y : List ℕ)
      → codec.compressor ≡ some c
      → c.compress x ≡ ok (some y)
      → c.decompress y ≡ ok (some x)

-- The registry has the writer under its algorithm.
abbrev pub HasWriter : {T : Type 0} → ResultEnvelopeCodec T → Type 0
HasWriter codec =
    (c : Compressor) (a : List ℕ)
    → codec.compressor ≡ some c
    → algorithm_for c ≡ ok a
    → find_reader a codec.readers ≡ some c

algorithm_for-other :
    (c : Compressor) (a : List ℕ) → algorithm_for c ≡ ok a → same_text a (codes "identity") ≡ false
unfolding algorithm_for
algorithm_for-other c a h = by_text c.algorithm h
  where
    by_text :
        (given : Result EnvelopeError (Option (List ℕ)))
        → algorithm_text given ≡ ok a
        → same_text a (codes "identity") ≡ false
    by_text (raise e) h = absurd (cc h)
    by_text (ok none) h = absurd (cc h)
    by_text (ok (some text)) h = elim (Bool-cases (is_name algorithm_characters 64 text)) [
      | inr x ↦ absurd (cc (rw x at h))
      | inl x ↦ elim (Bool-cases (same_text text (codes "identity"))) [
        | inl y ↦ absurd (cc (rw (x, y) at h))
        | inr y ↦ let same : text ≡ a = cc (rw (x, y) at h) in rw (sym same) y
      ]
    ]

wrapped-ok :
    {A : Type 0} (failure : EnvelopeError) (r : Result EnvelopeError A) (a : A)
    → wrapped failure r ≡ ok a
    → r ≡ ok a
wrapped-ok failure (ok b) a h = h
wrapped-ok failure (raise e) a h = absurd (cc h)

wrapped_all-ok :
    {A : Type 0} (failure : EnvelopeError) (r : Result EnvelopeError A) (a : A)
    → wrapped_all failure r ≡ ok a
    → r ≡ ok a
wrapped_all-ok failure (ok b) a h = h
wrapped_all-ok failure (raise e) a h = absurd (cc h)

exact-ok :
    {A : Type 0} (failure : EnvelopeError) (o : Option A) (a : A)
    → exact failure o ≡ ok a
    → o ≡ some a
exact-ok failure none a h = absurd (cc h)
exact-ok failure (some b) a h = cc h

within-ok :
    (maximum : ℕ) (encoded bytes : List ℕ)
    → within maximum encoded ≡ ok bytes
    → (encoded ≡ bytes) × (ltb maximum (length encoded) ≡ false)
within-ok maximum encoded bytes h = elim (Bool-cases (ltb maximum (length encoded))) [
  | inl x ↦ absurd (cc (rw x at h))
  | inr x ↦ (cc (rw x at h), x)
]

new_envelope-fields :
    (version : ℕ) (owner : List ℕ) (m : PayloadMetadata) (algorithm payload : List ℕ)
    (e : ResultEnvelope)
    → new_envelope version owner m algorithm payload ≡ ok e
    → e ≡ record {
      version = version;
      owner_token = owner;
      metadata = m;
      compression_algorithm = algorithm;
      payload = payload;
    }
unfolding new_envelope
new_envelope-fields version owner m algorithm payload e h = elim (Bool-cases (leb version 0)) [
  | inl x ↦ absurd (cc (rw x at h))
  | inr x ↦ elim (Bool-cases (is_name token_characters 128 owner)) [
    | inr y ↦ absurd (cc (rw (x, y) at h))
    | inl y ↦ elim (Bool-cases (is_name algorithm_characters 64 algorithm)) [
      | inr z ↦ absurd (cc (rw (x, y, z) at h))
      | inl z ↦ sym (cc (rw (x, y, z) at h))
    ]
  ]
]

module _ {T : Type 0} (codec : ResultEnvelopeCodec T) (reads : ReadsBack codec)
    (has : HasWriter codec) where
  compressed-decompressed :
      (w : Option Compressor) (bytes : List ℕ) (parts : List ℕ × List ℕ) (owner : List ℕ)
      (m : PayloadMetadata)
      → codec.compressor ≡ w
      → compressed w bytes ≡ ok parts
      → decompressed codec.readers (record {
        version = 1;
        owner_token = owner;
        metadata = m;
        compression_algorithm = parts.0;
        payload = parts.1;
      })
        ≡ ok bytes
  unfolding compressed decompressed
  compressed-decompressed none bytes parts owner m e h =
      let same : (codes "identity", bytes) ≡ parts = cc h in
      rw (sym same) (rw (same_text_self (codes "identity")) refl)
  compressed-decompressed (some c) bytes parts owner m e h =
      let (a, named, h1) = and_then-ok (algorithm_for c) _ parts h in
      let (given, packed, h2) =
        and_then-ok (wrapped_all (encode_failure compression_failure) (c.compress bytes)) _ parts
          h1 in
      let (payload, is, h3) =
        and_then-ok (exact (encode_failure compression_failure) given) _ parts h2 in
      let same : (a, payload) ≡ parts = cc h3 in
      let wrote : c.compress bytes ≡ ok (some payload) =
        wrapped_all-ok _ _ given packed ∙ ap ok (exact-ok _ given payload is) in
      rw (sym same) (
        rw (algorithm_for-other c a named)
          (rw (has c a e named) (rw (reads.decompresses c bytes payload e wrote) refl)))

  -- what an encoded result is made of, as its format gives it back
  record Written (owner : List ℕ) (value : T) (bytes : List ℕ) : Type 0 where
    metadata : PayloadMetadata
    parts : List ℕ × List ℕ
    logical : List ℕ
    decoded :
        codec.envelope_format.decode_envelope bytes
        ≡ ok (
            some (record {
              version = 1;
              owner_token = owner;
              metadata = metadata;
              compression_algorithm = parts.0;
              payload = parts.1;
            }))
    valid :
        new_envelope 1 owner metadata parts.0 parts.1
        ≡ ok (record {
          version = 1;
          owner_token = owner;
          metadata = metadata;
          compression_algorithm = parts.0;
          payload = parts.1;
        })
    unpacked :
        decompressed codec.readers (record {
          version = 1;
          owner_token = owner;
          metadata = metadata;
          compression_algorithm = parts.0;
          payload = parts.1;
        })
        ≡ ok logical
    given_back :
        codec.payload_codec.decode_payload (record { metadata = metadata; bytes = logical })
        ≡ ok value
    token : is_name token_characters 128 owner ≡ true
    fits : ltb codec.max_encoded_size (length bytes) ≡ false

  stored_result :
      (owner : List ℕ) (value : T) (s : SerializedPayload) (parts : List ℕ × List ℕ)
      (e : ResultEnvelope) (encoded bytes : List ℕ)
      → codec.payload_codec.encode_value value ≡ ok (some s)
      → compressed codec.compressor s.bytes ≡ ok parts
      → new_envelope 1 owner s.metadata parts.0 parts.1 ≡ ok e
      → codec.envelope_format.encode_envelope e ≡ ok (some encoded)
      → is_name token_characters 128 owner ≡ true
      → encoded ≡ bytes
      → ltb codec.max_encoded_size (length encoded) ≡ false
      → Written owner value bytes
  stored_result owner value s parts e encoded bytes stored packed made wrote token same fits =
      let fields = new_envelope-fields 1 owner s.metadata parts.0 parts.1 e made in
      let made' = rw fields at made in
      record {
        metadata = s.metadata;
        parts = parts;
        logical = s.bytes;
        decoded = rw (sym same) (
            reads.reads_format _ encoded (reads.makes_metadata value s stored, made') refl
              (rw fields at wrote));
        valid = made';
        unpacked =
            compressed-decompressed codec.compressor s.bytes parts owner s.metadata refl packed;
        given_back = reads.reads_payload value s stored;
        token = token;
        fits = rw (sym same) fits;
      }

  encode_result-Written :
      (owner : List ℕ) (value : T) (bytes : List ℕ)
      → encode_result codec owner value ≡ ok bytes
      → Written owner value bytes
  unfolding encode_result
  encode_result-Written owner value bytes h =
      elim (Bool-cases (is_name token_characters 128 owner)) [
        | inr x ↦ absurd (cc (rw x at h))
        | inl x ↦
            let (given, g, h1) =
              and_then-ok
                (wrapped (encode_failure payload_codec_failure)
                  (codec.payload_codec.encode_value value))
                _ bytes (rw x at h) in
            let (s, is, h2) =
              and_then-ok (exact (encode_failure payload_codec_failure) given) _ bytes h1 in
            let (parts, packed, h3) =
              and_then-ok (compressed codec.compressor s.bytes) _ bytes h2 in
            let (e, made, h4) =
              and_then-ok (new_envelope 1 owner s.metadata parts.0 parts.1) _ bytes h3 in
            let (written, w, h5) =
              and_then-ok
                (wrapped (encode_failure unsupported_format)
                  (codec.envelope_format.encode_envelope e))
                _ bytes h4 in
            let (encoded, is', h6) =
              and_then-ok (exact (encode_failure unsupported_format) written) _ bytes h5 in
            let (same, fits) = within-ok codec.max_encoded_size encoded bytes h6 in
            let stored : codec.payload_codec.encode_value value ≡ ok (some s) =
              wrapped-ok _ _ given g ∙ ap ok (exact-ok _ given s is) in
            let wrote : codec.envelope_format.encode_envelope e ≡ ok (some encoded) =
              wrapped-ok _ _ written w ∙ ap ok (exact-ok _ written encoded is') in
            stored_result owner value s parts e encoded bytes stored packed made wrote x same fits
      ]

  -- of a codec whose registry has its compressor
  matched_by_owner :
      (owner : List ℕ) (value : T) (bytes : List ℕ)
      → encode_result codec owner value ≡ ok bytes
      → (decode_matching codec bytes owner ≡ ok (some value))
        × ((other : List ℕ)
            → is_name token_characters 128 other ≡ true
            → same_text owner other ≡ false
            → decode_matching codec bytes other ≡ ok none)
  unfolding decode_matching validated_envelope
  matched_by_owner owner value bytes h =
      let w = encode_result-Written owner value bytes h in
      (
        rw (w.token, w.fits)
            (rw (w.decoded) (
              rw (w.valid) (rw (same_text_self owner) (rw (w.unpacked) (rw (w.given_back) refl))))),
        λ other token differs. rw (token, w.fits) (rw (w.decoded) (rw (w.valid) (rw differs refl))),
      )

module _ {T : Type 0} (payload_codec : PayloadCodec T) (format : EnvelopeFormat)
    (compressor : Option Compressor) (decompressors : List Compressor) (maximum : ℕ)
    (codec : ResultEnvelopeCodec T)
    (built : new_codec payload_codec format compressor decompressors maximum ≡ ok codec) where
  new_codec-HasWriter : HasWriter codec
  unfolding new_codec
  new_codec-HasWriter c a e named =
      elim (Bool-cases (leb 1 maximum && leb maximum (null_length - 1))) [
        | inr x ↦ absurd (cc (rw x at built))
        | inl x ↦ elim (Bool-cases (is_below format.bound maximum)) [
          | inl y ↦ absurd (cc (rw (x, y) at built))
          | inr y ↦
              let (registry, made, h) =
                and_then-ok (build_reader_registry compressor decompressors) _ codec
                  (rw (x, y) at built) in
              let same : record {
                payload_codec = payload_codec;
                envelope_format = format;
                compressor = compressor;
                max_encoded_size = maximum;
                readers = registry;
              }
                  ≡ codec =
                cc h in
              let writer : compressor ≡ some c = ap (λ k. k.compressor) same ∙ e in
              let whole : codec.readers ≡ registry = sym (ap (λ k. k.readers) same) in
              let made' : build_reader_registry (some c) decompressors ≡ ok registry =
                cc (ap (λ k. build_reader_registry k decompressors) writer, made) in
              rw whole (build_reader_registry-writer c a decompressors registry named made')
        ]
      ]

  -- Where the parts of a codec read what they write, a result that the codec encodes for an owner is given
  -- back to who names this owner, through the compressor that its registry has, and nothing is given to who
  -- names another.
  pub encoded_is_matched :
      (owner : List ℕ) (value : T) (bytes : List ℕ)
      → ReadsBack codec
      → encode_result codec owner value ≡ ok bytes
      → (decode_matching codec bytes owner ≡ ok (some value))
        × ((other : List ℕ)
            → is_name token_characters 128 other ≡ true
            → same_text owner other ≡ false
            → decode_matching codec bytes other ≡ ok none)
  encoded_is_matched owner value bytes reads h =
      matched_by_owner codec reads new_codec-HasWriter owner value bytes h

-- the binary format as a part of a codec
pub binary-reads :
    (utf8 : Utf8) (reads : (t b : List ℕ) → utf8.encode t ≡ some b → utf8.decode b ≡ some t)
    (maximum : ℕ) (e : ResultEnvelope) (b : List ℕ)
    → IsMade e
    → e.version ≡ 1
    → (binary_format utf8 maximum).encode_envelope e ≡ ok (some b)
    → (binary_format utf8 maximum).decode_envelope b ≡ ok (some e)
binary-reads utf8 reads maximum e b made one h =
    let (given, wrote, last) = and_then-ok (encode utf8 maximum e) _ (some b) h in
    let same : given ≡ b = cc last in
    rw (binary_is_read utf8 reads maximum e b made one (wrote ∙ ap ok same)) refl
