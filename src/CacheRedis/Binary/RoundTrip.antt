-- ===== src/CacheRedis/Binary/RoundTrip.antt =====
-- An envelope that is encoded is decoded to itself.
use Prim.Native.Nat.{◌^◌}
use bluetape_py.Common.{
  ℕ, ◌+◌, ◌-◌, ◌*◌, ◌/◌, ◌%◌, ◌≤◌, ◌<◌, ◌≡◌, refl, sym, true, false, ◌&&◌, Option, none, some,
  Option-cases, List, [], ◌∷◌, ◌++◌, leb, ltb, length, ◌==◌, Bool-cases, inl, inr, arith,
}
use bluetape_py.Common.Texts.{codes, same_text, is_ascii}
use bluetape_py.Common.Exec.{Result, ok, raise}
use bluetape_py.CacheRedis.Envelope.{
  EnvelopeError, TrustProfile, untrusted, trusted_internal, ResultEnvelope, is_name,
  token_characters, format_characters, algorithm_characters, new_metadata, new_envelope,
  trust_value, trust_of,
}
use bluetape_py.CacheRedis.Binary.{
  Utf8, null_length, pack_u32, unpack_u32, split_at, take_bytes, read_u32, read_required_text,
  read_content_type, read_version, read_payload, check_end, read_envelope, decode, and_then, ascii,
  encoded_text, field, content_field, output, write_output, encoded_content, encode, any_over,
  total, content_length,
}

split_at-append : (xs rest : List ℕ) → split_at (length xs) (xs ++ rest) ≡ (xs, rest)
unfolding split_at
split_at-append [] rest = refl
split_at-append (x ∷ xs) rest = rw (split_at-append xs rest) refl

length-append_le : (xs rest : List ℕ) → length xs ≤ length (xs ++ rest)
length-append_le [] rest = omega arith
length-append_le (x ∷ xs) rest = omega (arith, length-append_le xs rest)

take_bytes-append : (xs rest : List ℕ) → take_bytes (length xs) (xs ++ rest) ≡ (ok xs, rest)
unfolding take_bytes
take_bytes-append xs rest =
    let enough : ltb (length (xs ++ rest)) (length xs) ≡ false =
      ground (arith, length-append_le xs rest) in
    rw (enough, split_at-append xs rest) refl

read_u32-pack_u32 : (n : ℕ) (rest : List ℕ) → n < 2 ^ 32 → read_u32 (pack_u32 n rest) ≡ (ok n, rest)
unfolding pack_u32 unpack_u32
read_u32-pack_u32 n rest small =
    let raw = n / 2 ^ 24 % 256 ∷ n / 2 ^ 16 % 256 ∷ n / 2 ^ 8 % 256 ∷ n % 256 ∷ [] in
    let same : ((n / 2 ^ 24 % 256 * 256 + n / 2 ^ 16 % 256) * 256 + n / 2 ^ 8 % 256) * 256 + n % 256
        ≡ n =
      omega arith in
    rw (take_bytes-append raw rest) (rw same refl)

read_required_text-field :
    (maximum : ℕ) (value rest : List ℕ)
    → 1 ≤ length value
    → length value ≤ maximum
    → maximum < 2 ^ 32
    → is_ascii value ≡ true
    → read_required_text maximum (field value rest) ≡ (ok value, rest)
unfolding read_required_text
read_required_text-field maximum value rest low high small plain =
    let fits : (leb 1 (length value) && leb (length value) maximum) ≡ true = ground arith in
    rw (read_u32-pack_u32 (length value) (value ++ rest) (omega arith))
      (rw fits (rw (take_bytes-append value rest) (rw plain refl)))

module _ (utf8 : Utf8)
    (reads : (t b : List ℕ) → utf8.encode t ≡ some b → utf8.decode b ≡ some t) where
  read_content_type-none :
      (rest : List ℕ) → read_content_type utf8 (content_field none rest) ≡ (ok none, rest)
  unfolding read_content_type
  read_content_type-none rest = rw (read_u32-pack_u32 null_length rest (omega arith)) refl

  read_content_type-some :
      (value encoded rest : List ℕ)
      → utf8.encode value ≡ some encoded
      → length encoded ≤ 1024
      → read_content_type utf8 (content_field (some encoded) rest) ≡ (ok (some value), rest)
  unfolding read_content_type
  read_content_type-some value encoded rest e high =
      let listed : (length encoded == null_length) ≡ false = ground arith in
      let fits : ltb 1024 (length encoded) ≡ false = ground arith in
      rw (read_u32-pack_u32 (length encoded) (encoded ++ rest) (omega arith))
        (rw (listed, fits) (rw (take_bytes-append encoded rest) (rw (reads value encoded e) refl)))

  read_version-first :
      (rest : List ℕ) → read_version utf8 (codes "BTRE" ++ (1 ∷ rest)) ≡ (ok 1, rest)
  unfolding read_version same_text
  read_version-first rest =
      rw (take_bytes-append (codes "BTRE") (1 ∷ rest)) (rw (take_bytes-append (1 ∷ []) rest) refl)

  read_payload-field :
      (payload : List ℕ)
      → length payload < 2 ^ 32
      → read_payload utf8 (field payload []) ≡ (ok payload, [])
  unfolding read_payload
  read_payload-field payload small =
      rw (read_u32-pack_u32 (length payload) (payload ++ []) small) (take_bytes-append payload [])

  -- what is written of the content type is read back
  abbrev IsContent : Option (List ℕ) → Option (List ℕ) → Type 0
  IsContent value encoded =
      (rest : List ℕ) → read_content_type utf8 (content_field encoded rest) ≡ (ok value, rest)

is_name-bounds :
    (alphabet : List ℕ) (maximum : ℕ) (value : List ℕ)
    → is_name alphabet maximum value ≡ true
    → (1 ≤ length value) × (length value ≤ maximum)
unfolding is_name
is_name-bounds alphabet maximum value h = (ground arith, ground arith)

trust_of-trust_value : (t : TrustProfile) → trust_of (trust_value t) ≡ ok t
unfolding trust_of same_text
trust_of-trust_value untrusted = refl
trust_of-trust_value trusted_internal = refl

trust_value-ascii :
    (t : TrustProfile)
    → (1 ≤ length (trust_value t))
      × (length (trust_value t) ≤ 64)
      × (is_ascii (trust_value t) ≡ true)
unfolding is_ascii
trust_value-ascii untrusted = (omega arith, omega arith, refl)
trust_value-ascii trusted_internal = (omega arith, omega arith, refl)

-- a text that is encoded in ASCII is its own encoding
encoded_text-ascii :
    (value b : List ℕ) (maximum : ℕ)
    → encoded_text (ascii value) maximum ≡ ok b
    → (b ≡ value) × (is_ascii value ≡ true)
encoded_text-ascii value b maximum h = elim (Bool-cases (is_ascii value)) [
  | inr x ↦ absurd (cc (rw x at h))
  | inl x ↦ elim (Bool-cases (ltb maximum (length value))) [
    | inl y ↦ absurd (cc (rw (x, y) at h))
    | inr y ↦ (sym (cc (rw (x, y) at h)), x)
  ]
]

pub and_then-ok :
    {A B : Type 0} (r : Result EnvelopeError A) (f : A → Result EnvelopeError B) (b : B)
    → and_then r f ≡ ok b
    → (a : A) × (r ≡ ok a) × (f a ≡ ok b)
and_then-ok (ok a) f b h = (a, refl, h)
and_then-ok (raise e) f b h = absurd (cc h)

-- The object is one that its class made.
abbrev pub IsMade : ResultEnvelope → Type 0
IsMade e =
    (new_metadata e.metadata.format e.metadata.version e.metadata.content_type
        e.metadata.trust_profile
      ≡ ok e.metadata)
    × (new_envelope e.version e.owner_token e.metadata e.compression_algorithm e.payload ≡ ok e)

IsMade-names :
    (e : ResultEnvelope)
    → IsMade e
    → (is_name format_characters 64 e.metadata.format ≡ true)
      × (is_name token_characters 128 e.owner_token ≡ true)
      × (is_name algorithm_characters 64 e.compression_algorithm ≡ true)
unfolding new_metadata new_envelope
IsMade-names e (m, n) = elim (Bool-cases (is_name format_characters 64 e.metadata.format)) [
  | inr x ↦ absurd (cc (rw x at m))
  | inl x ↦ elim (Bool-cases (leb e.version 0)) [
    | inl v ↦ absurd (cc (rw v at n))
    | inr v ↦ elim (Bool-cases (is_name token_characters 128 e.owner_token)) [
      | inr y ↦ absurd (cc (rw (v, y) at n))
      | inl y ↦ elim (Bool-cases (is_name algorithm_characters 64 e.compression_algorithm)) [
        | inr z ↦ absurd (cc (rw (v, y, z) at n))
        | inl z ↦ (x, y, z)
      ]
    ]
  ]
]

write_output-ok :
    (maximum : ℕ) (e : ResultEnvelope) (owner serde_format : List ℕ)
    (content_type : Option (List ℕ)) (trust_profile algorithm bytes : List ℕ)
    → write_output maximum e owner serde_format content_type trust_profile algorithm ≡ ok bytes
    → (bytes ≡ output e owner serde_format content_type trust_profile algorithm)
      × (length e.payload < 2 ^ 32)
      × (e.metadata.version < 2 ^ 32)
      × (ltb maximum (length bytes) ≡ false)
unfolding write_output
write_output-ok maximum e owner serde_format content_type trust_profile algorithm bytes h =
    elim (Bool-cases (
      any_over (null_length - 1)
        (owner ∷ serde_format ∷ trust_profile ∷ algorithm ∷ e.payload ∷ []))) [
          | inl a ↦ absurd (cc (rw a at h))
          | inr a ↦
              elim (Bool-cases (
                ltb maximum (
                  33
                  + total (owner ∷ serde_format ∷ trust_profile ∷ algorithm ∷ e.payload ∷ [])
                  + content_length content_type))) [
                    | inl b ↦ absurd (cc (rw (a, b) at h))
                    | inr b ↦ elim (Bool-cases (ltb 255 e.version)) [
                      | inl c ↦ absurd (cc (rw (a, b, c) at h))
                      | inr c ↦ elim (Bool-cases (leb (2 ^ 32) e.metadata.version)) [
                        | inl d ↦ absurd (cc (rw (a, b, c, d) at h))
                        | inr d ↦
                            elim (Bool-cases (
                              ltb maximum (
                                length (
                                  output e owner serde_format content_type trust_profile
                                    algorithm)))) [
                                      | inl f ↦ absurd (cc (rw (a, b, c, d, f) at h))
                                      | inr f ↦
                                          let same : bytes
                                              ≡ output e owner serde_format content_type
                                                  trust_profile algorithm =
                                            sym (cc (rw (a, b, c, d, f) at h)) in
                                          (same, ground (arith, a), ground (arith, d), rw same f)
                                    ]
                      ]
                    ]
                  ]
        ]

module _ (utf8 : Utf8)
    (reads : (t b : List ℕ) → utf8.encode t ≡ some b → utf8.decode b ≡ some t) where
  encoded_content-IsContent :
      (value encoded : Option (List ℕ))
      → encoded_content utf8 value ≡ ok encoded
      → IsContent utf8 reads value encoded
  encoded_content-IsContent none encoded h =
      let same : none ≡ encoded = cc h in rw (sym same) (read_content_type-none utf8 reads)
  encoded_content-IsContent (some value) encoded h = elim (Option-cases (utf8.encode value)) [
    | inl e ↦ absurd (cc (rw e at h))
    | inr (b, e) ↦ elim (Bool-cases (ltb 1024 (length b))) [
      | inl x ↦ absurd (cc (rw (e, x) at h))
      | inr x ↦
          let same : some b ≡ encoded = cc (rw (e, x) at h) in
          rw (sym same)
            (λ rest. read_content_type-some utf8 reads value b rest e (ground (arith, x)))
    ]
  ]

  read_envelope-output :
      (e : ResultEnvelope) (content_type : Option (List ℕ))
      → IsMade e
      → e.version ≡ 1
      → is_ascii e.owner_token ≡ true
      → is_ascii e.metadata.format ≡ true
      → is_ascii e.compression_algorithm ≡ true
      → IsContent utf8 reads e.metadata.content_type content_type
      → length e.payload < 2 ^ 32
      → e.metadata.version < 2 ^ 32
      → (read_envelope utf8 (
          output e e.owner_token e.metadata.format content_type
            (trust_value e.metadata.trust_profile)
            e.compression_algorithm)).0
        ≡ ok e
  unfolding read_envelope output check_end
  read_envelope-output e content_type made one owner format algorithm content payload version =
      let (f, o, a) = IsMade-names e made in
      let (f1, f2) = is_name-bounds _ _ _ f in
      let (o1, o2) = is_name-bounds _ _ _ o in
      let (a1, a2) = is_name-bounds _ _ _ a in
      let (t1, t2, t3) = trust_value-ascii e.metadata.trust_profile in
      rw one (
        rw (read_version-first utf8 reads _) (
          rw (read_required_text-field 128 e.owner_token _ o1 o2 (omega arith) owner) (
            rw (read_required_text-field 64 e.metadata.format _ f1 f2 (omega arith) format) (
              rw (read_u32-pack_u32 e.metadata.version _ version) (
                rw (content _) (
                  rw
                    (read_required_text-field 64 (trust_value e.metadata.trust_profile) _ t1 t2
                      (omega arith) t3)
                    (rw
                      (read_required_text-field 64 e.compression_algorithm _ a1 a2 (omega arith)
                        algorithm)
                      (rw (read_payload-field utf8 reads e.payload payload) (
                        rw (trust_of-trust_value e.metadata.trust_profile)
                          (rw (made.0) (rw one at made.1)))))))))))

  -- Where UTF-8 decodes what it encodes, an envelope of version 1 that the binary format encodes within its
  -- bound is decoded, within the same bound, to this very envelope.
  pub binary_is_read :
      (maximum : ℕ) (e : ResultEnvelope) (bytes : List ℕ)
      → IsMade e
      → e.version ≡ 1
      → encode utf8 maximum e ≡ ok bytes
      → decode utf8 maximum bytes ≡ ok e
  unfolding encode decode
  binary_is_read maximum e bytes made one written =
      let (owner, o, s1) = and_then-ok (encoded_text (ascii e.owner_token) 128) _ bytes written in
      let (format, f, s2) = and_then-ok (encoded_text (ascii e.metadata.format) 64) _ bytes s1 in
      let (content_type, c, s3) =
        and_then-ok (encoded_content utf8 e.metadata.content_type) _ bytes s2 in
      let (trust, t, s4) =
        and_then-ok (encoded_text (ascii (trust_value e.metadata.trust_profile)) 64) _ bytes s3 in
      let (algorithm, a, s5) =
        and_then-ok (encoded_text (ascii e.compression_algorithm) 64) _ bytes s4 in
      let (o1, o2) = encoded_text-ascii _ _ _ o in
      let (f1, f2) = encoded_text-ascii _ _ _ f in
      let (t1, t2) = encoded_text-ascii _ _ _ t in
      let (a1, a2) = encoded_text-ascii _ _ _ a in
      let (same, payload, version, fits) =
        write_output-ok maximum e owner format content_type trust algorithm bytes s5 in
      let read =
        read_envelope-output e content_type made one o2 f2 a2 (encoded_content-IsContent _ _ c)
          payload version in
      let same' : bytes
          ≡ output e e.owner_token e.metadata.format content_type
              (trust_value e.metadata.trust_profile) e.compression_algorithm =
        cc (same, o1, f1, t1, a1) in
      rw fits (rw same' (rw read refl))
