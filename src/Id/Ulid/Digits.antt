-- ===== src/Id/Ulid/Digits.antt =====
-- The digits of a ULID are read back, and every accepted text is the one that its number is written as.
use Prim.Native.Nat.{◌^◌}
use bluetape_py.Common.{
  ℕ, zero, suc, ◌+◌, ◌-◌, ◌*◌, ◌/◌, ◌%◌, ◌≤◌, ◌<◌, ◌≡◌, ◌↔◌, refl, ap, ◌∙◌, inl, inr, Bool, true,
  false, ◌&&◌, Bool-cases, none, some, Option-cases, List, [], ◌∷◌, ◌++◌, arith, ◌==◌, length,
}
use mathlib.Core.List.{append-nil}
use native.Mathlib.Decide.{ℕ_discrete}
use bluetape_py.Common.Exec.{Result, ok, raise}
use bluetape_py.Id.{IdError}
use bluetape_py.Id.Ulid.{
  alphabet, get_or, symbol, position, digit_of, encode_loop, encode, decode_loop, decode,
  check_range, text, parse_ulid, ulid_timestamp_ms,
}

-- the numbers that fit in so many digits
abbrev pub places : ℕ → ℕ
places zero = 1
places (suc k) = 32 * places k

-- A property of small numbers, by evaluation.
unfoldable pub checks : (ℕ → Bool) → ℕ → Bool
checks test zero = true
checks test (suc bound) = checks test bound && test bound

pub checks-at :
    (test : ℕ → Bool) {bound digit : ℕ}
    → digit < bound
    → checks test bound ≡ true
    → test digit ≡ true
unfolding checks
checks-at test {bound = zero} fits passed = absurd (omega arith)
checks-at test {bound = suc bound} {digit} fits passed = elim (ℕ_discrete digit bound) [
  | yes last ↦ ground arith
  | no other ↦ checks-at test {bound = bound} (omega arith) (ground arith)
]

abbrev reads : ℕ → Bool
reads digit = elim (digit_of (symbol digit)) [ none ↦ false | some e ↦ e == digit ]

reads_table : checks reads 32 ≡ true
unfolding checks symbol digit_of position
reads_table = refl

digit_of-symbol : (digit : ℕ) → digit < 32 → digit_of (symbol digit) ≡ some digit
digit_of-symbol digit h = ground (arith, checks-at reads h reads_table)

position-some :
    (c i : ℕ) (xs : List ℕ) (digit : ℕ)
    → position c i xs ≡ some digit
    → (i ≤ digit) × (digit < i + length xs) × (get_or b'0' xs (digit - i) ≡ c)
unfolding position
position-some c i [] digit h = cc
position-some c i (x ∷ xs) digit h = elim (Bool-cases (x == c)) [
  | inl e ↦
      let same : i ≡ digit = ground arith in
      let at : digit - i ≡ 0 = omega arith in (omega arith, omega arith, rw at (ground arith))
  | inr e ↦
      let rest = position-some c (suc i) xs digit (ground arith) in
      let at : digit - i ≡ suc (digit - suc i) = omega arith in
      (omega arith, omega arith, rw at rest.2)
]

symbol-digit_of : (c digit : ℕ) → digit_of c ≡ some digit → (digit < 32) × (symbol digit ≡ c)
unfolding symbol digit_of
symbol-digit_of c digit h =
    let found = position-some c 0 alphabet digit h in
    let same : digit - 0 ≡ digit = omega arith in (omega (arith, found.1), rw same at found.2)

decode_loop-symbol :
    (acc digit : ℕ) (value : List ℕ)
    → digit < 32
    → decode_loop acc (symbol digit ∷ value) ≡ decode_loop (acc * 32 + digit) value
unfolding decode_loop
decode_loop-symbol acc digit value h = rw (digit_of-symbol digit h, decode_loop)

decode_loop-encode_loop :
    (k v : ℕ) (out : List ℕ)
    → v < places k
    → decode_loop 0 (encode_loop k v out) ≡ decode_loop v out
unfolding encode_loop
decode_loop-encode_loop zero v out h = let none_left : v ≡ 0 = omega arith in rw none_left
decode_loop-encode_loop (suc k) v out h =
    let whole : v / 32 * 32 + v % 32 ≡ v = omega arith in
    decode_loop-encode_loop k (v / 32) (symbol (v % 32) ∷ out) (omega arith)
    ∙ decode_loop-symbol (v / 32) (v % 32) out (omega arith)
    ∙ ap (λ n. decode_loop n out) whole

pub length-encode_loop : (k v : ℕ) (out : List ℕ) → length (encode_loop k v out) ≡ k + length out
unfolding encode_loop
length-encode_loop zero v out = omega arith
length-encode_loop (suc k) v out =
    omega (arith, length-encode_loop k (v / 32) (symbol (v % 32) ∷ out))

-- what is written is read back
decode-encode :
    (timestamp randomness : ℕ)
    → timestamp < 2 ^ 48
    → randomness < 2 ^ 80
    → decode (encode timestamp randomness) ≡ ok (timestamp * 2 ^ 80 + randomness)
unfolding decode encode decode_loop
decode-encode t r ht hr =
    let fits : t * 2 ^ 80 + r < 2 ^ 128 = omega arith in
    rw (decode_loop-encode_loop 26 (t * 2 ^ 80 + r) [] (omega arith)) (ground arith)

ulid_timestamp_ms-encode :
    (timestamp randomness : ℕ)
    → timestamp < 2 ^ 48
    → randomness < 2 ^ 80
    → ulid_timestamp_ms (text (encode timestamp randomness)) ≡ ok timestamp
unfolding ulid_timestamp_ms parse_ulid
ulid_timestamp_ms-encode t r ht hr =
    let size : length (encode t r) ≡ 26 =
      unfold encode in length-encode_loop 26 (t * 2 ^ 80 + r) [] in
    let whole : (t * 2 ^ 80 + r) / 2 ^ 80 ≡ t = omega arith in
    let read = decode-encode t r ht hr in rw (size, read) (rw read (ap ok whole))

-- What is written of a 48-bit timestamp and of 80 bits of randomness is read back as both, and
-- `ulid_timestamp_ms` gives back the timestamp.
pub encode_is_read :
    (timestamp randomness : ℕ)
    → timestamp < 2 ^ 48
    → randomness < 2 ^ 80
    → (decode (encode timestamp randomness) ≡ ok (timestamp * 2 ^ 80 + randomness))
      × (ulid_timestamp_ms (text (encode timestamp randomness)) ≡ ok timestamp)
encode_is_read t r ht hr = (decode-encode t r ht hr, ulid_timestamp_ms-encode t r ht hr)

encode_loop-decode_loop :
    (k acc n : ℕ) (value out : List ℕ)
    → decode_loop acc value ≡ ok n
    → encode_loop (k + length value) n out ≡ encode_loop k acc (value ++ out)
unfolding decode_loop
encode_loop-decode_loop k acc n [] out h =
    let same : acc ≡ n = cc in let size : k + 0 ≡ k = omega arith in rw (same, size)
encode_loop-decode_loop k acc n (c ∷ value) out h = elim (Option-cases (digit_of c)) [
  | inl e ↦ absurd (ground arith)
  | inr (digit, e) ↦
      let known = symbol-digit_of c digit e in
      let size : k + suc (length value) ≡ suc k + length value = omega arith in
      let high : (acc * 32 + digit) / 32 ≡ acc = omega (arith, known.0) in
      let low : (acc * 32 + digit) % 32 ≡ digit = omega (arith, known.0) in
      let step : encode_loop (suc k) (acc * 32 + digit) (value ++ out)
          ≡ encode_loop k acc (c ∷ value ++ out) =
        unfold encode_loop in rw (high, low, known.1) in
      rw size (encode_loop-decode_loop (suc k) (acc * 32 + digit) n value out (ground arith) ∙ step)
]

parse_ulid-encode :
    (timestamp randomness : ℕ)
    → timestamp < 2 ^ 48
    → randomness < 2 ^ 80
    → parse_ulid (text (encode timestamp randomness)) ≡ ok (encode timestamp randomness)
unfolding parse_ulid
parse_ulid-encode t r ht hr =
    let size : length (encode t r) ≡ 26 =
      unfold encode in length-encode_loop 26 (t * 2 ^ 80 + r) [] in
    rw (size, decode-encode t r ht hr)

encode-decode :
    (n : ℕ) (value : List ℕ)
    → decode_loop 0 value ≡ ok n
    → length value ≡ 26
    → encode (n / 2 ^ 80) (n % 2 ^ 80) ≡ value
unfolding encode
encode-decode n value h size =
    let whole : n / 2 ^ 80 * 2 ^ 80 + n % 2 ^ 80 ≡ n = omega arith in
    let loop : encode_loop (0 + length value) n [] ≡ encode_loop 0 0 (value ++ []) =
      encode_loop-decode_loop 0 0 n value [] h in
    let places_left : 0 + length value ≡ 26 = omega arith in
    rw whole (rw places_left at loop ∙ (unfold encode_loop in append-nil value))

check_range-ok : (r : Result IdError ℕ) (n : ℕ) → check_range r ≡ ok n → (r ≡ ok n) × (n < 2 ^ 128)
check_range-ok (ok m) n h = ground arith
check_range-ok (raise e) n h = cc

parse_ulid-ok :
    (value : List ℕ)
    → parse_ulid (text value) ≡ ok value
    → (n : ℕ) × (decode_loop 0 value ≡ ok n) × (n < 2 ^ 128) × (length value ≡ 26)
unfolding parse_ulid decode
parse_ulid-ok value h = found (check_range (decode_loop 0 value)) refl
  where
    found :
        (r : Result IdError ℕ)
        → check_range (decode_loop 0 value) ≡ r
        → (n : ℕ) × (decode_loop 0 value ≡ ok n) × (n < 2 ^ 128) × (length value ≡ 26)
    found (ok n) e =
        let known = check_range-ok (decode_loop 0 value) n e in (n, known.0, known.1, ground arith)
    found (raise f) e = absurd (ground arith)

-- A text is accepted as a ULID exactly if it is what a number below 2^128 is written as.
pub parse_ulid-eq-ok :
    (value : List ℕ)
    → (parse_ulid (text value) ≡ ok value)
      ↔ ((n : ℕ) × (n < 2 ^ 128) × (encode (n / 2 ^ 80) (n % 2 ^ 80) ≡ value))
parse_ulid-eq-ok value = (written, accepted)
  where
    accepted :
        ((n : ℕ) × (n < 2 ^ 128) × (encode (n / 2 ^ 80) (n % 2 ^ 80) ≡ value))
        → parse_ulid (text value) ≡ ok value
    accepted (n, fits, e) =
        rw (← e) (parse_ulid-encode (n / 2 ^ 80) (n % 2 ^ 80) (omega arith) (omega arith))

    written :
        parse_ulid (text value) ≡ ok value
        → (n : ℕ) × (n < 2 ^ 128) × (encode (n / 2 ^ 80) (n % 2 ^ 80) ≡ value)
    written h =
        let (n, e, fits, size) = parse_ulid-ok value h in (n, fits, encode-decode n value e size)
