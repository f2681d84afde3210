-- ===== src/Id/Monotonic/Increasing.antt =====
-- The ULIDs of one monotonic generator ascend, in the order in which its lock is taken.
use Prim.Native.Nat.{◌^◌}
use bluetape_py.Common.{
  ℕ, zero, suc, ◌+◌, ◌*◌, ◌≤◌, ◌<◌, ◌≡◌, refl, true, Option, none, some, List, [], ◌∷◌, arith,
  ltb→lt, length, All,
}
use bluetape_py.Common.Exec.{Result, ok, raise}
use bluetape_py.Id.{IdError, max_timestamp, from_bytes, AreBytes, none_left, one_more}
use bluetape_py.Id.Ulid.{encode}
use bluetape_py.Id.Ulid.Order.{precedes, encode_mono}
use bluetape_py.Id.Monotonic.{Monotonic, new_state, choose, issue}

-- What a call of `new` has read: the clock, and ten bytes.
abbrev pub Request : Type 0
Request = ℕ × List ℕ

abbrev pub IsRequest : Request → Type 0
IsRequest (observed, entropy) =
    (observed ≤ max_timestamp) × AreBytes entropy × (length entropy ≡ 10)

abbrev pub prepend_issued : Result IdError (List ℕ) → List (List ℕ) → List (List ℕ)
prepend_issued (raise e) issued = issued
prepend_issued (ok value) issued = value ∷ issued

-- The ULIDs that calls give, in the order in which they have the lock; a call that raises gives none.
unfoldable pub run : List Request → Monotonic → List (List ℕ)
run [] s = []
run ((observed, entropy) ∷ requests) s =
    let (result, s') = issue observed (from_bytes 0 entropy) s in
    prepend_issued result (run requests s')

abbrev pub IsAscending : List (List ℕ) → Type 0
IsAscending [] = Unit
IsAscending (v ∷ vs) = All (λ w. precedes v w ≡ true) vs × IsAscending vs

-- the numbers that fit in so many bytes
abbrev byte_places : ℕ → ℕ
byte_places zero = 1
byte_places (suc k) = 256 * byte_places k

from_bytes-lt :
    (k acc : ℕ) (value : List ℕ)
    → AreBytes value
    → acc < byte_places k
    → from_bytes acc value < byte_places (length value + k)
unfolding from_bytes
from_bytes-lt k acc [] none_left h = let size : 0 + k ≡ k = omega arith in rw size h
from_bytes-lt k acc (b ∷ value) (one_more small are) h =
    let size : suc (length value) + k ≡ length value + suc k = omega arith in
    rw size (from_bytes-lt (suc k) (acc * 256 + b) value are (omega (arith, ltb→lt b 256 small)))

randomness-lt :
    (entropy : List ℕ) → AreBytes entropy → length entropy ≡ 10 → from_bytes 0 entropy < 2 ^ 80
randomness-lt entropy are size =
    let small = from_bytes-lt 0 0 entropy are (omega arith) in
    let whole : length entropy + 0 ≡ 10 = omega arith in rw whole at small

-- the number of the last ULID is at least `n`
abbrev IsFrom : ℕ → Monotonic → Type 0
IsFrom n s = (last : ℕ) × (s.last_ms ≡ some last) × (n ≤ last * 2 ^ 80 + s.randomness)

record IsValid (s : Monotonic) : Type 0 where
  in_range : (last : ℕ) → s.last_ms ≡ some last → last ≤ max_timestamp
  small : s.randomness < 2 ^ 80

-- What a chosen timestamp and randomness are.
record IsNext (s : Monotonic) (logical randomness : ℕ) : Type 0 where
  in_range : logical ≤ max_timestamp
  small : randomness < 2 ^ 80
  greater : (n : ℕ) → IsFrom n s → n < logical * 2 ^ 80 + randomness

choose-IsNext :
    (observed fresh : ℕ) (s : Monotonic) (logical randomness : ℕ)
    → observed ≤ max_timestamp
    → fresh < 2 ^ 80
    → IsValid s
    → choose observed fresh s ≡ ok (logical, randomness)
    → IsNext s logical randomness
unfolding choose
choose-IsNext observed fresh s logical randomness ho hf v h = by_last s.last_ms refl
  where
    by_last : (o : Option ℕ) → s.last_ms ≡ o → IsNext s logical randomness
    by_last none e = record {
      in_range = ground arith;
      small = ground arith;
      greater = λ n after. let (last, same, le) = after in absurd (cc (e, same));
    }
    by_last (some last) e = record {
      in_range = ground (arith, v.in_range last e);
      small = ground (arith, v.small, v.in_range last e);
      greater = λ n after. let (last', same, le) = after in ground (arith, v.small);
    }

abbrev issued : ℕ → ℕ → Monotonic
issued logical randomness = record { last_ms = some logical; randomness = randomness }

issued-IsValid :
    (s : Monotonic) (logical randomness : ℕ)
    → IsNext s logical randomness
    → IsValid (issued logical randomness)
issued-IsValid s logical randomness next = record {
  in_range = λ last e. ground (arith, next.in_range);
  small = next.small;
}

-- what is issued from `s` on comes after a ULID whose number the last one has reached
run-after :
    (requests : List Request) (s : Monotonic) (t r : ℕ)
    → All IsRequest requests
    → IsValid s
    → r < 2 ^ 80
    → IsFrom (t * 2 ^ 80 + r) s
    → All (λ w. precedes (encode t r) w ≡ true) (run requests s)
unfolding run
run-after [] s t r good v small from = tt
run-after ((observed, entropy) ∷ requests) s t r good v small from =
    by_choice (λ s'. run-after requests s' t r good.1) (choose observed (from_bytes 0 entropy) s)
      refl
  where
    by_choice :
        ((s' : Monotonic)
          → IsValid s'
          → r < 2 ^ 80
          → IsFrom (t * 2 ^ 80 + r) s'
          → All (λ w. precedes (encode t r) w ≡ true) (run requests s'))
        → (c : Result IdError (ℕ × ℕ)) → choose observed (from_bytes 0 entropy) s ≡ c
        → All (λ w. precedes (encode t r) w ≡ true) (run ((observed, entropy) ∷ requests) s)
    by_choice ih (raise f) e = unfold issue in rw (e, run) (ih s v small from)
    by_choice ih (ok (logical, randomness)) e =
        let next =
          choose-IsNext observed (from_bytes 0 entropy) s logical randomness good.0.0
            (randomness-lt entropy good.0.1 good.0.2) v e in
        let later = next.greater (t * 2 ^ 80 + r) from in
        unfold issue in
        rw (e, run)
          (
            encode_mono t r logical randomness (omega (arith, next.in_range)) small next.small
                later,
            ih (issued logical randomness) (issued-IsValid s logical randomness next) small
                (logical, refl, omega arith),
          )

run-IsAscending :
    (requests : List Request) (s : Monotonic)
    → All IsRequest requests
    → IsValid s
    → IsAscending (run requests s)
unfolding run
run-IsAscending [] s good v = tt
run-IsAscending ((observed, entropy) ∷ requests) s good v =
    by_choice (λ s'. run-IsAscending requests s' good.1) (choose observed (from_bytes 0 entropy) s)
      refl
  where
    by_choice :
        ((s' : Monotonic) → IsValid s' → IsAscending (run requests s'))
        → (c : Result IdError (ℕ × ℕ)) → choose observed (from_bytes 0 entropy) s ≡ c
        → IsAscending (run ((observed, entropy) ∷ requests) s)
    by_choice ih (raise f) e = unfold issue in rw (e, run) (ih s v)
    by_choice ih (ok (logical, randomness)) e =
        let next =
          choose-IsNext observed (from_bytes 0 entropy) s logical randomness good.0.0
            (randomness-lt entropy good.0.1 good.0.2) v e in
        let valid = issued-IsValid s logical randomness next in
        unfold issue in
        rw (e, run)
          (
            run-after requests (issued logical randomness) logical randomness good.1 valid
                next.small (logical, refl, omega arith),
            ih (issued logical randomness) valid,
          )

-- Whatever the clock gives within 48 bits, forward or backward, and whatever ten bytes the entropy
-- is: of the ULIDs that a new generator gives, each comes before all later ones as a text.
pub monotonic_ulids :
    (requests : List Request) → All IsRequest requests → IsAscending (run requests new_state)
monotonic_ulids requests good =
    run-IsAscending requests new_state good
      (record { in_range = λ last e. absurd (cc e); small = omega arith })
