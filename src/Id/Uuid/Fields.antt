-- ===== src/Id/Uuid/Fields.antt =====
-- The UUIDs of one generator ascend, and each holds its timestamp, its version and its variant.
use Prim.Native.Nat.{◌^◌}
use bluetape_py.Common.{
  ℕ, ◌+◌, ◌*◌, ◌/◌, ◌%◌, ◌≤◌, ◌<◌, ◌≡◌, refl, Option, none, some, List, [], ◌∷◌, arith, ◌==◌, All,
}
use bluetape_py.Common.Exec.{Result, ok, raise}
use bluetape_py.Id.{IdError, max_timestamp}
use bluetape_py.Id.Uuid.{
  Uuid7State, new_state, choose, pack, issue, seed_of, random_bits_of, UuidModule, uuid, read_uuid,
  uuid7_timestamp_ms,
}

-- Python's layout of a UUID: the version in bits 76 to 79, the RFC variant 10 in bits 62 and 63; a
-- UUID of another variant has no version.
pub record ReadsFields (lib : UuidModule) : Type 0 where
  pub is_rfc_4122 : (n : ℕ) → lib.is_rfc_4122 n ≡ (n / 2 ^ 62 % 4 == 2)
  pub version : (n : ℕ) → n / 2 ^ 62 % 4 ≡ 2 → lib.version n ≡ some (n / 2 ^ 76 % 16)

-- What a call of `new` has read: the clock within its range, and bytes.
abbrev pub Request : Type 0
Request = ℕ × List ℕ

abbrev prepend_issued : Result IdError ℕ → List ℕ → List ℕ
prepend_issued (raise e) issued = issued
prepend_issued (ok value) issued = value ∷ issued

-- The UUIDs that calls give, in the order in which they have the lock.
unfoldable pub run : List Request → Uuid7State → List ℕ
run [] s = []
run ((observed, entropy) ∷ requests) s =
    let (result, s') = issue observed entropy s in prepend_issued result (run requests s')

-- Each number is less than all later ones, and the timestamps of all are read back within 48 bits.
abbrev pub IsAscending : List ℕ → Type 0
IsAscending [] = Unit
IsAscending (v ∷ vs) = All (λ w. v < w) vs × IsAscending vs

module _ (lib : UuidModule) (reads : ReadsFields lib) where
  -- The timestamp of a UUIDv7 is read back, and it passes the checks of version and variant.
  pub uuid7_timestamp_ms-pack :
      (logical counter random_bits : ℕ)
      → counter < 2 ^ 12
      → random_bits < 2 ^ 62
      → uuid7_timestamp_ms lib (uuid (pack logical counter random_bits)) ≡ ok logical
  unfolding uuid7_timestamp_ms read_uuid pack
  uuid7_timestamp_ms-pack t c r hc hr =
      let n = t * 2 ^ 80 + 7 * 2 ^ 76 + c * 2 ^ 64 + 2 * 2 ^ 62 + r in
      let variant : n / 2 ^ 62 % 4 ≡ 2 = omega arith in
      let version : n / 2 ^ 76 % 16 ≡ 7 = omega arith in
      let high : n / 2 ^ 80 ≡ t = omega arith in
      rw (reads.is_rfc_4122 n, reads.version n variant, variant, version, high)

record IsValid (s : Uuid7State) : Type 0 where
  in_range : (last : ℕ) → s.last_ms ≡ some last → last ≤ max_timestamp
  small : s.counter < 2 ^ 12

-- the number of the last UUID is below `n` for the greatest of random bits
abbrev IsFrom : ℕ → Uuid7State → Type 0
IsFrom n s = (last : ℕ) × (s.last_ms ≡ some last) × (n ≤ last * 2 ^ 12 + s.counter)

record IsNext (s : Uuid7State) (logical counter : ℕ) : Type 0 where
  in_range : logical ≤ max_timestamp
  small : counter < 2 ^ 12
  greater : (n : ℕ) → IsFrom n s → n < logical * 2 ^ 12 + counter

choose-IsNext :
    (observed seed : ℕ) (s : Uuid7State) (logical counter : ℕ)
    → observed ≤ max_timestamp
    → seed < 2 ^ 12
    → IsValid s
    → choose observed seed s ≡ ok (logical, counter)
    → IsNext s logical counter
unfolding choose
choose-IsNext observed seed s logical counter ho hf v h = by_last s.last_ms refl
  where
    by_last : (o : Option ℕ) → s.last_ms ≡ o → IsNext s logical counter
    by_last none e = record {
      in_range = ground arith;
      small = ground arith;
      greater = λ n after. let (last, same, le) = after in absurd (cc (e, same));
    }
    by_last (some last) e = record {
      in_range = ground (arith, v.in_range last e);
      small = ground (arith, v.small);
      greater = λ n after. let (last', same, le) = after in ground (arith, v.small);
    }

pack_mono :
    (t c r t' c' r' : ℕ)
    → r < 2 ^ 62
    → c' < 2 ^ 12
    → t * 2 ^ 12 + c < t' * 2 ^ 12 + c'
    → pack t c r < pack t' c' r'
unfolding pack
pack_mono t c r t' c' r' hr hc h = omega arith

seed_of-lt : (entropy : List ℕ) → seed_of entropy < 2 ^ 12
unfolding seed_of
seed_of-lt entropy = omega arith

random_bits_of-lt : (entropy : List ℕ) → random_bits_of entropy < 2 ^ 62
unfolding random_bits_of
random_bits_of-lt entropy = omega arith

abbrev issued : ℕ → ℕ → Uuid7State
issued logical counter = record { last_ms = some logical; counter = counter }

issued-IsValid :
    (s : Uuid7State) (logical counter : ℕ)
    → IsNext s logical counter
    → IsValid (issued logical counter)
issued-IsValid s logical counter next = record {
  in_range = λ last e. ground (arith, next.in_range);
  small = next.small;
}

abbrev InRange : Request → Type 0
InRange (observed, entropy) = observed ≤ max_timestamp

run-after :
    (requests : List Request) (s : Uuid7State) (t c r : ℕ)
    → All InRange requests
    → IsValid s
    → r < 2 ^ 62
    → IsFrom (t * 2 ^ 12 + c) s
    → All (λ w. pack t c r < w) (run requests s)
unfolding run
run-after [] s t c r good v small from = tt
run-after ((observed, entropy) ∷ requests) s t c r good v small from =
    by_choice (λ s'. run-after requests s' t c r good.1) (choose observed (seed_of entropy) s) refl
  where
    by_choice :
        ((s' : Uuid7State)
          → IsValid s'
          → r < 2 ^ 62
          → IsFrom (t * 2 ^ 12 + c) s'
          → All (λ w. pack t c r < w) (run requests s'))
        → (k : Result IdError (ℕ × ℕ)) → choose observed (seed_of entropy) s ≡ k
        → All (λ w. pack t c r < w) (run ((observed, entropy) ∷ requests) s)
    by_choice ih (raise f) e = unfold issue in rw (e, run) (ih s v small from)
    by_choice ih (ok (logical, counter)) e =
        let next =
          choose-IsNext observed (seed_of entropy) s logical counter good.0 (seed_of-lt entropy) v
            e in
        let later = next.greater (t * 2 ^ 12 + c) from in
        unfold issue in
        rw (e, run)
          (
            pack_mono t c r logical counter (random_bits_of entropy) small next.small later,
            ih (issued logical counter) (issued-IsValid s logical counter next) small
                (logical, refl, omega arith),
          )

run-IsAscending :
    (requests : List Request) (s : Uuid7State)
    → All InRange requests
    → IsValid s
    → IsAscending (run requests s)
unfolding run
run-IsAscending [] s good v = tt
run-IsAscending ((observed, entropy) ∷ requests) s good v =
    by_choice (λ s'. run-IsAscending requests s' good.1) (choose observed (seed_of entropy) s) refl
  where
    by_choice :
        ((s' : Uuid7State) → IsValid s' → IsAscending (run requests s'))
        → (k : Result IdError (ℕ × ℕ)) → choose observed (seed_of entropy) s ≡ k
        → IsAscending (run ((observed, entropy) ∷ requests) s)
    by_choice ih (raise f) e = unfold issue in rw (e, run) (ih s v)
    by_choice ih (ok (logical, counter)) e =
        let next =
          choose-IsNext observed (seed_of entropy) s logical counter good.0 (seed_of-lt entropy) v
            e in
        let valid = issued-IsValid s logical counter next in
        unfold issue in
        rw (e, run)
          (
            run-after requests (issued logical counter) logical counter (random_bits_of entropy)
                good.1 valid (random_bits_of-lt entropy) (logical, refl, omega arith),
            ih (issued logical counter) valid,
          )

-- Whatever the clock gives within 48 bits, forward or backward, and whatever the entropy is: of the
-- UUIDs that a new generator gives, each is a lesser number than all later ones.
pub monotonic_uuids :
    (requests : List Request) → All InRange requests → IsAscending (run requests new_state)
monotonic_uuids requests good =
    run-IsAscending requests new_state good
      (record { in_range = λ last e. absurd (cc e); small = omega arith })
