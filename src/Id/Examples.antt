-- ===== src/Id/Examples.antt =====
-- Tests of identifiers on concrete inputs.
use Prim.Native.Nat.{◌^◌}
use bluetape_py.Common.{
  ℕ, ◌/◌, ◌%◌, ◌<◌, ◌≡◌, ◌↔◌, refl, none, some, List, [], ◌∷◌, arith, ◌==◌, if◌then◌else◌,
}
use bluetape_py.Common.Int.{pos}
use bluetape_py.Common.Exec.{ok, raise, pure, whole}
use bluetape_py.Id.{
  int, bytes, read_timestamp, check_timestamp, read_entropy, check_entropy, from_bytes, AreBytes,
  none_left, one_more, invalid_id_error,
}
use bluetape_py.Common.Texts.{codes}
use bluetape_py.Id.Ulid.{
  symbol, position, digit_of, encode_loop, encode, decode_loop, decode, text, parse_ulid,
  ulid_timestamp_ms,
}
use bluetape_py.Id.Ulid.Digits.{parse_ulid-eq-ok}
use bluetape_py.Id.Ulid.Order.{precedes}
use bluetape_py.Id.Monotonic.{new_state, choose, issue, new}
use bluetape_py.Id.Monotonic.Increasing.{run, IsAscending, monotonic_ulids}
use bluetape_py.Id.Uuid.{UuidModule, uuid, pack, uuid7_timestamp_ms}
use bluetape_py.Id.Uuid
use bluetape_py.Id.Uuid.Fields
use bluetape_py.Id.Uuid.Fields.{ReadsFields, uuid7_timestamp_ms-pack, monotonic_uuids}

program : Unit {0}
unfolding symbol position digit_of encode_loop encode decode_loop decode parse_ulid
    ulid_timestamp_ms from_bytes choose issue run read_timestamp check_timestamp read_entropy
    check_entropy new precedes
program = tt

-- a published example: 2016-07-30T23:54:10.259Z
spec_timestamp : ulid_timestamp_ms (text (codes "01ARZ3NDEKTSV4RRFFQ69G5FAV")) ≡ ok 1469922850259
unfolding program
spec_timestamp = refl

lower_case : parse_ulid (text (codes "01arz3ndektsv4rrffq69g5fav")) ≡ raise invalid_id_error
unfolding program
lower_case = refl

too_large : parse_ulid (text (codes "80000000000000000000000000")) ≡ raise invalid_id_error
unfolding program
too_large = refl

abbrev ten_bytes : List ℕ
ten_bytes = 0 ∷ 0 ∷ 0 ∷ 0 ∷ 0 ∷ 0 ∷ 0 ∷ 0 ∷ 0 ∷ 7 ∷ []

-- the clock stands still: the second ULID is one more
second_ulid :
    (new whole
      (pure (int (pos 5)))
      (λ n. pure (bytes ten_bytes))
      (new whole (pure (int (pos 5))) (λ n. pure (bytes ten_bytes)) new_state).1).0
    ≡ ok (encode 5 8)
unfolding program
second_ulid = refl

abbrev canonical : List ℕ
canonical = codes "01ARZ3NDEKTSV4RRFFQ69G5FAV"

parse_ulid-eq-ok_example :
    (parse_ulid (text canonical) ≡ ok canonical)
    ↔ ((n : ℕ) × (n < 2 ^ 128) × (encode (n / 2 ^ 80) (n % 2 ^ 80) ≡ canonical))
parse_ulid-eq-ok_example = parse_ulid-eq-ok canonical

ten_bytes-AreBytes : AreBytes ten_bytes
ten_bytes-AreBytes = one_more refl (
    one_more refl (
      one_more refl (
        one_more refl (
          one_more refl (
            one_more refl
              (one_more refl (one_more refl (one_more refl (one_more refl none_left)))))))))

monotonic_ulids_example : IsAscending (run ((5, ten_bytes) ∷ (4, ten_bytes) ∷ []) new_state)
monotonic_ulids_example =
    monotonic_ulids ((5, ten_bytes) ∷ (4, ten_bytes) ∷ [])
      ((omega arith, ten_bytes-AreBytes, refl), ((omega arith, ten_bytes-AreBytes, refl), tt))

-- a `uuid` module that reads no text
abbrev plain_module : UuidModule
plain_module = record {
  parse = λ value. none;
  print = λ n. [];
  version = λ n. if n / 2 ^ 62 % 4 == 2 then some (n / 2 ^ 76 % 16) else none;
  is_rfc_4122 = λ n. n / 2 ^ 62 % 4 == 2;
  lower = λ value. value;
}

plain_module-ReadsFields : ReadsFields plain_module
plain_module-ReadsFields = record { is_rfc_4122 = λ n. refl; version = λ n h. rw h }

monotonic_uuids_example :
    Fields.IsAscending (Fields.run ((5, ten_bytes) ∷ (4, ten_bytes) ∷ []) Uuid.new_state)
monotonic_uuids_example =
    monotonic_uuids ((5, ten_bytes) ∷ (4, ten_bytes) ∷ []) (omega arith, (omega arith, tt))
