-- ===== src/LeaderRedis/Record.antt =====
-- leader/redis/_support.py: the records of leases, and their texts. A record is `v1:<owner>:<fence>`.
pub mod Read
use bluetape_py.Common.{
  ℕ, zero, suc, ◌+◌, ◌≤◌, ◌≡◌, refl, List, [], ◌∷◌, ◌++◌, Bool, true, false, not, ◌&&◌, ◌||◌,
  Option, none, some, if◌then◌else◌, ltb, leb, length, ◌==◌, Bool-cases, inl, inr, arith,
}
use bluetape_py.Common.Texts.{codes, same_text, is_among, is_ascii}
use bluetape_py.LeaderRedis.Redis.{number_from, is_positive, valid_fence, max_fence}
use bluetape_py.LeaderRedis.Decimal.{decimal, decimal-number_from}
use bluetape_py.LeaderRedis.Replies.{Value, array, object, response_parts, is_canonical_fence}
use bluetape_py.LeaderRedis.Scripts.{record_of}

abbrev pub owner_alphabet : List ℕ
owner_alphabet = codes "ABCDEFGHIJKLMNOPQRSTUVWXYZabcdefghijklmnopqrstuvwxyz0123456789-_"

unfoldable pub all_among : List ℕ → Bool
all_among [] = true
all_among (c ∷ value) = is_among c owner_alphabet && all_among value

-- `_is_owner_token`
unfoldable pub is_owner_token : List ℕ → Bool
is_owner_token value = length value == 32 && all_among value

pub record LeaseRecord : Type 0 where
  pub owner_token : List ℕ
  pub fencing_token : ℕ

-- `__post_init__`: none is a ValueError
unfoldable pub new_record : List ℕ → ℕ → Option LeaseRecord
new_record owner fence =
    if not (is_owner_token owner)
    then none
    else if leb fence 0 || ltb (number_from 0 max_fence) fence
    then none
    else some (record { owner_token = owner; fencing_token = fence })

unfoldable pub to_bytes : LeaseRecord → List ℕ
to_bytes r = codes "v1:" ++ r.owner_token ++ codes ":" ++ decimal r.fencing_token

abbrev pub more : ℕ → List (List ℕ) → List (List ℕ)
more c [] = (c ∷ []) ∷ []
more c (part ∷ parts) = (c ∷ part) ∷ parts

-- `value.split(":")`
unfoldable pub split_colon : List ℕ → List (List ℕ)
split_colon [] = [] ∷ []
split_colon (c ∷ value) =
    let rest = split_colon value in if c == b':' then [] ∷ rest else more c rest

abbrev pub parse_parts : List (List ℕ) → Option LeaseRecord
parse_parts (version ∷ owner ∷ fence ∷ []) =
    if not (same_text version (codes "v1"))
      || not (is_owner_token owner)
      || not (is_canonical_fence fence)
    then none
    else new_record owner (number_from 0 fence)
parse_parts _ = none

-- `_LeaseRecord.parse`; none is a ValueError
unfoldable pub parse_record : List ℕ → Option LeaseRecord
parse_record value = if is_ascii value then parse_parts (split_colon value) else none

unfoldable pub is_allowed : List ℕ → List (List ℕ) → Bool
is_allowed status [] = false
is_allowed status (x ∷ allowed) = same_text status x || is_allowed status allowed

abbrev pub status_of : List (List ℕ) → Option (List (List ℕ)) → Option (List ℕ)
status_of allowed (some (status ∷ [])) =
    if is_ascii status && is_allowed status allowed then some status else none
status_of allowed _ = none

-- `_parse_status_response`; none is a ValueError
unfoldable pub parse_status_response : Value → List (List ℕ) → Option (List ℕ)
parse_status_response value allowed = status_of allowed (response_parts value)

-- What a reconciliation finds: a record, none, or a corruption.
pub data Found : Type 0 where
  was_absent was_corrupt : Found
  was_present : LeaseRecord → Found

abbrev pub found_record : Option LeaseRecord → Option Found
found_record none = none
found_record (some r) = some (was_present r)

abbrev pub found_of : Option (List (List ℕ)) → Option Found
found_of (some (status ∷ [])) =
    if same_text status (codes "ABSENT")
    then some was_absent
    else if same_text status (codes "CORRUPT")
    then some was_corrupt
    else none
found_of (some (status ∷ lease ∷ [])) =
    if same_text status (codes "PRESENT") then found_record (parse_record lease) else none
found_of _ = none

-- `_parse_reconcile_response`; none is a ValueError
unfoldable pub parse_reconcile_response : Value → Option Found
parse_reconcile_response value = found_of (response_parts value)

-- The client writes of the number that it read of a fence the very text that the scripts made of it.
pub to_bytes-record_of :
    (owner fence : List ℕ)
    → valid_fence fence ≡ true
    → to_bytes (record { owner_token = owner; fencing_token = number_from 0 fence })
      ≡ record_of owner fence
unfolding to_bytes valid_fence
to_bytes-record_of owner fence valid =
    let positive : is_positive fence ≡ true = ground arith in
    rw (decimal-number_from fence positive) refl
