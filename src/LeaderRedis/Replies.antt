-- ===== src/LeaderRedis/Replies.antt =====
-- leader/redis/_scripts.py: how the client reads what the scripts reply. A reply comes as a list of byte
-- strings; other objects stand for themselves.
use bluetape_py.Common.{
  ℕ, ◌≡◌, refl, inl, inr, List, [], ◌∷◌, Bool, true, false, ◌&&◌, ◌||◌, Option, none, some,
  if◌then◌else◌, ltb, leb, length, ◌==◌, Bool-cases, arith,
}
use bluetape_py.Common.Texts.{codes, same_text, is_among, is_ascii}
use bluetape_py.LeaderRedis.Redis.{
  Redis, lease_key, fence_key, number_from, are_digits, text_le, is_positive, valid_fence,
  max_fence,
}
use bluetape_py.LeaderRedis.Scripts.{
  Reply, corrupt, contended, not_held, renewed, held, absent, deleted, min_ttl_applied, acquired,
  present, acquire, grant, history_corrupt, fence_corrupt, lease_corrupt, is_exhausted, is_missing,
  with_history,
}

-- What the commands give to the client.
pub data Value : Type 0 where
  array : List (List ℕ) → Value
  object : Value

-- the tables that the scripts return
abbrev pub wire : Reply → Value
wire corrupt = array (codes "CORRUPT" ∷ [])
wire contended = array (codes "CONTENDED" ∷ [])
wire not_held = array (codes "NOT_HELD" ∷ [])
wire renewed = array (codes "RENEWED" ∷ [])
wire held = array (codes "HELD" ∷ [])
wire absent = array (codes "ABSENT" ∷ [])
wire deleted = array (codes "DELETED" ∷ [])
wire min_ttl_applied = array (codes "MIN_TTL_APPLIED" ∷ [])
wire (acquired fence) = array (codes "ACQUIRED" ∷ fence ∷ [])
wire (present lease) = array (codes "PRESENT" ∷ lease ∷ [])

-- `_response_parts`; none is a ValueError
unfoldable pub response_parts : Value → Option (List (List ℕ))
response_parts object = none
response_parts (array []) = none
response_parts (array (part ∷ parts)) = some (part ∷ parts)

abbrev pub starts_positive : List ℕ → Bool
starts_positive [] = false
starts_positive (c ∷ text) = is_among c (codes "123456789")

-- `_is_canonical_fence` of a text that is ASCII, where `isdigit` tells the ten digits
unfoldable pub is_canonical_fence : List ℕ → Bool
is_canonical_fence value =
    starts_positive value
    && are_digits value
    && (ltb (length value) (length max_fence)
        || (length value == length max_fence && text_le value max_fence))

unfoldable pub canonical_positive_decimal : List ℕ → Bool
canonical_positive_decimal value = if is_ascii value then is_canonical_fence value else false

pub data Acquisition : Type 0 where
  was_contended was_corrupt : Acquisition
  was_acquired : (fencing_token : ℕ) → Acquisition

abbrev read_one : List ℕ → Option Acquisition
read_one status =
    if same_text status (codes "CONTENDED")
    then some was_contended
    else if same_text status (codes "CORRUPT")
    then some was_corrupt
    else none

abbrev read_two : List ℕ → List ℕ → Option Acquisition
read_two status fence =
    if same_text status (codes "ACQUIRED") && canonical_positive_decimal fence
    then some (was_acquired (number_from 0 fence))
    else none

abbrev read_parts : Option (List (List ℕ)) → Option Acquisition
read_parts (some (status ∷ [])) = read_one status
read_parts (some (status ∷ fence ∷ [])) = read_two status fence
read_parts _ = none

-- `_parse_acquire_response`; none is a ValueError
unfoldable pub parse_acquire_response : Value → Option Acquisition
parse_acquire_response value = read_parts (response_parts value)

-- What the reply of an acquisition means.
pub data Means : Reply → Option Acquisition → Type 0 where
  contention : Means contended (some was_contended)
  corruption : Means corrupt (some was_corrupt)
  grant_of : (fence : List ℕ) → Means (acquired fence) (some (was_acquired (number_from 0 fence)))

digit-is_among :
    (c : ℕ) → leb b'1' c ≡ true → leb c b'9' ≡ true → is_among c (codes "123456789") ≡ true
unfolding is_among
digit-is_among c l u = ground arith

digits-is_ascii : (text : List ℕ) → are_digits text ≡ true → is_ascii text ≡ true
unfolding are_digits is_ascii
digits-is_ascii [] h = refl
digits-is_ascii (c ∷ text) h = ground (arith, digits-is_ascii text)

positive-are_digits : (text : List ℕ) → is_positive text ≡ true → are_digits text ≡ true
unfolding is_positive are_digits
positive-are_digits [] h = absurd (cc h)
positive-are_digits (c ∷ text) h = ground arith

positive-starts : (text : List ℕ) → is_positive text ≡ true → starts_positive text ≡ true
unfolding is_positive
positive-starts [] h = absurd (cc h)
positive-starts (c ∷ text) h = digit-is_among c (ground arith) (ground arith)

-- the script and the client agree on what a fence is
valid_fence-canonical :
    (fence : List ℕ) → valid_fence fence ≡ true → canonical_positive_decimal fence ≡ true
unfolding valid_fence canonical_positive_decimal is_canonical_fence
valid_fence-canonical fence h =
    let positive : is_positive fence ≡ true = ground arith in
    let digits = positive-are_digits fence positive in
    rw (digits-is_ascii fence digits)
      (rw (positive-starts fence positive) (rw digits (ground arith)))

-- What an acquisition may reply.
pub data IsReply : Reply → Type 0 where
  refuses_corrupt : IsReply corrupt
  refuses_contended : IsReply contended
  grants : (fence : List ℕ) → valid_fence fence ≡ true → IsReply (acquired fence)

module _ (redis : Redis) where
  grant-IsReply : (owner ttl : List ℕ) (d : redis.Data) → IsReply (grant redis owner ttl d).0
  unfolding grant
  grant-IsReply owner ttl d =
      elim (Bool-cases
        (valid_fence (redis.get fence_key (redis.incr fence_key (with_history redis d))))) [
          | inr bad ↦ rw bad refuses_corrupt
          | inl good ↦ rw good (grants _ good)
        ]

  pub acquire-IsReply :
      (owner ttl : List ℕ) (d : redis.Data) → IsReply (acquire redis owner ttl d).0
  unfolding acquire
  acquire-IsReply owner ttl d =
      elim (Bool-cases (history_corrupt redis d || fence_corrupt redis d)) [
        | inl bad ↦ rw bad refuses_corrupt
        | inr good ↦ elim (Bool-cases (is_missing (redis.kind lease_key d))) [
          | inr taken ↦ elim (Bool-cases (lease_corrupt redis d)) [
            | inl bad ↦ rw (good, taken, bad) refuses_corrupt
            | inr other ↦ rw (good, taken, other) refuses_contended
          ]
          | inl free ↦ elim (Bool-cases (is_exhausted redis d)) [
            | inl used ↦ rw (good, free, used) refuses_corrupt
            | inr left ↦ rw (good, free, left) (grant-IsReply owner ttl d)
          ]
        ]
      ]

  read_reply : (reply : Reply) → IsReply reply → Means reply (parse_acquire_response (wire reply))
  unfolding parse_acquire_response response_parts same_text
  read_reply reply refuses_corrupt = corruption
  read_reply reply refuses_contended = contention
  read_reply reply (grants fence valid) = rw (valid_fence-canonical fence valid) (grant_of fence)

  -- Whatever the server holds, the client accepts every reply of the acquiring script, and takes it for
  -- what it is: a contention, a corruption, or a grant of the very number that the script put into the
  -- lease. The script never replies with a fence that the client would refuse.
  pub acquire-Means :
      (owner ttl : List ℕ) (d : redis.Data)
      → Means
          (acquire redis owner ttl d).0
          (parse_acquire_response (wire (acquire redis owner ttl d).0))
  acquire-Means owner ttl d = read_reply (acquire redis owner ttl d).0 (acquire-IsReply owner ttl d)
