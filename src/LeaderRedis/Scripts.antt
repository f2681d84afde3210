-- ===== src/LeaderRedis/Scripts.antt =====
-- leader/redis/_scripts.py: the five Lua scripts of the lock, each as one step on the server's data.
pub mod Fences
pub mod Leases
use bluetape_py.Common.{
  ℕ, ◌≡◌, List, [], ◌∷◌, ◌++◌, Bool, true, false, ◌&&◌, ◌||◌, not, Option, none, some,
  if◌then◌else◌, leb, length, ◌==◌, suc, zero,
}
use bluetape_py.Common.Int.{ℤ, pos, negsuc}
use bluetape_py.Common.Texts.{codes, same_text}
use bluetape_py.LeaderRedis.Redis.{
  Redis, Key, lease_key, fence_key, history_key, Kind, missing, string, other_kind, is_positive,
  valid_fence, max_fence,
}

pub data Reply : Type 0 where
  corrupt contended not_held renewed held absent deleted min_ttl_applied : Reply
  acquired : List ℕ → Reply
  present : List ℕ → Reply

-- A run of a script, by anyone, with any arguments.
pub data Call : Type 0 where
  acquires : (owner ttl : List ℕ) → Call
  renews : (lease ttl : List ℕ) → Call
  probes : (lease : List ℕ) → Call
  reconciles : Call
  releases : (lease min_ttl : List ℕ) → Call

abbrev pub is_missing : Kind → Bool
is_missing missing = true
is_missing _ = false

abbrev pub is_string : Kind → Bool
is_string string = true
is_string _ = false

-- `ttl == -1` and `ttl <= 0`
abbrev pub is_forever : ℤ → Bool
is_forever (negsuc zero) = true
is_forever _ = false

abbrev pub is_over : ℤ → Bool
is_over (pos (suc n)) = false
is_over _ = true

-- `[%w_-]`
abbrev pub is_word : ℕ → Bool
is_word c =
    (leb b'0' c && leb c b'9')
    || (leb b'A' c && leb c b'Z')
    || (leb b'a' c && leb c b'z')
    || c == b'_'
    || c == b'-'

abbrev more_owner : ℕ → Option (List ℕ × List ℕ) → Option (List ℕ × List ℕ)
more_owner c none = none
more_owner c (some (owner, fence)) = some (c ∷ owner, fence)

-- the longest run of `[%w_-]`, and what follows the colon after it
unfoldable pub split_owner : List ℕ → Option (List ℕ × List ℕ)
split_owner [] = none
split_owner (c ∷ rest) =
    let longer = more_owner c (split_owner rest) in
    if is_word c then longer else if c == b':' then some ([], rest) else none

-- `string.match(current, '^v1:([%w_-]+):([1-9][0-9]*)$')` with the tests of the owner and the fence
abbrev check_match : Option (List ℕ × List ℕ) → Option (List ℕ)
check_match none = none
check_match (some (owner, fence)) =
    if is_positive fence && length owner == 32 && valid_fence fence then some fence else none

unfoldable pub fence_of : List ℕ → Option (List ℕ)
fence_of (a ∷ b ∷ c ∷ rest) =
    if same_text (a ∷ b ∷ c ∷ []) (codes "v1:") then check_match (split_owner rest) else none
fence_of _ = none

-- the text of a lease
abbrev pub record_of : List ℕ → List ℕ → List ℕ
record_of owner fence = codes "v1:" ++ owner ++ codes ":" ++ fence

-- `fence ~= previous`, where the lease has a fence
abbrev is_same_fence : Option (List ℕ) → Option (List ℕ) → Bool
is_same_fence (some fence) (some previous) = same_text fence previous
is_same_fence _ _ = false

module _ (redis : Redis) where
  abbrev Data : Type 0
  Data = redis.Data

  unfoldable pub history_corrupt : Data → Bool
  history_corrupt d =
      not (is_missing (redis.kind history_key d))
      && (not (is_string (redis.kind history_key d))
          || not (is_forever (redis.pttl history_key d))
          || not (same_text (redis.get history_key d) (codes "v1")))

  unfoldable pub fence_corrupt : Data → Bool
  fence_corrupt d =
      if is_missing (redis.kind fence_key d)
      then not (is_missing (redis.kind history_key d))
      else is_missing (redis.kind history_key d)
        || not (is_string (redis.kind fence_key d))
        || not (is_forever (redis.pttl fence_key d))
        || not (valid_fence (redis.get fence_key d))

  -- `previous`
  abbrev previous : Data → Option (List ℕ)
  previous d = if is_missing (redis.kind fence_key d) then none else some (redis.get fence_key d)

  unfoldable pub lease_corrupt : Data → Bool
  lease_corrupt d =
      is_missing (redis.kind history_key d)
      || not (is_string (redis.kind lease_key d))
      || not (is_same_fence (fence_of (redis.get lease_key d)) (previous d))
      || is_over (redis.pttl lease_key d)

  -- no fence is left
  unfoldable pub is_exhausted : Data → Bool
  is_exhausted d =
      not (is_missing (redis.kind fence_key d)) && same_text (redis.get fence_key d) max_fence

  abbrev pub with_history : Data → Data
  with_history d =
      if is_missing (redis.kind history_key d) then redis.set history_key (codes "v1") d else d

  -- the end of ACQUIRE_SCRIPT
  unfoldable pub grant : List ℕ → List ℕ → Data → Reply × Data
  grant owner ttl d =
      let d' = redis.incr fence_key (with_history d) in
      let fence = redis.get fence_key d' in
      if not (valid_fence fence)
      then (corrupt, d')
      else (acquired fence, redis.set_px lease_key (record_of owner fence) ttl d')

  -- ACQUIRE_SCRIPT
  unfoldable pub acquire : List ℕ → List ℕ → Data → Reply × Data
  acquire owner ttl d =
      if history_corrupt d || fence_corrupt d
      then (corrupt, d)
      else if not (is_missing (redis.kind lease_key d))
      then (if lease_corrupt d then corrupt else contended, d)
      else if is_exhausted d
      then (corrupt, d)
      else grant owner ttl d

  -- the tests that the other scripts begin with: an answer, or the lease that is held
  unfoldable pub check_lease : Reply → Data → Reply
  check_lease over d =
      if is_missing (redis.kind lease_key d)
      then over
      else if not (is_string (redis.kind lease_key d))
      then corrupt
      else elim (fence_of (redis.get lease_key d)) [
        | none ↦ corrupt
        | some fence ↦
            if is_forever (redis.pttl lease_key d)
            then corrupt
            else if is_over (redis.pttl lease_key d)
            then over
            else present (redis.get lease_key d)
      ]

  -- `current ~= ARGV[1]`, and what is done for the holder
  abbrev pub if_current : List ℕ → Reply → Reply × Data → Data → Reply × Data
  if_current lease (present current) done d =
      if same_text current lease then done else (not_held, d)
  if_current lease reply done d = (reply, d)

  -- RENEW_SCRIPT
  unfoldable pub renew : List ℕ → List ℕ → Data → Reply × Data
  renew lease ttl d =
      if_current lease (check_lease not_held d) (renewed, redis.pexpire lease_key ttl d) d

  -- PROBE_SCRIPT
  unfoldable pub probe : List ℕ → Data → Reply × Data
  probe lease d = if_current lease (check_lease not_held d) (held, d) d

  -- RECONCILE_SCRIPT
  unfoldable pub reconcile : Data → Reply × Data
  reconcile d = (check_lease absent d, d)

  -- RELEASE_SCRIPT
  unfoldable pub release : List ℕ → List ℕ → Data → Reply × Data
  release lease min_ttl d =
      if_current lease (check_lease not_held d)
        (if same_text min_ttl (codes "0")
          then (deleted, redis.del lease_key d)
          else (min_ttl_applied, redis.pexpire lease_key min_ttl d))
        d
