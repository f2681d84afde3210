-- ===== src/Id/Monotonic.antt =====
-- id/_ulid.py: the generators of ULIDs. The state of `MonotonicULIDGenerator` is one object of the
-- world, and its block under the lock one step.
pub mod Increasing
use Prim.Native.Nat.{◌^◌}
use bluetape_py.Common.{
  ℕ, zero, suc, ◌+◌, ◌-◌, Bool, true, false, Option, none, some, List, if◌then◌else◌, ltb, ◌==◌,
}
use bluetape_py.Common.Exec.{Result, ok, raise, Exec, pure, lift, ◌>>=◌, Cell, locked}
use bluetape_py.Id.{
  IdError, id_overflow_error, Tick, Entropy, read_timestamp, read_entropy, from_bytes,
}
use bluetape_py.Id.Ulid.{encode}

abbrev pub max_randomness : ℕ
max_randomness = 2 ^ 80 - 1

module _ {W : Type 0} (clock : Exec IdError W Tick)
    (random_bytes : ℕ → Exec IdError W Entropy) where
  -- `ULIDGenerator.new`
  unfoldable pub new_random : Exec IdError W (List ℕ)
  new_random = do
    timestamp ← read_timestamp clock
    entropy ← read_entropy random_bytes
    pure (encode timestamp (from_bytes 0 entropy))

pub record Monotonic : Type 0 where
  pub last_ms : Option ℕ
  pub randomness : ℕ

abbrev pub new_state : Monotonic
new_state = record { last_ms = none; randomness = 0 }

-- the `else` of `new`, `last` being `self._last_ms`
abbrev advance : ℕ → Monotonic → Result IdError (ℕ × ℕ)
advance last s =
    if s.randomness == max_randomness then raise id_overflow_error else ok (last, s.randomness + 1)

abbrev choose_from : Option ℕ → ℕ → ℕ → Monotonic → Result IdError (ℕ × ℕ)
choose_from none observed fresh s = ok (observed, fresh)
choose_from (some last) observed fresh s =
    if ltb last observed then ok (observed, fresh) else advance last s

-- the timestamp and the randomness of the next ULID
unfoldable pub choose : ℕ → ℕ → Monotonic → Result IdError (ℕ × ℕ)
choose observed fresh s = choose_from s.last_ms observed fresh s

abbrev issue_chosen : Result IdError (ℕ × ℕ) → Monotonic → Result IdError (List ℕ) × Monotonic
issue_chosen (raise e) s = (raise e, s)
issue_chosen (ok (logical, randomness)) s =
    (ok (encode logical randomness), record { last_ms = some logical; randomness = randomness })

-- the block under the lock
unfoldable pub issue : ℕ → ℕ → Monotonic → Result IdError (List ℕ) × Monotonic
issue observed fresh s = issue_chosen (choose observed fresh s) s

module _ {W : Type 0} (cell : Cell W Monotonic) (clock : Exec IdError W Tick)
    (random_bytes : ℕ → Exec IdError W Entropy) where
  unfoldable pub new : Exec IdError W (List ℕ)
  new = do
    observed ← read_timestamp clock
    entropy ← read_entropy random_bytes
    result ← locked cell (issue observed (from_bytes 0 entropy))
    lift result
