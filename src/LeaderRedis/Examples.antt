-- ===== src/LeaderRedis/Examples.antt =====
-- Tests of the scripts on a small server: three keys, and time that stands still.
mod Served
mod Timed
use bluetape_py.Common.{ℕ, suc, ap, ◌<◌, ◌≡◌, ◌≢◌, refl, sym, List, [], Option, none, some, arith}
use bluetape_py.Common.Int.{ℤ, pos}
use bluetape_py.Common.Texts.{codes, same_text, is_among, is_ascii}
use bluetape_py.LeaderRedis.Redis.{
  Redis, Key, lease_key, fence_key, history_key, Kind, missing, string, forever, number_from,
  are_digits, text_le, is_positive, valid_fence,
}
use bluetape_py.LeaderRedis.Scripts.{
  releases, acquired, contended, split_owner, fence_of, record_of, history_corrupt, fence_corrupt,
  lease_corrupt, is_exhausted, grant, acquire, check_lease, renew, probe, reconcile, release, held,
  not_held,
}
use bluetape_py.LeaderRedis.Decimal.{digits_loop, decimal, number-digits_loop}
use bluetape_py.LeaderRedis.Replies.{
  wire, response_parts, is_canonical_fence, canonical_positive_decimal, parse_acquire_response,
  Means, acquire-Means,
}
use bluetape_py.LeaderRedis.Scripts.Leases.{are_words, IsNothing, only_the_holder}
use bluetape_py.LeaderRedis.Scripts.Fences.{
  number, SameAt, IsRedis, run_call, here, next, fences_increase,
}

record Server : Type 0 where
  lease : Option (List ℕ × ℤ)
  fence : Option (List ℕ × ℤ)
  history : Option (List ℕ × ℤ)

abbrev value_at : Key → Server → Option (List ℕ × ℤ)
value_at lease_key d = d.lease
value_at fence_key d = d.fence
value_at history_key d = d.history

abbrev put_at : Key → Option (List ℕ × ℤ) → Server → Server
put_at lease_key v d = record d { lease = v }
put_at fence_key v d = record d { fence = v }
put_at history_key v d = record d { history = v }

abbrev kind_of : Option (List ℕ × ℤ) → Kind
kind_of none = missing
kind_of (some v) = string

abbrev text_of : Option (List ℕ × ℤ) → List ℕ
text_of none = []
text_of (some v) = v.0

abbrev ttl_of : Option (List ℕ × ℤ) → ℤ
ttl_of none = forever
ttl_of (some v) = v.1

abbrev incremented : Option (List ℕ × ℤ) → Option (List ℕ × ℤ)
incremented none = some (codes "1", forever)
incremented (some (text, ttl)) = some (decimal (suc (number text)), ttl)

abbrev expiring : Option (List ℕ × ℤ) → Option (List ℕ × ℤ)
expiring none = none
expiring (some (text, ttl)) = some (text, pos 1)

abbrev server : Redis
server = record {
  Data = Server;
  kind = λ k d. kind_of (value_at k d);
  get = λ k d. text_of (value_at k d);
  pttl = λ k d. ttl_of (value_at k d);
  set = λ k text d. put_at k (some (text, forever)) d;
  set_px = λ k text ttl d. put_at k (some (text, pos 1)) d;
  incr = λ k d. put_at k (incremented (value_at k d)) d;
  del = λ k d. put_at k none d;
  pexpire = λ k ttl d. put_at k (expiring (value_at k d)) d;
  Later = λ d e. d ≡ e;
}

value_at-put_at :
    (j k : Key) (v : Option (List ℕ × ℤ)) (d : Server)
    → j ≢ k
    → value_at j (put_at k v d) ≡ value_at j d
value_at-put_at lease_key lease_key v d h = absurd (h refl)
value_at-put_at fence_key fence_key v d h = absurd (h refl)
value_at-put_at history_key history_key v d h = absurd (h refl)
value_at-put_at lease_key fence_key v d h = refl
value_at-put_at lease_key history_key v d h = refl
value_at-put_at fence_key lease_key v d h = refl
value_at-put_at fence_key history_key v d h = refl
value_at-put_at history_key lease_key v d h = refl
value_at-put_at history_key fence_key v d h = refl

value_at-put_at_self :
    (k : Key) (v : Option (List ℕ × ℤ)) (d : Server) → value_at k (put_at k v d) ≡ v
value_at-put_at_self lease_key v d = refl
value_at-put_at_self fence_key v d = refl
value_at-put_at_self history_key v d = refl

server-IsRedis : IsRedis server
unfolding number_from
server-IsRedis = record {
  set-other = λ j k text d h. same j k _ d h;
  set_px-other = λ j k text ttl d h. same j k _ d h;
  set_px-own =
      λ k text ttl d. rw (value_at-put_at_self k (some (text, pos 1)) d) (refl, refl, refl, refl);
  del-other = λ j k d h. same j k none d h;
  pexpire-other = λ j k ttl d h. same j k _ d h;
  incr-missing = λ k d h. fresh k d (value_at k d) refl h;
  incr-string = λ k d h good less. counted k d (value_at k d) refl h;
  later-same = λ k d e p h t. (
    ap (λ x. kind_of (value_at k x)) (sym p),
    ap (λ x. text_of (value_at k x)) (sym p),
    ap (λ x. ttl_of (value_at k x)) (sym p),
  );
}
  where
    same :
        (j k : Key) (v : Option (List ℕ × ℤ)) (d : Server)
        → j ≢ k
        → SameAt server j d (put_at k v d)
    same j k v d h = rw (value_at-put_at j k v d h) (refl, refl, refl)

    fresh :
        (k : Key) (d : Server) (v : Option (List ℕ × ℤ))
        → value_at k d ≡ v
        → kind_of (value_at k d) ≡ missing
        → (kind_of (value_at k (put_at k (incremented (value_at k d)) d)) ≡ string)
          × (text_of (value_at k (put_at k (incremented (value_at k d)) d)) ≡ codes "1")
          × (ttl_of (value_at k (put_at k (incremented (value_at k d)) d)) ≡ forever)
    fresh k d none e h =
        rw (value_at-put_at_self k (incremented (value_at k d)) d) (rw e (refl, refl, refl))
    fresh k d (some v) e h = absurd (cc (e, h))

    counted :
        (k : Key) (d : Server) (v : Option (List ℕ × ℤ))
        → value_at k d ≡ v
        → kind_of (value_at k d) ≡ string
        → (kind_of (value_at k (put_at k (incremented (value_at k d)) d)) ≡ string)
          × (number (text_of (value_at k (put_at k (incremented (value_at k d)) d)))
              ≡ suc (number (text_of (value_at k d))))
          × (ttl_of (value_at k (put_at k (incremented (value_at k d)) d)) ≡ ttl_of (value_at k d))
    counted k d none e h = absurd (cc (e, h))
    counted k d (some (text, ttl)) e h =
        rw (value_at-put_at_self k (incremented (value_at k d)) d) (
          rw e (
            refl,
            number-digits_loop (suc (suc (number text))) (suc (number text)) [] (omega arith),
            refl,
          ))

program : Unit {0}
unfolding number_from are_digits text_le is_positive valid_fence split_owner fence_of
    history_corrupt fence_corrupt lease_corrupt is_exhausted grant acquire check_lease renew probe
    reconcile release run_call same_text digits_loop
program = tt

abbrev alice : List ℕ
alice = codes "abcdefghijklmnopqrstuvwxyz_-0123"

abbrev bob : List ℕ
bob = codes "ABCDEFGHIJKLMNOPQRSTUVWXYZ_-0123"

abbrev no_data : Server
no_data = record { lease = none; fence = none; history = none }

abbrev held_by_alice : Server
held_by_alice = (acquire server alice (codes "5000") no_data).1

-- no one else acquires a lease that is held, and its holder is told so
refuses :
    ((acquire server bob (codes "5000") held_by_alice).0 ≡ contended)
    × ((probe server (record_of alice (codes "1")) held_by_alice).0 ≡ held)
    × ((probe server (record_of bob (codes "1")) held_by_alice).0 ≡ not_held)
unfolding program
refuses = (refl, refl, refl)

abbrev released : Server
released = (run_call server (releases (record_of alice (codes "1")) (codes "0")) held_by_alice).1

fences_increase_example : number (codes "1") < number (codes "2")
unfolding program
fences_increase_example =
    fences_increase server server-IsRedis alice (codes "5000") (codes "1") bob (codes "5000")
      (codes "2") no_data released refl
      (next here (releases (record_of alice (codes "1")) (codes "0"))) refl

only_the_holder_example :
    IsNothing server
      (run_call server (releases (record_of bob (codes "1")) (codes "0")) held_by_alice)
      held_by_alice
unfolding program
only_the_holder_example =
    only_the_holder server (releases (record_of bob (codes "1")) (codes "0")) held_by_alice refl
      refl

-- a fence with a leading zero is refused
leading_zero : parse_acquire_response (wire (acquired (codes "01"))) ≡ none
unfolding program parse_acquire_response response_parts canonical_positive_decimal
    is_canonical_fence is_ascii is_among
leading_zero = refl
