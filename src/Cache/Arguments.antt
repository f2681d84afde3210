-- ===== src/Cache/Arguments.antt =====
-- cache/_core.py and _sync.py: the checks of the numbers that a cache is made with.
use bluetape_py.Common.{
  ℕ, zero, suc, ◌+◌, ◌*◌, ◌/◌, ◌≤◌, ◌<◌, ◌≡◌, refl, sym, Bool, Option, none, some, if◌then◌else◌,
  arith,
}
use native.Mathlib.Nat.{div-mul-le_self, lt-div-mul-add}
use bluetape_py.Common.Int.{ℤ, pos, negsuc}
use bluetape_py.Common.Exec.{Result, ok, raise}
use bluetape_py.Cache.Flights.{Cache, CacheError, type_error, value_error, new_cache}

-- An argument that ought to be a number. A finite float is what `as_integer_ratio` gives of it, its
-- denominator being `suc d`; any other is an infinity or not a number.
pub data Number : Type 0 where
  int : ℤ → Number
  bool : Bool → Number
  float : ℤ → (d : ℕ) → Number
  not_finite object : Number

abbrev at_least_one : ℕ → Result CacheError ℕ
at_least_one zero = raise value_error
at_least_one (suc n) = ok (suc n)

unfoldable pub ttl_ns : Number → Result CacheError ℕ
ttl_ns (bool b) = raise type_error
ttl_ns object = raise type_error
ttl_ns not_finite = raise value_error
ttl_ns (int (negsuc n)) = raise value_error
ttl_ns (int (pos zero)) = raise value_error
ttl_ns (int (pos (suc n))) = at_least_one (suc n * 1000000000)
ttl_ns (float (negsuc n) d) = raise value_error
ttl_ns (float (pos zero) d) = raise value_error
ttl_ns (float (pos (suc n)) d) = at_least_one ((suc n * 1000000000) / suc d)

unfoldable pub positive_int : Number → Result CacheError ℕ
positive_int (int (pos (suc n))) = ok (suc n)
positive_int (int (pos zero)) = raise value_error
positive_int (int (negsuc n)) = raise value_error
positive_int _ = raise type_error

abbrev with_inflight :
    {K V : Type 0} → ℕ → ℕ → Result CacheError ℕ → Bool → Result CacheError (ℕ × Cache K V)
with_inflight ttl max_size (raise e) is_callable = raise e
with_inflight ttl max_size (ok max_inflight) is_callable =
    if is_callable then ok (ttl, new_cache max_size max_inflight) else raise type_error

abbrev inflight_of : ℕ → Option Number → Result CacheError ℕ
inflight_of max_size none = ok max_size
inflight_of max_size (some max_inflight) = positive_int max_inflight

abbrev with_size :
    {K V : Type 0}
    → ℕ
    → Result CacheError ℕ
    → Option Number
    → Bool
    → Result CacheError (ℕ × Cache K V)
with_size ttl (raise e) max_inflight is_callable = raise e
with_size ttl (ok max_size) max_inflight is_callable =
    with_inflight ttl max_size (inflight_of max_size max_inflight) is_callable

abbrev with_ttl :
    {K V : Type 0}
    → Result CacheError ℕ
    → Number
    → Option Number
    → Bool
    → Result CacheError (ℕ × Cache K V)
with_ttl (raise e) max_size max_inflight is_callable = raise e
with_ttl (ok ttl) max_size max_inflight is_callable =
    with_size ttl (positive_int max_size) max_inflight is_callable

-- `TTLCache.__init__`: the default time to live and the cache; `is_callable` is that of the clock
unfoldable pub init :
    {K V : Type 0} → Number → Number → Option Number → Bool → Result CacheError (ℕ × Cache K V)
init default_ttl max_size max_inflight is_callable =
    with_ttl (ttl_ns default_ttl) max_size max_inflight is_callable

-- The seconds of an accepted time to live: `numerator / suc d`.
abbrev pub IsSeconds : Number → ℕ → ℕ → Type 0
IsSeconds (int (pos m)) numerator d = (numerator ≡ m) × (d ≡ 0)
IsSeconds (float (pos m) e) numerator d = (numerator ≡ m) × (d ≡ e)
IsSeconds _ numerator d = ⊥

at_least_one-ok : (k n : ℕ) → at_least_one k ≡ ok n → (k ≡ n) × (1 ≤ n)
at_least_one-ok zero n h = absurd (cc h)
at_least_one-ok (suc k) n h = let same : suc k ≡ n = cc h in (same, omega arith)

-- A time to live is accepted as `n` nanoseconds only if it is an int or a finite float above 0, and then
-- `n` is the greatest whole number of nanoseconds not above its exact value, and at least 1.
pub ttl_ns-ok :
    (value : Number) (n : ℕ)
    → ttl_ns value ≡ ok n
    → (1 ≤ n)
      × (numerator : ℕ) × (d : ℕ) × IsSeconds value numerator d
      × (n * suc d ≤ numerator * 1000000000)
      × (numerator * 1000000000 < n * suc d + suc d)
unfolding ttl_ns
ttl_ns-ok (bool b) n h = absurd (cc h)
ttl_ns-ok object n h = absurd (cc h)
ttl_ns-ok not_finite n h = absurd (cc h)
ttl_ns-ok (int (negsuc m)) n h = absurd (cc h)
ttl_ns-ok (int (pos zero)) n h = absurd (cc h)
ttl_ns-ok (int (pos (suc m))) n h =
    let (same, least) = at_least_one-ok (suc m * 1000000000) n h in
    (least, suc m, 0, (refl, refl), omega arith, omega arith)
ttl_ns-ok (float (negsuc m) d) n h = absurd (cc h)
ttl_ns-ok (float (pos zero) d) n h = absurd (cc h)
ttl_ns-ok (float (pos (suc m)) d) n h =
    let (same, least) = at_least_one-ok ((suc m * 1000000000) / suc d) n h in
    (
      least,
      suc m,
      d,
      (refl, refl),
      rw (sym same) (div-mul-le_self (suc m * 1000000000) (suc d)),
      rw (sym same) (lt-div-mul-add {a = suc m * 1000000000} {b = suc d} (omega arith)),
    )
