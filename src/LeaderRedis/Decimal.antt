-- ===== src/LeaderRedis/Decimal.antt =====
-- The text of a number, Python's `str` of an int above 0, and its reading.
use bluetape_py.Common.{
  ℕ, zero, suc, ◌+◌, ◌-◌, ◌*◌, ◌/◌, ◌%◌, ◌≤◌, ◌<◌, ◌≡◌, refl, ap, ◌∙◌, List, [], ◌∷◌, ◌++◌, true,
  false, Bool-cases, inl, inr, if◌then◌else◌, ltb, leb, arith,
}
use mathlib.Core.List.{append-nil}
use bluetape_py.LeaderRedis.Redis.{number_from, are_digits, is_positive}

unfoldable pub digits_loop : ℕ → ℕ → List ℕ → List ℕ
digits_loop zero n out = out
digits_loop (suc fuel) n out =
    let rest = digits_loop fuel (n / 10) ((b'0' + n % 10) ∷ out) in
    if ltb n 10 then (b'0' + n) ∷ out else rest

-- `n` rounds are enough: each divides by ten
abbrev pub decimal : ℕ → List ℕ
decimal n = digits_loop (suc n) n []

pub number-digits_loop :
    (fuel n : ℕ) (out : List ℕ)
    → n < fuel
    → number_from 0 (digits_loop fuel n out) ≡ number_from n out
unfolding digits_loop number_from
number-digits_loop zero n out h = absurd (omega arith)
number-digits_loop (suc fuel) n out h = elim (Bool-cases (ltb n 10)) [
  | inl small ↦
      rw small (ap (λ m. number_from m out) {x = 0 * 10 + ((48 + n) - 48)} {y = n} (omega arith))
  | inr large ↦ rw large (
      number-digits_loop fuel (n / 10) ((48 + n % 10) ∷ out) (ground arith)
      ∙ ap (λ m. number_from m out) {x = n / 10 * 10 + ((48 + n % 10) - 48)} {y = n} (omega arith))
]

digits_loop-fuel :
    (f g n : ℕ) (out : List ℕ) → n < f → n < g → digits_loop f n out ≡ digits_loop g n out
unfolding digits_loop
digits_loop-fuel zero g n out h k = absurd (omega arith)
digits_loop-fuel (suc f) zero n out h k = absurd (omega arith)
digits_loop-fuel (suc f) (suc g) n out h k = elim (Bool-cases (ltb n 10)) [
  | inl small ↦ rw small refl
  | inr large ↦
      rw large (digits_loop-fuel f g (n / 10) ((48 + n % 10) ∷ out) (ground arith) (ground arith))
]

-- the last digit of a number, put back
digits_loop-last :
    (f g acc c : ℕ) (out : List ℕ)
    → 1 ≤ acc
    → leb b'0' c ≡ true
    → leb c b'9' ≡ true
    → acc * 10 + (c - 48) < f
    → acc < g
    → digits_loop f (acc * 10 + (c - 48)) out ≡ digits_loop g acc (c ∷ out)
unfolding digits_loop
digits_loop-last zero g acc c out one lo hi h k = absurd (omega arith)
digits_loop-last (suc f) g acc c out one lo hi h k =
    let tens : ltb (acc * 10 + (c - 48)) 10 ≡ false = ground arith in
    let quotient : (acc * 10 + (c - 48)) / 10 ≡ acc = ground arith in
    let digit : 48 + (acc * 10 + (c - 48)) % 10 ≡ c = ground arith in
    rw tens (rw quotient (rw digit (digits_loop-fuel f g acc (c ∷ out) (ground arith) k)))

digits_loop-number :
    (text : List ℕ) (f g acc : ℕ) (out : List ℕ)
    → 1 ≤ acc
    → are_digits text ≡ true
    → number_from acc text < f
    → acc < g
    → digits_loop f (number_from acc text) out ≡ digits_loop g acc (text ++ out)
unfolding number_from are_digits
digits_loop-number [] f g acc out one d h k = digits_loop-fuel f g acc out h k
digits_loop-number (c ∷ text) f g acc out one d h k =
    let first = acc * 10 + (c - 48) in
    let lo : leb b'0' c ≡ true = ground arith in
    let hi : leb c b'9' ≡ true = ground arith in
    let rest : are_digits text ≡ true = ground arith in
    digits_loop-number text f (suc first) first out (omega arith) rest h (omega arith)
    ∙ digits_loop-last (suc first) g acc c (text ++ out) one lo hi (omega arith) k

-- A text of digits that does not start with 0 is what the number that it reads as is written as.
pub decimal-number_from :
    (text : List ℕ) → is_positive text ≡ true → decimal (number_from 0 text) ≡ text
unfolding is_positive number_from digits_loop
decimal-number_from [] h = absurd (cc h)
decimal-number_from (c ∷ text) h =
    let lo : leb b'1' c ≡ true = ground arith in
    let hi : leb c b'9' ≡ true = ground arith in
    let rest : are_digits text ≡ true = ground arith in
    let first = 0 * 10 + (c - 48) in
    let small : ltb first 10 ≡ true = ground arith in
    let back : 48 + first ≡ c = ground arith in
    digits_loop-number text (suc (number_from first text)) (suc first) first [] (ground arith) rest
      (omega arith) (omega arith)
    ∙ rw small (rw back (rw append-nil refl))
