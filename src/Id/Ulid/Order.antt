-- ===== src/Id/Ulid/Order.antt =====
-- The order of texts is the order of the numbers that they are written for.
use bluetape_py.Common.{
  Bool-cases, ltb→lt, ap, ℕ, zero, suc, ◌+◌, ◌*◌, ◌/◌, ◌%◌, ◌<◌, ◌≡◌, refl, ◌⊎◌, inl, inr, Bool,
  true, false, List, [], ◌∷◌, arith, ltb, if◌then◌else◌, ◌==◌,
}
use bluetape_py.Id.Ulid.{symbol, encode_loop, encode}
use bluetape_py.Id.Ulid.Digits.{places, checks, checks-at}
use Prim.Native.Nat.{◌^◌}

-- `a < b` on texts of one length
unfoldable pub precedes : List ℕ → List ℕ → Bool
precedes [] b = false
precedes (x ∷ a) [] = false
precedes (x ∷ a) (y ∷ b) =
    let rest = precedes a b in if ltb x y then true else if x == y then rest else false

abbrev ascends_at : ℕ → ℕ → Bool
ascends_at e d = if ltb d e then ltb (symbol d) (symbol e) else true

abbrev ascends_below : ℕ → Bool
ascends_below e = checks (ascends_at e) 32

ascends_table : checks ascends_below 32 ≡ true
unfolding checks symbol
ascends_table = refl

symbol_mono : (d e : ℕ) → d < e → e < 32 → ltb (symbol d) (symbol e) ≡ true
symbol_mono d e h k =
    let row = checks-at ascends_below k ascends_table in
    let below : d < 32 = omega arith in ground (arith, checks-at (ascends_at e) below row)

-- The order is decided before the last `out`, or at it.
abbrev Ordered : ℕ → ℕ → List ℕ → List ℕ → Type 0
Ordered m n out out' = (m < n) ⊎ ((m ≡ n) × (precedes out out' ≡ true))

digits-Ordered :
    (m n : ℕ) (out out' : List ℕ)
    → Ordered m n out out'
    → Ordered (m / 32) (n / 32) (symbol (m % 32) ∷ out) (symbol (n % 32) ∷ out')
unfolding precedes
digits-Ordered m n out out' (inr (same, less)) = inr (ap (λ k. k / 32) same, rw same (ground arith))
digits-Ordered m n out out' (inl less) = elim (Bool-cases (ltb (m / 32) (n / 32))) [
  | inl high ↦ inl (ltb→lt (m / 32) (n / 32) high)
  | inr high ↦
      let same : m / 32 ≡ n / 32 = ground arith in
      inr (same, rw (symbol_mono (m % 32) (n % 32) (omega arith) (omega arith)))
]

precedes-encode_loop :
    (k m n : ℕ) (out out' : List ℕ)
    → n < places k
    → Ordered m n out out'
    → precedes (encode_loop k m out) (encode_loop k n out') ≡ true
unfolding encode_loop
precedes-encode_loop zero m n out out' h (inl less) = absurd (omega arith)
precedes-encode_loop zero m n out out' h (inr (same, less)) = less
precedes-encode_loop (suc k) m n out out' h o =
    precedes-encode_loop k (m / 32) (n / 32) (symbol (m % 32) ∷ out) (symbol (n % 32) ∷ out')
      (omega arith) (digits-Ordered m n out out' o)

-- A ULID with the lesser timestamp, or with the same timestamp and the lesser randomness, comes
-- first in the order of texts.
pub encode_mono :
    (t r t' r' : ℕ)
    → t' < 2 ^ 48
    → r < 2 ^ 80
    → r' < 2 ^ 80
    → t * 2 ^ 80 + r < t' * 2 ^ 80 + r'
    → precedes (encode t r) (encode t' r') ≡ true
unfolding encode
encode_mono t r t' r' ht hr hr' less =
    precedes-encode_loop 26 (t * 2 ^ 80 + r) (t' * 2 ^ 80 + r') [] [] (omega arith) (inl less)
