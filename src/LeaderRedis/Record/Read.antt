-- ===== src/LeaderRedis/Record/Read.antt =====
-- What the client reads of a lease is what it would write.
use bluetape_py.Common.{
  ℕ, ◌≡◌, ◌≢◌, ◌∙◌, refl, ap, List, [], ◌∷◌, ◌++◌, Bool, true, ◌&&◌, ◌||◌, some, ltb, leb, length,
  ◌==◌, Bool-cases, inl, inr, arith,
}
use mathlib.Core.List.{append_assoc}
use bluetape_py.Common.Texts.{codes, same_text, is_among, is_ascii}
use bluetape_py.LeaderRedis.Redis.{number_from, is_positive, are_digits, max_fence}
use bluetape_py.LeaderRedis.Decimal.{decimal-number_from}
use bluetape_py.LeaderRedis.Replies.{is_canonical_fence}
use bluetape_py.LeaderRedis.Record.{
  LeaseRecord, new_record, is_owner_token, all_among, owner_alphabet, to_bytes, more, split_colon,
  parse_parts, parse_record,
}
use bluetape_py.LeaderRedis.Keys.{all_of}
use bluetape_py.LeaderRedis.Scripts.{is_word}
use bluetape_py.LeaderRedis.Scripts.Leases.{are_words}

pub same_text-eq : (a b : List ℕ) → same_text a b ≡ true → a ≡ b
unfolding same_text
same_text-eq [] [] h = refl
same_text-eq [] (y ∷ b) h = cc h
same_text-eq (x ∷ a) [] h = cc h
same_text-eq (x ∷ a) (y ∷ b) h =
    let first : x ≡ y = ground arith in
    let rest = same_text-eq a b (ground arith) in cc (first, rest)

abbrev join : List (List ℕ) → List ℕ
join [] = []
join (part ∷ []) = part
join (part ∷ next ∷ parts) = part ++ b':' ∷ join (next ∷ parts)

join-more : (c : ℕ) (parts : List (List ℕ)) → join (more c parts) ≡ c ∷ join parts
join-more c [] = refl
join-more c (part ∷ []) = refl
join-more c (part ∷ next ∷ parts) = refl

join-empty : (parts : List (List ℕ)) → parts ≢ [] → join ([] ∷ parts) ≡ b':' ∷ join parts
join-empty [] h = absurd (h refl)
join-empty (part ∷ parts) h = refl

more-ne : (c : ℕ) (parts : List (List ℕ)) → more c parts ≢ []
more-ne c [] h = cc h
more-ne c (part ∷ parts) h = cc h

split_colon-ne : (value : List ℕ) → split_colon value ≢ []
unfolding split_colon
split_colon-ne [] = λ h. cc h
split_colon-ne (c ∷ value) = elim (Bool-cases (c == b':')) [
  | inl b ↦ rw b (λ h. cc h)
  | inr b ↦ rw b (more-ne c (split_colon value))
]

join-split_colon : (value : List ℕ) → join (split_colon value) ≡ value
unfolding split_colon
join-split_colon [] = refl
join-split_colon (c ∷ value) = elim (Bool-cases (c == b':')) [
  | inl b ↦ rw b (
      let colon : c ≡ b':' = ground arith in
      join-empty (split_colon value) (split_colon-ne value) ∙ cc (colon, join-split_colon value))
  | inr b ↦ rw b (join-more c (split_colon value) ∙ ap (λ x. c ∷ x) (join-split_colon value))
]

among-digit : (c : ℕ) → is_among c (codes "123456789") ≡ true → (leb b'1' c && leb c b'9') ≡ true
unfolding is_among
among-digit c h = ground arith

canonical-is_positive :
    (fence : List ℕ) → is_canonical_fence fence ≡ true → is_positive fence ≡ true
unfolding is_canonical_fence is_positive are_digits
canonical-is_positive [] h = cc h
canonical-is_positive (c ∷ fence) h =
    let first = among-digit c (ground arith) in ground (arith, first)

pub new_record-some :
    (owner : List ℕ) (fence : ℕ) (r : LeaseRecord)
    → new_record owner fence ≡ some r
    → (is_owner_token owner ≡ true) × (r ≡ record { owner_token = owner; fencing_token = fence })
unfolding new_record
new_record-some owner fence r h = elim (Bool-cases (is_owner_token owner)) [
  | inr b ↦ absurd (cc (rw b at h))
  | inl b ↦ elim (Bool-cases (leb fence 0 || ltb (number_from 0 max_fence) fence)) [
    | inl c ↦ absurd (cc (rw (b, c) at h))
    | inr c ↦ (b, cc (rw (b, c) at h))
  ]
]

spelled :
    (owner fence : List ℕ)
    → codes "v1:" ++ owner ++ codes ":" ++ fence ≡ join (codes "v1" ∷ owner ∷ fence ∷ [])
spelled owner fence = ap (λ x. codes "v1:" ++ x) (append_assoc owner (codes ":") fence)

parts-to_bytes :
    (parts : List (List ℕ)) (r : LeaseRecord) → parse_parts parts ≡ some r → to_bytes r ≡ join parts
unfolding to_bytes
parts-to_bytes [] r h = absurd (cc h)
parts-to_bytes (a ∷ []) r h = absurd (cc h)
parts-to_bytes (a ∷ b ∷ []) r h = absurd (cc h)
parts-to_bytes (a ∷ b ∷ c ∷ d ∷ rest) r h = absurd (cc h)
parts-to_bytes (version ∷ owner ∷ fence ∷ []) r h =
    elim (Bool-cases (same_text version (codes "v1"))) [
      | inr x ↦ absurd (cc (rw x at h))
      | inl x ↦ elim (Bool-cases (is_owner_token owner)) [
        | inr y ↦ absurd (cc (rw (x, y) at h))
        | inl y ↦ elim (Bool-cases (is_canonical_fence fence)) [
          | inr z ↦ absurd (cc (rw (x, y, z) at h))
          | inl z ↦
              let known = new_record-some owner (number_from 0 fence) r (rw (x, y, z) at h) in
              rw (known.1) (
                rw (same_text-eq version (codes "v1") x) (
                  rw (decimal-number_from fence (canonical-is_positive fence z))
                    (spelled owner fence)))
        ]
      ]
    ]

-- The lease that the client reads of a text is written as this very text.
pub to_bytes-parse_record :
    (value : List ℕ) (r : LeaseRecord) → parse_record value ≡ some r → to_bytes r ≡ value
unfolding parse_record
to_bytes-parse_record value r h = elim (Bool-cases (is_ascii value)) [
  | inr b ↦ absurd (cc (rw b at h))
  | inl b ↦ parts-to_bytes (split_colon value) r (rw b at h) ∙ join-split_colon value
]

among-all :
    (test : ℕ → Bool) (c : ℕ) (xs : List ℕ)
    → all_of test xs ≡ true
    → is_among c xs ≡ true
    → test c ≡ true
unfolding all_of is_among
among-all test c [] h m = absurd (cc m)
among-all test c (x ∷ xs) h m = elim (Bool-cases (c == x)) [
  | inl b ↦
      let same : c ≡ x = ground arith in
      let first : test x ≡ true = ground arith in cc (same, first)
  | inr b ↦ among-all test c xs (ground arith) (ground arith)
]

alphabet_words : all_of is_word owner_alphabet ≡ true
unfolding all_of
alphabet_words = refl

all_among-are_words : (owner : List ℕ) → all_among owner ≡ true → are_words owner ≡ true
unfolding all_among are_words
all_among-are_words [] h = refl
all_among-are_words (c ∷ owner) h =
    let first = among-all is_word c owner_alphabet alphabet_words (ground arith) in
    let rest = all_among-are_words owner (ground arith) in rw (first, rest) refl

-- a token of the client is one for the scripts
pub token-are_words :
    (owner : List ℕ) → is_owner_token owner ≡ true → (are_words owner ≡ true) × (length owner ≡ 32)
unfolding is_owner_token
token-are_words owner h = (all_among-are_words owner (ground arith), ground arith)
