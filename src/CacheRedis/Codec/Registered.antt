-- ===== src/CacheRedis/Codec/Registered.antt =====
-- The registry of a codec has the compressor of its writer.
use bluetape_py.Common.{
  ℕ, ◌≡◌, refl, sym, true, some, Option-cases, List, [], ◌∷◌, Bool-cases, inl, inr, arith,
}
use bluetape_py.Common.Texts.{same_text}
use bluetape_py.Common.Exec.{ok}
use bluetape_py.CacheRedis.Binary.RoundTrip.{and_then-ok}
use bluetape_py.CacheRedis.Codec.{
  Compressor, algorithm_for, Registry, find_reader, add_readers, build_reader_registry,
}

pub same_text_self : (text : List ℕ) → same_text text text ≡ true
unfolding same_text
same_text_self [] = refl
same_text_self (c ∷ text) = ground (arith, same_text_self text)

equal_text : (a b : List ℕ) → same_text a b ≡ true → a ≡ b
unfolding same_text
equal_text [] [] h = refl
equal_text [] (y ∷ b) h = cc h
equal_text (x ∷ a) [] h = cc h
equal_text (x ∷ a) (y ∷ b) h =
    let first : x ≡ y = ground arith in let rest = equal_text a b (ground arith) in cc (first, rest)

-- a reader that is there stays
add_readers-keeps :
    (a : List ℕ) (c : Compressor) (readers : List Compressor) (registry built : Registry)
    → find_reader a registry ≡ some c
    → add_readers readers registry ≡ ok built
    → find_reader a built ≡ some c
unfolding add_readers find_reader
add_readers-keeps a c [] registry built found h =
    let same : registry ≡ built = cc h in rw (sym same) found
add_readers-keeps a c (other ∷ readers) registry built found h =
    let (key, k, added) = and_then-ok (algorithm_for other) _ built h in
    elim (Option-cases (find_reader key registry)) [
      | inr (taken, x) ↦ absurd (cc (rw x at added))
      | inl x ↦ elim (Bool-cases (same_text key a)) [
        | inl same ↦ absurd (cc (rw (equal_text key a same) at x, found))
        | inr differs ↦
            add_readers-keeps a c readers ((key, other) ∷ registry) built (rw differs found)
              (rw x at added)
      ]
    ]

pub build_reader_registry-writer :
    (c : Compressor) (a : List ℕ) (readers : List Compressor) (built : Registry)
    → algorithm_for c ≡ ok a
    → build_reader_registry (some c) readers ≡ ok built
    → find_reader a built ≡ some c
unfolding build_reader_registry add_readers find_reader
build_reader_registry-writer c a readers built named h =
    let (key, k, added) = and_then-ok (algorithm_for c) _ built h in
    let same : key ≡ a = cc (k, named) in
    add_readers-keeps a c readers ((key, c) ∷ []) built (rw same (rw (same_text_self a) refl)) added
