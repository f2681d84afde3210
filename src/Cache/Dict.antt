-- ===== src/Cache/Dict.antt =====
-- Python's dictionaries in insertion order, and sets, over keys with decidable equality.
use mathlib.Core.Logic.{ite}
use bluetape_py.Common.{
  ◌≤◌, ◌≡◌, ◌≢◌, refl, Bool, true, false, Option, none, some, List, [], ◌∷◌, ◌++◌, arith, length,
}

module _ {K V : Type 0} (dec : Discrete K) where
  -- `d.get(key)`
  unfoldable pub lookup : K → List (K × V) → Option V
  lookup k [] = none
  lookup k ((j, v) ∷ d) = ite (dec j k) (some v) (lookup k d)

  -- `d.pop(key, None)`
  unfoldable pub remove : K → List (K × V) → List (K × V)
  remove k [] = []
  remove k ((j, v) ∷ d) = ite (dec j k) (remove k d) ((j, v) ∷ remove k d)

  -- `d[key] = v; d.move_to_end(key)`, and for a plain dictionary an assignment
  abbrev pub put_last : K → V → List (K × V) → List (K × V)
  put_last k v d = remove k d ++ (k, v) ∷ []

  pub lookup-remove_self : (k : K) (d : List (K × V)) → lookup k (remove k d) ≡ none
  unfolding lookup remove
  lookup-remove_self k [] = refl
  lookup-remove_self k ((j, v) ∷ d) = ground (arith, lookup-remove_self k d)

  pub lookup-remove_ne : (k j : K) (d : List (K × V)) → j ≢ k → lookup j (remove k d) ≡ lookup j d
  unfolding lookup remove
  lookup-remove_ne k j [] h = refl
  lookup-remove_ne k j ((i, v) ∷ d) h = ground (arith, lookup-remove_ne k j d h)

  pub lookup-append :
      (k : K) (d e : List (K × V))
      → lookup k (d ++ e) ≡ elim (lookup k d) [ some v ↦ some v | none ↦ lookup k e ]
  unfolding lookup
  lookup-append k [] e = refl
  lookup-append k ((j, v) ∷ d) e = ground (arith, lookup-append k d e)

  pub length-remove-le : (k : K) (d : List (K × V)) → length (remove k d) ≤ length d
  unfolding remove
  length-remove-le k [] = omega arith
  length-remove-le k ((j, v) ∷ d) = ground (arith, length-remove-le k d)

  -- No key stands twice.
  abbrev pub Unique : List (K × V) → Type 0
  Unique [] = Unit
  Unique ((k, v) ∷ d) = (lookup k d ≡ none) × Unique d

module _ {K : Type 0} (dec : Discrete K) where
  -- `key in s`
  unfoldable pub member : K → List K → Bool
  member k [] = false
  member k (j ∷ s) = ite (dec j k) true (member k s)
