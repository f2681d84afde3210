-- ===== src/Cache/State/Heap.antt =====
-- The expiry heap: its order, and the items that it has for the entries.
use bluetape_py.Common.{
  ℕ, suc, ◌≤◌, ◌<◌, ◌≡◌, refl, ◌⊎◌, inl, inr, some, List, [], ◌∷◌, arith, length, All, Bool-cases,
}
use bluetape_py.Cache.Dict.{lookup}
use bluetape_py.Cache.State.{Entry, ExpiryItem, is_before, heap_push, rebuild_from}

module _ {K : Type 0} where
  -- Every item is due no later than those behind it.
  abbrev pub Ascending : List (ExpiryItem K) → Type 0
  Ascending [] = Unit
  Ascending (i ∷ heap) = All (λ j. i.expires_at ≤ j.expires_at) heap × Ascending heap

  All-heap_push :
      (P : ExpiryItem K → Type 0) (i : ExpiryItem K) (heap : List (ExpiryItem K))
      → P i
      → All P heap
      → All P (heap_push i heap)
  unfolding heap_push
  All-heap_push P i [] p h = (p, tt)
  All-heap_push P i (j ∷ heap) p h = elim (Bool-cases (is_before i j)) [
    | inl e ↦ rw (e, heap_push) (p, h)
    | inr e ↦ rw (e, heap_push) (h.0, All-heap_push P i heap p h.1)
  ]

  All-le :
      (m n : ℕ) (heap : List (ExpiryItem K))
      → m ≤ n
      → All (λ j. n ≤ j.expires_at) heap
      → All (λ j. m ≤ j.expires_at) heap
  All-le m n [] h a = tt
  All-le m n (j ∷ heap) h a = (omega arith, All-le m n heap h a.1)

  pub Ascending-heap_push :
      (i : ExpiryItem K) (heap : List (ExpiryItem K))
      → Ascending heap
      → Ascending (heap_push i heap)
  unfolding heap_push
  Ascending-heap_push i [] h = (tt, tt)
  Ascending-heap_push i (j ∷ heap) h = elim (Bool-cases (is_before i j)) [
    | inl e ↦
        let early : i.expires_at ≤ j.expires_at = ground arith in
        rw (e, heap_push) ((early, All-le i.expires_at j.expires_at heap early h.0), h)
    | inr e ↦
        let late : j.expires_at ≤ i.expires_at = ground arith in
        rw (e, heap_push)
          (
            All-heap_push (λ k. j.expires_at ≤ k.expires_at) i heap late h.0,
            Ascending-heap_push i heap h.1,
          )
  ]

  pub length-heap_push :
      (i : ExpiryItem K) (heap : List (ExpiryItem K))
      → length (heap_push i heap) ≡ suc (length heap)
  unfolding heap_push
  length-heap_push i [] = refl
  length-heap_push i (j ∷ heap) = ground (arith, length-heap_push i heap)

module _ {K V : Type 0} where
  abbrev pub IsItemOf : K → Entry V → ExpiryItem K → Type 0
  IsItemOf k e i = (i.key ≡ k) × (i.version ≡ e.version) × (i.expires_at ≡ e.expires_at)

  -- The heap has an item for the entry.
  abbrev pub InHeap : K → Entry V → List (ExpiryItem K) → Type 0
  InHeap k e [] = ⊥
  InHeap k e (i ∷ heap) = IsItemOf k e i ⊎ InHeap k e heap

  pub InHeap-push_self :
      (k : K) (e : Entry V) (i : ExpiryItem K) (heap : List (ExpiryItem K))
      → IsItemOf k e i
      → InHeap k e (heap_push i heap)
  unfolding heap_push
  InHeap-push_self k e i [] h = inl h
  InHeap-push_self k e i (j ∷ heap) h = elim (Bool-cases (is_before i j)) [
    | inl b ↦ rw (b, heap_push) (inl h)
    | inr b ↦ rw (b, heap_push) (inr (InHeap-push_self k e i heap h))
  ]

  pub InHeap-push :
      (k : K) (e : Entry V) (i : ExpiryItem K) (heap : List (ExpiryItem K))
      → InHeap k e heap
      → InHeap k e (heap_push i heap)
  unfolding heap_push
  InHeap-push k e i [] h = absurd h
  InHeap-push k e i (j ∷ heap) h = elim (Bool-cases (is_before i j)) [
    | inl b ↦ rw (b, heap_push) (inr h)
    | inr b ↦
        rw (b, heap_push)
          (elim h [ inl here ↦ inl here | inr there ↦ inr (InHeap-push k e i heap there) ])
  ]

  -- an entry whose item is due after `now` is due after `now`
  pub later_than :
      (now : ℕ) (k : K) (e : Entry V) (heap : List (ExpiryItem K))
      → All (λ j. now < j.expires_at) heap
      → InHeap k e heap
      → now < e.expires_at
  later_than now k e [] h m = absurd m
  later_than now k e (i ∷ heap) h (inl here) = omega arith
  later_than now k e (i ∷ heap) h (inr there) = later_than now k e heap h.1 there

module _ {K V : Type 0} (dec : Discrete K) where
  pub InHeap-rebuild :
      (n : ℕ) (k : K) (e : Entry V) (entries : List (K × Entry V))
      → lookup dec k entries ≡ some e
      → InHeap k e (rebuild_from n entries)
  unfolding lookup rebuild_from
  InHeap-rebuild n k e [] h = cc
  InHeap-rebuild n k e ((j, f) ∷ entries) h = elim (dec j k) [
    | yes p ↦ InHeap-push_self k e _ (rebuild_from (suc n) entries) (p, ground arith, ground arith)
    | no p ↦
        InHeap-push k e _ (rebuild_from (suc n) entries)
          (InHeap-rebuild (suc n) k e entries (ground arith))
  ]

module _ {K V : Type 0} where
  pub Ascending-rebuild :
      (n : ℕ) (entries : List (K × Entry V)) → Ascending (rebuild_from n entries)
  unfolding rebuild_from
  Ascending-rebuild n [] = tt
  Ascending-rebuild n ((j, f) ∷ entries) =
      Ascending-heap_push _ _ (Ascending-rebuild (suc n) entries)

  pub length-rebuild :
      (n : ℕ) (entries : List (K × Entry V)) → length (rebuild_from n entries) ≡ length entries
  unfolding rebuild_from
  length-rebuild n [] = refl
  length-rebuild n ((j, f) ∷ entries) =
      omega
        (arith, length-heap_push _ (rebuild_from (suc n) entries), length-rebuild (suc n) entries)
