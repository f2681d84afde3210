-- ===== src/Cache/Flights/Places.antt =====
-- What happens to the flight at a place.
use bluetape_py.Common.{
  ℕ, zero, suc, ◌≤◌, ◌≡◌, ◌≢◌, refl, ap, ◌⊎◌, inl, inr, true, false, Option, none, some, List, [],
  ◌∷◌, ◌++◌, arith, length,
}
use bluetape_py.Cache.Flights.{
  SyncFlight, get_elem?, modify, supersede_if, supersede_all, owns, discard,
}

-- There is an element at a place, with a property.
abbrev pub Holds : {A : Type 0} → (A → Type 0) → ℕ → List A → Type 0
Holds {A} P i xs = (x : A) × (get_elem? xs i ≡ some x) × P x

module _ {A : Type 0} where
  pub Holds-modify :
      (P : A → Type 0) (h : A → A)
      → ((x : A) → P x → P (h x))
      → (xs : List A) (i j : ℕ) → Holds P i xs
      → Holds P i (modify xs j h)
  unfolding modify
  Holds-modify P h keeps [] i j (x, e, p) = (x, e, p)
  Holds-modify P h keeps (y ∷ ys) zero zero (x, e, p) =
      let same : y ≡ x = cc e in (h x, rw same, keeps x p)
  Holds-modify P h keeps (y ∷ ys) zero (suc j) (x, e, p) = (x, e, p)
  Holds-modify P h keeps (y ∷ ys) (suc i) zero (x, e, p) = (x, e, p)
  Holds-modify P h keeps (y ∷ ys) (suc i) (suc j) held = Holds-modify P h keeps ys i j held

  pub Holds-modify_ne :
      (P : A → Type 0) (h : A → A) (xs : List A) (i j : ℕ)
      → i ≢ j
      → Holds P i xs
      → Holds P i (modify xs j h)
  unfolding modify
  Holds-modify_ne P h [] i j ne (x, e, p) = (x, e, p)
  Holds-modify_ne P h (y ∷ ys) zero zero ne held = absurd (ne refl)
  Holds-modify_ne P h (y ∷ ys) zero (suc j) ne (x, e, p) = (x, e, p)
  Holds-modify_ne P h (y ∷ ys) (suc i) zero ne (x, e, p) = (x, e, p)
  Holds-modify_ne P h (y ∷ ys) (suc i) (suc j) ne held =
      Holds-modify_ne P h ys i j (λ e. ne (ap suc e)) held

  -- the element that is changed
  pub Holds-modify_self :
      (P Q : A → Type 0) (h : A → A)
      → ((x : A) → P x → Q (h x))
      → (xs : List A) (i : ℕ) → Holds P i xs
      → Holds Q i (modify xs i h)
  unfolding modify
  Holds-modify_self P Q h makes [] i (x, e, p) = absurd (cc e)
  Holds-modify_self P Q h makes (y ∷ ys) zero (x, e, p) =
      let same : y ≡ x = cc e in (h x, rw same, makes x p)
  Holds-modify_self P Q h makes (y ∷ ys) (suc i) held = Holds-modify_self P Q h makes ys i held

  pub Holds-append : (P : A → Type 0) (xs ys : List A) (i : ℕ) → Holds P i xs → Holds P i (xs ++ ys)
  Holds-append P [] ys i (x, e, p) = absurd (cc e)
  Holds-append P (y ∷ xs) ys zero held = held
  Holds-append P (y ∷ xs) ys (suc i) held = Holds-append P xs ys i held

  pub Holds-last : (P : A → Type 0) (xs : List A) (x : A) → P x → Holds P (length xs) (xs ++ x ∷ [])
  Holds-last P [] x p = (x, refl, p)
  Holds-last P (y ∷ xs) x p = Holds-last P xs x p

  -- where an element stands after a change at `j`, there stood one before
  pub get_elem?-modify :
      (h : A → A) (xs : List A) (i j : ℕ) (x : A)
      → get_elem? (modify xs j h) i ≡ some x
      → (y : A) × (get_elem? xs i ≡ some y) × (((i ≡ j) × (x ≡ h y)) ⊎ ((i ≢ j) × (x ≡ y)))
  unfolding modify
  get_elem?-modify h [] i j x e = absurd (cc e)
  get_elem?-modify h (y ∷ ys) zero zero x e = (y, refl, inl (refl, cc e))
  get_elem?-modify h (y ∷ ys) zero (suc j) x e =
      (y, refl, inr (λ z. absurd (omega (arith, z)), cc e))
  get_elem?-modify h (y ∷ ys) (suc i) zero x e = (x, e, inr (λ z. absurd (omega (arith, z)), refl))
  get_elem?-modify h (y ∷ ys) (suc i) (suc j) x e =
      let (z, at, how) = get_elem?-modify h ys i j x e in
      (
        z,
        at,
        elim how [
          | inl (same, is) ↦ inl (ap suc same, is)
          | inr (ne, is) ↦ inr ((λ s. ne (omega (arith, s))), is)
        ],
      )

  pub get_elem?-append :
      (xs : List A) (y : A) (i : ℕ) (x : A)
      → get_elem? (xs ++ y ∷ []) i ≡ some x
      → (get_elem? xs i ≡ some x) ⊎ ((i ≡ length xs) × (x ≡ y))
  get_elem?-append [] y zero x e = inr (refl, cc e)
  get_elem?-append [] y (suc i) x e = absurd (cc e)
  get_elem?-append (z ∷ xs) y zero x e = inl e
  get_elem?-append (z ∷ xs) y (suc i) x e = elim (get_elem?-append xs y i x e) [
    | inl old ↦ inl old
    | inr (at, is) ↦ inr (ap suc at, is)
  ]

pub owns-discard : (i j : ℕ) (owned : List ℕ) → i ≢ j → owns i (discard j owned) ≡ owns i owned
unfolding owns discard
owns-discard i j [] ne = refl
owns-discard i j (k ∷ owned) ne = ground (arith, owns-discard i j owned)

pub owns-discard_self : (i : ℕ) (owned : List ℕ) → owns i (discard i owned) ≡ false
unfolding owns discard
owns-discard_self i [] = refl
owns-discard_self i (k ∷ owned) = ground (arith, owns-discard_self i owned)

pub length-discard-le : (i : ℕ) (owned : List ℕ) → length (discard i owned) ≤ length owned
unfolding discard
length-discard-le i [] = omega arith
length-discard-le i (k ∷ owned) = ground (arith, length-discard-le i owned)

module _ {K V : Type 0} where
  -- a property that a supersession keeps
  abbrev pub Outlives : (SyncFlight K V → Type 0) → Type 0
  Outlives P = (f : SyncFlight K V) → P f → P (record f { superseded = true })

  pub Holds-supersede_if :
      (P : SyncFlight K V → Type 0)
      → Outlives P
      → (o : Option ℕ) (flights : List (SyncFlight K V)) (i : ℕ) → Holds P i flights
      → Holds P i (supersede_if o flights)
  Holds-supersede_if P keeps none flights i held = held
  Holds-supersede_if P keeps (some j) flights i held = Holds-modify P _ keeps flights i j held

  pub Holds-supersede_all :
      (P : SyncFlight K V → Type 0)
      → Outlives P
      → (active : List (K × ℕ)) (flights : List (SyncFlight K V)) (i : ℕ) → Holds P i flights
      → Holds P i (supersede_all active flights)
  unfolding supersede_all
  Holds-supersede_all P keeps [] flights i held = held
  Holds-supersede_all P keeps ((k, j) ∷ active) flights i held =
      Holds-supersede_all P keeps active _ i (Holds-modify P _ keeps flights i j held)
