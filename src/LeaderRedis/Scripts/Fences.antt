-- ===== src/LeaderRedis/Scripts/Fences.antt =====
-- Fencing: every fence that is handed out is greater than all that were handed out before it.
use bluetape_py.Common.{
  ℕ, zero, suc, ◌≡◌, ◌≢◌, ◌<◌, ◌≤◌, ◌∙◌, ap, subst, refl, List, true, false, ◌||◌, inl, inr, ◌⊎◌,
  Bool-cases, arith,
}
use bluetape_py.Common.Int.{ℤ, pos, negsuc}
use bluetape_py.Common.Texts.{codes, same_text}
use bluetape_py.LeaderRedis.Redis.{
  Redis, Key, lease_key, fence_key, history_key, Kind, missing, string, other_kind, forever,
  number_from, valid_fence, max_fence,
}
use bluetape_py.LeaderRedis.Scripts.{
  Call, acquires, renews, probes, reconciles, releases, Reply, corrupt, contended, not_held,
  renewed, held, absent, deleted, min_ttl_applied, acquired, present, if_current, grant, acquire,
  renew, probe, reconcile, release, check_lease, is_exhausted, fence_corrupt, history_corrupt,
  lease_corrupt, is_missing, is_forever, is_over, with_history,
}

abbrev pub number : List ℕ → ℕ
number text = number_from 0 text

module _ (redis : Redis) where
  abbrev Data : Type 0
  Data = redis.Data

  -- A key has the same value and the same expiry.
  abbrev pub SameAt : Key → Data → Data → Type 0
  SameAt k d e =
      (redis.kind k e ≡ redis.kind k d)
      × (redis.get k e ≡ redis.get k d)
      × (redis.pttl k e ≡ redis.pttl k d)

  -- What Redis documents of its commands, as far as it is used: a command changes its own key; SET with
  -- PX leaves a string that is to expire later; INCR adds
  -- one to the number that a string holds, below the greatest, and leaves its expiry; INCR of a missing
  -- key makes it 1; a key without an expiry outlasts time.
  pub record IsRedis : Type 0 where
    pub set-other : (j k : Key) (text : List ℕ) (d : Data) → j ≢ k → SameAt j d (redis.set k text d)
    pub set_px-other :
        (j k : Key) (text ttl : List ℕ) (d : Data) → j ≢ k → SameAt j d (redis.set_px k text ttl d)
    pub set_px-own :
        (k : Key) (text ttl : List ℕ) (d : Data)
        → (redis.kind k (redis.set_px k text ttl d) ≡ string)
          × (redis.get k (redis.set_px k text ttl d) ≡ text)
          × (is_over (redis.pttl k (redis.set_px k text ttl d)) ≡ false)
          × (is_forever (redis.pttl k (redis.set_px k text ttl d)) ≡ false)
    pub del-other : (j k : Key) (d : Data) → j ≢ k → SameAt j d (redis.del k d)
    pub pexpire-other :
        (j k : Key) (ttl : List ℕ) (d : Data) → j ≢ k → SameAt j d (redis.pexpire k ttl d)
    pub incr-missing :
        (k : Key) (d : Data)
        → redis.kind k d ≡ missing
        → (redis.kind k (redis.incr k d) ≡ string)
          × (redis.get k (redis.incr k d) ≡ codes "1")
          × (redis.pttl k (redis.incr k d) ≡ forever)
    pub incr-string :
        (k : Key) (d : Data)
        → redis.kind k d ≡ string
        → valid_fence (redis.get k d) ≡ true
        → same_text (redis.get k d) max_fence ≡ false
        → (redis.kind k (redis.incr k d) ≡ string)
          × (number (redis.get k (redis.incr k d)) ≡ suc (number (redis.get k d)))
          × (redis.pttl k (redis.incr k d) ≡ redis.pttl k d)
    pub later-same :
        (k : Key) (d e : Data)
        → redis.Later d e
        → redis.kind k d ≡ string
        → redis.pttl k d ≡ forever
        → SameAt k d e

  unfoldable pub run_call : Call → Data → Reply × Data
  run_call (acquires owner ttl) d = acquire redis owner ttl d
  run_call (renews lease ttl) d = renew redis lease ttl d
  run_call (probes lease) d = probe redis lease d
  run_call reconciles d = reconcile redis d
  run_call (releases lease min_ttl) d = release redis lease min_ttl d

  pub data Steps (d : Data) : Data → Type 0 where
    here : Steps d d
    next : {e : Data} → Steps d e → (call : Call) → Steps d (run_call call e).1
    later : {e : Data} → Steps d e → (f : Data) → redis.Later e f → Steps d f

module _ (redis : Redis) (laws : IsRedis redis) where
  -- The fence key keeps a number, at least `n`.
  pub record Issued (n : ℕ) (d : redis.Data) : Type 0 where
    pub kept : redis.kind fence_key d ≡ string
    pub lasting : redis.pttl fence_key d ≡ forever
    pub least : n ≤ number (redis.get fence_key d)

  Issued-same : (n : ℕ) (d e : redis.Data) → SameAt redis fence_key d e → Issued n d → Issued n e
  Issued-same n d e (k, g, t) i = record {
    kept = k ∙ i.kept;
    lasting = t ∙ i.lasting;
    least = rw g (i.least);
  }

  with_history-same : (d : redis.Data) → SameAt redis fence_key d (with_history redis d)
  with_history-same d = elim (Bool-cases (is_missing (redis.kind history_key d))) [
    | inl b ↦ rw b (laws.set-other fence_key history_key _ d (λ e. cc e))
    | inr b ↦ rw b (refl, refl, refl)
  ]

  is_forever-true : (t : ℤ) → is_forever t ≡ true → t ≡ forever
  is_forever-true (negsuc zero) h = refl
  is_forever-true (negsuc (suc n)) h = absurd (cc h)
  is_forever-true (pos n) h = absurd (cc h)

  -- What the fence key is when a lease is granted.
  pub data Ready (d : redis.Data) : Type 0 where
    first : redis.kind fence_key d ≡ missing → Ready d
    another :
        redis.kind fence_key d ≡ string
        → redis.pttl fence_key d ≡ forever
        → valid_fence (redis.get fence_key d) ≡ true
        → same_text (redis.get fence_key d) max_fence ≡ false
        → Ready d

  is_ready :
      (d : redis.Data) → fence_corrupt redis d ≡ false → is_exhausted redis d ≡ false → Ready d
  unfolding fence_corrupt is_exhausted
  is_ready d sound left = by_kind (redis.kind fence_key d) refl
    where
      by_kind : (k : Kind) → redis.kind fence_key d ≡ k → Ready d
      by_kind missing e = first e
      by_kind string e =
          another e (is_forever-true (redis.pttl fence_key d) (ground (arith, sound, e)))
            (ground (arith, sound, e)) (ground (arith, left, e))
      by_kind other_kind e = absurd (ground (arith, sound, e))

  -- the number after the next INCR
  incr-Issued :
      (n : ℕ) (d : redis.Data)
      → Ready d
      → Issued n d
      → Issued (suc n) (redis.incr fence_key (with_history redis d))
  incr-Issued n d (first gone) i = absurd (cc (gone, i.kept))
  incr-Issued n d (another kept lasting good less) i =
      let (k, g, t) = with_history-same d in
      let (k', g', t') =
        laws.incr-string fence_key (with_history redis d) (k ∙ kept) (rw g good) (rw g less) in
      let least = i.least in
      let same = ap number g in
      record { kept = k'; lasting = t' ∙ t ∙ lasting; least = omega (arith, g') }

  incr-Ready : (d : redis.Data) → Ready d → Issued 1 (redis.incr fence_key (with_history redis d))
  unfolding number_from
  incr-Ready d (first gone) =
      let (k, g, t) = with_history-same d in
      let (k', g', t') = laws.incr-missing fence_key (with_history redis d) (k ∙ gone) in
      record { kept = k'; lasting = t'; least = rw g' (omega arith) }
  incr-Ready d (another kept lasting good less) =
      let (k, g, t) = with_history-same d in
      let (k', g', t') =
        laws.incr-string fence_key (with_history redis d) (k ∙ kept) (rw g good) (rw g less) in
      record { kept = k'; lasting = t' ∙ t ∙ lasting; least = omega (arith, g') }

  -- The reply hands out no fence.
  abbrev pub IsRefusal : Reply → Type 0
  IsRefusal (acquired fence) = ⊥
  IsRefusal _ = Unit

  -- A fence that the reply hands out has the property.
  abbrev Grants : (ℕ → Type 0) → Reply → Type 0
  Grants P (acquired fence) = P (number fence)
  Grants P _ = Unit

  IsRefusal-Grants : (P : ℕ → Type 0) (reply : Reply) → IsRefusal reply → Grants P reply
  IsRefusal-Grants P (acquired fence) h = absurd h
  IsRefusal-Grants P corrupt h = tt
  IsRefusal-Grants P contended h = tt
  IsRefusal-Grants P not_held h = tt
  IsRefusal-Grants P renewed h = tt
  IsRefusal-Grants P held h = tt
  IsRefusal-Grants P absent h = tt
  IsRefusal-Grants P deleted h = tt
  IsRefusal-Grants P min_ttl_applied h = tt
  IsRefusal-Grants P (present lease) h = tt

  pub acquire-cases :
      (owner ttl : List ℕ) (d : redis.Data)
      → (((acquire redis owner ttl d).1 ≡ d) × IsRefusal (acquire redis owner ttl d).0)
        ⊎ ((acquire redis owner ttl d ≡ grant redis owner ttl d) × Ready d)
  unfolding acquire
  acquire-cases owner ttl d = elim (Bool-cases (history_corrupt redis d || fence_corrupt redis d)) [
    | inl bad ↦ inl (rw bad (refl, tt))
    | inr good ↦ elim (Bool-cases (is_missing (redis.kind lease_key d))) [
      | inr taken ↦ elim (Bool-cases (lease_corrupt redis d)) [
        | inl bad ↦ inl (rw (good, taken, bad) (refl, tt))
        | inr other ↦ inl (rw (good, taken, other) (refl, tt))
      ]
      | inl free ↦ elim (Bool-cases (is_exhausted redis d)) [
        | inl used ↦ inl (rw (good, free, used) (refl, tt))
        | inr left ↦ inr (rw (good, free, left) refl, is_ready d (ground (arith, good)) left)
      ]
    ]
  ]

  set_px-Issued :
      (n : ℕ) (text ttl : List ℕ) (d : redis.Data)
      → Issued n d
      → Issued n (redis.set_px lease_key text ttl d)
  set_px-Issued n text ttl d i =
      Issued-same n d _ (laws.set_px-other fence_key lease_key text ttl d (λ e. cc e)) i

  -- A grant keeps the number that is there, and hands that number out.
  grant-Issued :
      (n : ℕ) (owner ttl : List ℕ) (d : redis.Data)
      → Issued n (redis.incr fence_key (with_history redis d))
      → Issued n (grant redis owner ttl d).1
        × Grants (λ m. (n ≤ m) × Issued m (grant redis owner ttl d).1) (grant redis owner ttl d).0
  unfolding grant
  grant-Issued n owner ttl d i =
      let d' = redis.incr fence_key (with_history redis d) in
      elim (Bool-cases (valid_fence (redis.get fence_key d'))) [
        | inr bad ↦ rw bad (i, tt)
        | inl good ↦ rw good (
          set_px-Issued n _ ttl d' i,
          (
            i.least,
            set_px-Issued _ _ ttl d'
                (record { kept = i.kept; lasting = i.lasting; least = omega arith }),
          ),
        )
      ]

  if_current-Issued :
      (n : ℕ) (lease : List ℕ) (reply : Reply) (done : Reply × redis.Data) (d : redis.Data)
      → Issued n done.1
      → Issued n d
      → Issued n (if_current redis lease reply done d).1
  if_current-Issued n lease (present current) done d kept i =
      elim (Bool-cases (same_text current lease)) [ inl b ↦ rw b kept | inr b ↦ rw b i ]
  if_current-Issued n lease corrupt done d kept i = i
  if_current-Issued n lease contended done d kept i = i
  if_current-Issued n lease not_held done d kept i = i
  if_current-Issued n lease renewed done d kept i = i
  if_current-Issued n lease held done d kept i = i
  if_current-Issued n lease absent done d kept i = i
  if_current-Issued n lease deleted done d kept i = i
  if_current-Issued n lease min_ttl_applied done d kept i = i
  if_current-Issued n lease (acquired fence) done d kept i = i

  pexpire-Issued :
      (n : ℕ) (ttl : List ℕ) (d : redis.Data)
      → Issued n d
      → Issued n (redis.pexpire lease_key ttl d)
  pexpire-Issued n ttl d i =
      Issued-same n d _ (laws.pexpire-other fence_key lease_key ttl d (λ e. cc e)) i

  release-Issued :
      (n : ℕ) (lease min_ttl : List ℕ) (d : redis.Data)
      → Issued n d
      → Issued n (release redis lease min_ttl d).1
  unfolding release
  release-Issued n lease min_ttl d i = elim (Bool-cases (same_text min_ttl (codes "0"))) [
    | inl b ↦
        if_current-Issued n lease (check_lease redis not_held d) _ d
          (rw b (Issued-same n d _ (laws.del-other fence_key lease_key d (λ e. cc e)) i)) i
    | inr b ↦
        if_current-Issued n lease (check_lease redis not_held d) _ d
          (rw b (pexpire-Issued n min_ttl d i)) i
  ]

  acquire-Issued :
      (n : ℕ) (owner ttl : List ℕ) (d : redis.Data)
      → Issued n d
      → Issued n (acquire redis owner ttl d).1
  acquire-Issued n owner ttl d i = elim (acquire-cases owner ttl d) [
    | inl (same, refusal) ↦ rw same i
    | inr (same, ready) ↦ rw same (grant-Issued n owner ttl d (weaker (incr-Issued n d ready i))).0
  ]
    where
      weaker : {e : redis.Data} → Issued (suc n) e → Issued n e
      weaker h =
          let least = h.least in record { kept = h.kept; lasting = h.lasting; least = omega arith }

  run_call-Issued :
      (n : ℕ) (call : Call) (d : redis.Data) → Issued n d → Issued n (run_call redis call d).1
  unfolding run_call renew probe reconcile
  run_call-Issued n (acquires owner ttl) d i = acquire-Issued n owner ttl d i
  run_call-Issued n (renews lease ttl) d i =
      if_current-Issued n lease (check_lease redis not_held d) _ d (pexpire-Issued n ttl d i) i
  run_call-Issued n (probes lease) d i =
      if_current-Issued n lease (check_lease redis not_held d) _ d i i
  run_call-Issued n reconciles d i = i
  run_call-Issued n (releases lease min_ttl) d i = release-Issued n lease min_ttl d i

  Steps-Issued : (n : ℕ) {d e : redis.Data} → Steps redis d e → Issued n d → Issued n e
  Steps-Issued n here i = i
  Steps-Issued n (next {e} steps call) i = run_call-Issued n call e (Steps-Issued n steps i)
  Steps-Issued n (later {e} steps f passed) i =
      let i' = Steps-Issued n steps i in
      Issued-same n e f (laws.later-same fence_key e f passed i'.kept i'.lasting) i'

  -- an acquisition that succeeds leaves its fence's number on the server
  acquired-Issued :
      (owner ttl fence : List ℕ) (d : redis.Data)
      → (acquire redis owner ttl d).0 ≡ acquired fence
      → Issued (number fence) (acquire redis owner ttl d).1
  acquired-Issued owner ttl fence d got = elim (acquire-cases owner ttl d) [
    | inl (same, refusal) ↦ absurd (subst IsRefusal got refusal)
    | inr (same, ready) ↦
        let granted = (grant-Issued 1 owner ttl d (incr-Ready d ready)).1 in
        let reply : (grant redis owner ttl d).0 ≡ acquired fence = cc (got, ap (λ x. x.0) same) in
        rw same
          (subst (Grants (λ m. (1 ≤ m) × Issued m (grant redis owner ttl d).1)) reply granted).1
  ]

  -- an acquisition that succeeds hands out a number above all that were there
  acquired-above :
      (n : ℕ) (owner ttl fence : List ℕ) (d : redis.Data)
      → Issued n d
      → (acquire redis owner ttl d).0 ≡ acquired fence
      → n < number fence
  acquired-above n owner ttl fence d i got = elim (acquire-cases owner ttl d) [
    | inl (same, refusal) ↦ absurd (subst IsRefusal got refusal)
    | inr (same, ready) ↦
        let granted = (grant-Issued (suc n) owner ttl d (incr-Issued n d ready i)).1 in
        let reply : (grant redis owner ttl d).0 ≡ acquired fence = cc (got, ap (λ x. x.0) same) in
        (subst (Grants (λ m. (suc n ≤ m) × Issued m (grant redis owner ttl d).1)) reply granted).0
  ]

  -- A script hands out the fence of a lease. Then whatever scripts run, of whatever owners and with
  -- whatever arguments, and however much time passes, a fence that is handed out afterwards is a
  -- greater number.
  pub fences_increase :
      (owner ttl fence owner' ttl' fence' : List ℕ) (d e : redis.Data)
      → (acquire redis owner ttl d).0 ≡ acquired fence
      → Steps redis (acquire redis owner ttl d).1 e
      → (acquire redis owner' ttl' e).0 ≡ acquired fence'
      → number fence < number fence'
  fences_increase owner ttl fence owner' ttl' fence' d e got steps got' =
      acquired-above (number fence) owner' ttl' fence' e
        (Steps-Issued (number fence) steps (acquired-Issued owner ttl fence d got)) got'
