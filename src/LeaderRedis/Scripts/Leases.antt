-- ===== src/LeaderRedis/Scripts/Leases.antt =====
-- A lease that was granted is its owner's: it is found again, and no one else's script touches it.
use bluetape_py.Common.{
  ℕ, ◌≡◌, ◌≢◌, ◌⊎◌, refl, sym, ap, subst, List, [], ◌∷◌, ◌++◌, Bool, true, false, ◌||◌, ◌&&◌, inl,
  inr, Bool-cases, Option-cases, some, length, arith,
}
use bluetape_py.Common.Texts.{codes, same_text}
use bluetape_py.LeaderRedis.Redis.{Redis, lease_key, fence_key, string, valid_fence}
use bluetape_py.LeaderRedis.Scripts.{
  Call, acquires, renews, probes, reconciles, releases, Reply, corrupt, not_held, held, acquired,
  present, absent, grant, acquire, renew, probe, reconcile, release, check_lease, split_owner,
  fence_of, record_of, is_word, is_over, is_forever, is_missing, is_string, if_current,
  history_corrupt, fence_corrupt, lease_corrupt, with_history,
}
use bluetape_py.LeaderRedis.Scripts.Fences.{IsRedis, acquire-cases, IsRefusal, run_call}

-- the characters of an owner's token
unfoldable pub are_words : List ℕ → Bool
are_words [] = true
are_words (c ∷ owner) = is_word c && are_words owner

split_owner-token :
    (owner fence : List ℕ)
    → are_words owner ≡ true
    → split_owner (owner ++ codes ":" ++ fence) ≡ some (owner, fence)
unfolding split_owner are_words
split_owner-token [] fence h = refl
split_owner-token (c ∷ owner) fence h = elim (Bool-cases (is_word c)) [
  | inl word ↦ rw (word, split_owner-token owner fence (ground arith)) refl
  | inr other ↦ absurd (ground arith)
]

pub same_text_refl : (text : List ℕ) → same_text text text ≡ true
unfolding same_text
same_text_refl [] = refl
same_text_refl (c ∷ text) = ground (arith, same_text_refl text)

fence_of-record_of :
    (owner fence : List ℕ)
    → are_words owner ≡ true
    → length owner ≡ 32
    → valid_fence fence ≡ true
    → fence_of (record_of owner fence) ≡ some fence
unfolding fence_of valid_fence same_text
fence_of-record_of owner fence words long valid =
    rw (split_owner-token owner fence words) (ground arith)

module _ (redis : Redis) where
  -- The call does not name the lease whose text this is.
  abbrev pub IsOthers : List ℕ → Call → Type 0
  IsOthers text (renews lease ttl) = same_text text lease ≡ false
  IsOthers text (releases lease min_ttl) = same_text text lease ≡ false
  IsOthers text _ = Unit

  check_lease-cases :
      (over : Reply) (d : redis.Data)
      → (check_lease redis over d ≡ over)
        ⊎ ((check_lease redis over d ≡ corrupt)
            ⊎ (check_lease redis over d ≡ present (redis.get lease_key d)))
  unfolding check_lease
  check_lease-cases over d = elim (Bool-cases (is_missing (redis.kind lease_key d))) [
    | inl b ↦ inl (rw b refl)
    | inr b ↦ elim (Bool-cases (is_string (redis.kind lease_key d))) [
      | inr c ↦ inr (inl (rw (b, c) refl))
      | inl c ↦ elim (Option-cases (fence_of (redis.get lease_key d))) [
        | inl e ↦ inr (inl (rw (b, c, e) refl))
        | inr (fence, e) ↦ elim (Bool-cases (is_forever (redis.pttl lease_key d))) [
          | inl t ↦ inr (inl (rw (b, c, e, t) refl))
          | inr t ↦ elim (Bool-cases (is_over (redis.pttl lease_key d))) [
            | inl o ↦ inl (rw (b, c, e, t, o) refl)
            | inr o ↦ inr (inr (rw (b, c, e, t, o) refl))
          ]
        ]
      ]
    ]
  ]

  -- The data is left, and no lease is handed out.
  abbrev pub IsNothing : Reply × redis.Data → redis.Data → Type 0
  IsNothing r d = (r.1 ≡ d) × ((fence : List ℕ) → r.0 ≢ acquired fence)

  if_current-others :
      (lease : List ℕ) (done : Reply × redis.Data) (d : redis.Data)
      → same_text (redis.get lease_key d) lease ≡ false
      → IsNothing (if_current redis lease (check_lease redis not_held d) done d) d
  if_current-others lease done d h = elim (check_lease-cases not_held d) [
    | inl e ↦ rw e (refl, (λ fence p. cc p))
    | inr (inl e) ↦ rw e (refl, (λ fence p. cc p))
    | inr (inr e) ↦ rw e (rw h (refl, (λ fence p. cc p)))
  ]

  reconcile-IsNothing : (d : redis.Data) → IsNothing (reconcile redis d) d
  unfolding reconcile
  reconcile-IsNothing d = elim (check_lease-cases absent d) [
    | inl e ↦ rw e (refl, (λ fence p. cc p))
    | inr (inl e) ↦ rw e (refl, (λ fence p. cc p))
    | inr (inr e) ↦ rw e (refl, (λ fence p. cc p))
  ]

  pub probe-IsNothing : (lease : List ℕ) (d : redis.Data) → IsNothing (probe redis lease d) d
  unfolding probe
  probe-IsNothing lease d = elim (check_lease-cases not_held d) [
    | inl e ↦ rw e (refl, (λ fence p. cc p))
    | inr (inl e) ↦ rw e (refl, (λ fence p. cc p))
    | inr (inr e) ↦ elim (Bool-cases (same_text (redis.get lease_key d) lease)) [
      | inl b ↦ rw e (rw b (refl, (λ fence p. cc p)))
      | inr b ↦ rw e (rw b (refl, (λ fence p. cc p)))
    ]
  ]

  acquire-held :
      (owner ttl : List ℕ) (d : redis.Data)
      → redis.kind lease_key d ≡ string
      → IsNothing (acquire redis owner ttl d) d
  unfolding acquire
  acquire-held owner ttl d e =
      elim (Bool-cases (history_corrupt redis d || fence_corrupt redis d)) [
        | inl bad ↦ rw bad (refl, (λ fence p. cc p))
        | inr good ↦ elim (Bool-cases (lease_corrupt redis d)) [
          | inl bad ↦ rw (good, e, bad) (refl, (λ fence p. cc p))
          | inr other ↦ rw (good, e, other) (refl, (λ fence p. cc p))
        ]
      ]

  -- While the lease key holds a text, a script that does not renew or release a lease of that very text
  -- changes nothing on the server, and an acquisition is refused.
  pub only_the_holder :
      (call : Call) (d : redis.Data)
      → redis.kind lease_key d ≡ string
      → IsOthers (redis.get lease_key d) call
      → IsNothing (run_call redis call d) d
  unfolding run_call renew release
  only_the_holder (acquires owner ttl) d e others = acquire-held owner ttl d e
  only_the_holder (renews lease ttl) d e others = if_current-others lease _ d others
  only_the_holder (probes lease) d e others = probe-IsNothing lease d
  only_the_holder reconciles d e others = reconcile-IsNothing d
  only_the_holder (releases lease min_ttl) d e others = if_current-others lease _ d others

  probe-current :
      (lease fence : List ℕ) (d : redis.Data)
      → redis.kind lease_key d ≡ string
      → redis.get lease_key d ≡ lease
      → fence_of lease ≡ some fence
      → is_forever (redis.pttl lease_key d) ≡ false
      → is_over (redis.pttl lease_key d) ≡ false
      → probe redis lease d ≡ (held, d)
  unfolding probe check_lease
  probe-current lease fence d k g e t o =
      let same : same_text (redis.get lease_key d) lease ≡ true = rw g (same_text_refl lease) in
      rw k (rw g (rw e (rw t (rw o (rw same refl)))))

  grant-acquired :
      (owner ttl fence : List ℕ) (d : redis.Data)
      → (grant redis owner ttl d).0 ≡ acquired fence
      → (valid_fence fence ≡ true)
        × (e : redis.Data) × ((grant redis owner ttl d).1
            ≡ redis.set_px lease_key (record_of owner fence) ttl e)
  unfolding grant
  grant-acquired owner ttl fence d got =
      let e = redis.incr fence_key (with_history redis d) in
      elim (Bool-cases (valid_fence (redis.get fence_key e))) [
        | inr bad ↦ absurd (cc (rw bad at got))
        | inl good ↦
            let same : redis.get fence_key e ≡ fence = cc (rw good at got) in
            (rw (sym same) good, e, rw good (rw same refl))
      ]

module _ (redis : Redis) (laws : IsRedis redis) where
  -- An owner of 32 letters, digits, `_` and `-` that is given a fence holds the lease: the text that its
  -- client makes of the two is what a probe then finds.
  pub probe-acquire :
      (owner ttl fence : List ℕ) (d : redis.Data)
      → are_words owner ≡ true
      → length owner ≡ 32
      → (acquire redis owner ttl d).0 ≡ acquired fence
      → probe redis (record_of owner fence) (acquire redis owner ttl d).1
        ≡ (held, (acquire redis owner ttl d).1)
  probe-acquire owner ttl fence d words long got = elim (acquire-cases redis laws owner ttl d) [
    | inl (same, refusal) ↦ absurd (subst (IsRefusal redis laws) got refusal)
    | inr (same, ready) ↦
        let reply : (grant redis owner ttl d).0 ≡ acquired fence = cc (got, ap (λ x. x.0) same) in
        let (valid, e, made) = grant-acquired redis owner ttl fence d reply in
        let (k, g, o, t) = laws.set_px-own lease_key (record_of owner fence) ttl e in
        let after : (acquire redis owner ttl d).1
            ≡ redis.set_px lease_key (record_of owner fence) ttl e =
          cc (ap (λ x. x.1) same, made) in
        rw after
          (probe-current redis _ fence _ k g (fence_of-record_of owner fence words long valid) t o)
  ]
