-- ===== src/LeaderRedis/Lock/Stands.antt =====
-- What the replies of the scripts say of who holds the lease.
use bluetape_py.Common.{
  ℕ, ◌≡◌, refl, sym, ap, ◌∙◌, List, [], ◌∷◌, Bool, true, false, Option, none, some, Bool-cases, inl,
  inr, Option-cases,
}
use bluetape_py.Common.Texts.{codes, same_text, is_ascii}
use bluetape_py.LeaderRedis.Redis.{Redis, lease_key, number_from, valid_fence}
use bluetape_py.LeaderRedis.Scripts.{
  Reply, corrupt, contended, not_held, renewed, held, absent, deleted, min_ttl_applied, acquired,
  present, acquire, probe, reconcile, check_lease, is_missing, is_string, is_forever, is_over,
  fence_of,
}
use bluetape_py.LeaderRedis.Scripts.Fences.{IsRedis}
use bluetape_py.LeaderRedis.Scripts.Leases.{probe-acquire, same_text_refl}
use bluetape_py.LeaderRedis.Replies.{
  wire, Acquisition, was_acquired, parse_acquire_response, acquire-Means, Means, IsReply,
  acquire-IsReply, response_parts,
}
use bluetape_py.LeaderRedis.Record.{
  LeaseRecord, to_bytes, is_owner_token, parse_record, was_present, parse_reconcile_response,
  parse_status_response, is_allowed, to_bytes-record_of,
}
use bluetape_py.Common.Exec.{ok}
use bluetape_py.LeaderRedis.Handle.{parsed}
use bluetape_py.LeaderRedis.Record.Read.{to_bytes-parse_record, token-are_words}

pub parsed-ok : {A : Type 0} (x : Option A) (a : A) → parsed x ≡ ok a → x ≡ some a
parsed-ok none a h = cc h
parsed-ok (some b) a h = cc h

-- the only reply that is read as HELD is that of a holder
pub read_held :
    (reply : Reply) (status : List ℕ)
    → parse_status_response (wire reply) (codes "HELD" ∷ codes "NOT_HELD" ∷ codes "CORRUPT" ∷ [])
      ≡ some status
    → same_text status (codes "HELD") ≡ true
    → reply ≡ held
unfolding parse_status_response response_parts is_ascii is_allowed same_text
read_held held status e h = refl
read_held corrupt status e h =
    absurd (let s : codes "CORRUPT" ≡ status = cc e in cc (rw (sym s) at h))
read_held not_held status e h =
    absurd (let s : codes "NOT_HELD" ≡ status = cc e in cc (rw (sym s) at h))
read_held contended status e h = absurd (cc e)
read_held renewed status e h = absurd (cc e)
read_held absent status e h = absurd (cc e)
read_held deleted status e h = absurd (cc e)
read_held min_ttl_applied status e h = absurd (cc e)
read_held (acquired fence) status e h = absurd (cc e)
read_held (present lease) status e h = absurd (cc e)

read_acquired :
    (reply : Reply) (n : ℕ)
    → IsReply reply
    → Means reply (parse_acquire_response (wire reply))
    → parse_acquire_response (wire reply) ≡ some (was_acquired n)
    → (fence : List ℕ) × (reply ≡ acquired fence)
      × (valid_fence fence ≡ true)
      × (n ≡ number_from 0 fence)
unfolding parse_acquire_response
read_acquired reply n is means e = by_meaning reply is _ means e
  where
    by_meaning :
        (reply : Reply)
        → IsReply reply
        → (m : Option Acquisition) → Means reply m
        → m ≡ some (was_acquired n)
        → (fence : List ℕ) × (reply ≡ acquired fence)
          × (valid_fence fence ≡ true)
          × (n ≡ number_from 0 fence)
    by_meaning reply IsReply.refuses_corrupt m Means.corruption e = absurd (cc e)
    by_meaning reply IsReply.refuses_contended m Means.contention e = absurd (cc e)
    by_meaning reply (IsReply.grants fence valid) m (Means.grant_of other) e =
        (other, refl, valid, cc e)

-- a reconciliation that reads a record has replied with its text
read_present :
    (reply : Reply) (r : LeaseRecord)
    → parse_reconcile_response (wire reply) ≡ some (was_present r)
    → (lease : List ℕ) × (reply ≡ present lease) × (to_bytes r ≡ lease)
unfolding parse_reconcile_response response_parts same_text
read_present (present lease) r e = elim (Option-cases (parse_record lease)) [
  | inl x ↦ absurd (cc (rw x at e))
  | inr (found, x) ↦ (lease, refl, to_bytes-parse_record lease r (x ∙ cc (rw x at e)))
]
read_present absent r e = absurd (cc e)
read_present corrupt r e = absurd (cc e)
read_present held r e = absurd (cc e)
read_present not_held r e = absurd (cc e)
read_present contended r e = absurd (cc e)
read_present renewed r e = absurd (cc e)
read_present deleted r e = absurd (cc e)
read_present min_ttl_applied r e = absurd (cc e)
read_present (acquired fence) r e = absurd (cc e)

module _ (redis : Redis) (laws : IsRedis redis) where
  -- A probe would find this lease to be the one held.
  abbrev pub Stood : LeaseRecord → redis.Data → Type 0
  Stood mine d = (probe redis (to_bytes mine) d).0 ≡ held

  abbrev pub Stands : LeaseRecord → Bool → redis.Data → Type 0
  Stands mine true d = Stood mine d
  Stands mine false d = Unit

  check_lease-present :
      (lease : List ℕ) (d : redis.Data)
      → check_lease redis absent d ≡ present lease
      → check_lease redis not_held d ≡ present lease
  unfolding check_lease
  check_lease-present lease d h = elim (Bool-cases (is_missing (redis.kind lease_key d))) [
    | inl b ↦ absurd (cc (rw b at h))
    | inr b ↦ elim (Bool-cases (is_string (redis.kind lease_key d))) [
      | inr c ↦ absurd (cc (rw (b, c) at h))
      | inl c ↦ elim (Option-cases (fence_of (redis.get lease_key d))) [
        | inl e ↦ absurd (cc (rw (b, c, e) at h))
        | inr (fence, e) ↦ elim (Bool-cases (is_forever (redis.pttl lease_key d))) [
          | inl t ↦ absurd (cc (rw (b, c, e, t) at h))
          | inr t ↦ elim (Bool-cases (is_over (redis.pttl lease_key d))) [
            | inl o ↦ absurd (cc (rw (b, c, e, t, o) at h))
            | inr o ↦ rw (b, c, e, t, o) (rw (b, c, e, t, o) at h)
          ]
        ]
      ]
    ]
  ]

  pub reconciled-Stood :
      (d : redis.Data) (r : LeaseRecord)
      → parse_reconcile_response (wire (reconcile redis d).0) ≡ some (was_present r)
      → Stood r d
  unfolding reconcile probe
  reconciled-Stood d r e =
      let (lease, replied, same) = read_present _ r e in
      rw (check_lease-present lease d replied) (rw same (rw (same_text_refl lease) refl))

  pub granted-Stood :
      (owner ttl : List ℕ) (n : ℕ) (d : redis.Data)
      → is_owner_token owner ≡ true
      → parse_acquire_response (wire (acquire redis owner ttl d).0) ≡ some (was_acquired n)
      → Stood (record { owner_token = owner; fencing_token = n }) (acquire redis owner ttl d).1
  granted-Stood owner ttl n d token e =
      let (fence, replied, valid, number) =
        read_acquired _ n (acquire-IsReply redis owner ttl d) (acquire-Means redis owner ttl d) e in
      let (words, long) = token-are_words owner token in
      rw number (
        rw (to_bytes-record_of owner fence valid)
          (ap (λ x. x.0) (probe-acquire redis laws owner ttl fence d words long replied)))
