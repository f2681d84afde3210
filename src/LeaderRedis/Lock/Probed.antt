-- ===== src/LeaderRedis/Lock/Probed.antt =====
-- A handle that says that it is held was the holder on the server.
use bluetape_py.Common.{
  ℕ, ◌≡◌, refl, sym, ◌∙◌, List, [], ◌∷◌, Bool, true, false, some, if◌then◌else◌, Bool-cases, inl,
  inr,
}
use bluetape_py.Common.Texts.{codes, same_text}
use bluetape_py.Common.Exec.{Result, ok, raise, Exec, pure, Cell}
use bluetape_py.Common.Does.{Does}
use bluetape_py.LeaderRedis.Errors.{PyError}
use bluetape_py.LeaderRedis.Redis.{Redis}
use bluetape_py.LeaderRedis.Scripts.{probes}
use bluetape_py.LeaderRedis.Scripts.Fences.{IsRedis, run_call}
use bluetape_py.LeaderRedis.Scripts.Leases.{probe-IsNothing}
use bluetape_py.LeaderRedis.Replies.{wire}
use bluetape_py.LeaderRedis.Record.{LeaseRecord, to_bytes, parse_status_response}
use bluetape_py.LeaderRedis.Handle.{
  Handle, State, acquired, entered, lost, released, unknown, Commands, Options, open_block,
  open_state, settle_probe, is_held, probe_open, status_from, returning,
}
use bluetape_py.LeaderRedis.Lock.Answers.{
  At, At-bind, At-after, At-lift, Then-lift, Then-block, block-Steps, Kept, attempt-At, Replied,
  Serves, run_script-Replied,
}
use bluetape_py.LeaderRedis.Lock.Stands.{parsed-ok, Stood, Stands, read_held}

held_block :
    (s : State) (status : Result PyError (List ℕ)) (h : Handle)
    → (open_state s (returning false) (settle_probe status) h).0 ≡ ok true
    → (x : List ℕ) × (status ≡ ok x) × (same_text x (codes "HELD") ≡ true)
unfolding settle_probe
held_block unknown status h e = absurd (cc e)
held_block lost status h e = absurd (cc e)
held_block released status h e = absurd (cc e)
held_block acquired (raise x) h e = absurd (cc e)
held_block entered (raise x) h e = absurd (cc e)
held_block acquired (ok x) h e = elim (Bool-cases (same_text x (codes "HELD"))) [
  | inl b ↦ (x, refl, b)
  | inr b ↦ elim (Bool-cases (same_text x (codes "NOT_HELD"))) [
    | inl c ↦ absurd (cc (rw (b, c) at e))
    | inr c ↦ absurd (cc (rw (b, c) at e))
  ]
]
held_block entered (ok x) h e = elim (Bool-cases (same_text x (codes "HELD"))) [
  | inl b ↦ (x, refl, b)
  | inr b ↦ elim (Bool-cases (same_text x (codes "NOT_HELD"))) [
    | inl c ↦ absurd (cc (rw (b, c) at e))
    | inr c ↦ absurd (cc (rw (b, c) at e))
  ]
]

module _ (redis : Redis) (laws : IsRedis redis) {W : Type 0} (cell : Cell W Handle)
    (server : Cell W redis.Data)
    (apart : (h : Handle) (w : W) → server.read (cell.write h w) ≡ server.read w) where
  module _ (commands : Commands W) (serves : Serves redis server commands) where
    module _ (mine : LeaseRecord) (options : Options) (monotonic_ns : Exec PyError W ℕ)
        (acquired_ns : ℕ) where
      abbrev Told : List ℕ → redis.Data → Type 0
      Told status d = same_text status (codes "HELD") ≡ true → Stood redis laws mine d

      probed-Told :
          (status : List ℕ) (d e : redis.Data)
          → parse_status_response
              (wire (run_call redis (probes (to_bytes mine)) d).0)
              (codes "HELD" ∷ codes "NOT_HELD" ∷ codes "CORRUPT" ∷ [])
            ≡ some status
          → e ≡ (run_call redis (probes (to_bytes mine)) d).1
          → Told status e
      unfolding run_call
      probed-Told status d e read same h =
          let unchanged : e ≡ d = same ∙ (probe-IsNothing redis (to_bytes mine) d).0 in
          rw unchanged (read_held _ status read h)

      status-Told : Does server (At redis Told) (
          status_from cell commands mine options monotonic_ns acquired_ns
            (probes (to_bytes mine))
            (codes "HELD" ∷ codes "NOT_HELD" ∷ codes "CORRUPT" ∷ []))
      status-Told =
          At-bind redis (Replied redis (probes (to_bytes mine))) _ _
            (run_script-Replied redis commands serves (probes (to_bytes mine)))
            (λ raw.
              Then-lift redis _
                (λ status e d p. probed-Told status (p.0) d (cc (parsed-ok _ status e, p.2)) (p.1)))

      settled-Stands :
          (h : Handle) (status : Result PyError (List ℕ)) (a : Bool)
          → (open_block (returning false) (settle_probe status) h).0 ≡ ok a
          → (d : redis.Data) → Kept redis Told status d
          → Stands redis laws mine a d
      unfolding open_block
      settled-Stands h status false e d p = tt
      settled-Stands h (raise x) true e d p =
          let (text, same, reads) = held_block h.state (raise x) h e in absurd (cc same)
      settled-Stands h (ok x) true e d p =
          let (text, same, reads) = held_block h.state (ok x) h e in
          p (let equal : x ≡ text = cc same in rw equal reads)

      probe_open-Stands :
          Does server
            (At redis (Stands redis laws mine))
            (probe_open cell commands mine options monotonic_ns acquired_ns)
      probe_open-Stands =
          At-bind redis (Kept redis Told) _ _ (attempt-At redis Told _ status-Told) (λ status.
            Then-block redis cell apart (open_block (returning false) (settle_probe status))
              (λ h. settled-Stands h status))

      -- Where each command runs its script at one moment on the server, or raises, and any scripts may run
      -- and time may pass before and after: if a handle says that it is held, then at some moment while it
      -- asked the server held the text of its lease.
      pub is_held-Stands :
          Does server
            (At redis (Stands redis laws mine))
            (is_held cell commands mine options monotonic_ns acquired_ns)
      unfolding is_held
      is_held-Stands =
          At-after redis _ _
            (block-Steps redis cell apart (open_block (returning true) (returning false)))
            λ over. by_over over
        where
          by_over :
              (over : Bool)
              → Does server (At redis (Stands redis laws mine)) (
                  if over
                  then pure false
                  else probe_open cell commands mine options monotonic_ns acquired_ns)
          by_over true =
              At-lift redis (ok false) (λ b e d. let same : false ≡ b = cc e in rw (sym same) tt)
          by_over false = probe_open-Stands
