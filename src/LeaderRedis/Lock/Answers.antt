-- ===== src/LeaderRedis/Lock/Answers.antt =====
-- What an action shows of the server: at some moment of it, its result was true there.
use bluetape_py.Common.{◌≡◌, refl, sym, Bool, true, false, if◌then◌else◌, ◌⊎◌, inl, inr, Bool-cases}
use bluetape_py.Common.Exec.{Result, ok, raise, Exec, pure, throw, lift, ◌>>=◌, Cell}
use bluetape_py.Common.Acts.{Acts, IsRely}
use bluetape_py.Common.Does.{Does, Does-bind-Does, Does-try-Does}
use bluetape_py.LeaderRedis.Errors.{PyError, is_exception, is_no_script, attempt}
use bluetape_py.LeaderRedis.Redis.{Redis}
use bluetape_py.LeaderRedis.Scripts.{Call}
use bluetape_py.LeaderRedis.Scripts.Fences.{Steps, here, next, later, run_call}
use bluetape_py.LeaderRedis.Replies.{Value, wire}
use bluetape_py.LeaderRedis.Handle.{Handle, Commands, Block, block, run_script}

module _ (redis : Redis) where
  Steps-trans : {d e f : redis.Data} → Steps redis d e → Steps redis e f → Steps redis d f
  Steps-trans p here = p
  Steps-trans p (next q call) = next (Steps-trans p q) call
  Steps-trans p (later q f passed) = later (Steps-trans p q) f passed

  pub Steps-IsRely : IsRely (Steps redis)
  Steps-IsRely = record { here = λ s. here; after = λ s t u p q. Steps-trans p q }

  -- The server came from `s` over a state where `F` holds of the result, and then to `u`.
  abbrev pub At :
      {A : Type 0} → (A → redis.Data → Type 0) → Result PyError A → redis.Data → redis.Data → Type 0
  At F (ok a) s u = (d : redis.Data) × (Steps redis s d) × (Steps redis d u) × F a d
  At F (raise e) s u = Steps redis s u

  At-before :
      {A : Type 0} (F : A → redis.Data → Type 0) (r : Result PyError A) (s t u : redis.Data)
      → Steps redis s t
      → At F r t u
      → At F r s u
  At-before F (ok a) s t u st (d, td, du, p) = (d, Steps-trans st td, du, p)
  At-before F (raise e) s t u st tu = Steps-trans st tu

  -- the same of what follows a state where `P` holds
  abbrev pub Then :
      {A : Type 0}
      → (redis.Data → Type 0)
      → (A → redis.Data → Type 0)
      → Result PyError A
      → redis.Data
      → redis.Data
      → Type 0
  Then P G r s u = (d : redis.Data) → Steps redis d s → P d → At G r d u

  -- what an `attempt` shows
  abbrev pub Kept :
      {A : Type 0} → (A → redis.Data → Type 0) → Result PyError A → redis.Data → Type 0
  Kept F (ok a) d = F a d
  Kept F (raise e) d = Unit

  module _ {W : Type 0} {server : Cell W redis.Data} where
    pub At-bind :
        {A B : Type 0} (F : A → redis.Data → Type 0) {G : B → redis.Data → Type 0}
        (m : Exec PyError W A) (f : A → Exec PyError W B)
        → Does server (At F) m
        → ((a : A) → Does server (Then (F a) G) (f a))
        → Does server (At G) (m >>= f)
    At-bind F {G} m f hm hf =
        Does-bind-Does (At F) (λ a. Then (F a) G) (At G) (λ e s t p. p)
          (λ a r s t u p q. let (d, sd, dt, x) = p in At-before G r s d u sd (q d dt x)) m f hm hf

    module _ {B : Type 0} {P : redis.Data → Type 0} {G : B → redis.Data → Type 0} where
      -- what is known of where it came from
      pub Then-known :
          (m : Exec PyError W B)
          → ((d : redis.Data) → P d → Does server (At G) m)
          → Does server (Then P G) m
      Then-known m h = record { at = λ w d ds p. At-before G (m w).0 d _ _ ds ((h d p).at w) }

      pub Then-pure : (b : B) → ((d : redis.Data) → P d → G b d) → Does server (Then P G) (pure b)
      Then-pure b g = record { at = λ w d ds p. (d, here, ds, g d p) }

      pub Then-throw : (e : PyError) → Does server (Then P G) (throw e)
      Then-throw e = record { at = λ w d ds p. ds }

      pub Then-lift :
          (r : Result PyError B)
          → ((b : B) → r ≡ ok b → (d : redis.Data) → P d → G b d)
          → Does server (Then P G) (lift r)
      Then-lift (ok b) g = Then-pure b (g b refl)
      Then-lift (raise e) g = Then-throw e

      pub Then-bind :
          {A : Type 0} (F : A → redis.Data → Type 0) (m : Exec PyError W A)
          (f : A → Exec PyError W B)
          → Does server (Then P F) m
          → ((a : A) → Does server (Then (F a) G) (f a))
          → Does server (Then P G) (m >>= f)
      Then-bind F m f hm hf =
          Does-bind-Does (Then P F) (λ a. Then (F a) G) (Then P G) (λ e s t p d ds x. p d ds x)
            (λ a r s t u p q d ds x.
              let (d', dd, dt, y) = p d ds x in At-before G r d d' u dd (q d' dt y))
            m f hm hf

      -- after what others may do
      pub Then-after :
          {A : Type 0} (m : Exec PyError W A) (f : A → Exec PyError W B)
          → Acts server (Steps redis) m
          → ((a : A) → Does server (Then P G) (f a))
          → Does server (Then P G) (m >>= f)
      Then-after m f hm hf =
          Does-bind-Does (λ r. Steps redis) (λ a. Then P G) (Then P G)
            (λ e s t p d ds x. Steps-trans ds p) (λ a r s t u p q d ds x. q d (Steps-trans ds p) x)
            m f (record { at = λ w. hm.at w }) hf

    module _ {B : Type 0} {G : B → redis.Data → Type 0} where
      pub At-after :
          {A : Type 0} (m : Exec PyError W A) (f : A → Exec PyError W B)
          → Acts server (Steps redis) m
          → ((a : A) → Does server (At G) (f a))
          → Does server (At G) (m >>= f)
      At-after m f hm hf =
          Does-bind-Does (λ r. Steps redis) (λ a. At G) (At G) (λ e s t p. p)
            (λ a r s t u p q. At-before G r s t u p q) m f (record { at = λ w. hm.at w }) hf

      pub At-lift :
          (r : Result PyError B)
          → ((b : B) → r ≡ ok b → (d : redis.Data) → G b d)
          → Does server (At G) (lift r)
      At-lift (ok b) g = record { at = λ w. (server.read w, here, here, g b refl _) }
      At-lift (raise e) g = record { at = λ w. here }

    pub attempt-At :
        {A : Type 0} (F : A → redis.Data → Type 0) (m : Exec PyError W A)
        → Does server (At F) m
        → Does server (At (Kept F)) (attempt m)
    attempt-At {A} F m h =
        Does-try-Does (At F) (λ a r s u. (r ≡ ok (ok a)) × (s ≡ u)) (At (Kept F))
          (λ e r s u. (s ≡ u) × ((r ≡ ok (raise e)) ⊎ (r ≡ raise e)))
          (λ e r s t u p q. failed e r p q)
          (λ a r s t u p q. rw (q.0) (let (d, sd, dt, x) = p in (d, sd, rw (sym (q.1)) dt, x))) m _
          _ h (λ e. by_class e (Bool-cases (is_exception e)))
          (λ a. record { at = λ w. (refl, refl) })
      where
        failed :
            (e : PyError) (r : Result PyError (Result PyError A)) {s t u : redis.Data}
            → Steps redis s t
            → (t ≡ u) × ((r ≡ ok (raise e)) ⊎ (r ≡ raise e))
            → At (Kept F) r s u
        failed e r {s} {t} {u} p (same, inl x) = rw x (u, rw (sym same) p, here, tt)
        failed e r {s} {t} {u} p (same, inr x) = rw x (rw (sym same) p)

        by_class :
            (e : PyError)
            → (is_exception e ≡ true) ⊎ (is_exception e ≡ false)
            → Does server
                (λ r s u. (s ≡ u) × ((r ≡ ok (raise e)) ⊎ (r ≡ raise e)))
                (if is_exception e then pure {A = Result PyError A} (raise e) else throw e)
        by_class e (inl b) = rw b (record { at = λ w. (refl, inl refl) })
        by_class e (inr b) = rw b (record { at = λ w. (refl, inr refl) })

  -- a reply of a script that ran on the server just before this state
  abbrev pub Replied : Call → Value → redis.Data → Type 0
  Replied call v e =
      (d : redis.Data) × (e ≡ (run_call redis call d).1) × (v ≡ wire (run_call redis call d).0)

  -- Each command runs its script on the server at one moment and replies what the script does, or raises;
  -- before and after, and in place of a command that raised, any scripts may have run and time passed.
  pub record Serves {W : Type 0} (server : Cell W redis.Data) (commands : Commands W) : Type 0 where
    pub evals : (call : Call) → Does server (At (Replied call)) (commands.eval call)
    pub evalshas : (call : Call) → Does server (At (Replied call)) (commands.evalsha call)

  module _ {W : Type 0} {server : Cell W redis.Data} (commands : Commands W)
      (serves : Serves server commands) where
    pub run_script-Replied :
        (call : Call) → Does server (At (Replied call)) (run_script commands call)
    unfolding run_script
    run_script-Replied call =
        Does-try-Does (At (Replied call)) (λ a r s u. (r ≡ ok a) × (s ≡ u)) (At (Replied call))
          (λ e. At (Replied call)) (λ e r s t u p q. At-before (Replied call) r s t u p q)
          (λ a r s t u p q. rw (q.0) (rw (sym (q.1)) p)) (commands.evalsha call) _ pure
          (serves.evalshas call) (λ e. by_class e (is_no_script e))
          (λ a. record { at = λ w. (refl, refl) })
      where
        by_class :
            (e : PyError) (b : Bool)
            → Does server (At (Replied call)) (if b then commands.eval call else throw e)
        by_class e true = serves.evals call
        by_class e false = record { at = λ w. here }

  -- The handle is no part of the server.
  module _ {W : Type 0} (cell : Cell W Handle) {server : Cell W redis.Data}
      (apart : (h : Handle) (w : W) → server.read (cell.write h w) ≡ server.read w) where
    module _ {A : Type 0} (f : Block A) where
      pub block-Steps : Acts server (Steps redis) (block cell f)
      block-Steps = record { at = λ w. rw (apart (f (cell.read w)).1 w) here }

      pub Then-block :
          {P : redis.Data → Type 0} {G : A → redis.Data → Type 0}
          → ((h : Handle) (a : A) → (f h).0 ≡ ok a → (d : redis.Data) → P d → G a d)
          → Does server (Then P G) (block cell f)
      Then-block {P} {G} g = record {
        at = λ w.
            rw (apart (f (cell.read w)).1 w)
              (given (f (cell.read w)).0 (g (cell.read w)) (server.read w));
      }
        where
          given :
              (r : Result PyError A)
              → ((a : A) → r ≡ ok a → (d : redis.Data) → P d → G a d)
              → (s : redis.Data) → Then P G r s s
          given (ok a) g s d ds p = (d, here, ds, g a refl d p)
          given (raise e) g s d ds p = ds
