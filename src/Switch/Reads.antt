-- ===== src/Switch/Reads.antt =====
-- What leaves the database alone: reads and their retries, and starting delivery attempts.
use h_mesh.Base.{
  ℕ, suc, zero, ◌-◌, ◌≡◌, ◌∙◌, inl, inr, Bool-cases, refl, subst, Bool, true, false, ◌||◌, &&_true,
  if◌then◌else◌, Option, none, some, List, [], ◌∷◌, all, Text, codes,
}
use h_mesh.Errors.{Exc, retry_exhausted, Category, Result, ok, raise}
use h_mesh.Keys.{tenant_key}
use h_mesh.Envelope.Values.{Fields}
use h_mesh.Envelope.Header.{Header}
use h_mesh.Envelope.Frames.{header_fields}
use h_mesh.Redis.{Redis}
use h_mesh.Redis.World.{
  Fault, fine, refused, interrupted, World, Action, after, rescue, run_under, command,
}
use h_mesh.Switch.Retry.{
  transient_redis_category, rejected_before_execution, on_error, retrying_from, retrying,
}
use h_mesh.Switch.Effects.{honest, IsHonest}
use h_mesh.Registry.{port_type, member_types, lookup}
use h_mesh.Switch.Forward.{Settings, kick, kick_each, or_none}

module _ {Db : Type 0} where
  abbrev pub Quiet : {A : Type 0} → Db → Result A × World Db → Type 0
  Quiet d p = (p.1.db ≡ d) × IsHonest p.1

  read_under :
      {A : Type 0} (f : Db → A) (w : World Db) (fs : List Fault)
      → all honest fs ≡ true
      → Quiet w.db (run_under (λ d. (f d, d)) w fs)
  unfolding run_under
  read_under f w [] h = (refl, refl)
  read_under f w (fine ∷ fs) h = (refl, h)
  read_under f w (refused e ∷ fs) h = (refl, h)
  read_under f w (interrupted e true ∷ fs) h = (refl, (&&_true _ (all honest fs) h).1)
  read_under f w (interrupted e false ∷ fs) h = (refl, h)

  pub command-Quiet :
      {A : Type 0} (f : Db → A) (w : World Db) → IsHonest w → Quiet w.db (command (λ d. (f d, d)) w)
  unfolding command
  command-Quiet f w h = read_under f w w.faults h

  choose-Quiet :
      {A : Type 0} (d : Db) (b : Bool) (p q : Result A × World Db)
      → Quiet d p
      → Quiet d q
      → Quiet d (if b || true then p else q)
  choose-Quiet d true p q h k = h
  choose-Quiet d false p q h k = h

  on_error-Quiet :
      {A : Type 0} (d : Db) (o : Option Category) (again : Category → Action Db A) (e : Exc)
      (v : World Db)
      → (v.db ≡ d) × IsHonest v
      → ((c : Category) → Quiet d (again c v))
      → Quiet d (on_error true o again e v)
  on_error-Quiet d none again e v h next = h
  on_error-Quiet d (some c) again e v h next =
      choose-Quiet d (rejected_before_execution c) (again c v) (raise e, v) (next c) h

  attempt-Quiet :
      {A : Type 0} (d : Db) (again : Exc → Category → Action Db A) (p : Result A × World Db)
      → Quiet d p
      → ((e : Exc) (c : Category) (v : World Db) → v.db ≡ d → IsHonest v → Quiet d (again e c v))
      → Quiet d (rescue (λ e. on_error true (transient_redis_category e) (again e) e) p.0 p.1)
  attempt-Quiet d again (ok a, v) h next = h
  attempt-Quiet d again (raise e, v) h next =
      on_error-Quiet d (transient_redis_category e) (again e) e v h (λ c. next e c v h.0 h.1)

  retrying_from-Quiet :
      {A : Type 0} (op : Action Db A) (attempt left : ℕ)
      → ((w : World Db) → IsHonest w → Quiet w.db (op w))
      → (w : World Db) (d : Db) → w.db ≡ d
      → IsHonest w
      → Quiet d (retrying_from attempt left true op w)
  unfolding retrying_from
  retrying_from-Quiet op attempt zero quiet w d at h =
      attempt-Quiet d (λ e c v. (raise (retry_exhausted c e attempt), v)) (op w)
        (subst (λ x. Quiet x (op w)) at (quiet w h)) (λ e c v same honest_v. (same, honest_v))
  retrying_from-Quiet op attempt (suc left) quiet w d at h =
      attempt-Quiet d (λ e c. retrying_from (suc attempt) left true op) (op w)
        (subst (λ x. Quiet x (op w)) at (quiet w h))
        (λ e c v same honest_v. retrying_from-Quiet op (suc attempt) left quiet v d same honest_v)

  -- Retried reads leave the database as it is, whatever they answer.
  pub retrying-Quiet :
      {A : Type 0} (op : Action Db A) (attempts : ℕ)
      → ((w : World Db) → IsHonest w → Quiet w.db (op w))
      → (w : World Db) → IsHonest w
      → Quiet w.db (retrying attempts true op w)
  unfolding retrying
  retrying-Quiet op attempts quiet w h = retrying_from-Quiet op 1 (attempts - 1) quiet w w.db refl h

  lift-Quiet :
      {A B : Type 0} (r : Result A) (f : A → Action Db B) (w : World Db)
      → IsHonest w
      → ((a : A) → Quiet w.db (f a w))
      → Quiet w.db (after r f w)
  lift-Quiet (ok a) f w h next = next a
  lift-Quiet (raise e) f w h next = (refl, h)

  after-Quiet :
      {A B : Type 0} (d : Db) (p : Result A × World Db) (f : A → Action Db B)
      → Quiet d p
      → ((a : A) (v : World Db) → v.db ≡ d → IsHonest v → Quiet d (f a v))
      → Quiet d (after p.0 f p.1)
  after-Quiet d (ok a, v) f h next = next a v h.0 h.1
  after-Quiet d (raise e, v) f h next = h

module _ (R : Redis) (settings : Settings) where
  pub port_type-Quiet :
      (agent : Text) (w : World R.Db)
      → IsHonest w
      → Quiet w.db (port_type R settings.pod settings.tenant agent w)
  port_type-Quiet agent w h =
      lift-Quiet (tenant_key settings.pod settings.tenant (codes "registry")) _ w h
        λ key. command-Quiet (λ d. lookup agent (R.entries d key)) w h

  pub member_types-Quiet :
      (w : World R.Db) → IsHonest w → Quiet w.db (member_types R settings.pod settings.tenant w)
  member_types-Quiet w h =
      lift-Quiet (tenant_key settings.pod settings.tenant (codes "registry")) _ w h
        λ key. command-Quiet (λ d. R.entries d key) w h

  pub kick-Quiet :
      (agent : Text) (t : Option Text) (envelope : Fields) (w : World R.Db)
      → IsHonest w
      → Quiet w.db (kick R settings agent t envelope w)
  kick-Quiet agent none envelope w h = (refl, h)
  kick-Quiet agent (some t) envelope w h = kick_choice settings.kicks
    where
      kick_choice :
          (b : Bool)
          → Quiet {Db = R.Db} w.db
              (kick R (record settings { kicks = b }) agent (some t) envelope w)
      kick_choice true = (refl, h)
      kick_choice false = (refl, h)

  pub kick_each-Quiet :
      (ps : List (Text × Text)) (envelope : Header) (w : World R.Db) (d : R.Db)
      → w.db ≡ d
      → IsHonest w
      → Quiet d (kick_each R settings ps envelope w)
  unfolding kick_each
  kick_each-Quiet [] envelope w d at h = (at, h)
  kick_each-Quiet ((agent, t) ∷ ps) envelope w d at h =
      after-Quiet d (kick R settings agent (or_none t) (header_fields envelope) w) _
        (subst (λ x. Quiet x (kick R settings agent (or_none t) (header_fields envelope) w)) at
          (kick-Quiet agent (or_none t) (header_fields envelope) w h))
        λ started v at_v h_v.
          after-Quiet d (kick_each R settings ps envelope v) _
            (kick_each-Quiet ps envelope v d at_v h_v) λ skipped u at_u h_u. (at_u, h_u)

module _ {Db A : Type 0} (op : Action Db A) (d : Db) (Q : A → Type 0)
    (quiet : (w : World Db) → IsHonest w → Quiet w.db (op w))
    (answers : (w : World Db) (a : A) (v : World Db) → w.db ≡ d → op w ≡ (ok a, v) → Q a) where
  on_error-answers :
      (o : Option Category) (again : Category → Action Db A) (e : Exc) (u v : World Db) (a : A)
      → ((c : Category) → again c u ≡ (ok a, v) → Q a)
      → on_error true o again e u ≡ (ok a, v)
      → Q a
  on_error-answers none again e u v a next h = absurd (cc h)
  on_error-answers (some c) again e u v a next h = elim (Bool-cases (rejected_before_execution c)) [
    | inl t ↦ next c (rw t at h)
    | inr f ↦ next c (rw f at h)
  ]

  attempt-answers :
      (again : Exc → Category → Action Db A) (w : World Db) (p : Result A × World Db) (v : World Db)
      (a : A)
      → w.db ≡ d
      → op w ≡ p
      → ((e : Exc) (c : Category) → again e c p.1 ≡ (ok a, v) → Q a)
      → rescue (λ e. on_error true (transient_redis_category e) (again e) e) p.0 p.1 ≡ (ok a, v)
      → Q a
  attempt-answers again w (ok b, u) v a at is next h = answers w a v at (◌∙◌ is h)
  attempt-answers again w (raise e, u) v a at is next h =
      on_error-answers (transient_redis_category e) (again e) e u v a (next e) h

  retrying_from-answers :
      (attempt left : ℕ) (w v : World Db) (a : A)
      → w.db ≡ d
      → IsHonest w
      → retrying_from attempt left true op w ≡ (ok a, v)
      → Q a
  unfolding retrying_from
  retrying_from-answers attempt zero w v a at honest_w h =
      attempt-answers (λ e c u. (raise (retry_exhausted c e attempt), u)) w (op w) v a at refl
        (λ e c bad. absurd (cc bad)) h
  retrying_from-answers attempt (suc left) w v a at honest_w h =
      let still = quiet w honest_w in
      attempt-answers (λ e c. retrying_from (suc attempt) left true op) w (op w) v a at refl
        (λ e c again.
          retrying_from-answers (suc attempt) left (op w).1 v a (◌∙◌ still.0 at) still.1 again)
        h

  -- What every attempt answers is what the retried read answers.
  pub retrying-answers :
      (attempts : ℕ) (w v : World Db) (a : A)
      → w.db ≡ d
      → IsHonest w
      → retrying attempts true op w ≡ (ok a, v)
      → Q a
  unfolding retrying
  retrying-answers attempts w v a at honest_w h =
      retrying_from-answers 1 (attempts - 1) w v a at honest_w h
