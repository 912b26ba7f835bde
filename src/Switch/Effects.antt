-- ===== src/Switch/Effects.antt =====
-- The effect of one command under retries, when Redis is honest about the commands it rejects.
use h_mesh.Base.{
  ℕ, suc, zero, ◌-◌, ◌≡◌, refl, sym, ap, ◌∙◌, subst, ◌⊎◌, inl, inr, Bool, true, false, not, ◌&&◌,
  ◌||◌, if◌then◌else◌, &&_true, Option, none, some, List, [], ◌∷◌, all,
}
use h_mesh.Errors.{
  Exc, RedisError, busy_loading, read_only, try_again, master_down, authentication, connection,
  timed_out, response, fatal, dropped, timeout, redis, retry_exhausted, Category, Result, ok, raise,
}
use h_mesh.Redis.World.{
  Fault, fine, refused, interrupted, World, Action, run_under, rescue, command,
}
use h_mesh.Switch.Retry.{
  error_category, response_category, transient_redis_category, rejected_before_execution, on_error,
  retrying_from, retrying,
}

abbrev pub is_some : {A : Type 0} → Option A → Bool
is_some none = false
is_some (some a) = true

-- The errors with which Redis answers in place of running a command: the classes of redis-py for
-- them, and a bare ResponseError whose text begins with one of their codes.
abbrev pub is_rejection : RedisError → Bool
is_rejection busy_loading = true
is_rejection read_only = true
is_rejection try_again = true
is_rejection master_down = true
is_rejection authentication = false
is_rejection connection = false
is_rejection timed_out = false
is_rejection (response text) = is_some (response_category text)
is_rejection fatal = false

-- A command that is answered so has not run.
abbrev pub honest : Fault → Bool
honest fine = true
honest (refused e) = true
honest (interrupted e ran) = not (ran && is_rejection e)

-- An error after which the caller does not know whether the command has run.
unfoldable pub unknown : Exc → Bool
unknown (redis e) = not (is_rejection e)
unknown e = false

not_rejected :
    (b c : Category)
    → some b ≡ some c
    → rejected_before_execution c ≡ true
    → rejected_before_execution b ≡ false
    → ⊥
not_rejected b c at rejected kept =
    let same : b ≡ c = cc at in
    let both : true ≡ false =
      ◌∙◌ (sym rejected) (◌∙◌ (ap rejected_before_execution (sym same)) kept) in
    absurd (cc both)

not_both : (b : Bool) → b ≡ true → not b ≡ true → ⊥
not_both true h k = absurd (cc k)
not_both false h k = absurd (cc h)

retried_rejection :
    (e : RedisError) (c : Category)
    → error_category e ≡ some c
    → rejected_before_execution c ≡ true
    → is_rejection e ≡ true
unfolding rejected_before_execution
retried_rejection busy_loading c at rejected = refl
retried_rejection read_only c at rejected = refl
retried_rejection try_again c at rejected = refl
retried_rejection master_down c at rejected = refl
retried_rejection authentication c at rejected = absurd (cc at)
retried_rejection connection c at rejected = absurd (not_rejected dropped c at rejected refl)
retried_rejection timed_out c at rejected = absurd (not_rejected timeout c at rejected refl)
retried_rejection (response text) c at rejected = ap is_some at
retried_rejection fatal c at rejected = absurd (cc at)

category_known :
    (e : Exc) (c : Category)
    → transient_redis_category e ≡ some c
    → rejected_before_execution c ≡ true
    → unknown e ≡ true
    → ⊥
unfolding transient_redis_category unknown
category_known (redis e) c at rejected blind =
    not_both (is_rejection e) (retried_rejection e c at rejected) blind
category_known e c at rejected blind = absurd (cc at)

module _ {Db : Type 0} where
  abbrev pub IsHonest : World Db → Type 0
  IsHonest w = all honest w.faults ≡ true

  -- What is left of a computation that is to have the effect E on the database d, at most once.
  abbrev pub Outcome : {A : Type 0} → (Db → A → Db → Type 0) → Db → Result A × World Db → Type 0
  Outcome E d (ok a, v) = E d a v.db × IsHonest v
  Outcome {A = A} E d (raise e, v) =
      ((v.db ≡ d) ⊎ ((unknown e ≡ true) × ((a : A) × E d a v.db))) × IsHonest v

  abbrev pub Runs : {A : Type 0} → (Db → A × Db) → Db → A → Db → Type 0
  Runs f d a d' = f d ≡ (a, d')

  under_lem :
      {A : Type 0} (f : Db → A × Db) (w : World Db) (fs : List Fault)
      → all honest fs ≡ true
      → Outcome (Runs f) w.db (run_under f w fs)
  unfolding run_under unknown
  under_lem f w [] h = (refl, refl)
  under_lem f w (fine ∷ fs) h = (refl, h)
  under_lem f w (refused e ∷ fs) h = (inl refl, h)
  under_lem f w (interrupted e false ∷ fs) h = (inl refl, h)
  under_lem f w (interrupted e true ∷ fs) h =
      let (told, rest) = &&_true (not (is_rejection e)) (all honest fs) h in
      (inr (told, ((f w.db).0, refl)), rest)

  pub command_lem :
      {A : Type 0} (f : Db → A × Db) (w : World Db)
      → IsHonest w
      → Outcome (Runs f) w.db (command f w)
  unfolding command
  command_lem f w h = under_lem f w w.faults h

  choose_lem :
      {A : Type 0} (E : Db → A → Db → Type 0) (d : Db) (b : Bool) (p q : Result A × World Db)
      → (b ≡ true → Outcome E d p)
      → Outcome E d q
      → Outcome E d (if b || false then p else q)
  choose_lem E d true p q h k = h refl
  choose_lem E d false p q h k = k

  on_error_lem :
      {A : Type 0} (E : Db → A → Db → Type 0) (d : Db) (o : Option Category)
      (again : Category → Action Db A) (e : Exc) (v : World Db)
      → transient_redis_category e ≡ o
      → ((c : Category) → v.db ≡ d → IsHonest v → Outcome E d (again c v))
      → Outcome E d (raise e, v)
      → Outcome E d (on_error false o again e v)
  on_error_lem E d none again e v at next h = h
  on_error_lem E d (some c) again e v at next (placed, honest_v) =
      choose_lem E d (rejected_before_execution c) (again c v) (raise e, v)
        (λ rejected. elim placed [
          | inl same ↦ next c same honest_v
          | inr (blind, _) ↦ absurd (category_known e c at rejected blind)
        ])
        (placed, honest_v)

  -- One attempt, where the next one has the effect at most once.
  attempt_lem :
      {A : Type 0} (E : Db → A → Db → Type 0) (d : Db) (again : Exc → Category → Action Db A)
      (p : Result A × World Db)
      → ((e : Exc) (c : Category) (v : World Db)
          → v.db ≡ d
          → IsHonest v
          → Outcome E d (again e c v))
      → Outcome E d p
      → Outcome E d (rescue (λ e. on_error false (transient_redis_category e) (again e) e) p.0 p.1)
  attempt_lem E d again (ok a, v) next h = h
  attempt_lem E d again (raise e, v) next h =
      on_error_lem E d (transient_redis_category e) (again e) e v refl (λ c. next e c v) h

  retrying_from_lem :
      {A : Type 0} (E : Db → A → Db → Type 0) (op : Action Db A) (attempt left : ℕ)
      → ((w : World Db) → IsHonest w → Outcome E w.db (op w))
      → (w : World Db) (d : Db) → w.db ≡ d
      → IsHonest w
      → Outcome E d (retrying_from attempt left false op w)
  unfolding retrying_from
  retrying_from_lem E op attempt zero once w d at h =
      attempt_lem E d (λ e c v. (raise (retry_exhausted c e attempt), v)) (op w)
        (λ e c v same honest_v. (inl same, honest_v))
        (subst (λ x. Outcome E x (op w)) at (once w h))
  retrying_from_lem E op attempt (suc left) once w d at h =
      attempt_lem E d (λ e c. retrying_from (suc attempt) left false op) (op w)
        (λ e c v same honest_v. retrying_from_lem E op (suc attempt) left once v d same honest_v)
        (subst (λ x. Outcome E x (op w)) at (once w h))

  -- Retries of a computation that takes effect at most once take effect at most once.
  pub retrying_lem :
      {A : Type 0} (E : Db → A → Db → Type 0) (op : Action Db A) (attempts : ℕ)
      → ((w : World Db) → IsHonest w → Outcome E w.db (op w))
      → (w : World Db) → IsHonest w
      → Outcome E w.db (retrying attempts false op w)
  unfolding retrying
  retrying_lem E op attempts once w h = retrying_from_lem E op 1 (attempts - 1) once w w.db refl h

  -- A retried write under honest faults: when it returns it has run exactly once; when it raises it
  -- has not run, or it has run once and the exception is one that leaves the caller not knowing, so
  -- not RetryExhausted.
  pub retrying-command :
      {A : Type 0} (f : Db → A × Db) (attempts : ℕ) (w : World Db)
      → IsHonest w
      → Outcome (Runs f) w.db (retrying attempts false (command f) w)
  retrying-command f attempts w h = retrying_lem (Runs f) (command f) attempts (command_lem f) w h
