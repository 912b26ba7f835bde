-- ===== src/Lifecycle/Final.antt =====
-- Actions that never raise a rejection, by their shape.
use h_mesh.Base.{◌≡◌, ◌≢◌, sym, ap, Bool, true, false, Option, List, [], ◌∷◌, if◌then◌else◌, Text}
use h_mesh.Errors.{lifecycle_rejected, lifecycle_incomplete, Result, ok, raise}
use h_mesh.Keys.{prefix}
use h_mesh.Keys.Refusals.{prefix_refused}
use h_mesh.Redis.World.{
  World, Fault, Action, after, andthen, lift, returns, rescue, command, run_under, fine, refused,
  interrupted,
}
use h_mesh.Lifecycle.Start.{write_desired, acknowledge, actual}

module _ {Db : Type 0} where
  -- An action that never raises a rejection.
  abbrev pub IsFinal : {A : Type 0} → Action Db A → Type 0
  IsFinal m = (w v : World Db) → m w ≢ (raise lifecycle_rejected, v)

  after_rejected :
      {A B : Type 0} (p : Result A × World Db) (f : A → Action Db B) (v : World Db)
      → ((u : World Db) → p ≢ (raise lifecycle_rejected, u))
      → ((a : A) → IsFinal (f a))
      → after p.0 f p.1 ≢ (raise lifecycle_rejected, v)
  after_rejected (ok a, u) f v first rest = rest a u v
  after_rejected (raise e, u) f v first rest =
      λ h. let is : e ≡ lifecycle_rejected = cc h in first u (ap (λ x. (raise x, u)) is)

  pub andthen-IsFinal :
      {A B : Type 0} (m : Action Db A) (f : A → Action Db B)
      → IsFinal m
      → ((a : A) → IsFinal (f a))
      → IsFinal (andthen m f)
  andthen-IsFinal m f first rest w v = after_rejected (m w) f v (first w) rest

  pub returns-IsFinal : {A : Type 0} (a : A) → IsFinal (returns a)
  returns-IsFinal a w v h = absurd (cc h)

  pub prefix-IsFinal :
      (pod tenant : Text) (agent resource : Option Text)
      → IsFinal (lift (prefix pod tenant agent resource))
  prefix-IsFinal pod tenant agent resource w v h =
      absurd (cc (prefix_refused pod tenant agent resource lifecycle_rejected (ap (λ p. p.0) h)))

  under_rejected :
      {A : Type 0} (f : Db → A × Db) (w v : World Db) (fs : List Fault)
      → run_under f w fs ≢ (raise lifecycle_rejected, v)
  unfolding run_under
  under_rejected f w v [] h = absurd (cc h)
  under_rejected f w v (fine ∷ fs) h = absurd (cc h)
  under_rejected f w v (refused e ∷ fs) h = absurd (cc h)
  under_rejected f w v (interrupted e true ∷ fs) h = absurd (cc h)
  under_rejected f w v (interrupted e false ∷ fs) h = absurd (cc h)

  pub command-IsFinal : {A : Type 0} (f : Db → A × Db) → IsFinal (command f)
  unfolding command
  command-IsFinal f w v = under_rejected f w v w.faults

  acknowledge_rejected :
      {A : Type 0} (done : List Text) (label : Text) (a : Result A) (w v : World Db)
      → acknowledge done label a w ≢ (raise lifecycle_rejected, v)
  acknowledge_rejected done label (ok a) w v h = absurd (cc h)
  acknowledge_rejected done label (raise e) w v h = absurd (cc h)

  pub write_desired-IsFinal :
      {A : Type 0} (done : List Text) (label : Text) (m : Action Db A)
      → IsFinal (write_desired done label m)
  unfolding write_desired
  write_desired-IsFinal done label m w v = acknowledge_rejected done label (m w).0 (m w).1 v

  rescue_rejected :
      {A : Type 0} (done : List Text) (a : Result A) (w v : World Db)
      → rescue (λ e. λ u. (raise (lifecycle_incomplete done), u)) a w
        ≢ (raise lifecycle_rejected, v)
  rescue_rejected done (ok a) w v h = absurd (cc h)
  rescue_rejected done (raise e) w v h = absurd (cc h)

  pub actual-IsFinal : {A : Type 0} (done : List Text) (m : Action Db A) → IsFinal (actual done m)
  actual-IsFinal done m w v = rescue_rejected done (m w).0 (m w).1 v

  pub if-IsFinal :
      {A : Type 0} (b : Bool) (m n : Action Db A)
      → IsFinal m
      → IsFinal n
      → IsFinal (if b then m else n)
  if-IsFinal true m n h k = h
  if-IsFinal false m n h k = k

  -- A check that comes first, and after which nothing is rejected
  pub after_check :
      {A B : Type 0} (r : Result A) (f : A → Action Db B) (w v : World Db)
      → ((a : A) → IsFinal (f a))
      → andthen (lift r) f w ≡ (raise lifecycle_rejected, v)
      → v ≡ w
  after_check (ok a) f w v final h = absurd (final a w v h)
  after_check (raise e) f w v final h = sym (cc h)
