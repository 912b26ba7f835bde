-- ===== src/Redis/World.antt =====
-- Code that calls Redis: each command meets the next fault of a script, and exceptions keep the
-- state that was reached.
use h_mesh.Base.{◌≡◌, ◌≢◌, ◌⊎◌, inl, inr, refl, Bool, true, false, List, [], ◌∷◌, Option, Text}
use h_mesh.Errors.{Exc, RedisError, Category, Result, ok, raise, redis}
use h_mesh.Envelope.Values.{Fields}

-- What happens to one command: it runs, it is refused before it runs, or the caller gets an error
-- and the command has run (true) or not (false).
pub data Fault : Type 0 where
  fine : Fault
  refused : RedisError → Fault
  interrupted : RedisError → Bool → Fault

-- A started delivery attempt: the agent, its port type and the envelope handed to the callback.
pub record Kick : Type 0 where
  pub agent : Text
  pub port_type : Text
  pub envelope : Fields

-- The database, the faults still to come, the delivery attempts started (newest first) and the
-- write outcomes noted as unknown (newest first; `none` is the category "other"), and the envelopes
-- that openers were called with (newest first).
pub record World (Db : Type 0) : Type 0 where
  pub db : Db
  pub faults : List Fault
  pub kicks : List Kick
  pub unknown_outcomes : List (Option Category)
  pub opener_calls : List Fields

-- A computation that returns or raises, and the world it leaves.
abbrev pub Action : Type 0 → Type 0 → Type 0
Action Db A = World Db → Result A × World Db

module _ {Db : Type 0} where
  abbrev pub after : {A B : Type 0} → Result A → (A → Action Db B) → Action Db B
  after (ok a) rest w = rest a w
  after (raise e) rest w = (raise e, w)

  -- Sequencing; `lift` is code that calls no command.
  abbrev pub andthen : {A B : Type 0} → Action Db A → (A → Action Db B) → Action Db B
  andthen m rest w = let (a, w') = m w in after a rest w'

  abbrev pub lift : {A : Type 0} → Result A → Action Db A
  lift r w = (r, w)

  abbrev pub returns : {A : Type 0} → A → Action Db A
  returns a w = (ok a, w)

  -- try: m; except …: handler
  abbrev pub rescue : {A : Type 0} → (Exc → Action Db A) → Result A → Action Db A
  rescue handler (ok a) w = (ok a, w)
  rescue handler (raise e) w = handler e w

  abbrev pub catching : {A : Type 0} → Action Db A → (Exc → Action Db A) → Action Db A
  catching m handler w = let (a, w') = m w in rescue handler a w'

  unfoldable pub run_under :
      {A : Type 0} → (Db → A × Db) → World Db → List Fault → Result A × World Db
  run_under f w [] = let (a, d) = f w.db in (ok a, record w { db = d; faults = [] })
  run_under f w (fine ∷ fs) = let (a, d) = f w.db in (ok a, record w { db = d; faults = fs })
  run_under f w (refused e ∷ fs) = (raise (redis e), record w { faults = fs })
  run_under f w (interrupted e true ∷ fs) =
      (raise (redis e), record w { db = (f w.db).1; faults = fs })
  run_under f w (interrupted e false ∷ fs) = (raise (redis e), record w { faults = fs })

  -- One command (a script is one command), under the next fault.
  unfoldable pub command : {A : Type 0} → (Db → A × Db) → Action Db A
  unfolding run_under
  command f w = run_under f w w.faults

  after_elim :
      {A B P : Type 0} (p : Result A × World Db) (f : A → Action Db B) {w' : World Db} {b : B}
      → after p.0 f p.1 ≡ (ok b, w')
      → ((a : A) (v : World Db) → p ≡ (ok a, v) → f a v ≡ (ok b, w') → P)
      → P
  after_elim (ok a, v) f h k = k a v refl h
  after_elim (raise e, v) f h k = absurd (cc h)

  -- A sequence that returned: its first call returned, and so did the rest.
  pub andthen_elim :
      {A B P : Type 0} (m : Action Db A) (f : A → Action Db B) {w w' : World Db} {b : B}
      → andthen m f w ≡ (ok b, w')
      → ((a : A) (v : World Db) → m w ≡ (ok a, v) → f a v ≡ (ok b, w') → P)
      → P
  andthen_elim m f {w} h k = after_elim (m w) f h k

  -- The same where the first step calls no command.
  pub lift_elim :
      {A B P : Type 0} (r : Result A) (f : A → Action Db B) {w w' : World Db} {b : B}
      → after r f w ≡ (ok b, w')
      → ((a : A) → r ≡ ok a → f a w ≡ (ok b, w') → P)
      → P
  lift_elim (ok a) f h k = k a refl h
  lift_elim (raise e) f h k = absurd (cc h)

  -- A command that returned has run, and changed nothing but the database.
  under_ok :
      {A : Type 0} (f : Db → A × Db) (w : World Db) (fs : List Fault) {w' : World Db} {a : A}
      → run_under f w fs ≡ (ok a, w')
      → (f w.db ≡ (a, w'.db)) × (w'.kicks ≡ w.kicks)
  unfolding run_under
  under_ok f w [] h = (cc h, cc h)
  under_ok f w (fine ∷ fs) h = (cc h, cc h)
  under_ok f w (refused e ∷ fs) h = absurd (cc h)
  under_ok f w (interrupted e true ∷ fs) h = absurd (cc h)
  under_ok f w (interrupted e false ∷ fs) h = absurd (cc h)

  pub command_ok :
      {A : Type 0} (f : Db → A × Db) (w : World Db) {w' : World Db} {a : A}
      → command f w ≡ (ok a, w')
      → (f w.db ≡ (a, w'.db)) × (w'.kicks ≡ w.kicks)
  unfolding command
  command_ok f w h = under_ok f w w.faults h

  rescue_elim :
      {A : Type 0} (p : Result A × World Db) (handler : Exc → Action Db A) {w' : World Db} {a : A}
      → rescue handler p.0 p.1 ≡ (ok a, w')
      → ((e : Exc) (v : World Db) → handler e v ≢ (ok a, w'))
      → p ≡ (ok a, w')
  rescue_elim (ok b, v) handler h never = h
  rescue_elim (raise e, v) handler h never = absurd (never e v h)

  -- Under a handler that always raises, only the block itself returns.
  pub catching_ok :
      {A : Type 0} (m : Action Db A) (handler : Exc → Action Db A) {w w' : World Db} {a : A}
      → catching m handler w ≡ (ok a, w')
      → ((e : Exc) (v : World Db) → handler e v ≢ (ok a, w'))
      → m w ≡ (ok a, w')
  catching_ok m handler {w} h never = rescue_elim (m w) handler h never

  -- What each part of a sequence keeps is kept by the sequence, whether it returns or raises.
  pub after_keeps :
      {A B : Type 0} (Q : World Db → Type 0) (p : Result A × World Db) (f : A → Action Db B)
      → Q p.1
      → ((a : A) (v : World Db) → Q v → Q (f a v).1)
      → Q (after p.0 f p.1).1
  after_keeps Q (ok a, v) f h next = next a v h
  after_keeps Q (raise e, v) f h next = h

  pub rescue_keeps :
      {A : Type 0} (Q : World Db → Type 0) (handler : Exc → Action Db A) (p : Result A × World Db)
      → Q p.1
      → ((e : Exc) (v : World Db) → Q v → Q (handler e v).1)
      → Q (rescue handler p.0 p.1).1
  rescue_keeps Q handler (ok a, v) h next = h
  rescue_keeps Q handler (raise e, v) h next = next e v h

  under_any :
      {A : Type 0} (f : Db → A × Db) (w : World Db) (fs : List Fault) (p : Result A × World Db)
      → run_under f w fs ≡ p
      → ((p.1.db ≡ w.db) ⊎ (p.1.db ≡ (f w.db).1)) × (p.1.opener_calls ≡ w.opener_calls)
  unfolding run_under
  under_any f w [] p h = rw (← h) (inr refl, refl)
  under_any f w (fine ∷ fs) p h = rw (← h) (inr refl, refl)
  under_any f w (refused e ∷ fs) p h = rw (← h) (inl refl, refl)
  under_any f w (interrupted e true ∷ fs) p h = rw (← h) (inr refl, refl)
  under_any f w (interrupted e false ∷ fs) p h = rw (← h) (inl refl, refl)

  -- Whatever the faults, a command runs once or not at all, and calls no opener.
  pub command_any :
      {A : Type 0} (f : Db → A × Db) (w : World Db)
      → (((command f w).1.db ≡ w.db) ⊎ ((command f w).1.db ≡ (f w.db).1))
        × ((command f w).1.opener_calls ≡ w.opener_calls)
  unfolding command
  command_any f w = under_any f w w.faults (run_under f w w.faults) refl

  -- Where no faults are to come, a command runs.
  pub command_calm :
      {A : Type 0} (f : Db → A × Db) (w : World Db)
      → w.faults ≡ []
      → command f w ≡ (ok (f w.db).0, record w { db = (f w.db).1; faults = [] })
  unfolding command run_under
  command_calm f w h = rw h refl

  -- A sequence by the cases of its first part.
  pub after_cases :
      {A B : Type 0} (P : Result B × World Db → Type 0) (p : Result A × World Db)
      (f : A → Action Db B)
      → ((a : A) (v : World Db) → p ≡ (ok a, v) → P (f a v))
      → ((e : Exc) (v : World Db) → p ≡ (raise e, v) → P (raise e, v))
      → P (after p.0 f p.1)
  after_cases P (ok a, v) f done failed = done a v refl
  after_cases P (raise e, v) f done failed = failed e v refl
