-- ===== src/Redis/Triples.antt =====
-- What an action leaves from a database that meets a condition: one condition where it returns, and one
-- where it raises.
use h_mesh.Base.{◌≡◌, refl, Bool, true, false, List, [], ◌∷◌, if◌then◌else◌}
use h_mesh.Errors.{Result, ok, raise}
use h_mesh.Redis.World.{
  World, Fault, fine, refused, interrupted, Action, after, andthen, lift, command, run_under,
}

module _ {Db : Type 0} where
  abbrev pub Ends : {A : Type 0} → (A → Db → Type 0) → (Db → Type 0) → Result A × World Db → Type 0
  Ends Q E (ok a, w) = Q a w.db
  Ends Q E (raise e, w) = E w.db

  abbrev pub Triple :
      {A : Type 0} → (Db → Type 0) → Action Db A → (A → Db → Type 0) → (Db → Type 0) → Type 0
  Triple P m Q E = (w : World Db) → P w.db → Ends Q E (m w)

  after-Ends :
      {A B : Type 0} (M : A → Db → Type 0) (Q : B → Db → Type 0) (E : Db → Type 0)
      (p : Result A × World Db) (f : A → Action Db B)
      → Ends M E p
      → ((a : A) → Triple (M a) (f a) Q E)
      → Ends Q E (after p.0 f p.1)
  after-Ends M Q E (ok a, w) f h rest = rest a w h
  after-Ends M Q E (raise e, w) f h rest = h

  pub andthen-Triple :
      {A B : Type 0} (P : Db → Type 0) (M : A → Db → Type 0) (Q : B → Db → Type 0) (E : Db → Type 0)
      (m : Action Db A) (f : A → Action Db B)
      → Triple P m M E
      → ((a : A) → Triple (M a) (f a) Q E)
      → Triple P (andthen m f) Q E
  andthen-Triple P M Q E m f first rest w h = after-Ends M Q E (m w) f (first w h) rest

  pub lift-Triple :
      {A B : Type 0} (P : Db → Type 0) (Q : B → Db → Type 0) (E : Db → Type 0) (r : Result A)
      (f : A → Action Db B)
      → ((d : Db) → P d → E d)
      → ((a : A) → r ≡ ok a → Triple P (f a) Q E)
      → Triple P (andthen (lift r) f) Q E
  lift-Triple P Q E (ok a) f failed rest w h = rest a refl w h
  lift-Triple P Q E (raise e) f failed rest w h = failed w.db h

  under-Ends :
      {A : Type 0} (Q : A → Db → Type 0) (E : Db → Type 0) (f : Db → A × Db) (w : World Db)
      (fs : List Fault)
      → E w.db × E (f w.db).1 × Q (f w.db).0 (f w.db).1
      → Ends Q E (run_under f w fs)
  unfolding run_under
  under-Ends Q E f w [] (before, half, done) = done
  under-Ends Q E f w (fine ∷ fs) (before, half, done) = done
  under-Ends Q E f w (refused e ∷ fs) (before, half, done) = before
  under-Ends Q E f w (interrupted e true ∷ fs) (before, half, done) = half
  under-Ends Q E f w (interrupted e false ∷ fs) (before, half, done) = before

  -- A command that raises has run or not.
  pub command-Triple :
      {A : Type 0} (P : Db → Type 0) (Q : A → Db → Type 0) (E : Db → Type 0) (f : Db → A × Db)
      → ((d : Db) → P d → E d × E (f d).1 × Q (f d).0 (f d).1)
      → Triple P (command f) Q E
  unfolding command
  command-Triple P Q E f h w p = under-Ends Q E f w w.faults (h w.db p)

  pub if-Triple :
      {A : Type 0} (P : Db → Type 0) (Q : A → Db → Type 0) (E : Db → Type 0) (b : Bool)
      (m n : Action Db A)
      → Triple P m Q E
      → Triple P n Q E
      → Triple P (if b then m else n) Q E
  if-Triple P Q E true m n h k = h
  if-Triple P Q E false m n h k = k

  pub ends_either :
      {A : Type 0} (Q E S : Db → Type 0) (p : Result A × World Db)
      → ((d : Db) → Q d → S d)
      → ((d : Db) → E d → S d)
      → Ends (λ a. Q) E p
      → S p.1.db
  ends_either Q E S (ok a, w) returned raised h = returned w.db h
  ends_either Q E S (raise e, w) returned raised h = raised w.db h
