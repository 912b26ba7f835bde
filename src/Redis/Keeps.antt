-- ===== src/Redis/Keeps.antt =====
-- What an action keeps, whether it returns or raises: rules by the shape of the action.
use h_mesh.Base.{Bool, true, false, if◌then◌else◌}
use h_mesh.Errors.{Exc, Result}
use h_mesh.Redis.World.{World, Action, andthen, lift, catching, after_keeps, rescue_keeps}

module _ {Db : Type 0} where
  abbrev pub Keeps : {A : Type 0} → (World Db → Type 0) → Action Db A → Type 0
  Keeps Q m = (w : World Db) → Q w → Q (m w).1

  pub andthen-Keeps :
      {A B : Type 0} (Q : World Db → Type 0) (m : Action Db A) (f : A → Action Db B)
      → Keeps Q m
      → ((a : A) → Keeps Q (f a))
      → Keeps Q (andthen m f)
  andthen-Keeps Q m f first rest w h = after_keeps Q (m w) f (first w h) rest

  pub lift-Keeps :
      {A B : Type 0} (Q : World Db → Type 0) (r : Result A) (f : A → Action Db B)
      → ((a : A) → Keeps Q (f a))
      → Keeps Q (andthen (lift r) f)
  lift-Keeps Q r f rest = andthen-Keeps Q (lift r) f (λ w h. h) rest

  pub catching-Keeps :
      {A : Type 0} (Q : World Db → Type 0) (m : Action Db A) (handler : Exc → Action Db A)
      → Keeps Q m
      → ((e : Exc) → Keeps Q (handler e))
      → Keeps Q (catching m handler)
  catching-Keeps Q m handler first rest w h = rescue_keeps Q handler (m w) (first w h) rest

  pub if-Keeps :
      {A : Type 0} (Q : World Db → Type 0) (b : Bool) (m n : Action Db A)
      → Keeps Q m
      → Keeps Q n
      → Keeps Q (if b then m else n)
  if-Keeps Q true m n h k = h
  if-Keeps Q false m n h k = k
