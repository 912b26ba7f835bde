-- ===== src/Lifecycle/Stages.antt =====
-- What start_agent has written when it stops between two writes.
use h_mesh.Base.{
  ◌≡◌, refl, ◌∙◌, ◌⊎◌, inl, Bool, true, false, Option, none, some, List, [], ◌∷◌, Text, ◌=t◌,
  =t-self,
}
use h_mesh.Errors.{Result, ok, raise}
use h_mesh.Redis.{Redis}
use h_mesh.Redis.World.{World, Action}
use h_mesh.Redis.Triples.{Ends, Triple, andthen-Triple, command-Triple}
use h_mesh.Lifecycle.Start.{Progress, write_desired, acknowledge, publish, old_value, set_value}

-- No value of the list stands under the key.
abbrev pub IsApart : Text → List (Text × Text) → Type 0
IsApart key [] = Unit
IsApart key ((k, v) ∷ ps) = ((key =t k) ≡ false) × IsApart key ps

abbrev pub more : Text → Option Text → List (Text × Text) → List (Text × Text)
more key none ps = ps
more key (some v) ps = (key, v) ∷ ps

pub more-IsApart :
    (key k : Text) (o : Option Text) (ps : List (Text × Text))
    → (key =t k) ≡ false
    → IsApart key ps
    → IsApart key (more k o ps)
more-IsApart key k none ps h hs = hs
more-IsApart key k (some v) ps h hs = (h, hs)

module _ (R : Redis) where
  -- Each key of the list has its value.
  abbrev pub Holds : List (Text × Text) → R.Db → Type 0
  Holds [] d = Unit
  Holds ((k, v) ∷ ps) d = (R.value d k ≡ some v) × Holds ps d

  pub Holds-kept :
      (ps : List (Text × Text)) (key : Text) (d d' : R.Db)
      → IsApart key ps
      → ((j : Text) → (key =t j) ≡ false → R.value d' j ≡ R.value d j)
      → Holds ps d
      → Holds ps d'
  Holds-kept [] key d d' apart same h = tt
  Holds-kept ((k, v) ∷ ps) key d d' (first, apart) same (is, h) =
      (◌∙◌ (same k first) is, Holds-kept ps key d d' apart same h)

  pub value-put :
      (d : R.Db) (key v j : Text)
      → (key =t j) ≡ false
      → R.value (R.put_value d key (some v)) j ≡ R.value d j
  value-put d key v j apart = ◌∙◌ (R.value-put_value d key (some v) j) (rw apart refl)

  pub Holds-put :
      (ps : List (Text × Text)) (key v : Text) (d : R.Db)
      → IsApart key ps
      → Holds ps d
      → Holds ((key, v) ∷ ps) (R.put_value d key (some v))
  Holds-put ps key v d apart h = (
    ◌∙◌ (R.value-put_value d key (some v) key) (rw (=t-self key) refl),
    Holds-kept ps key d (R.put_value d key (some v)) apart (value-put d key v) h,
  )

  module _ (registry : Text) (shown : List (Text × Text)) (full : List (Text × Text)) where
    -- The registry is as it was, and the values of the list are written.
    abbrev pub Stage : List (Text × Text) → R.Db → Type 0
    Stage ps d = (R.entries d registry ≡ shown) × Holds ps d

    -- The registry is as it was, or all values are written.
    abbrev pub IsOrderly : R.Db → Type 0
    IsOrderly d = (R.entries d registry ≡ shown) ⊎ Holds full d

    acknowledged :
        {A : Type 0} (Q : A → R.Db → Type 0) (done : List Text) (label : Text)
        (p : Result A × World R.Db)
        → Ends Q IsOrderly p
        → Ends (λ x. Q x.0) IsOrderly (acknowledge done label p.0 p.1)
    acknowledged Q done label (ok a, w) h = h
    acknowledged Q done label (raise e, w) h = h

    pub write_desired-Triple :
        {A : Type 0} (P : R.Db → Type 0) (Q : A → R.Db → Type 0) (done : List Text) (label : Text)
        (m : Action R.Db A)
        → Triple P m Q IsOrderly
        → Triple P (write_desired done label m) (λ x. Q x.0) IsOrderly
    unfolding write_desired
    write_desired-Triple P Q done label m h w p = acknowledged Q done label (m w) (h w p)

    module _ (ps : List (Text × Text)) (key : Text) (apart : IsApart key ps)
        (foreign : (key =t registry) ≡ false) where
      Stage-put :
          (v : Text) (d : R.Db) → Stage ps d → Stage ((key, v) ∷ ps) (R.put_value d key (some v))
      Stage-put v d (same, h) = (
        ◌∙◌ (R.entries-put_value d key (some v) registry) (rw foreign same),
        Holds-put ps key v d apart h,
      )

      pub set_value-Triple :
          (v : Text) → Triple (Stage ps) (set_value R key v) (λ _. Stage ((key, v) ∷ ps)) IsOrderly
      set_value-Triple v =
          command-Triple (Stage ps) (λ _. Stage ((key, v) ∷ ps)) IsOrderly _
            λ d h. let next = Stage-put v d h in (inl h.0, inl next.0, next)

      pub old_value-Triple :
          (runs : Bool) → Triple (Stage ps) (old_value R runs key) (λ _. Stage ps) IsOrderly
      old_value-Triple true =
          command-Triple (Stage ps) (λ _. Stage ps) IsOrderly _ λ d h. (inl h.0, inl h.0, h)
      old_value-Triple false = λ w h. h

      pub publish-Triple :
          (runs : Bool) (label : Text) (o : Option Text) (p : Progress)
          → Triple (Stage ps) (publish R runs key label o p) (λ _. Stage (more key o ps)) IsOrderly
      unfolding publish
      publish-Triple runs label none p = λ w h. h
      publish-Triple runs label (some v) p =
          andthen-Triple (Stage ps) (λ _. Stage ps) (λ _. Stage ((key, v) ∷ ps)) IsOrderly
            (old_value R runs key) _ (old_value-Triple runs)
            λ old.
              andthen-Triple (Stage ps) (λ _. Stage ((key, v) ∷ ps)) (λ _. Stage ((key, v) ∷ ps))
                IsOrderly (write_desired p.committed label (set_value R key v)) _
                (write_desired-Triple (Stage ps) (λ _. Stage ((key, v) ∷ ps)) p.committed label
                  (set_value R key v) (set_value-Triple v))
                λ x. λ w h. h
