-- ===== src/Lifecycle/Tags.antt =====
-- Publishing the policy leaves the registry and the written values.
use h_mesh.Base.{◌≡◌, refl, ◌∙◌, inl, Bool, true, false, List, [], ◌∷◌, Text, ◌=t◌}
use h_mesh.Envelope.Values.{Value}
use h_mesh.Redis.{Redis}
use h_mesh.Redis.Triples.{Triple, andthen-Triple, command-Triple}
use h_mesh.Channels.{set_field}
use h_mesh.Lifecycle.Start.{write_desired, publish_sides, publish_policy, drop_key, set_hash}
use h_mesh.Lifecycle.Stages.{IsApart, Holds-kept, Stage, IsOrderly, write_desired-Triple}

module _ (R : Redis) (registry : Text) (shown full ps : List (Text × Text)) (key : Text)
    (apart : IsApart key ps) (foreign : (key =t registry) ≡ false) where
  drop_key-Triple :
      Triple
        (Stage R registry shown full ps)
        (drop_key R key)
        (λ _. Stage R registry shown full ps)
        (IsOrderly R registry shown full)
  drop_key-Triple =
      command-Triple (Stage R registry shown full ps) (λ _. Stage R registry shown full ps)
        (IsOrderly R registry shown full) _
        λ d h.
          let same : R.entries (R.delete d key) registry ≡ shown =
            ◌∙◌ (R.entries-delete d key registry) (rw foreign h.0) in
          let kept =
            Holds-kept R ps key d (R.delete d key) apart
              (λ j other. ◌∙◌ (R.value-delete d key j) (rw other refl)) h.1 in
          (inl h.0, inl same, (same, kept))

  set_hash-Triple :
      (name v : Text)
      → Triple
          (Stage R registry shown full ps)
          (set_hash R key name v)
          (λ _. Stage R registry shown full ps)
          (IsOrderly R registry shown full)
  set_hash-Triple name v =
      command-Triple (Stage R registry shown full ps) (λ _. Stage R registry shown full ps)
        (IsOrderly R registry shown full) _
        λ d h.
          let same : R.entries (R.put_entries d key (set_field name v (R.entries d key))) registry
              ≡ shown =
            ◌∙◌ (R.entries-put_entries d key _ registry) (rw foreign h.0) in
          let kept =
            Holds-kept R ps key d (R.put_entries d key (set_field name v (R.entries d key))) apart
              (λ j other. R.value-put_entries d key _ j) h.1 in
          (inl h.0, inl same, (same, kept))

  publish_sides-Triple :
      (dumps : Value → Text) (policy : List (Text × List Text)) (done : List Text)
      → Triple
          (Stage R registry shown full ps)
          (publish_sides R key dumps policy done)
          (λ _. Stage R registry shown full ps)
          (IsOrderly R registry shown full)
  unfolding publish_sides
  publish_sides-Triple dumps [] done = λ w h. h
  publish_sides-Triple dumps ((side, names) ∷ policy) done =
      andthen-Triple (Stage R registry shown full ps) (λ _. Stage R registry shown full ps)
        (λ _. Stage R registry shown full ps) (IsOrderly R registry shown full)
        (write_desired done _ (set_hash R key side _)) _
        (write_desired-Triple R registry shown full (Stage R registry shown full ps)
          (λ _. Stage R registry shown full ps) done _ (set_hash R key side _)
          (set_hash-Triple side _))
        λ x. publish_sides-Triple dumps policy x.1

  pub publish_policy-Triple :
      (supplied : Bool) (dumps : Value → Text) (policy : List (Text × List Text)) (done : List Text)
      → Triple
          (Stage R registry shown full ps)
          (publish_policy R supplied key dumps policy done)
          (λ _. Stage R registry shown full ps)
          (IsOrderly R registry shown full)
  unfolding publish_policy
  publish_policy-Triple false dumps policy done = λ w h. h
  publish_policy-Triple true dumps policy done =
      andthen-Triple (Stage R registry shown full ps) (λ _. Stage R registry shown full ps)
        (λ _. Stage R registry shown full ps) (IsOrderly R registry shown full)
        (write_desired done _ (drop_key R key)) _
        (write_desired-Triple R registry shown full (Stage R registry shown full ps)
          (λ _. Stage R registry shown full ps) done _ (drop_key R key) drop_key-Triple)
        λ x. publish_sides-Triple dumps policy x.1
