-- ===== src/Lifecycle/Surrender.antt =====
-- What the script of a retirement leaves in a list that is none of the agent's, and in the registry.
use h_mesh.Base.{
  ℕ, ◌≡◌, refl, ap, subst, ◌∙◌, inl, inr, false, none, some, List, [], ◌∷◌, ◌++◌, if◌then◌else◌,
  Text, codes, ◌=t◌, =t_eq, =t-self, elem_text, Bool-cases,
}
use h_mesh.Errors.{ok_eq, ok, >>=_elim}
use h_mesh.Keys.{agent_key, tenant_key}
use h_mesh.Keys.Named.{
  receive_processing_key, receive_opening_key, receive_undeliverable_key, receive_unresolved_key,
  retired_inbox_key,
}
use h_mesh.Envelope.Values.{Value}
use h_mesh.Envelope.Header.{Raw}
use h_mesh.Redis.{Redis}
use h_mesh.Registry.{lookup}
use h_mesh.Channels.{drop_field, is_type}
use h_mesh.Lifecycle.Retire.{
  RetireKeys, retired, agent_keys, disposable_resources, retire_keys, push_records, has_types,
  undeliverable_records, unresolved_records, retired_inbox_records, dismissed, surrendered,
  remove_script,
}
use h_mesh.Lifecycle.Apart.{items-push_records, entries-push_records, items-delete_each}

pub lookup-drop_field_self :
    (k : Text) (ps : List (Text × Text)) → lookup k (drop_field k ps) ≡ none
unfolding lookup drop_field
lookup-drop_field_self k [] = refl
lookup-drop_field_self k ((j, u) ∷ ps) = elim (Bool-cases (j =t k)) [
  | inl e ↦ rw e (lookup-drop_field_self k ps)
  | inr e ↦ rw e (rw e (lookup-drop_field_self k ps))
]

pub lookup-drop_field :
    (k other : Text) (ps : List (Text × Text))
    → (k =t other) ≡ false
    → lookup other (drop_field k ps) ≡ lookup other ps
unfolding lookup drop_field
lookup-drop_field k other [] apart = refl
lookup-drop_field k other ((j, u) ∷ ps) apart = elim (Bool-cases (j =t k)) [
  | inl e ↦
      rw (e, ◌∙◌ (ap (λ x. x =t other) (=t_eq j k e)) apart) (lookup-drop_field k other ps apart)
  | inr e ↦
      rw e (ap (λ found. if j =t other then some u else found) (lookup-drop_field k other ps apart))
]

-- All keys of the agent that the script deletes, and the names they come from.
abbrev pub own_keys : RetireKeys → List Text
own_keys k = k.inbox ∷ k.processing ∷ k.opening ∷ k.ingress ∷ k.disposable

abbrev pub own_resources : List Text
own_resources =
    codes "inbox" ∷ codes "processing" ∷ codes "opening" ∷ codes "ingress" ∷ disposable_resources

module _ (pod tenant agent : Text) (k : RetireKeys) where
  abbrev pub AreKeys : Type 0
  AreKeys =
      (tenant_key pod tenant (codes "registry") ≡ ok k.registry)
      × (tenant_key pod tenant (codes "lead") ≡ ok k.lead)
      × (tenant_key pod tenant (codes "undeliverable") ≡ ok k.undeliverable)
      × (tenant_key pod tenant (codes "unresolved") ≡ ok k.unresolved)
      × (tenant_key pod tenant (codes "retired-inbox") ≡ ok k.retired_inbox)
      × (agent_key pod tenant agent (codes "processing") ≡ ok k.processing)
      × (agent_key pod tenant agent (codes "opening") ≡ ok k.opening)
      × (agent_key pod tenant agent (codes "ingress") ≡ ok k.ingress)
      × (agent_key pod tenant agent (codes "inbox") ≡ ok k.inbox)
      × (agent_keys pod tenant agent own_resources ≡ ok (own_keys k))

pub retire_keys_lem :
    (pod tenant agent : Text) (k : RetireKeys)
    → retire_keys pod tenant agent ≡ ok k
    → AreKeys pod tenant agent k
unfolding retire_keys agent_keys receive_processing_key receive_opening_key
    receive_undeliverable_key receive_unresolved_key retired_inbox_key
retire_keys_lem pod tenant agent k h =
    >>=_elim (tenant_key pod tenant (codes "registry")) h λ a ha h1.
      >>=_elim (tenant_key pod tenant (codes "lead")) h1 λ b hb h2.
        >>=_elim (agent_key pod tenant agent (codes "processing")) h2 λ c hc h3.
          >>=_elim (agent_key pod tenant agent (codes "opening")) h3 λ d hd h4.
            >>=_elim (agent_key pod tenant agent (codes "ingress")) h4 λ e he h5.
              >>=_elim (agent_keys pod tenant agent disposable_resources) h5 λ f hf h6.
                >>=_elim (tenant_key pod tenant (codes "undeliverable")) h6 λ g hg h7.
                  >>=_elim (tenant_key pod tenant (codes "unresolved")) h7 λ i hi h8.
                    >>=_elim (agent_key pod tenant agent (codes "inbox")) h8 λ j hj h9.
                      >>=_elim (tenant_key pod tenant (codes "retired-inbox")) h9 λ l hl h10.
                        subst (AreKeys pod tenant agent) (ok_eq h10)
                          (ha, hb, hg, hi, hl, hc, hd, he, hj, rw (hj, hc, hd, he, hf) refl)

module _ (R : Redis) (encode : Value → Text) (agent : Text) (k : RetireKeys) where
  pub retired_surrendered :
      (d d' : R.Db) {a b c n : ℕ}
      → remove_script R encode agent k d ≡ (retired a b c n, d')
      → d' ≡ surrendered R encode agent k d
  unfolding remove_script
  retired_surrendered d d' h = elim (Bool-cases (has_types R encode agent k d)) [
    | inl e ↦ cc (rw e at h)
    | inr e ↦ absurd (cc (rw e at h))
  ]

  items-dismissed :
      (d : R.Db) (j : Text)
      → (k.lead =t j) ≡ false
      → R.items (dismissed R encode agent k d) j ≡ R.items d j
  items-dismissed d j apart = elim (Bool-cases (is_type agent (R.value d k.lead))) [
    | inl e ↦
        rw e (◌∙◌ (R.items-delete _ k.lead j) (rw apart (R.items-put_entries d k.registry _ j)))
    | inr e ↦ rw e (R.items-put_entries d k.registry _ j)
  ]

  entries-dismissed :
      (d : R.Db)
      → (k.lead =t k.registry) ≡ false
      → R.entries (dismissed R encode agent k d) k.registry
        ≡ drop_field agent (R.entries d k.registry)
  entries-dismissed d apart =
      let put =
        ◌∙◌
          (R.entries-put_entries d k.registry (drop_field agent (R.entries d k.registry))
            k.registry)
          (rw (=t-self k.registry) refl) in
      elim (Bool-cases (is_type agent (R.value d k.lead))) [
        | inl e ↦ rw e (◌∙◌ (R.entries-delete _ k.lead k.registry) (rw apart put))
        | inr e ↦ rw e put
      ]

  -- A list that is none of the agent's, after its entries were moved
  abbrev pub grown : Text → Text → List Raw → List Raw → List Raw
  grown key j more rs = if key =t j then rs ++ more else rs

  pub items-surrendered :
      (d : R.Db) (j : Text)
      → (k.lead =t j) ≡ false
      → elem_text j (own_keys k) ≡ false
      → R.items (surrendered R encode agent k d) j
        ≡ grown k.retired_inbox j (retired_inbox_records R encode agent k d) (
            grown k.unresolved j
              (unresolved_records R encode agent k d)
              (grown k.undeliverable j (undeliverable_records R encode agent k d) (R.items d j)))
  items-surrendered d j apart foreign =
      let first = undeliverable_records R encode agent k d in
      let second = unresolved_records R encode agent k d in
      let third = retired_inbox_records R encode agent k d in
      let d0 = dismissed R encode agent k d in
      let d1 = push_records R d0 k.undeliverable first in
      let d2 = push_records R d1 k.unresolved second in
      let d3 = push_records R d2 k.retired_inbox third in
      ◌∙◌ (items-delete_each R j (own_keys k) d3 foreign).0 (
        ◌∙◌ (items-push_records R d2 k.retired_inbox third j) (
          ap (grown k.retired_inbox j third) (
            ◌∙◌ (items-push_records R d1 k.unresolved second j) (
              ap (grown k.unresolved j second) (
                ◌∙◌ (items-push_records R d0 k.undeliverable first j)
                  (ap (grown k.undeliverable j first) (items-dismissed d j apart)))))))

  pub entries-surrendered :
      (d : R.Db)
      → (k.lead =t k.registry) ≡ false
      → elem_text k.registry (own_keys k) ≡ false
      → R.entries (surrendered R encode agent k d) k.registry
        ≡ drop_field agent (R.entries d k.registry)
  entries-surrendered d apart foreign =
      let first = undeliverable_records R encode agent k d in
      let second = unresolved_records R encode agent k d in
      let third = retired_inbox_records R encode agent k d in
      let d0 = dismissed R encode agent k d in
      let d1 = push_records R d0 k.undeliverable first in
      let d2 = push_records R d1 k.unresolved second in
      ◌∙◌ (items-delete_each R k.registry (own_keys k) _ foreign).1 (
        ◌∙◌ (entries-push_records R d2 k.retired_inbox third k.registry) (
          ◌∙◌ (entries-push_records R d1 k.unresolved second k.registry) (
            ◌∙◌ (entries-push_records R d0 k.undeliverable first k.registry)
              (entries-dismissed d apart))))
