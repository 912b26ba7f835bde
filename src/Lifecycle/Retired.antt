-- ===== src/Lifecycle/Retired.antt =====
-- What a retirement leaves of the processing, ingress and opening lists, the inbox and the incarnation of
-- an agent, and of its membership. The egress, opened and dead lists are not in it.
use h_mesh.Base.{
  ℕ, ◌≡◌, refl, ap, ◌∙◌, true, false, none, ◌++◌, Text, codes, ◌=t◌, =t-self, elem_text,
}
use h_mesh.Errors.{ok}
use h_mesh.Keys.{agent_key, tenant_key}
use h_mesh.Keys.Named.{incarnation_key}
use h_mesh.Envelope.Values.{Value}
use h_mesh.Redis.{Redis}
use h_mesh.Registry.{lookup}
use h_mesh.Channels.{drop_field}
use h_mesh.Channels.{is_type}
use h_mesh.Lifecycle.Retire.{
  frame_records, inbox_records, unopened, unknown_outcome, inbox_reason, RetireKeys, retired,
  agent_keys, retire_keys, undeliverable_records, unresolved_records, retired_inbox_records,
  surrendered, remove_script,
}
use h_mesh.Lifecycle.Apart.{
  tenant_keys-apart, agent_keys-tenant_key, agent_keys-agent_key, IsGone, delete_each-IsGone,
}
use h_mesh.Lifecycle.Surrender.{
  lookup-drop_field_self, lookup-drop_field, own_keys, own_resources, AreKeys, retire_keys_lem,
  retired_surrendered, grown, items-surrendered, entries-surrendered,
}

module _ (R : Redis) (encode : Value → Text) (pod tenant agent : Text) (k : RetireKeys)
    (before after : R.Db) where
  -- The three lists of the tenant have grown by the records of what the agent had in processing and
  -- ingress, in opening and in its inbox; these four keys are gone, and so are its incarnation and its
  -- membership; every other member is kept.
  abbrev pub IsRetired : Type 0
  IsRetired =
      (R.items after k.undeliverable
        ≡ R.items before k.undeliverable
          ++ (frame_records encode agent unopened (R.items before k.processing)
              ++ frame_records encode agent unopened (R.items before k.ingress)))
      × (R.items after k.unresolved
          ≡ R.items before k.unresolved
            ++ frame_records encode agent unknown_outcome (R.items before k.opening))
      × (R.items after k.retired_inbox
          ≡ R.items before k.retired_inbox
            ++ inbox_records encode agent
                (inbox_reason (is_type (codes "api") (lookup agent (R.entries before k.registry))))
                (R.stream before k.inbox))
      × IsGone R k.processing after
      × IsGone R k.opening after
      × IsGone R k.ingress after
      × IsGone R k.inbox after
      × ((key : Text) → incarnation_key pod tenant agent ≡ ok key → IsGone R key after)
      × (lookup agent (R.entries after k.registry) ≡ none)
      × ((other : Text)
          → (agent =t other) ≡ false
          → lookup other (R.entries after k.registry) ≡ lookup other (R.entries before k.registry))

  own-IsGone :
      (resource : Text) {key : Text}
      → agent_keys pod tenant agent own_resources ≡ ok (own_keys k)
      → agent_key pod tenant agent resource ≡ ok key
      → elem_text resource own_resources ≡ true
      → IsGone R key (surrendered R encode agent k before)
  own-IsGone resource own is there =
      delete_each-IsGone R _ (own_keys k) _
        (agent_keys-agent_key pod tenant agent resource own_resources (own_keys k) is there own)

  left :
      AreKeys pod tenant agent k
      → (resource : Text) {j : Text} → tenant_key pod tenant resource ≡ ok j
      → (codes "lead" =t resource) ≡ false
      → R.items (surrendered R encode agent k before) j
        ≡ grown R encode agent k k.retired_inbox j (retired_inbox_records R encode agent k before) (
            grown R encode agent k k.unresolved j (unresolved_records R encode agent k before) (
              grown R encode agent k k.undeliverable j
                (undeliverable_records R encode agent k before)
                (R.items before j)))
  left (reg, lead, und, unr, box, proc, opng, ing, inb, own) resource {j} hj other =
      items-surrendered R encode agent k before j
        (tenant_keys-apart pod tenant (codes "lead") resource lead hj other)
        (agent_keys-tenant_key pod tenant agent resource own_resources (own_keys k) hj own)

  members :
      AreKeys pod tenant agent k
      → R.entries (surrendered R encode agent k before) k.registry
        ≡ drop_field agent (R.entries before k.registry)
  unfolding ◌=t◌
  members (reg, lead, und, unr, box, proc, opng, ing, inb, own) =
      entries-surrendered R encode agent k before
        (tenant_keys-apart pod tenant (codes "lead") (codes "registry") lead reg refl)
        (agent_keys-tenant_key pod tenant agent (codes "registry") own_resources (own_keys k) reg
          own)

  pub remove_script-IsRetired :
      {a b c n : ℕ}
      → retire_keys pod tenant agent ≡ ok k
      → remove_script R encode agent k before ≡ (retired a b c n, after)
      → IsRetired
  unfolding incarnation_key ◌=t◌ elem_text
  remove_script-IsRetired keys ran =
      let (reg, lead, und, unr, box, proc, opng, ing, inb, own) =
        retire_keys_lem pod tenant agent k keys in
      let ls = retire_keys_lem pod tenant agent k keys in
      rw (retired_surrendered R encode agent k before after ran) (
        ◌∙◌ (left ls (codes "undeliverable") und refl) (
            rw
              (
                tenant_keys-apart pod tenant (codes "retired-inbox") (codes "undeliverable") box und
                    refl,
                tenant_keys-apart pod tenant (codes "unresolved") (codes "undeliverable") unr und
                    refl,
                =t-self k.undeliverable,
              )
              refl),
        ◌∙◌ (left ls (codes "unresolved") unr refl) (
            rw
              (
                tenant_keys-apart pod tenant (codes "retired-inbox") (codes "unresolved") box unr
                    refl,
                tenant_keys-apart pod tenant (codes "undeliverable") (codes "unresolved") und unr
                    refl,
                =t-self k.unresolved,
              )
              refl),
        ◌∙◌ (left ls (codes "retired-inbox") box refl) (
            rw
              (
                tenant_keys-apart pod tenant (codes "unresolved") (codes "retired-inbox") unr box
                    refl,
                tenant_keys-apart pod tenant (codes "undeliverable") (codes "retired-inbox") und box
                    refl,
                =t-self k.retired_inbox,
              )
              refl),
        own-IsGone (codes "processing") own proc refl,
        own-IsGone (codes "opening") own opng refl,
        own-IsGone (codes "ingress") own ing refl,
        own-IsGone (codes "inbox") own inb refl,
        λ key hk. own-IsGone (codes "incarnation") own hk refl,
        ◌∙◌ (ap (lookup agent) (members ls)) (lookup-drop_field_self agent _),
        λ other differs.
            ◌∙◌ (ap (lookup other) (members ls)) (lookup-drop_field agent other _ differs),
      )
