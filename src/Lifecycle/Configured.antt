-- ===== src/Lifecycle/Configured.antt =====
-- The keys that start_agent writes are apart, and the membership script leaves the written values.
use h_mesh.Base.{
  ◌≡◌, refl, ap, subst, ◌∙◌, Bool, true, false, some, List, [], ◌∷◌, Text, codes, ◌=t◌, ne_=t,
  eq_=t,
}
use h_mesh.Errors.{ok_eq, ok, >>=_elim}
use h_mesh.Keys.{agent_key, tenant_key}
use h_mesh.Keys.Structure.{prefix-injective}
use h_mesh.Redis.{Redis}
use h_mesh.Registry.{port_type}
use h_mesh.Lifecycle.Publish.{
  keeps_incarnation, mint, set_if, is_vacant, is_given, publish_lead_membership,
}
use h_mesh.Lifecycle.Requests.{Launch}
use h_mesh.Lifecycle.Start.{StartKeys, start_keys, flag_value}
use h_mesh.Lifecycle.Stages.{IsApart, more, more-IsApart, Holds, value-put}

pub agent_keys-apart :
    (pod tenant agent r s : Text) {x y : Text}
    → agent_key pod tenant agent r ≡ ok x
    → agent_key pod tenant agent s ≡ ok y
    → (r =t s) ≡ false
    → (x =t y) ≡ false
agent_keys-apart pod tenant agent r s {x} {y} hx hy other = ne_=t x y λ same.
    let (_, _, _, e) =
      prefix-injective pod tenant pod tenant (some agent) (some r) (some agent) (some s)
        (◌∙◌ hx (ap ok same)) hy in
    let e' : r ≡ s = cc e in cc (eq_=t r s e', other)

module _ (R : Redis) (registry incarnation agent port_type fresh : Text) (j : Text) where
  value-set_if :
      (b : Bool) (key v : Text) (d : R.Db)
      → (key =t j) ≡ false
      → R.value (set_if R registry incarnation agent port_type fresh b key v d) j ≡ R.value d j
  value-set_if true key v d apart = value-put R d key v j apart
  value-set_if false key v d apart = refl

  value-mint :
      (b : Bool) (d : R.Db)
      → (incarnation =t j) ≡ false
      → R.value (mint R registry incarnation agent port_type fresh b d) j ≡ R.value d j
  value-mint true d apart = refl
  value-mint false d apart = value-put R d incarnation fresh j apart

  value-publish_lead_membership :
      (lead cause_key cause : Text) (d : R.Db)
      → (lead =t j) ≡ false
      → (cause_key =t j) ≡ false
      → (incarnation =t j) ≡ false
      → R.value
          (publish_lead_membership R registry incarnation agent port_type fresh lead cause_key cause
            d).1
          j
        ≡ R.value d j
  unfolding publish_lead_membership
  value-publish_lead_membership lead cause_key cause d no_lead no_cause no_mint =
      ◌∙◌ (value-set_if (is_vacant (R.value d lead)) lead agent _ no_lead) (
        ◌∙◌ (R.value-put_entries _ registry _ j) (
          ◌∙◌
            (value-mint (keeps_incarnation R registry incarnation agent port_type fresh d) _
              no_mint)
            (value-set_if (is_given cause) cause_key cause d no_cause)))

pub Holds-lead :
    (R : Redis) (registry incarnation agent port_type fresh lead cause_key cause : Text)
    (ps : List (Text × Text)) (d : R.Db)
    → IsApart lead ps
    → IsApart cause_key ps
    → IsApart incarnation ps
    → Holds R ps d
    → Holds R ps
        (publish_lead_membership R registry incarnation agent port_type fresh lead cause_key cause
          d).1
Holds-lead R registry incarnation agent port_type fresh lead cause_key cause [] d a b c h = tt
Holds-lead R registry incarnation agent port_type fresh lead cause_key cause ((k, v) ∷ ps) d
      (a, others) (b, bs) (c, cs) (is, h) =
    (
      ◌∙◌
          (value-publish_lead_membership R registry incarnation agent port_type fresh k lead
            cause_key cause d a b c)
          is,
      Holds-lead R registry incarnation agent port_type fresh lead cause_key cause ps d others bs cs
          h,
    )

module _ (keys : StartKeys) (launch : Launch) where
  -- The values that were asked for, by their keys
  abbrev pub accounts_of : List (Text × Text)
  accounts_of = more keys.provider launch.provider (more keys.profile launch.profile [])

  abbrev pub command_of : List (Text × Text)
  command_of = (keys.launch, launch.cli) ∷ accounts_of

  abbrev pub resume_of : List (Text × Text)
  resume_of = more keys.resume (flag_value launch.resume) command_of

  abbrev pub skip_of : List (Text × Text)
  skip_of = more keys.skip (flag_value launch.skip_permissions) resume_of

  abbrev pub configured : List (Text × Text)
  configured = more keys.tools launch.claude_tools skip_of

module _ (pod tenant agent : Text) (keys : StartKeys) where
  abbrev pub AreKeys : Type 0
  AreKeys =
      (tenant_key pod tenant (codes "registry") ≡ ok keys.registry)
      × (agent_key pod tenant agent (codes "tags") ≡ ok keys.policy)
      × (agent_key pod tenant agent (codes "launch") ≡ ok keys.launch)
      × (agent_key pod tenant agent (codes "profile") ≡ ok keys.profile)
      × (agent_key pod tenant agent (codes "provider") ≡ ok keys.provider)
      × (agent_key pod tenant agent (codes "resume") ≡ ok keys.resume)
      × (agent_key pod tenant agent (codes "skip-permissions") ≡ ok keys.skip)
      × (agent_key pod tenant agent (codes "claude-tools") ≡ ok keys.tools)

pub start_keys_lem :
    (pod tenant agent : Text) (keys : StartKeys)
    → start_keys pod tenant agent ≡ ok keys
    → AreKeys pod tenant agent keys
unfolding start_keys
start_keys_lem pod tenant agent keys h =
    >>=_elim (agent_key pod tenant agent (codes "hmac-keys")) h λ a ha h1.
      >>=_elim (agent_key pod tenant agent (codes "tags")) h1 λ b hb h2.
        >>=_elim (tenant_key pod tenant (codes "registry")) h2 λ c hc h3.
          >>=_elim (agent_key pod tenant agent (codes "launch")) h3 λ d hd h4.
            >>=_elim (agent_key pod tenant agent (codes "profile")) h4 λ e he h5.
              >>=_elim (agent_key pod tenant agent (codes "provider")) h5 λ f hf h6.
                >>=_elim (agent_key pod tenant agent (codes "resume")) h6 λ g hg h7.
                  >>=_elim (agent_key pod tenant agent (codes "skip-permissions")) h7 λ i hi h8.
                    >>=_elim (agent_key pod tenant agent (codes "claude-tools")) h8 λ j hj h9.
                      >>=_elim (agent_key pod tenant agent (codes "window.cause")) h9 λ k hk h10.
                        subst (AreKeys pod tenant agent) (ok_eq h10)
                          (hc, hb, hd, he, hf, hg, hi, hj)

module _ (keys : StartKeys) (launch : Launch) (key : Text) where
  pub configured-IsApart :
      (key =t keys.launch) ≡ false
      → (key =t keys.profile) ≡ false
      → (key =t keys.provider) ≡ false
      → (key =t keys.resume) ≡ false
      → (key =t keys.skip) ≡ false
      → (key =t keys.tools) ≡ false
      → IsApart key (configured keys launch)
  configured-IsApart l f v r s t =
      more-IsApart key keys.tools launch.claude_tools (skip_of keys launch) t (
        more-IsApart key keys.skip (flag_value launch.skip_permissions) (resume_of keys launch) s (
          more-IsApart key keys.resume (flag_value launch.resume) (command_of keys launch) r (
            l,
            more-IsApart key keys.provider launch.provider (more keys.profile launch.profile []) v
                (more-IsApart key keys.profile launch.profile [] f tt),
          )))
