-- ===== src/Lifecycle/Steps.antt =====
-- Each key that start_agent writes is apart from those before it, and other keys are apart from all.
use h_mesh.Base.{◌≡◌, refl, ◌∙◌, false, [], ◌∷◌, Text, codes, ◌=t◌, elem_text, arith}
use h_mesh.Errors.{ok}
use h_mesh.Keys.{agent_key, tenant_key}
use h_mesh.Lifecycle.Requests.{Launch}
use h_mesh.Lifecycle.Start.{StartKeys, start_keys, flag_value}
use h_mesh.Lifecycle.Apart.{agent_key-tenant_key, =t_sym}
use h_mesh.Lifecycle.Stages.{IsApart, more, more-IsApart}
use h_mesh.Lifecycle.Configured.{
  agent_keys-apart, accounts_of, command_of, resume_of, skip_of, configured, start_keys_lem,
  configured-IsApart,
}

module _ (pod tenant agent : Text) (keys : StartKeys)
    (built : start_keys pod tenant agent ≡ ok keys) (launch : Launch) where
  -- Each written key is apart from those that were written before.
  pub steps-IsApart :
      IsApart keys.provider (more keys.profile launch.profile [])
      × IsApart keys.launch (accounts_of keys launch)
      × IsApart keys.resume (command_of keys launch)
      × IsApart keys.skip (resume_of keys launch)
      × IsApart keys.tools (skip_of keys launch)
  unfolding ◌=t◌
  steps-IsApart =
      let (reg, tags, lau, pro, prv, res, ski, too) = start_keys_lem pod tenant agent keys built in
      let l = codes "launch" in
      let f = codes "profile" in
      let v = codes "provider" in
      let r = codes "resume" in
      let s = codes "skip-permissions" in
      let t = codes "claude-tools" in
      let accounts =
        λ (k : Text) (hv : (k =t keys.provider) ≡ false) (hf : (k =t keys.profile) ≡ false).
          more-IsApart k keys.provider launch.provider (more keys.profile launch.profile []) hv
            (more-IsApart k keys.profile launch.profile [] hf tt) in
      let resumed =
        λ (k : Text) (h : (k =t keys.resume) ≡ false) (hs : IsApart k (command_of keys launch)).
          more-IsApart k keys.resume (flag_value launch.resume) (command_of keys launch) h hs in
      (
        more-IsApart keys.provider keys.profile launch.profile []
            (agent_keys-apart pod tenant agent v f prv pro refl) tt,
        accounts keys.launch (agent_keys-apart pod tenant agent l v lau prv refl)
            (agent_keys-apart pod tenant agent l f lau pro refl),
        (
          agent_keys-apart pod tenant agent r l res lau refl,
          accounts keys.resume (agent_keys-apart pod tenant agent r v res prv refl)
              (agent_keys-apart pod tenant agent r f res pro refl),
        ),
        resumed keys.skip (agent_keys-apart pod tenant agent s r ski res refl) (
          agent_keys-apart pod tenant agent s l ski lau refl,
          accounts keys.skip (agent_keys-apart pod tenant agent s v ski prv refl)
              (agent_keys-apart pod tenant agent s f ski pro refl),
        ),
        more-IsApart keys.tools keys.skip (flag_value launch.skip_permissions)
            (resume_of keys launch) (agent_keys-apart pod tenant agent t s too ski refl)
            (resumed keys.tools (agent_keys-apart pod tenant agent t r too res refl) (
              agent_keys-apart pod tenant agent t l too lau refl,
              accounts keys.tools (agent_keys-apart pod tenant agent t v too prv refl)
                  (agent_keys-apart pod tenant agent t f too pro refl),
            )),
      )

  -- Another key of the agent
  pub agent_key-configured :
      (r : Text) {x : Text}
      → agent_key pod tenant agent r ≡ ok x
      → elem_text r (
          codes "launch"
          ∷ codes "profile"
          ∷ codes "provider"
          ∷ codes "resume"
          ∷ codes "skip-permissions"
          ∷ codes "claude-tools"
          ∷ [])
        ≡ false
      → IsApart x (configured keys launch)
  unfolding elem_text
  agent_key-configured r {x} hx other =
      let (reg, tags, lau, pro, prv, res, ski, too) = start_keys_lem pod tenant agent keys built in
      configured-IsApart keys launch x
        (agent_keys-apart pod tenant agent r (codes "launch") hx lau (ground (arith, other)))
        (agent_keys-apart pod tenant agent r (codes "profile") hx pro (ground (arith, other)))
        (agent_keys-apart pod tenant agent r (codes "provider") hx prv (ground (arith, other)))
        (agent_keys-apart pod tenant agent r (codes "resume") hx res (ground (arith, other)))
        (agent_keys-apart pod tenant agent r (codes "skip-permissions") hx ski
          (ground (arith, other)))
        (agent_keys-apart pod tenant agent r (codes "claude-tools") hx too (ground (arith, other)))

  pub tenant_key-configured :
      (r : Text) {x : Text} → tenant_key pod tenant r ≡ ok x → IsApart x (configured keys launch)
  tenant_key-configured r {x} hx =
      let (reg, tags, lau, pro, prv, res, ski, too) = start_keys_lem pod tenant agent keys built in
      configured-IsApart keys launch x
        (◌∙◌ (=t_sym x keys.launch)
          (agent_key-tenant_key pod tenant agent (codes "launch") r lau hx))
        (◌∙◌ (=t_sym x keys.profile)
          (agent_key-tenant_key pod tenant agent (codes "profile") r pro hx))
        (◌∙◌ (=t_sym x keys.provider)
          (agent_key-tenant_key pod tenant agent (codes "provider") r prv hx))
        (◌∙◌ (=t_sym x keys.resume)
          (agent_key-tenant_key pod tenant agent (codes "resume") r res hx))
        (◌∙◌ (=t_sym x keys.skip)
          (agent_key-tenant_key pod tenant agent (codes "skip-permissions") r ski hx))
        (◌∙◌ (=t_sym x keys.tools)
          (agent_key-tenant_key pod tenant agent (codes "claude-tools") r too hx))
