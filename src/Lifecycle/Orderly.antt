-- ===== src/Lifecycle/Orderly.antt =====
-- A terminal agent is shown in the registry only after all that its window is built from.
use h_mesh.Base.{
  ◌≡◌, refl, sym, subst, inl, inr, Bool, false, List, [], Text, codes, ◌=t◌, elem_text,
}
use h_mesh.Errors.{Result, ok, raise, lifecycle_incomplete}
use h_mesh.Keys.{agent_key, tenant_key}
use h_mesh.Keys.Named.{incarnation_key}
use h_mesh.Envelope.Values.{Value}
use h_mesh.Redis.{Redis}
use h_mesh.Redis.World.{World, Action, rescue}
use h_mesh.Redis.Triples.{Ends, Triple, andthen-Triple, lift-Triple, command-Triple, if-Triple}
use h_mesh.Registry.{port_type}
use h_mesh.Channels.{is_type}
use h_mesh.Lifecycle.Requests.{Launch}
use h_mesh.Lifecycle.Start.{
  StartKeys, start_keys, flag_value, cause_of, write_desired, publish_launch, publish_member,
  set_value, actual, start_tmux,
}
use h_mesh.Lifecycle.Apart.{agent_key-tenant_key}
use h_mesh.Lifecycle.Tags.{publish_policy-Triple}
use h_mesh.Lifecycle.Stages.{
  more, Holds, Stage, IsOrderly, write_desired-Triple, set_value-Triple, old_value-Triple,
  publish-Triple,
}
use h_mesh.Lifecycle.Configured.{
  Holds-lead, accounts_of, command_of, resume_of, skip_of, configured, start_keys_lem,
}
use h_mesh.Lifecycle.Steps.{steps-IsApart, agent_key-configured, tenant_key-configured}

-- What stands before the launch, and what a window callback leaves
module _ (R : Redis) (dumps : Value → Text) (now : Value) (fresh pod tenant agent : Text)
    (keys : StartKeys) (built : start_keys pod tenant agent ≡ ok keys) (supplied : Bool)
    (policy : List (Text × List Text)) (launch : Launch) (shown : List (Text × Text)) where
  abbrev AtStage : List (Text × Text) → R.Db → Type 0
  AtStage = Stage R keys.registry shown (configured keys launch)

  abbrev IsInOrder : R.Db → Type 0
  IsInOrder = IsOrderly R keys.registry shown (configured keys launch)

  foreign :
      (r : Text) {x : Text} → agent_key pod tenant agent r ≡ ok x → (x =t keys.registry) ≡ false
  foreign r hx =
      agent_key-tenant_key pod tenant agent r (codes "registry") hx
        (start_keys_lem pod tenant agent keys built).0

  publish_launch-Triple :
      (runs : Bool)
      → Triple
          (AtStage [])
          (publish_launch R dumps now fresh pod tenant agent keys supplied policy runs launch)
          (λ _. AtStage (configured keys launch))
          IsInOrder
  unfolding publish_launch ◌=t◌
  publish_launch-Triple runs =
      let (reg, tags, lau, pro, prv, res, ski, too) = start_keys_lem pod tenant agent keys built in
      let (a1, a2, a3, a4, a5) = steps-IsApart pod tenant agent keys built launch in
      let full = configured keys launch in
      andthen-Triple (AtStage []) (λ _. AtStage []) (λ _. AtStage full) IsInOrder _ _
        (old_value-Triple R keys.registry shown full [] keys.launch tt
          (foreign (codes "launch") lau) runs)
        λ old.
          andthen-Triple (AtStage []) (λ _. AtStage (more keys.profile launch.profile []))
            (λ _. AtStage full) IsInOrder _ _
            (publish-Triple R keys.registry shown full [] keys.profile tt
              (foreign (codes "profile") pro) runs _ launch.profile _)
            λ p1.
              andthen-Triple (AtStage (more keys.profile launch.profile []))
                (λ _. AtStage (accounts_of keys launch)) (λ _. AtStage full) IsInOrder _ _
                (publish-Triple R keys.registry shown full (more keys.profile launch.profile [])
                  keys.provider a1 (foreign (codes "provider") prv) runs _ launch.provider p1)
                λ p2.
                  andthen-Triple (AtStage (accounts_of keys launch))
                    (λ _. AtStage (command_of keys launch)) (λ _. AtStage full) IsInOrder
                    (write_desired p2.committed _ (set_value R keys.launch launch.cli)) _
                    (write_desired-Triple R keys.registry shown full
                      (AtStage (accounts_of keys launch)) (λ _. AtStage (command_of keys launch))
                      p2.committed _ _
                      (set_value-Triple R keys.registry shown full (accounts_of keys launch)
                        keys.launch a2 (foreign (codes "launch") lau) launch.cli))
                    λ done.
                      andthen-Triple (AtStage (command_of keys launch))
                        (λ _. AtStage (resume_of keys launch)) (λ _. AtStage full) IsInOrder _ _
                        (publish-Triple R keys.registry shown full (command_of keys launch)
                          keys.resume a3 (foreign (codes "resume") res) runs _
                          (flag_value launch.resume) (record p2 { committed = done.1 }))
                        λ p3.
                          andthen-Triple (AtStage (resume_of keys launch))
                            (λ _. AtStage (skip_of keys launch)) (λ _. AtStage full) IsInOrder _ _
                            (publish-Triple R keys.registry shown full (resume_of keys launch)
                              keys.skip a4 (foreign (codes "skip-permissions") ski) runs _
                              (flag_value launch.skip_permissions) p3)
                            λ p4.
                              publish-Triple R keys.registry shown full (skip_of keys launch)
                                keys.tools a5 (foreign (codes "claude-tools") too) runs _
                                launch.claude_tools p4

  publish_member-Triple :
      (cause : Text) (done : List Text)
      → Triple
          (AtStage (configured keys launch))
          (publish_member R dumps now fresh pod tenant agent keys supplied policy cause done)
          (λ _. Holds R (configured keys launch))
          IsInOrder
  unfolding incarnation_key elem_text ◌=t◌
  publish_member-Triple cause done =
      let full = configured keys launch in
      write_desired-Triple R keys.registry shown full (AtStage full) (λ _. Holds R full) done _ _
        (lift-Triple (AtStage full) (λ _. Holds R full) IsInOrder
          (tenant_key pod tenant (codes "lead")) _ (λ d h. inl h.0)
          λ lead hl.
            lift-Triple (AtStage full) (λ _. Holds R full) IsInOrder
              (agent_key pod tenant agent (codes "window.cause")) _ (λ d h. inl h.0)
              λ cause_key hc.
                lift-Triple (AtStage full) (λ _. Holds R full) IsInOrder
                  (incarnation_key pod tenant agent) _ (λ d h. inl h.0)
                  λ incarnation hi.
                    command-Triple (AtStage full) (λ _. Holds R full) IsInOrder _
                      λ d h.
                        let after =
                          Holds-lead R keys.registry incarnation agent (codes "tmux") fresh lead
                            cause_key cause full d
                            (tenant_key-configured pod tenant agent keys built launch (codes "lead")
                              hl)
                            (agent_key-configured pod tenant agent keys built launch
                              (codes "window.cause") hc refl)
                            (agent_key-configured pod tenant agent keys built launch
                              (codes "incarnation") hi refl)
                            h.1 in
                        (inl h.0, inr after, after))

  rescued :
      {A : Type 0} (done : List Text) (p : Result A × World R.Db)
      → Holds R (configured keys launch) p.1.db
      → Ends
          (λ _. Holds R (configured keys launch))
          IsInOrder
          (rescue (λ e. λ w. (raise (lifecycle_incomplete done), w)) p.0 p.1)
  rescued done (ok a, w) h = h
  rescued done (raise e, w) h = inr h

  module _ (replace_window : Text → Action R.Db (Unit {0}))
      (quiet : (a : Text) (w : World R.Db) → (replace_window a w).1.db ≡ w.db) where
    replaced-Triple :
        (done : List Text)
        → Triple
            (Holds R (configured keys launch))
            (actual done (replace_window agent))
            (λ _. Holds R (configured keys launch))
            IsInOrder
    replaced-Triple done w h =
        rescued done (replace_window agent w)
          (subst (Holds R (configured keys launch)) (sym (quiet agent w)) h)

    pub start_tmux-Triple :
        (correlation : Value)
        → Triple
            (AtStage [])
            (start_tmux R dumps now fresh pod tenant agent keys supplied policy replace_window
              correlation launch)
            (λ _. Holds R (configured keys launch))
            IsInOrder
    unfolding start_tmux elem_text ◌=t◌
    start_tmux-Triple correlation =
        let (reg, tags, lau, pro, prv, res, ski, too) =
          start_keys_lem pod tenant agent keys built in
        let full = configured keys launch in
        andthen-Triple (AtStage []) (λ _. AtStage []) (λ _. Holds R full) IsInOrder
          (port_type R pod tenant agent) _
          (lift-Triple (AtStage []) (λ _. AtStage []) IsInOrder
            (tenant_key pod tenant (codes "registry")) _ (λ d h. inl h.0)
            λ key hk.
              command-Triple (AtStage []) (λ _. AtStage []) IsInOrder _
                λ d h. (inl h.0, inl h.0, h))
          λ existing.
            andthen-Triple (AtStage []) (λ _. AtStage full) (λ _. Holds R full) IsInOrder _ _
              (publish_launch-Triple (is_type (codes "tmux") existing))
              λ p.
                andthen-Triple (AtStage full) (λ _. AtStage full) (λ _. Holds R full) IsInOrder _ _
                  (publish_policy-Triple R keys.registry shown full full keys.policy
                    (agent_key-configured pod tenant agent keys built launch (codes "tags") tags
                      refl)
                    (foreign (codes "tags") tags) supplied dumps policy p.committed)
                  λ most.
                    andthen-Triple (AtStage full) (λ _. Holds R full) (λ _. Holds R full) IsInOrder
                      _ _
                      (publish_member-Triple
                        (cause_of (is_type (codes "tmux") existing) correlation) most)
                      λ done.
                        andthen-Triple (Holds R full) (λ _. Holds R full) (λ _. Holds R full)
                          IsInOrder _ _
                          (if-Triple (Holds R full) (λ _. Holds R full) IsInOrder p.changed _ _
                            (replaced-Triple done.1) (λ w h. h))
                          λ _. λ w h. h
