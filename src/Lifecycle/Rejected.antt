-- ===== src/Lifecycle/Rejected.antt =====
-- A start that is rejected has changed nothing.
use h_mesh.Base.{◌≡◌, Bool, true, false, Option, none, some, List, [], ◌∷◌, Text, codes}
use h_mesh.Errors.{lifecycle_rejected, Result, raise}
use h_mesh.Envelope.Values.{Value}
use h_mesh.Redis.{Redis}
use h_mesh.Redis.World.{World, Action}
use h_mesh.Lifecycle.Requests.{Launch}
use h_mesh.Lifecycle.Start.{
  Progress, StartKeys, write_desired, publish, publish_sides, publish_policy, publish_launch,
  publish_key, revoke_key, old_value, set_value, start_api, start_tmux, flag_value,
}
use h_mesh.Lifecycle.Agents.{
  Start, Checked, terminal, client, start_checked, check_start, start_agent, correlation_of,
}
use h_mesh.Lifecycle.Final.{
  IsFinal, andthen-IsFinal, returns-IsFinal, prefix-IsFinal, command-IsFinal, write_desired-IsFinal,
  actual-IsFinal, if-IsFinal, after_check,
}

module _ (R : Redis) where
  old_value-IsFinal : (runs : Bool) (key : Text) → IsFinal (old_value R runs key)
  old_value-IsFinal true key = command-IsFinal _
  old_value-IsFinal false key = returns-IsFinal _

  publish-IsFinal :
      (runs : Bool) (key label : Text) (o : Option Text) (p : Progress)
      → IsFinal (publish R runs key label o p)
  unfolding publish
  publish-IsFinal runs key label none p = returns-IsFinal p
  publish-IsFinal runs key label (some value) p =
      andthen-IsFinal (old_value R runs key) _ (old_value-IsFinal runs key) λ old.
        andthen-IsFinal (write_desired p.committed label (set_value R key value)) _
          (write_desired-IsFinal _ _ _) λ _. returns-IsFinal _

  publish_sides-IsFinal :
      (key : Text) (dumps : Value → Text) (policy : List (Text × List Text)) (done : List Text)
      → IsFinal (publish_sides R key dumps policy done)
  unfolding publish_sides
  publish_sides-IsFinal key dumps [] done = returns-IsFinal done
  publish_sides-IsFinal key dumps ((side, names) ∷ policy) done =
      andthen-IsFinal (write_desired done _ _) _ (write_desired-IsFinal _ _ _)
        λ more. publish_sides-IsFinal key dumps policy more.1

  publish_policy-IsFinal :
      (supplied : Bool) (key : Text) (dumps : Value → Text) (policy : List (Text × List Text))
      (done : List Text)
      → IsFinal (publish_policy R supplied key dumps policy done)
  unfolding publish_policy
  publish_policy-IsFinal false key dumps policy done = returns-IsFinal done
  publish_policy-IsFinal true key dumps policy done =
      andthen-IsFinal (write_desired done _ _) _ (write_desired-IsFinal _ _ _)
        λ more. publish_sides-IsFinal key dumps policy more.1

  revoke_key-IsFinal :
      (key : Text) (o : Option Text) (done : List Text) → IsFinal (revoke_key R key o done)
  revoke_key-IsFinal key none done = returns-IsFinal done
  revoke_key-IsFinal key (some kid) done =
      andthen-IsFinal (write_desired done _ _) _ (write_desired-IsFinal _ _ _)
        λ _. returns-IsFinal _

  publish_key-IsFinal :
      (key : Text) (dumps : Value → Text) (now : Value) (o : Option (Text × Text))
      (done : List Text)
      → IsFinal (publish_key R key dumps now o done)
  publish_key-IsFinal key dumps now none done = returns-IsFinal done
  publish_key-IsFinal key dumps now (some (kid, secret)) done =
      andthen-IsFinal (write_desired done _ _) _ (write_desired-IsFinal _ _ _)
        λ _. returns-IsFinal _

module _ (R : Redis) (dumps : Value → Text) (now : Value) (fresh pod tenant : Text)
    (replace_window : Text → Action R.Db (Unit {0})) where
  module _ (agent : Text) (keys : StartKeys) (supplied : Bool)
      (policy : List (Text × List Text)) where
    start_api-IsFinal :
        (pair : Option (Text × Text)) (revoked : Option Text)
        → IsFinal (start_api R dumps now fresh pod tenant agent keys supplied policy pair revoked)
    unfolding start_api
    start_api-IsFinal pair revoked =
        andthen-IsFinal _ _ (revoke_key-IsFinal R keys.hmac_keys revoked []) λ done.
          andthen-IsFinal _ _ (publish_key-IsFinal R keys.hmac_keys dumps now pair done) λ more.
            andthen-IsFinal _ _ (publish_policy-IsFinal R supplied keys.policy dumps policy more)
              λ most.
                andthen-IsFinal (write_desired most _ _) _ (write_desired-IsFinal _ _ _)
                  λ _. returns-IsFinal _

    publish_launch-IsFinal :
        (runs : Bool) (launch : Launch)
        → IsFinal
            (publish_launch R dumps now fresh pod tenant agent keys supplied policy runs launch)
    unfolding publish_launch
    publish_launch-IsFinal runs launch =
        andthen-IsFinal _ _ (old_value-IsFinal R runs keys.launch) λ old.
          andthen-IsFinal _ _ (publish-IsFinal R runs keys.profile _ launch.profile _) λ p1.
            andthen-IsFinal _ _ (publish-IsFinal R runs keys.provider _ launch.provider p1) λ p2.
              andthen-IsFinal (write_desired p2.committed _ _) _ (write_desired-IsFinal _ _ _)
                λ done.
                  andthen-IsFinal _ _
                    (publish-IsFinal R runs keys.resume _ (flag_value launch.resume)
                      (record p2 { committed = done.1 }))
                    λ p3.
                      andthen-IsFinal _ _
                        (publish-IsFinal R runs keys.skip _ (flag_value launch.skip_permissions) p3)
                        λ p4. publish-IsFinal R runs keys.tools _ launch.claude_tools p4

    start_tmux-IsFinal :
        (correlation : Value) (launch : Launch)
        → IsFinal (
            start_tmux R dumps now fresh pod tenant agent keys supplied policy replace_window
              correlation launch)
    unfolding start_tmux
    start_tmux-IsFinal correlation launch =
        andthen-IsFinal _ _
          (andthen-IsFinal _ _ (prefix-IsFinal pod tenant none (some (codes "registry")))
            (λ key. command-IsFinal _))
          λ existing. andthen-IsFinal _ _ (publish_launch-IsFinal _ launch) λ p.
            andthen-IsFinal _ _
              (publish_policy-IsFinal R supplied keys.policy dumps policy p.committed)
              λ most.
                andthen-IsFinal (write_desired most _ _) _ (write_desired-IsFinal _ _ _) λ done.
                  andthen-IsFinal _ _
                    (if-IsFinal p.changed _ _ (actual-IsFinal _ _) (returns-IsFinal _))
                    λ _. returns-IsFinal _

  checked-IsFinal :
      (envelope : Value) (s : Start) (c : Checked)
      → IsFinal (
          start_checked R pod tenant dumps now fresh replace_window envelope
            (record s { checked = c }))
  unfolding start_checked
  checked-IsFinal envelope s (terminal launch) =
      start_tmux-IsFinal s.agent s.keys s.supplied s.policy (correlation_of envelope) launch
  checked-IsFinal envelope s (client pair revoked) =
      start_api-IsFinal s.agent s.keys s.supplied s.policy pair revoked

  start_checked-IsFinal :
      (envelope : Value) (s : Start)
      → IsFinal (start_checked R pod tenant dumps now fresh replace_window envelope s)
  unfolding start_checked
  start_checked-IsFinal envelope s = checked-IsFinal envelope s s.checked

  -- A start that is rejected has changed nothing, whatever the payload, the faults and the callbacks.
  pub start_agent-rejected :
      (available : Result (Option (List Text))) (envelope : Value) (w v : World R.Db)
      → start_agent R pod tenant dumps now fresh replace_window available envelope w
        ≡ (raise lifecycle_rejected, v)
      → v ≡ w
  unfolding start_agent
  start_agent-rejected available envelope w v h =
      after_check (check_start pod tenant available envelope) _ w v (start_checked-IsFinal envelope)
        h
