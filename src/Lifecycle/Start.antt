-- ===== src/Lifecycle/Start.antt =====
-- h-app/lib/agentlifecycle/lifecycle.py: start_agent. The desired state is published write by write, and
-- an exception names what was acknowledged. json.dumps, the clock and the fresh id are parameters, and
-- so are the callbacks that list the accounts and replace a window.
use h_mesh.Base.{
  Bool, true, false, ◌&&◌, ◌||◌, not, Option, none, some, List, [], ◌∷◌, ◌++◌, if◌then◌else◌, Text,
  codes,
}
use h_mesh.Errors.{lifecycle_incomplete, Result, ok, raise, ◌>>=◌}
use h_mesh.Keys.{agent_key, tenant_key}
use h_mesh.Keys.Named.{incarnation_key}
use h_mesh.Envelope.Values.{Value, Items, nil, cons, str, dict, array, field, end}
use h_mesh.Redis.{Redis}
use h_mesh.Redis.World.{Action, andthen, lift, returns, catching, command}
use h_mesh.Registry.{port_type}
use h_mesh.Channels.{set_field, drop_field, is_type}
use h_mesh.Lifecycle.Publish.{publish_membership, publish_lead_membership}
use h_mesh.Lifecycle.Requests.{Launch}

pub record StartKeys : Type 0 where
  pub hmac_keys : Text
  pub policy : Text
  pub registry : Text
  pub launch : Text
  pub profile : Text
  pub provider : Text
  pub resume : Text
  pub skip : Text
  pub tools : Text
  pub cause : Text

unfoldable pub start_keys : Text → Text → Text → Result StartKeys
start_keys pod tenant agent = do
  hmac_keys ← agent_key pod tenant agent (codes "hmac-keys")
  policy ← agent_key pod tenant agent (codes "tags")
  registry ← tenant_key pod tenant (codes "registry")
  launch ← agent_key pod tenant agent (codes "launch")
  profile ← agent_key pod tenant agent (codes "profile")
  provider ← agent_key pod tenant agent (codes "provider")
  resume ← agent_key pod tenant agent (codes "resume")
  skip ← agent_key pod tenant agent (codes "skip-permissions")
  tools ← agent_key pod tenant agent (codes "claude-tools")
  cause ← agent_key pod tenant agent (codes "window.cause")
  ok (record {
    hmac_keys = hmac_keys;
    policy = policy;
    registry = registry;
    launch = launch;
    profile = profile;
    provider = provider;
    resume = resume;
    skip = skip;
    tools = tools;
    cause = cause;
  })

-- What is acknowledged so far, and whether the agent's window no longer fits
pub record Progress : Type 0 where
  pub committed : List Text
  pub changed : Bool

abbrev pub flag_text : Bool → Text
flag_text true = codes "1"
flag_text false = codes "0"

abbrev pub flag_value : Option Bool → Option Text
flag_value none = none
flag_value (some b) = some (flag_text b)

abbrev pub text_array : List Text → Items
text_array [] = nil
text_array (s ∷ ss) = cons (str s) (text_array ss)

abbrev pub cause_of : Bool → Value → Text
cause_of false (str s) = s
cause_of known v = []

module _ {Db : Type 0} where
  abbrev pub acknowledge : {A : Type 0} → List Text → Text → Result A → Action Db (A × List Text)
  acknowledge committed label (ok a) w = (ok (a, committed ++ (label ∷ [])), w)
  acknowledge committed label (raise e) w = (raise (lifecycle_incomplete committed), w)

  -- One write, after which its label is acknowledged, or its outcome is unknown
  unfoldable pub write_desired :
      {A : Type 0} → List Text → Text → Action Db A → Action Db (A × List Text)
  write_desired committed label mutation w =
      let (a, v) = mutation w in acknowledge committed label a v

  -- except Exception as exc: raise _actual_unknown(committed, …)
  abbrev pub actual : {A : Type 0} → List Text → Action Db A → Action Db A
  actual committed act = catching act λ e. λ w. (raise (lifecycle_incomplete committed), w)

module _ (R : Redis) where
  abbrev pub set_value : Text → Text → Action R.Db (Unit {0})
  set_value key value = command λ d. (tt, R.put_value d key (some value))

  abbrev pub drop_key : Text → Action R.Db (Unit {0})
  drop_key key = command λ d. (tt, R.delete d key)

  abbrev pub set_hash : Text → Text → Text → Action R.Db (Unit {0})
  set_hash key name value =
      command λ d. (tt, R.put_entries d key (set_field name value (R.entries d key)))

  abbrev pub drop_hash : Text → Text → Action R.Db (Unit {0})
  drop_hash key name = command λ d. (tt, R.put_entries d key (drop_field name (R.entries d key)))

  -- r.get(key) if existing_port_type == "tmux" else None
  abbrev pub old_value : Bool → Text → Action R.Db (Option Text)
  old_value true key = command λ d. (R.value d key, d)
  old_value false key = returns none

  -- A value that is given: compared with the old one if the agent runs in a terminal, then written
  unfoldable pub publish : Bool → Text → Text → Option Text → Progress → Action R.Db Progress
  publish runs key label none p = returns p
  publish runs key label (some value) p = andthen (old_value runs key) λ old.
      andthen (write_desired p.committed label (set_value key value)) λ (_, done).
        returns
          (record { committed = done; changed = p.changed || (runs && not (is_type value old)) })

  unfoldable pub publish_sides :
      Text → (Value → Text) → List (Text × List Text) → List Text → Action R.Db (List Text)
  publish_sides key dumps [] done = returns done
  publish_sides key dumps ((side, names) ∷ policy) done =
      andthen
        (write_desired done (side ++ codes " policy published")
          (set_hash key side (dumps (array (text_array names)))))
        λ (_, more). publish_sides key dumps policy more

  -- policy reset, then each side, if the payload names a side
  unfoldable pub publish_policy :
      Bool → Text → (Value → Text) → List (Text × List Text) → List Text → Action R.Db (List Text)
  publish_policy false key dumps policy done = returns done
  publish_policy true key dumps policy done =
      andthen (write_desired done (codes "policy reset") (drop_key key))
        λ (_, more). publish_sides key dumps policy more

  abbrev pub revoke_key : Text → Option Text → List Text → Action R.Db (List Text)
  revoke_key key none done = returns done
  revoke_key key (some kid) done =
      andthen
        (write_desired done (codes "hmac key '" ++ (kid ++ codes "' revoked")) (drop_hash key kid))
        λ (_, more). returns more

  abbrev pub publish_key :
      Text → (Value → Text) → Value → Option (Text × Text) → List Text → Action R.Db (List Text)
  publish_key key dumps now none done = returns done
  publish_key key dumps now (some (kid, secret)) done =
      let stored =
        dumps (dict (field (codes "secret") (str secret) (field (codes "created_ts") now end))) in
      andthen
        (write_desired done (codes "hmac key '" ++ (kid ++ codes "' published"))
          (set_hash key kid stored))
        λ (_, more). returns more

module _ (R : Redis) (dumps : Value → Text) (now : Value) (fresh pod tenant agent : Text)
    (keys : StartKeys) (supplied : Bool) (policy : List (Text × List Text)) where
  unfoldable pub start_api : Option (Text × Text) → Option Text → Action R.Db (Option Bool)
  start_api pair revoked = andthen (revoke_key R keys.hmac_keys revoked []) λ done.
      andthen (publish_key R keys.hmac_keys dumps now pair done) λ more.
        andthen (publish_policy R supplied keys.policy dumps policy more) λ most.
          andthen
            (write_desired most (codes "registry row published") (
              andthen (lift (incarnation_key pod tenant agent)) λ incarnation.
                command (publish_membership R keys.registry incarnation agent (codes "api") fresh)))
            λ _. returns none

  -- Everything that a terminal needs, before the registry shows the agent
  unfoldable pub publish_launch : Bool → Launch → Action R.Db Progress
  publish_launch runs launch = andthen (old_value R runs keys.launch) λ old.
      let start : Progress = record {
        committed = [];
        changed = runs && not (is_type launch.cli old);
      } in
      andthen (publish R runs keys.profile (codes "profile published") launch.profile start) λ p1.
        andthen (publish R runs keys.provider (codes "provider published") launch.provider p1) λ p2.
          andthen
            (write_desired p2.committed (codes "launch published")
              (set_value R keys.launch launch.cli))
            λ (_, done).
              andthen
                (publish R runs keys.resume (codes "resume published") (flag_value launch.resume)
                  (record p2 { committed = done }))
                λ p3.
                  andthen
                    (publish R runs keys.skip (codes "skip_permissions published")
                      (flag_value launch.skip_permissions) p3)
                    λ p4.
                      publish R runs keys.tools (codes "claude_tools published") launch.claude_tools
                        p4

  abbrev pub publish_member : Text → List Text → Action R.Db (Bool × List Text)
  publish_member cause done = write_desired done (codes "lead and registry row published") (
      andthen (lift (tenant_key pod tenant (codes "lead"))) λ lead.
        andthen (lift (agent_key pod tenant agent (codes "window.cause"))) λ cause_key.
          andthen (lift (incarnation_key pod tenant agent)) λ incarnation. command (
            publish_lead_membership R keys.registry incarnation agent (codes "tmux") fresh lead
              cause_key cause))

  unfoldable pub start_tmux :
      (Text → Action R.Db (Unit {0})) → Value → Launch → Action R.Db (Option Bool)
  start_tmux replace_window correlation launch = andthen (port_type R pod tenant agent) λ existing.
      let runs = is_type (codes "tmux") existing in
      andthen (publish_launch runs launch) λ p.
        andthen (publish_policy R supplied keys.policy dumps policy p.committed) λ most.
          andthen (publish_member (cause_of runs correlation) most) λ (became_lead, all).
            andthen (if p.changed then actual all (replace_window agent) else returns tt)
              λ _. returns (some became_lead)
