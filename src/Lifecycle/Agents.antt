-- ===== src/Lifecycle/Agents.antt =====
-- h-app/lib/agentlifecycle/lifecycle.py: start_agent, stop_agent, pause_agent and resume_agent. What they
-- do with the windows of the terminal is a parameter each.
use h_mesh.Base.{
  ℕ, zero, suc, ◌+◌, ◌/◌, ◌%◌, ltb, Bool, true, false, not, ◌||◌, Option, none, some, List, [], ◌∷◌,
  ◌++◌, length, if◌then◌else◌, Text, codes, elem_text,
}
use h_mesh.Errors.{
  Exc, actual_failure, lifecycle_incomplete, lifecycle_partial, lifecycle_rejected, redis, response,
  Result, ok, raise, ◌>>=◌, require,
}
use h_mesh.Keys.{agent_key, tenant_key}
use h_mesh.Envelope.Values.{Value, Fields, dict, find, get}
use h_mesh.Redis.{Redis}
use h_mesh.Redis.World.{Action, andthen, lift, returns, catching, command}
use h_mesh.Registry.{port_type}
use h_mesh.Channels.{is_type}
use h_mesh.Lifecycle.Requests.{
  Port, tmux, api, Launch, target, start_agent_keys, target_only_keys, policy_of, startable,
  hmac_of, launch_of,
}
use h_mesh.Lifecycle.Retire.{Retired, wrong_type, retired, retire_keys, remove_script}
use h_mesh.Lifecycle.Start.{
  StartKeys, start_keys, write_desired, set_value, drop_key, start_api, start_tmux, actual,
}

-- A request to start that has passed every check
pub data Checked : Type 0 where
  terminal : Launch → Checked
  client : Option (Text × Text) → Option Text → Checked

pub record Start : Type 0 where
  pub agent : Text
  pub keys : StartKeys
  pub supplied : Bool
  pub policy : List (Text × List Text)
  pub checked : Checked

abbrev pub check_port :
    Result (Option (List Text))
    → Port
    → Option (Text × Text)
    → Option Text
    → Fields
    → Result Checked
check_port available api pair revoked payload = ok (client pair revoked)
check_port available tmux pair revoked payload = do
  launch ← launch_of available payload
  ok (terminal launch)

abbrev pub is_present : Option Value → Bool
is_present none = false
is_present (some v) = true

unfoldable pub check_start : Text → Text → Result (Option (List Text)) → Value → Result Start
check_start pod tenant available envelope = do
  named ← target start_agent_keys envelope
  policy ← policy_of named.1
  port ← startable (find (codes "port_type") named.1)
  hmac ← hmac_of port named.1
  keys ← start_keys pod tenant named.0
  checked ← check_port available port hmac.0 hmac.1 named.1
  ok (record {
    agent = named.0;
    keys = keys;
    supplied =
        is_present (find (codes "export") named.1) || is_present (find (codes "import") named.1);
    policy = policy;
    checked = checked;
  })

abbrev pub correlation_of : Value → Value
correlation_of (dict fields) = get (codes "correlation_id") fields
correlation_of v = Value.null

-- The decimal digits of n, on fuel above their number.
pub digits : ℕ → ℕ → Text
digits zero n = []
digits (suc fuel) n =
    if ltb n 10 then (48 + n) ∷ [] else digits fuel (n / 10) ++ ((48 + n % 10) ∷ [])

-- f"kick {index + 1}"
abbrev kick_label : ℕ → Text
kick_label index = codes "kick " ++ digits (suc (suc index)) (index + 1)

module _ (R : Redis) (pod tenant : Text) where
  module _ (dumps : Value → Text) (now : Value) (fresh : Text)
      (replace_window : Text → Action R.Db (Unit {0})) where
    unfoldable pub start_checked : Value → Start → Action R.Db (Option Bool)
    start_checked envelope s = elim s.checked [
      | terminal launch ↦
          start_tmux R dumps now fresh pod tenant s.agent s.keys s.supplied s.policy replace_window
            (correlation_of envelope) launch
      | client pair revoked ↦
          start_api R dumps now fresh pod tenant s.agent s.keys s.supplied s.policy pair revoked
    ]

    unfoldable pub start_agent : Result (Option (List Text)) → Value → Action R.Db (Option Bool)
    start_agent available envelope =
        andthen (lift (check_start pod tenant available envelope)) λ s. start_checked envelope s

  -- The script of a retirement, whose error reply is an exception.
  abbrev pub replied : Retired → Action R.Db (Unit {0})
  replied wrong_type w = (raise (redis (response (codes "lifecycle custody key is not"))), w)
  replied (retired a b c d) w = (ok tt, w)

  abbrev pub remove_member : (Value → Text) → Text → Action R.Db (Unit {0})
  remove_member encode agent =
      andthen (lift (retire_keys pod tenant agent))
        λ keys. andthen (command (remove_script R encode agent keys)) λ reply. replied reply

  unfoldable pub stop_agent :
      (Value → Text) → (Text → Action R.Db (Unit {0})) → Value → Action R.Db (Unit {0})
  stop_agent encode kill_window envelope =
      andthen (lift (target target_only_keys envelope)) λ (agent, _).
        andthen
          (lift
            (require (not (elem_text agent (codes "api" ∷ codes "host" ∷ []))) lifecycle_rejected))
          λ _. andthen (lift (tenant_key pod tenant (codes "registry"))) λ _.
            andthen (port_type R pod tenant agent) λ kind.
              andthen
                (write_desired [] (codes "registry row removed and owned lead cleared")
                  (remove_member encode agent))
                λ (_, done).
                  if is_type (codes "api") kind then returns tt else actual done (kill_window agent)

  unfoldable pub pause_agent : (Text → Action R.Db (Unit {0})) → Value → Action R.Db (Unit {0})
  pause_agent interrupt_window envelope =
      andthen (lift (target target_only_keys envelope)) λ (agent, _).
        andthen
          (write_desired [] (codes "paused marker published") (
            andthen (lift (agent_key pod tenant agent (codes "paused")))
              λ key. set_value R key (codes "1")))
          λ (_, done). actual done (interrupt_window agent)

  -- A kick that provably failed is told from one whose outcome is unknown.
  abbrev pub kick_failed : List Text → Exc → Action R.Db (List Text)
  kick_failed done actual_failure w = (raise (lifecycle_partial done), w)
  kick_failed done e w = (raise (lifecycle_incomplete done), w)

  unfoldable pub kick_each :
      (Text → Action R.Db (Unit {0})) → Text → ℕ → List Text → ℕ → Action R.Db (List Text)
  kick_each kick agent index done zero = returns done
  kick_each kick agent index done (suc left) =
      andthen
        (catching (andthen (kick agent) λ _. returns (done ++ (kick_label index ∷ [])))
          (kick_failed done))
        λ more. kick_each kick agent (suc index) more left

  unfoldable pub resume_agent :
      (Text → Action R.Db (Unit {0}))
      → (Text → Action R.Db (Unit {0}))
      → Value
      → Action R.Db (Unit {0})
  resume_agent resume_window kick envelope =
      andthen (lift (target target_only_keys envelope)) λ (agent, _).
        andthen
          (write_desired [] (codes "paused marker removed")
            (andthen (lift (agent_key pod tenant agent (codes "paused"))) λ key. drop_key R key))
          λ (_, done). andthen (actual done (resume_window agent)) λ _.
            let resumed = done ++ (codes "window resumed" ∷ []) in
            andthen
              (actual resumed (
                andthen (lift (agent_key pod tenant agent (codes "ingress")))
                  λ key. command λ d. (length (R.items d key), d)))
              λ depth. andthen (kick_each kick agent 0 resumed depth) λ _. returns tt
