-- ===== src/Lifecycle/Starts.antt =====
-- A start of a terminal agent, in whatever way it ends.
use h_mesh.Base.{◌≡◌, refl, subst, inr, Option, List, Text}
use h_mesh.Errors.{ok_eq, Result, ok, >>=_elim}
use h_mesh.Envelope.Values.{Value, find}
use h_mesh.Base.{codes}
use h_mesh.Redis.{Redis}
use h_mesh.Redis.World.{World, Action}
use h_mesh.Redis.Triples.{ends_either}
use h_mesh.Lifecycle.Requests.{Launch, target, start_agent_keys, policy_of, startable, hmac_of}
use h_mesh.Lifecycle.Start.{start_keys, start_tmux}
use h_mesh.Lifecycle.Agents.{
  Start, terminal, check_port, check_start, start_checked, start_agent, correlation_of,
}
use h_mesh.Lifecycle.Configured.{configured}
use h_mesh.Lifecycle.Stages.{IsOrderly, Holds}
use h_mesh.Lifecycle.Orderly.{start_tmux-Triple}

check_start_keys :
    (pod tenant : Text) (available : Result (Option (List Text))) (envelope : Value) (s : Start)
    → check_start pod tenant available envelope ≡ ok s
    → start_keys pod tenant s.agent ≡ ok s.keys
unfolding check_start
check_start_keys pod tenant available envelope s h =
    >>=_elim (target start_agent_keys envelope) h λ named hn h1.
      >>=_elim (policy_of named.1) h1 λ policy hp h2.
        >>=_elim (startable (find (codes "port_type") named.1)) h2 λ port ht h3.
          >>=_elim (hmac_of port named.1) h3 λ hmac hh h4.
            >>=_elim (start_keys pod tenant named.0) h4 λ keys hk h5.
              >>=_elim (check_port available port hmac.0 hmac.1 named.1) h5 λ checked hc h6.
                subst (λ x. start_keys pod tenant x.agent ≡ ok x.keys) (ok_eq h6) hk

module _ (R : Redis) (dumps : Value → Text) (now : Value) (fresh pod tenant : Text)
    (replace_window : Text → Action R.Db (Unit {0}))
    (quiet : (a : Text) (w : World R.Db) → (replace_window a w).1.db ≡ w.db) where
  checked-IsOrderly :
      (envelope : Value) (s : Start) (launch : Launch) (w : World R.Db)
      → start_keys pod tenant s.agent ≡ ok s.keys
      → s.checked ≡ terminal launch
      → IsOrderly R s.keys.registry
          (R.entries w.db s.keys.registry)
          (configured s.keys launch)
          (start_checked R pod tenant dumps now fresh replace_window envelope s w).1.db
  unfolding start_checked
  checked-IsOrderly envelope s launch w built is =
      let shown = R.entries w.db s.keys.registry in
      let full = configured s.keys launch in
      rw is (
        ends_either (Holds R full) (IsOrderly R s.keys.registry shown full)
          (IsOrderly R s.keys.registry shown full)
          (start_tmux R dumps now fresh pod tenant s.agent s.keys s.supplied s.policy replace_window
            (correlation_of envelope) launch w)
          (λ d h. inr h) (λ d h. h)
          (start_tmux-Triple R dumps now fresh pod tenant s.agent s.keys built s.supplied s.policy
            launch shown replace_window quiet (correlation_of envelope) w (refl, tt)))

  -- A start of a terminal agent that passed its checks, whatever faults its commands meet, and where
  -- replacing a window does not write to the database: in the end either the registry is as it was, or every
  -- value that the request gives for the agent's window stands under its key.
  pub start_agent-IsOrderly :
      (available : Result (Option (List Text))) (envelope : Value) (s : Start) (launch : Launch)
      (w : World R.Db)
      → check_start pod tenant available envelope ≡ ok s
      → s.checked ≡ terminal launch
      → IsOrderly R s.keys.registry
          (R.entries w.db s.keys.registry)
          (configured s.keys launch)
          (start_agent R pod tenant dumps now fresh replace_window available envelope w).1.db
  unfolding start_agent
  start_agent-IsOrderly available envelope s launch w passed is = rw passed (
      checked-IsOrderly envelope s launch w
        (check_start_keys pod tenant available envelope s passed) is)
