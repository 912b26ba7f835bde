-- ===== src/Lifecycle/StartTests.antt =====
-- A start with an account, whose fourth command loses its reply; and a start of a wrong port type.
use h_mesh.Base.{
  ◌≡◌, refl, true, Option, none, some, List, [], ◌∷◌, ◌++◌, Text, codes, ◌=t◌, elem_text, split,
  join,
}
use h_mesh.Errors.{ok, raise, lifecycle_rejected, Result, timed_out}
use h_mesh.Keys.{
  matches_segment, matches_digits, valid_text, validate_segment, prefix_parts, prefix, validate_all,
  validate_resource,
}
use h_mesh.Keys.Named.{incarnation_key}
use h_mesh.Envelope.Values.{Value, Fields, str, dict, field, end, get, find, array, nil, cons}
use h_mesh.Redis.Memory.{memory}
use h_mesh.Redis.World.{World, Action, command, run_under, fine, interrupted}
use h_mesh.Receipts.{sorted_set, insert_name}
use h_mesh.Lifecycle.Requests.{Launch, target, policy_of, hmac_of, launch_of, tag_names}
use h_mesh.Lifecycle.Start.{
  StartKeys, start_keys, start_tmux, publish_launch, publish, publish_policy, publish_sides,
  write_desired,
}
use h_mesh.Lifecycle.Publish.{publish_lead_membership, keeps_incarnation}
use h_mesh.Registry.{lookup}
use h_mesh.Lifecycle.Agents.{Start, start_checked, terminal, check_start, start_agent}
use h_mesh.Lifecycle.Rejected.{start_agent-rejected}
use h_mesh.Lifecycle.Configured.{configured}
use h_mesh.Lifecycle.Stages.{IsOrderly}
use h_mesh.Lifecycle.Starts.{start_agent-IsOrderly}

abbrev at : Text → Text
at resource = codes "pod:p1:tenant:t1:agent:bob:" ++ resource

abbrev keys : StartKeys
keys = record {
  hmac_keys = at (codes "hmac-keys");
  policy = at (codes "tags");
  registry = codes "pod:p1:tenant:t1:registry";
  launch = at (codes "launch");
  profile = at (codes "profile");
  provider = at (codes "provider");
  resume = at (codes "resume");
  skip = at (codes "skip-permissions");
  tools = at (codes "claude-tools");
  cause = at (codes "window.cause");
}

abbrev asks : Fields → Value
asks more =
    dict (field (codes "payload") (dict (field (codes "agent") (str (codes "bob")) more)) end)

abbrev with_account : Value
with_account = asks (
    field (codes "profile") (str (codes "main")) (
      field (codes "resume") (Value.boolean true)
        (field (codes "export") (array (cons (str (codes "ops")) nil)) end)))

abbrev launch : Launch
launch = record {
  cli = codes "claude";
  profile = some (codes "main");
  provider = none;
  resume = some true;
  skip_permissions = none;
  claude_tools = none;
}

abbrev passed_start : Start
passed_start = record {
  agent = codes "bob";
  keys = keys;
  supplied = true;
  policy = (codes "export", codes "ops" ∷ []) ∷ [];
  checked = terminal launch;
}

abbrev accounts : Result (Option (List Text))
accounts = ok (some (codes "main" ∷ []))

passed : check_start (codes "p1") (codes "t1") accounts with_account ≡ ok passed_start
unfolding check_start start_keys target policy_of hmac_of launch_of tag_names sorted_set insert_name
    get find prefix prefix_parts validate_segment valid_text matches_segment matches_digits
    elem_text ◌=t◌ join validate_resource validate_all split
passed = refl

abbrev empty : World memory.Db
empty = record {
  db = record {
    lists = λ k. [];
    hashes = λ k. [];
    strings = λ k. none;
    streams = λ k. [];
    sorted = λ k. [];
  };
  faults = fine ∷ fine ∷ fine ∷ interrupted timed_out true ∷ [];
  kicks = [];
  unknown_outcomes = [];
  opener_calls = [];
}

abbrev dumps : Value → Text
dumps v = codes "{}"

abbrev replace_window : Text → Action memory.Db (Unit {0})
replace_window a w = (ok tt, w)

start_agent-IsOrderly_example :
    IsOrderly memory keys.registry
      (memory.entries empty.db keys.registry)
      (configured keys launch)
      (start_agent memory
        (codes "p1")
        (codes "t1")
        dumps
        Value.null
        (codes "f00")
        replace_window
        accounts
        with_account
        empty).1.db
start_agent-IsOrderly_example =
    start_agent-IsOrderly memory dumps Value.null (codes "f00") (codes "p1") (codes "t1")
      replace_window (λ a w. refl) accounts with_account passed_start launch empty passed refl

-- Without faults, the agent is shown and leads.
started :
    (start_agent memory
      (codes "p1")
      (codes "t1")
      dumps
      Value.null
      (codes "f00")
      replace_window
      accounts
      with_account
      (record empty { faults = [] })).0
    ≡ ok (some true)
unfolding start_agent start_checked start_tmux publish_launch publish publish_policy publish_sides
    write_desired command run_under publish_lead_membership keeps_incarnation incarnation_key
    check_start start_keys target policy_of hmac_of launch_of tag_names sorted_set insert_name get
    find lookup prefix prefix_parts validate_segment valid_text matches_segment matches_digits
    elem_text ◌=t◌ join validate_resource validate_all split
started = refl

abbrev wrong_port : Value
wrong_port = asks (field (codes "port_type") (str (codes "host")) end)

abbrev refused_world : World memory.Db
refused_world =
    (start_agent memory (codes "p1") (codes "t1") dumps Value.null (codes "f00") replace_window
      accounts wrong_port empty).1

refusal :
    start_agent memory
      (codes "p1")
      (codes "t1")
      dumps
      Value.null
      (codes "f00")
      replace_window
      accounts
      wrong_port
      empty
    ≡ (raise lifecycle_rejected, refused_world)
unfolding start_agent check_start target policy_of get find prefix prefix_parts validate_segment
    valid_text matches_segment matches_digits elem_text ◌=t◌ join validate_resource validate_all
    split
refusal = refl

start_agent-rejected_example : refused_world ≡ empty
start_agent-rejected_example =
    start_agent-rejected memory dumps Value.null (codes "f00") (codes "p1") (codes "t1")
      replace_window accounts wrong_port empty refused_world refusal
