-- ===== src/Lifecycle/Requests.antt =====
-- h-app/lib/agentlifecycle/lifecycle.py: what a lifecycle command asks for, checked before anything is
-- written. The list of accounts is a parameter.
use h_mesh.Base.{
  ℕ, Bool, true, false, not, ◌&&◌, ◌||◌, Option, none, some, List, [], ◌∷◌, length, if◌then◌else◌,
  leb, Text, codes, ◌=t◌, elem_text,
}
use h_mesh.Errors.{key_error, type_error, lifecycle_rejected, Result, ok, raise, ◌>>=◌, require}
use h_mesh.Keys.{matches_segment, agent_key}
use h_mesh.Envelope.Values.{
  Value, Fields, Items, nil, cons, str, dict, array, boolean, field, end, find, get,
}
use h_mesh.Receipts.{sorted_set}

abbrev pub reject {ℓ} : {A : Type ℓ} → Result A
reject = raise lifecycle_rejected

abbrev pub no_unknown : List Text → Fields → Bool
no_unknown allowed end = true
no_unknown allowed (field k v fs) = elem_text k allowed && no_unknown allowed fs

-- except KeyError as exc: raise ProvableLifecycleRejection
abbrev pub reject_key_error {ℓ} : {A : Type ℓ} → Result A → Result A
reject_key_error (raise key_error) = raise lifecycle_rejected
reject_key_error r = r

-- prefix("check", "check", agent=agent, resource=resource)
abbrev pub check_name : Text → Text → Result Text
check_name agent resource =
    reject_key_error (agent_key (codes "check") (codes "check") agent resource)

abbrev pub object_or_reject : Value → Result Fields
object_or_reject (dict fields) = ok fields
object_or_reject v = reject

abbrev pub present_or_reject : Option Value → Result Value
present_or_reject none = reject
present_or_reject (some v) = ok v

abbrev pub text_or_reject : Value → Result Text
text_or_reject (str s) = ok s
text_or_reject v = reject

unfoldable pub target : List Text → Value → Result (Text × Fields)
target allowed envelope = do
  fields ← object_or_reject envelope
  payload ← present_or_reject (find (codes "payload") fields)
  asked ← object_or_reject payload
  _ ← require (no_unknown allowed asked) lifecycle_rejected
  agent ← text_or_reject (get (codes "agent") asked)
  _ ← check_name agent (codes "launch")
  ok (agent, asked)

abbrev pub start_agent_keys : List Text
start_agent_keys =
    codes "agent"
    ∷ codes "port_type"
    ∷ codes "cli"
    ∷ codes "profile"
    ∷ codes "provider"
    ∷ codes "export"
    ∷ codes "import"
    ∷ codes "resume"
    ∷ codes "skip_permissions"
    ∷ codes "claude_tools"
    ∷ codes "hmac_secret"
    ∷ codes "kid"
    ∷ codes "revoke_kid"
    ∷ []

abbrev pub target_only_keys : List Text
target_only_keys = codes "agent" ∷ []

-- isinstance(value, str) and SEGMENT_REGEX.fullmatch(value), for each value
unfoldable pub tag_names : Items → Result (List Text)
tag_names nil = ok []
tag_names (cons (str s) vs) = do
  _ ← require (matches_segment s) lifecycle_rejected
  names ← tag_names vs
  ok (s ∷ names)
tag_names (cons v vs) = reject

abbrev pub side_tags : Value → Result (Option (List Text))
side_tags Value.null = ok none
side_tags (array vs) = do names ← tag_names vs; ok (some (sorted_set names))
side_tags v = reject

abbrev pub add_side : Text → Option (List Text) → List (Text × List Text) → List (Text × List Text)
add_side side none policy = policy
add_side side (some names) policy = (side, names) ∷ policy

unfoldable pub policy_of : Fields → Result (List (Text × List Text))
policy_of payload = do
  exports ← side_tags (get (codes "export") payload)
  imports ← side_tags (get (codes "import") payload)
  ok (add_side (codes "export") exports (add_side (codes "import") imports []))

pub data Port : Type 0 where
  tmux api : Port

-- agent_port_type not in _STARTABLE_VABS: a list or an object cannot be looked up in a set.
abbrev pub startable : Option Value → Result Port
startable none = ok tmux
startable (some (str s)) =
    if s =t codes "tmux" then ok tmux else if s =t codes "api" then ok api else reject
startable (some (array vs)) = raise type_error
startable (some (dict fs)) = raise type_error
startable (some v) = reject

-- None, or a segment
abbrev pub segment_or_none : Value → Result (Option Text)
segment_or_none Value.null = ok none
segment_or_none (str s) = if matches_segment s then ok (some s) else reject
segment_or_none v = reject

abbrev pub min_hmac_secret_len : ℕ
min_hmac_secret_len = 16

abbrev pub secret_or_none : Value → Result (Option Text)
secret_or_none Value.null = ok none
secret_or_none (str s) = if leb min_hmac_secret_len (length s) then ok (some s) else reject
secret_or_none v = reject

abbrev pub is_null : Value → Bool
is_null Value.null = true
is_null v = false

abbrev pub same_bool : Bool → Bool → Bool
same_bool true b = b
same_bool false b = not b

abbrev pub allows_keys : Port → Bool → Bool
allows_keys api given = true
allows_keys tmux given = not given

abbrev pub pair_of : Option Text → Option Text → Option (Text × Text)
pair_of (some kid) (some secret) = some (kid, secret)
pair_of kid secret = none

-- The secret with its id, and the id that is revoked
unfoldable pub hmac_of : Port → Fields → Result (Option (Text × Text) × Option Text)
hmac_of port payload = do
  _ ←
      require
        (same_bool (is_null (get (codes "hmac_secret") payload))
          (is_null (get (codes "kid") payload)))
        lifecycle_rejected
  kid ← segment_or_none (get (codes "kid") payload)
  secret ← secret_or_none (get (codes "hmac_secret") payload)
  revoke ← segment_or_none (get (codes "revoke_kid") payload)
  _ ←
      require
        (allows_keys port (
          not (is_null (get (codes "kid") payload))
          || not (is_null (get (codes "revoke_kid") payload))))
        lifecycle_rejected
  ok (pair_of kid secret, revoke)

-- A profile or a provider: a name if it is truthy, nothing if it is None or empty
abbrev pub name_of : Text → Value → Result (Option Text)
name_of resource (str []) = ok none
name_of resource (str (c ∷ s)) = do _ ← check_name (c ∷ s) resource; ok (some (c ∷ s))
name_of resource Value.null = ok none
name_of resource v = reject

-- profiles is not None and profile not in profiles
abbrev pub is_listed : Text → Option (List Text) → Bool
is_listed profile none = true
is_listed profile (some profiles) = elem_text profile profiles

abbrev pub check_listed : Result (Option (List Text)) → Option Text → Result (Unit {0})
check_listed available none = ok tt
check_listed available (some profile) = do
  profiles ← available
  require (is_listed profile profiles) lifecycle_rejected

abbrev pub flag_or_none : Value → Result (Option Bool)
flag_or_none Value.null = ok none
flag_or_none (boolean b) = ok (some b)
flag_or_none v = reject

abbrev pub tools_of : Option Value → Result (Option Text)
tools_of none = ok none
tools_of (some (str s)) = ok (some s)
tools_of (some v) = reject

abbrev pub cli_of : Option Value → Result Text
cli_of none = ok (codes "claude")
cli_of (some (str (c ∷ s))) = ok (c ∷ s)
cli_of (some v) = reject

pub record Launch : Type 0 where
  pub cli : Text
  pub profile : Option Text
  pub provider : Option Text
  pub resume : Option Bool
  pub skip_permissions : Option Bool
  pub claude_tools : Option Text

unfoldable pub launch_of : Result (Option (List Text)) → Fields → Result Launch
launch_of available payload = do
  cli ← cli_of (find (codes "cli") payload)
  profile ← name_of (codes "profile") (get (codes "profile") payload)
  _ ← check_listed available profile
  provider ← name_of (codes "provider") (get (codes "provider") payload)
  resume ← flag_or_none (get (codes "resume") payload)
  skip ← flag_or_none (get (codes "skip_permissions") payload)
  tools ← tools_of (find (codes "claude_tools") payload)
  ok (record {
    cli = cli;
    profile = profile;
    provider = provider;
    resume = resume;
    skip_permissions = skip;
    claude_tools = tools;
  })
