-- ===== src/Lifecycle/Publish.antt =====
-- h-app/lib/agentlifecycle/lifecycle.py: the three scripts that make an agent a member. An incarnation is
-- minted for a new member, and for one that has none.
use h_mesh.Base.{Bool, true, false, ◌&&◌, Option, none, some, [], ◌∷◌, Text}
use h_mesh.Redis.{Redis}
use h_mesh.Registry.{lookup, is_some}
use h_mesh.Channels.{set_field}

-- not current_lead or current_lead == ''
abbrev pub is_vacant : Option Text → Bool
is_vacant none = true
is_vacant (some []) = true
is_vacant (some (c ∷ s)) = false

-- SET key value, if there is a value
abbrev pub is_given : Text → Bool
is_given [] = false
is_given (c ∷ s) = true

module _ (R : Redis) (registry incarnation agent port_type fresh : Text) where
  -- HEXISTS and EXISTS: whether the agent keeps the incarnation that it has
  unfoldable pub keeps_incarnation : R.Db → Bool
  keeps_incarnation d =
      is_some (lookup agent (R.entries d registry)) && is_some (R.value d incarnation)

  abbrev pub mint : Bool → R.Db → R.Db
  mint true d = d
  mint false d = R.put_value d incarnation (some fresh)

  abbrev pub enrol : R.Db → R.Db
  enrol d = R.put_entries d registry (set_field agent port_type (R.entries d registry))

  unfoldable pub publish_membership : R.Db → (Unit {0}) × R.Db
  publish_membership d = (tt, enrol (mint (keeps_incarnation d) d))

  unfoldable pub publish_window_cause : Text → Text → R.Db → (Unit {0}) × R.Db
  publish_window_cause cause_key cause d =
      (tt, R.put_value (enrol (mint (keeps_incarnation d) d)) cause_key (some cause))

  abbrev pub set_if : Bool → Text → Text → R.Db → R.Db
  set_if true key value d = R.put_value d key (some value)
  set_if false key value d = d

  -- Whether the agent has become lead.
  unfoldable pub publish_lead_membership : Text → Text → Text → R.Db → Bool × R.Db
  publish_lead_membership lead cause_key cause d =
      let vacant = is_vacant (R.value d lead) in
      let d1 = set_if (is_given cause) cause_key cause d in
      let d2 = enrol (mint (keeps_incarnation d) d1) in (vacant, set_if vacant lead agent d2)
