-- ===== src/Registry.antt =====
-- h-app/core/registry.py: reads of the tenant registry.
use h_mesh.Base.{
  Bool, true, false, Option, none, some, List, [], ◌∷◌, if◌then◌else◌, Text, ◌=t◌, codes,
}
use h_mesh.Keys.{tenant_key}
use h_mesh.Keys.Named.{offices_key, coop_tokens_key, interoffice_participants_key}
use h_mesh.Envelope.Values.{Value, str, dict, get}
use h_mesh.Envelope.Frames.{Json}
use h_mesh.Redis.{Redis}
use h_mesh.Redis.World.{Action, andthen, lift, returns, command}

-- dict.get(name) on the pairs of a hash, which has a name once
unfoldable pub lookup : Text → List (Text × Text) → Option Text
lookup k [] = none
lookup k ((j, v) ∷ ps) = let rest = lookup k ps in if j =t k then some v else rest

abbrev pub names_of : List (Text × Text) → List Text
names_of [] = []
names_of ((k, v) ∷ ps) = k ∷ names_of ps

abbrev pub is_some : Option Text → Bool
is_some none = false
is_some (some v) = true

is_text : Text → Value → Bool
is_text agent (str s) = s =t agent
is_text agent v = false

-- isinstance(record, dict) and record.get("participant") == agent
names_participant : Text → Option Value → Bool
unfolding is_text
names_participant agent (some (dict record')) = is_text agent (get (codes "participant") record')
names_participant agent v = false

-- The loop over the token records; a record that is no JSON is passed over.
unfoldable pub any_participant : Json → Text → List (Text × Text) → Bool
unfolding names_participant
any_participant json agent [] = false
any_participant json agent ((k, v) ∷ ps) =
    let rest = any_participant json agent ps in
    if names_participant agent (json.loads v) then true else rest

abbrev pub is_full : List (Text × Text) → Bool
is_full [] = false
is_full (p ∷ ps) = true

module _ (R : Redis) (pod tenant : Text) where
  abbrev pub members : Action R.Db (List Text)
  members =
      andthen (lift (tenant_key pod tenant (codes "registry")))
        λ key. command λ d. (names_of (R.entries d key), d)

  abbrev pub member_types : Action R.Db (List (Text × Text))
  member_types =
      andthen (lift (tenant_key pod tenant (codes "registry")))
        λ key. command λ d. (R.entries d key, d)

  abbrev pub is_member : Text → Action R.Db Bool
  is_member agent =
      andthen (lift (tenant_key pod tenant (codes "registry")))
        λ key. command λ d. (is_some (lookup agent (R.entries d key)), d)

  abbrev pub port_type : Text → Action R.Db (Option Text)
  port_type agent =
      andthen (lift (tenant_key pod tenant (codes "registry")))
        λ key. command λ d. (lookup agent (R.entries d key), d)

  -- if agent == RELAY_PARTICIPANT: return bool(r.hgetall(offices))
  abbrev pub is_relay : Text → Action R.Db Bool
  is_relay agent =
      let asks : Action R.Db Bool =
        andthen (lift (offices_key pod tenant))
          λ key. command λ d. (is_full (R.entries d key), d) in
      if agent =t codes "relay" then asks else returns false

  abbrev pub has_token : Json → Text → Action R.Db Bool
  has_token json agent =
      andthen (lift (coop_tokens_key pod tenant))
        λ tokens. command λ d. (any_participant json agent (R.entries d tokens), d)

  abbrev pub is_interoffice : Json → Text → Action R.Db Bool
  is_interoffice json agent = andthen (lift (interoffice_participants_key pod tenant)) λ marker.
      andthen (command λ d. (is_some (lookup agent (R.entries d marker)), d)) λ marked.
        if marked
        then returns true
        else andthen (has_token json agent) λ named. if named then returns true else is_relay agent
