-- ===== src/Policy.antt =====
-- h-app/core/policy.py: the export and import tags of two participants.
pub mod Shared
mod Tests
use h_mesh.Base.{Bool, true, false, ◌||◌, Option, none, some, List, [], ◌∷◌, Text, codes, elem_text}
use h_mesh.Errors.{envelope_error, invalid_tags, policy_denied, Result, ok, raise, require}
use h_mesh.Keys.{agent_key}
use h_mesh.Envelope.Values.{Value, Items, nil, cons, str, array}
use h_mesh.Envelope.Frames.{Json}
use h_mesh.Redis.{Redis}
use h_mesh.Redis.World.{Action, andthen, lift, returns, command}
use h_mesh.Registry.{lookup}

-- all(isinstance(value, str) for value in values): the texts, if so
text_items : Items → Option (List Text)
text_items nil = some []
text_items (cons (str s) vs) = elim (text_items vs) [ none ↦ none | some ss ↦ some (s ∷ ss) ]
text_items (cons v vs) = none

tag_list : Option Value → Option (List Text)
tag_list (some (array vs)) = text_items vs
tag_list v = none

-- A field of the tags hash: `ok none` where it is absent.
unfoldable pub parse_tags : Json → Text → Option Text → Result (Option (List Text))
unfolding tag_list text_items
parse_tags json side none = ok none
parse_tags json side (some raw) = elim (tag_list (json.loads raw)) [
  | none ↦ raise (envelope_error (invalid_tags side))
  | some tags ↦ ok (some tags)
]

-- bool(a & b)
unfoldable pub meets : List Text → List Text → Bool
meets [] ys = false
meets (x ∷ xs) ys = elem_text x ys || meets xs ys

-- if not export or not imports: return True
unfoldable pub allowed_tags : Option (List Text) → Option (List Text) → Bool
allowed_tags none imports = true
allowed_tags (some []) imports = true
allowed_tags (some (x ∷ xs)) none = true
allowed_tags (some (x ∷ xs)) (some []) = true
allowed_tags (some (x ∷ xs)) (some (y ∷ ys)) = meets (x ∷ xs) (y ∷ ys)

module _ (R : Redis) (json : Json) (pod tenant : Text) where
  abbrev pub read_tags : Text → Text → Action R.Db (Option (List Text))
  read_tags agent side = andthen (lift (agent_key pod tenant agent (codes "tags"))) λ key.
      andthen (command λ d. (lookup side (R.entries d key), d))
        λ raw. lift (parse_tags json side raw)

  abbrev pub allows : Text → Text → Action R.Db Bool
  allows source destination = andthen (read_tags source (codes "export")) λ export.
      andthen (read_tags destination (codes "import"))
        λ imports. returns (allowed_tags export imports)

  unfoldable pub require_allowed : Text → Text → Action R.Db (Unit {0})
  require_allowed source destination =
      andthen (allows source destination)
        λ allowed. lift (require allowed (envelope_error policy_denied))
