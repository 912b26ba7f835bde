-- ===== src/Policy/Tests.antt =====
-- ann exports two tags and bob imports two, of which one is the same.
use h_mesh.Base.{
  ◌≡◌, ◌↔◌, refl, some, none, [], ◌∷◌, List, if◌then◌else◌, Text, codes, ◌=t◌, elem_text, split,
  join,
}
use h_mesh.Errors.{ok}
use h_mesh.Keys.{
  matches_segment, matches_digits, valid_text, validate_segment, prefix_parts, prefix, agent_key,
  validate_all, validate_resource,
}
use h_mesh.Envelope.Values.{nil, cons, str, array}
use h_mesh.Envelope.Frames.{Json}
use h_mesh.Redis.Memory.{memory}
use h_mesh.Redis.World.{World}
use h_mesh.Registry.{lookup}
use h_mesh.Policy.{parse_tags, require_allowed}
use h_mesh.Policy.Shared.{MaySend, require_allowed_iff}

abbrev exports : List Text
exports = codes "red" ∷ codes "blue" ∷ []

abbrev imports : List Text
imports = codes "green" ∷ codes "blue" ∷ []

-- Each list stands in its field as its first letter.
abbrev json : Json
json = record {
  dumps = λ v. [];
  loads = λ s.
      if s =t codes "r"
      then some (array (cons (str (codes "red")) (cons (str (codes "blue")) nil)))
      else if s =t codes "g"
      then some (array (cons (str (codes "green")) (cons (str (codes "blue")) nil)))
      else none;
}

abbrev tagged : World memory.Db
tagged = record {
  db = record {
    lists = λ k. [];
    hashes = λ k.
        if k =t codes "pod:p1:tenant:t1:agent:ann:tags"
        then (codes "export", codes "r") ∷ []
        else if k =t codes "pod:p1:tenant:t1:agent:bob:tags"
        then (codes "import", codes "g") ∷ []
        else [];
    strings = λ k. none;
    streams = λ k. [];
    sorted = λ k. [];
  };
  faults = [];
  kicks = [];
  unknown_outcomes = [];
  opener_calls = [];
}

ann_key :
    agent_key (codes "p1") (codes "t1") (codes "ann") (codes "tags")
    ≡ ok (codes "pod:p1:tenant:t1:agent:ann:tags")
unfolding prefix prefix_parts validate_segment valid_text matches_segment matches_digits elem_text
    ◌=t◌ join validate_resource validate_all split
ann_key = refl

bob_key :
    agent_key (codes "p1") (codes "t1") (codes "bob") (codes "tags")
    ≡ ok (codes "pod:p1:tenant:t1:agent:bob:tags")
unfolding prefix prefix_parts validate_segment valid_text matches_segment matches_digits elem_text
    ◌=t◌ join validate_resource validate_all split
bob_key = refl

ann_exports :
    parse_tags json
      (codes "export")
      (lookup (codes "export") (memory.entries tagged.db (codes "pod:p1:tenant:t1:agent:ann:tags")))
    ≡ ok (some exports)
unfolding parse_tags lookup ◌=t◌
ann_exports = refl

bob_imports :
    parse_tags json
      (codes "import")
      (lookup (codes "import") (memory.entries tagged.db (codes "pod:p1:tenant:t1:agent:bob:tags")))
    ≡ ok (some imports)
unfolding parse_tags lookup ◌=t◌
bob_imports = refl

require_allowed_iff_example :
    ((require_allowed memory json (codes "p1") (codes "t1") (codes "ann") (codes "bob") tagged).0
      ≡ ok tt)
    ↔ MaySend (some exports) (some imports)
require_allowed_iff_example =
    require_allowed_iff memory json (codes "p1") (codes "t1") (codes "ann") (codes "bob")
      (codes "pod:p1:tenant:t1:agent:ann:tags") (codes "pod:p1:tenant:t1:agent:bob:tags")
      (some exports) (some imports) tagged refl ann_key bob_key ann_exports bob_imports
