-- ===== src/Switch/StepTests.antt =====
-- Two agents, of whom the second has a frame to send; and a list that nobody drains.
use h_mesh.Base.{
  ◌≡◌, refl, true, none, some, [], ◌∷◌, if◌then◌else◌, Text, codes, ◌=t◌, elem_text, before, split,
  join, List, ◌++◌,
}
use h_mesh.Errors.{ok}
use h_mesh.Keys.{
  matches_segment, matches_digits, valid_text, validate_segment, prefix_parts, prefix, validate_all,
  validate_resource,
}
use h_mesh.Keys.Named.{delivery_lock_key}
use h_mesh.Envelope.Header.{text, parse_for_switch, header_text, parse_header, check_header}
use h_mesh.Redis.Memory.{memory}
use h_mesh.Redis.World.{World, Kick, command, run_under}
use h_mesh.Switch.Forward.{Settings, sort}
use h_mesh.Switch.Steps.{egress_keys, pop_first, reconcile_each, reconcile_ingress, rotate}
use h_mesh.Switch.Senders.{IsPopped, pop_first-IsPopped}

abbrev key_of : Text → Text → Text
key_of agent resource = codes "pod:p1:tenant:t1:agent:" ++ (agent ++ (codes ":" ++ resource))

abbrev bob_egress : Text
bob_egress = key_of (codes "bob") (codes "egress")

abbrev tables : World memory.Db
tables = record {
  db = record {
    lists = λ k.
        if k =t bob_egress
        then text (codes "f") ∷ text (codes "g") ∷ []
        else if k =t key_of (codes "ann") (codes "ingress")
        then text (codes "h") ∷ []
        else [];
    hashes = λ k. (codes "bob", codes "tmux") ∷ (codes "ann", codes "api") ∷ [];
    strings = λ k. none;
    streams = λ k. [];
    sorted = λ k. [];
  };
  faults = [];
  kicks = [];
  unknown_outcomes = [];
  opener_calls = [];
}

abbrev both : List Text
both = codes "ann" ∷ codes "bob" ∷ []

abbrev both_keys : List Text
both_keys = key_of (codes "ann") (codes "egress") ∷ bob_egress ∷ []

keys_are : egress_keys (codes "p1") (codes "t1") both ≡ ok both_keys
unfolding egress_keys prefix prefix_parts validate_segment valid_text matches_segment matches_digits
    elem_text ◌=t◌ join validate_resource validate_all split
keys_are = refl

turned : rotate 1 both ≡ codes "bob" ∷ codes "ann" ∷ []
unfolding rotate
turned = refl

popped :
    pop_first memory both_keys tables.db
    ≡ (some (bob_egress, text (codes "f")), memory.lpop tables.db bob_egress)
unfolding pop_first ◌=t◌
popped = refl

pop_first-IsPopped_example :
    IsPopped memory
      (codes "p1")
      (codes "t1")
      tables.db
      both
      bob_egress
      (text (codes "f"))
      (memory.lpop tables.db bob_egress)
pop_first-IsPopped_example =
    pop_first-IsPopped memory (codes "p1") (codes "t1") tables.db both both_keys bob_egress
      (text (codes "f")) (memory.lpop tables.db bob_egress) keys_are popped

abbrev small : Settings
small = record {
  pod = codes "p1";
  tenant = codes "t1";
  ingress_max = 2;
  frame_retry_attempts = 3;
  kicks = true;
}

-- Ann is the one whose list is not empty.
abbrev kicked : List Kick → List Text
kicked [] = []
kicked (k ∷ ks) = k.agent ∷ kicked ks

restarted : kicked (reconcile_ingress memory small tables).1.kicks ≡ codes "ann" ∷ []
unfolding reconcile_ingress reconcile_each sort parse_for_switch header_text parse_header
    check_header before delivery_lock_key command run_under prefix prefix_parts validate_segment
    valid_text matches_segment matches_digits elem_text ◌=t◌ join validate_resource validate_all
    split
restarted = refl
