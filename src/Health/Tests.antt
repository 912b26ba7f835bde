-- ===== src/Health/Tests.antt =====
-- A frame that has stood at the head of bob's list for 70 seconds.
use h_mesh.Base.{
  ◌-◌, ◌≡◌, ◌≤◌, refl, true, false, none, some, [], ◌∷◌, if◌then◌else◌, Text, codes, ◌=t◌,
  elem_text, split, join,
}
use h_mesh.Errors.{ok}
use h_mesh.Keys.{
  matches_segment, matches_digits, valid_text, validate_segment, prefix_parts, prefix, agent_key,
  validate_all, validate_resource,
}
use h_mesh.Keys.Named.{delivery_lock_key}
use h_mesh.Envelope.Header.{text, header_record_fields}
use h_mesh.Envelope.Frames.{Json}
use h_mesh.Redis.Memory.{memory}
use h_mesh.Redis.World.{World, command, run_under}
use h_mesh.Health.{Monitor, Sighting, sighting_of, decide}
use h_mesh.Health.Passes.{Readings, head_identity, identity_of, head, report, visit}
use h_mesh.Health.Alarms.{visit-decide}

abbrev json : Json
json = record { dumps = λ v. codes "{}"; loads = λ s. none }

abbrev readings : Readings
readings = record { stall_seconds = 60; now = 70; stamp = codes "t"; replaced = λ s. s }

abbrev ingress_key : Text
ingress_key = codes "pod:p1:tenant:t1:agent:bob:ingress"

abbrev sighted : Monitor
sighted = record {
  watch = (codes "bob", record { identity = codes "f"; since = 0 }) ∷ [];
  stalled = [];
}

abbrev waits : World memory.Db
waits = record {
  db = record {
    lists = λ k. if k =t ingress_key then text (codes "f") ∷ [] else [];
    hashes = λ k. [];
    strings = λ k. none;
    streams = λ k. [];
    sorted = λ k. [];
  };
  faults = [];
  kicks = [];
  unknown_outcomes = [];
  opener_calls = [];
}

ingress_is : agent_key (codes "p1") (codes "t1") (codes "bob") (codes "ingress") ≡ ok ingress_key
unfolding prefix prefix_parts validate_segment valid_text matches_segment matches_digits elem_text
    ◌=t◌ join validate_resource validate_all split
ingress_is = refl

is_stalled :
    elem_text
      (codes "bob")
      (visit memory json
        (codes "p1")
        (codes "t1")
        readings
        (codes "k")
        (codes "bob")
        (codes "tmux")
        sighted
        waits).1.stalled
    ≡ true
unfolding visit head report decide sighting_of identity_of header_record_fields command run_under
    delivery_lock_key prefix prefix_parts validate_segment valid_text matches_segment matches_digits
    elem_text ◌=t◌ join validate_resource validate_all split
is_stalled = refl

calm : elem_text (codes "bob") sighted.stalled ≡ false
unfolding elem_text
calm = refl

visit-decide_example :
    (identity : Text) × (g : Sighting) × (head_identity readings.replaced
        (memory.items waits.db ingress_key)
      ≡ some identity)
    × (sighting_of (codes "bob") sighted.watch ≡ some g)
    × (g.identity ≡ identity)
    × (60 ≤ 70 - g.since)
visit-decide_example =
    visit-decide memory json (codes "p1") (codes "t1") readings (codes "k") ingress_key
      (codes "bob") (codes "tmux") sighted waits ingress_is calm is_stalled
