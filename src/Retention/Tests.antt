-- ===== src/Retention/Tests.antt =====
-- Three dead frames of bob, of which two may stay.
use h_mesh.Base.{
  ◌≡◌, refl, true, none, [], ◌∷◌, if◌then◌else◌, Text, codes, ◌=t◌, elem_text, split, join,
}
use h_mesh.Errors.{ok}
use h_mesh.Keys.{
  matches_segment, matches_digits, valid_text, validate_segment, prefix_parts, prefix, agent_key,
  validate_all, validate_resource,
}
use h_mesh.Envelope.Header.{text}
use h_mesh.Redis.Memory.{memory}
use h_mesh.Redis.World.{World, command, run_under}
use h_mesh.Receipts.{sorted_set, insert_name}
use h_mesh.Retention.{Caps, newest, trims, trim_each, retain}
use h_mesh.Retention.Bounds.{retain-newest}

abbrev two : Caps
two = record { board_done_max = 1; dead_max = 2 }

abbrev done_key : Text
done_key = codes "pod:p1:tenant:t1:agent:bob:tasks.done"

abbrev dead_key : Text
dead_key = codes "pod:p1:tenant:t1:agent:bob:dead"

abbrev full : World memory.Db
full = record {
  db = record {
    lists = λ k.
        if k =t dead_key then text (codes "f") ∷ text (codes "g") ∷ text (codes "h") ∷ [] else [];
    hashes = λ k. [];
    strings = λ k. none;
    streams = λ k. [];
    sorted = λ k. [];
  };
  faults = [];
  kicks = [];
  unknown_outcomes = [];
  opener_calls = [];
}

abbrev kept : World memory.Db
kept = (retain memory (codes "p1") (codes "t1") two (codes "bob" ∷ []) full).1

done_is : agent_key (codes "p1") (codes "t1") (codes "bob") (codes "tasks.done") ≡ ok done_key
unfolding prefix prefix_parts validate_segment valid_text matches_segment matches_digits elem_text
    ◌=t◌ join validate_resource validate_all split
done_is = refl

dead_is : agent_key (codes "p1") (codes "t1") (codes "bob") (codes "dead") ≡ ok dead_key
unfolding prefix prefix_parts validate_segment valid_text matches_segment matches_digits elem_text
    ◌=t◌ join validate_resource validate_all split
dead_is = refl

run : retain memory (codes "p1") (codes "t1") two (codes "bob" ∷ []) full ≡ (ok tt, kept)
unfolding retain trims trim_each sorted_set insert_name command run_under prefix prefix_parts
    validate_segment valid_text matches_segment matches_digits elem_text ◌=t◌ join validate_resource
    validate_all split
run = refl

two_left : memory.items kept.db dead_key ≡ text (codes "g") ∷ text (codes "h") ∷ []
unfolding retain trims trim_each sorted_set insert_name command run_under prefix prefix_parts
    validate_segment valid_text matches_segment matches_digits elem_text ◌=t◌ join validate_resource
    validate_all split
two_left = refl

bob_there : elem_text (codes "bob") (codes "bob" ∷ []) ≡ true
unfolding elem_text ◌=t◌
bob_there = refl

retain-newest_example :
    (memory.items kept.db done_key ≡ newest 1 (memory.items full.db done_key))
    × (memory.items kept.db dead_key ≡ newest 2 (memory.items full.db dead_key))
retain-newest_example =
    retain-newest memory (codes "p1") (codes "t1") two (codes "bob" ∷ []) (codes "bob") full kept
      done_is dead_is bob_there run
