-- ===== src/Correlation/Tests.antt =====
-- A delivery to bob, whose incarnation is known.
use h_mesh.Base.{
  false, ◌&&◌, ◌≡◌, refl, true, none, some, [], ◌∷◌, ◌++◌, if◌then◌else◌, Text, codes, ◌=t◌,
  elem_text, split, join,
}
use h_mesh.Errors.{ok}
use h_mesh.Keys.{
  matches_segment, matches_digits, valid_text, validate_segment, prefix_parts, prefix, validate_all,
  validate_resource,
}
use h_mesh.Keys.Named.{incarnation_key}
use h_mesh.Envelope.Values.{str}
use h_mesh.Envelope.Checks.{is_identifier}
use h_mesh.Redis.Memory.{memory}
use h_mesh.Redis.World.{World, command, run_under}
use h_mesh.Correlation.{
  reply_id, is_valid_reply_id, before_line_end, claim_key, record_delivered, was_delivered,
  incarnation_of, verify_script,
}
use h_mesh.Correlation.Claims.{IsClaimed, was_delivered-IsClaimed, was_delivered-record_delivered}

abbrev id : Text
id = codes "0123456789abcdef0123456789abcdef"

abbrev key : Text
key = codes "pod:p1:tenant:t1:agent:bob:incarnation"

abbrev claim : Text
claim = codes "pod:p1:tenant:t1:agent:bob:delivered.s" ++ (id ++ (codes ".i" ++ id))

abbrev hired : World memory.Db
hired = record {
  db = record {
    lists = λ k. [];
    hashes = λ k. [];
    strings = λ k. if k =t key then some id else none;
    streams = λ k. [];
    sorted = λ k. [];
  };
  faults = [];
  kicks = [];
  unknown_outcomes = [];
  opener_calls = [];
}

id_valid : reply_id (str id) ≡ some id
unfolding reply_id is_valid_reply_id before_line_end is_identifier
id_valid = refl

-- A line feed behind an id is accepted.
line_valid : is_valid_reply_id (str (id ++ (10 ∷ []))) ≡ true
unfolding is_valid_reply_id before_line_end is_identifier
line_valid = refl

key_is : incarnation_key (codes "p1") (codes "t1") (codes "bob") ≡ ok key
unfolding incarnation_key prefix prefix_parts validate_segment valid_text matches_segment
    matches_digits elem_text ◌=t◌ join validate_resource validate_all split
key_is = refl

claim_is : claim_key (codes "p1") (codes "t1") (codes "bob") id id ≡ ok claim
unfolding claim_key prefix prefix_parts validate_segment valid_text matches_segment matches_digits
    elem_text ◌=t◌ join validate_resource validate_all split
claim_is = refl

hired_is : memory.value hired.db key ≡ some id
unfolding ◌=t◌
hired_is = refl

-- The claim of the delivery has expired.
abbrev expired : memory.Db → memory.Db
expired d = memory.put_value d claim none

abbrev recorded_db : memory.Db
recorded_db =
    (record_delivered memory (codes "p1") (codes "t1") (codes "bob") (str id) (codes "ann")
      hired).1.db

expired_keeps : memory.value (expired recorded_db) key ≡ memory.value recorded_db key
unfolding ◌=t◌
expired_keeps = refl

claim_gone_then : memory.value (expired recorded_db) claim ≡ none
unfolding ◌=t◌
claim_gone_then = refl

was_delivered-record_delivered_example :
    (was_delivered memory
      (codes "p1")
      (codes "t1")
      (codes "bob")
      (λ d. d)
      (str id)
      (codes "ann")
      (record hired {
        db = expired (
            (record_delivered memory
              (codes "p1")
              (codes "t1")
              (codes "bob")
              (str id)
              (codes "ann")
              hired).1.db);
        faults = [];
      })).0
    ≡ ok (some (false && (codes "ann" =t codes "ann")))
was_delivered-record_delivered_example =
    was_delivered-record_delivered memory (codes "p1") (codes "t1") (codes "bob") (str id) id_valid
      key_is claim_is false (codes "ann") (codes "ann") expired (λ d. d) hired refl hired_is
      expired_keeps expired_keeps claim_gone_then

abbrev told : World memory.Db
told = record hired { db = memory.put_value hired.db claim (some (codes "ann")) }

asked :
    was_delivered memory
      (codes "p1")
      (codes "t1")
      (codes "bob")
      (λ d. d)
      (str id)
      (codes "ann")
      told
    ≡ (ok (some true), told)
unfolding was_delivered reply_id is_valid_reply_id before_line_end is_identifier incarnation_of
    verify_script incarnation_key claim_key command run_under prefix prefix_parts validate_segment
    valid_text matches_segment matches_digits elem_text ◌=t◌ join validate_resource validate_all
    split
asked = refl

was_delivered-IsClaimed_example :
    (id' : Text) × (reply_id (str id) ≡ some id')
    × IsClaimed memory (codes "p1") (codes "t1") (codes "bob") told.db id' (codes "ann")
was_delivered-IsClaimed_example =
    was_delivered-IsClaimed memory (codes "p1") (codes "t1") (codes "bob") (λ d. d) (str id)
      (codes "ann") told told asked
