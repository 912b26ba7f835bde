-- ===== src/Channels/Tests.antt =====
-- One run of `receive` on a list that holds a frame, a text that is none and a frame that an earlier
-- process had opened; and the theorems on it.
use h_mesh.Base.{
  ℕ, ◌+◌, ◌≤◌, ◌≡◌, ◌≢◌, ◌⊎◌, refl, subst, true, false, ◌<◌, Option, none, some, [], ◌∷◌, length,
  if◌then◌else◌, Text, codes, ◌=t◌, arith, elem_text, join, split, ljust, rstrip, is_space,
  parse_three, three_digits,
}
use h_mesh.Keys.{
  matches_segment, matches_digits, valid_text, validate_segment, prefix_parts, prefix, validate_all,
  validate_resource,
}
use h_mesh.Keys.Named.{
  receive_processing_key, receive_opening_key, receive_opened_key, receive_unresolved_key,
}
use h_mesh.Errors.{ok}
use h_mesh.Envelope.Values.{Value, Fields, str, dict, field, end, find, get, merge}
use h_mesh.Envelope.Checks.{
  identifier, is_identifier, text_segment, segment, counter, parse_counter, address,
}
use h_mesh.Envelope.Frames.{Json, parse, layout, validate_body, pair_fields}
use h_mesh.Envelope.Header.{
  Raw, text, name_width, wire_text, parse_for_switch, header_text, parse_header, check_header,
  l2_destination,
}
use h_mesh.Redis.Memory.{memory}
use h_mesh.Redis.World.{World, Action, returns, command, run_under}
use h_mesh.Channels.{Lua, Moment}
use h_mesh.Channels.Custody.{
  Custody, custody_keys, opened_receipt_max, claim_script, transfer, transfer_script, holds,
  remove_first, same_raw, trim,
}
use h_mesh.Channels.Receive.{
  Shows, receive, receive_with, surface_opening, drain, open_received, raw_text,
}
use h_mesh.Channels.Places.{ingress, opened}
use h_mesh.Channels.Moves.{size}
use h_mesh.Channels.Opening.{IsSame}
use h_mesh.Channels.Progress.{claims, waiting, held}
use h_mesh.Channels.Outcomes.{
  receive-once, receive-held, receive-claims, receive-drained, receive_total,
}

abbrev bob : Custody
bob = record {
  ingress = codes "pod:p1:tenant:t1:agent:bob:ingress";
  processing = codes "pod:p1:tenant:t1:agent:bob:processing";
  opening = codes "pod:p1:tenant:t1:agent:bob:opening";
  opened = codes "pod:p1:tenant:t1:agent:bob:opened";
  unresolved = codes "pod:p1:tenant:t1:unresolved";
  dead = codes "pod:p1:tenant:t1:agent:bob:dead";
}

bob_keys : custody_keys (codes "p1") (codes "t1") (codes "bob") ≡ ok bob
unfolding custody_keys receive_processing_key receive_opening_key receive_opened_key
    receive_unresolved_key prefix prefix_parts validate_segment valid_text matches_segment
    matches_digits elem_text ◌=t◌ join validate_resource validate_all split
bob_keys = refl

abbrev id : Text
id = codes "0123456789abcdef0123456789abcdef"

abbrev frame : Text → Raw
frame body =
    text (layout id id (ljust name_width (codes "ann")) (ljust name_width (codes "bob")) 9 1 body)

abbrev body : Value
body = dict (
    field (codes "kind") (str (codes "Message")) (
      field (codes "ts") (str (codes "now")) (
        field (codes "l3") (dict (pair_fields (codes "p1:t1:ann") (codes "p1:t1:bob")))
          (field (codes "payload") (dict end) end))))

-- A codec that reads every text as one body.
abbrev json : Json
json = record { dumps = λ v. codes "{}"; loads = λ s. some body }

abbrev lua : Lua
lua = record { decode = λ s. none; number = λ v. none; encode_count = λ n s. [] }

abbrev shows : Shows
shows = record { value = λ v. []; exception = λ e. [] }

abbrev openers : Text → Option (Fields → Action memory.Db (Unit {0}))
openers kind = some λ envelope. returns tt

abbrev moments : ℕ → Moment
moments n = record { fresh = record { correlation_id = id; stream_id = id; now = [] }; since = [] }

abbrev start : World memory.Db
start = record {
  db = record {
    lists = λ k.
        if k =t bob.ingress
        then frame (codes "{}") ∷ text (codes "4") ∷ []
        else if k =t bob.opening
        then frame (codes "{ }") ∷ []
        else [];
    hashes = λ k. [];
    strings = λ k. none;
    streams = λ k. [];
    sorted = λ k. [];
  };
  faults = [];
  kicks = [];
  unknown_outcomes = [];
  opener_calls = [];
}

abbrev left : World memory.Db
left =
    (receive memory json lua shows (codes "p1") (codes "t1") (codes "bob") openers moments 4
      start).1

left_run :
    (receive memory json lua shows
      (codes "p1")
      (codes "t1")
      (codes "bob")
      openers
      moments
      4
      start).0
    ≡ ok true
unfolding receive receive_with surface_opening drain open_received claim_script transfer
    transfer_script holds remove_first same_raw trim raw_text command run_under custody_keys
    receive_processing_key receive_opening_key receive_opened_key receive_unresolved_key prefix
    prefix_parts validate_segment valid_text matches_segment matches_digits elem_text ◌=t◌ join
    validate_resource validate_all split ljust merge parse wire_text validate_body get find address
    parse_for_switch header_text parse_header check_header three_digits identifier is_identifier
    text_segment segment l2_destination rstrip is_space parse_counter parse_three counter
left_run = refl

abbrev opener_of :
    Option (Fields → Action memory.Db (Unit {0})) → Fields → Action memory.Db (Unit {0})
opener_of none envelope = returns tt
opener_of (some opener) envelope = opener envelope

quiet :
    (kind : Text) (opener : Fields → Action memory.Db (Unit {0}))
    → openers kind ≡ some opener
    → (envelope : Fields) (w : World memory.Db) → IsSame memory bob w (opener envelope w).1
quiet kind opener is envelope w =
    subst (λ o. IsSame memory bob w (opener_of o envelope w).1) is (λ p. refl, refl)

start_claims : claims memory bob start.db ≤ 1
unfolding ◌=t◌
start_claims = omega arith

start_fuel : claims memory bob start.db + size memory bob start.db ingress < 4
unfolding ◌=t◌
start_fuel = omega arith

receive-once_example :
    length left.opener_calls + waiting memory bob left.db
    ≤ length start.opener_calls + waiting memory bob start.db
receive-once_example =
    receive-once memory json lua shows (codes "p1") (codes "t1") (codes "bob") openers bob_keys
      quiet moments 4 start

receive-held_example :
    ((held memory bob left.db ≡ held memory bob start.db)
      × (size memory bob start.db opened ≤ size memory bob left.db opened))
    ⊎ (opened_receipt_max ≤ size memory bob left.db opened)
receive-held_example =
    receive-held memory json lua shows (codes "p1") (codes "t1") (codes "bob") openers bob_keys
      quiet moments 4 start

receive-claims_example : claims memory bob left.db ≤ 1
receive-claims_example =
    receive-claims memory json lua shows (codes "p1") (codes "t1") (codes "bob") openers bob_keys
      quiet moments 4 start start_claims

receive-drained_example : (size memory bob left.db ingress ≡ 0) × (claims memory bob left.db ≡ 0)
receive-drained_example =
    receive-drained memory json lua shows (codes "p1") (codes "t1") (codes "bob") openers bob_keys
      quiet moments 4 start left_run start_claims

receive_total_example :
    (receive memory json lua shows
      (codes "p1")
      (codes "t1")
      (codes "bob")
      openers
      moments
      4
      start).0
    ≢ ok false
receive_total_example =
    receive_total memory json lua shows (codes "p1") (codes "t1") (codes "bob") openers bob_keys
      quiet moments 4 start start_fuel
