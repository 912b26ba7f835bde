-- ===== src/Lifecycle/Tests.antt =====
-- Bob is retired with a frame in processing, one in opening and an inbox entry; then he is stopped.
use h_mesh.Base.{
  ℕ, ◌+◌, ◌-◌, ◌*◌, ◌/◌, ◌%◌, ◌<◌, arith, ◌≡◌, refl, ap, true, Option, none, some, [], ◌∷◌, ◌++◌,
  length, take, drop, take-append_self, drop-append_self, all, ltb, if◌then◌else◌, Text, codes,
  ◌=t◌, elem_text, split, join,
}
use h_mesh.Errors.{ok}
use h_mesh.Keys.{
  matches_segment, matches_digits, valid_text, validate_segment, prefix_parts, prefix, validate_all,
  validate_resource,
}
use h_mesh.Keys.Named.{
  receive_processing_key, receive_opening_key, receive_undeliverable_key, receive_unresolved_key,
  retired_inbox_key,
}
use h_mesh.Envelope.Values.{Value, str, dict, field, end, get, find}
use h_mesh.Envelope.Checks.{is_identifier}
use h_mesh.Envelope.Header.{Raw, text}
use h_mesh.Redis.Memory.{memory, Tables}
use h_mesh.Receipts.{Sources, json_kind, head_matches}
use h_mesh.Receipts.Trace.{hit, any_head}
use h_mesh.Lifecycle.Agents.{stop_agent}
use h_mesh.Lifecycle.Stops.{stop_agent-IsRetired}
use h_mesh.Lifecycle.Requests.{target, target_only_keys}
use h_mesh.Redis.World.{World, Action}
use h_mesh.Base.{split, join, false}
use h_mesh.Keys.{
  matches_segment, matches_digits, valid_text, validate_segment, prefix_parts, prefix, validate_all,
  validate_resource,
}
use h_mesh.Lifecycle.Retire.{
  hex_digit, hex, bytes_of, retired_record, RetireKeys, retired, retire_keys, agent_keys,
  remove_script, has_types,
}
use h_mesh.Lifecycle.Retired.{IsRetired}
use h_mesh.Lifecycle.Traced.{starts_with_byte, being_opened, kept_key, hit-remove_script}

abbrev id : Text
id = codes "0123456789abcdef0123456789abcdef"

abbrev at : Text → Text
at resource = codes "pod:p1:tenant:t1:agent:bob:" ++ resource

abbrev keys : RetireKeys
keys = record {
  registry = codes "pod:p1:tenant:t1:registry";
  lead = codes "pod:p1:tenant:t1:lead";
  processing = at (codes "processing");
  opening = at (codes "opening");
  ingress = at (codes "ingress");
  inbox = at (codes "inbox");
  undeliverable = codes "pod:p1:tenant:t1:undeliverable";
  unresolved = codes "pod:p1:tenant:t1:unresolved";
  retired_inbox = codes "pod:p1:tenant:t1:retired-inbox";
  disposable =
      at (codes "paused")
      ∷ at (codes "delivering")
      ∷ at (codes "launch")
      ∷ at (codes "profile")
      ∷ at (codes "provider")
      ∷ at (codes "resume")
      ∷ at (codes "skip-permissions")
      ∷ at (codes "claude-tools")
      ∷ at (codes "tags")
      ∷ at (codes "hmac-keys")
      ∷ at (codes "window.cause")
      ∷ at (codes "incarnation")
      ∷ [];
}

keys_is : retire_keys (codes "p1") (codes "t1") (codes "bob") ≡ ok keys
unfolding retire_keys agent_keys receive_processing_key receive_opening_key
    receive_undeliverable_key receive_unresolved_key retired_inbox_key prefix prefix_parts
    validate_segment valid_text matches_segment matches_digits elem_text ◌=t◌ join validate_resource
    validate_all split
keys_is = refl

abbrev frame : Raw
frame = text (codes "0" ++ (id ++ codes "..."))

abbrev before : Tables
before = record {
  lists = λ k.
      if k =t keys.processing then frame ∷ [] else if k =t keys.opening then frame ∷ [] else [];
  hashes = λ k.
      if k =t keys.registry
      then (codes "bob", codes "api") ∷ (codes "ann", codes "tmux") ∷ []
      else [];
  strings = λ k. if k =t keys.lead then some (codes "bob") else none;
  streams =
      λ k. if k =t keys.inbox then (codes "1-0", (codes "body", codes "hi") ∷ []) ∷ [] else [];
  sorted = λ k. [];
}

-- A record is encoded by the length of its reason, its reason and its envelope.
abbrev text_of : Value → Text
text_of (str s) = s
text_of v = []

abbrev encode : Value → Text
encode (dict fields) =
    let reason = text_of (get (codes "reason") fields) in
    length reason ∷ (reason ++ text_of (get (codes "envelope") fields))
encode v = []

abbrev decode : Raw → Option Value
decode (text (n ∷ s)) = some (
    dict (
      field (codes "agent") (str (codes "bob")) (
        field (codes "reason") (str (take n s)) (
          field (codes "encoding") (str (codes "hex"))
            (field (codes "envelope") (str (drop n s)) end)))))
decode raw = none

-- tonumber of two lowercase hexadecimal digits
abbrev digit_of : ℕ → ℕ
digit_of c = if ltb c 58 then c - 48 else c - 87

abbrev sources : Sources Tables
sources = record {
  pair_code = λ a b. some (digit_of a * 16 + digit_of b);
  decode = decode;
  stream = λ d k. [];
}

digit_back : (n : ℕ) → n < 16 → digit_of (hex_digit n) ≡ n
digit_back n h = ground arith

reads : (b : ℕ) → b < 256 → sources.pair_code (hex_digit (b / 16)) (hex_digit (b % 16)) ≡ some b
reads b h =
    rw (digit_back (b / 16) (omega arith), digit_back (b % 16) (omega arith))
      (ap some (omega arith))

back :
    (reason : Text) (raw : Raw)
    → sources.decode (text (encode (retired_record (codes "bob") reason raw)))
      ≡ some (retired_record (codes "bob") reason raw)
unfolding retired_record get find ◌=t◌
back reason raw =
    rw (take-append_self reason (hex (bytes_of raw)), drop-append_self reason (hex (bytes_of raw)))
      refl

abbrev after : Tables
after = (remove_script memory encode (codes "bob") keys before).1

ran : remove_script memory encode (codes "bob") keys before ≡ (retired 1 0 1 1, after)
unfolding remove_script has_types ◌=t◌
ran = refl

valid : is_identifier id ≡ true
unfolding is_identifier
valid = refl

byte : all starts_with_byte (memory.items before keys.opening) ≡ true
unfolding ◌=t◌
byte = refl

there : any_head id (memory.items before keys.opening) ≡ true
unfolding any_head head_matches ◌=t◌
there = refl

hit-remove_script_example :
    hit memory sources id after json_kind (kept_key memory keys being_opened) ≡ true
hit-remove_script_example =
    hit-remove_script memory sources encode (codes "p1") (codes "t1") (codes "bob") keys keys_is
      reads back id being_opened before after valid byte there ran

abbrev asks_stop : Value
asks_stop =
    dict (field (codes "payload") (dict (field (codes "agent") (str (codes "bob")) end)) end)

abbrev full_world : World Tables
full_world = record {
  db = before;
  faults = [];
  kicks = [];
  unknown_outcomes = [];
  opener_calls = [];
}

abbrev kill_window : Text → Action Tables (Unit {0})
kill_window a w = (ok tt, w)

named :
    target target_only_keys asks_stop
    ≡ ok (codes "bob", field (codes "agent") (str (codes "bob")) end)
unfolding target get find prefix prefix_parts validate_segment valid_text matches_segment
    matches_digits elem_text ◌=t◌ join validate_resource validate_all split
named = refl

free : elem_text (codes "bob") (codes "api" ∷ codes "host" ∷ []) ≡ false
unfolding elem_text ◌=t◌
free = refl

typed : has_types memory encode (codes "bob") keys before ≡ true
unfolding has_types
typed = refl

stop_agent-IsRetired_example :
    ((stop_agent memory (codes "p1") (codes "t1") encode kill_window asks_stop full_world).0
      ≡ ok tt)
    × IsRetired memory encode
        (codes "p1")
        (codes "t1")
        (codes "bob")
        keys
        before
        (stop_agent memory (codes "p1") (codes "t1") encode kill_window asks_stop full_world).1.db
stop_agent-IsRetired_example =
    stop_agent-IsRetired memory (codes "p1") (codes "t1") encode kill_window asks_stop (codes "bob")
      (field (codes "agent") (str (codes "bob")) end) keys full_world (λ a u. refl) named free
      keys_is typed refl
