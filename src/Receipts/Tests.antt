-- ===== src/Receipts/Tests.antt =====
-- A frame that waits for bob, who is registered.
use h_mesh.Base.{
  rstrip, is_space, parse_three, three_digits, all, ◌≡◌, ◌≢◌, ◌↔◌, refl, true, none, some, List, [],
  ◌∷◌, ◌++◌, if◌then◌else◌, Text, codes, ◌=t◌, elem_text, split, join, ljust,
}
use h_mesh.Errors.{ok}
use h_mesh.Keys.{
  matches_segment, matches_digits, valid_text, validate_segment, prefix_parts, prefix, tenant_key,
  agent_key, validate_all, validate_resource,
}
use h_mesh.Keys.Named.{
  receive_processing_key, receive_opening_key, receive_opened_key, receive_unresolved_key,
  receive_undeliverable_key,
}
use h_mesh.Envelope.Header.{
  Raw, Header, text, name_width, parse_for_switch, header_text, parse_header, check_header,
  l2_destination,
}
use h_mesh.Envelope.Checks.{is_identifier, identifier, parse_counter, text_segment, segment}
use h_mesh.Envelope.Frames.{layout}
use h_mesh.Redis.Memory.{memory}
use h_mesh.Redis.World.{World, command, run_under}
use h_mesh.Registry.{names_of}
use h_mesh.Receipts.{
  Sources, Entry, Location, opened, ingress, unknown, queued, delivered, stage_state, same_state,
  overall_state, states, add_state, scan_plan, agent_plan, sorted_set, insert_name, head_matches,
}
use h_mesh.Receipts.Trace.{
  locate, trace, trace_script, found_from, hit, pick, location_at, any_head, any_record, any_entry,
  Receipt,
}
use h_mesh.Receipts.Words.{counts_as, overall_state_iff}
use h_mesh.Receipts.Located.{held_in, locate_lem}
use h_mesh.Receipts.Seen.{in_ingress_key}
use h_mesh.Receipts.Known.{trace-known}

abbrev none_else : Sources memory.Db
none_else = record { pair_code = λ a b. none; decode = λ r. none; stream = λ d k. [] }

abbrev id : Text
id = codes "0123456789abcdef0123456789abcdef"

abbrev registry_key : Text
registry_key = codes "pod:p1:tenant:t1:registry"

abbrev waits : World memory.Db
waits = record {
  db = record {
    lists = λ k.
        if k =t codes "pod:p1:tenant:t1:agent:bob:ingress"
        then text (
            layout id id (ljust name_width (codes "ann")) (ljust name_width (codes "bob")) 9 1
              (codes "{}"))
          ∷ []
        else [];
    hashes = λ k. (codes "bob", codes "tmux") ∷ [];
    strings = λ k. none;
    streams = λ k. [];
    sorted = λ k. [];
  };
  faults = [];
  kicks = [];
  unknown_outcomes = [];
  opener_calls = [];
}

abbrev in_ingress : Location
in_ingress = record { agent = some (codes "bob"); stage = ingress }

abbrev opened_by : Text → Location
opened_by agent = record { agent = some agent; stage = opened }

agreed : overall_state (opened_by (codes "ann") ∷ opened_by (codes "bob") ∷ []) ≡ delivered
unfolding overall_state states add_state stage_state same_state
agreed = refl

overall_state_iff_example :
    (overall_state (opened_by (codes "ann") ∷ in_ingress ∷ []) ≡ delivered)
    ↔ (all (λ k. counts_as delivered k.stage) (opened_by (codes "ann") ∷ in_ingress ∷ []) ≡ true)
overall_state_iff_example =
    overall_state_iff delivered (opened_by (codes "ann")) (in_ingress ∷ []) (λ h. cc h)

abbrev seen : World memory.Db
seen = (locate memory none_else (codes "p1") (codes "t1") id [] waits).1

located :
    locate memory none_else (codes "p1") (codes "t1") id [] waits ≡ (ok (in_ingress ∷ []), seen)
unfolding locate trace_script found_from hit pick location_at any_head any_record any_entry
    head_matches is_identifier command run_under scan_plan agent_plan sorted_set insert_name
    receive_processing_key receive_opening_key receive_opened_key receive_unresolved_key
    receive_undeliverable_key prefix prefix_parts validate_segment valid_text matches_segment
    matches_digits elem_text ◌=t◌ join validate_resource validate_all split ljust
located = refl

locate_lem_example :
    (key : Text) × (plan : List Entry) × (tenant_key (codes "p1") (codes "t1") (codes "registry")
      ≡ ok key)
    × (scan_plan
          (codes "p1")
          (codes "t1")
          (sorted_set (names_of (memory.entries waits.db key) ++ []))
        ≡ ok plan)
    × (in_ingress ∷ [] ≡ held_in memory none_else id waits.db plan)
locate_lem_example =
    locate_lem memory none_else (codes "p1") (codes "t1") id [] waits seen (in_ingress ∷ []) located

abbrev receipt : Receipt
receipt = record {
  stream_id = id;
  state = queued;
  locations = in_ingress ∷ [];
  confirmation = none;
}

abbrev traced_world : World memory.Db
traced_world = (trace memory none_else (codes "p1") (codes "t1") id [] waits).1

traced : trace memory none_else (codes "p1") (codes "t1") id [] waits ≡ (ok receipt, traced_world)
unfolding trace overall_state states add_state stage_state same_state locate trace_script found_from
    hit pick location_at any_head any_record any_entry head_matches is_identifier command run_under
    scan_plan agent_plan sorted_set insert_name receive_processing_key receive_opening_key
    receive_opened_key receive_unresolved_key receive_undeliverable_key prefix prefix_parts
    validate_segment valid_text matches_segment matches_digits elem_text ◌=t◌ join validate_resource
    validate_all split ljust
traced = refl

registry_is : tenant_key (codes "p1") (codes "t1") (codes "registry") ≡ ok registry_key
unfolding prefix prefix_parts validate_segment valid_text matches_segment matches_digits elem_text
    ◌=t◌ join validate_resource validate_all split
registry_is = refl

abbrev waiting : Raw
waiting = text (
    layout id id (ljust name_width (codes "ann")) (ljust name_width (codes "bob")) 9 1 (codes "{}"))

abbrev waiting_header : Header
waiting_header = record {
  stream_id = id;
  correlation_id = id;
  source = codes "ann";
  destination = codes "bob";
  ttl = 9;
  hops = 1;
}

waiting_parsed : parse_for_switch waiting ≡ ok waiting_header
unfolding parse_for_switch header_text parse_header check_header three_digits ◌=t◌ identifier
    is_identifier text_segment segment prefix prefix_parts validate_segment valid_text
    matches_segment matches_digits elem_text join l2_destination rstrip is_space parse_counter
    parse_three ljust
waiting_parsed = refl

abbrev bob_ingress : Text
bob_ingress = codes "pod:p1:tenant:t1:agent:bob:ingress"

bob_ingress_is :
    agent_key (codes "p1") (codes "t1") (codes "bob") (codes "ingress") ≡ ok bob_ingress
unfolding prefix prefix_parts validate_segment valid_text matches_segment matches_digits elem_text
    ◌=t◌ join validate_resource validate_all split
bob_ingress_is = refl

bob_holds : memory.items waits.db bob_ingress ≡ [] ++ waiting ∷ []
unfolding ◌=t◌ ljust
bob_holds = refl

bob_registered :
    elem_text (codes "bob") (names_of (memory.entries waits.db registry_key) ++ []) ≡ true
unfolding elem_text ◌=t◌
bob_registered = refl

trace-known_example : receipt.state ≢ unknown
trace-known_example =
    trace-known memory none_else (codes "p1") (codes "t1") registry_key (codes "bob")
      (codes "ingress") bob_ingress [] [] [] waiting waiting_header waits traced_world receipt
      registry_is bob_registered in_ingress_key bob_ingress_is bob_holds waiting_parsed traced
