-- ===== src/Switch/Tests.antt =====
-- Redis as lists and hashes under functions, a tenant of two agents, and the theorems on them.
use h_mesh.Base.{
  ℕ, ◌≡◌, ◌≤◌, length, refl, ◌⊎◌, Bool, true, false, [], ◌∷◌, if◌then◌else◌, Text, codes, ◌=t◌,
  arith, elem_text, join, split,
}
use h_mesh.Envelope.Header.{name_width}
use h_mesh.Base.{none, ljust, rstrip, is_space, parse_three, three_digits}
use h_mesh.Envelope.Checks.{
  identifier, is_identifier, text_segment, segment, counter, parse_counter,
}
use h_mesh.Envelope.Frames.{Json, Fresh, layout}
use h_mesh.Envelope.Header.{
  parse_for_switch, header_text, parse_header, check_header, l2_destination, stamp_source,
  advance_hop,
}
use h_mesh.Registry.{lookup}
use h_mesh.Switch.Forward.{forward}
use h_mesh.Switch.Placement.{IsForwarded, forward-IsForwarded}
use h_mesh.Errors.{ok, try_again, connection}
use h_mesh.Keys.{
  matches_segment, matches_digits, valid_text, validate_segment, prefix_parts, prefix, agent_key,
  validate_all, validate_resource,
}
use h_mesh.Envelope.Header.{Raw, text, Header}
use h_mesh.Redis.Memory.{memory}
use h_mesh.Redis.World.{World, Action, fine, refused, interrupted, command, run_under}
use h_mesh.Queues.{
  Admission, admitted, rejected, ingress_keys, admission, first_full, push_each, admit_script,
  admit_ingress,
}
use h_mesh.Queues.Bounds.{occurrences, admit_ingress_rejected, admit_ingress_bound}
use h_mesh.Switch.Retry.{
  transient_redis_category, rejected_before_execution, retrying_from, retrying,
}
use h_mesh.Switch.Effects.{Outcome, Runs, retrying-command}
use h_mesh.Switch.Forward.{Settings, dead_letter, admit_frame, unicast}
use h_mesh.Switch.Conservation.{IsDead, IsPassed, unicast-placed}

abbrev small : Settings
small = record {
  pod = codes "p1";
  tenant = codes "t1";
  ingress_max = 2;
  frame_retry_attempts = 3;
  kicks = true;
}

abbrev frame : Raw
frame = text (codes "f")

-- bob's ingress list holds one frame.
abbrev start : World memory.Db
start = record {
  db = record {
    lists = λ k. if k =t codes "pod:p1:tenant:t1:agent:bob:ingress" then frame ∷ [] else [];
    hashes = λ k. (codes "ann", codes "api") ∷ (codes "bob", codes "tmux") ∷ [];
    strings = λ k. none;
    streams = λ k. [];
    sorted = λ k. [];
  };
  faults = refused try_again ∷ fine ∷ refused try_again ∷ fine ∷ [];
  kicks = [];
  unknown_outcomes = [];
  opener_calls = [];
}

abbrev bob_key : Text
bob_key = codes "pod:p1:tenant:t1:agent:bob:ingress"

abbrev envelope : Header
envelope = record {
  stream_id = codes "0123456789abcdef0123456789abcdef";
  correlation_id = codes "0123456789abcdef0123456789abcdef";
  source = codes "ann";
  destination = codes "bob";
  ttl = 9;
  hops = 1;
}

abbrev passed : World memory.Db
passed = (unicast memory small (codes "ann") frame envelope start).1

bob_key_lem : ingress_keys (codes "p1") (codes "t1") (codes "bob" ∷ []) ≡ ok (bob_key ∷ [])
unfolding ingress_keys prefix prefix_parts validate_segment valid_text matches_segment
    matches_digits elem_text ◌=t◌ join validate_resource validate_all split
bob_key_lem = refl

unicast_run : unicast memory small (codes "ann") frame envelope start ≡ (ok true, passed)
unfolding unicast admit_frame dead_letter retrying retrying_from command run_under
    transient_redis_category rejected_before_execution lookup admit_ingress admit_script first_full
    push_each admission ingress_keys prefix prefix_parts validate_segment valid_text matches_segment
    matches_digits elem_text ◌=t◌ join validate_resource validate_all split
unicast_run = refl

unicast-placed_example :
    (IsDead memory small (codes "ann") frame start.db passed.db)
    ⊎ (IsPassed memory small (codes "bob" ∷ []) frame start.db passed.db)
unicast-placed_example =
    unicast-placed memory small (codes "ann") frame envelope start refl unicast_run

-- A write that is rejected twice, and then interrupted after it has run.
abbrev bumpy : World memory.Db
bumpy = record start {
  faults = refused try_again ∷ refused try_again ∷ interrupted connection true ∷ [];
}

abbrev append_frame : memory.Db → Bool × memory.Db
append_frame d = (true, memory.rpush d bob_key frame)

retrying-command_example :
    Outcome (Runs append_frame) bumpy.db (retrying 3 false (command append_frame) bumpy)
unfolding rejected_before_execution
retrying-command_example = retrying-command append_frame 3 bumpy refl

-- The queue of bob is full where the bound is 1, and has room where it is 2.
abbrev calm : World memory.Db
calm = record start { faults = [] }

abbrev admit_bob : ℕ → Action memory.Db Admission
admit_bob = admit_ingress memory (codes "p1") (codes "t1") (codes "bob" ∷ []) frame

rejected_run : admit_bob 1 calm ≡ (ok (rejected (codes "bob") 1), calm)
unfolding command run_under admit_ingress admit_script first_full push_each admission ingress_keys
    prefix prefix_parts validate_segment valid_text matches_segment matches_digits elem_text ◌=t◌
    join validate_resource validate_all split
rejected_run = refl

admit_ingress_rejected_example :
    (calm.db ≡ calm.db)
    × ((k : Text) × ((agent_key (codes "p1") (codes "t1") (codes "bob") (codes "ingress") ≡ ok k)
          × (1 ≡ length (memory.items calm.db k))
          × (1 ≤ 1)))
admit_ingress_rejected_example =
    admit_ingress_rejected memory (codes "p1") (codes "t1") (codes "bob" ∷ []) frame 1 calm
      rejected_run

abbrev fuller : World memory.Db
fuller = (admit_bob 2 calm).1

admitted_run : admit_bob 2 calm ≡ (ok admitted, fuller)
unfolding command run_under admit_ingress admit_script first_full push_each admission ingress_keys
    prefix prefix_parts validate_segment valid_text matches_segment matches_digits elem_text ◌=t◌
    join validate_resource validate_all split
admitted_run = refl

admit_ingress_bound_example : length (memory.items fuller.db bob_key) ≤ 2
unfolding occurrences ◌=t◌
admit_ingress_bound_example =
    admit_ingress_bound memory (codes "p1") (codes "t1") (codes "bob" ∷ []) frame 2 calm
      admitted_run bob_key_lem bob_key (omega arith) (omega arith)

-- A frame from ann to bob, which carl sends, and a JSON codec that knows one text.
abbrev wire : Raw
wire = text (
    layout envelope.stream_id envelope.correlation_id (ljust name_width (codes "ann"))
      (ljust name_width (codes "bob")) 9 1 (codes "{}"))

abbrev no_json : Json
no_json = record { dumps = λ v. codes "{}"; loads = λ s. none }

abbrev no_fresh : Fresh
no_fresh = record { correlation_id = envelope.stream_id; stream_id = envelope.stream_id; now = [] }

abbrev forwarded : World memory.Db
forwarded = (forward memory small no_json no_fresh (codes "carl") wire start).1

forward_run : forward memory small no_json no_fresh (codes "carl") wire start ≡ (ok true, forwarded)
unfolding forward parse_for_switch header_text parse_header check_header three_digits identifier
    is_identifier text_segment segment l2_destination rstrip is_space parse_counter parse_three
    ljust stamp_source advance_hop counter unicast admit_frame dead_letter retrying retrying_from
    command run_under transient_redis_category rejected_before_execution lookup admit_ingress
    admit_script first_full push_each admission ingress_keys prefix prefix_parts validate_segment
    valid_text matches_segment matches_digits elem_text ◌=t◌ join validate_resource validate_all
    split
forward_run = refl

forward-IsForwarded_example : IsForwarded memory small (codes "carl") wire start.db forwarded.db
forward-IsForwarded_example =
    forward-IsForwarded memory small no_json no_fresh (codes "carl") wire start refl forward_run
