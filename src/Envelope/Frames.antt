-- ===== src/Envelope/Frames.antt =====
-- Whole frames of core/envelope.py: build, encode and parse. json.dumps with compact separators and
-- json.loads are a parameter.
use h_mesh.Base.{
  ℕ, ◌-◌, Bool, true, false, not, Option, none, some, [], ◌∷◌, ◌++◌, if◌then◌else◌, ◌==◌, drop,
  replicate, Text, codes, space, ◌=t◌, ljust, three_digits,
}
use h_mesh.Errors.{
  Reason, Result, ok, raise, attribute_error, envelope_error, bad_version, bad_l2, bad_l3, bad_kind,
  bad_ts, bad_payload, bad_json, body_not_object, ◌>>=◌, ◌>>◌, require, or_raise,
}
use h_mesh.Envelope.Values.{Value, Fields, int, real, str, dict, field, end, pos, find, get, merge}
use h_mesh.Envelope.Checks.{
  fail, segment, address, resolve_source, resolve_destination, identifier, counter,
}
use h_mesh.Envelope.Header.{
  Raw, text, Header, name_width, header_width, reserved_start, default_ttl, wire_text,
  parse_for_switch,
}

-- `loads` is `none` where json.loads raises JSONDecodeError.
pub record Json : Type 0 where
  pub dumps : Value → Text
  pub loads : Text → Option Value

-- not isinstance(value, str) or not value
is_empty_text : Value → Bool
is_empty_text (str []) = true
is_empty_text (str (c ∷ s)) = false
is_empty_text _ = true

is_dict : Value → Bool
is_dict (dict fs) = true
is_dict _ = false

abbrev pub as_dict : Value → Reason → Result Fields
as_dict (dict fs) e = ok fs
as_dict _ e = fail e

unfoldable pub validate_body : Fields → Result (Unit {0})
unfolding is_empty_text is_dict
validate_body frame = do
  require (not (is_empty_text (get (codes "kind") frame))) (envelope_error bad_kind)
  require (not (is_empty_text (get (codes "ts") frame))) (envelope_error bad_ts)
  l3 ← as_dict (get (codes "l3") frame) bad_l3
  address (get (codes "source") l3) (codes "L3 source") false
  address (get (codes "destination") l3) (codes "L3 destination") true
  require (is_dict (get (codes "payload") frame)) (envelope_error bad_payload)

-- frame.get("v") == 4, which the float 4.0 also meets
unfoldable pub is_version : Value → Bool
is_version (int (pos n)) = n == 4
is_version (real s) = s =t codes "4.0"
is_version _ = false

-- value.ljust(NAME_WIDTH)
unfoldable pub pad_name : Value → Result Text
pad_name (str s) = ok (ljust name_width s)
pad_name _ = raise attribute_error

-- if destination != "all": destination = _segment(destination, "L2 destination")
unfoldable pub encode_destination : Value → Result Value
encode_destination (str d) =
    if d =t codes "all" then ok (str d) else segment (codes "L2 destination") (str d)
encode_destination d = segment (codes "L2 destination") d

-- The fields of a frame that its body carries, before `rest`.
abbrev pub body_fields : Fields → Fields → Fields
body_fields frame rest = field (codes "kind") (get (codes "kind") frame) (
    field (codes "ts") (get (codes "ts") frame) (
      field (codes "l3") (get (codes "l3") frame)
        (field (codes "payload") (get (codes "payload") frame) rest)))

unfoldable pub encode_body : Option Value → Fields → Result Fields
encode_body none frame = ok (body_fields frame end)
encode_body (some v) frame = do
  id ← identifier v (codes "in_reply_to")
  ok (body_fields frame (field (codes "in_reply_to") (str id) end))

-- The fixed header and the body, in the order of the wire.
abbrev pub layout : Text → Text → Text → Text → ℕ → ℕ → Text → Text
layout stream_id correlation_id source destination ttl hops body =
    codes "4"
    ++ (stream_id
        ++ (correlation_id
            ++ (source
                ++ (destination
                    ++ (three_digits ttl
                        ++ (three_digits hops
                            ++ (replicate (header_width - reserved_start) space ++ body)))))))

-- frame.get(name, default)
abbrev pub or_default : Value → Option Value → Value
or_default d none = d
or_default d (some v) = v

abbrev pub pair_fields : Text → Text → Fields
pair_fields source destination =
    field (codes "source") (str source) (field (codes "destination") (str destination) end)

-- The dict of a parsed header.
abbrev pub header_fields : Header → Fields
header_fields h = field (codes "v") (int (pos 4)) (
    field (codes "stream_id") (str h.stream_id) (
      field (codes "correlation_id") (str h.correlation_id) (
        field (codes "l2") (dict (pair_fields h.source h.destination))
          (field (codes "ttl") (int (pos h.ttl)) (field (codes "hops") (int (pos h.hops)) end)))))

module _ (json : Json) where
  unfoldable pub encode_fields : Fields → Result Text
  encode_fields frame = do
    require (is_version (get (codes "v") frame)) (envelope_error bad_version)
    stream_id ← identifier (get (codes "stream_id") frame) (codes "stream_id")
    correlation_id ← identifier (get (codes "correlation_id") frame) (codes "correlation_id")
    l2 ← as_dict (get (codes "l2") frame) bad_l2
    source ← segment (codes "L2 source") (get (codes "source") l2)
    destination ← encode_destination (get (codes "destination") l2)
    ttl ← counter (or_default (int (pos default_ttl)) (find (codes "ttl") frame)) (codes "ttl")
    hops ← counter (or_default (int (pos 0)) (find (codes "hops") frame)) (codes "hops")
    validate_body frame
    body ← encode_body (find (codes "in_reply_to") frame) frame
    source' ← pad_name source
    destination' ← pad_name destination
    ok (layout stream_id correlation_id source' destination' ttl hops (json.dumps (dict body)))

  unfoldable pub encode : Value → Result Text
  encode (dict frame) = encode_fields frame
  encode _ = fail bad_version

  -- {**header, **body}, over the dict that parse_for_switch returns.
  unfoldable pub parse : Raw → Result Fields
  parse raw = do
    s ← wire_text raw
    header ← parse_for_switch (text s)
    value ← or_raise (json.loads (drop header_width s)) (envelope_error bad_json)
    body ← as_dict value body_not_object
    validate_body body
    ok (merge (header_fields header) body)

-- What uuid4().hex answers at each of its two calls, and the time stamp.
pub record Fresh : Type 0 where
  pub correlation_id : Text
  pub stream_id : Text
  pub now : Text

-- correlation_id = uuid4().hex if correlation_id is None else _identifier(correlation_id, …)
choose_correlation : Fresh → Option Text → Result Text
choose_correlation fresh none = ok fresh.correlation_id
choose_correlation fresh (some id) = identifier (str id) (codes "correlation_id")

reply_fields : Option Text → Result Fields
reply_fields none = ok end
reply_fields (some id) = do
  id' ← identifier (str id) (codes "in_reply_to")
  ok (field (codes "in_reply_to") (str id') end)

-- The dict that build returns; `reply` is its in_reply_to field, if it has one.
abbrev pub frame_fields : Fresh → Text → Text → Text × Text → Text × Text → Fields → Fields → Fields
frame_fields fresh kind correlation_id source destination payload reply =
    field (codes "v") (int (pos 4)) (
      field (codes "kind") (str kind) (
        field (codes "stream_id") (str fresh.stream_id) (
          field (codes "correlation_id") (str correlation_id) (
            field (codes "ts") (str fresh.now) (
              field (codes "l2") (dict (pair_fields source.1 destination.1)) (
                field (codes "ttl") (int (pos default_ttl)) (
                  field (codes "hops") (int (pos 0)) (
                    field (codes "l3") (dict (pair_fields source.0 destination.0))
                      (field (codes "payload") (dict payload) reply)))))))))

unfoldable pub build :
    Fresh → Text → Text → Text → Fields → Option Text → Text → Text → Option Text → Result Fields
unfolding choose_correlation reply_fields
build fresh kind source destination payload correlation_id pod tenant in_reply_to = do
  require (not (kind =t [])) (envelope_error bad_kind)
  from ← resolve_source pod tenant source
  to ← resolve_destination pod tenant destination
  correlation ← choose_correlation fresh correlation_id
  reply ← reply_fields in_reply_to
  ok (frame_fields fresh kind correlation from to payload reply)
