-- ===== src/Envelope/Header.antt =====
-- The fixed header of core/envelope.py: its layout, the switch's parse of it, and the two splices.
use h_mesh.Base.{
  ℕ, ◌+◌, ◌-◌, Bool, Option, none, some, List, ◌++◌, ltb, leb, ◌==◌, if◌then◌else◌, length, take,
  drop, slice, Text, codes, ◌=t◌, ljust, rstrip, three_digits, decode_ascii, decode_utf8,
}
use h_mesh.Errors.{
  Result, ok, raise, envelope_error, not_ascii, not_utf8, short_header, bad_version, hops_exhausted,
  ◌>>=◌, ◌>>◌, require, or_raise,
}
use h_mesh.Envelope.Values.{str, int, pos}
use h_mesh.Envelope.Checks.{fail, text_segment, identifier, counter, parse_counter}

abbrev pub name_width : ℕ
name_width = 63

abbrev pub source_start : ℕ
source_start = 65

abbrev pub destination_start : ℕ
destination_start = 128

abbrev pub ttl_start : ℕ
ttl_start = 191

abbrev pub hops_start : ℕ
hops_start = 194

abbrev pub reserved_start : ℕ
reserved_start = 197

abbrev pub header_width : ℕ
header_width = 256

abbrev pub default_ttl : ℕ
default_ttl = 16

-- `raw: str | bytes`
pub data Raw : Type 0 where
  text : Text → Raw
  bytes : List ℕ → Raw

-- What parse_for_switch returns: "v" is always 4, and "l2" holds source and destination.
pub record Header : Type 0 where
  pub stream_id : Text
  pub correlation_id : Text
  pub source : Text
  pub destination : Text
  pub ttl : ℕ
  pub hops : ℕ

unfoldable pub wire_text : Raw → Result Text
wire_text (bytes s) = or_raise (decode_utf8 s) (envelope_error not_utf8)
wire_text (text s) = ok s

unfoldable pub header_text : Raw → Result Text
header_text (bytes s) = or_raise (decode_ascii (take header_width s)) (envelope_error not_ascii)
header_text (text s) = ok (take header_width s)

-- The fields of header_record_fields; `none` is the empty dict.
pub record RecordFields : Type 0 where
  pub stream_id : Text
  pub correlation_id : Text
  pub source : Text
  pub destination : Text

record_fields : Result Text → Option RecordFields
record_fields (raise e) = none
record_fields (ok s) =
    if ltb (length s) header_width
    then none
    else some (record {
      stream_id = slice 1 33 s;
      correlation_id = slice 33 65 s;
      source = rstrip (slice source_start destination_start s);
      destination = rstrip (slice destination_start ttl_start s);
    })

unfoldable pub header_record_fields : Raw → Option RecordFields
unfolding header_text record_fields
header_record_fields raw = record_fields (header_text raw)

-- if destination != "all": destination = _segment(destination, "L2 destination")
unfoldable pub l2_destination : Text → Result Text
l2_destination d = if d =t codes "all" then ok d else text_segment (codes "L2 destination") d

-- The checks of parse_for_switch, over the slices of the header.
unfoldable pub check_header : Bool → Text → Text → Text → Text → Text → Text → Text → Result Header
check_header long version sid cid src dst ttl_text hops_text = do
  require long (envelope_error short_header)
  require (version =t codes "4") (envelope_error bad_version)
  stream_id ← identifier (str sid) (codes "stream_id")
  correlation_id ← identifier (str cid) (codes "correlation_id")
  source ← text_segment (codes "L2 source") src
  destination ← l2_destination dst
  ttl ← parse_counter ttl_text (codes "ttl") default_ttl
  hops ← parse_counter hops_text (codes "hops") 0
  ok (record {
    stream_id = stream_id;
    correlation_id = correlation_id;
    source = source;
    destination = destination;
    ttl = ttl;
    hops = hops;
  })

unfoldable pub parse_header : Text → Result Header
parse_header s =
    check_header (leb header_width (length s)) (take 1 s) (slice 1 33 s) (slice 33 65 s)
      (rstrip (slice source_start destination_start s))
      (rstrip (slice destination_start ttl_start s)) (slice ttl_start hops_start s)
      (slice hops_start reserved_start s)

unfoldable pub parse_for_switch : Raw → Result Header
parse_for_switch raw = do s ← header_text raw; parse_header s

abbrev pub put_in : ℕ → ℕ → Text → List ℕ → List ℕ
put_in a b mid s = take a s ++ (mid ++ drop b s)

-- Replace the L2 source; the padded name is ASCII, so it is its own encoding.
unfoldable pub stamp_source : Raw → Text → Result Raw
stamp_source (bytes s) source = do
  name ← text_segment (codes "L2 source") source
  ok (bytes (put_in source_start destination_start (ljust name_width name) s))
stamp_source (text s) source = do
  name ← text_segment (codes "L2 source") source
  ok (text (put_in source_start destination_start (ljust name_width name) s))

splice_counters : Text → Raw → Raw
splice_counters counters (bytes s) = bytes (put_in ttl_start reserved_start counters s)
splice_counters counters (text s) = text (put_in ttl_start reserved_start counters s)

-- The frame with ttl one less (not below 0) and hops one more, and the envelope with them.
unfoldable pub advance_hop : Raw → Header → Result (Raw × Header)
unfolding splice_counters
advance_hop raw envelope = do
  ttl ← counter (int (pos envelope.ttl)) (codes "ttl")
  hops ← counter (int (pos envelope.hops)) (codes "hops")
  if hops == 999
      then fail hops_exhausted
      else ok (
        splice_counters (three_digits (ttl - 1) ++ three_digits (hops + 1)) raw,
        record envelope { ttl = ttl - 1; hops = hops + 1 },
      )
