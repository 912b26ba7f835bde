-- ===== src/Envelope/Tests.antt =====
-- A concrete frame, and the theorems on it.
use h_mesh.Base.{
  ◌+◌, ◌≤◌, ◌<◌, ℕ, ◌≡◌, refl, true, none, some, ◌++◌, arith, length, take, drop, Text, codes, ◌=t◌,
  elem_text, split, join, ljust, rstrip, is_space, parse_three, three_digits,
}
use h_mesh.Errors.{ok, hops_exhausted}
use h_mesh.Keys.{
  matches_segment, matches_digits, valid_text, validate_segment, prefix_parts, prefix,
}
use h_mesh.Envelope.Values.{Value, Fields, str, dict, field, end, int, pos, find, get, merge}
use h_mesh.Envelope.Checks.{
  fail, segment, text_segment, address, identifier, is_identifier, counter, parse_counter,
  resolve_source, resolve_destination,
}
use h_mesh.Envelope.Header.{
  Raw, text, Header, check_header, parse_header, parse_for_switch, l2_destination, header_text,
  stamp_source, advance_hop, wire_text,
}
use h_mesh.Envelope.Frames.{
  or_default, header_fields, Json, Fresh, validate_body, is_version, pad_name, encode_destination,
  encode_body, encode_fields, encode, parse, frame_fields, build, layout,
}
use h_mesh.Envelope.Rewrites.{body_of, units, stamp_source-parse, advance_hop-parse}
use h_mesh.Envelope.Hops.{make_hops, make_hops_lem}
use h_mesh.Envelope.Roundtrip.{encode-parse_for_switch, parse-body_wins}

abbrev id : Text
id = codes "0123456789abcdef0123456789abcdef"

abbrev fresh : Fresh
fresh = record { correlation_id = id; stream_id = id; now = codes "2026-01-01T00:00:00.000Z" }

abbrev sample : Fields
sample =
    frame_fields fresh (codes "Message") id (codes "p1:t1:ann", codes "ann")
      (codes "p1:t1:bob", codes "bob") (field (codes "text") (str (codes "hi")) end) end

sample_built :
    build fresh
      (codes "Message")
      (codes "ann")
      (codes "bob")
      (field (codes "text") (str (codes "hi")) end)
      none
      (codes "p1")
      (codes "t1")
      none
    ≡ ok sample
unfolding build resolve_source resolve_destination text_segment segment prefix prefix_parts
    validate_segment valid_text matches_segment matches_digits elem_text ◌=t◌ join
sample_built = refl

abbrev sample_body : Fields
sample_body = field (codes "kind") (str (codes "Message")) (
    field (codes "ts") (str fresh.now) (
      field (codes "l3")
        (dict (
          field (codes "source") (str (codes "p1:t1:ann"))
            (field (codes "destination") (str (codes "p1:t1:bob")) end)))
        (field (codes "payload") (dict (field (codes "text") (str (codes "hi")) end)) end)))

-- A codec for the one body.
abbrev sample_json : Json
sample_json = record { dumps = λ v. codes "{}"; loads = λ s. some (dict sample_body) }

abbrev header_at : ℕ → ℕ → Header
header_at ttl hops = record {
  stream_id = id;
  correlation_id = id;
  source = codes "ann";
  destination = codes "bob";
  ttl = ttl;
  hops = hops;
}

abbrev wire : ℕ → ℕ → Text
wire ttl hops = layout id id (codes "ann" ++ pad) (codes "bob" ++ pad) ttl hops (codes "{}")
  where
    pad : Text
    pad = codes "                                                            "

sample_encoded : encode sample_json (dict sample) ≡ ok (wire 16 0)
unfolding encode encode_fields is_version get find ◌=t◌ identifier is_identifier segment prefix
    prefix_parts validate_segment valid_text matches_segment matches_digits elem_text join
    encode_destination counter validate_body address split text_segment encode_body pad_name ljust
sample_encoded = refl

sample_parsed :
    (ttl hops : ℕ)
    → parse_counter (three_digits ttl) (codes "ttl") 16 ≡ ok ttl
    → parse_counter (three_digits hops) (codes "hops") 0 ≡ ok hops
    → parse_for_switch (text (wire ttl hops)) ≡ ok (header_at ttl hops)
unfolding parse_for_switch header_text parse_header check_header three_digits ◌=t◌ identifier
    is_identifier text_segment segment prefix prefix_parts validate_segment valid_text
    matches_segment matches_digits elem_text join l2_destination rstrip is_space
sample_parsed ttl hops t h = rw (t, h)

parsed_16 : parse_for_switch (text (wire 16 0)) ≡ ok (header_at 16 0)
unfolding parse_counter parse_three ◌=t◌ three_digits
parsed_16 = sample_parsed 16 0 refl refl

parsed_999 : parse_for_switch (text (wire 3 999)) ≡ ok (header_at 3 999)
unfolding parse_counter parse_three ◌=t◌ three_digits
parsed_999 = sample_parsed 3 999 refl refl

bob_valid : valid_text (codes "carl") ≡ true
unfolding valid_text matches_segment matches_digits elem_text ◌=t◌
bob_valid = refl

encode-parse_for_switch_example :
    (h : Header) × (l2 : Fields) × (parse_for_switch (text (wire 16 0)) ≡ ok h)
    × (get (codes "stream_id") sample ≡ str h.stream_id)
    × (get (codes "correlation_id") sample ≡ str h.correlation_id)
    × (get (codes "l2") sample ≡ dict l2)
    × (get (codes "source") l2 ≡ str h.source)
    × (get (codes "destination") l2 ≡ str h.destination)
    × (or_default (int (pos 16)) (find (codes "ttl") sample) ≡ int (pos h.ttl))
    × (or_default (int (pos 0)) (find (codes "hops") sample) ≡ int (pos h.hops))
encode-parse_for_switch_example =
    encode-parse_for_switch sample_json sample (wire 16 0) sample_encoded

stamp_source-parse_example :
    (raw' : Raw) × (stamp_source (text (wire 16 0)) (codes "carl") ≡ ok raw')
    × (parse_for_switch raw' ≡ ok (record (header_at 16 0) { source = codes "carl" }))
    × (take 65 (units raw') ≡ take 65 (units (text (wire 16 0))))
    × (drop 128 (units raw') ≡ drop 128 (units (text (wire 16 0))))
    × (body_of raw' ≡ body_of (text (wire 16 0)))
    × (length (units raw') ≡ length (units (text (wire 16 0))))
stamp_source-parse_example =
    stamp_source-parse (text (wire 16 0)) (codes "carl") (header_at 16 0) parsed_16 bob_valid

advance_hop-parse_example :
    (raw' : Raw) × (advance_hop (text (wire 16 0)) (header_at 16 0) ≡ ok (raw', header_at 15 1))
    × (parse_for_switch raw' ≡ ok (header_at 15 1))
    × (take 191 (units raw') ≡ take 191 (units (text (wire 16 0))))
    × (drop 197 (units raw') ≡ drop 197 (units (text (wire 16 0))))
    × (body_of raw' ≡ body_of (text (wire 16 0)))
    × (length (units raw') ≡ length (units (text (wire 16 0))))
advance_hop-parse_example =
    advance_hop-parse (text (wire 16 0)) (header_at 16 0) parsed_16 (omega arith)

make_hops_lem_example :
    (999 + 2 ≤ 999
      → (raw' : Raw) × (make_hops 2 (text (wire 3 999)) (header_at 3 999)
          ≡ ok (raw', header_at 1 1001))
        × (parse_for_switch raw' ≡ ok (header_at 1 1001)))
    × (999 < 999 + 2 → make_hops 2 (text (wire 3 999)) (header_at 3 999) ≡ fail hops_exhausted)
make_hops_lem_example = make_hops_lem 2 (text (wire 3 999)) (header_at 3 999) parsed_999

-- A body that carries an l2 object of its own.
abbrev forged_l2 : Value
forged_l2 = dict (field (codes "source") (str (codes "root")) end)

abbrev forged : Fields
forged = field (codes "l2") forged_l2 sample_body

abbrev forged_json : Json
forged_json = record { dumps = λ v. codes "{}"; loads = λ s. some (dict forged) }

forged_parsed :
    parse forged_json (text (wire 16 0)) ≡ ok (merge (header_fields (header_at 16 0)) forged)
unfolding parse wire_text validate_body get find ◌=t◌ address split text_segment segment prefix
    prefix_parts validate_segment valid_text matches_segment matches_digits elem_text join
forged_parsed = rw parsed_16

parse-body_wins_example :
    find (codes "l2") (merge (header_fields (header_at 16 0)) forged) ≡ some forged_l2
unfolding find ◌=t◌ wire_text
parse-body_wins_example =
    parse-body_wins forged_json (text (wire 16 0)) (wire 16 0) forged _ forged_l2 refl refl refl
      forged_parsed
