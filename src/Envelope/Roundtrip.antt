-- ===== src/Envelope/Roundtrip.antt =====
-- What encode sends and parse gives back.
use h_mesh.Base.{
  ℕ, ◌<◌, ◌≡◌, refl, sym, subst, Bool, true, false, Option, none, some, arith, take, drop, Text,
  codes, ◌=t◌, inl, inr, Bool-cases, ljust,
}
use h_mesh.Errors.{
  Reason, Exc, ok, envelope_error, bad_version, bad_l2, body_not_object, >>=_elim, require,
  or_raise,
}
use h_mesh.Keys.{valid_text}
use h_mesh.Envelope.Values.{
  Value, Fields, null, int, str, dict, pos, negsuc, find, get, merge, find-merge-some,
}
use h_mesh.Envelope.Checks.{segment, identifier, is_identifier, counter}
use h_mesh.Envelope.Names.{is_target, segment-if}
use h_mesh.Envelope.Header.{
  Raw, text, Header, parse_for_switch, header_text, header_width, name_width, default_ttl,
  wire_text,
}
use h_mesh.Envelope.Layout.{layout-IsHeader}
use h_mesh.Envelope.Parsing.{IsHeader, parse_header_complete}
use h_mesh.Envelope.Frames.{
  Json, validate_body, is_version, pad_name, encode_destination, encode_body, layout, or_default,
  header_fields, encode_fields, encode, parse, as_dict,
}

identifier-ok :
    (v : Value) (name : Text) {w : Text}
    → identifier v name ≡ ok w
    → (v ≡ str w) × (is_identifier w ≡ true)
unfolding identifier
identifier-ok null name h = cc
identifier-ok (str v) name h = ground arith
identifier-ok v name h = cc

counter-ok :
    (v : Value) (name : Text) {n : ℕ} → counter v name ≡ ok n → (v ≡ int (pos n)) × (n < 1000)
unfolding counter
counter-ok null name h = cc
counter-ok (int (pos k)) name h = ground arith
counter-ok (int (negsuc k)) name h = cc
counter-ok v name h = cc

as_dict-ok : (v : Value) (e : Reason) {fs : Fields} → as_dict v e ≡ ok fs → v ≡ dict fs
as_dict-ok null e h = cc
as_dict-ok (dict fs) e h = cc
as_dict-ok v e h = cc

segment-text :
    (name v : Text) {w : Value} → segment name (str v) ≡ ok w → (w ≡ str v) × (valid_text v ≡ true)
segment-text name v h = ground (arith, segment-if name v)

padded : (v : Text) {w : Value} {s : Text} → w ≡ str v → pad_name w ≡ ok s → s ≡ ljust name_width v
unfolding pad_name
padded v e h = cc (sym (rw e at h))

-- A checked name that can be padded is a valid text.
segment-pad :
    (name : Text) (v w : Value) (s : Text)
    → segment name v ≡ ok w
    → pad_name w ≡ ok s
    → (t : Text) × (v ≡ str t) × (s ≡ ljust name_width t) × (valid_text t ≡ true)
unfolding segment pad_name
segment-pad name null w s h p = absurd (cc (h, p))
segment-pad name (str v) w s h p =
    let (same, valid) = segment-text name v h in (v, refl, padded v same p, valid)
segment-pad name v w s h p = absurd (cc h)

destination-pad :
    (v w : Value) (s : Text)
    → encode_destination v ≡ ok w
    → pad_name w ≡ ok s
    → (t : Text) × (v ≡ str t) × (s ≡ ljust name_width t) × (is_target t ≡ true)
unfolding encode_destination is_target segment pad_name
destination-pad null w s h p = absurd (cc (h, p))
destination-pad (str v) w s h p = elim (Bool-cases (v =t codes "all")) [
  | inl all ↦ (v, refl, padded v (ground arith) p, rw all)
  | inr one ↦
      let (same, valid) = segment-text (codes "L2 destination") v (ground arith) in
      (v, refl, padded v same p, rw one valid)
]
destination-pad v w s h p = absurd (cc h)

-- What encode checked of a frame, and the text that it made of it.
record Sent (json : Json) (frame : Fields) (s : Text) (h : Header) (body : Fields) : Type 0 where
  laid_out :
      s
      ≡ layout h.stream_id h.correlation_id
          (ljust name_width h.source)
          (ljust name_width h.destination)
          h.ttl
          h.hops
          (json.dumps (dict body))
  version : is_version (get (codes "v") frame) ≡ true
  stream_id : get (codes "stream_id") frame ≡ str h.stream_id
  stream_id_valid : is_identifier h.stream_id ≡ true
  correlation_id : get (codes "correlation_id") frame ≡ str h.correlation_id
  correlation_id_valid : is_identifier h.correlation_id ≡ true
  l2 : Fields
  has_l2 : get (codes "l2") frame ≡ dict l2
  source : get (codes "source") l2 ≡ str h.source
  source_valid : valid_text h.source ≡ true
  destination : get (codes "destination") l2 ≡ str h.destination
  destination_valid : is_target h.destination ≡ true
  ttl : or_default (int (pos default_ttl)) (find (codes "ttl") frame) ≡ int (pos h.ttl)
  ttl_fits : h.ttl < 1000
  hops : or_default (int (pos 0)) (find (codes "hops") frame) ≡ int (pos h.hops)
  hops_fit : h.hops < 1000
  validated : validate_body frame ≡ ok tt
  sends : encode_body (find (codes "in_reply_to") frame) frame ≡ ok body

require-true : (b : Bool) (e : Exc) {u : Unit {0}} → require b e ≡ ok u → b ≡ true
require-true true e h = refl
require-true false e h = cc

encode-Sent :
    (json : Json) (frame : Fields) {s : Text}
    → encode_fields json frame ≡ ok s
    → (h : Header) × (body : Fields) × Sent json frame s h body
unfolding encode_fields
encode-Sent json frame {s} e =
    >>=_elim (require (is_version (get (codes "v") frame)) (envelope_error bad_version)) e λ _ v e.
      >>=_elim (identifier (get (codes "stream_id") frame) (codes "stream_id")) e λ sid at_sid e.
        >>=_elim (identifier (get (codes "correlation_id") frame) (codes "correlation_id")) e
          λ cid at_cid e. >>=_elim (as_dict (get (codes "l2") frame) bad_l2) e λ l2 at_l2 e.
            >>=_elim (segment (codes "L2 source") (get (codes "source") l2)) e λ src at_src e.
              >>=_elim (encode_destination (get (codes "destination") l2)) e λ dst at_dst e.
                >>=_elim
                  (counter (or_default (int (pos default_ttl)) (find (codes "ttl") frame))
                    (codes "ttl"))
                  e
                  λ ttl at_ttl e.
                    >>=_elim
                      (counter (or_default (int (pos 0)) (find (codes "hops") frame))
                        (codes "hops"))
                      e
                      λ hops at_hops e. >>=_elim (validate_body frame) e λ _ validated e.
                        >>=_elim (encode_body (find (codes "in_reply_to") frame) frame) e
                          λ body at_body e. >>=_elim (pad_name src) e λ src' pad_src e.
                            >>=_elim (pad_name dst) e λ dst' pad_dst e.
                              let (sid_is, sid_fine) = identifier-ok _ (codes "stream_id") at_sid in
                              let (cid_is, cid_fine) =
                                identifier-ok _ (codes "correlation_id") at_cid in
                              let (ttl_is, ttl_fits) = counter-ok _ (codes "ttl") at_ttl in
                              let (hops_is, hops_fit) = counter-ok _ (codes "hops") at_hops in
                              let (source, source_is, source_pad, source_fine) =
                                segment-pad _ _ src src' at_src pad_src in
                              let (target, target_is, target_pad, target_fine) =
                                destination-pad _ dst dst' at_dst pad_dst in
                              (
                                record {
                                  stream_id = sid;
                                  correlation_id = cid;
                                  source = source;
                                  destination = target;
                                  ttl = ttl;
                                  hops = hops;
                                },
                                body,
                                record {
                                  laid_out = cc (e, source_pad, target_pad);
                                  version = require-true _ _ v;
                                  stream_id = sid_is;
                                  stream_id_valid = sid_fine;
                                  correlation_id = cid_is;
                                  correlation_id_valid = cid_fine;
                                  l2 = l2;
                                  has_l2 = as_dict-ok _ bad_l2 at_l2;
                                  source = source_is;
                                  source_valid = source_fine;
                                  destination = target_is;
                                  destination_valid = target_fine;
                                  ttl = ttl_is;
                                  ttl_fits = ttl_fits;
                                  hops = hops_is;
                                  hops_fit = hops_fit;
                                  validated = validated;
                                  sends = at_body;
                                },
                              )

-- The header that encode writes is well formed.
Sent-IsHeader :
    {json : Json} {frame : Fields} {s : Text} {h : Header} {body : Fields}
    → Sent json frame s h body
    → IsHeader (take header_width s) h
Sent-IsHeader {json} {s = s} {h} {body} d =
    subst (λ t. IsHeader (take header_width t) h) (sym d.laid_out)
      (layout-IsHeader h (json.dumps (dict body)) d.stream_id_valid d.correlation_id_valid
        d.source_valid d.destination_valid d.ttl_fits d.hops_fit)

-- What encode sends is what the switch reads: whenever encode returns, the switch parses the text,
-- and the stream id, correlation id, source, destination and counters it reads are the frame's
-- (a frame with no ttl or hops has 16 and 0).
pub encode-parse_for_switch :
    (json : Json) (frame : Fields) (s : Text)
    → encode json (dict frame) ≡ ok s
    → (h : Header) × (l2 : Fields) × (parse_for_switch (text s) ≡ ok h)
      × (get (codes "stream_id") frame ≡ str h.stream_id)
      × (get (codes "correlation_id") frame ≡ str h.correlation_id)
      × (get (codes "l2") frame ≡ dict l2)
      × (get (codes "source") l2 ≡ str h.source)
      × (get (codes "destination") l2 ≡ str h.destination)
      × (or_default (int (pos default_ttl)) (find (codes "ttl") frame) ≡ int (pos h.ttl))
      × (or_default (int (pos 0)) (find (codes "hops") frame) ≡ int (pos h.hops))
unfolding encode parse_for_switch header_text
encode-parse_for_switch json frame s e =
    let (h, body, d) = encode-Sent json frame e in
    (
      h,
      d.l2,
      parse_header_complete _ h (Sent-IsHeader d),
      d.stream_id,
      d.correlation_id,
      d.has_l2,
      d.source,
      d.destination,
      d.ttl,
      d.hops,
    )

or_raise-ok : {A : Type 0} (o : Option A) (e : Exc) {a : A} → or_raise o e ≡ ok a → o ≡ some a
or_raise-ok none e h = cc
or_raise-ok (some b) e h = cc

dict_of : (a b : Fields) → dict a ≡ dict b → a ≡ b
dict_of a b e = cc

-- Whatever stands in the header, the fields of the body win: where parse returns and the body has an
-- l2 object, the envelope's l2 is the body's, and not the one that the switch read and stamped.
pub parse-body_wins :
    (json : Json) (raw : Raw) (s : Text) (body envelope : Fields) (l2 : Value)
    → wire_text raw ≡ ok s
    → json.loads (drop header_width s) ≡ some (dict body)
    → find (codes "l2") body ≡ some l2
    → parse json raw ≡ ok envelope
    → find (codes "l2") envelope ≡ some l2
unfolding parse
parse-body_wins json raw s body envelope l2 wire reads has e =
    >>=_elim (wire_text raw) e λ s' wire' e. >>=_elim (parse_for_switch (text s')) e λ h _ e.
      >>=_elim (or_raise (json.loads (drop header_width s')) _) e λ v loaded e.
        >>=_elim (as_dict v body_not_object) e λ b is_b e. >>=_elim (validate_body b) e λ _ _ e.
          let same : s' ≡ s = cc (wire, wire') in
          let v_is : json.loads (drop header_width s) ≡ some v =
            subst (λ t. json.loads (drop header_width t) ≡ some v) same (or_raise-ok _ _ loaded) in
          let b_is : find (codes "l2") b ≡ some l2 =
            rw (dict_of b body (cc (v_is, reads, as_dict-ok v _ is_b))) has in
          let merged : merge (header_fields h) b ≡ envelope = cc e in
          rw (← merged) (find-merge-some (codes "l2") (header_fields h) b l2 b_is)
