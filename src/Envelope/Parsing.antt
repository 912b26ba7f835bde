-- ===== src/Envelope/Parsing.antt =====
-- h-app/core/envelope.py: what the switch's parse of a header has checked, and that this is enough for it.
use h_mesh.Base.{
  three_digits, parse_three-three_digits, ℕ, ◌<◌, ◌≡◌, refl, Bool, true, false, arith, length, take,
  slice, Text, codes, ◌=t◌, rstrip, leb, if◌then◌else◌,
}
use h_mesh.Errors.{ok, bad_identifier}
use h_mesh.Keys.{valid_text}
use h_mesh.Envelope.Values.{str}
use h_mesh.Envelope.Checks.{fail, identifier, is_identifier, parse_counter}
use h_mesh.Envelope.Names.{is_target, text_segment-if, l2_destination-if}
use h_mesh.Envelope.Header.{Header, check_header, parse_header, header_width, default_ttl}

pub identifier-if :
    (v name : Text)
    → identifier (str v) name ≡ (if is_identifier v then ok v else fail (bad_identifier name))
unfolding identifier
identifier-if v name = refl

three_digits-ne_blank : (n : ℕ) → (three_digits n =t codes "   ") ≡ false
unfolding three_digits ◌=t◌
three_digits-ne_blank n = ground arith

pub parse_counter-digits :
    (n : ℕ) (name : Text) (default : ℕ)
    → n < 1000
    → parse_counter (three_digits n) name default ≡ ok n
unfolding parse_counter
parse_counter-digits n name default h = rw (three_digits-ne_blank n, parse_three-three_digits n h)

module _ (long : Bool) (v sid cid src dst t n : Text) (h : Header) where
  -- The slices of a header are those of h, and each is valid.
  pub record AreChecked : Type 0 where
    pub long_fits : long ≡ true
    pub version : (v =t codes "4") ≡ true
    pub stream_id : sid ≡ h.stream_id
    pub stream_id_valid : is_identifier sid ≡ true
    pub correlation_id : cid ≡ h.correlation_id
    pub correlation_id_valid : is_identifier cid ≡ true
    pub source : src ≡ h.source
    pub source_valid : valid_text src ≡ true
    pub destination : dst ≡ h.destination
    pub destination_valid : is_target dst ≡ true
    pub ttl : parse_counter t (codes "ttl") default_ttl ≡ ok h.ttl
    pub hops : parse_counter n (codes "hops") 0 ≡ ok h.hops

  check_header_complete : AreChecked → check_header long v sid cid src dst t n ≡ ok h
  unfolding check_header
  check_header_complete d = ground (
    arith,
    identifier-if sid (codes "stream_id"),
    identifier-if cid (codes "correlation_id"),
    text_segment-if (codes "L2 source") src,
    l2_destination-if dst,
  )

  check_header_sound : check_header long v sid cid src dst t n ≡ ok h → AreChecked
  unfolding check_header
  check_header_sound e = ground (
    arith,
    identifier-if sid (codes "stream_id"),
    identifier-if cid (codes "correlation_id"),
    text_segment-if (codes "L2 source") src,
    l2_destination-if dst,
  )

-- The text s begins with the header h: each field stands at its offsets and is valid.
abbrev pub IsHeader : Text → Header → Type 0
IsHeader s h =
    AreChecked (leb header_width (length s)) (take 1 s) (slice 1 33 s) (slice 33 65 s)
      (rstrip (slice 65 128 s)) (rstrip (slice 128 191 s)) (slice 191 194 s) (slice 194 197 s) h

pub parse_header_complete : (s : Text) (h : Header) → IsHeader s h → parse_header s ≡ ok h
unfolding parse_header
parse_header_complete s h d = check_header_complete _ _ _ _ _ _ _ _ h d

pub parse_header_sound : (s : Text) (h : Header) → parse_header s ≡ ok h → IsHeader s h
unfolding parse_header
parse_header_sound s h e = check_header_sound _ _ _ _ _ _ _ _ h e
