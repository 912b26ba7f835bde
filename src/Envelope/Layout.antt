-- ===== src/Envelope/Layout.antt =====
-- Where the fields of a laid-out frame stand, and what the switch's parse reads there.
use h_mesh.Base.{
  ℕ, ◌+◌, ◌-◌, ◌≤◌, ◌<◌, ◌≡◌, refl, sym, ◌∙◌, ap, true, ◌++◌, arith, all, length, length-append,
  length-ljust, length-three_digits, take, drop, replicate, slice, Text, codes, space, ◌=t◌, ljust,
  rstrip, rstrip-ljust, three_digits, is_ink, slice_skip, slice_first, slice-take, ==→eq, &&_true,
  is_space, =t_eq, inl, inr, Bool-cases, le→leb, length-take, subst, drop-drop, drop-append_at,
}
use h_mesh.Errors.{ok}
use h_mesh.Keys.{valid_text}
use h_mesh.Keys.Segments.{valid_text-ink, valid_text-length}
use h_mesh.Envelope.Names.{is_target}
use h_mesh.Envelope.Parsing.{IsHeader, parse_counter-digits}
use h_mesh.Envelope.Checks.{is_identifier, parse_counter}
use h_mesh.Envelope.Header.{Header, name_width, header_width, reserved_start}
use h_mesh.Envelope.Frames.{layout}

module _ (sid cid src dst : Text) (ttl hops : ℕ) (body : Text) (sid_length : length sid ≡ 32)
    (cid_length : length cid ≡ 32) (src_length : length src ≡ name_width)
    (dst_length : length dst ≡ name_width) where
  abbrev pub frame : Text
  frame = layout sid cid src dst ttl hops body

  pub slice_stream_id : slice 1 33 frame ≡ sid
  slice_stream_id = slice_first 32 sid _ sid_length

  pub slice_correlation_id : slice 33 65 frame ≡ cid
  slice_correlation_id = slice_skip 32 0 32 sid _ sid_length ∙ slice_first 32 cid _ cid_length

  pub slice_source : slice 65 128 frame ≡ src
  slice_source =
      slice_skip 32 32 95 sid _ sid_length
      ∙ slice_skip 32 0 63 cid _ cid_length
      ∙ slice_first 63 src _ src_length

  pub slice_destination : slice 128 191 frame ≡ dst
  slice_destination =
      slice_skip 32 95 158 sid _ sid_length
      ∙ slice_skip 32 63 126 cid _ cid_length
      ∙ slice_skip 63 0 63 src _ src_length
      ∙ slice_first 63 dst _ dst_length

  abbrev pub counters_on : Text
  counters_on =
      three_digits ttl
      ++ (three_digits hops ++ (replicate (header_width - reserved_start) space ++ body))

  -- Beyond the names, what is dropped is dropped from the rest.
  drop_names : drop 191 frame ≡ counters_on
  drop_names =
      sym (drop-drop 158 32 (sid ++ (cid ++ (src ++ (dst ++ counters_on)))))
      ∙ ap (drop 158) (drop-append_at 32 sid _ sid_length)
      ∙ sym (drop-drop 126 32 (cid ++ (src ++ (dst ++ counters_on))))
      ∙ ap (drop 126) (drop-append_at 32 cid _ cid_length)
      ∙ sym (drop-drop 63 63 (src ++ (dst ++ counters_on)))
      ∙ ap (drop 63) (drop-append_at 63 src _ src_length)
      ∙ drop-append_at 63 dst _ dst_length

  pub slice_ttl : slice 191 194 frame ≡ three_digits ttl
  slice_ttl = ap (take 3) drop_names ∙ slice_first 3 (three_digits ttl) _ (length-three_digits ttl)

  pub slice_hops : slice 194 197 frame ≡ three_digits hops
  slice_hops =
      ap (take 3) (sym (drop-drop 3 191 frame) ∙ ap (drop 3) drop_names)
      ∙ slice_skip 3 0 3 (three_digits ttl) _ (length-three_digits ttl)
      ∙ slice_first 3 (three_digits hops) _ (length-three_digits hops)

  drop_counters : drop 65 counters_on ≡ body
  unfolding three_digits
  drop_counters = refl

  pub drop_header : drop header_width frame ≡ body
  drop_header = sym (drop-drop 65 191 frame) ∙ ap (drop 65) drop_names ∙ drop_counters

  pub length-frame : length frame ≡ header_width + length body
  unfolding three_digits
  length-frame = omega (
    arith,
    length-append sid (cid ++ (src ++ (dst ++ counters_on))),
    length-append cid (src ++ (dst ++ counters_on)),
    length-append src (dst ++ counters_on),
    length-append dst counters_on,
  )

is_identifier-length : (v : Text) → is_identifier v ≡ true → length v ≡ 32
unfolding is_identifier
is_identifier-length v h = ==→eq (length v) 32 (&&_true _ _ h).0

is_target-ink : (v : Text) → is_target v ≡ true → all is_ink v ≡ true
unfolding is_target is_space ◌=t◌
is_target-ink v h = elim (Bool-cases (v =t codes "all")) [
  | inl e ↦ rw (=t_eq v (codes "all") e)
  | inr e ↦ valid_text-ink v (rw e at h)
]

is_target-length : (v : Text) → is_target v ≡ true → length v ≤ name_width
unfolding is_target
is_target-length v h = elim (Bool-cases (v =t codes "all")) [
  | inl e ↦ rw (=t_eq v (codes "all") e) (omega arith)
  | inr e ↦ valid_text-length v (rw e at h)
]

module _ (h : Header) (body : Text) (sid_valid : is_identifier h.stream_id ≡ true)
    (cid_valid : is_identifier h.correlation_id ≡ true) (src_valid : valid_text h.source ≡ true)
    (dst_valid : is_target h.destination ≡ true) (ttl_fits : h.ttl < 1000)
    (hops_fit : h.hops < 1000) where
  abbrev pub src : Text
  src = ljust name_width h.source

  abbrev pub dst : Text
  dst = ljust name_width h.destination

  sid_fits : length h.stream_id ≡ 32
  sid_fits = is_identifier-length h.stream_id sid_valid

  cid_fits : length h.correlation_id ≡ 32
  cid_fits = is_identifier-length h.correlation_id cid_valid

  src_fits : length src ≡ name_width
  src_fits = length-ljust name_width h.source (valid_text-length h.source src_valid)

  dst_fits : length dst ≡ name_width
  dst_fits = length-ljust name_width h.destination (is_target-length h.destination dst_valid)

  abbrev pub whole : Text
  whole = layout h.stream_id h.correlation_id src dst h.ttl h.hops body

  long : 256 ≤ length whole
  long = omega (
    arith,
    length-frame h.stream_id h.correlation_id src dst h.ttl h.hops body sid_fits cid_fits src_fits
        dst_fits,
  )

  at_slice :
      (a b : ℕ) {v : Text}
      → a ≤ b
      → b ≤ 256
      → slice a b whole ≡ v
      → slice a b (take header_width whole) ≡ v
  at_slice a b o i e = slice-take a b 256 whole o i ∙ e

  sid_at : slice 1 33 (take header_width whole) ≡ h.stream_id
  sid_at = at_slice 1 33 (omega arith) (omega arith) (
      slice_stream_id h.stream_id h.correlation_id src dst h.ttl h.hops body sid_fits cid_fits
        src_fits dst_fits)

  cid_at : slice 33 65 (take header_width whole) ≡ h.correlation_id
  cid_at = at_slice 33 65 (omega arith) (omega arith) (
      slice_correlation_id h.stream_id h.correlation_id src dst h.ttl h.hops body sid_fits cid_fits
        src_fits dst_fits)

  src_at : rstrip (slice 65 128 (take header_width whole)) ≡ h.source
  src_at =
      ap rstrip (
        at_slice 65 128 (omega arith) (omega arith) (
          slice_source h.stream_id h.correlation_id src dst h.ttl h.hops body sid_fits cid_fits
            src_fits dst_fits))
      ∙ rstrip-ljust name_width h.source (valid_text-ink h.source src_valid)

  dst_at : rstrip (slice 128 191 (take header_width whole)) ≡ h.destination
  dst_at =
      ap rstrip (
        at_slice 128 191 (omega arith) (omega arith) (
          slice_destination h.stream_id h.correlation_id src dst h.ttl h.hops body sid_fits cid_fits
            src_fits dst_fits))
      ∙ rstrip-ljust name_width h.destination (is_target-ink h.destination dst_valid)

  ttl_at : slice 191 194 (take header_width whole) ≡ three_digits h.ttl
  ttl_at = at_slice 191 194 (omega arith) (omega arith) (
      slice_ttl h.stream_id h.correlation_id src dst h.ttl h.hops body sid_fits cid_fits src_fits
        dst_fits)

  hops_at : slice 194 197 (take header_width whole) ≡ three_digits h.hops
  hops_at = at_slice 194 197 (omega arith) (omega arith) (
      slice_hops h.stream_id h.correlation_id src dst h.ttl h.hops body sid_fits cid_fits src_fits
        dst_fits)

  counter_at :
      (t : Text) (n : ℕ) (name : Text) (default : ℕ)
      → t ≡ three_digits n
      → n < 1000
      → parse_counter t name default ≡ ok n
  counter_at t n name default e fits =
      ap (λ v. parse_counter v name default) e ∙ parse_counter-digits n name default fits

  -- The layout of a header with valid fields is a well-formed header.
  pub layout-IsHeader : IsHeader (take header_width whole) h
  unfolding ◌=t◌
  layout-IsHeader = record {
    long_fits = le→leb 256 _ (omega (arith, length-take 256 whole long));
    version = refl;
    stream_id = sid_at;
    stream_id_valid = subst (λ t. is_identifier t ≡ true) (sym sid_at) sid_valid;
    correlation_id = cid_at;
    correlation_id_valid = subst (λ t. is_identifier t ≡ true) (sym cid_at) cid_valid;
    source = src_at;
    source_valid = subst (λ t. valid_text t ≡ true) (sym src_at) src_valid;
    destination = dst_at;
    destination_valid = subst (λ t. is_target t ≡ true) (sym dst_at) dst_valid;
    ttl = counter_at _ h.ttl (codes "ttl") 16 ttl_at ttl_fits;
    hops = counter_at _ h.hops (codes "hops") 0 hops_at hops_fit;
  }

  -- And what stands behind it is the body.
  pub layout-body : drop header_width whole ≡ body
  layout-body =
      drop_header h.stream_id h.correlation_id src dst h.ttl h.hops body sid_fits cid_fits src_fits
        dst_fits
