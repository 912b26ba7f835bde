-- ===== src/Envelope/Rewrites.antt =====
-- stamp_source and advance_hop on a whole frame, text or bytes: the switch's parse of the frame
-- before and after, and the body.
use h_mesh.Base.{
  ℕ, ◌+◌, ◌-◌, ◌≤◌, ◌<◌, ◌≡◌, refl, ◌∙◌, ap, Bool, true, false, List, ◌++◌, arith, length, take,
  drop, Text, codes, leb→le, if◌then◌else◌, inl, inr, eq→==, Bool-cases, ◌==◌, all, all-append,
  all_mono, all-replicate, replicate, space, length-take_le_length, take-splice, all-splice,
  take-splice_before, drop-splice_behind, length-splice, ljust, length-ljust, three_digits,
  parse_three-lt, is_ascii, decode_ascii,
}
use h_mesh.Errors.{not_ascii, ok, hops_exhausted}
use h_mesh.Keys.{valid_text, is_name_char}
use h_mesh.Keys.Segments.{valid_text-name_chars, valid_text-length}
use h_mesh.Envelope.Values.{int, pos}
use h_mesh.Envelope.Checks.{fail, parse_counter, counter}
use h_mesh.Envelope.Names.{text_segment-valid}
use h_mesh.Envelope.Header.{
  Raw, text, bytes, Header, header_text, parse_header, parse_for_switch, stamp_source, advance_hop,
  header_width, name_width, source_start, destination_start, ttl_start, reserved_start, put_in,
}
use h_mesh.Envelope.Parsing.{IsHeader, parse_header_complete, parse_header_sound}
use h_mesh.Envelope.Splices.{stamp-IsHeader, advance-IsHeader}

-- The characters or bytes of a frame.
abbrev pub units : Raw → List ℕ
units (text s) = s
units (bytes s) = s

-- A frame of the same kind over other characters or bytes.
abbrev pub with_units : Raw → List ℕ → Raw
with_units (text _) s = text s
with_units (bytes _) s = bytes s

abbrev pub body_of : Raw → List ℕ
body_of raw = drop header_width (units raw)

pub readable : Raw → Bool
readable (text s) = true
readable (bytes s) = all is_ascii (take header_width s)

parse_for_switch-if :
    (raw : Raw)
    → parse_for_switch raw
      ≡ (if readable raw then parse_header (take header_width (units raw)) else fail not_ascii)
unfolding parse_for_switch header_text readable
parse_for_switch-if (text s) = refl
parse_for_switch-if (bytes s) =
    unfold decode_ascii in
    elim (Bool-cases (all is_ascii (take header_width s))) [ inl e ↦ rw e | inr e ↦ rw e ]

pub parse_for_switch-header :
    (raw : Raw) (h : Header)
    → parse_for_switch raw ≡ ok h
    → (readable raw ≡ true) × IsHeader (take header_width (units raw)) h
parse_for_switch-header raw h e = elim (Bool-cases (readable raw)) [
  | inl fine ↦ (fine, parse_header_sound _ h (cc (fine, parse_for_switch-if raw)))
  | inr not_fine ↦ absurd (cc (not_fine, parse_for_switch-if raw))
]

units-with_units : (raw : Raw) (s : List ℕ) → units (with_units raw s) ≡ s
units-with_units (text t) s = refl
units-with_units (bytes t) s = refl

readable-with_units :
    (raw : Raw) (s : List ℕ)
    → (all is_ascii (take header_width (units raw)) ≡ true
        → all is_ascii (take header_width s) ≡ true)
    → readable raw ≡ true
    → readable (with_units raw s) ≡ true
unfolding readable
readable-with_units (text t) s keep h = refl
readable-with_units (bytes t) s keep h = keep h

-- A splice of ASCII inside the header that turns the header h into h' does so on the whole frame.
module _ (n m : ℕ) (mid : Text) (raw : Raw) (h h' : Header) (e : length mid ≡ m - n) (o : n ≤ m)
    (inside : m ≤ header_width) (ascii : all is_ascii mid ≡ true)
    (turned : IsHeader (take header_width (units raw)) h
      → IsHeader (put_in n m mid (take header_width (units raw))) h')
    (parsed : parse_for_switch raw ≡ ok h) where
  abbrev spliced : Raw
  spliced = with_units raw (put_in n m mid (units raw))

  long_units : header_width ≤ length (units raw)
  long_units =
      let fits = leb→le _ _ ((parse_for_switch-header raw h parsed).1).long_fits in
      omega (arith, fits, length-take_le_length header_width (units raw))

  head-spliced :
      take header_width (put_in n m mid (units raw))
      ≡ put_in n m mid (take header_width (units raw))
  head-spliced = take-splice n m header_width (units raw) mid long_units e o inside

  parse-spliced : parse_for_switch spliced ≡ ok h'
  parse-spliced =
      let (fine, header) = parse_for_switch-header raw h parsed in
      let readable' =
        readable-with_units raw (put_in n m mid (units raw))
          (λ a.
            rw head-spliced (all-splice is_ascii n m (take header_width (units raw)) mid a ascii))
          fine in
      parse_for_switch-if spliced
      ∙ rw (readable', units-with_units raw (put_in n m mid (units raw)), head-spliced)
          (parse_header_complete _ h' (turned header))

  front-spliced : take n (units spliced) ≡ take n (units raw)
  front-spliced =
      ap (take n) (units-with_units raw (put_in n m mid (units raw)))
      ∙ take-splice_before n m (units raw) mid (omega (arith, long_units)) e o

  behind-spliced : (a : ℕ) → m ≤ a → drop a (units spliced) ≡ drop a (units raw)
  behind-spliced a behind =
      ap (drop a) (units-with_units raw (put_in n m mid (units raw)))
      ∙ drop-splice_behind n m (units raw) mid (omega (arith, long_units)) e o a behind

  length-spliced : length (units spliced) ≡ length (units raw)
  length-spliced =
      ap length (units-with_units raw (put_in n m mid (units raw)))
      ∙ length-splice n m (units raw) mid (omega (arith, long_units)) e o
          (omega (arith, long_units))

  pub spliced_lem :
      (parse_for_switch spliced ≡ ok h')
      × (take n (units spliced) ≡ take n (units raw))
      × (drop m (units spliced) ≡ drop m (units raw))
      × (body_of spliced ≡ body_of raw)
      × (length (units spliced) ≡ length (units raw))
  spliced_lem = (
    parse-spliced,
    front-spliced,
    behind-spliced m (omega arith),
    behind-spliced header_width inside,
    length-spliced,
  )

name_char-ascii : (c : ℕ) → is_name_char c ≡ true → is_ascii c ≡ true
name_char-ascii c h = ground arith

padded-ascii : (name : Text) → valid_text name ≡ true → all is_ascii (ljust name_width name) ≡ true
unfolding ljust
padded-ascii name h = ground (
  arith,
  all-append is_ascii name (replicate (name_width - length name) space),
  all_mono is_name_char is_ascii name name_char-ascii (valid_text-name_chars name h),
  all-replicate is_ascii (name_width - length name) space refl,
)

stamp_source-with_units :
    (raw : Raw) (name : Text)
    → valid_text name ≡ true
    → stamp_source raw name
      ≡ ok (
          with_units raw
            (put_in source_start destination_start (ljust name_width name) (units raw)))
unfolding stamp_source
stamp_source-with_units (text s) name h = rw (text_segment-valid (codes "L2 source") name h)
stamp_source-with_units (bytes s) name h = rw (text_segment-valid (codes "L2 source") name h)

-- Stamping a valid source on a frame that parses gives a frame that parses to the same header with
-- that source, and has the same characters or bytes before offset 65 and from offset 128 on, the same
-- body and the same length.
pub stamp_source-parse :
    (raw : Raw) (name : Text) (h : Header)
    → parse_for_switch raw ≡ ok h
    → valid_text name ≡ true
    → (raw' : Raw) × (stamp_source raw name ≡ ok raw')
      × (parse_for_switch raw' ≡ ok (record h { source = name }))
      × (take 65 (units raw') ≡ take 65 (units raw))
      × (drop 128 (units raw') ≡ drop 128 (units raw))
      × (body_of raw' ≡ body_of raw)
      × (length (units raw') ≡ length (units raw))
stamp_source-parse raw name h parsed valid =
    let width = length-ljust name_width name (valid_text-length name valid) in
    let turned = stamp-IsHeader (take header_width (units raw)) name h valid in
    let (same, front, behind, body, long) =
      spliced_lem 65 128 (ljust name_width name) raw h (record h { source = name }) width
        (omega arith) (omega arith) (padded-ascii name valid) turned parsed in
    (_, stamp_source-with_units raw name valid, same, front, behind, body, long)

parse_counter-lt :
    (s name : Text) (default : ℕ) {n : ℕ}
    → default < 1000
    → parse_counter s name default ≡ ok n
    → n < 1000
unfolding parse_counter
parse_counter-lt s name default {n} d h = ground (arith, parse_three-lt s {n = n})

-- The counters of a parsed frame are at most 999.
pub parse_for_switch-counters :
    (raw : Raw) (h : Header) → parse_for_switch raw ≡ ok h → (h.ttl < 1000) × (h.hops < 1000)
parse_for_switch-counters raw h parsed =
    let d = (parse_for_switch-header raw h parsed).1 in
    (
      parse_counter-lt _ (codes "ttl") 16 (omega arith) d.ttl,
      parse_counter-lt _ (codes "hops") 0 (omega arith) d.hops,
    )

counter-small : (n : ℕ) (name : Text) → n < 1000 → counter (int (pos n)) name ≡ ok n
unfolding counter
counter-small n name h = ground arith

lt-ne_last : (n : ℕ) → n < 999 → (n == 999) ≡ false
lt-ne_last n h = ground arith

digits-ascii :
    (a b : ℕ) → a < 1000 → b < 1000 → all is_ascii (three_digits a ++ three_digits b) ≡ true
unfolding three_digits
digits-ascii a b h k = ground arith

width_of : (a b : ℕ) → length (three_digits a ++ three_digits b) ≡ 197 - 191
unfolding three_digits
width_of a b = refl

advance_hop-with_units :
    (raw : Raw) (h : Header)
    → h.ttl < 1000
    → h.hops < 999
    → advance_hop raw h
      ≡ ok (
        with_units raw (
            put_in ttl_start reserved_start
              (three_digits (h.ttl - 1) ++ three_digits (h.hops + 1))
              (units raw)),
        record h { ttl = h.ttl - 1; hops = h.hops + 1 },
      )
unfolding advance_hop
advance_hop-with_units (text s) h t n = rw (
  counter-small h.ttl (codes "ttl") t,
  counter-small h.hops (codes "hops") (omega arith),
  lt-ne_last h.hops n,
)
advance_hop-with_units (bytes s) h t n = rw (
  counter-small h.ttl (codes "ttl") t,
  counter-small h.hops (codes "hops") (omega arith),
  lt-ne_last h.hops n,
)

-- One hop of a frame that parses and has not made 999 hops: the counters in the frame and in the
-- envelope are one less (from 0, still 0) and one more, and every character or byte before offset 191
-- and from offset 197 on stays, the body and the length too.
pub advance_hop-parse :
    (raw : Raw) (h : Header)
    → parse_for_switch raw ≡ ok h
    → h.hops < 999
    → let h' = record h { ttl = h.ttl - 1; hops = h.hops + 1 } in
      (raw' : Raw) × (advance_hop raw h ≡ ok (raw', h'))
      × (parse_for_switch raw' ≡ ok h')
      × (take 191 (units raw') ≡ take 191 (units raw))
      × (drop 197 (units raw') ≡ drop 197 (units raw))
      × (body_of raw' ≡ body_of raw)
      × (length (units raw') ≡ length (units raw))
advance_hop-parse raw h parsed few =
    let (small, _) = parse_for_switch-counters raw h parsed in
    let h' : Header = record h { ttl = h.ttl - 1; hops = h.hops + 1 } in
    let digits : Text = three_digits (h.ttl - 1) ++ three_digits (h.hops + 1) in
    let turned =
      advance-IsHeader (take header_width (units raw)) h (h.ttl - 1) (h.hops + 1) (omega arith)
        (omega arith) in
    let (same, front, behind, body, long) =
      spliced_lem 191 197 digits raw h h' (width_of (h.ttl - 1) (h.hops + 1)) (omega arith)
        (omega arith) (digits-ascii (h.ttl - 1) (h.hops + 1) (omega arith) (omega arith)) turned
        parsed in
    (_, advance_hop-with_units raw h small few, same, front, behind, body, long)

-- A frame that has made 999 hops is refused.
pub advance_hop-exhausted :
    (raw : Raw) (h : Header)
    → parse_for_switch raw ≡ ok h
    → h.hops ≡ 999
    → advance_hop raw h ≡ fail hops_exhausted
unfolding advance_hop
advance_hop-exhausted raw h parsed last = rw (
  counter-small h.ttl (codes "ttl") (parse_for_switch-counters raw h parsed).0,
  counter-small h.hops (codes "hops") (parse_for_switch-counters raw h parsed).1,
  eq→== h.hops 999 last,
)
