-- ===== src/Envelope/Splices.antt =====
-- The two splices of core/envelope.py, stamp_source and advance_hop: which fields they change, and
-- that nothing else of the frame changes.
use h_mesh.Base.{
  ℕ, ◌-◌, ◌≤◌, ◌<◌, ◌≡◌, refl, sym, ◌∙◌, ap, true, ◌++◌, arith, length, take, drop, slice, Text,
  codes, rstrip, leb, leb→le, slice-splice_before, slice-splice_self, slice-splice_behind,
  length-splice, take-take, drop-take, drop-drop, ljust, length-ljust, rstrip-ljust, three_digits,
}
use native.Mathlib.Nat.{le_trans}
use h_mesh.Keys.{valid_text}
use h_mesh.Keys.Segments.{valid_text-ink, valid_text-length}
use h_mesh.Envelope.Header.{
  Header, header_width, name_width, source_start, destination_start, ttl_start, reserved_start,
  put_in,
}
use h_mesh.Envelope.Parsing.{parse_counter-digits, IsHeader}

-- Slices of the part before the source, of the part between source and counters, and of the body
-- survive a splice elsewhere.
module _ (n m : ℕ) (mid s : Text) (long : m ≤ length s) (e : length mid ≡ m - n) (o : n ≤ m) where
  before : (a b : ℕ) → a ≤ b → b ≤ n → slice a b (put_in n m mid s) ≡ slice a b s
  before a b h k = slice-splice_before n m s mid (omega arith) e o a b h k

  behind : (a b : ℕ) → m ≤ a → slice a b (put_in n m mid s) ≡ slice a b s
  behind a b h = slice-splice_behind n m s mid (omega arith) e o a b h

  longer : leb header_width (length s) ≡ true → leb header_width (length (put_in n m mid s)) ≡ true
  longer h = rw (length-splice n m s mid (omega arith) e o long) h

pub stamp-IsHeader :
    (s name : Text) (h : Header)
    → valid_text name ≡ true
    → IsHeader s h
    → IsHeader
        (put_in source_start destination_start (ljust name_width name) s)
        (record h { source = name })
stamp-IsHeader s name h valid d = record {
  long_fits = longer 65 128 padded s long width o d.long_fits;
  version = rw (head 0 1 (omega arith) (omega arith)) d.version;
  stream_id = head 1 33 (omega arith) (omega arith) ∙ d.stream_id;
  stream_id_valid = rw (head 1 33 (omega arith) (omega arith)) d.stream_id_valid;
  correlation_id = head 33 65 (omega arith) (omega arith) ∙ d.correlation_id;
  correlation_id_valid = rw (head 33 65 (omega arith) (omega arith)) d.correlation_id_valid;
  source = stamped;
  source_valid = rw stamped valid;
  destination = ap rstrip (tail 128 191 (omega arith)) ∙ d.destination;
  destination_valid = rw (tail 128 191 (omega arith)) d.destination_valid;
  ttl = rw (tail 191 194 (omega arith)) d.ttl;
  hops = rw (tail 194 197 (omega arith)) d.hops;
}
  where
    padded : Text
    padded = ljust name_width name

    long : 128 ≤ length s
    long = le_trans (omega arith) (leb→le header_width (length s) d.long_fits)

    width : length padded ≡ 128 - 65
    width = length-ljust name_width name (valid_text-length name valid)

    o : 65 ≤ 128
    o = omega arith

    head : (a b : ℕ) → a ≤ b → b ≤ 65 → slice a b (put_in 65 128 padded s) ≡ slice a b s
    head = before 65 128 padded s long width o

    tail : (a b : ℕ) → 128 ≤ a → slice a b (put_in 65 128 padded s) ≡ slice a b s
    tail = behind 65 128 padded s long width o

    stamped : rstrip (slice 65 128 (put_in 65 128 padded s)) ≡ name
    stamped =
        ap rstrip (slice-splice_self 65 128 s padded (omega (arith, long)) width o)
        ∙ rstrip-ljust name_width name (valid_text-ink name valid)

pub advance-IsHeader :
    (s : Text) (h : Header) (ttl hops : ℕ)
    → ttl < 1000
    → hops < 1000
    → IsHeader s h
    → IsHeader
        (put_in ttl_start reserved_start (three_digits ttl ++ three_digits hops) s)
        (record h { ttl = ttl; hops = hops })
advance-IsHeader s h ttl hops small few d = record {
  long_fits = longer 191 197 digits s long width o d.long_fits;
  version = rw (head 0 1 (omega arith) (omega arith)) d.version;
  stream_id = head 1 33 (omega arith) (omega arith) ∙ d.stream_id;
  stream_id_valid = rw (head 1 33 (omega arith) (omega arith)) d.stream_id_valid;
  correlation_id = head 33 65 (omega arith) (omega arith) ∙ d.correlation_id;
  correlation_id_valid = rw (head 33 65 (omega arith) (omega arith)) d.correlation_id_valid;
  source = ap rstrip (head 65 128 (omega arith) (omega arith)) ∙ d.source;
  source_valid = rw (head 65 128 (omega arith) (omega arith)) d.source_valid;
  destination = ap rstrip (head 128 191 (omega arith) (omega arith)) ∙ d.destination;
  destination_valid = rw (head 128 191 (omega arith) (omega arith)) d.destination_valid;
  ttl = rw (first) (parse_counter-digits ttl (codes "ttl") 16 small);
  hops = rw (second) (parse_counter-digits hops (codes "hops") 0 few);
}
  where
    digits : Text
    digits = three_digits ttl ++ three_digits hops

    long : 197 ≤ length s
    long = le_trans (omega arith) (leb→le header_width (length s) d.long_fits)

    width : length digits ≡ 197 - 191
    width = unfold three_digits in refl

    o : 191 ≤ 197
    o = omega arith

    head : (a b : ℕ) → a ≤ b → b ≤ 191 → slice a b (put_in 191 197 digits s) ≡ slice a b s
    head = before 191 197 digits s long width o

    both : slice 191 197 (put_in 191 197 digits s) ≡ digits
    both = slice-splice_self 191 197 s digits (omega (arith, long)) width o

    first : slice 191 194 (put_in 191 197 digits s) ≡ three_digits ttl
    first =
        sym (take-take 3 6 (drop 191 (put_in 191 197 digits s)) (omega arith))
        ∙ ap (take 3) both
        ∙ unfold three_digits in refl

    second : slice 194 197 (put_in 191 197 digits s) ≡ three_digits hops
    second =
        ap (take 3) (sym (drop-drop 3 191 (put_in 191 197 digits s)))
        ∙ sym (drop-take 3 6 (drop 191 (put_in 191 197 digits s)) (omega arith))
        ∙ ap (drop 3) both
        ∙ unfold three_digits in refl
