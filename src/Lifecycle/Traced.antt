-- ===== src/Lifecycle/Traced.antt =====
-- The frames of a retired agent can still be traced: the record of each shows its id.
use h_mesh.Base.{
  or_right, ℕ, zero, suc, ◌+◌, ◌<◌, ◌≤◌, ◌/◌, ◌%◌, arith, ◌≡◌, refl, ap, subst, ◌∙◌, inl, inr, Bool,
  true, ◌||◌, Option, some, List, [], ◌∷◌, ◌++◌, Text, ◌=t◌, =t_eq, =t-self, Bool-cases, take,
  take_all, all, ltb, length, ◌==◌, &&_true, all_mono, ltb→lt, encode_utf8, is_ascii, is_hex,
}
use h_mesh.Envelope.Values.{Value, get, find}
use h_mesh.Envelope.Checks.{is_identifier}
use h_mesh.Envelope.Header.{Raw, text, bytes}
use h_mesh.Receipts.{Sources, json_kind, unhex_pairs, head_matches}
use h_mesh.Receipts.Trace.{
  hit, record_matches, custody_matches, is_hex_encoded, any_head, any_record,
}
use h_mesh.Lifecycle.Retire.{
  hex_digit, hex, bytes_of, retired_record, frame_records, RetireKeys, retired, retire_keys,
  remove_script, unopened, unknown_outcome,
}
use h_mesh.Lifecycle.Retired.{remove_script-IsRetired}
use h_mesh.Redis.{Redis}
use h_mesh.Errors.{ok}

abbrev is_byte : ℕ → Bool
is_byte b = ltb b 256

take-hex : (n : ℕ) (bs : List ℕ) → take (n + n) (hex bs) ≡ hex (take n bs)
unfolding hex
take-hex zero bs = refl
take-hex (suc n) [] = take_all (suc n + suc n) [] (omega arith)
take-hex (suc n) (b ∷ bs) =
    let twice : suc (suc (n + n)) ≡ suc n + suc n = omega arith in
    subst (λ m. take m (hex (b ∷ bs)) ≡ hex (b ∷ take n bs)) twice
      (ap (λ r. hex_digit (b / 16) ∷ hex_digit (b % 16) ∷ r) (take-hex n bs))

take_utf8 : (n : ℕ) (s : Text) → all is_ascii (take n s) ≡ true → take n (encode_utf8 s) ≡ take n s
unfolding encode_utf8
take_utf8 zero s h = refl
take_utf8 (suc n) [] h = refl
take_utf8 (suc n) (c ∷ s) h =
    let (first, rest) = &&_true (is_ascii c) (all is_ascii (take n s)) h in
    rw first (ap (λ r. c ∷ r) (take_utf8 n s rest))

module _ (code : ℕ → ℕ → Option ℕ)
    (reads : (b : ℕ) → b < 256 → code (hex_digit (b / 16)) (hex_digit (b % 16)) ≡ some b) where
  unhex_pairs-hex : (bs : List ℕ) → all is_byte bs ≡ true → unhex_pairs code (hex bs) ≡ bs
  unfolding unhex_pairs hex
  unhex_pairs-hex [] h = refl
  unhex_pairs-hex (b ∷ bs) h =
      let (first, rest) = &&_true (is_byte b) (all is_byte bs) h in
      rw (reads b (ltb→lt b 256 first)) (ap (λ r. b ∷ r) (unhex_pairs-hex bs rest))

ascii_bytes : (s : Text) → all is_ascii s ≡ true → all is_byte s ≡ true
ascii_bytes s h = all_mono is_ascii is_byte s (λ c small. ground arith) h

-- A frame of bytes starts with a byte.
abbrev pub starts_with_byte : Raw → Bool
starts_with_byte (text s) = true
starts_with_byte (bytes s) = all is_byte (take 1 s)

identifier_ascii : (id : Text) → is_identifier id ≡ true → all is_ascii id ≡ true
unfolding is_identifier
identifier_ascii id h =
    all_mono is_hex is_ascii id (λ c digit. ground arith)
      (&&_true (length id == 32) (all is_hex id) h).1

take_head :
    (raw : Raw) (id : Text)
    → is_identifier id ≡ true
    → head_matches id raw ≡ true
    → starts_with_byte raw ≡ true
    → (c : ℕ) × (take 33 (bytes_of raw) ≡ c ∷ id) × (all is_byte (c ∷ id) ≡ true)
unfolding head_matches
take_head (text []) id valid h byte = absurd (cc h)
take_head (text (c ∷ s)) id valid h byte =
    let (small, same) = &&_true (ltb c 128) (take 32 s =t id) h in
    let is = =t_eq (take 32 s) id same in
    let plain : all is_ascii (c ∷ take 32 s) ≡ true = rw (small, is) (identifier_ascii id valid) in
    (
      c,
      ◌∙◌ (take_utf8 33 (c ∷ s) plain) (ap (λ r. c ∷ r) is),
      ascii_bytes (c ∷ id) (rw small (identifier_ascii id valid)),
    )
take_head (bytes []) id valid h byte = absurd (cc h)
take_head (bytes (c ∷ s)) id valid h byte =
    let is = =t_eq (take 32 s) id h in
    (
      c,
      ap (λ r. c ∷ r) is,
      rw (&&_true (is_byte c) true byte).0 (ascii_bytes id (identifier_ascii id valid)),
    )

head_bytes : (c : ℕ) (id : Text) → is_identifier id ≡ true → head_matches id (bytes (c ∷ id)) ≡ true
unfolding head_matches is_identifier
head_bytes c id h =
    let long : length id ≤ 32 = ground (arith, (&&_true (length id == 32) (all is_hex id) h).0) in
    rw (take_all 32 id long, =t-self id) refl

module _ (code : ℕ → ℕ → Option ℕ)
    (reads : (b : ℕ) → b < 256 → code (hex_digit (b / 16)) (hex_digit (b % 16)) ≡ some b)
    (id : Text) (valid : is_identifier id ≡ true) where
  record_matches-retired_record :
      (agent reason : Text) (raw : Raw)
      → head_matches id raw ≡ true
      → starts_with_byte raw ≡ true
      → record_matches code id (some (retired_record agent reason raw)) ≡ true
  unfolding record_matches custody_matches is_hex_encoded retired_record ◌=t◌ get find
  record_matches-retired_record agent reason raw h byte =
      let (c, is, small) = take_head raw id valid h byte in
      rw (take-hex 33 (bytes_of raw), is, unhex_pairs-hex code reads (c ∷ id) small)
        (head_bytes c id valid)

  module _ (encode : Value → Text) (decode : Raw → Option Value) where
    any_record_append :
        (rs ts : List Raw)
        → any_record decode code id (rs ++ ts)
          ≡ (any_record decode code id rs || any_record decode code id ts)
    unfolding any_record
    any_record_append [] ts = refl
    any_record_append (r ∷ rs) ts = ground (arith, any_record_append rs ts)

    any_record-frame_records :
        (agent reason : Text) (raws : List Raw)
        → ((raw : Raw)
            → decode (text (encode (retired_record agent reason raw)))
              ≡ some (retired_record agent reason raw))
        → any_head id raws ≡ true
        → all starts_with_byte raws ≡ true
        → any_record decode code id (frame_records encode agent reason raws) ≡ true
    unfolding any_record any_head frame_records
    any_record-frame_records agent reason [] back h byte = absurd (cc h)
    any_record-frame_records agent reason (raw ∷ raws) back h byte =
        let (first, others) = &&_true (starts_with_byte raw) (all starts_with_byte raws) byte in
        elim (Bool-cases (head_matches id raw)) [
          | inl e ↦ rw (back raw, record_matches-retired_record agent reason raw e first) refl
          | inr e ↦
              or_right
                (record_matches code id (decode (text (encode (retired_record agent reason raw)))))
                _ (any_record-frame_records agent reason raws back (rw e at h) others)
        ]

frame_records_append :
    (encode : Value → Text) (agent reason : Text) (rs ts : List Raw)
    → frame_records encode agent reason (rs ++ ts)
      ≡ frame_records encode agent reason rs ++ frame_records encode agent reason ts
unfolding frame_records
frame_records_append encode agent reason [] ts = refl
frame_records_append encode agent reason (r ∷ rs) ts =
    ap (λ more. text (encode (retired_record agent reason r)) ∷ more)
      (frame_records_append encode agent reason rs ts)

-- What of an agent a retirement moves, and where to.
pub data Held : Type 0 where
  waiting being_opened : Held

module _ (R : Redis) (k : RetireKeys) where
  abbrev pub held_frames : Held → R.Db → List Raw
  held_frames waiting d = R.items d k.processing ++ R.items d k.ingress
  held_frames being_opened d = R.items d k.opening

  abbrev pub kept_key : Held → Text
  kept_key waiting = k.undeliverable
  kept_key being_opened = k.unresolved

module _ (R : Redis) (sources : Sources R.Db) (encode : Value → Text) (pod tenant agent : Text)
    (k : RetireKeys) (keys : retire_keys pod tenant agent ≡ ok k)
    (reads : (b : ℕ)
      → b < 256
      → sources.pair_code (hex_digit (b / 16)) (hex_digit (b % 16)) ≡ some b)
    (back : (reason : Text) (raw : Raw)
      → sources.decode (text (encode (retired_record agent reason raw)))
        ≡ some (retired_record agent reason raw)) where
  shows :
      (id reason : Text) (old raws : List Raw)
      → is_identifier id ≡ true
      → all starts_with_byte raws ≡ true
      → any_head id raws ≡ true
      → any_record sources.decode sources.pair_code id
          (old ++ frame_records encode agent reason raws)
        ≡ true
  shows id reason old raws valid byte there =
      ◌∙◌ (any_record_append sources.pair_code reads id valid encode sources.decode old _) (
        or_right (any_record sources.decode sources.pair_code id old) _ (
          any_record-frame_records sources.pair_code reads id valid encode sources.decode agent
            reason raws (back reason) there byte))

  -- Where cjson decodes what it encoded and tonumber reads pairs of hexadecimal digits: when the script of a
  -- retirement has returned its counts, the trace of receipts finds every frame id that the agent had
  -- in processing, ingress or opening under the tenant's key of that custody.
  pub hit-remove_script :
      (id : Text) (held : Held) (before after : R.Db) {a b c n : ℕ}
      → is_identifier id ≡ true
      → all starts_with_byte (held_frames R k held before) ≡ true
      → any_head id (held_frames R k held before) ≡ true
      → remove_script R encode agent k before ≡ (retired a b c n, after)
      → hit R sources id after json_kind (kept_key R k held) ≡ true
  unfolding hit
  hit-remove_script id waiting before after valid byte there ran =
      let left = (remove_script-IsRetired R encode pod tenant agent k before after keys ran).0 in
      rw
        (
          left,
          ← frame_records_append encode agent unopened (R.items before k.processing)
              (R.items before k.ingress),
        )
        (shows id unopened (R.items before k.undeliverable) (held_frames R k waiting before) valid
          byte there)
  hit-remove_script id being_opened before after valid byte there ran =
      let left = (remove_script-IsRetired R encode pod tenant agent k before after keys ran).1 in
      rw left (
        shows id unknown_outcome (R.items before k.unresolved) (held_frames R k being_opened before)
          valid byte there)
