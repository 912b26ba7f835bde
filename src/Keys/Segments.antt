-- ===== src/Keys/Segments.antt =====
-- What validation guarantees of a segment and of a dotted resource name.
use h_mesh.Base.{
  ℕ, ◌≤◌, ◌≡◌, refl, true, not, ◌||◌, some, List, [], ◌∷◌, arith, ◌==◌, all, all_mono, all-split,
  length, Text, is_ink, is_space, lacks, split,
}
use h_mesh.Errors.{ok, >>=_ok}
use h_mesh.Keys.{
  is_name_char, matches_segment, valid_text, validate_segment, validate_all, validate_resource,
}

name_char-ink : (c : ℕ) → is_name_char c ≡ true → is_ink c ≡ true
unfolding is_space
name_char-ink c h = ground arith

name_char-lacks_colon : (c : ℕ) → is_name_char c ≡ true → not (c == b':') ≡ true
name_char-lacks_colon c h = ground arith

resource_char-lacks_colon : (c : ℕ) → (is_name_char c || c == b'.') ≡ true → not (c == b':') ≡ true
resource_char-lacks_colon c h = ground arith

pub valid_text-name_chars : (v : Text) → valid_text v ≡ true → all is_name_char v ≡ true
unfolding valid_text matches_segment
valid_text-name_chars [] h = refl
valid_text-name_chars (c ∷ s) h = ground arith

pub valid_text-length : (v : Text) → valid_text v ≡ true → length v ≤ 63
unfolding valid_text matches_segment
valid_text-length [] h = omega arith
valid_text-length (c ∷ s) h = ground arith

pub valid_text-ink : (v : Text) → valid_text v ≡ true → all is_ink v ≡ true
valid_text-ink v h = all_mono is_name_char is_ink v name_char-ink (valid_text-name_chars v h)

pub valid_text-lacks_colon : (v : Text) → valid_text v ≡ true → lacks b':' v ≡ true
valid_text-lacks_colon v h =
    all_mono is_name_char _ v name_char-lacks_colon (valid_text-name_chars v h)

pub validate_segment-ok :
    {v w : Text} → validate_segment (some v) ≡ ok w → (valid_text v ≡ true) × (v ≡ w)
unfolding validate_segment
validate_segment-ok {v} {w} h = ground arith

validate_all-ok : (ss : List Text) → validate_all ss ≡ ok tt → all (all is_name_char) ss ≡ true
unfolding validate_all validate_segment
validate_all-ok [] h = refl
validate_all-ok (s ∷ ss) h = ground (arith, valid_text-name_chars s, validate_all-ok ss)

pub validate_resource-ok :
    {v w : Text} → validate_resource v ≡ ok w → (lacks b':' v ≡ true) × (v ≡ w)
unfolding validate_resource
validate_resource-ok {v = []} h = cc
validate_resource-ok {v = c ∷ v} h =
    let (u, checked, e) = >>=_ok (validate_all (split b'.' (c ∷ v))) _ h in
    (
      all_mono _ _ (c ∷ v) resource_char-lacks_colon
          (all-split is_name_char b'.' (c ∷ v) (validate_all-ok _ checked)),
      cc e,
    )
