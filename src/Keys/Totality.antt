-- ===== src/Keys/Totality.antt =====
-- When the key functions return: every validated name has its keys, and every stream id has the
-- key of its sent record.
use h_mesh.Base.{
  inl, inr, Bool-cases, ℕ, ◌≤◌, ◌≡◌, refl, true, not, none, some, [], ◌∷◌, ◌++◌, arith, ◌==◌,
  if◌then◌else◌, all, all_mono, length, Text, codes, ◌=t◌, elem_text, split, join, split_one,
  is_hex,
}
use h_mesh.Errors.{ok, raise, key_error}
use h_mesh.Keys.{
  is_name_char, matches_segment, matches_digits, valid_text, validate_segment, validate_all,
  validate_resource, prefix_parts, prefix, office_sent_key, agent_key, tenant_key,
}
use h_mesh.Keys.Structure.{key_parts}

hex-name_char : (c : ℕ) → is_hex c ≡ true → is_name_char c ≡ true
hex-name_char c h = ground arith

hex-lacks_dot : (c : ℕ) → is_hex c ≡ true → not (c == b'.') ≡ true
hex-lacks_dot c h = ground arith

hex_id-valid : (id : Text) → all is_hex id ≡ true → length id ≤ 61 → valid_text (b's' ∷ id) ≡ true
unfolding valid_text matches_segment matches_digits elem_text ◌=t◌
hex_id-valid id h l = ground (arith, all_mono is_hex is_name_char id hex-name_char h)

validate-valid : (v : Text) → valid_text v ≡ true → validate_segment (some v) ≡ ok v
unfolding validate_segment
validate-valid v h = rw h

-- Each validated pod, tenant and agent has its key for each resource that validates.
pub agent_key-total :
    (p t a v : Text)
    → valid_text p ≡ true
    → valid_text t ≡ true
    → valid_text a ≡ true
    → validate_resource v ≡ ok v
    → agent_key p t a v ≡ ok (join b':' (key_parts p t (some a) (some v)))
unfolding prefix prefix_parts
agent_key-total p t a v hp ht ha hv =
    rw (validate-valid p hp, validate-valid t ht, validate-valid a ha, hv)

pub tenant_key-total :
    (p t v : Text)
    → valid_text p ≡ true
    → valid_text t ≡ true
    → validate_resource v ≡ ok v
    → tenant_key p t v ≡ ok (join b':' (key_parts p t none (some v)))
unfolding prefix prefix_parts
tenant_key-total p t v hp ht hv = rw (validate-valid p hp, validate-valid t ht, hv)

sent_resource-valid :
    (id : Text)
    → all is_hex id ≡ true
    → length id ≤ 61
    → validate_resource (codes "xsent.s" ++ id) ≡ ok (codes "xsent.s" ++ id)
unfolding validate_resource validate_all split
sent_resource-valid id h l = rw (
  split_one b'.' id (all_mono is_hex _ id hex-lacks_dot h),
  validate-valid (codes "xsent")
      (unfold valid_text matches_segment matches_digits elem_text ◌=t◌ in refl),
  validate-valid (b's' ∷ id) (hex_id-valid id h l),
)

-- office_sent_key returns a key for every pod and tenant that validate and every id of lowercase
-- hexadecimal digits that is not empty and has at most 61 characters, also one that is all digits.
pub office_sent_key-total :
    (pod tenant id : Text)
    → valid_text pod ≡ true
    → valid_text tenant ≡ true
    → all is_hex id ≡ true
    → 1 ≤ length id
    → length id ≤ 61
    → office_sent_key pod tenant (some id)
      ≡ ok (join b':' (key_parts pod tenant none (some (codes "xsent.s" ++ id))))
unfolding office_sent_key
office_sent_key-total pod tenant [] hp ht hex pos short = absurd (omega arith)
office_sent_key-total pod tenant (c ∷ id) hp ht hex pos short =
    rw (all_mono is_hex _ (c ∷ id) hex-lacks_dot hex)
      (tenant_key-total pod tenant _ hp ht (sent_resource-valid (c ∷ id) hex short))

check-valid : valid_text (codes "check") ≡ true
unfolding valid_text matches_segment matches_digits elem_text ◌=t◌
check-valid = refl

-- The key by which a name is checked.
pub prefix-check :
    (a : Text)
    → prefix (codes "check") (codes "check") (some a) none ≡ (
        if valid_text a
        then ok (join b':' (key_parts (codes "check") (codes "check") (some a) none))
        else raise key_error)
unfolding prefix prefix_parts
prefix-check a = rw (validate-valid (codes "check") check-valid) (elim (Bool-cases (valid_text a)) [
  | inl e ↦ rw (validate-valid a e, e)
  | inr e ↦ unfold validate_segment in rw (e)
])
