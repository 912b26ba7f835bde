-- ===== src/Keys/Tests.antt =====
-- Keys of a concrete pod, tenant and agent, and the theorems on them.
use h_mesh.Base.{◌≡◌, refl, some, arith, Text, codes, ◌=t◌, elem_text, split, join}
use h_mesh.Errors.{ok, raise, key_error}
use h_mesh.Keys.{
  matches_segment, matches_digits, valid_text, validate_segment, validate_all, validate_resource,
  prefix_parts, prefix, office_sent_key,
}
use h_mesh.Keys.Structure.{prefix-injective}
use h_mesh.Keys.Totality.{office_sent_key-total}

abbrev ingress_text : Text
ingress_text = codes "pod:p1:tenant:t1:agent:bob:ingress"

ingress_key :
    prefix (codes "p1") (codes "t1") (some (codes "bob")) (some (codes "ingress")) ≡ ok ingress_text
unfolding prefix prefix_parts validate_segment validate_resource validate_all valid_text
    matches_segment matches_digits elem_text ◌=t◌ split join
ingress_key = refl

all_digits_refused : validate_segment (some (codes "42")) ≡ raise key_error
unfolding validate_segment valid_text matches_segment matches_digits elem_text ◌=t◌
all_digits_refused = refl

prefix-injective_example :
    (codes "p1" ≡ codes "p1")
    × (codes "t1" ≡ codes "t1")
    × (some (codes "bob") ≡ some (codes "bob"))
    × (some (codes "ingress") ≡ some (codes "ingress"))
prefix-injective_example =
    prefix-injective (codes "p1") (codes "t1") (codes "p1") (codes "t1") (some (codes "bob"))
      (some (codes "ingress")) (some (codes "bob")) (some (codes "ingress")) ingress_key ingress_key

office_sent_key-total_example :
    office_sent_key (codes "p1") (codes "t1") (some (codes "0123456789"))
    ≡ ok (codes "pod:p1:tenant:t1:xsent.s0123456789")
unfolding valid_text matches_segment matches_digits elem_text ◌=t◌ join
office_sent_key-total_example =
    office_sent_key-total (codes "p1") (codes "t1") (codes "0123456789") refl refl refl
      (omega arith) (omega arith)
