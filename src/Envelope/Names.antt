-- ===== src/Envelope/Names.antt =====
-- _segment decides validity: a text passes exactly when validate_segment takes it.
use h_mesh.Base.{◌≡◌, Bool, true, arith, if◌then◌else◌, Text, codes, ◌=t◌}
use h_mesh.Errors.{ok, invalid_name}
use h_mesh.Keys.{valid_text}
use h_mesh.Keys.Totality.{prefix-check}
use h_mesh.Envelope.Values.{str}
use h_mesh.Envelope.Checks.{fail, segment, text_segment}
use h_mesh.Envelope.Header.{l2_destination}

pub segment-if :
    (name v : Text)
    → segment name (str v) ≡ (if valid_text v then ok (str v) else fail (invalid_name name))
unfolding segment
segment-if name v = ground (arith, prefix-check v)

pub text_segment-if :
    (name v : Text)
    → text_segment name v ≡ (if valid_text v then ok v else fail (invalid_name name))
unfolding text_segment
text_segment-if name v = ground (arith, segment-if name v)

pub text_segment-valid : (name v : Text) → valid_text v ≡ true → text_segment name v ≡ ok v
unfolding text_segment
text_segment-valid name v h = ground (arith, segment-if name v)

pub text_segment-ok :
    (name v : Text) {w : Text} → text_segment name v ≡ ok w → (valid_text v ≡ true) × (v ≡ w)
unfolding text_segment
text_segment-ok name v h = ground (arith, segment-if name v)

-- A destination is a valid name or "all".
unfoldable pub is_target : Text → Bool
is_target d = if d =t codes "all" then true else valid_text d

pub l2_destination-if :
    (d : Text)
    → l2_destination d
      ≡ (if is_target d then ok d else fail (invalid_name (codes "L2 destination")))
unfolding l2_destination is_target
l2_destination-if d = ground (arith, text_segment-if (codes "L2 destination") d)

pub l2_destination-target : (d : Text) → is_target d ≡ true → l2_destination d ≡ ok d
unfolding l2_destination is_target
l2_destination-target d h = ground (arith, text_segment-valid (codes "L2 destination") d)

pub l2_destination-ok :
    (d : Text) {w : Text} → l2_destination d ≡ ok w → (is_target d ≡ true) × (d ≡ w)
unfolding l2_destination is_target
l2_destination-ok d {w} h = ground (arith, text_segment-ok (codes "L2 destination") d {w = w})
