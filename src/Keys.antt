-- ===== src/Keys.antt =====
-- h-app/core/keys.py: the only constructor of Redis keys. A `str | None` is an Option of a text,
-- and KeyError is `raise key_error`.
pub mod Segments
pub mod Refusals
pub mod Structure
pub mod Named
pub mod Totality
mod Tests
use h_mesh.Base.{
  ℕ, ◌≤◌, Bool, true, false, not, ◌&&◌, ◌||◌, Option, none, some, List, [], ◌∷◌, ◌++◌, leb, ◌==◌,
  if◌then◌else◌, all, length, Text, codes, elem_text, split, join, is_digit, lacks,
}
use h_mesh.Errors.{Exc, Result, ok, raise, key_error, ◌>>=◌, ◌>>◌, require}

abbrev pub is_lower : ℕ → Bool
is_lower c = leb b'a' c && leb c b'z'

abbrev pub is_head_char : ℕ → Bool
is_head_char c = is_lower c || is_digit c

abbrev pub is_name_char : ℕ → Bool
is_name_char c = is_lower c || is_digit c || c == b'-'

-- ^[a-z0-9][a-z0-9-]{0,62}$, as fullmatch reads it.
unfoldable pub matches_segment : Text → Bool
matches_segment [] = false
matches_segment (c ∷ s) = is_head_char c && all is_name_char s && leb (length s) 62

-- ^[0-9]+$, as fullmatch reads it.
unfoldable pub matches_digits : Text → Bool
matches_digits [] = false
matches_digits (c ∷ s) = is_digit c && all is_digit s

unfoldable pub reserved : List Text
reserved = codes "pod" ∷ codes "tenant" ∷ codes "agent" ∷ codes "all" ∷ []

unfoldable pub valid_text : Text → Bool
unfolding reserved
valid_text v = matches_segment v && not (elem_text v reserved) && not (matches_digits v)

unfoldable pub validate_segment : Option Text → Result Text
validate_segment none = raise key_error
validate_segment (some v) = if valid_text v then ok v else raise key_error

-- for segment in …: _validate(segment)
unfoldable pub validate_all : List Text → Result (Unit {0})
validate_all [] = ok tt
validate_all (s ∷ ss) = validate_segment (some s) >> validate_all ss

unfoldable pub validate_resource : Text → Result Text
validate_resource [] = raise key_error
validate_resource (c ∷ v) = do validate_all (split b'.' (c ∷ v)); ok (c ∷ v)

agent_parts : Option Text → Result (List Text)
agent_parts none = ok []
agent_parts (some a) = do a' ← validate_segment (some a); ok (codes "agent" ∷ a' ∷ [])

resource_parts : Option Text → Result (List Text)
resource_parts none = ok []
resource_parts (some v) = do v' ← validate_resource v; ok (v' ∷ [])

-- The parts that prefix joins with ":".
unfoldable pub prefix_parts : Text → Text → Option Text → Option Text → Result (List Text)
unfolding agent_parts resource_parts
prefix_parts pod tenant agent resource = do
  p ← validate_segment (some pod)
  t ← validate_segment (some tenant)
  a ← agent_parts agent
  v ← resource_parts resource
  ok (codes "pod" ∷ p ∷ codes "tenant" ∷ t ∷ (a ++ v))

unfoldable pub prefix : Text → Text → Option Text → Option Text → Result Text
prefix pod tenant agent resource = do
  parts ← prefix_parts pod tenant agent resource
  ok (join b':' parts)

-- One agent's resource, and a tenant-level resource.
abbrev pub agent_key : Text → Text → Text → Text → Result Text
agent_key pod tenant agent resource = prefix pod tenant (some agent) (some resource)

abbrev pub tenant_key : Text → Text → Text → Result Text
tenant_key pod tenant resource = prefix pod tenant none (some resource)

-- The `s` before the id keeps an all-digit id from being an all-digit segment.
unfoldable pub office_sent_key : Text → Text → Option Text → Result Text
office_sent_key pod tenant none = raise key_error
office_sent_key pod tenant (some []) = raise key_error
office_sent_key pod tenant (some (c ∷ id)) =
    if lacks b'.' (c ∷ id)
    then tenant_key pod tenant (codes "xsent.s" ++ (c ∷ id))
    else raise key_error
