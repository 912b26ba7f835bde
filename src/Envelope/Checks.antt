-- ===== src/Envelope/Checks.antt =====
-- The field checks of core/envelope.py: _segment, _address, _identifier, _counter, _parse_counter,
-- resolve_source and resolve_destination.
use h_mesh.Base.{
  ℕ, Bool, false, ◌&&◌, none, some, List, [], ◌∷◌, ◌++◌, leb, ◌==◌, if◌then◌else◌, all, length,
  Text, codes, ◌=t◌, split, is_hex, parse_three, lacks,
}
use h_mesh.Errors.{
  Reason, Result, ok, raise, envelope_error, invalid_name, invalid_address, unqualified_address,
  bad_identifier, bad_counter, bad_counter_text, no_route, ◌>>=◌, ◌>>◌, or_raise,
}
use h_mesh.Keys.{prefix}
use h_mesh.Envelope.Values.{Value, null, int, str, pos}

abbrev pub identifier_width : ℕ
identifier_width = 32

abbrev pub fail {ℓ} : {A : Type ℓ} → Reason → Result A
fail e = raise (envelope_error e)

-- try: prefix("check", "check", agent=value); except KeyError
named : Text → Text → Result Text → Result Value
named name v (ok k) = ok (str v)
named name v (raise e) = fail (invalid_name name)

-- A value that is None is no agent for prefix, which then has nothing to reject.
unfoldable pub segment : Text → Value → Result Value
unfolding named
segment name null = ok null
segment name (str v) = named name v (prefix (codes "check") (codes "check") (some v) none)
segment name _ = fail (invalid_name name)

-- _segment of a text, which it returns unchanged.
unfoldable pub text_segment : Text → Text → Result Text
unfolding segment
text_segment name v = segment name (str v) >> ok v

pub record Address : Type 0 where
  pub pod : Text
  pub tenant : Text
  pub agent : Text

-- if not (broadcast and agent == "all"): _segment(agent)
check_agent : Bool → Text → Result (Unit {0})
unfolding segment
check_agent broadcast agent =
    if broadcast && (agent =t codes "all")
    then ok tt
    else segment (codes "agent") (str agent) >> ok tt

address_of : Text → Bool → List Text → Result Address
unfolding check_agent
address_of name broadcast (pod ∷ tenant ∷ agent ∷ []) = do
  text_segment (codes "pod") pod
  text_segment (codes "tenant") tenant
  check_agent broadcast agent
  ok (record { pod = pod; tenant = tenant; agent = agent })
address_of name broadcast _ = fail (unqualified_address name)

unfoldable pub address : Value → Text → Bool → Result Address
unfolding address_of
address (str v) name broadcast =
    if broadcast && (v =t codes "all")
    then ok (record { pod = []; tenant = []; agent = codes "all" })
    else address_of name broadcast (split b':' v)
address _ name broadcast = fail (invalid_address name)

abbrev pub qualified : Text → Text → Text → Text
qualified pod tenant agent = pod ++ (b':' ∷ (tenant ++ (b':' ∷ agent)))

-- if (dst_pod, dst_tenant) != (pod, tenant): raise; return destination, agent
local_address : Text → Text → Text → Address → Result (Text × Text)
local_address pod tenant destination a =
    if (a.pod =t pod) && (a.tenant =t tenant) then ok (destination, a.agent) else fail no_route

-- The L3 and the L2 destination.
unfoldable pub resolve_destination : Text → Text → Text → Result (Text × Text)
unfolding local_address
resolve_destination pod tenant destination = do
  text_segment (codes "pod") pod
  text_segment (codes "tenant") tenant
  if destination =t codes "all"
      then ok (qualified pod tenant (codes "all"), codes "all")
      else if lacks b':' destination
      then (do
        agent ← text_segment (codes "agent") destination
        ok (qualified pod tenant agent, agent))
      else (do
        a ← address (str destination) (codes "destination") false
        local_address pod tenant destination a)

-- The L3 and the L2 source.
unfoldable pub resolve_source : Text → Text → Text → Result (Text × Text)
resolve_source pod tenant source = do
  text_segment (codes "pod") pod
  text_segment (codes "tenant") tenant
  local_source ← text_segment (codes "source") source
  ok (qualified pod tenant local_source, local_source)

unfoldable pub is_identifier : Text → Bool
is_identifier v = length v == identifier_width && all is_hex v

unfoldable pub identifier : Value → Text → Result Text
identifier (str v) name = if is_identifier v then ok v else fail (bad_identifier name)
identifier _ name = fail (bad_identifier name)

unfoldable pub counter : Value → Text → Result ℕ
counter (int (pos n)) name = if leb n 999 then ok n else fail (bad_counter name)
counter _ name = fail (bad_counter name)

unfoldable pub parse_counter : Text → Text → ℕ → Result ℕ
parse_counter v name default =
    if v =t codes "   "
    then ok default
    else or_raise (parse_three v) (envelope_error (bad_counter_text name))
