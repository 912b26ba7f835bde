-- ===== src/Receipts/Trace.antt =====
-- h-app/core/receipts.py: the script, locate, confirmation and trace.
use h_mesh.Base.{
  ℕ, zero, suc, ◌-◌, Bool, true, false, ◌||◌, ◌++◌, Option, none, some, List, [], ◌∷◌, take,
  if◌then◌else◌, Text, codes, ◌=t◌,
}
use h_mesh.Errors.{value_error, index_error, Result, ok, ◌>>=◌, require, or_raise}
use h_mesh.Keys.{agent_key}
use h_mesh.Envelope.Values.{Value, str, dict, get}
use h_mesh.Envelope.Checks.{is_identifier}
use h_mesh.Envelope.Header.{Raw, text, bytes}
use h_mesh.Redis.{Redis}
use h_mesh.Redis.World.{Action, andthen, lift, returns, command}
use h_mesh.Registry.{lookup, members}
use h_mesh.Receipts.{
  Stage, opened, inbox, State, Kind, list_kind, json_kind, stream_kind, Location, Entry,
  overall_state, head_matches, Sources, unhex_pairs, contains, needle_of, sorted_set, scan_plan,
}

unfoldable pub is_hex_encoded : Value → Bool
is_hex_encoded (str e) = e =t codes "hex"
is_hex_encoded v = false

module _ (code : ℕ → ℕ → Option ℕ) (id : Text) where
  -- The text of a record: as it stands, or the first 33 bytes of it in hexadecimal digits.
  unfoldable pub custody_matches : Bool → Value → Bool
  custody_matches true (str envelope) =
      head_matches id (bytes (unhex_pairs code (take 66 envelope)))
  custody_matches false (str envelope) = head_matches id (text envelope)
  custody_matches hex v = false

  unfoldable pub record_matches : Option Value → Bool
  unfolding is_hex_encoded custody_matches
  record_matches (some (dict data')) =
      custody_matches (is_hex_encoded (get (codes "encoding") data')) (get (codes "envelope") data')
  record_matches v = false

unfoldable pub any_head : Text → List Raw → Bool
any_head id [] = false
any_head id (raw ∷ rest) = head_matches id raw || any_head id rest

unfoldable pub any_record : (Raw → Option Value) → (ℕ → ℕ → Option ℕ) → Text → List Raw → Bool
any_record decode code id [] = false
any_record decode code id (record' ∷ rest) =
    record_matches code id (decode record') || any_record decode code id rest

unfoldable pub any_value : Text → List (Text × Text) → Bool
any_value needle [] = false
any_value needle ((name, value) ∷ rest) = contains needle value || any_value needle rest

unfoldable pub any_entry : Text → List (List (Text × Text)) → Bool
any_entry needle [] = false
any_entry needle (fields ∷ rest) = any_value needle fields || any_entry needle rest

-- plan[index - 1][2] for each index
unfoldable pub location_at : List Entry → ℕ → Option Location
location_at [] i = none
location_at (e ∷ es) zero = some e.location
location_at (e ∷ es) (suc i) = location_at es i

unfoldable pub pick : List Entry → List ℕ → Result (List Location)
pick plan [] = ok []
pick plan (index ∷ hits) = do
  location ← or_raise (location_at plan (index - 1)) index_error
  rest ← pick plan hits
  ok (location ∷ rest)

-- l.agent for l in locations if l.stage in ("opened", "inbox") and l.agent
abbrev pub delivered_agent : Stage → Option Text → List Text
delivered_agent opened (some (c ∷ s)) = (c ∷ s) ∷ []
delivered_agent inbox (some (c ∷ s)) = (c ∷ s) ∷ []
delivered_agent stage agent = []

abbrev pub delivered_agents : List Location → List Text
delivered_agents [] = []
delivered_agents (l ∷ ls) = delivered_agent l.stage l.agent ++ delivered_agents ls

pub data Confirmation : Type 0 where
  pending unverified : Confirmation

abbrev pub is_value : Text → Option Text → Bool
is_value id none = false
is_value id (some s) = s =t id

unfoldable pub any_pending : Text → List (List (Text × Text)) → Bool
any_pending id [] = false
any_pending id (fields ∷ rest) =
    is_value id (lookup (codes "stream_id") fields) || any_pending id rest

pub record Receipt : Type 0 where
  pub stream_id : Text
  pub state : State
  pub locations : List Location
  pub confirmation : Option (Option Confirmation)

module _ (R : Redis) (sources : Sources R.Db) (id : Text) where
  unfoldable pub hit : R.Db → Kind → Text → Bool
  hit d list_kind key = any_head id (R.items d key)
  hit d json_kind key = any_record sources.decode sources.pair_code id (R.items d key)
  hit d stream_kind key = any_entry (needle_of id) (sources.stream d key)

  unfoldable pub found_from : ℕ → R.Db → List Entry → List ℕ
  found_from index d [] = []
  found_from index d (e ∷ es) =
      let rest = found_from (suc index) d es in if hit d e.kind e.key then index ∷ rest else rest

  unfoldable pub trace_script : List Entry → R.Db → List ℕ × R.Db
  trace_script plan d = (found_from 1 d plan, d)

module _ (R : Redis) (sources : Sources R.Db) (pod tenant id : Text) where
  unfoldable pub locate : List Text → Action R.Db (List Location)
  locate extra_agents = andthen (lift (require (is_identifier id) value_error)) λ _.
      andthen (members R pod tenant) λ names.
        andthen (lift (scan_plan pod tenant (sorted_set (names ++ extra_agents))))
          λ plan. andthen (command (trace_script R sources id plan)) λ hits. lift (pick plan hits)

  abbrev pub then_if : {A : Type 0} → Bool → A → Action R.Db A → Action R.Db A
  then_if true a rest = returns a
  then_if false a rest = rest

  unfoldable pub blocked_agent : List Text → Action R.Db Bool
  blocked_agent [] = returns false
  blocked_agent (agent ∷ agents) =
      let later = blocked_agent agents in
      andthen (lift (agent_key pod tenant agent (codes "blocked"))) λ key.
        andthen (command λ d. (is_value id (lookup (codes "stream_id") (R.entries d key)), d))
          λ blocked. then_if blocked true later

  unfoldable pub pending_agent : List Text → Action R.Db (Option Confirmation)
  pending_agent [] = returns none
  pending_agent (agent ∷ agents) =
      let later = pending_agent agents in
      andthen (lift (agent_key pod tenant agent (codes "pending.verify"))) λ key.
        andthen (command λ d. (any_pending id (sources.stream d key), d))
          λ waits. then_if waits (some pending) later

  unfoldable pub confirmation : List Text → Action R.Db (Option Confirmation)
  confirmation agents =
      andthen (blocked_agent agents)
        λ blocked. then_if blocked (some unverified) (pending_agent agents)

  abbrev pub confirmed : List Text → Action R.Db (Option (Option Confirmation))
  confirmed [] = returns none
  confirmed (a ∷ as') = andthen (confirmation (a ∷ as')) λ answer. returns (some answer)

  unfoldable pub trace : List Text → Action R.Db Receipt
  trace extra_agents = andthen (locate extra_agents) λ locations.
      andthen (confirmed (sorted_set (delivered_agents locations))) λ answer. returns (record {
        stream_id = id;
        state = overall_state locations;
        locations = locations;
        confirmation = answer;
      })
