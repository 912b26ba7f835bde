-- ===== src/Receipts.antt =====
-- h-app/core/receipts.py: in which lists a frame is, and what that says of its delivery. The script's
-- cjson.decode and its tonumber of two digits, and XRANGE, are the parameter `Sources`.
pub mod Trace
pub mod States
pub mod Words
pub mod Located
pub mod Seen
pub mod Known
mod Tests
use h_mesh.Base.{
  ℕ, zero, suc, ◌-◌, ◌++◌, Bool, true, false, ◌||◌, ◌&&◌, Option, none, some, List, [], ◌∷◌, take,
  if◌then◌else◌, Text, codes, ◌=t◌, ltb, before, elem_text,
}
use h_mesh.Errors.{value_error, Result, ok, raise, ◌>>=◌, require}
use h_mesh.Keys.{agent_key}
use h_mesh.Keys.Named.{
  receive_processing_key, receive_opening_key, receive_opened_key, receive_unresolved_key,
  receive_undeliverable_key,
}
use h_mesh.Envelope.Values.{Value, Fields, str, dict, get}
use h_mesh.Envelope.Checks.{is_identifier}
use h_mesh.Envelope.Header.{Raw, text, bytes}
use h_mesh.Redis.{Redis}
use h_mesh.Redis.World.{Action, andthen, lift, returns, command}
use h_mesh.Registry.{lookup, members}

pub data Stage : Type 0 where
  egress ingress processing opening opened inbox dead undeliverable unresolved : Stage

-- The states of STAGE_STATE, and the two that overall_state adds.
pub data State : Type 0 where
  queued delivering delivered failed outcome_unresolved unknown partial : State

unfoldable pub stage_state : Stage → State
stage_state egress = queued
stage_state ingress = queued
stage_state processing = queued
stage_state opening = delivering
stage_state opened = delivered
stage_state inbox = delivered
stage_state dead = failed
stage_state undeliverable = failed
stage_state unresolved = outcome_unresolved

unfoldable pub same_state : State → State → Bool
same_state queued queued = true
same_state delivering delivering = true
same_state delivered delivered = true
same_state failed failed = true
same_state outcome_unresolved outcome_unresolved = true
same_state unknown unknown = true
same_state partial partial = true
same_state s t = false

pub data Kind : Type 0 where
  list_kind json_kind stream_kind : Kind

-- `agent` is none for a list of the tenant.
pub record Location : Type 0 where
  pub agent : Option Text
  pub stage : Stage

pub record Entry : Type 0 where
  pub key : Text
  pub kind : Kind
  pub location : Location

-- {STAGE_STATE[location.stage] for location in locations}
unfoldable pub add_state : State → List State → List State
add_state s [] = s ∷ []
add_state s (t ∷ ts) = let rest = add_state s ts in if same_state s t then t ∷ ts else t ∷ rest

unfoldable pub states : List Location → List State
states [] = []
states (l ∷ ls) = add_state (stage_state l.stage) (states ls)

abbrev pub state_of : List State → State
state_of [] = unknown
state_of (s ∷ []) = s
state_of (s ∷ t ∷ ts) = partial

unfoldable pub overall_state : List Location → State
overall_state locations = state_of (states locations)

-- string.sub(raw, 2, 33) == id, by bytes: a first character of more bytes shifts the others.
unfoldable pub head_matches : Text → Raw → Bool
head_matches id (text []) = false
head_matches id (text (c ∷ s)) = ltb c 128 && take 32 s =t id
head_matches id (bytes []) = false
head_matches id (bytes (c ∷ s)) = take 32 s =t id

abbrev pub or_mark : Option ℕ → ℕ
or_mark none = 63
or_mark (some c) = c

-- The code of a pair of digits, none where it is no number (and never above 255); the value that an
-- entry of a list decodes to; the entries of a stream, as their fields.
pub record Sources (Db : Type 0) : Type 0 where
  pub pair_code : ℕ → ℕ → Option ℕ
  pub decode : Raw → Option Value
  pub stream : Db → Text → List (List (Text × Text))

unfoldable pub unhex_pairs : (ℕ → ℕ → Option ℕ) → Text → Text
unhex_pairs code [] = []
unhex_pairs code (a ∷ []) = a ∷ []
unhex_pairs code (a ∷ b ∷ s) = or_mark (code a b) ∷ unhex_pairs code s

unfoldable pub is_prefix : Text → Text → Bool
is_prefix [] s = true
is_prefix (c ∷ n) [] = false
is_prefix (c ∷ n) (d ∷ s) = (c ∷ []) =t (d ∷ []) && is_prefix n s

-- string.find(s, needle, 1, true)
unfoldable pub contains : Text → Text → Bool
contains needle [] = is_prefix needle []
contains needle (c ∷ s) = is_prefix needle (c ∷ s) || contains needle s

abbrev pub needle_of : Text → Text
needle_of id = codes "\"stream_id\": \"" ++ (id ++ codes "\"")

-- The sorted members of a set
unfoldable pub insert_name : Text → List Text → List Text
insert_name x [] = x ∷ []
insert_name x (y ∷ ys) =
    let rest = insert_name x ys in
    if x =t y then y ∷ ys else if before x y then x ∷ y ∷ ys else y ∷ rest

unfoldable pub sorted_set : List Text → List Text
sorted_set [] = []
sorted_set (x ∷ xs) = insert_name x (sorted_set xs)

module _ (pod tenant : Text) where
  abbrev pub entry_of : Text → Kind → Option Text → Stage → Entry
  entry_of key kind agent stage = record {
    key = key;
    kind = kind;
    location = record { agent = agent; stage = stage };
  }

  unfoldable pub agent_plan : Text → Result (List Entry)
  agent_plan agent = do
    e ← agent_key pod tenant agent (codes "egress")
    i ← agent_key pod tenant agent (codes "ingress")
    p ← receive_processing_key pod tenant agent
    o ← receive_opening_key pod tenant agent
    r ← receive_opened_key pod tenant agent
    d ← agent_key pod tenant agent (codes "dead")
    b ← agent_key pod tenant agent (codes "inbox")
    ok (
        entry_of e list_kind (some agent) egress
        ∷ entry_of i list_kind (some agent) ingress
        ∷ entry_of p list_kind (some agent) processing
        ∷ entry_of o list_kind (some agent) opening
        ∷ entry_of r list_kind (some agent) opened
        ∷ entry_of d list_kind (some agent) dead
        ∷ entry_of b stream_kind (some agent) inbox
        ∷ [])

  unfoldable pub scan_plan : List Text → Result (List Entry)
  scan_plan [] = do
    u ← receive_unresolved_key pod tenant
    v ← receive_undeliverable_key pod tenant
    ok (entry_of u json_kind none unresolved ∷ entry_of v json_kind none undeliverable ∷ [])
  scan_plan (agent ∷ agents) = do own ← agent_plan agent; rest ← scan_plan agents; ok (own ++ rest)
