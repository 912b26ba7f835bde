-- ===== src/Health.antt =====
-- h-app/core/ingress_health.py: the monitor of ingress lists that nobody drains. The clock, the time
-- stamp and a lenient decoding of bytes are parameters; times are whole numbers.
pub mod Passes
pub mod Alarms
mod Tests
use h_mesh.Base.{
  ℕ, ◌+◌, ◌-◌, ◌==◌, Bool, true, false, not, Option, none, some, List, [], ◌∷◌, length,
  if◌then◌else◌, Text, codes, ◌=t◌, elem_text, ltb,
}
use h_mesh.Errors.{Result, ok, raise}
use h_mesh.Keys.{agent_key}
use h_mesh.Keys.Named.{delivery_lock_key, ingress_stalled_key}
use h_mesh.Envelope.Values.{
  Value, Fields, str, int, real, boolean, array, nil, dict, field, end, pos, get,
}
use h_mesh.Envelope.Header.{Raw, text, bytes, RecordFields, header_record_fields}
use h_mesh.Envelope.Frames.{Json}
use h_mesh.Redis.{Redis}
use h_mesh.Redis.World.{World, Action, andthen, lift, returns, command}
use h_mesh.Registry.{lookup, names_of}
use h_mesh.Channels.{set_field, drop_field}
use h_mesh.Receipts.{sorted_set}
use h_mesh.Switch.Forward.{sort}

-- The head of a list, and when it was first seen there.
pub record Sighting : Type 0 where
  pub identity : Text
  pub since : ℕ

pub record Monitor : Type 0 where
  pub watch : List (Text × Sighting)
  pub stalled : List Text

-- Code that keeps a monitor: what was changed before an exception stays changed.
abbrev pub Pass : Type 0 → Type 0 → Type 0
Pass Db A = Monitor → World Db → Result A × Monitor × World Db

module _ {Db : Type 0} where
  abbrev pub follow :
      {A B : Type 0}
      → Result A × Monitor × World Db
      → (A → Pass Db B)
      → Result B × Monitor × World Db
  follow (ok a, s, w) f = f a s w
  follow (raise e, s, w) f = (raise e, s, w)

  abbrev pub then_do : {A B : Type 0} → Pass Db A → (A → Pass Db B) → Pass Db B
  then_do m f s w = follow (m s w) f

  abbrev pub runs : {A : Type 0} → Action Db A → Pass Db A
  runs m s w = let (r, v) = m w in (r, s, v)

  abbrev pub becomes : (Monitor → Monitor) → Pass Db (Unit {0})
  becomes f s w = (ok tt, f s, w)

unfoldable pub sighting_of : Text → List (Text × Sighting) → Option Sighting
sighting_of agent [] = none
sighting_of agent ((a, g) ∷ rest) =
    let later = sighting_of agent rest in if a =t agent then some g else later

unfoldable pub forget : Text → List (Text × Sighting) → List (Text × Sighting)
forget agent [] = []
forget agent ((a, g) ∷ rest) =
    let later = forget agent rest in if a =t agent then later else (a, g) ∷ later

unfoldable pub keep_members : List Text → List (Text × Sighting) → List (Text × Sighting)
keep_members names [] = []
keep_members names ((a, g) ∷ rest) =
    let later = keep_members names rest in if elem_text a names then (a, g) ∷ later else later

unfoldable pub discard : Text → List Text → List Text
discard agent [] = []
discard agent (a ∷ rest) = let later = discard agent rest in if a =t agent then later else a ∷ later

unfoldable pub not_members : List Text → List Text → List Text
not_members names [] = []
not_members names (a ∷ rest) =
    let later = not_members names rest in if elem_text a names then later else a ∷ later

-- self._watch[agent] = …, and self._stalled.add(agent)
abbrev pub watching : Text → Sighting → Monitor → Monitor
watching agent g s = record s { watch = (agent, g) ∷ forget agent s.watch }

abbrev pub add_stalled : Text → Monitor → Monitor
add_stalled agent s =
    if elem_text agent s.stalled then s else record s { stalled = agent ∷ s.stalled }

pub data Verdict : Type 0 where
  fresh waiting stuck : Verdict

-- What the head says, against what was seen before.
unfoldable pub decide : ℕ → ℕ → Text → Option Sighting → Verdict
decide stall now identity none = fresh
decide stall now identity (some g) =
    if g.identity =t identity then (if ltb (now - g.since) stall then waiting else stuck) else fresh

-- A value that Python takes for true; a float is zero as 0.0 or -0.0.
abbrev pub is_truthy : Value → Bool
is_truthy (str []) = false
is_truthy (boolean b) = b
is_truthy (int (pos n)) = not (n == 0)
is_truthy (real s) = not (elem_text s (codes "0.0" ∷ codes "-0.0" ∷ []))
is_truthy Value.null = false
is_truthy (array nil) = false
is_truthy (dict end) = false
is_truthy v = true

abbrev pub or_stamp : Text → Value → Value
or_stamp stamp v = if is_truthy v then v else str stamp

abbrev pub since_in : Text → Option Value → Value
since_in stamp (some (dict record')) = or_stamp stamp (get (codes "since") record')
since_in stamp v = str stamp

-- The start of a stall that has one, and the stamp for one that begins.
abbrev pub since_of : Json → Text → Option Text → Value
since_of json stamp none = str stamp
since_of json stamp (some []) = str stamp
since_of json stamp (some (c ∷ s)) = since_in stamp (json.loads (c ∷ s))

abbrev pub text_if : Bool → Text → Value
text_if true s = str s
text_if false s = Value.null

abbrev pub lease_word : Option Text → Text
lease_word none = codes "absent"
lease_word (some token) = codes "held"

abbrev pub type_or_null : Text → Value
type_or_null [] = Value.null
type_or_null (c ∷ s) = str (c ∷ s)

unfoldable pub stall_record : Value → ℕ → Text → Option Text → Text → Value
stall_record since depth identity lease port_type = dict (
    field (codes "since") since (
      field (codes "depth") (int (pos depth)) (
        field (codes "head_stream_id") (text_if (length identity == 32) identity) (
          field (codes "lease") (str (lease_word lease))
            (field (codes "port_type") (type_or_null port_type) end)))))
