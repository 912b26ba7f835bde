-- ===== src/Cooperation.antt =====
-- h-app/lib/coop_tokens.py: the tokens with which a remote office acts as one participant. SHA-256, the
-- source of random texts, the clock and json are parameters; a hash keeps the digest of each secret.
pub mod Records
pub mod Verified
pub mod Revoked
pub mod Grants
mod Tests
use h_mesh.Base.{
  ℕ, replicate, Bool, true, false, not, ◌&&◌, ◌||◌, Option, none, some, List, [], ◌∷◌, length, all,
  is_ascii, is_hex, if◌then◌else◌, Text, codes, ◌=t◌, ◌==◌, ltb, leb, elem_text, split, join,
}
use h_mesh.Errors.{Exc, key_error, value_error, type_error, Result, ok, raise, require, ◌>>=◌}
use h_mesh.Keys.{validate_segment}
use h_mesh.Keys.Named.{coop_tokens_key}
use h_mesh.Envelope.Values.{
  Value, Fields, Items, nil, cons, str, dict, array, boolean, field, end, get,
}
use h_mesh.Envelope.Frames.{Json}
use h_mesh.Redis.{Redis}
use h_mesh.Redis.World.{Action, andthen, lift, returns, command}
use h_mesh.Registry.{lookup}
use h_mesh.Channels.{set_field}
use h_mesh.Receipts.{sorted_set}

abbrev pub token_prefix : Text
token_prefix = codes "coop"

abbrev pub allowed_kinds : List Text
allowed_kinds = codes "Message" ∷ []

abbrev pub reserved_participants : List Text
reserved_participants = codes "api" ∷ codes "host" ∷ []

-- ^[0-9a-f]{16}$ and ^[A-Za-z0-9_-]{43}$, as fullmatch reads them
unfoldable pub is_token_id : Text → Bool
is_token_id s = length s == 16 && all is_hex s

abbrev pub is_between : ℕ → ℕ → ℕ → Bool
is_between low high c = leb low c && leb c high

abbrev pub is_url_safe : ℕ → Bool
is_url_safe c =
    is_between 97 122 c || is_between 65 90 c || is_between 48 57 c || c == 95 || c == 45

unfoldable pub is_secret : Text → Bool
is_secret s = length s == 43 && all is_url_safe s

abbrev pub object_of : Option Value → Option Fields
object_of (some (dict fields)) = some fields
object_of v = none

unfoldable pub load : (Text → Option Value) → Option Text → Option Fields
load loads none = none
load loads (some raw) = object_of (loads raw)

-- hmac.compare_digest of two texts, which have to be ASCII
unfoldable pub compare_digest : Text → Text → Result Bool
compare_digest a b = if all is_ascii a && all is_ascii b then ok (a =t b) else raise type_error

-- What random texts, a digest and the clock give to one call
pub record Mint : Type 0 where
  pub token_id : Text
  pub secret : Text
  pub now : Value

-- record[key] = value
unfoldable pub put_field : Text → Value → Fields → Fields
put_field k v end = field k v end
put_field k v (field j u fs) =
    let rest = put_field k v fs in if j =t k then field k v fs else field j u rest

abbrev pub is_boolean : Bool → Value → Bool
is_boolean true (boolean b) = b
is_boolean false (boolean b) = not b
is_boolean b v = false

abbrev pub kind_items : List Text → Items
kind_items [] = nil
kind_items (k ∷ ks) = cons (str k) (kind_items ks)

abbrev pub are_allowed : List Text → Bool
are_allowed [] = false
are_allowed kinds = all (λ k. elem_text k allowed_kinds) kinds

-- The participant, or ValueError
abbrev pub or_value_error : Result Text → Result Text
or_value_error (raise key_error) = raise value_error
or_value_error r = r

unfoldable pub token_record : (Text → Text) → Mint → Text → List Text → Value
token_record digest mint participant kinds = dict (
    field (codes "participant") (str participant) (
      field (codes "sha256") (str (digest mint.secret)) (
        field (codes "kinds") (array (kind_items (sorted_set kinds)))
          (field (codes "created_ts") mint.now (field (codes "revoked") (boolean false) end)))))

abbrev pub token_of : Text → Text → Text
token_of id secret = join b'.' (token_prefix ∷ id ∷ secret ∷ [])

-- The id and the secret of a bearer's text
abbrev pub checked_parts : Text → Text → Text → Option (Text × Text)
checked_parts prefix' id secret =
    if prefix' =t token_prefix
    then if is_token_id id && is_secret secret then some (id, secret) else none
    else none

abbrev pub three_parts : List Text → Option (Text × Text)
three_parts (p ∷ id ∷ secret ∷ []) = checked_parts p id secret
three_parts parts = none

unfoldable pub bearer_parts : Value → Option (Text × Text)
bearer_parts (str bearer) = three_parts (split b'.' bearer)
bearer_parts v = none

-- (record or {}).get("sha256"), if it is a str
abbrev pub text_only : Value → Option Text
text_only (str s) = some s
text_only v = none

unfoldable pub digest_in : Option Fields → Option Text
digest_in none = none
digest_in (some fields) = text_only (get (codes "sha256") fields)

pub record Granted : Type 0 where
  pub token_id : Text
  pub participant : Text
  pub kinds : Items

abbrev pub granted_of : Text → Value → Value → Option Granted
granted_of id (str participant) (array kinds) =
    some (record { token_id = id; participant = participant; kinds = kinds })
granted_of id participant kinds = none

abbrev pub granted_if : Text → Option Fields → Bool → Option Granted
granted_if id (some fields) true =
    if is_boolean false (get (codes "revoked") fields)
    then granted_of id (get (codes "participant") fields) (get (codes "kinds") fields)
    else none
granted_if id fields matches = none

pub data Diagnosis : Type 0 where
  revoked unknown_token : Diagnosis

abbrev pub zeros : ℕ → Text
zeros n = replicate n 48

module _ (digest : Text → Text) where
  -- A record without a digest is compared with zeros, and counts as missing.
  abbrev pub judged : Text → Text → Option Fields → Option Text → Result (Option Granted)
  judged id secret stored (some expected) =
      compare_digest (digest secret) expected >>= λ matches. ok (granted_if id stored matches)
  judged id secret stored none =
      compare_digest (digest secret) (zeros 64) >>= λ matches. ok (granted_if id none matches)

  abbrev pub diagnosed : Text → Option Fields → Option Text → Result Diagnosis
  diagnosed secret (some fields) (some expected) =
      compare_digest (digest secret) expected >>= λ matches.
      ok (
        if matches && is_boolean true (get (codes "revoked") fields)
        then revoked
        else unknown_token)
  diagnosed secret stored expected = ok unknown_token

module _ (R : Redis) (json : Json) (digest : Text → Text) (pod tenant : Text) where
  -- r.hget(coop_tokens_key(pod, tenant), token_id), loaded
  abbrev pub stored_record : Text → Action R.Db (Option Fields)
  stored_record id = andthen (lift (coop_tokens_key pod tenant)) λ key.
      andthen (command λ d. (lookup id (R.entries d key), d)) λ raw. returns (load json.loads raw)

  abbrev pub store_record : Text → Text → Value → Action R.Db (Unit {0})
  store_record key id stored =
      command λ d. (tt, R.put_entries d key (set_field id (json.dumps stored) (R.entries d key)))

  -- The token's id and the token, which is the only copy of the secret
  unfoldable pub grant : Mint → Text → List Text → Action R.Db (Text × Text)
  grant mint participant kinds =
      andthen (lift (or_value_error (validate_segment (some participant)))) λ _.
        andthen (lift (require (not (elem_text participant reserved_participants)) value_error))
          λ _. andthen (lift (require (are_allowed kinds) value_error)) λ _.
            andthen (lift (coop_tokens_key pod tenant)) λ key.
              andthen (store_record key mint.token_id (token_record digest mint participant kinds))
                λ _. returns (mint.token_id, token_of mint.token_id mint.secret)

  abbrev pub revoked_record : Value → Fields → Value
  revoked_record now fields =
      dict (put_field (codes "revoked_ts") now (put_field (codes "revoked") (boolean true) fields))

  -- The record is read once and written again, unless it is missing or revoked.
  abbrev pub revoke_stored : Text → Value → Text → Option Fields → Action R.Db Bool
  revoke_stored key now id none = returns false
  revoke_stored key now id (some fields) =
      if is_boolean true (get (codes "revoked") fields)
      then returns false
      else andthen (store_record key id (revoked_record now fields)) λ _. returns true

  abbrev pub revoke_id : Value → Text → Action R.Db Bool
  revoke_id now id = andthen (lift (coop_tokens_key pod tenant)) λ key.
      andthen (command λ d. (lookup id (R.entries d key), d))
        λ raw. revoke_stored key now id (load json.loads raw)

  unfoldable pub revoke : Value → Value → Action R.Db Bool
  revoke now (str id) = if is_token_id id then revoke_id now id else returns false
  revoke now v = returns false

  abbrev pub verify_parts : Option (Text × Text) → Action R.Db (Option Granted)
  verify_parts none = returns none
  verify_parts (some (id, secret)) =
      andthen (stored_record id) λ stored. lift (judged digest id secret stored (digest_in stored))

  unfoldable pub verify : Value → Action R.Db (Option Granted)
  verify bearer = verify_parts (bearer_parts bearer)

  abbrev pub diagnose_parts : Option (Text × Text) → Action R.Db Diagnosis
  diagnose_parts none = returns unknown_token
  diagnose_parts (some (id, secret)) =
      andthen (stored_record id) λ stored. lift (diagnosed digest secret stored (digest_in stored))

  unfoldable pub diagnose : Value → Action R.Db Diagnosis
  diagnose bearer = diagnose_parts (bearer_parts bearer)
