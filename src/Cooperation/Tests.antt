-- ===== src/Cooperation/Tests.antt =====
-- A token for rex is granted, verified and revoked. Its record has two texts, one for each state.
use h_mesh.Base.{
  ◌≡◌, ◌≢◌, refl, inl, inr, Bool, true, false, none, some, List, [], ◌∷◌, replicate, if◌then◌else◌,
  Text, codes, ◌=t◌, Bool-cases, elem_text, split, join,
}
use h_mesh.Errors.{ok}
use h_mesh.Keys.{
  matches_segment, matches_digits, valid_text, validate_segment, prefix_parts, prefix, validate_all,
  validate_resource,
}
use h_mesh.Keys.Named.{coop_tokens_key}
use h_mesh.Envelope.Values.{
  Value, Fields, nil, cons, str, dict, array, boolean, field, end, find, get,
}
use h_mesh.Envelope.Frames.{Json}
use h_mesh.Redis.Memory.{memory}
use h_mesh.Redis.World.{World, command, run_under}
use h_mesh.Registry.{lookup}
use h_mesh.Channels.{set_field}
use h_mesh.Receipts.{sorted_set, insert_name}
use h_mesh.Cooperation.{
  Mint, Granted, load, compare_digest, put_field, bearer_parts, is_token_id, is_secret, digest_in,
  token_record, token_of, kind_items, grant, revoke, verify, diagnose, revoked, revoked_record,
}
use h_mesh.Cooperation.Verified.{IsGranted, verify-IsGranted}
use h_mesh.Cooperation.Revoked.{verify-revoke}
use h_mesh.Cooperation.Grants.{verify-grant}

abbrev mint : Mint
mint = record { token_id = codes "0123456789abcdef"; secret = replicate 43 97; now = Value.null }

abbrev digest : Text → Text
digest s = s

abbrev fresh_fields : Bool → Fields → Fields
fresh_fields b more = field (codes "participant") (str (codes "rex")) (
    field (codes "sha256") (str mint.secret) (
      field (codes "kinds") (array (cons (str (codes "Message")) nil))
        (field (codes "created_ts") Value.null (field (codes "revoked") (boolean b) more))))

abbrev revoked_fields : Fields
revoked_fields = fresh_fields true (field (codes "revoked_ts") Value.null end)

abbrev text_for : Value → Text
text_for (boolean true) = codes "{2}"
text_for v = codes "{1}"

abbrev written : Value → Text
written (dict fields) = text_for (get (codes "revoked") fields)
written v = []

abbrev json : Json
json = record {
  dumps = written;
  loads = λ s.
      if s =t codes "{1}"
      then some (dict (fresh_fields false end))
      else if s =t codes "{2}"
      then some (dict revoked_fields)
      else none;
}

abbrev empty : World memory.Db
empty = record {
  db = record {
    lists = λ k. [];
    hashes = λ k. [];
    strings = λ k. none;
    streams = λ k. [];
    sorted = λ k. [];
  };
  faults = [];
  kicks = [];
  unknown_outcomes = [];
  opener_calls = [];
}

abbrev pod : Text
pod = codes "p1"

abbrev tenant : Text
tenant = codes "t1"

abbrev kinds : List Text
kinds = codes "Message" ∷ []

abbrev granted_world : World memory.Db
granted_world = (grant memory json digest pod tenant mint (codes "rex") kinds empty).1

granted :
    grant memory json digest pod tenant mint (codes "rex") kinds empty
    ≡ (ok (mint.token_id, token_of mint.token_id mint.secret), granted_world)
unfolding grant token_record command run_under coop_tokens_key sorted_set insert_name prefix
    prefix_parts validate_segment valid_text matches_segment matches_digits elem_text ◌=t◌ join
    validate_resource validate_all split
granted = refl

calm : granted_world.faults ≡ []
unfolding grant token_record command run_under coop_tokens_key sorted_set insert_name prefix
    prefix_parts validate_segment valid_text matches_segment matches_digits elem_text ◌=t◌ join
    validate_resource validate_all split
calm = refl

id_valid : is_token_id mint.token_id ≡ true
unfolding is_token_id
id_valid = refl

secret_valid : is_secret mint.secret ≡ true
unfolding is_secret
secret_valid = refl

record_back :
    json.loads (json.dumps (token_record digest mint (codes "rex") kinds))
    ≡ some (token_record digest mint (codes "rex") kinds)
unfolding token_record sorted_set insert_name get find ◌=t◌
record_back = refl

verify-grant_example :
    (verify memory json digest pod tenant
      (str (token_of mint.token_id mint.secret))
      granted_world).0
    ≡ ok (
        some (record {
          token_id = mint.token_id;
          participant = codes "rex";
          kinds = kind_items (sorted_set kinds);
        }))
verify-grant_example =
    verify-grant memory json digest pod tenant mint (codes "rex") kinds mint.token_id
      (token_of mint.token_id mint.secret) empty granted_world id_valid secret_valid refl
      record_back granted calm

abbrev rex : Granted
rex = record {
  token_id = mint.token_id;
  participant = codes "rex";
  kinds = cons (str (codes "Message")) nil;
}

abbrev bearer : Value
bearer = str (token_of mint.token_id mint.secret)

verified :
    verify memory json digest pod tenant bearer granted_world ≡ (ok (some rex), granted_world)
unfolding verify bearer_parts is_token_id is_secret load digest_in compare_digest get find lookup
    set_field grant token_record command run_under coop_tokens_key sorted_set insert_name prefix
    prefix_parts validate_segment valid_text matches_segment matches_digits elem_text ◌=t◌ join
    validate_resource validate_all split
verified = refl

verify-IsGranted_example :
    (secret : Text) × (bearer_parts bearer ≡ some (rex.token_id, secret))
    × (granted_world.db ≡ granted_world.db)
    × IsGranted memory json digest pod tenant granted_world.db secret rex
verify-IsGranted_example =
    verify-IsGranted memory json digest pod tenant bearer rex granted_world granted_world verified

abbrev revoked_world : World memory.Db
revoked_world =
    (revoke memory json digest pod tenant Value.null (str mint.token_id) granted_world).1

was_revoked :
    revoke memory json digest pod tenant Value.null (str mint.token_id) granted_world
    ≡ (ok true, revoked_world)
unfolding revoke is_token_id load put_field get find lookup set_field grant token_record command
    run_under coop_tokens_key sorted_set insert_name prefix prefix_parts validate_segment valid_text
    matches_segment matches_digits elem_text ◌=t◌ join validate_resource validate_all split
was_revoked = refl

-- The bearer of the secret is told so.
told : (diagnose memory json digest pod tenant bearer revoked_world).0 ≡ ok revoked
unfolding diagnose revoke bearer_parts is_token_id is_secret load digest_in compare_digest put_field
    get find lookup set_field grant token_record command run_under coop_tokens_key sorted_set
    insert_name prefix prefix_parts validate_segment valid_text matches_segment matches_digits
    elem_text ◌=t◌ join validate_resource validate_all split
told = refl

parts : bearer_parts bearer ≡ some (mint.token_id, mint.secret)
unfolding bearer_parts is_token_id is_secret ◌=t◌ split join
parts = refl

dict_eq : {a b : Fields} → some (dict a) ≡ some (dict b) → a ≡ b
dict_eq h = cc h

back :
    (s : Text) (fields : Fields)
    → json.loads s ≡ some (dict fields)
    → json.loads (json.dumps (revoked_record memory json digest pod tenant Value.null fields))
      ≡ some (revoked_record memory json digest pod tenant Value.null fields)
unfolding put_field get find ◌=t◌
back s fields h = elim (Bool-cases (s =t codes "{1}")) [
  | inl e ↦ rw (← (dict_eq (rw e at h))) refl
  | inr e ↦ elim (Bool-cases (s =t codes "{2}")) [
    | inl f ↦ rw (← (dict_eq (rw (e, f) at h))) refl
    | inr f ↦ absurd (cc (rw (e, f) at h))
  ]
]

verify-revoke_example :
    verify memory json digest pod tenant bearer revoked_world ≢ (ok (some rex), revoked_world)
verify-revoke_example =
    verify-revoke memory json digest pod tenant Value.null mint.token_id mint.secret bearer rex
      granted_world revoked_world revoked_world back parts was_revoked
