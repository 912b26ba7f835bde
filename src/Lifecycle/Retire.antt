-- ===== src/Lifecycle/Retire.antt =====
-- h-app/lib/agentlifecycle/lifecycle.py: the script that retires an agent. Its frames and the entries of
-- its inbox become records of the tenant, and its own keys are deleted. cjson.encode is a parameter.
use h_mesh.Base.{
  ℕ, ◌+◌, ◌/◌, ◌%◌, Bool, true, false, ◌&&◌, List, [], ◌∷◌, ◌++◌, length, if◌then◌else◌, ltb, Text,
  codes, encode_utf8,
}
use h_mesh.Errors.{Result, ok, ◌>>=◌}
use h_mesh.Keys.{agent_key, tenant_key}
use h_mesh.Keys.Named.{
  receive_processing_key, receive_opening_key, receive_undeliverable_key, receive_unresolved_key,
  retired_inbox_key,
}
use h_mesh.Envelope.Values.{Value, Items, nil, cons, str, dict, array, field, end}
use h_mesh.Envelope.Header.{Raw, text, bytes}
use h_mesh.Redis.{Redis}
use h_mesh.Registry.{lookup}
use h_mesh.Channels.{drop_field, is_type}

-- string.format('%02x', byte) for each byte
abbrev pub hex_digit : ℕ → ℕ
hex_digit n = if ltb n 10 then 48 + n else 87 + n

unfoldable pub hex : List ℕ → Text
hex [] = []
hex (b ∷ bs) = hex_digit (b / 16) ∷ hex_digit (b % 16) ∷ hex bs

-- The bytes that Redis keeps of an entry
abbrev pub bytes_of : Raw → List ℕ
bytes_of (text s) = encode_utf8 s
bytes_of (bytes s) = s

unfoldable pub retired_record : Text → Text → Raw → Value
retired_record agent reason raw = dict (
    field (codes "agent") (str agent) (
      field (codes "reason") (str reason) (
        field (codes "encoding") (str (codes "hex"))
          (field (codes "envelope") (str (hex (bytes_of raw))) end))))

unfoldable pub frame_records : (Value → Text) → Text → Text → List Raw → List Raw
frame_records encode agent reason [] = []
frame_records encode agent reason (raw ∷ rest) =
    text (encode (retired_record agent reason raw)) ∷ frame_records encode agent reason rest

abbrev pub hex_fields : List (Text × Text) → Items
hex_fields [] = nil
hex_fields ((name, value) ∷ rest) =
    cons (array (cons (str (hex (encode_utf8 name))) (cons (str (hex (encode_utf8 value))) nil)))
      (hex_fields rest)

unfoldable pub inbox_record : Text → Text → Text → List (Text × Text) → Value
inbox_record agent reason entry_id fields = dict (
    field (codes "agent") (str agent) (
      field (codes "reason") (str reason) (
        field (codes "entry_id") (str entry_id) (
          field (codes "encoding") (str (codes "hex"))
            (field (codes "fields") (array (hex_fields fields)) end)))))

unfoldable pub inbox_records :
    (Value → Text) → Text → Text → List (Text × List (Text × Text)) → List Raw
inbox_records encode agent reason [] = []
inbox_records encode agent reason ((entry_id, fields) ∷ rest) =
    text (encode (inbox_record agent reason entry_id fields))
    ∷ inbox_records encode agent reason rest

abbrev pub unopened : Text
unopened = codes "destination retired before opening"

abbrev pub unknown_outcome : Text
unknown_outcome = codes "opener outcome unknown when destination retired"

abbrev pub inbox_reason : Bool → Text
inbox_reason true = codes "destination retired with unread inbox content"
inbox_reason false = codes "destination retired with unread inbox content for a non-api port type"

-- The keys of the script; `disposable` are those that are deleted and not read.
pub record RetireKeys : Type 0 where
  pub registry : Text
  pub lead : Text
  pub processing : Text
  pub opening : Text
  pub ingress : Text
  pub inbox : Text
  pub undeliverable : Text
  pub unresolved : Text
  pub retired_inbox : Text
  pub disposable : List Text

unfoldable pub agent_keys : Text → Text → Text → List Text → Result (List Text)
agent_keys pod tenant agent [] = ok []
agent_keys pod tenant agent (resource ∷ resources) = do
  key ← agent_key pod tenant agent resource
  keys ← agent_keys pod tenant agent resources
  ok (key ∷ keys)

abbrev pub disposable_resources : List Text
disposable_resources =
    codes "paused"
    ∷ codes "delivering"
    ∷ codes "launch"
    ∷ codes "profile"
    ∷ codes "provider"
    ∷ codes "resume"
    ∷ codes "skip-permissions"
    ∷ codes "claude-tools"
    ∷ codes "tags"
    ∷ codes "hmac-keys"
    ∷ codes "window.cause"
    ∷ codes "incarnation"
    ∷ []

unfoldable pub retire_keys : Text → Text → Text → Result RetireKeys
retire_keys pod tenant agent = do
  registry ← tenant_key pod tenant (codes "registry")
  lead ← tenant_key pod tenant (codes "lead")
  processing ← receive_processing_key pod tenant agent
  opening ← receive_opening_key pod tenant agent
  ingress ← agent_key pod tenant agent (codes "ingress")
  disposable ← agent_keys pod tenant agent disposable_resources
  undeliverable ← receive_undeliverable_key pod tenant
  unresolved ← receive_unresolved_key pod tenant
  inbox ← agent_key pod tenant agent (codes "inbox")
  retired_inbox ← retired_inbox_key pod tenant
  ok (record {
    registry = registry;
    lead = lead;
    processing = processing;
    opening = opening;
    ingress = ingress;
    inbox = inbox;
    undeliverable = undeliverable;
    unresolved = unresolved;
    retired_inbox = retired_inbox;
    disposable = disposable;
  })

-- What the script returns: an error, or how many of each were kept
pub data Retired : Type 0 where
  wrong_type : Retired
  retired : ℕ → ℕ → ℕ → ℕ → Retired

module _ (R : Redis) where
  unfoldable pub push_records : R.Db → Text → List Raw → R.Db
  push_records d key [] = d
  push_records d key (r ∷ rs) = push_records (R.rpush d key r) key rs

  unfoldable pub delete_each : R.Db → List Text → R.Db
  delete_each d [] = d
  delete_each d (key ∷ keys) = delete_each (R.delete d key) keys

  module _ (encode : Value → Text) (agent : Text) (k : RetireKeys) where
    unfoldable pub has_types : R.Db → Bool
    has_types d =
        R.list_or_none d k.processing
        && R.list_or_none d k.opening
        && R.list_or_none d k.ingress
        && R.list_or_none d k.undeliverable
        && R.list_or_none d k.unresolved
        && R.stream_or_none d k.inbox
        && R.list_or_none d k.retired_inbox

    abbrev pub undeliverable_records : R.Db → List Raw
    undeliverable_records d =
        frame_records encode agent unopened (R.items d k.processing)
        ++ frame_records encode agent unopened (R.items d k.ingress)

    abbrev pub unresolved_records : R.Db → List Raw
    unresolved_records d = frame_records encode agent unknown_outcome (R.items d k.opening)

    abbrev pub retired_inbox_records : R.Db → List Raw
    retired_inbox_records d =
        inbox_records encode agent
          (inbox_reason (is_type (codes "api") (lookup agent (R.entries d k.registry))))
          (R.stream d k.inbox)

    -- HDEL, and DEL of the lead if it is the agent
    abbrev pub dismissed : R.Db → R.Db
    dismissed d =
        let d1 = R.put_entries d k.registry (drop_field agent (R.entries d k.registry)) in
        if is_type agent (R.value d k.lead) then R.delete d1 k.lead else d1

    abbrev pub surrendered : R.Db → R.Db
    surrendered d =
        let d1 = push_records (dismissed d) k.undeliverable (undeliverable_records d) in
        let d2 = push_records d1 k.unresolved (unresolved_records d) in
        let d3 = push_records d2 k.retired_inbox (retired_inbox_records d) in
        delete_each d3 (k.inbox ∷ k.processing ∷ k.opening ∷ k.ingress ∷ k.disposable)

    unfoldable pub remove_script : R.Db → Retired × R.Db
    remove_script d =
        if has_types d
        then (
          retired (length (R.items d k.processing)) (length (R.items d k.ingress))
              (length (R.items d k.opening)) (length (R.stream d k.inbox)),
          surrendered d,
        )
        else (wrong_type, d)
