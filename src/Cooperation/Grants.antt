-- ===== src/Cooperation/Grants.antt =====
-- A token that was granted is verified.
use h_mesh.Errors.{ok_eq}
use h_mesh.Errors.{ok_eq}
use h_mesh.Base.{
  arith, ◌≡◌, refl, sym, ap, subst, ◌∙◌, true, not, some, List, [], ◌∷◌, all, is_ascii, Text, ◌=t◌,
  =t-self, &&_true, lacks, split-join,
}
use h_mesh.Errors.{ok}
use h_mesh.Keys.Named.{coop_tokens_key}
use h_mesh.Envelope.Values.{Value, Fields, str, dict, find, get}
use h_mesh.Envelope.Frames.{Json}
use h_mesh.Redis.{Redis}
use h_mesh.Redis.World.{World, andthen_elim, lift_elim, command_calm}
use h_mesh.Registry.{lookup}
use h_mesh.Cooperation.{
  load, compare_digest, bearer_parts, digest_in, judged, verify, store_record, is_token_id,
}
use h_mesh.Cooperation.Records.{}
use h_mesh.Base.{length, ◌==◌, is_hex, all_mono}
use h_mesh.Errors.{require, value_error}
use h_mesh.Cooperation.{
  Mint, grant, token_record, token_of, token_prefix, kind_items, is_secret, is_url_safe,
  or_value_error, are_allowed, reserved_participants,
}
use h_mesh.Keys.{validate_segment}
use h_mesh.Base.{elem_text}
use h_mesh.Receipts.{sorted_set}
use h_mesh.Cooperation.Revoked.{IsStored, stored_after}

hex_no_dot : (s : Text) → all is_hex s ≡ true → lacks b'.' s ≡ true
hex_no_dot s h = all_mono is_hex (λ c. not (c == b'.')) s (λ c digit. ground arith) h

url_no_dot : (s : Text) → all is_url_safe s ≡ true → lacks b'.' s ≡ true
url_no_dot s h = all_mono is_url_safe (λ c. not (c == b'.')) s (λ c safe. ground arith) h

bearer_parts-token_of :
    (id secret : Text)
    → is_token_id id ≡ true
    → is_secret secret ≡ true
    → bearer_parts (str (token_of id secret)) ≡ some (id, secret)
unfolding bearer_parts is_token_id is_secret ◌=t◌
bearer_parts-token_of id secret h k =
    let apart : all (lacks b'.') (token_prefix ∷ id ∷ secret ∷ []) ≡ true =
      rw
        (
          hex_no_dot id (&&_true (length id == 16) (all is_hex id) h).1,
          url_no_dot secret (&&_true (length secret == 43) (all is_url_safe secret) k).1,
        )
        refl in
    rw (split-join b'.' token_prefix (id ∷ secret ∷ []) apart, h, k) refl

module _ (R : Redis) (json : Json) (digest : Text → Text) (pod tenant : Text) where
  grant-IsStored :
      (mint : Mint) (participant : Text) (kinds : List Text) (id token : Text) (w v : World R.Db)
      → grant R json digest pod tenant mint participant kinds w ≡ (ok (id, token), v)
      → (id ≡ mint.token_id)
        × (token ≡ token_of mint.token_id mint.secret)
        × IsStored R json digest pod tenant v.db mint.token_id
            (token_record digest mint participant kinds)
  unfolding grant
  grant-IsStored mint participant kinds id token w v h =
      lift_elim (or_value_error (validate_segment (some participant))) _ h λ a ha h1.
        lift_elim (require (not (elem_text participant reserved_participants)) value_error) _ h1
          λ b hb h2. lift_elim (require (are_allowed kinds) value_error) _ h2 λ c hc h3.
            lift_elim (coop_tokens_key pod tenant) _ h3 λ key hk h4.
              andthen_elim
                (store_record R json digest pod tenant key mint.token_id
                  (token_record digest mint participant kinds))
                _ h4
                λ e u stored rest.
                  let pair = ok_eq (ap (λ p. p.0) rest) in
                  let same : u ≡ v = ap (λ p. p.1) rest in
                  (
                    sym (ap (λ p. p.0) pair),
                    sym (ap (λ p. p.1) pair),
                    (
                      key,
                      hk,
                      subst
                          (λ x.
                            lookup mint.token_id (R.entries x.db key)
                            ≡ some (json.dumps (token_record digest mint participant kinds)))
                          same
                          (stored_after R json digest pod tenant key mint.token_id
                            (token_record digest mint participant kinds) w stored),
                    ),
                  )

  verify_calm :
      (bearer : Value) (id secret raw : Text) (fields : Fields) (key : Text) (w : World R.Db)
      → w.faults ≡ []
      → bearer_parts bearer ≡ some (id, secret)
      → coop_tokens_key pod tenant ≡ ok key
      → lookup id (R.entries w.db key) ≡ some raw
      → json.loads raw ≡ some (dict fields)
      → (verify R json digest pod tenant bearer w).0
        ≡ judged digest id secret (some fields) (digest_in (some fields))
  unfolding verify load
  verify_calm bearer id secret raw fields key w calm parts hk held read =
      rw (parts, hk, command_calm (λ d. (lookup id (R.entries d key), d)) w calm, held, read) refl

  -- Where the fresh texts have their documented form, the digest is ASCII and json reads the record that it
  -- wrote: a token that was granted is verified, before any other write and without faults, as exactly the
  -- participant and the kinds of the grant.
  pub verify-grant :
      (mint : Mint) (participant : Text) (kinds : List Text) (id token : Text) (w v : World R.Db)
      → is_token_id mint.token_id ≡ true
      → is_secret mint.secret ≡ true
      → all is_ascii (digest mint.secret) ≡ true
      → json.loads (json.dumps (token_record digest mint participant kinds))
        ≡ some (token_record digest mint participant kinds)
      → grant R json digest pod tenant mint participant kinds w ≡ (ok (id, token), v)
      → v.faults ≡ []
      → (verify R json digest pod tenant (str token) v).0
        ≡ ok (
            some (record {
              token_id = id;
              participant = participant;
              kinds = kind_items (sorted_set kinds);
            }))
  unfolding token_record digest_in compare_digest get find ◌=t◌
  verify-grant mint participant kinds id token w v valid secret ascii back granted calm =
      let (id_is, token_is, (key, hk, held)) =
        grant-IsStored mint participant kinds id token w v granted in
      rw (token_is, id_is)
        (◌∙◌
          (verify_calm (str (token_of mint.token_id mint.secret)) mint.token_id mint.secret _ _ key
            v calm (bearer_parts-token_of mint.token_id mint.secret valid secret) hk held back)
          (rw (ascii, =t-self (digest mint.secret)) refl))
