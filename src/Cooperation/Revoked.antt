-- ===== src/Cooperation/Revoked.antt =====
-- What a grant and a revocation make of the tokens that are verified after them.
use h_mesh.Base.{
  ◌≡◌, ◌≢◌, refl, sym, ap, subst, ◌∙◌, inl, inr, true, Option, none, some, Text, codes, ◌=t◌,
  =t-self, Bool-cases,
}
use h_mesh.Errors.{ok_eq, ok}
use h_mesh.Keys.Named.{coop_tokens_key}
use h_mesh.Envelope.Values.{Value, Fields, str, dict, boolean, get}
use h_mesh.Envelope.Frames.{Json}
use h_mesh.Redis.{Redis}
use h_mesh.Redis.World.{World, command, andthen_elim, lift_elim, command_ok}
use h_mesh.Registry.{lookup}
use h_mesh.Channels.{set_field}
use h_mesh.Cooperation.{
  Granted, load, put_field, is_boolean, bearer_parts, verify, revoke, revoke_stored, revoked_record,
  store_record, is_token_id,
}
use h_mesh.Cooperation.Records.{lookup-set_field, get-put_field, get-put_field_other}
use h_mesh.Cooperation.Verified.{load-some, verify-IsGranted}

abbrev first_or : Text → Option (Text × Text) → Text
first_or id none = id
first_or id (some (a, b)) = a

module _ (R : Redis) (json : Json) (digest : Text → Text) (pod tenant : Text) where
  -- The database keeps this text for the id.
  abbrev pub IsStored : R.Db → Text → Value → Type 0
  IsStored d id stored =
      (key : Text) × (coop_tokens_key pod tenant ≡ ok key)
      × (lookup id (R.entries d key) ≡ some (json.dumps stored))

  pub stored_after :
      (key id : Text) (stored : Value) (w : World R.Db) {v : World R.Db}
      → store_record R json digest pod tenant key id stored w ≡ (ok tt, v)
      → lookup id (R.entries v.db key) ≡ some (json.dumps stored)
  stored_after key id stored w {v} h =
      let (run, _) =
        command_ok
          (λ d. (tt {0}, R.put_entries d key (set_field id (json.dumps stored) (R.entries d key))))
          w h in
      rw
        (
          ← (ap (λ p. p.1) run),
          R.entries-put_entries w.db key (set_field id (json.dumps stored) (R.entries w.db key))
              key,
          =t-self key,
        )
        (lookup-set_field id (json.dumps stored) (R.entries w.db key))

  revoke_stored-IsStored :
      (key : Text) (now : Value) (id : Text) (raw : Option Text) (o : Option Fields)
      (w v : World R.Db)
      → load json.loads raw ≡ o
      → coop_tokens_key pod tenant ≡ ok key
      → revoke_stored R json digest pod tenant key now id o w ≡ (ok true, v)
      → (s : Text) × (fields : Fields) × (json.loads s ≡ some (dict fields))
        × IsStored v.db id (revoked_record R json digest pod tenant now fields)
  revoke_stored-IsStored key now id raw none w v is hk h = absurd (cc h)
  revoke_stored-IsStored key now id raw (some fields) w v is hk h =
      elim (Bool-cases (is_boolean true (get (codes "revoked") fields))) [
        | inl e ↦ absurd (cc (rw e at h))
        | inr e ↦
            andthen_elim
              (store_record R json digest pod tenant key id
                (revoked_record R json digest pod tenant now fields))
              _ (rw e at h)
              λ a u stored rest.
                let same : u ≡ v = cc rest in
                let (s, _, parsed) = load-some R json digest pod tenant raw fields is in
                (
                  s,
                  fields,
                  parsed,
                  (
                    key,
                    hk,
                    subst
                        (λ x.
                          lookup id (R.entries x.db key)
                          ≡ some (json.dumps (revoked_record R json digest pod tenant now fields)))
                        same
                        (stored_after key id (revoked_record R json digest pod tenant now fields) w
                          stored),
                  ),
                )
      ]

  revoke-IsStored :
      (now : Value) (id : Text) (w v : World R.Db)
      → revoke R json digest pod tenant now (str id) w ≡ (ok true, v)
      → (s : Text) × (fields : Fields) × (json.loads s ≡ some (dict fields))
        × IsStored v.db id (revoked_record R json digest pod tenant now fields)
  unfolding revoke
  revoke-IsStored now id w v h = elim (Bool-cases (is_token_id id)) [
    | inl e ↦ lift_elim (coop_tokens_key pod tenant) _ (rw e at h) λ key hk h1.
        andthen_elim (command (λ d. (lookup id (R.entries d key), d))) _ h1 λ raw u read h2.
          revoke_stored-IsStored key now id raw (load json.loads raw) u v refl hk h2
    | inr e ↦ absurd (cc (rw e at h))
  ]

  -- Where json reads back the revoked form of an object that it had read: after a revocation that answered True, under any faults, no
  -- bearer with that id is verified, whatever its secret and the faults.
  pub verify-revoke :
      (now : Value) (id secret : Text) (bearer : Value) (g : Granted) (w v u : World R.Db)
      → ((s : Text) (fields : Fields)
          → json.loads s ≡ some (dict fields)
          → json.loads (json.dumps (revoked_record R json digest pod tenant now fields))
            ≡ some (revoked_record R json digest pod tenant now fields))
      → bearer_parts bearer ≡ some (id, secret)
      → revoke R json digest pod tenant now (str id) w ≡ (ok true, v)
      → verify R json digest pod tenant bearer v ≢ (ok (some g), u)
  unfolding ◌=t◌
  verify-revoke now id secret bearer g w v u back parts revoked' verified =
      let (s, fields, parsed, (key, hk, stored)) = revoke-IsStored now id w v revoked' in
      let (other, named, kept, (key', raw, fields', hk', held, read, _, valid, _, _)) =
        verify-IsGranted R json digest pod tenant bearer g v u verified in
      let marked = put_field (codes "revoked") (boolean true) fields in
      let same : id ≡ g.token_id = ok_eq (ap (λ o. ok (first_or id o)) (◌∙◌ (sym parts) named)) in
      let same_key : key ≡ key' = cc (hk, hk') in
      let found : lookup id (R.entries v.db key) ≡ some raw =
        ◌∙◌ (ap (λ n. lookup n (R.entries v.db key)) same) (
          ◌∙◌ (ap (λ k. lookup g.token_id (R.entries v.db k)) same_key)
            (◌∙◌ (ap (λ d. lookup g.token_id (R.entries d key')) (sym kept)) held)) in
      let raw_is : json.dumps (revoked_record R json digest pod tenant now fields) ≡ raw =
        cc (stored, found) in
      let fields_are : put_field (codes "revoked_ts") now marked ≡ fields' =
        cc (back s fields parsed, ap json.loads raw_is, read) in
      let shown : get (codes "revoked") fields' ≡ boolean true = rw (← fields_are) (
        ◌∙◌ (get-put_field_other (codes "revoked_ts") (codes "revoked") now marked refl)
          (get-put_field (codes "revoked") (boolean true) fields)) in
      cc (shown, valid)
