-- ===== src/Cooperation/Verified.antt =====
-- Whom a bearer stands for.
use h_mesh.Base.{◌≡◌, refl, sym, ap, ◌∙◌, false, Option, none, some, Text, codes}
use h_mesh.Errors.{ok_eq, ok}
use h_mesh.Keys.Named.{coop_tokens_key}
use h_mesh.Envelope.Values.{Value, Fields, str, dict, array, boolean, get}
use h_mesh.Envelope.Frames.{Json}
use h_mesh.Redis.{Redis}
use h_mesh.Redis.World.{World, command, andthen_elim, lift_elim, command_ok}
use h_mesh.Registry.{lookup}
use h_mesh.Cooperation.{Granted, load, bearer_parts, digest_in, stored_record, verify_parts, verify}
use h_mesh.Cooperation.Records.{object_of-some, judged-some}

module _ (R : Redis) (json : Json) (digest : Text → Text) (pod tenant : Text) where
  -- The database holds a record for the id, with the digest of the secret, that is not revoked and names
  -- the participant and the kinds.
  abbrev pub IsGranted : R.Db → Text → Granted → Type 0
  IsGranted d secret g =
      (key : Text) × (raw : Text) × (fields : Fields) × (coop_tokens_key pod tenant ≡ ok key)
      × (lookup g.token_id (R.entries d key) ≡ some raw)
      × (json.loads raw ≡ some (dict fields))
      × (get (codes "sha256") fields ≡ str (digest secret))
      × (get (codes "revoked") fields ≡ boolean false)
      × (get (codes "participant") fields ≡ str g.participant)
      × (get (codes "kinds") fields ≡ array g.kinds)

  pub load-some :
      (raw : Option Text) (fields : Fields)
      → load json.loads raw ≡ some fields
      → (s : Text) × (raw ≡ some s) × (json.loads s ≡ some (dict fields))
  unfolding load
  load-some none fields h = absurd (cc h)
  load-some (some s) fields h = (s, refl, object_of-some (json.loads s) fields h)

  verify_parts-IsGranted :
      (o : Option (Text × Text)) (g : Granted) (w v : World R.Db)
      → verify_parts R json digest pod tenant o w ≡ (ok (some g), v)
      → (secret : Text) × (o ≡ some (g.token_id, secret)) × (v.db ≡ w.db) × IsGranted v.db secret g
  verify_parts-IsGranted none g w v h = absurd (cc h)
  verify_parts-IsGranted (some (id, secret)) g w v h =
      andthen_elim (stored_record R json digest pod tenant id) _ h λ stored u read rest.
        lift_elim (coop_tokens_key pod tenant) _ read λ key hk read1.
          andthen_elim (command (λ d. (lookup id (R.entries d key), d))) _ read1 λ raw x ran loaded.
            let (run, _) = command_ok (λ d. (lookup id (R.entries d key), d)) w ran in
            let found : lookup id (R.entries w.db key) ≡ raw = ap (λ p. p.0) run in
            let kept : v.db ≡ w.db =
              ◌∙◌ (sym (ap (λ p. p.1.db) rest))
                (◌∙◌ (sym (ap (λ p. p.1.db) loaded)) (sym (ap (λ p. p.1) run))) in
            let is : load json.loads raw ≡ stored = ok_eq (ap (λ p. p.0) loaded) in
            let (fields, there, sha, revoked, participant, kinds, named) =
              judged-some digest id secret g stored (digest_in stored) refl (ap (λ p. p.0) rest) in
            let (s, raw_is, parsed) = load-some raw fields (◌∙◌ is there) in
            let held : lookup g.token_id (R.entries v.db key) ≡ some s =
              ◌∙◌ (ap (λ n. lookup n (R.entries v.db key)) (sym named))
                (◌∙◌ (ap (λ d. lookup id (R.entries d key)) kept) (◌∙◌ found raw_is)) in
            (
              secret,
              ap (λ n. some (n, secret)) named,
              kept,
              (key, s, fields, hk, held, parsed, sha, revoked, participant, kinds),
            )

  -- A bearer that is verified, under any faults: its text has the id of a record and a secret whose digest
  -- that record holds, and the record is not revoked and names what is returned; verifying writes nothing.
  pub verify-IsGranted :
      (bearer : Value) (g : Granted) (w v : World R.Db)
      → verify R json digest pod tenant bearer w ≡ (ok (some g), v)
      → (secret : Text) × (bearer_parts bearer ≡ some (g.token_id, secret))
        × (v.db ≡ w.db)
        × IsGranted v.db secret g
  unfolding verify
  verify-IsGranted bearer g w v h = verify_parts-IsGranted (bearer_parts bearer) g w v h
