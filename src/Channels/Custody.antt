-- ===== src/Channels/Custody.antt =====
-- h-app/core/channels.py: the custody lists of an agent, the script that moves a frame from one to
-- another, and the claim of a waiting frame.
use h_mesh.Base.{
  ℕ, ◌-◌, ◌==◌, Bool, false, not, ◌&&◌, ◌||◌, Option, none, some, List, [], ◌∷◌, length, drop,
  if◌then◌else◌, Text, codes, ◌=t◌,
}
use h_mesh.Errors.{redis, response, runtime_error, Result, ok, raise, ◌>>=◌}
use h_mesh.Keys.{agent_key}
use h_mesh.Keys.Named.{
  receive_processing_key, receive_opening_key, receive_opened_key, receive_unresolved_key,
}
use h_mesh.Envelope.Header.{Raw, text, bytes}
use h_mesh.Redis.{Redis}
use h_mesh.Redis.World.{Action, andthen, lift, command}

-- The lists that hold the frames of one agent (`unresolved` is the tenant's).
pub record Custody : Type 0 where
  pub ingress : Text
  pub processing : Text
  pub opening : Text
  pub opened : Text
  pub unresolved : Text
  pub dead : Text

unfoldable pub custody_keys : Text → Text → Text → Result Custody
custody_keys pod tenant agent = do
  ingress ← agent_key pod tenant agent (codes "ingress")
  processing ← receive_processing_key pod tenant agent
  opening ← receive_opening_key pod tenant agent
  opened ← receive_opened_key pod tenant agent
  unresolved ← receive_unresolved_key pod tenant
  dead ← agent_key pod tenant agent (codes "dead")
  ok (record {
    ingress = ingress;
    processing = processing;
    opening = opening;
    opened = opened;
    unresolved = unresolved;
    dead = dead;
  })

-- Equality of list entries: one client returns all of them as bytes or all as text.
unfoldable pub same_raw : Raw → Raw → Bool
same_raw (text s) (text t) = s =t t
same_raw (bytes s) (bytes t) = s =t t
same_raw x y = false

-- LREM key 1 raw: whether an entry is there, and the list without the first one
unfoldable pub holds : Raw → List Raw → Bool
holds raw [] = false
holds raw (x ∷ xs) = same_raw x raw || holds raw xs

unfoldable pub remove_first : Raw → List Raw → List Raw
remove_first raw [] = []
remove_first raw (x ∷ xs) =
    let rest = remove_first raw xs in if same_raw x raw then xs else x ∷ rest

-- LTRIM key -bound -1, for a bound above 0
unfoldable pub trim : ℕ → List Raw → List Raw
trim bound xs = if bound == 0 then xs else drop (length xs - bound) xs

-- The reply of the transfer script: an error, 0 or 1
pub data Moved : Type 0 where
  wrong_type : Moved
  absent : Moved
  moved : Moved

abbrev pub head_of : List Raw → Option Raw
head_of [] = none
head_of (x ∷ xs) = some x

abbrev pub opened_receipt_max : ℕ
opened_receipt_max = 1000

module _ (R : Redis) where
  abbrev pub moved_list : Text → Text → Raw → Raw → ℕ → R.Db → R.Db
  moved_list source destination raw value bound d =
      let d1 = R.put_items d source (remove_first raw (R.items d source)) in
      let d2 = R.rpush d1 destination value in
      if bound == 0 then d2 else R.put_items d2 destination (trim bound (R.items d2 destination))

  unfoldable pub transfer_script : Text → Text → Raw → Raw → ℕ → R.Db → Moved × R.Db
  transfer_script source destination raw value bound d =
      if not (R.list_or_none d source && R.list_or_none d destination)
      then (wrong_type, d)
      else if holds raw (R.items d source)
      then (moved, moved_list source destination raw value bound d)
      else (absent, d)

  abbrev pub moved_reply : Moved → Result (Unit {0})
  moved_reply wrong_type = raise (redis (response (codes "receive custody key is not a list")))
  moved_reply absent = raise runtime_error
  moved_reply moved = ok tt

  unfoldable pub transfer : Text → Text → Raw → Raw → ℕ → Action R.Db (Unit {0})
  transfer source destination raw value bound =
      andthen (command (transfer_script source destination raw value bound))
        λ reply. lift (moved_reply reply)

module _ (R : Redis) (c : Custody) where
  -- LMOVE (and BLMOVE when it returns): the frame that is claimed, if there is one
  abbrev pub claim_from : List Raw → R.Db → Option Raw × R.Db
  claim_from [] d = (none, d)
  claim_from (raw ∷ rest) d = (some raw, R.rpush (R.put_items d c.ingress rest) c.processing raw)

  unfoldable pub claim_script : R.Db → Option Raw × R.Db
  claim_script d = claim_from (R.items d c.ingress) d
