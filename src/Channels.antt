-- ===== src/Channels.antt =====
-- h-app/core/channels.py: send, and the count of unanswered messages that it keeps. The script's
-- cjson is the parameter `Lua`.
pub mod Custody
pub mod Receive
pub mod Places
pub mod Moves
pub mod Transfers
pub mod Still
pub mod Progress
pub mod Claims
pub mod Opening
pub mod Claiming
pub mod Draining
pub mod Receiving
pub mod Outcomes
mod Tests
use h_mesh.Base.{
  ℕ, zero, suc, ◌+◌, Bool, true, false, not, ◌&&◌, Option, none, some, List, [], ◌∷◌, if◌then◌else◌,
  Text, codes, ◌=t◌, elem_text, before,
}
use h_mesh.Errors.{Exc, Result, ok, raise, ◌>>=◌}
use h_mesh.Keys.{agent_key}
use h_mesh.Envelope.Values.{ℤ, pos, negsuc, Value, Fields, str, dict, get}
use h_mesh.Envelope.Checks.{resolve_source, resolve_destination}
use h_mesh.Envelope.Header.{Raw, text}
use h_mesh.Envelope.Frames.{Json, Fresh, build, encode}
use h_mesh.Redis.{Redis}
use h_mesh.Redis.World.{World, Action, andthen, lift, returns, catching, command}
use h_mesh.Registry.{lookup, port_type, is_interoffice}
use h_mesh.Policy.{require_allowed}

-- cjson.decode (`none` where it raises), tonumber, and cjson.encode of {count, since}.
pub record Lua : Type 0 where
  pub decode : Text → Option Value
  pub number : Value → Option ℤ
  pub encode_count : ℤ → Text → Text

-- What one call of send is told by uuid4 and the clock, and the time that a count is opened at.
pub record Moment : Type 0 where
  pub fresh : Fresh
  pub since : Text

-- HSET and HDEL of one field
unfoldable pub set_field : Text → Text → List (Text × Text) → List (Text × Text)
set_field k v [] = (k, v) ∷ []
set_field k v ((j, u) ∷ ps) =
    let rest = set_field k v ps in if j =t k then (k, v) ∷ ps else (j, u) ∷ rest

unfoldable pub drop_field : Text → List (Text × Text) → List (Text × Text)
drop_field k [] = []
drop_field k ((j, u) ∷ ps) = let rest = drop_field k ps in if j =t k then rest else (j, u) ∷ rest

abbrev pub next : ℤ → ℤ
next (pos n) = pos (suc n)
next (negsuc zero) = pos 0
next (negsuc (suc n)) = negsuc n

abbrev pub counted : Text → Option ℤ → Value → ℤ × Text
counted now (some n) (str (c ∷ s)) = (next n, if before (c ∷ s) now then c ∷ s else now)
counted now n since = (pos 1, now)

-- The count and its start after one more message at `now`.
unfoldable pub next_count : Lua → Text → Option Text → ℤ × Text
next_count lua now none = (pos 1, now)
next_count lua now (some existing) = elim (lua.decode existing) [
  | some (dict data') ↦
      counted now (lua.number (get (codes "count") data')) (get (codes "since") data')
  | _ ↦ (pos 1, now)
]

abbrev pub is_type : Text → Option Text → Bool
is_type t none = false
is_type t (some u) = u =t t

-- except Exception: pass
abbrev pub swallow : {Db : Type 0} → Exc → Action Db (Unit {0})
swallow e = returns tt

module _ (R : Redis) (json : Json) (lua : Lua) (pod tenant : Text) where
  unfoldable pub increment_script : Text → Text → Text → R.Db → (Unit {0}) × R.Db
  increment_script key client now d =
      let (count, since) = next_count lua now (lookup client (R.entries d key)) in
      (tt, R.put_entries d key (set_field client (lua.encode_count count since) (R.entries d key)))

  abbrev pub increment_unreplied : Text → Text → Text → Action R.Db (Unit {0})
  increment_unreplied agent client now =
      andthen (lift (agent_key pod tenant agent (codes "unreplied")))
        λ key. command (increment_script key client now)

  abbrev pub clear_unreplied : Text → Text → Action R.Db (Unit {0})
  clear_unreplied agent client =
      andthen (lift (agent_key pod tenant agent (codes "unreplied")))
        λ key. command λ d. (tt, R.put_entries d key (drop_field client (R.entries d key)))

  abbrev pub open_count : Text → Text → Text → Action R.Db (Unit {0})
  open_count now source destination =
      andthen (is_interoffice R pod tenant json source) λ interoffice.
        if interoffice then returns tt else increment_unreplied destination source now

  abbrev pub track_types :
      Text → Text → Text → Text → Option Text → Option Text → Action R.Db (Unit {0})
  track_types now source destination kind source_type destination_type =
      if is_type (codes "api") source_type
        && is_type (codes "tmux") destination_type
        && elem_text kind (codes "Message" ∷ codes "Attachment" ∷ [])
      then open_count now source destination
      else if is_type (codes "tmux") source_type && is_type (codes "api") destination_type
      then clear_unreplied source destination
      else returns tt

  unfoldable pub track_unreplied : Text → Text → Text → Text → Action R.Db (Unit {0})
  track_unreplied now source destination kind =
      let types : Action R.Db (Unit {0}) = andthen (port_type R pod tenant source) λ source_type.
        andthen (port_type R pod tenant destination) λ destination_type.
          track_types now source destination kind source_type destination_type in
      if destination =t codes "all" then returns tt else types

  abbrev pub check_policy : Text → Text → Action R.Db (Unit {0})
  check_policy source destination =
      if destination =t codes "all"
      then returns tt
      else require_allowed R json pod tenant source destination

  unfoldable pub send :
      Moment → Text → Text → Fields → Text → Option Text → Option Text → Action R.Db Text
  send moment source destination payload kind correlation_id in_reply_to =
      andthen (lift (resolve_source pod tenant source)) λ local_source.
        andthen (lift (resolve_destination pod tenant destination)) λ local_destination.
          andthen (check_policy local_source.1 local_destination.1) λ _.
            andthen
              (lift (
                build moment.fresh kind source destination payload correlation_id pod tenant
                  in_reply_to))
              λ envelope.
                andthen (lift (agent_key pod tenant source (codes "egress"))) λ egress_key.
                  andthen (lift (encode json (dict envelope))) λ raw.
                    andthen (command λ d. (tt {0}, R.rpush d egress_key (text raw))) λ _.
                      andthen
                        (catching
                          (track_unreplied moment.since local_source.1 local_destination.1 kind)
                          swallow)
                        λ _. returns moment.fresh.stream_id
