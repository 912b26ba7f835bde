-- ===== src/Switch/Steps.antt =====
-- h-app/core/service.py: one step of the switch, which pops a frame and routes it, and the restart of
-- deliveries that nobody runs. Waiting is left out: BLPOP answers at once.
use h_mesh.Base.{
  ℕ, zero, suc, ◌+◌, ◌%◌, Bool, false, Option, none, some, List, [], ◌∷◌, ◌++◌, length, take, drop,
  split, Text, codes,
}
use h_mesh.Errors.{envelope_error, index_error, Result, ok, raise, ◌>>=◌, or_raise}
use h_mesh.Keys.{agent_key}
use h_mesh.Keys.Named.{delivery_lock_key}
use h_mesh.Envelope.Values.{Fields, end}
use h_mesh.Envelope.Header.{Raw, Header, parse_for_switch}
use h_mesh.Envelope.Frames.{Json, Fresh, header_fields}
use h_mesh.Redis.{Redis}
use h_mesh.Redis.World.{World, Action, andthen, lift, returns, command}
use h_mesh.Registry.{members, member_types}
use h_mesh.Receipts.{sorted_set}
use h_mesh.Switch.Forward.{Settings, kick, or_none, sort, route}

-- agents[offset:] + agents[:offset]
unfoldable pub rotate : ℕ → List Text → List Text
rotate offset agents = drop offset agents ++ take offset agents

-- split(":")[-2]
unfoldable pub second_last : List Text → Option Text
second_last [] = none
second_last (x ∷ []) = none
second_last (x ∷ y ∷ []) = some x
second_last (x ∷ y ∷ z ∷ rest) = second_last (y ∷ z ∷ rest)

unfoldable pub sender_of : Text → Result Text
sender_of key = or_raise (second_last (split 58 key)) index_error

unfoldable pub egress_keys : Text → Text → List Text → Result (List Text)
egress_keys pod tenant [] = ok []
egress_keys pod tenant (agent ∷ agents) = do
  key ← agent_key pod tenant agent (codes "egress")
  keys ← egress_keys pod tenant agents
  ok (key ∷ keys)

-- The envelope of a restart: empty where the head has no header
abbrev pub fields_or_empty : Result Header → Result Fields
fields_or_empty (ok header) = ok (header_fields header)
fields_or_empty (raise (envelope_error reason)) = ok end
fields_or_empty (raise e) = raise e

module _ (R : Redis) where
  abbrev pub pop_from :
      Text → List Raw → Option (Text × Raw) × R.Db → R.Db → Option (Text × Raw) × R.Db
  pop_from key [] others d = others
  pop_from key (raw ∷ rest) others d = (some (key, raw), R.lpop d key)

  -- BLPOP: the first key whose list is not empty
  unfoldable pub pop_first : List Text → R.Db → Option (Text × Raw) × R.Db
  pop_first [] d = (none, d)
  pop_first (key ∷ keys) d = pop_from key (R.items d key) (pop_first keys d) d

module _ (R : Redis) (settings : Settings) (json : Json) (fresh : Fresh) where
  abbrev pub route_popped : Option (Text × Raw) → Action R.Db Bool
  route_popped none = returns false
  route_popped (some (key, raw)) =
      andthen (lift (sender_of key)) λ sender. route R settings json fresh sender raw

  unfoldable pub pop_and_route : List Text → Action R.Db Bool
  pop_and_route agents =
      andthen (lift (egress_keys settings.pod settings.tenant agents))
        λ keys. andthen (command (pop_first R keys)) route_popped

  -- The offset of the next step is set before anything is popped.
  abbrev pub step_over : ℕ → List Text → World R.Db → Result Bool × ℕ × World R.Db
  step_over offset [] w = (ok false, offset, w)
  step_over offset (a ∷ agents) w =
      let start = offset % length (a ∷ agents) in
      let (result, v) = pop_and_route (rotate start (a ∷ agents)) w in
      (result, (start + 1) % length (a ∷ agents), v)

  abbrev pub step_after : ℕ → Result (List Text) × World R.Db → Result Bool × ℕ × World R.Db
  step_after offset (raise e, w) = (raise e, offset, w)
  step_after offset (ok agents, w) = step_over offset (sorted_set agents) w

  unfoldable pub step : ℕ → World R.Db → Result Bool × ℕ × World R.Db
  step offset w = step_after offset (members R settings.pod settings.tenant w)

module _ (R : Redis) (settings : Settings) where
  abbrev pub restart : Text → Text → Option Raw → Action R.Db (Unit {0})
  restart agent port_type none = returns tt
  restart agent port_type (some raw) =
      andthen (lift (fields_or_empty (parse_for_switch raw)))
        λ envelope. andthen (kick R settings agent (or_none port_type) envelope) λ _. returns tt

  abbrev pub first_of : List Raw → Option Raw
  first_of [] = none
  first_of (raw ∷ rest) = some raw

  -- if self.r.get(lock) is not None: continue
  abbrev pub unleased : Text → Text → Text → Option Text → Action R.Db (Unit {0})
  unleased agent port_type key (some token) = returns tt
  unleased agent port_type key none =
      andthen (command λ d. (first_of (R.items d key), d)) (restart agent port_type)

  abbrev pub waiting : Text → Text → Text → ℕ → Action R.Db (Unit {0})
  waiting agent port_type key zero = returns tt
  waiting agent port_type key (suc n) =
      andthen (lift (delivery_lock_key settings.pod settings.tenant agent))
        λ lock. andthen (command λ d. (R.value d lock, d)) (unleased agent port_type key)

  abbrev pub unpaused : Text → Text → Option Text → Action R.Db (Unit {0})
  unpaused agent port_type (some mark) = returns tt
  unpaused agent port_type none =
      andthen (lift (agent_key settings.pod settings.tenant agent (codes "ingress")))
        λ key. andthen (command λ d. (length (R.items d key), d)) (waiting agent port_type key)

  unfoldable pub reconcile_each : List (Text × Text) → Action R.Db (Unit {0})
  reconcile_each [] = returns tt
  reconcile_each ((agent, port_type) ∷ rest) =
      let later = reconcile_each rest in
      andthen (lift (agent_key settings.pod settings.tenant agent (codes "paused"))) λ key.
        andthen (command λ d. (R.value d key, d))
          λ paused. andthen (unpaused agent port_type paused) λ _. later

  unfoldable pub reconcile_ingress : Action R.Db (Unit {0})
  reconcile_ingress =
      andthen (member_types R settings.pod settings.tenant) λ types. reconcile_each (sort types)
