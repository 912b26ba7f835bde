-- ===== src/Health/Passes.antt =====
-- h-app/core/ingress_health.py: the passes of IngressStallMonitor.
use h_mesh.Base.{
  ℕ, Option, none, some, List, [], ◌∷◌, length, if◌then◌else◌, Text, codes, ◌=t◌, elem_text,
}
use h_mesh.Errors.{ok}
use h_mesh.Keys.{agent_key}
use h_mesh.Keys.Named.{delivery_lock_key, ingress_stalled_key}
use h_mesh.Envelope.Header.{Raw, text, bytes, RecordFields, header_record_fields}
use h_mesh.Envelope.Frames.{Json}
use h_mesh.Redis.{Redis}
use h_mesh.Redis.World.{Action, andthen, lift, returns, command}
use h_mesh.Registry.{lookup, names_of}
use h_mesh.Channels.{set_field, drop_field}
use h_mesh.Receipts.{sorted_set}
use h_mesh.Switch.Forward.{sort}
use h_mesh.Health.{
  Pass, then_do, runs, becomes, sighting_of, forget, keep_members, discard, not_members, watching,
  add_stalled, Verdict, fresh, waiting, stuck, decide, since_of, stall_record,
}

-- stall_seconds, the two clocks of one pass, and raw.decode("utf-8", "replace")
pub record Readings : Type 0 where
  pub stall_seconds : ℕ
  pub now : ℕ
  pub stamp : Text
  pub replaced : Text → Text

-- The bytes of a head that has no header identify it.
abbrev pub raw_identity : (Text → Text) → Raw → Text
raw_identity replaced (text s) = s
raw_identity replaced (bytes s) = replaced s

abbrev pub identity_or : Text → Option RecordFields → Text
identity_or s none = s
identity_or s (some fields) = if fields.stream_id =t [] then s else fields.stream_id

unfoldable pub identity_of : (Text → Text) → Raw → Text
identity_of replaced raw = identity_or (raw_identity replaced raw) (header_record_fields raw)

abbrev pub head_identity : (Text → Text) → List Raw → Option Text
head_identity replaced [] = none
head_identity replaced (raw ∷ rest) = some (identity_of replaced raw)

module _ (R : Redis) (json : Json) (pod tenant : Text) (readings : Readings) where
  abbrev pub depth_of : Text → Option Text → Action R.Db (Option (Text × ℕ))
  depth_of key none = returns none
  depth_of key (some identity) = command λ d. (some (identity, length (R.items d key)), d)

  abbrev pub unpaused_head : Text → Option Text → Action R.Db (Option (Text × ℕ))
  unpaused_head agent (some mark) = returns none
  unpaused_head agent none = andthen (lift (agent_key pod tenant agent (codes "ingress"))) λ key.
      andthen (command λ d. (head_identity readings.replaced (R.items d key), d)) (depth_of key)

  unfoldable pub head : Text → Action R.Db (Option (Text × ℕ))
  head agent =
      andthen (lift (agent_key pod tenant agent (codes "paused")))
        λ key. andthen (command λ d. (R.value d key, d)) (unpaused_head agent)

  unfoldable pub clear : Text → Text → Pass R.Db (Unit {0})
  clear key agent =
      then_do
        (runs (command λ d. (tt {0}, R.put_entries d key (drop_field agent (R.entries d key)))))
        λ _. becomes λ s. record s { stalled = discard agent s.stalled }

  unfoldable pub report : Text → Text → Text → Text → ℕ → Pass R.Db (Unit {0})
  report key agent port_type identity depth =
      then_do
        (runs (
          andthen (lift (delivery_lock_key pod tenant agent)) λ lock.
            andthen (command λ d. (R.value d lock, d)) λ lease.
              andthen (command λ d. (lookup agent (R.entries d key), d)) λ existing.
                let entry =
                  stall_record (since_of json readings.stamp existing) depth identity lease
                    port_type in
                command λ d. (
                  tt {0},
                  R.put_entries d key (set_field agent (json.dumps entry) (R.entries d key)),
                )))
        λ _. becomes (add_stalled agent)

  -- if agent in self._stalled: self._clear(…)
  unfoldable pub clear_if : Text → Text → Pass R.Db (Unit {0})
  clear_if key agent s w = if elem_text agent s.stalled then clear key agent s w else (ok tt, s, w)

  abbrev pub on_verdict : Text → Text → Text → Text → ℕ → Verdict → Pass R.Db (Unit {0})
  on_verdict key agent port_type identity depth fresh =
      then_do (becomes (watching agent (record { identity = identity; since = readings.now })))
        λ _. clear_if key agent
  on_verdict key agent port_type identity depth waiting = becomes λ s. s
  on_verdict key agent port_type identity depth stuck = report key agent port_type identity depth

  abbrev pub on_head : Text → Text → Text → Option (Text × ℕ) → Pass R.Db (Unit {0})
  on_head key agent port_type none =
      then_do (becomes λ s. record s { watch = forget agent s.watch }) λ _. clear_if key agent
  on_head key agent port_type (some (identity, depth)) = λ s w.
      on_verdict key agent port_type identity depth
        (decide readings.stall_seconds readings.now identity (sighting_of agent s.watch)) s w

  -- One member of the loop of poll
  unfoldable pub visit : Text → Text → Text → Pass R.Db (Unit {0})
  visit key agent port_type = then_do (runs (head agent)) (on_head key agent port_type)

  unfoldable pub visit_each : Text → List (Text × Text) → Pass R.Db (Unit {0})
  visit_each key [] = becomes λ s. s
  visit_each key ((agent, port_type) ∷ rest) =
      let later = visit_each key rest in then_do (visit key agent port_type) λ _. later

  unfoldable pub clear_each : Text → List Text → Pass R.Db (Unit {0})
  clear_each key [] = becomes λ s. s
  clear_each key (agent ∷ rest) =
      let later = clear_each key rest in then_do (clear key agent) λ _. later

  -- The watch on agents that are gone ends, and their stalls are cleared.
  abbrev pub retire : Text → List Text → Pass R.Db (Unit {0})
  retire key names s w =
      clear_each key (sorted_set (not_members names s.stalled))
        (record s { watch = keep_members names s.watch }) w

  unfoldable pub poll : List (Text × Text) → Pass R.Db (Unit {0})
  poll member_types =
      then_do (runs (lift (ingress_stalled_key pod tenant)))
        λ key. then_do (retire key (names_of member_types)) λ _. visit_each key (sort member_types)
