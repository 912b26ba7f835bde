-- ===== src/Switch/Forward.antt =====
-- h-app/core/service.py: what the switch does with one popped frame.
use h_mesh.Base.{
  ℕ, ◌==◌, ◌++◌, Bool, true, false, Option, none, some, List, [], ◌∷◌, if◌then◌else◌, Text, ◌=t◌,
  before, codes,
}
use h_mesh.Errors.{◌>>=◌, Exc, envelope_error, retry_exhausted, Result, ok, raise}
use h_mesh.Keys.{agent_key}
use h_mesh.Envelope.Values.{Fields, str, dict, field, end}
use h_mesh.Envelope.Header.{Raw, text, Header, parse_for_switch, stamp_source, advance_hop}
use h_mesh.Envelope.Frames.{Json, Fresh, header_fields, build, encode}
use h_mesh.Redis.{Redis}
use h_mesh.Registry.{lookup, names_of, member_types, port_type}
use h_mesh.Redis.World.{Action, andthen, lift, returns, catching, command}
use h_mesh.Queues.{Admission, admitted, rejected, admit_ingress}
use h_mesh.Switch.Retry.{transient_redis_category, retrying}

-- The attributes of a Switch that do not change; `kicks` says whether it has a kick callback.
pub record Settings : Type 0 where
  pub pod : Text
  pub tenant : Text
  pub ingress_max : ℕ
  pub frame_retry_attempts : ℕ
  pub kicks : Bool

-- What is left after dict.pop(name)
unfoldable pub erase : Text → List (Text × Text) → List (Text × Text)
erase k [] = []
erase k ((j, v) ∷ ps) = let rest = erase k ps in if j =t k then rest else (j, v) ∷ rest

insert : Text × Text → List (Text × Text) → List (Text × Text)
insert p [] = p ∷ []
insert p (q ∷ qs) = let rest = insert p qs in if before p.0 q.0 then p ∷ q ∷ qs else q ∷ rest

-- sorted(…) on the names, each with its type
unfoldable pub sort : List (Text × Text) → List (Text × Text)
unfolding insert
sort [] = []
sort (p ∷ ps) = insert p (sort ps)

-- port_type or None
abbrev pub or_none : Text → Option Text
or_none [] = none
or_none (c ∷ s) = some (c ∷ s)

-- ", ".join(names)
abbrev pub comma_join : List Text → Text
comma_join [] = []
comma_join (n ∷ []) = n
comma_join (n ∷ m ∷ ns) = n ++ (codes ", " ++ comma_join (m ∷ ns))

module _ (R : Redis) (settings : Settings) where
  abbrev pub admit : List Text → Raw → Action R.Db Admission
  admit destinations raw =
      admit_ingress R settings.pod settings.tenant destinations raw settings.ingress_max

  -- Whether a delivery attempt was started; an exception of the callback counts as started.
  abbrev pub kick : Text → Option Text → Fields → Action R.Db Bool
  kick agent none envelope w = (ok false, w)
  kick agent (some t) envelope w =
      if settings.kicks
      then (
        ok true,
        record w { kicks = record { agent = agent; port_type = t; envelope = envelope } ∷ w.kicks },
      )
      else (ok false, w)

  -- except RetryExhausted as exc: raise exc.cause
  abbrev pub raise_cause : Exc → Action R.Db (Unit {0})
  raise_cause (retry_exhausted c cause n) w = (raise cause, w)
  raise_cause e w = (raise e, w)

  unfoldable pub dead_letter : Text → Raw → Action R.Db (Unit {0})
  dead_letter sender raw =
      andthen (lift (agent_key settings.pod settings.tenant sender (codes "dead"))) λ key.
        catching
          (retrying settings.frame_retry_attempts false (command λ d. (tt, R.rpush d key raw)))
          raise_cause

  abbrev pub dead_lettered : Text → Raw → Action R.Db Bool
  dead_lettered sender raw = andthen (dead_letter sender raw) λ _. returns true

  -- except RetryExhausted: raise, except Exception as exc: self._note_unknown(exc); raise
  abbrev pub note_unknown : Exc → Action R.Db Admission
  note_unknown (retry_exhausted c cause n) w = (raise (retry_exhausted c cause n), w)
  note_unknown e w =
      (raise e, record w { unknown_outcomes = transient_redis_category e ∷ w.unknown_outcomes })

  unfoldable pub admit_frame : List Text → Raw → Action R.Db Admission
  admit_frame destinations raw =
      catching (retrying settings.frame_retry_attempts false (admit destinations raw)) note_unknown

  -- The agents of a broadcast for which no attempt was started.
  unfoldable pub kick_each : List (Text × Text) → Header → Action R.Db (List Text)
  kick_each [] envelope = returns []
  kick_each ((agent, t) ∷ ps) envelope =
      andthen (kick agent (or_none t) (header_fields envelope)) λ started.
        andthen (kick_each ps envelope)
          λ skipped. returns (if started then skipped else agent ∷ skipped)

  abbrev pub after_admission : Text → Raw → Action R.Db Bool → Admission → Action R.Db Bool
  after_admission sender raw go admitted = go
  after_admission sender raw go (rejected name depth) = dead_lettered sender raw

  abbrev pub deliver : Text → Raw → Header → Option Text → Action R.Db Bool
  deliver sender raw envelope none = dead_lettered sender raw
  deliver sender raw envelope (some t) = andthen (admit_frame (envelope.destination ∷ []) raw) (
      after_admission sender raw
        (andthen (kick envelope.destination (some t) (header_fields envelope)) λ _. returns true))

  unfoldable pub unicast : Text → Raw → Header → Action R.Db Bool
  unicast sender raw envelope =
      andthen
        (retrying settings.frame_retry_attempts true
          (port_type R settings.pod settings.tenant envelope.destination))
        (deliver sender raw envelope)

  -- _notify_broadcast_sender and the broadcast that calls it: what uuid4 and the clock answer in it,
  -- and JSON, are parameters.
  module _ (json : Json) (fresh : Fresh) where
    unfoldable pub notice_frame : Text → Header → List Text → Result Fields
    notice_frame sender envelope skipped =
        build fresh (codes "Message") (codes "switch") sender
          (field (codes "text")
            (str (
              codes "Broadcast notice: no delivery attempt was started for "
              ++ (comma_join skipped ++ codes ".")))
            end)
          (some envelope.stream_id) settings.pod settings.tenant none

    abbrev pub after_notice :
        Text → Option Text → Fields → Result Admission → Action R.Db (Unit {0})
    after_notice sender sender_type notice (ok admitted) =
        andthen (kick sender sender_type notice) λ _. returns tt
    after_notice sender sender_type notice (ok (rejected name depth)) = returns tt
    after_notice sender sender_type notice (raise e) = returns tt

    unfoldable pub notify_broadcast_sender :
        Text → Option Text → Header → List Text → Action R.Db (Unit {0})
    notify_broadcast_sender sender sender_type envelope skipped =
        andthen (lift (notice_frame sender envelope skipped)) λ notice.
          andthen (lift (encode json (dict notice))) λ raw w.
            let (result, v) = admit (sender ∷ []) (text raw) w in
            after_notice sender sender_type notice result v

    abbrev pub notify_if_skipped : Text → Option Text → Header → List Text → Action R.Db Bool
    notify_if_skipped sender sender_type envelope [] = returns true
    notify_if_skipped sender sender_type envelope (agent ∷ skipped) =
        andthen (notify_broadcast_sender sender sender_type envelope (agent ∷ skipped))
          λ _. returns true

    abbrev pub deliver_all :
        Text → Raw → Header → Option Text → List (Text × Text) → Action R.Db Bool
    deliver_all sender raw envelope sender_type [] = returns true
    deliver_all sender raw envelope sender_type (p ∷ ps) =
        andthen (admit_frame (names_of (p ∷ ps)) raw) (
          after_admission sender raw
            (andthen (kick_each (p ∷ ps) envelope) (notify_if_skipped sender sender_type envelope)))

    unfoldable pub broadcast : Text → Raw → Header → Action R.Db Bool
    broadcast sender raw envelope =
        andthen
          (retrying settings.frame_retry_attempts true
            (member_types R settings.pod settings.tenant))
          λ types. deliver_all sender raw envelope (lookup sender types) (sort (erase sender types))

    -- The frame and its envelope with the source that its egress queue says.
    abbrev pub stamped : Text → Raw → Header → Result (Raw × Header)
    stamped sender raw envelope =
        if envelope.source =t sender
        then ok (raw, envelope)
        else (stamp_source raw sender >>= λ r. ok (r, record envelope { source = sender }))

    abbrev pub on_hop : Text → Raw → Result (Raw × Header) → Action R.Db Bool
    on_hop sender raw (raise (envelope_error reason)) = dead_lettered sender raw
    on_hop sender raw (raise e) = lift (raise e)
    on_hop sender raw (ok (raw', envelope)) =
        if envelope.ttl == 0
        then dead_lettered sender raw'
        else if envelope.destination =t codes "all"
        then broadcast sender raw' envelope
        else unicast sender raw' envelope

    abbrev pub on_parse : Text → Raw → Result Header → Action R.Db Bool
    on_parse sender raw (raise (envelope_error reason)) = dead_lettered sender raw
    on_parse sender raw (raise e) = lift (raise e)
    on_parse sender raw (ok envelope) =
        andthen (lift (stamped sender raw envelope)) λ p. on_hop sender p.0 (advance_hop p.0 p.1)

    unfoldable pub forward : Text → Raw → Action R.Db Bool
    forward sender raw = on_parse sender raw (parse_for_switch raw)

    abbrev pub if_exhausted : Text → Raw → Exc → Action R.Db Bool
    if_exhausted sender raw (retry_exhausted c cause n) = dead_lettered sender raw
    if_exhausted sender raw e = lift (raise e)

    unfoldable pub route : Text → Raw → Action R.Db Bool
    route sender raw = catching (forward sender raw) (if_exhausted sender raw)
