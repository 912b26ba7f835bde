-- ===== src/Channels/Receive.antt =====
-- h-app/core/channels.py: receive, which claims the frames of an agent's ingress list one by one and
-- opens each. str() of a value and of an exception is the parameter `Shows`.
use h_mesh.Base.{
  ℕ, zero, suc, ◌++◌, Bool, true, false, Option, none, some, [], ◌∷◌, if◌then◌else◌, Text, codes,
  ◌=t◌, decode_utf8,
}
use h_mesh.Errors.{
  Exc, dead_letter, envelope_error, type_error, attribute_error, unicode_error, Result, ok, raise,
  ◌>>=◌, or_raise,
}
use h_mesh.Envelope.Values.{Value, Fields, str, dict, field, end, find, get}
use h_mesh.Envelope.Header.{Raw, text, bytes}
use h_mesh.Envelope.Frames.{Json, parse}
use h_mesh.Redis.{Redis}
use h_mesh.Redis.World.{Action, andthen, lift, returns, catching, command}
use h_mesh.Channels.Custody.{
  Custody, custody_keys, opened_receipt_max, transfer, claim_script, head_of,
}
use h_mesh.Registry.{port_type}
use h_mesh.Channels.{Lua, Moment, send, is_type, swallow}

pub record Shows : Type 0 where
  pub value : Value → Text
  pub exception : Exc → Text

-- raw.decode() if isinstance(raw, bytes) else str(raw)
unfoldable pub raw_text : Raw → Result Text
raw_text (text s) = ok s
raw_text (bytes s) = or_raise (decode_utf8 s) unicode_error

-- The fields of an unresolved record
abbrev pub unresolved_fields : Text → Text → Text → Fields
unresolved_fields agent reason envelope =
    field (codes "agent") (str agent)
      (field (codes "reason") (str reason) (field (codes "envelope") (str envelope) end))

-- envelope.get("l2", {}).get("source")
unfoldable pub envelope_source : Fields → Result Value
envelope_source envelope = elim (find (codes "l2") envelope) [
  | none ↦ ok Value.null
  | some (dict l2) ↦ ok (get (codes "source") l2)
  | _ ↦ raise attribute_error
]

abbrev pub kind_of : Value → Result Text
kind_of (str kind) = ok kind
kind_of v = raise type_error

-- stream_id if isinstance(stream_id, str) else None
abbrev pub text_or_none : Value → Option Text
text_or_none (str s) = some s
text_or_none v = none

-- envelope.get("stream_id", "unknown")
abbrev pub stream_id_of : Option Value → Value
stream_id_of none = str (codes "unknown")
stream_id_of (some v) = v

module _ (R : Redis) (json : Json) (lua : Lua) (shows : Shows) (pod tenant agent : Text)
    (openers : Text → Option (Fields → Action R.Db (Unit {0}))) (c : Custody) where
  -- The reason of a failed delivery reaches the sender only where that is a tmux agent.
  abbrev pub notice_if : Moment → Fields → Text → Text → Option Text → Action R.Db (Unit {0})
  notice_if moment envelope reason source source_type =
      let stream_id = stream_id_of (find (codes "stream_id") envelope) in
      let told =
        field (codes "text")
          (str (
            codes "Delivery to "
            ++ (agent
                ++ (codes " failed for message "
                    ++ (shows.value stream_id ++ (codes ": " ++ reason))))))
          end in
      let sends : Action R.Db (Unit {0}) =
        andthen
          (send R json lua pod tenant moment agent source told (codes "Message")
            (text_or_none stream_id) none)
          λ _. returns tt in
      if is_type (codes "tmux") source_type then sends else returns tt

  -- A source that is no text, is empty, or is the recipient gets no notice.
  abbrev pub notice_source : Moment → Fields → Text → Value → Action R.Db (Unit {0})
  notice_source moment envelope reason (str []) = returns tt
  notice_source moment envelope reason (str (x ∷ s)) =
      let asks =
        andthen (port_type R pod tenant (x ∷ s)) (notice_if moment envelope reason (x ∷ s)) in
      if (x ∷ s) =t agent then returns tt else catching asks swallow
  notice_source moment envelope reason v = returns tt

  unfoldable pub notify_dead_letter_sender : Moment → Fields → Text → Action R.Db (Unit {0})
  notify_dead_letter_sender moment envelope reason =
      andthen (lift (envelope_source envelope)) (notice_source moment envelope reason)

  abbrev pub unresolved_record : Raw → Text → Result Raw
  unresolved_record raw reason = do
    s ← raw_text raw
    ok (text (json.dumps (dict (unresolved_fields agent reason s))))

  abbrev pub surface : Raw → Text → Action R.Db (Unit {0})
  surface raw reason =
      andthen (lift (unresolved_record raw reason))
        λ record'. transfer R c.opening c.unresolved raw record' 0

  abbrev pub dead_letter_with : Moment → Raw → Fields → Text → Text → Action R.Db (Unit {0})
  dead_letter_with moment raw envelope reason source =
      andthen (transfer R source c.dead raw raw 0)
        λ _. notify_dead_letter_sender moment envelope reason

  -- What follows the opener's return, a DeadLetter, and any other exception.
  abbrev pub after_open : Moment → Raw → Fields → Result (Unit {0}) → Action R.Db (Unit {0})
  after_open moment raw envelope (ok x) = transfer R c.opening c.opened raw raw opened_receipt_max
  after_open moment raw envelope (raise (dead_letter reason)) =
      dead_letter_with moment raw envelope reason c.opening
  after_open moment raw envelope (raise e) =
      surface raw (codes "opener failed: " ++ shows.exception e)

  -- The opener is called, and its outcome handed on.
  abbrev pub run_opener :
      (Fields → Action R.Db (Unit {0})) → Fields → Action R.Db (Result (Unit {0}))
  run_opener opener envelope w =
      let (result, v) = opener envelope (record w { opener_calls = envelope ∷ w.opener_calls }) in
      (ok result, v)

  abbrev pub open_with :
      Moment
      → Raw
      → Fields
      → Text
      → Option (Fields → Action R.Db (Unit {0}))
      → Action R.Db (Unit {0})
  open_with moment raw envelope kind none =
      dead_letter_with moment raw envelope (codes "unknown kind: " ++ kind) c.processing
  open_with moment raw envelope kind (some opener) =
      andthen (transfer R c.processing c.opening raw raw 0)
        λ _. andthen (run_opener opener envelope) (after_open moment raw envelope)

  abbrev pub on_frame : Moment → Raw → Result Fields → Action R.Db (Unit {0})
  on_frame moment raw (raise (envelope_error reason)) = transfer R c.processing c.dead raw raw 0
  on_frame moment raw (raise e) = lift (raise e)
  on_frame moment raw (ok envelope) =
      andthen (lift (kind_of (get (codes "kind") envelope)))
        λ kind. open_with moment raw envelope kind (openers kind)

  unfoldable pub open_received : Moment → Raw → Action R.Db (Unit {0})
  open_received moment raw = on_frame moment raw (parse json raw)

  -- try: parse(uncertain), except EnvelopeError: what is logged, which only another exception shows
  abbrev pub parsed : Result Fields → Result (Unit {0})
  parsed (ok envelope) = ok tt
  parsed (raise (envelope_error reason)) = ok tt
  parsed (raise e) = raise e

  -- The loops are on fuel: false says that it has run out.
  abbrev pub surface_next : Action R.Db Bool → Option Raw → Action R.Db Bool
  surface_next again none = returns true
  surface_next again (some raw) =
      andthen (surface raw (codes "opener outcome unknown after process exit"))
        λ _. andthen (lift (parsed (parse json raw))) λ _. again

  unfoldable pub surface_opening : ℕ → Action R.Db Bool
  surface_opening zero = returns false
  surface_opening (suc fuel) =
      let again = surface_opening fuel in
      andthen (command λ d. (head_of (R.items d c.opening), d)) (surface_next again)

  module _ (moments : ℕ → Moment) where
    unfoldable pub drain : ℕ → Option Raw → Action R.Db Bool
    drain fuel none = returns true
    drain zero (some raw) = returns false
    drain (suc fuel) (some raw) =
        andthen (open_received (moments fuel) raw)
          λ _. andthen (command (claim_script R c)) (drain fuel)

    abbrev pub claimed : Option Raw → Action R.Db (Option Raw)
    claimed (some raw) = returns (some raw)
    claimed none = command (claim_script R c)

    abbrev pub claim_and_drain : ℕ → Bool → Action R.Db Bool
    claim_and_drain fuel false = returns false
    claim_and_drain fuel true =
        andthen (command λ d. (head_of (R.items d c.processing), d))
          λ o. andthen (claimed o) (drain fuel)

    unfoldable pub receive_with : ℕ → Action R.Db Bool
    receive_with fuel = andthen (surface_opening fuel) (claim_and_drain fuel)

module _ (R : Redis) (json : Json) (lua : Lua) (shows : Shows) (pod tenant agent : Text)
    (openers : Text → Option (Fields → Action R.Db (Unit {0}))) (moments : ℕ → Moment) where
  -- `fuel` bounds the rounds of each loop.
  unfoldable pub receive : ℕ → Action R.Db Bool
  receive fuel =
      andthen (lift (custody_keys pod tenant agent))
        λ c. receive_with R json lua shows pod tenant agent openers c moments fuel
