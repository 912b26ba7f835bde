-- ===== src/Channels/Still.antt =====
-- Sending leaves the custody lists of the sender alone.
use h_mesh.Base.{
  ◌≡◌, refl, ap, ◌∙◌, inl, inr, true, false, ◌&&◌, Option, none, [], ◌∷◌, Text, codes, ◌=t◌,
  elem_text,
}
use h_mesh.Errors.{Result, ok, raise}
use h_mesh.Keys.{agent_key, tenant_key}
use h_mesh.Keys.Named.{offices_key, interoffice_participants_key}
use h_mesh.Envelope.Values.{Value, Fields, str, dict}
use h_mesh.Envelope.Checks.{resolve_source, resolve_destination}
use h_mesh.Envelope.Header.{Raw, text}
use h_mesh.Envelope.Frames.{Json, build, encode}
use h_mesh.Redis.{Redis}
use h_mesh.Redis.World.{World, Action, andthen, lift, returns, command, command_any}
use h_mesh.Redis.Keeps.{Keeps, andthen-Keeps, lift-Keeps, catching-Keeps, if-Keeps}
use h_mesh.Registry.{port_type, is_interoffice, is_relay, has_token, lookup, is_some}
use h_mesh.Policy.{require_allowed, allows, read_tags}
use h_mesh.Channels.{
  Lua, Moment, send, track_unreplied, open_count, increment_unreplied, increment_script,
  clear_unreplied, drop_field, check_policy, is_type, swallow,
}
use h_mesh.Channels.Custody.{Custody, custody_keys}
use h_mesh.Channels.Receive.{
  Shows, envelope_source, notify_dead_letter_sender, notice_if, notice_source,
}
use h_mesh.Channels.Places.{
  Place, ingress, processing, opening, opened, unresolved, dead, place, resource_of,
  custody_keys-other,
}

module _ (R : Redis) (json : Json) (lua : Lua) (pod tenant agent : Text) {c : Custody}
    (built : custody_keys pod tenant agent ≡ ok c) (start : World R.Db) where
  -- The custody lists are what they were at the start, and no opener has been called since.
  abbrev pub Still : World R.Db → Type 0
  Still w =
      ((p : Place) → R.items w.db (place c p) ≡ R.items start.db (place c p))
      × (w.opener_calls ≡ start.opener_calls)

  pub command-Still :
      {A : Type 0} (f : R.Db → A × R.Db)
      → ((d : R.Db) (p : Place) → R.items (f d).1 (place c p) ≡ R.items d (place c p))
      → Keeps Still (command f)
  command-Still f same_items w (lists, calls) =
      let (ran, kept) = command_any f w in
      (
        λ p. elim ran [
          | inl not_run ↦ ◌∙◌ (ap (λ d. R.items d (place c p)) not_run) (lists p)
          | inr did ↦ ◌∙◌ (ap (λ d. R.items d (place c p)) did) (◌∙◌ (same_items w.db p) (lists p))
        ],
        ◌∙◌ kept calls,
      )

  read-Still : {A : Type 0} (g : R.Db → A) → Keeps Still (command λ d. (g d, d))
  read-Still g = command-Still (λ d. (g d, d)) (λ d p. refl)

  port_type-Still : (name : Text) → Keeps Still (port_type R pod tenant name)
  port_type-Still name =
      lift-Keeps Still (tenant_key pod tenant (codes "registry")) _
        λ key. read-Still (λ d. lookup name (R.entries d key))

  is_relay-Still : (name : Text) → Keeps Still (is_relay R pod tenant name)
  is_relay-Still name =
      if-Keeps Still (name =t codes "relay") _ (returns false)
        (lift-Keeps Still (offices_key pod tenant) _ λ key. read-Still _) (λ w h. h)

  is_interoffice-Still : (name : Text) → Keeps Still (is_interoffice R pod tenant json name)
  is_interoffice-Still name = lift-Keeps Still (interoffice_participants_key pod tenant) _ λ marker.
      andthen-Keeps Still _ _ (read-Still (λ d. is_some (lookup name (R.entries d marker))))
        λ marked.
          if-Keeps Still marked (returns true) _ (λ w h. h)
            (andthen-Keeps Still (has_token R pod tenant json name) _
              (lift-Keeps Still _ _ λ key. read-Still _)
              λ named.
                if-Keeps Still named (returns true) (is_relay R pod tenant name) (λ w h. h)
                  (is_relay-Still name))

  read_tags-Still : (name side : Text) → Keeps Still (read_tags R json pod tenant name side)
  read_tags-Still name side =
      lift-Keeps Still (agent_key pod tenant name (codes "tags")) _ λ key.
        andthen-Keeps Still _ _ (read-Still (λ d. lookup side (R.entries d key))) λ raw w h. h

  require_allowed-Still :
      (source destination : Text)
      → Keeps Still (require_allowed R json pod tenant source destination)
  unfolding require_allowed
  require_allowed-Still source destination =
      andthen-Keeps Still (allows R json pod tenant source destination) _
        (andthen-Keeps Still (read_tags R json pod tenant source (codes "export")) _
          (read_tags-Still source (codes "export"))
          λ export.
            andthen-Keeps Still (read_tags R json pod tenant destination (codes "import")) _
              (read_tags-Still destination (codes "import")) λ imports w h. h)
        λ allowed w h. h

  increment_unreplied-Still :
      (name client now : Text)
      → Keeps Still (increment_unreplied R json lua pod tenant name client now)
  unfolding increment_script
  increment_unreplied-Still name client now =
      lift-Keeps Still (agent_key pod tenant name (codes "unreplied")) _ λ key.
        command-Still (increment_script R json lua pod tenant key client now)
          (λ d p. R.items-put_entries d key _ (place c p))

  clear_unreplied-Still :
      (name client : Text) → Keeps Still (clear_unreplied R json lua pod tenant name client)
  clear_unreplied-Still name client =
      lift-Keeps Still (agent_key pod tenant name (codes "unreplied")) _ λ key.
        command-Still (λ d. (tt, R.put_entries d key (drop_field client (R.entries d key))))
          (λ d p. R.items-put_entries d key _ (place c p))

  open_count-Still :
      (now source destination : Text)
      → Keeps Still (open_count R json lua pod tenant now source destination)
  open_count-Still now source destination =
      andthen-Keeps Still (is_interoffice R pod tenant json source) _ (is_interoffice-Still source)
        λ b.
          if-Keeps Still b (returns tt)
            (increment_unreplied R json lua pod tenant destination source now) (λ w h. h)
            (increment_unreplied-Still destination source now)

  track_unreplied-Still :
      (now source destination kind : Text)
      → Keeps Still (track_unreplied R json lua pod tenant now source destination kind)
  unfolding track_unreplied
  track_unreplied-Still now source destination kind =
      if-Keeps Still (destination =t codes "all") (returns tt) _ (λ w h. h)
        (andthen-Keeps Still (port_type R pod tenant source) _ (port_type-Still source) λ s.
          andthen-Keeps Still (port_type R pod tenant destination) _ (port_type-Still destination)
            λ t.
              if-Keeps Still
                (is_type (codes "api") s
                  && is_type (codes "tmux") t
                  && elem_text kind (codes "Message" ∷ codes "Attachment" ∷ []))
                (open_count R json lua pod tenant now source destination) _
                (open_count-Still now source destination)
                (if-Keeps Still (is_type (codes "tmux") s && is_type (codes "api") t)
                  (clear_unreplied R json lua pod tenant source destination) (returns tt)
                  (clear_unreplied-Still source destination) (λ w h. h)))

  not_custody : (p : Place) → (codes "egress" =t resource_of p) ≡ false
  unfolding ◌=t◌
  not_custody ingress = refl
  not_custody processing = refl
  not_custody opening = refl
  not_custody opened = refl
  not_custody unresolved = refl
  not_custody dead = refl

  push-Still :
      (raw : Raw) (k : Text)
      → agent_key pod tenant agent (codes "egress") ≡ ok k
      → Keeps Still (command λ d. (tt {0}, R.rpush d k raw))
  push-Still raw k key =
      command-Still (λ d. (tt, R.rpush d k raw))
        λ d p.
          rw
            (
              R.items-rpush d k raw (place c p),
              custody_keys-other pod tenant agent (codes "egress") built not_custody key p,
            )
            refl

  -- A lift whose value is looked at.
  lift-Keeps_eq :
      {A B : Type 0} (r : Result A) (f : A → Action R.Db B)
      → ((a : A) → r ≡ ok a → Keeps Still (f a))
      → Keeps Still (andthen (lift r) f)
  lift-Keeps_eq (ok a) f rest w h = rest a refl w h
  lift-Keeps_eq (raise e) f rest w h = h

  send-Still :
      (moment : Moment) (destination : Text) (payload : Fields) (kind : Text)
      (correlation_id in_reply_to : Option Text)
      → Keeps Still (
          send R json lua pod tenant moment agent destination payload kind correlation_id
            in_reply_to)
  unfolding send
  send-Still moment destination payload kind correlation_id in_reply_to =
      lift-Keeps Still (resolve_source pod tenant agent) _ λ s.
        lift-Keeps Still (resolve_destination pod tenant destination) _ λ t.
          andthen-Keeps Still (check_policy R json lua pod tenant s.1 t.1) _
            (if-Keeps Still (t.1 =t codes "all") (returns tt) _ (λ w h. h)
              (require_allowed-Still s.1 t.1))
            λ _.
              lift-Keeps Still
                (build moment.fresh kind agent destination payload correlation_id pod tenant
                  in_reply_to)
                _
                λ envelope. lift-Keeps_eq (agent_key pod tenant agent (codes "egress")) _ λ k key.
                  lift-Keeps Still (encode json (dict envelope)) _ λ raw.
                    andthen-Keeps Still (command λ d. (tt, R.rpush d k (text raw))) _
                      (push-Still (text raw) k key)
                      λ _.
                        andthen-Keeps Still _ _
                          (catching-Keeps Still
                            (track_unreplied R json lua pod tenant moment.since s.1 t.1 kind)
                            swallow (track_unreplied-Still moment.since s.1 t.1 kind) (λ e w h. h))
                          λ _ w h. h

  notice_if-Still :
      (shows : Shows) (moment : Moment) (envelope : Fields) (reason source : Text) (t : Option Text)
      (openers : Text → Option (Fields → Action R.Db (Unit {0})))
      → Keeps Still
          (notice_if R json lua shows pod tenant agent openers c moment envelope reason source t)
  notice_if-Still shows moment envelope reason source t openers =
      if-Keeps Still (is_type (codes "tmux") t) _ (returns tt)
        (andthen-Keeps Still _ _ (send-Still moment source _ (codes "Message") _ none) λ _ w h. h)
        (λ w h. h)

  module _ (shows : Shows) (openers : Text → Option (Fields → Action R.Db (Unit {0})))
      (moment : Moment) (envelope : Fields) (reason : Text) where
    notice_source-Still :
        (v : Value)
        → Keeps Still
            (notice_source R json lua shows pod tenant agent openers c moment envelope reason v)
    notice_source-Still (str []) w h = h
    notice_source-Still (str (x ∷ s)) w h =
        if-Keeps Still ((x ∷ s) =t agent) (returns tt) _ (λ v k. k)
          (catching-Keeps Still _ swallow
            (andthen-Keeps Still (port_type R pod tenant (x ∷ s)) _ (port_type-Still (x ∷ s))
              λ t. notice_if-Still shows moment envelope reason (x ∷ s) t openers)
            (λ e v k. k))
          w h
    notice_source-Still v w h = h

    -- The notice of a dead letter leaves the custody lists alone and calls no opener.
    pub notify-Still : Keeps Still (
        notify_dead_letter_sender R json lua shows pod tenant agent openers c moment envelope
          reason)
    unfolding notify_dead_letter_sender
    notify-Still = lift-Keeps Still (envelope_source envelope) _ notice_source-Still
