-- ===== src/Receipts/Seen.antt =====
-- A frame that the switch can parse, in a list of an agent, is seen by the trace's script.
use h_mesh.Base.{
  ℕ, arith, or_right, ◌≡◌, refl, sym, subst, ◌∙◌, Bool, true, false, ◌||◌, List, [], ◌∷◌, ◌++◌,
  some, =t_eq, take, take-take, Text, codes, ◌=t◌, =t-self, ltb,
}
use h_mesh.Errors.{ok, ok_eq, Result, >>=_elim}
use h_mesh.Keys.{agent_key}
use h_mesh.Keys.Named.{receive_processing_key, receive_opening_key, receive_opened_key}
use h_mesh.Envelope.Header.{Raw, text, bytes, Header, parse_for_switch}
use h_mesh.Envelope.Rewrites.{parse_for_switch-header}
use h_mesh.Redis.{Redis}
use h_mesh.Receipts.{
  Sources, Entry, list_kind, stream_kind, Stage, egress, ingress, processing, opening, opened,
  inbox, dead, entry_of, agent_plan, head_matches,
}
use h_mesh.Receipts.Trace.{hit, any_head}

-- The lists that an agent's frames pass through, by their names in the database.
pub data IsFrameList : Text → Type 0 where
  in_egress_key : IsFrameList (codes "egress")
  in_ingress_key : IsFrameList (codes "ingress")
  in_processing_key : IsFrameList (codes "processing")
  in_opening_key : IsFrameList (codes "opening")
  in_opened_key : IsFrameList (codes "opened")
  in_dead_key : IsFrameList (codes "dead")

version_head :
    (c : ℕ) (s : Text) → (take 1 (take 256 (c ∷ s)) =t codes "4") ≡ true → ltb c 128 ≡ true
version_head c s h =
    let is : c ≡ 52 = cc (=t_eq (take 1 (take 256 (c ∷ s))) (codes "4") h) in rw is refl

id_of : (c : ℕ) (s : Text) → take 32 (take 255 s) ≡ take 32 s
id_of c s = take-take 32 255 s (omega arith)

no_version : {P : Type 0} → ([] =t codes "4") ≡ true → P
unfolding ◌=t◌
no_version h = absurd (cc h)

-- The script reads the stream id where the switch's parse reads it.
pub parse_for_switch-head_matches :
    (raw : Raw) (h : Header) → parse_for_switch raw ≡ ok h → head_matches h.stream_id raw ≡ true
unfolding head_matches
parse_for_switch-head_matches (text []) h parsed =
    no_version (((parse_for_switch-header (text []) h parsed).1).version)
parse_for_switch-head_matches (text (c ∷ s)) h parsed =
    let d = (parse_for_switch-header (text (c ∷ s)) h parsed).1 in
    let is : take 32 s ≡ h.stream_id = ◌∙◌ (sym (id_of c s)) d.stream_id in
    rw (version_head c s d.version, is, =t-self h.stream_id) refl
parse_for_switch-head_matches (bytes []) h parsed =
    no_version (((parse_for_switch-header (bytes []) h parsed).1).version)
parse_for_switch-head_matches (bytes (c ∷ s)) h parsed =
    let d = (parse_for_switch-header (bytes (c ∷ s)) h parsed).1 in
    let is : take 32 s ≡ h.stream_id = ◌∙◌ (sym (id_of c s)) d.stream_id in
    rw (is, =t-self h.stream_id) refl

pub any_head-append :
    (id : Text) (front : List Raw) (raw : Raw) (back : List Raw)
    → head_matches id raw ≡ true
    → any_head id (front ++ raw ∷ back) ≡ true
unfolding any_head
any_head-append id [] raw back h = rw h refl
any_head-append id (x ∷ front) raw back h =
    or_right (head_matches id x) _ (any_head-append id front raw back h)

key_is : {r : Result Text} {k k' : Text} → r ≡ ok k → r ≡ ok k' → k ≡ k'
key_is p q = cc (p, q)

abbrev entries_of : (pod tenant agent e i p o r x b : Text) → List Entry
entries_of pod tenant agent e i p o r x b =
    entry_of pod tenant e list_kind (some agent) egress
    ∷ entry_of pod tenant i list_kind (some agent) ingress
    ∷ entry_of pod tenant p list_kind (some agent) processing
    ∷ entry_of pod tenant o list_kind (some agent) opening
    ∷ entry_of pod tenant r list_kind (some agent) opened
    ∷ entry_of pod tenant x list_kind (some agent) dead
    ∷ entry_of pod tenant b stream_kind (some agent) inbox
    ∷ []

module _ (R : Redis) (sources : Sources R.Db) (id : Text) (d : R.Db) where
  -- Some key of the plan holds the frame.
  unfoldable pub any_hit : List Entry → Bool
  any_hit [] = false
  any_hit (e ∷ es) = hit R sources id d e.kind e.key || any_hit es

  hit_next : (e : Entry) (es : List Entry) → any_hit es ≡ true → any_hit (e ∷ es) ≡ true
  unfolding any_hit
  hit_next e es h = or_right (hit R sources id d e.kind e.key) _ h

  hit_here :
      (pod tenant agent key k : Text) (stage : Stage) (es : List Entry)
      → key ≡ k
      → any_head id (R.items d key) ≡ true
      → any_hit (entry_of pod tenant k list_kind (some agent) stage ∷ es) ≡ true
  unfolding any_hit hit
  hit_here pod tenant agent key k stage es same h =
      rw (subst (λ t. any_head id (R.items d t) ≡ true) same h) refl

  in_entries :
      (pod tenant agent key e i p o r x b : Text) {resource : Text}
      → IsFrameList resource
      → agent_key pod tenant agent resource ≡ ok key
      → agent_key pod tenant agent (codes "egress") ≡ ok e
      → agent_key pod tenant agent (codes "ingress") ≡ ok i
      → agent_key pod tenant agent (codes "processing") ≡ ok p
      → agent_key pod tenant agent (codes "opening") ≡ ok o
      → agent_key pod tenant agent (codes "opened") ≡ ok r
      → agent_key pod tenant agent (codes "dead") ≡ ok x
      → any_head id (R.items d key) ≡ true
      → any_hit (entries_of pod tenant agent e i p o r x b) ≡ true
  in_entries pod tenant agent key e i p o r x b in_egress_key hk he hi hp ho hr hx seen =
      hit_here pod tenant agent key e egress _ (key_is hk he) seen
  in_entries pod tenant agent key e i p o r x b in_ingress_key hk he hi hp ho hr hx seen =
      hit_next _ _ (hit_here pod tenant agent key i ingress _ (key_is hk hi) seen)
  in_entries pod tenant agent key e i p o r x b in_processing_key hk he hi hp ho hr hx seen =
      hit_next _ _ (hit_next _ _ (hit_here pod tenant agent key p processing _ (key_is hk hp) seen))
  in_entries pod tenant agent key e i p o r x b in_opening_key hk he hi hp ho hr hx seen =
      hit_next _ _ (
        hit_next _ _ (hit_next _ _ (hit_here pod tenant agent key o opening _ (key_is hk ho) seen)))
  in_entries pod tenant agent key e i p o r x b in_opened_key hk he hi hp ho hr hx seen =
      hit_next _ _ (
        hit_next _ _ (
          hit_next _ _
            (hit_next _ _ (hit_here pod tenant agent key r opened _ (key_is hk hr) seen))))
  in_entries pod tenant agent key e i p o r x b in_dead_key hk he hi hp ho hr hx seen =
      hit_next _ _ (
        hit_next _ _ (
          hit_next _ _ (
            hit_next _ _
              (hit_next _ _ (hit_here pod tenant agent key x dead _ (key_is hk hx) seen)))))

  -- A head in a list that the plan looks at is a hit of the plan.
  pub any_hit-agent_plan :
      (pod tenant agent key : Text) {resource : Text} (own : List Entry)
      → IsFrameList resource
      → agent_key pod tenant agent resource ≡ ok key
      → any_head id (R.items d key) ≡ true
      → agent_plan pod tenant agent ≡ ok own
      → any_hit own ≡ true
  unfolding agent_plan receive_processing_key receive_opening_key receive_opened_key
  any_hit-agent_plan pod tenant agent key own listed hk seen planned =
      >>=_elim (agent_key pod tenant agent (codes "egress")) planned λ e he planned.
        >>=_elim (agent_key pod tenant agent (codes "ingress")) planned λ i hi planned.
          >>=_elim (agent_key pod tenant agent (codes "processing")) planned λ p hp planned.
            >>=_elim (agent_key pod tenant agent (codes "opening")) planned λ o ho planned.
              >>=_elim (agent_key pod tenant agent (codes "opened")) planned λ r hr planned.
                >>=_elim (agent_key pod tenant agent (codes "dead")) planned λ x hx planned.
                  >>=_elim (agent_key pod tenant agent (codes "inbox")) planned λ b hb planned.
                    subst (λ es. any_hit es ≡ true) (ok_eq planned)
                      (in_entries pod tenant agent key e i p o r x b listed hk he hi hp ho hr hx
                        seen)
