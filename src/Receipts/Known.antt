-- ===== src/Receipts/Known.antt =====
-- A frame in a list of a known agent is not reported as unknown.
use h_mesh.Base.{
  or_right, ◌≡◌, ◌≢◌, refl, sym, ap, subst, ◌∙◌, true, List, [], ◌∷◌, ◌++◌, Text, codes, ◌=t◌,
  =t-self, =t_eq, elem_text, before, inl, inr, Bool-cases,
}
use h_mesh.Errors.{Result, ok, >>=_elim}
use h_mesh.Keys.{tenant_key, agent_key}
use h_mesh.Envelope.Header.{Raw, Header, parse_for_switch}
use h_mesh.Redis.{Redis}
use h_mesh.Redis.World.{World, andthen_elim}
use h_mesh.Registry.{names_of}
use h_mesh.Receipts.{
  Sources, Entry, unknown, sorted_set, insert_name, scan_plan, agent_plan, overall_state,
}
use h_mesh.Receipts.Trace.{hit, any_head, locate, trace, Receipt, confirmed, delivered_agents}
use h_mesh.Receipts.States.{overall_state_known}
use h_mesh.Receipts.Seen.{
  IsFrameList, any_hit, any_hit-agent_plan, any_head-append, parse_for_switch-head_matches,
}
use h_mesh.Receipts.Located.{held_in, locate_lem}

insert_name_self : (x : Text) (ys : List Text) → elem_text x (insert_name x ys) ≡ true
unfolding insert_name elem_text
insert_name_self x [] = rw (=t-self x) refl
insert_name_self x (y ∷ ys) = elim (Bool-cases (x =t y)) [
  | inl e ↦ rw (e, e) refl
  | inr e ↦ elim (Bool-cases (before x y)) [
    | inl b ↦ rw (e, b, =t-self x) refl
    | inr b ↦ rw (e, b, e) (insert_name_self x ys)
  ]
]

insert_name_other :
    (a x : Text) (ys : List Text) → elem_text a ys ≡ true → elem_text a (insert_name x ys) ≡ true
unfolding insert_name elem_text
insert_name_other a x [] h = absurd (cc h)
insert_name_other a x (y ∷ ys) h = elim (Bool-cases (x =t y)) [
  | inl e ↦ rw e h
  | inr e ↦ elim (Bool-cases (before x y)) [
    | inl b ↦ rw (e, b) (or_right (a =t x) (elem_text a (y ∷ ys)) h)
    | inr b ↦ elim (Bool-cases (a =t y)) [
      | inl same ↦ rw (e, b, same) refl
      | inr differs ↦ rw (e, b, differs) (insert_name_other a x ys (rw differs at h))
    ]
  ]
]

pub elem_text-sorted_set :
    (a : Text) (xs : List Text) → elem_text a xs ≡ true → elem_text a (sorted_set xs) ≡ true
unfolding sorted_set elem_text
elem_text-sorted_set a [] h = h
elem_text-sorted_set a (x ∷ xs) h = elim (Bool-cases (a =t x)) [
  | inl e ↦
      subst (λ z. elem_text a (insert_name z (sorted_set xs)) ≡ true) (=t_eq a x e)
        (insert_name_self a (sorted_set xs))
  | inr e ↦ insert_name_other a x (sorted_set xs) (elem_text-sorted_set a xs (rw e at h))
]

same_plan :
    (pod tenant agent a : Text) (own mine : List Entry)
    → agent ≡ a
    → agent_plan pod tenant agent ≡ ok own
    → agent_plan pod tenant a ≡ ok mine
    → own ≡ mine
same_plan pod tenant agent a own mine e p q = cc (ap (agent_plan pod tenant) e, p, q)

returned_eq :
    {W A : Type 0} {a b : A} {x v : W} → ◌≡◌ {A = Result A × W} (ok a, x) (ok b, v) → a ≡ b
returned_eq h = cc h

key_eq : {k k' : Text} {r : Result Text} → r ≡ ok k → r ≡ ok k' → k ≡ k'
key_eq p q = cc (p, q)

module _ (R : Redis) (sources : Sources R.Db) (id : Text) (d : R.Db) where
  any_hit_left :
      (xs ys : List Entry)
      → any_hit R sources id d xs ≡ true
      → any_hit R sources id d (xs ++ ys) ≡ true
  unfolding any_hit
  any_hit_left [] ys h = absurd (cc h)
  any_hit_left (e ∷ es) ys h = elim (Bool-cases (hit R sources id d e.kind e.key)) [
    | inl is ↦ rw is refl
    | inr is ↦ rw is (any_hit_left es ys (rw is at h))
  ]

  any_hit_right :
      (xs ys : List Entry)
      → any_hit R sources id d ys ≡ true
      → any_hit R sources id d (xs ++ ys) ≡ true
  unfolding any_hit
  any_hit_right [] ys h = h
  any_hit_right (e ∷ es) ys h = or_right (hit R sources id d e.kind e.key) _ (any_hit_right es ys h)

  any_hit-scan_plan :
      (pod tenant agent : Text) (agents : List Text) (own plan : List Entry)
      → elem_text agent agents ≡ true
      → agent_plan pod tenant agent ≡ ok own
      → any_hit R sources id d own ≡ true
      → scan_plan pod tenant agents ≡ ok plan
      → any_hit R sources id d plan ≡ true
  unfolding scan_plan elem_text
  any_hit-scan_plan pod tenant agent [] own plan there planned h s = absurd (cc there)
  any_hit-scan_plan pod tenant agent (a ∷ agents) own plan there planned h s =
      >>=_elim (agent_plan pod tenant a) s λ mine hm s1.
        >>=_elim (scan_plan pod tenant agents) s1 λ rest hr s2.
          let is : mine ++ rest ≡ plan = cc s2 in
          subst (λ p. any_hit R sources id d p ≡ true) is
            (elim (Bool-cases (agent =t a)) [
              | inl e ↦ any_hit_left mine rest (
                  subst (λ p. any_hit R sources id d p ≡ true)
                    (same_plan pod tenant agent a own mine (=t_eq agent a e) planned hm) h)
              | inr e ↦
                  any_hit_right mine rest (
                    any_hit-scan_plan pod tenant agent agents own rest (rw e at there) planned h hr)
            ])

  known_held :
      (plan : List Entry)
      → any_hit R sources id d plan ≡ true
      → overall_state (held_in R sources id d plan) ≢ unknown
  unfolding any_hit
  known_held [] h = absurd (cc h)
  known_held (e ∷ es) h = elim (Bool-cases (hit R sources id d e.kind e.key)) [
    | inl is ↦ rw is (overall_state_known e.location (held_in R sources id d es))
    | inr is ↦ rw is (known_held es (rw is at h))
  ]

module _ (R : Redis) (sources : Sources R.Db) (pod tenant : Text) where
  listed_plan :
      (agent : Text) (agents : List Text) {plan : List Entry}
      → elem_text agent agents ≡ true
      → scan_plan pod tenant agents ≡ ok plan
      → (own : List Entry) × (agent_plan pod tenant agent ≡ ok own)
  unfolding scan_plan elem_text
  listed_plan agent [] there s = absurd (cc there)
  listed_plan agent (a ∷ agents) there s = >>=_elim (agent_plan pod tenant a) s λ mine hm s1.
      >>=_elim (scan_plan pod tenant agents) s1 λ rest hr s2. elim (Bool-cases (agent =t a)) [
        | inl e ↦ (mine, ◌∙◌ (ap (agent_plan pod tenant) (=t_eq agent a e)) hm)
        | inr e ↦ listed_plan agent agents (rw e at there) hr
      ]

  -- An agent that is registered or named, and one of its egress, ingress, processing, opening, opened
  -- and dead lists has a frame that the switch can parse, with the stream id that is asked for: if
  -- trace returns, under any faults, its state is not unknown.
  pub trace-known :
      (registry agent resource key : Text) (extra : List Text) (front back : List Raw) (raw : Raw)
      (h : Header) (w v : World R.Db) (receipt : Receipt)
      → tenant_key pod tenant (codes "registry") ≡ ok registry
      → elem_text agent (names_of (R.entries w.db registry) ++ extra) ≡ true
      → IsFrameList resource
      → agent_key pod tenant agent resource ≡ ok key
      → R.items w.db key ≡ front ++ raw ∷ back
      → parse_for_switch raw ≡ ok h
      → trace R sources pod tenant h.stream_id extra w ≡ (ok receipt, v)
      → receipt.state ≢ unknown
  unfolding trace
  trace-known registry agent resource key extra front back raw h w v receipt hr there frames hk
        items parsed run =
      let id = h.stream_id in
      andthen_elim (locate R sources pod tenant id extra) _ run λ locations u located rest.
        andthen_elim (confirmed R sources pod tenant id (sorted_set (delivered_agents locations))) _
          rest
          λ answer x asked made.
            let (registry', plan, hr', hp, are) =
              locate_lem R sources pod tenant id extra w u locations located in
            let agents = names_of (R.entries w.db registry') ++ extra in
            let there' : elem_text agent agents ≡ true =
              subst (λ k. elem_text agent (names_of (R.entries w.db k) ++ extra) ≡ true)
                (key_eq hr hr') there in
            let sorted = elem_text-sorted_set agent agents there' in
            let (own, planned) = listed_plan agent (sorted_set agents) sorted hp in
            let seen : any_head id (R.items w.db key) ≡ true =
              rw items
                (any_head-append id front raw back (parse_for_switch-head_matches raw h parsed)) in
            let found =
              any_hit-scan_plan R sources id w.db pod tenant agent (sorted_set agents) own plan
                sorted planned
                (any_hit-agent_plan R sources id w.db pod tenant agent key own frames hk seen
                  planned)
                hp in
            λ unseen.
              known_held R sources id w.db plan found (
                ◌∙◌ (ap overall_state (sym are)) (◌∙◌ (ap Receipt.state (returned_eq made)) unseen))
