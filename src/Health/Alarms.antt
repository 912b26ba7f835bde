-- ===== src/Health/Alarms.antt =====
-- An agent is reported only for a head that has stayed.
use h_mesh.Base.{
  ℕ, ◌-◌, ◌≤◌, ◌≡◌, refl, sym, ap, subst, ◌⊎◌, inl, inr, true, false, Option, none, some, length,
  Text, codes, ◌=t◌, =t_eq, elem_text, Bool-cases, arith, ltb,
}
use h_mesh.Errors.{Result, ok, raise}
use h_mesh.Keys.{agent_key}
use h_mesh.Envelope.Frames.{Json}
use h_mesh.Redis.{Redis}
use h_mesh.Redis.World.{World, command, andthen_elim, lift_elim, command_ok}
use h_mesh.Health.{Monitor, Sighting, follow, sighting_of, Verdict, fresh, waiting, stuck, decide}
use h_mesh.Health.Passes.{
  Readings, head_identity, depth_of, unpaused_head, head, clear_if, on_verdict, on_head, visit,
}

decide_stuck :
    (stall now : ℕ) (identity : Text) (seen : Option Sighting)
    → decide stall now identity seen ≡ stuck
    → (g : Sighting) × (seen ≡ some g) × (g.identity ≡ identity) × (stall ≤ now - g.since)
unfolding decide
decide_stuck stall now identity none h = absurd (cc h)
decide_stuck stall now identity (some g) h = elim (Bool-cases (g.identity =t identity)) [
  | inl e ↦ (
    g,
    refl,
    =t_eq g.identity identity e,
    elim (Bool-cases (ltb (now - g.since) stall)) [
      | inl early ↦ absurd (cc (rw (e, early) at h))
      | inr late ↦ ground (arith, late)
    ],
  )
  | inr e ↦ absurd (cc (rw e at h))
]

module _ (R : Redis) (json : Json) (pod tenant : Text) (readings : Readings) where
  returned_value :
      {A : Type 0} {a b : A} {x v : World R.Db}
      → ◌≡◌ {A = Result A × World R.Db} (ok a, x) (ok b, v)
      → a ≡ b
  returned_value h = cc h

  -- Whether and what a head is answered, for the identity that was read.
  abbrev Answers : Option Text → Option (Text × ℕ) → Type 0
  Answers found o =
      (o ≡ none)
      ⊎ ((identity : Text) × (n : ℕ) × (o ≡ some (identity, n)) × (found ≡ some identity))

  depth_ok :
      (key : Text) (found : Option Text) (w v : World R.Db) (o : Option (Text × ℕ))
      → depth_of R json pod tenant readings key found w ≡ (ok o, v)
      → Answers found o
  depth_ok key none w v o h = inl (sym (returned_value h))
  depth_ok key (some identity) w v o h =
      let (run, _) = command_ok (λ d. (some (identity, length (R.items d key)), d)) w h in
      inr (identity, length (R.items w.db key), sym (ap (λ r. r.0) run), refl)

  unpaused_ok :
      (agent key : Text) (mark : Option Text) (w v : World R.Db) (o : Option (Text × ℕ))
      → agent_key pod tenant agent (codes "ingress") ≡ ok key
      → unpaused_head R json pod tenant readings agent mark w ≡ (ok o, v)
      → Answers (head_identity readings.replaced (R.items w.db key)) o
  unpaused_ok agent key (some mark) w v o hk h = inl (sym (returned_value h))
  unpaused_ok agent key none w v o hk h =
      andthen_elim (command λ d. (head_identity readings.replaced (R.items d key), d))
        (depth_of R json pod tenant readings key) (rw hk at h)
        λ found u ran rest.
          let (run, _) =
            command_ok (λ d. (head_identity readings.replaced (R.items d key), d)) w ran in
          subst (λ f. Answers f o) (sym (ap (λ r. r.0) run)) (depth_ok key found u v o rest)

  -- What `head` answers when it returns.
  head_ok :
      (agent key : Text) (w v : World R.Db) (o : Option (Text × ℕ))
      → agent_key pod tenant agent (codes "ingress") ≡ ok key
      → head R json pod tenant readings agent w ≡ (ok o, v)
      → Answers (head_identity readings.replaced (R.items w.db key)) o
  unfolding head
  head_ok agent key w v o hk h =
      lift_elim (agent_key pod tenant agent (codes "paused")) _ h λ paused _ h1.
        andthen_elim (command λ d. (R.value d paused, d))
          (unpaused_head R json pod tenant readings agent) h1
          λ mark u ran rest.
            let (run, _) = command_ok (λ d. (R.value d paused, d)) w ran in
            subst (λ d. Answers (head_identity readings.replaced (R.items d key)) o)
              (sym (ap (λ r. r.1) run)) (unpaused_ok agent key mark u v o hk rest)

  module _ (key agent port_type : Text) (s : Monitor) (w : World R.Db)
      (calm : elem_text agent s.stalled ≡ false) where
    on_verdict_lem :
        (identity : Text) (n : ℕ) (verdict : Verdict)
        → elem_text agent
            (on_verdict R json pod tenant readings key agent port_type identity n verdict s
              w).1.stalled
          ≡ true
        → verdict ≡ stuck
    unfolding clear_if
    on_verdict_lem identity n fresh h = absurd (cc (rw calm at h, calm))
    on_verdict_lem identity n waiting h = absurd (cc (h, calm))
    on_verdict_lem identity n stuck h = refl

    on_head_lem :
        (o : Option (Text × ℕ))
        → elem_text agent (on_head R json pod tenant readings key agent port_type o s w).1.stalled
          ≡ true
        → (identity : Text) × (n : ℕ) × (o ≡ some (identity, n))
          × (decide readings.stall_seconds readings.now identity (sighting_of agent s.watch)
              ≡ stuck)
    unfolding clear_if
    on_head_lem none h = absurd (cc (rw calm at h, calm))
    on_head_lem (some (identity, n)) h = (identity, n, refl, on_verdict_lem identity n _ h)

  visit_stuck :
      (key ingress_key agent port_type : Text) (s : Monitor) (w : World R.Db)
      (p : Result (Option (Text × ℕ)) × World R.Db)
      → agent_key pod tenant agent (codes "ingress") ≡ ok ingress_key
      → elem_text agent s.stalled ≡ false
      → head R json pod tenant readings agent w ≡ p
      → elem_text agent
          (follow (p.0, s, p.1) (on_head R json pod tenant readings key agent port_type)).1.stalled
        ≡ true
      → (identity : Text) × (g : Sighting) × (head_identity readings.replaced
            (R.items w.db ingress_key)
          ≡ some identity)
        × (sighting_of agent s.watch ≡ some g)
        × (g.identity ≡ identity)
        × (readings.stall_seconds ≤ readings.now - g.since)
  visit_stuck key ingress_key agent port_type s w (raise e, v) hk calm is h = absurd (cc (h, calm))
  visit_stuck key ingress_key agent port_type s w (ok o, v) hk calm is h =
      let (identity, n, answered, verdict) = on_head_lem key agent port_type s v calm o h in
      let (g, seen, same, late) =
        decide_stuck readings.stall_seconds readings.now identity (sighting_of agent s.watch)
          verdict in
      elim (head_ok agent ingress_key w v o hk is) [
        | inl none_found ↦ absurd (cc (none_found, answered))
        | inr (identity', m, answered', found) ↦
            (identity, g, cc (found, answered, answered'), seen, same, late)
      ]

  -- An agent that becomes stalled in a visit, whatever the outcome of it and the faults: its list has a
  -- head, and the monitor had seen the same head at least `stall_seconds` ago.
  pub visit-decide :
      (key ingress_key agent port_type : Text) (s : Monitor) (w : World R.Db)
      → agent_key pod tenant agent (codes "ingress") ≡ ok ingress_key
      → elem_text agent s.stalled ≡ false
      → elem_text agent (visit R json pod tenant readings key agent port_type s w).1.stalled ≡ true
      → (identity : Text) × (g : Sighting) × (head_identity readings.replaced
            (R.items w.db ingress_key)
          ≡ some identity)
        × (sighting_of agent s.watch ≡ some g)
        × (g.identity ≡ identity)
        × (readings.stall_seconds ≤ readings.now - g.since)
  unfolding visit
  visit-decide key ingress_key agent port_type s w hk calm h =
      visit_stuck key ingress_key agent port_type s w (head R json pod tenant readings agent w) hk
        calm refl h
