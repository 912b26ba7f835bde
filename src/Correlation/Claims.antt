-- ===== src/Correlation/Claims.antt =====
-- A correlation that was confirmed was claimed for the agent's present incarnation.
use h_mesh.Base.{
  ℕ, ◌++◌, arith, ◌≡◌, ◌≢◌, refl, sym, ap, subst, ◌∙◌, inl, inr, true, Option, none, some, [], ◌∷◌,
  Text, codes, Bool, false, ◌&&◌, if◌then◌else◌, ◌=t◌, =t_eq, =t-self, ne_=t, Bool-cases,
}
use h_mesh.Errors.{Result, ok, raise}
use h_mesh.Keys.Named.{incarnation_key}
use h_mesh.Keys.Structure.{prefix-injective}
use h_mesh.Envelope.Values.{Value}
use h_mesh.Redis.{Redis}
use h_mesh.Redis.World.{World, lift_elim, command_ok, command_calm}
use h_mesh.Correlation.{
  reply_id, claim_key, stored_is, incarnation_of, record_delivered, current_claim, verify_script,
  verdict, on_incarnation, read_claim, check_id, was_delivered,
}

module _ (R : Redis) (pod tenant agent : Text) where
  -- In the database `d` the agent has an incarnation, for which the id is claimed from the source.
  abbrev pub IsClaimed : R.Db → Text → Text → Type 0
  IsClaimed d stream_id source =
      (incarnation : Text) × (key : Text) × (claim : Text) × (incarnation_key pod tenant agent
        ≡ ok key)
      × (claim_key pod tenant agent stream_id incarnation ≡ ok claim)
      × (R.value d key ≡ some incarnation)
      × (R.value d claim ≡ some source)

  stored_is-true : (source : Text) (o : Option Text) → stored_is source o ≡ true → o ≡ some source
  stored_is-true source none h = absurd (cc h)
  stored_is-true source (some s) h = ap some (=t_eq s source h)

  current_claim-some :
      (claim incarnation source : Text) (o : Option Text) (d : R.Db)
      → current_claim R pod tenant agent claim incarnation o d ≡ some source
      → (o ≡ some incarnation) × (R.value d claim ≡ some source)
  current_claim-some claim incarnation source none d h = absurd (cc h)
  current_claim-some claim incarnation source (some current) d h =
      elim (Bool-cases (current =t incarnation)) [
        | inl e ↦ (ap some (=t_eq current incarnation e), rw e at h)
        | inr e ↦ absurd (cc (rw e at h))
      ]

  module _ (between : R.Db → R.Db) where
    read_claim_ok :
        (stream_id incarnation source : Text) (w v : World R.Db)
        → read_claim R pod tenant agent between stream_id incarnation w ≡ (ok (some source), v)
        → IsClaimed v.db stream_id source
    unfolding verify_script
    read_claim_ok stream_id incarnation source w v h =
        lift_elim (incarnation_key pod tenant agent) _ h λ key hk h1.
          lift_elim (claim_key pod tenant agent stream_id incarnation) _ h1 λ claim hc h2.
            let (run, _) =
              command_ok (verify_script R pod tenant agent key claim incarnation)
                (record w { db = between w.db }) h2 in
            let (is, there) =
              current_claim-some claim incarnation source (R.value (between w.db) key)
                (between w.db) (ap (λ p. p.0) run) in
            let same : between w.db ≡ v.db = ap (λ p. p.1) run in
            (
              incarnation,
              key,
              claim,
              hk,
              hc,
              subst (λ d. R.value d key ≡ some incarnation) same is,
              subst (λ d. R.value d claim ≡ some source) same there,
            )

    verdict-true :
        (stream_id incarnation source : Text) (w v : World R.Db)
        (p : Result (Option Text) × World R.Db)
        → read_claim R pod tenant agent between stream_id incarnation w ≡ p
        → verdict R pod tenant agent source p.0 p.1 ≡ (ok (some true), v)
        → IsClaimed v.db stream_id source
    verdict-true stream_id incarnation source w v (raise e, u) is h = absurd (cc h)
    verdict-true stream_id incarnation source w v (ok stored, u) is h =
        let same : u ≡ v = cc h in
        let found : stored_is source stored ≡ true = cc h in
        read_claim_ok stream_id incarnation source w v (
          subst (λ o. read_claim R pod tenant agent between stream_id incarnation w ≡ (ok o, v))
            (stored_is-true source stored found)
            (subst
              (λ x. read_claim R pod tenant agent between stream_id incarnation w ≡ (ok stored, x))
              same is))

    on_incarnation-true :
        (stream_id source : Text) (v : World R.Db) (p : Result (Option Text) × World R.Db)
        → on_incarnation R pod tenant agent between stream_id source p.0 p.1 ≡ (ok (some true), v)
        → IsClaimed v.db stream_id source
    on_incarnation-true stream_id source v (raise e, u) h = absurd (cc h)
    on_incarnation-true stream_id source v (ok none, u) h = absurd (cc h)
    on_incarnation-true stream_id source v (ok (some incarnation), u) h =
        verdict-true stream_id incarnation source u v
          (read_claim R pod tenant agent between stream_id incarnation u) refl h

    check_id-true :
        (source : Text) (w v : World R.Db) (o : Option Text)
        → check_id R pod tenant agent between source o w ≡ (ok (some true), v)
        → (id : Text) × (o ≡ some id) × IsClaimed v.db id source
    check_id-true source w v none h = absurd (cc h)
    check_id-true source w v (some id) h =
        (id, refl, on_incarnation-true id source v (incarnation_of R pod tenant agent w) h)

    -- A check that answers True, under any faults and whatever the other clients do between its two reads:
    -- in the database of the second read, the agent has an incarnation, under which the id is claimed from
    -- this very source.
    pub was_delivered-IsClaimed :
        (stream_id : Value) (source : Text) (w v : World R.Db)
        → was_delivered R pod tenant agent between stream_id source w ≡ (ok (some true), v)
        → (id : Text) × (reply_id stream_id ≡ some id) × IsClaimed v.db id source
    unfolding was_delivered
    was_delivered-IsClaimed stream_id source w v h = check_id-true source w v (reply_id stream_id) h

kept_claim :
    (kept : Bool) (source claimed : Text)
    → stored_is claimed (if kept then some source else none) ≡ (kept && (source =t claimed))
kept_claim true source claimed = refl
kept_claim false source claimed = refl

abbrev first_code : Option Text → ℕ
first_code none = 0
first_code (some []) = 0
first_code (some (c ∷ s)) = c

incarnation_key-claim_key :
    (pod tenant agent id incarnation : Text) {key claim : Text}
    → incarnation_key pod tenant agent ≡ ok key
    → claim_key pod tenant agent id incarnation ≡ ok claim
    → key ≢ claim
unfolding incarnation_key claim_key
incarnation_key-claim_key pod tenant agent id incarnation hk hc same =
    let (_, _, _, e) =
      prefix-injective pod tenant pod tenant (some agent) (some (codes "incarnation")) (some agent)
        (some (codes "delivered.s" ++ (id ++ (codes ".i" ++ incarnation)))) (◌∙◌ hk (ap ok same))
        hc in
    let c : 105 ≡ 100 = ap first_code e in absurd (omega (arith, c))

module _ (R : Redis) (pod tenant agent : Text) (stream_id : Value) {id incarnation key claim : Text}
    (valid : reply_id stream_id ≡ some id) (hk : incarnation_key pod tenant agent ≡ ok key)
    (hc : claim_key pod tenant agent id incarnation ≡ ok claim) where
  read_incarnation :
      (w : World R.Db)
      → w.faults ≡ []
      → R.value w.db key ≡ some incarnation
      → incarnation_of R pod tenant agent w ≡ (ok (some incarnation), record w { faults = [] })
  unfolding incarnation_of
  read_incarnation w calm is = rw (hk, command_calm (λ d. (R.value d key, d)) w calm, is) refl

  record_delivered_calm :
      (source : Text) (w : World R.Db)
      → w.faults ≡ []
      → R.value w.db key ≡ some incarnation
      → record_delivered R pod tenant agent stream_id source w
        ≡ (ok tt, record w { db = R.put_value w.db claim (some source); faults = [] })
  unfolding record_delivered
  record_delivered_calm source w calm is =
      rw
        (
          valid,
          read_incarnation w calm is,
          hc,
          command_calm (λ d. (tt {0}, R.put_value d claim (some source))) (record w { faults = [] })
              refl,
        )
        refl

  was_delivered_calm :
      (between : R.Db → R.Db) (source : Text) (w : World R.Db)
      → w.faults ≡ []
      → R.value w.db key ≡ some incarnation
      → R.value (between w.db) key ≡ some incarnation
      → (was_delivered R pod tenant agent between stream_id source w).0
        ≡ ok (some (stored_is source (R.value (between w.db) claim)))
  unfolding was_delivered verify_script
  was_delivered_calm between source w calm is still =
      rw
        (
          valid,
          read_incarnation w calm is,
          hk,
          hc,
          command_calm (verify_script R pod tenant agent key claim incarnation)
              (record w { db = between w.db; faults = [] }) refl,
          still,
          =t-self incarnation,
        )
        refl

  -- Without faults, and where the agent keeps its incarnation from the recording to the second read of
  -- the check, whatever else happens until then (`later` before the check, `between` its reads): the
  -- delivery is confirmed for its source and denied for every other source as long as its claim is
  -- `kept`, and it is denied for every source once the claim has expired.
  pub was_delivered-record_delivered :
      (kept : Bool) (source claimed : Text) (later between : R.Db → R.Db) (w : World R.Db)
      → w.faults ≡ []
      → R.value w.db key ≡ some incarnation
      → let d = (record_delivered R pod tenant agent stream_id source w).1.db in
        R.value (later d) key ≡ R.value d key
        → R.value (between (later d)) key ≡ R.value d key
        → R.value (between (later d)) claim ≡ (if kept then R.value d claim else none)
        → (was_delivered R pod tenant agent between stream_id claimed
            (record w { db = later d; faults = [] })).0
          ≡ ok (some (kept && (source =t claimed)))
  was_delivered-record_delivered kept source claimed later between w calm is same still left =
      let d : R.Db = R.put_value w.db claim (some source) in
      let made : (record_delivered R pod tenant agent stream_id source w).1.db ≡ d =
        ap (λ p. p.1.db) (record_delivered_calm source w calm is) in
      let there : R.value d key ≡ some incarnation =
        ◌∙◌ (R.value-put_value w.db claim (some source) key) (
          rw
            (ne_=t claim key
              (λ e. incarnation_key-claim_key pod tenant agent id incarnation hk hc (sym e)))
            is) in
      let stored : R.value d claim ≡ some source =
        ◌∙◌ (R.value-put_value w.db claim (some source) claim) (rw (=t-self claim) refl) in
      rw made (
        ◌∙◌
          (was_delivered_calm between claimed (record w { db = later d; faults = [] }) refl
            (◌∙◌ (rw made at same) there) (◌∙◌ (rw made at still) there))
          (ap (λ o. ok (some o))
            (◌∙◌ (ap (stored_is claimed) (◌∙◌ (rw made at left) (rw stored refl)))
              (kept_claim kept source claimed))))
