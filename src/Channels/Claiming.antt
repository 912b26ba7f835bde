-- ===== src/Channels/Claiming.antt =====
-- The reads and the claims of `receive`.
use h_mesh.Base.{
  ◌≡◌, refl, sym, ap, subst, ◌∙◌, ◌⊎◌, inl, inr, Option, none, some, List, [], ◌∷◌, length, ◌=t◌,
  arith,
}
use h_mesh.Errors.{Exc, ok, raise}
use h_mesh.Envelope.Header.{Raw}
use h_mesh.Redis.{Redis}
use h_mesh.Redis.World.{World, command, command_any, command_ok}
use h_mesh.Channels.Custody.{Custody, claim_from, claim_script}
use h_mesh.Channels.Places.{Place, ingress, processing, place, same}
use h_mesh.Channels.Moves.{size, Shift, size-put_items, size-rpush}

-- A read that was made: the value is that of the database, which is left alone.
module _ {Db : Type 0} {A : Type 0} (g : Db → A) (w : World Db) where
  pub read_ok :
      {a : A} {v : World Db}
      → command (λ d. (g d, d)) w ≡ (ok a, v)
      → (a ≡ g w.db) × (v.db ≡ w.db) × (v.opener_calls ≡ w.opener_calls)
  read_ok h =
      let (ran, _) = command_ok (λ d. (g d, d)) w h in
      let (_, calls) = command_any (λ d. (g d, d)) w in
      (cc ran, sym (cc ran), ◌∙◌ (sym (ap (λ r. World.opener_calls (r.1)) h)) calls)

  pub read_raise :
      {e : Exc} {v : World Db}
      → command (λ d. (g d, d)) w ≡ (raise e, v)
      → (v.db ≡ w.db) × (v.opener_calls ≡ w.opener_calls)
  read_raise h =
      let (any, calls) = command_any (λ d. (g d, d)) w in
      let same_db : (command (λ d. (g d, d)) w).1.db ≡ w.db = elim any [ inl e ↦ e | inr e ↦ e ] in
      (
        ◌∙◌ (sym (ap (λ r. World.db (r.1)) h)) same_db,
        ◌∙◌ (sym (ap (λ r. World.opener_calls (r.1)) h)) calls,
      )

module _ (R : Redis) (c : Custody)
    (apart : (p q : Place) → (place c p =t place c q) ≡ same p q) where
  claim-Shift :
      (d : R.Db) (raw : Raw) (rest : List Raw)
      → R.items d c.ingress ≡ raw ∷ rest
      → Shift R c ingress processing 0 d (R.rpush (R.put_items d c.ingress rest) c.processing raw)
  claim-Shift d raw rest h =
      let d1 = R.put_items d c.ingress rest in
      record {
        taken = ground (
          arith,
          ap length h,
          size-put_items R c apart d ingress ingress rest,
          size-rpush R c apart d1 processing ingress raw,
        );
        given = inl (
            ground (
              arith,
              size-put_items R c apart d ingress processing rest,
              size-rpush R c apart d1 processing processing raw,
            ));
        others = λ r pr qr. ground (
          arith,
          size-put_items R c apart d ingress r rest,
          size-rpush R c apart d1 processing r raw,
        );
      }

  claim_cases :
      (d : R.Db) (xs : List Raw) {o : Option Raw} {d' : R.Db}
      → R.items d c.ingress ≡ xs
      → claim_from R c xs d ≡ (o, d')
      → ((o ≡ none) × (d' ≡ d) × (size R c d ingress ≡ 0))
        ⊎ (((raw : Raw) × (o ≡ some raw)) × Shift R c ingress processing 0 d d')
  claim_cases d [] is h = inl (cc h, cc h, ap length is)
  claim_cases d (raw ∷ rest) is h =
      inr ((raw, cc h), subst (Shift R c ingress processing 0 d) (cc h) (claim-Shift d raw rest is))

  -- The reply and the effect of the claim.
  pub claim_lem :
      (d : R.Db) {o : Option Raw} {d' : R.Db}
      → claim_script R c d ≡ (o, d')
      → ((o ≡ none) × (d' ≡ d) × (size R c d ingress ≡ 0))
        ⊎ (((raw : Raw) × (o ≡ some raw)) × Shift R c ingress processing 0 d d')
  unfolding claim_script
  claim_lem d h = claim_cases d (R.items d c.ingress) refl h

  -- The claim as a command, under any faults.
  pub claim_ok :
      (w : World R.Db) {o : Option Raw} {v : World R.Db}
      → command (claim_script R c) w ≡ (ok o, v)
      → (((o ≡ none) × (v.db ≡ w.db) × (size R c w.db ingress ≡ 0))
          ⊎ (((raw : Raw) × (o ≡ some raw)) × Shift R c ingress processing 0 w.db v.db))
        × (v.opener_calls ≡ w.opener_calls)
  claim_ok w h =
      let (_, calls) = command_any (claim_script R c) w in
      (
        claim_lem w.db (command_ok (claim_script R c) w h).0,
        ◌∙◌ (sym (ap (λ r. World.opener_calls (r.1)) h)) calls,
      )

  pub claim_raise :
      (w : World R.Db) {e : Exc} {v : World R.Db}
      → command (claim_script R c) w ≡ (raise e, v)
      → ((v.db ≡ w.db) ⊎ Shift R c ingress processing 0 w.db v.db)
        × (v.opener_calls ≡ w.opener_calls)
  claim_raise w h =
      let (any, calls) = command_any (claim_script R c) w in
      let at = sym (ap (λ r. World.db (r.1)) h) in
      let calls_v = ◌∙◌ (sym (ap (λ r. World.opener_calls (r.1)) h)) calls in
      elim any [
        | inl same_db ↦ (inl (◌∙◌ at same_db), calls_v)
        | inr did ↦
            elim (claim_lem w.db {o = (claim_script R c w.db).0} {d' = (claim_script R c w.db).1}
              refl) [
                | inl (_, kept, _) ↦ (inl (◌∙◌ at (◌∙◌ did kept)), calls_v)
                | inr (_, shift) ↦ (
                  inr (subst (Shift R c ingress processing 0 w.db) (◌∙◌ (sym did) (sym at)) shift),
                  calls_v,
                )
              ]
      ]
