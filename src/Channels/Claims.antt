-- ===== src/Channels/Claims.antt =====
-- One claimed frame: what `_open_received` does to the custody lists.
use h_mesh.Base.{ℕ, ◌+◌, ◌≤◌, ◌≡◌, refl, ap, ◌⊎◌, inl, inr, true, false, ◌=t◌, arith}
use h_mesh.Errors.{Result, ok, raise}
use h_mesh.Envelope.Header.{Raw}
use h_mesh.Redis.{Redis}
use h_mesh.Redis.World.{World}
use h_mesh.Channels.Custody.{Custody, transfer, opened_receipt_max}
use h_mesh.Channels.Places.{
  Place, ingress, processing, opening, opened, unresolved, dead, place, same,
}
use h_mesh.Channels.Moves.{size, Shift}
use h_mesh.Channels.Transfers.{transfer_any, transfer_ok}
use h_mesh.Channels.Progress.{
  Progress, Progress-same, claims, rejected-Progress, dead-Progress, unresolved-Progress,
  opened-Progress,
}

module _ (R : Redis) (c : Custody) where
  -- Progress that does not add claims or touch ingress, and settles one claim if it returns.
  abbrev pub Settles : {A : Type 0} → World R.Db → Result A × World R.Db → Type 0
  Settles w (ok a, v) =
      Progress R c w v
      × (claims R c v.db + 1 ≡ claims R c w.db)
      × (size R c v.db ingress ≡ size R c w.db ingress)
  Settles w (raise e, v) =
      Progress R c w v
      × (claims R c v.db ≤ claims R c w.db)
      × (size R c v.db ingress ≡ size R c w.db ingress)

  module _ (apart : (p q : Place) → (place c p =t place c q) ≡ same p q) where
    module _ (p q : Place) (bound : ℕ) (w : World R.Db)
        (settle : (v : World R.Db)
          → v.opener_calls ≡ w.opener_calls
          → Shift R c p q bound w.db v.db
          → Progress R c w v
            × (claims R c v.db + 1 ≡ claims R c w.db)
            × (size R c v.db ingress ≡ size R c w.db ingress)) where
      Settles-by :
          (r : Result (Unit {0}) × World R.Db)
          → ((r.1.db ≡ w.db) ⊎ Shift R c p q bound w.db r.1.db)
            × (r.1.opener_calls ≡ w.opener_calls)
          → (r.0 ≡ ok tt → Shift R c p q bound w.db r.1.db)
          → Settles w r
      Settles-by (ok tt, v) (any, calls) done = settle v calls (done refl)
      Settles-by (raise e, v) (inl same_db, calls) done = (
        Progress-same R c (λ x. ap (λ d. R.items d (place c x)) same_db) calls,
        ground (arith, ap (λ d. claims R c d) same_db),
        ap (λ d. size R c d ingress) same_db,
      )
      Settles-by (raise e, v) (inr shift, calls) done =
          let (progress, settled, kept) = settle v calls shift in
          (progress, omega (arith, settled), kept)

      -- A transfer that settles the claim when it moves the frame.
      transfer-Settles :
          (raw value : Raw)
          → same p p ≡ true
          → same q q ≡ true
          → same p q ≡ false
          → same q p ≡ false
          → Settles w (transfer R (place c p) (place c q) raw value bound w)
      transfer-Settles raw value pp qq pq qp =
          Settles-by (transfer R (place c p) (place c q) raw value bound w)
            (transfer_any R c apart p q pp qq pq qp raw value bound w)
            λ returned.
              transfer_ok R c apart p q pp qq pq qp raw value bound w
                (ap (λ x. (x, (transfer R (place c p) (place c q) raw value bound w).1)) returned)

    pub reject-Settles :
        (raw : Raw) (w : World R.Db) → Settles w (transfer R c.processing c.dead raw raw 0 w)
    reject-Settles raw w =
        transfer-Settles processing dead 0 w
          (λ v calls s. (
            rejected-Progress R c calls s,
            ground (arith, s.taken, s.others opening refl refl),
            s.others ingress refl refl,
          ))
          raw raw refl refl refl refl

    pub dead-Settles :
        (raw : Raw) (w : World R.Db) → Settles w (transfer R c.opening c.dead raw raw 0 w)
    dead-Settles raw w =
        transfer-Settles opening dead 0 w
          (λ v calls s. (
            dead-Progress R c calls s,
            ground (arith, s.taken, s.others processing refl refl),
            s.others ingress refl refl,
          ))
          raw raw refl refl refl refl

    pub unresolved-Settles :
        (raw value : Raw) (w : World R.Db)
        → Settles w (transfer R c.opening c.unresolved raw value 0 w)
    unresolved-Settles raw value w =
        transfer-Settles opening unresolved 0 w
          (λ v calls s. (
            unresolved-Progress R c calls s,
            ground (arith, s.taken, s.others processing refl refl),
            s.others ingress refl refl,
          ))
          raw value refl refl refl refl

    pub opened-Settles :
        (raw : Raw) (w : World R.Db)
        → Settles w (transfer R c.opening c.opened raw raw opened_receipt_max w)
    opened-Settles raw w =
        transfer-Settles opening opened opened_receipt_max w
          (λ v calls s. (
            opened-Progress R c calls s,
            ground (arith, s.taken, s.others processing refl refl),
            s.others ingress refl refl,
          ))
          raw raw refl refl refl refl
