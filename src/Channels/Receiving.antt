-- ===== src/Channels/Receiving.antt =====
-- `receive` as a whole, under any faults and from any state of the lists.
use h_mesh.Base.{
  ℕ, ◌+◌, ◌≤◌, ◌<◌, ◌≡◌, ◌≢◌, refl, sym, ap, subst, ◌∙◌, inl, inr, Bool, true, false, Option, none,
  some, Text, arith,
}
use h_mesh.Errors.{Result, ok, raise}
use h_mesh.Envelope.Values.{Fields}
use h_mesh.Envelope.Header.{Raw}
use h_mesh.Envelope.Frames.{Json}
use h_mesh.Redis.{Redis}
use h_mesh.Redis.World.{World, Action, after, andthen, command, after_cases}
use h_mesh.Channels.{Lua, Moment}
use h_mesh.Channels.Custody.{Custody, custody_keys, head_of, claim_script}
use h_mesh.Channels.Receive.{Shows, claimed, drain, claim_and_drain, receive_with, receive}
use h_mesh.Channels.Places.{ingress, processing, opening, custody_keys-apart}
use h_mesh.Channels.Moves.{size}
use h_mesh.Channels.Progress.{Progress, Progress-trans, claim-Progress, claim_sizes, claims}
use h_mesh.Channels.Opening.{IsSame}
use h_mesh.Channels.Claiming.{read_ok, read_raise, claim_ok, claim_raise}
use h_mesh.Channels.Draining.{
  same_db-Progress, length-head_of, Surfaced, Drained, surface_opening-Surfaced, drain-Drained,
}

module _ (R : Redis) (c : Custody) where
  -- What `receive` leaves: the receipts may lose entries only where their list is full.
  abbrev pub Received : ℕ → World R.Db → Result Bool × World R.Db → Type 0
  Received fuel w (ok true, v) =
      Progress R c w v × (claims R c w.db ≤ 1 → claims R c v.db ≡ 0) × (size R c v.db ingress ≡ 0)
  Received fuel w (ok false, v) =
      Progress R c w v
      × (claims R c w.db ≤ 1 → claims R c v.db ≤ 1)
      × (fuel ≤ claims R c w.db + size R c w.db ingress)
  Received fuel w (raise e, v) = Progress R c w v × (claims R c w.db ≤ 1 → claims R c v.db ≤ 1)

  -- From the claimed frame on: `v` follows the loop over the opening list, and `u` the claim.
  Received-claimed :
      (fuel : ℕ) (raw : Raw) (w u : World R.Db) (p : Result Bool × World R.Db)
      → Progress R c w u
      → (claims R c w.db ≤ 1 → claims R c u.db ≤ 1)
      → size R c u.db ingress ≤ size R c w.db ingress
      → Drained R c fuel (some raw) u p
      → Received fuel w p
  Received-claimed fuel raw w u (ok true, x) h n i (k, m, z) =
      (Progress-trans R c h k, λ few. omega (arith, n few, m), z)
  Received-claimed fuel raw w u (ok false, x) h n i (k, m, f) =
      (Progress-trans R c h k, λ few. omega (arith, n few, m), omega (arith, i, f))
  Received-claimed fuel raw w u (raise e, x) h n i (k, m) =
      (Progress-trans R c h k, λ few. omega (arith, n few, m))

module _ (R : Redis) (c : Custody) where
  pub Received-Progress :
      (fuel : ℕ) (w : World R.Db) (p : Result Bool × World R.Db)
      → Received R c fuel w p
      → Progress R c w p.1
  Received-Progress fuel w (ok true, v) (h, n, z) = h
  Received-Progress fuel w (ok false, v) (h, n, f) = h
  Received-Progress fuel w (raise e, v) (h, n) = h

  pub Received-claims :
      (fuel : ℕ) (w : World R.Db) (p : Result Bool × World R.Db)
      → Received R c fuel w p
      → claims R c w.db ≤ 1
      → claims R c p.1.db ≤ 1
  Received-claims fuel w (ok true, v) (h, n, z) few = omega (arith, n few)
  Received-claims fuel w (ok false, v) (h, n, f) few = n few
  Received-claims fuel w (raise e, v) (h, n) few = n few

  pub Received-drained :
      (fuel : ℕ) (w : World R.Db) (p : Result Bool × World R.Db)
      → Received R c fuel w p
      → p.0 ≡ ok true
      → claims R c w.db ≤ 1
      → (size R c p.1.db ingress ≡ 0) × (claims R c p.1.db ≡ 0)
  Received-drained fuel w (ok true, v) (h, n, z) is few = (z, n few)
  Received-drained fuel w (ok false, v) h is few = absurd (cc is)
  Received-drained fuel w (raise e, v) h is few = absurd (cc is)

  pub Received-total :
      (fuel : ℕ) (w : World R.Db) (p : Result Bool × World R.Db)
      → Received R c fuel w p
      → claims R c w.db + size R c w.db ingress < fuel
      → p.0 ≢ ok false
  Received-total fuel w (ok true, v) h enough is = absurd (cc is)
  Received-total fuel w (ok false, v) (h, n, f) enough is = absurd (omega (arith, f, enough))
  Received-total fuel w (raise e, v) h enough is = absurd (cc is)

module _ (R : Redis) (json : Json) (lua : Lua) (shows : Shows) (pod tenant agent : Text)
    (openers : Text → Option (Fields → Action R.Db (Unit {0}))) {c : Custody}
    (built : custody_keys pod tenant agent ≡ ok c)
    (quiet : (kind : Text) (opener : Fields → Action R.Db (Unit {0}))
      → openers kind ≡ some opener
      → (envelope : Fields) (w : World R.Db) → IsSame R c w (opener envelope w).1)
    (moments : ℕ → Moment) (fuel : ℕ) where
  -- Opening is empty, and so is processing where no frame was found in it.
  head-Received :
      (o : Option Raw) (w u : World R.Db)
      → Progress R c w u
      → claims R c u.db ≤ claims R c w.db
      → size R c u.db opening ≡ 0
      → size R c u.db ingress ≡ size R c w.db ingress
      → (o ≡ none → size R c u.db processing ≡ 0)
      → Received R c fuel w (
          andthen
            (claimed R json lua shows pod tenant agent openers c moments o)
            (drain R json lua shows pod tenant agent openers c moments fuel)
            u)
  unfolding drain
  head-Received (some raw) w u h n z i empty =
      Received-claimed R c fuel raw w u _ h (λ few. omega (arith, n, few)) (omega (arith, i))
        (drain-Drained R json lua shows pod tenant agent openers built quiet moments fuel raw u)
  head-Received none w u h n z i empty =
      let none_claimed : claims R c u.db ≡ 0 = ground (arith, z, empty refl) in
      after_cases (Received R c fuel w) (command (claim_script R c) u) _
        (λ o v ran.
          let (claim, calls) = claim_ok R c (custody_keys-apart pod tenant agent built) u ran in
          elim claim [
            | inl (none_left, same_db, drained) ↦
                subst
                  (λ x.
                    Received R c fuel w
                      (drain R json lua shows pod tenant agent openers c moments fuel x v))
                  (sym none_left)
                  (
                    Progress-trans R c h (same_db-Progress R c same_db calls),
                    (λ few. ◌∙◌ (ap (λ d. claims R c d) same_db) none_claimed),
                    ◌∙◌ (ap (λ d. size R c d ingress) same_db) drained,
                  )
            | inr ((raw, is), s) ↦
                subst
                  (λ x.
                    Received R c fuel w
                      (drain R json lua shows pod tenant agent openers c moments fuel x v))
                  (sym is)
                  (Received-claimed R c fuel raw w v _
                    (Progress-trans R c h (claim-Progress R c calls s))
                    (λ few. omega (arith, none_claimed, (claim_sizes R c s).0))
                    (omega (arith, i, (claim_sizes R c s).1))
                    (drain-Drained R json lua shows pod tenant agent openers built quiet moments
                      fuel raw v))
          ])
        (λ e v failed.
          let (claim, calls) =
            claim_raise R c (custody_keys-apart pod tenant agent built) u failed in
          elim claim [
            | inl same_db ↦ (
              Progress-trans R c h (same_db-Progress R c same_db calls),
              λ few. omega (arith, none_claimed, ap (λ d. claims R c d) same_db),
            )
            | inr s ↦ (
              Progress-trans R c h (claim-Progress R c calls s),
              λ few. omega (arith, none_claimed, (claim_sizes R c s).0),
            )
          ])

  Surfaced-Received :
      (w : World R.Db) (p : Result Bool × World R.Db)
      → Surfaced R c fuel w p
      → Received R c fuel w
          (after p.0 (claim_and_drain R json lua shows pod tenant agent openers c moments fuel) p.1)
  Surfaced-Received w (ok true, v) (h, n, z, i) =
      after_cases (Received R c fuel w) (command (λ d. (head_of (R.items d c.processing), d)) v) _
        (λ o u read.
          let (is, same_db, calls) = read_ok (λ d. head_of (R.items d c.processing)) v read in
          head-Received o w u (Progress-trans R c h (same_db-Progress R c same_db calls))
            (ground (arith, n, ap (λ d. claims R c d) same_db))
            (◌∙◌ (ap (λ d. size R c d opening) same_db) z)
            (◌∙◌ (ap (λ d. size R c d ingress) same_db) i)
            (λ none_found.
              ◌∙◌ (ap (λ d. size R c d processing) same_db)
                (length-head_of R c (R.items v.db c.processing) (◌∙◌ (sym is) none_found))))
        (λ e u failed.
          let (same_db, calls) = read_raise (λ d. head_of (R.items d c.processing)) v failed in
          (
            Progress-trans R c h (same_db-Progress R c same_db calls),
            λ few. ground (arith, n, few, ap (λ d. claims R c d) same_db),
          ))
  Surfaced-Received w (ok false, v) (h, n, f) = (h, λ few. omega (arith, n, few), omega (arith, f))
  Surfaced-Received w (raise e, v) (h, n) = (h, λ few. omega (arith, n, few))

  pub receive-Received :
      (w : World R.Db)
      → Received R c fuel w (receive R json lua shows pod tenant agent openers moments fuel w)
  unfolding receive receive_with
  receive-Received w = rw built (
      Surfaced-Received w _ (
        surface_opening-Surfaced R json lua shows pod tenant agent openers built quiet moments fuel
          w))
