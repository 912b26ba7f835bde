-- ===== src/Channels/Draining.antt =====
-- The loops of `receive`: they end with the fuel that the lists give, drain the ingress list and leave
-- no claim behind.
use h_mesh.Base.{
  ℕ, zero, suc, ◌+◌, ◌≤◌, ◌≡◌, refl, sym, ap, subst, ◌∙◌, inl, inr, Bool, true, false, Option, none,
  some, List, [], ◌∷◌, length, Text, ◌=t◌, arith,
}
use h_mesh.Errors.{Result, ok, raise}
use h_mesh.Envelope.Values.{Fields}
use h_mesh.Envelope.Header.{Raw}
use h_mesh.Envelope.Frames.{Json, parse}
use h_mesh.Redis.{Redis}
use h_mesh.Redis.World.{World, Action, after, andthen, lift, command, after_cases}
use h_mesh.Channels.{Lua, Moment}
use h_mesh.Channels.Custody.{Custody, custody_keys, head_of, claim_script}
use h_mesh.Channels.Receive.{Shows, surface_next, surface_opening, parsed, drain}
use h_mesh.Channels.Places.{Place, ingress, processing, opening, place, same, custody_keys-apart}
use h_mesh.Channels.Moves.{size, Shift}
use h_mesh.Channels.Progress.{
  Progress, Progress-refl, Progress-trans, Progress-same, claim-Progress, claim_sizes, claims,
}
use h_mesh.Channels.Claims.{Settles}
use h_mesh.Channels.Opening.{IsSame, Settles-trans, surface-Settles, open_received-Settles}
use h_mesh.Channels.Claiming.{read_ok, read_raise, claim_ok, claim_raise}

module _ (R : Redis) (c : Custody) where
  -- The database and the calls as they were.
  pub same_db-Progress :
      {v w : World R.Db} → w.db ≡ v.db → w.opener_calls ≡ v.opener_calls → Progress R c v w
  same_db-Progress e calls = Progress-same R c (λ p. ap (λ d. R.items d (place c p)) e) calls

  pub length-head_of : (xs : List Raw) → head_of xs ≡ none → length xs ≡ 0
  length-head_of [] h = refl
  length-head_of (x ∷ xs) h = cc

  -- After the loop over the opening list.
  abbrev pub Surfaced : ℕ → World R.Db → Result Bool × World R.Db → Type 0
  Surfaced fuel w (ok true, v) =
      Progress R c w v
      × (claims R c v.db ≤ claims R c w.db)
      × (size R c v.db opening ≡ 0)
      × (size R c v.db ingress ≡ size R c w.db ingress)
  Surfaced fuel w (ok false, v) =
      Progress R c w v × (claims R c v.db ≤ claims R c w.db) × (fuel ≤ claims R c w.db)
  Surfaced fuel w (raise e, v) = Progress R c w v × (claims R c v.db ≤ claims R c w.db)

  -- One round more.
  Surfaced-suc :
      (fuel : ℕ) (w v : World R.Db) (p : Result Bool × World R.Db)
      → Progress R c w v
      → claims R c v.db + 1 ≡ claims R c w.db
      → size R c v.db ingress ≡ size R c w.db ingress
      → Surfaced fuel v p
      → Surfaced (suc fuel) w p
  Surfaced-suc fuel w v (ok true, u) h n i (k, m, z, j) =
      (Progress-trans R c h k, omega (arith, n, m), z, ◌∙◌ j i)
  Surfaced-suc fuel w v (ok false, u) h n i (k, m, f) =
      (Progress-trans R c h k, omega (arith, n, m), omega (arith, f, n))
  Surfaced-suc fuel w v (raise e, u) h n i (k, m) = (Progress-trans R c h k, omega (arith, n, m))

  -- After the loop over the ingress list, where a frame is claimed or none is left.
  abbrev pub owed : Option Raw → ℕ
  owed none = 0
  owed (some raw) = 1

  abbrev pub Drained : ℕ → Option Raw → World R.Db → Result Bool × World R.Db → Type 0
  Drained fuel o w (ok true, v) =
      Progress R c w v × (claims R c v.db + owed o ≡ claims R c w.db) × (size R c v.db ingress ≡ 0)
  Drained fuel o w (ok false, v) =
      Progress R c w v × (claims R c v.db ≤ claims R c w.db) × (fuel ≤ size R c w.db ingress)
  Drained fuel o w (raise e, v) = Progress R c w v × (claims R c v.db ≤ claims R c w.db)

module _ (R : Redis) (json : Json) (lua : Lua) (shows : Shows) (pod tenant agent : Text)
    (openers : Text → Option (Fields → Action R.Db (Unit {0}))) {c : Custody}
    (built : custody_keys pod tenant agent ≡ ok c)
    (quiet : (kind : Text) (opener : Fields → Action R.Db (Unit {0}))
      → openers kind ≡ some opener
      → (envelope : Fields) (w : World R.Db) → IsSame R c w (opener envelope w).1)
    (moments : ℕ → Moment) where
  apart : (p q : Place) → (place c p =t place c q) ≡ same p q
  apart = custody_keys-apart pod tenant agent built

  module _ (fuel : ℕ) (again : Action R.Db Bool)
      (ih : (u : World R.Db) → Surfaced R c fuel u (again u)) where
    settled_once :
        (w : World R.Db) (checked : Result (Unit {0})) (p : Result (Unit {0}) × World R.Db)
        → Settles R c w p
        → Surfaced R c (suc fuel) w (after p.0 (λ _. andthen (lift checked) λ _. again) p.1)
    settled_once w (ok y) (ok x, u) (h, n, i) = Surfaced-suc R c fuel w u (again u) h n i (ih u)
    settled_once w (raise e) (ok x, u) (h, n, i) = (h, omega (arith, n))
    settled_once w checked (raise e, u) (h, n, i) = (h, n)

    surface_next-Surfaced :
        (o : Option Raw) (w v : World R.Db)
        → o ≡ head_of (R.items w.db c.opening)
        → v.db ≡ w.db
        → v.opener_calls ≡ w.opener_calls
        → Surfaced R c
            (suc fuel)
            w
            (surface_next R json lua shows pod tenant agent openers c again o v)
    surface_next-Surfaced none w v is same_db calls = (
      same_db-Progress R c same_db calls,
      ground (arith, ap (λ d. claims R c d) same_db),
      ◌∙◌ (ap (λ d. size R c d opening) same_db)
          (length-head_of R c (R.items w.db c.opening) (sym is)),
      ap (λ d. size R c d ingress) same_db,
    )
    surface_next-Surfaced (some raw) w v is same_db calls =
        settled_once w (parsed R json lua shows pod tenant agent openers c (parse json raw)) _ (
          Settles-trans R c w v _ (same_db-Progress R c same_db calls)
            (ap (λ d. claims R c d) same_db) (ap (λ d. size R c d ingress) same_db)
            (surface-Settles R json lua shows pod tenant agent openers built quiet (moments 0) raw _
              v))

  pub surface_opening-Surfaced :
      (fuel : ℕ) (w : World R.Db)
      → Surfaced R c fuel w (surface_opening R json lua shows pod tenant agent openers c fuel w)
  unfolding surface_opening
  surface_opening-Surfaced zero w = (Progress-refl R c w, omega arith, omega arith)
  surface_opening-Surfaced (suc fuel) w =
      after_cases (Surfaced R c (suc fuel) w) (command (λ d. (head_of (R.items d c.opening), d)) w)
        _
        (λ o v read.
          let (is, same_db, calls) = read_ok (λ d. head_of (R.items d c.opening)) w read in
          surface_next-Surfaced fuel
            (surface_opening R json lua shows pod tenant agent openers c fuel)
            (surface_opening-Surfaced fuel) o w v is same_db calls)
        (λ e v failed.
          let (same_db, calls) = read_raise (λ d. head_of (R.items d c.opening)) w failed in
          (same_db-Progress R c same_db calls, ground (arith, ap (λ d. claims R c d) same_db)))

  -- The claim that follows a settled one.
  drain_claimed :
      (fuel : ℕ) (raw next : Raw) (w v u : World R.Db) (p : Result Bool × World R.Db)
      → Progress R c w v
      → claims R c v.db + 1 ≡ claims R c w.db
      → size R c v.db ingress ≡ size R c w.db ingress
      → u.opener_calls ≡ v.opener_calls
      → Shift R c ingress processing 0 v.db u.db
      → Drained R c fuel (some next) u p
      → Drained R c (suc fuel) (some raw) w p
  drain_claimed fuel raw next w v u (ok true, x) h n i calls s (k, m, z) =
      let (more, less) = claim_sizes R c s in
      (
        Progress-trans R c h (Progress-trans R c (claim-Progress R c calls s) k),
        omega (arith, n, m, more),
        z,
      )
  drain_claimed fuel raw next w v u (ok false, x) h n i calls s (k, m, f) =
      let (more, less) = claim_sizes R c s in
      (
        Progress-trans R c h (Progress-trans R c (claim-Progress R c calls s) k),
        omega (arith, n, m, more),
        omega (arith, f, less, i),
      )
  drain_claimed fuel raw next w v u (raise e, x) h n i calls s (k, m) =
      let (more, less) = claim_sizes R c s in
      (
        Progress-trans R c h (Progress-trans R c (claim-Progress R c calls s) k),
        omega (arith, n, m, more),
      )

  module _ (fuel : ℕ)
      (ih : (next : Raw) (u : World R.Db)
        → Drained R c fuel
            (some next)
            u
            (drain R json lua shows pod tenant agent openers c moments fuel (some next) u)) where
    drain_next :
        (raw : Raw) (w v : World R.Db)
        → Progress R c w v
        → claims R c v.db + 1 ≡ claims R c w.db
        → size R c v.db ingress ≡ size R c w.db ingress
        → Drained R c (suc fuel) (some raw) w (
            andthen
              (command (claim_script R c))
              (drain R json lua shows pod tenant agent openers c moments fuel)
              v)
    unfolding drain
    drain_next raw w v h n i =
        after_cases (Drained R c (suc fuel) (some raw) w) (command (claim_script R c) v) _
          (λ o u ran.
            let (claim, calls) = claim_ok R c apart v ran in
            elim claim [
              | inl (none_left, same_db, empty) ↦
                  subst
                    (λ x.
                      Drained R c (suc fuel) (some raw) w
                        (drain R json lua shows pod tenant agent openers c moments fuel x u))
                    (sym none_left)
                    (
                      Progress-trans R c h (same_db-Progress R c same_db calls),
                      ground (arith, n, ap (λ d. claims R c d) same_db),
                      ◌∙◌ (ap (λ d. size R c d ingress) same_db) empty,
                    )
              | inr ((next, is), s) ↦
                  subst
                    (λ x.
                      Drained R c (suc fuel) (some raw) w
                        (drain R json lua shows pod tenant agent openers c moments fuel x u))
                    (sym is) (drain_claimed fuel raw next w v u _ h n i calls s (ih next u))
            ])
          (λ e u failed.
            let (claim, calls) = claim_raise R c apart v failed in
            elim claim [
              | inl same_db ↦ (
                Progress-trans R c h (same_db-Progress R c same_db calls),
                ground (arith, n, ap (λ d. claims R c d) same_db),
              )
              | inr s ↦ (
                Progress-trans R c h (claim-Progress R c calls s),
                omega (arith, n, (claim_sizes R c s).0),
              )
            ])

    drain_settled :
        (raw : Raw) (w : World R.Db) (p : Result (Unit {0}) × World R.Db)
        → Settles R c w p
        → Drained R c (suc fuel) (some raw) w (
            after p.0
              (λ _.
                andthen
                  (command (claim_script R c))
                  (drain R json lua shows pod tenant agent openers c moments fuel))
              p.1)
    drain_settled raw w (ok x, v) (h, n, i) = drain_next raw w v h n i
    drain_settled raw w (raise e, v) (h, n, i) = (h, n)

  pub drain-Drained :
      (fuel : ℕ) (raw : Raw) (w : World R.Db)
      → Drained R c fuel
          (some raw)
          w
          (drain R json lua shows pod tenant agent openers c moments fuel (some raw) w)
  unfolding drain
  drain-Drained zero raw w = (Progress-refl R c w, omega arith, omega arith)
  drain-Drained (suc fuel) raw w = drain_settled fuel (drain-Drained fuel) raw w _ (
      open_received-Settles R json lua shows pod tenant agent openers built quiet (moments fuel) raw
        w)
