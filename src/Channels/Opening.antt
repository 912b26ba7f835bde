-- ===== src/Channels/Opening.antt =====
-- `_open_received` settles the claim of its frame when it returns, and opens it at most once.
use h_mesh.Base.{
  ◌≡◌, refl, sym, ap, subst, ◌∙◌, ◌⊎◌, inl, inr, Option, none, some, ◌∷◌, length, Text, codes, ◌=t◌,
  arith,
}
use h_mesh.Errors.{Exc, envelope_error, dead_letter, Result, ok, raise}
use h_mesh.Envelope.Values.{Fields, get}
use h_mesh.Envelope.Header.{Raw}
use h_mesh.Envelope.Frames.{Json, parse}
use h_mesh.Redis.{Redis}
use h_mesh.Redis.World.{World, Action, after, after_cases}
use h_mesh.Channels.{Lua, Moment}
use h_mesh.Channels.Custody.{Custody, custody_keys, transfer}
use h_mesh.Channels.Receive.{
  Shows, dead_letter_with, surface, unresolved_record, after_open, open_with, on_frame,
  open_received, kind_of,
}
use h_mesh.Channels.Places.{
  Place, ingress, processing, opening, opened, unresolved, dead, place, same, custody_keys-apart,
}
use h_mesh.Channels.Moves.{size, Shift}
use h_mesh.Channels.Transfers.{transfer_any, transfer_ok}
use h_mesh.Channels.Still.{notify-Still}
use h_mesh.Channels.Progress.{
  Progress, Progress-refl, Progress-trans, Progress-same, opening-Progress, claims,
}
use h_mesh.Channels.Claims.{
  Settles, reject-Settles, dead-Settles, unresolved-Settles, opened-Settles,
}

module _ (R : Redis) (c : Custody) where
  -- Lists and opener calls as they were.
  abbrev pub IsSame : World R.Db → World R.Db → Type 0
  IsSame v w =
      ((p : Place) → R.items w.db (place c p) ≡ R.items v.db (place c p))
      × (w.opener_calls ≡ v.opener_calls)

  lift-Settles :
      {A B : Type 0} (r : Result A) (f : A → Action R.Db B) (w : World R.Db)
      → ((a : A) → r ≡ ok a → Settles R c w (f a w))
      → Settles R c w (after r f w)
  lift-Settles (ok a) f w h = h a refl
  lift-Settles (raise e) f w h = (Progress-refl R c w, omega arith, refl)

  -- What comes after an unsettled step settles the whole.
  pub Settles-trans :
      {A : Type 0} (w v : World R.Db) (p : Result A × World R.Db)
      → Progress R c w v
      → claims R c v.db ≡ claims R c w.db
      → size R c v.db ingress ≡ size R c w.db ingress
      → Settles R c v p
      → Settles R c w p
  Settles-trans w v (ok b, u) h n i (k, m, j) = (Progress-trans R c h k, ◌∙◌ m n, ◌∙◌ j i)
  Settles-trans w v (raise e, u) h n i (k, m, j) =
      (Progress-trans R c h k, omega (arith, m, n), ◌∙◌ j i)

  -- What comes after a settled step and leaves the lists alone keeps it settled.
  Settles-same :
      {A : Type 0} (w v : World R.Db) (p : Result A × World R.Db)
      → Settles R c {A = Unit {0}} w (ok tt, v)
      → IsSame v p.1
      → Settles R c w p
  Settles-same w v (ok b, u) (h, m, i) (lists, calls) = (
    Progress-trans R c h (Progress-same R c lists calls),
    ground (arith, m, ap length (lists processing), ap length (lists opening)),
    ◌∙◌ (ap length (lists ingress)) i,
  )
  Settles-same w v (raise e, u) (h, m, i) (lists, calls) = (
    Progress-trans R c h (Progress-same R c lists calls),
    ground (arith, m, ap length (lists processing), ap length (lists opening)),
    ◌∙◌ (ap length (lists ingress)) i,
  )

  Settles-then :
      {A : Type 0} (w : World R.Db) (p : Result (Unit {0}) × World R.Db)
      (f : Unit {0} → Action R.Db A)
      → Settles R c w p
      → ((v : World R.Db) → IsSame v (f tt v).1)
      → Settles R c w (after p.0 f p.1)
  Settles-then w (ok x, v) f h keep = Settles-same w v (f tt v) h (keep v)
  Settles-then w (raise e, v) f h keep = h

module _ (R : Redis) (json : Json) (lua : Lua) (shows : Shows) (pod tenant agent : Text)
    (openers : Text → Option (Fields → Action R.Db (Unit {0}))) {c : Custody}
    (built : custody_keys pod tenant agent ≡ ok c)
    (quiet : (kind : Text) (opener : Fields → Action R.Db (Unit {0}))
      → openers kind ≡ some opener
      → (envelope : Fields) (w : World R.Db) → IsSame R c w (opener envelope w).1)
    (moment : Moment) (raw : Raw) where
  apart : (p q : Place) → (place c p =t place c q) ≡ same p q
  apart = custody_keys-apart pod tenant agent built

  dead_letter_with-Settles :
      (envelope : Fields) (reason : Text) (source : Text) (w : World R.Db)
      → Settles R c w (transfer R source c.dead raw raw 0 w)
      → Settles R c w (
          dead_letter_with R json lua shows pod tenant agent openers c moment raw envelope reason
            source w)
  dead_letter_with-Settles envelope reason source w h = Settles-then R c w _ _ h λ v.
      notify-Still R json lua pod tenant agent built v shows openers moment envelope reason v
        ((λ p. refl), refl)

  pub surface-Settles :
      (reason : Text) (w : World R.Db)
      → Settles R c w (surface R json lua shows pod tenant agent openers c raw reason w)
  surface-Settles reason w =
      lift-Settles R c (unresolved_record R json lua shows pod tenant agent openers c raw reason) _
        w λ value at. unresolved-Settles R c apart raw value w

  after_open-Settles :
      (envelope : Fields) (result : Result (Unit {0})) (w : World R.Db)
      → Settles R c w
          (after_open R json lua shows pod tenant agent openers c moment raw envelope result w)
  after_open-Settles envelope (ok x) w = opened-Settles R c apart raw w
  after_open-Settles envelope (raise (dead_letter reason)) w =
      dead_letter_with-Settles envelope reason c.opening w (dead-Settles R c apart raw w)
  after_open-Settles envelope (raise e) w = surface-Settles _ w

  -- The frame is in the opening list and the opener has been called.
  opened_call :
      (w v u : World R.Db) (envelope : Fields) (result : Result (Unit {0}))
      → v.opener_calls ≡ w.opener_calls
      → Shift R c processing opening 0 w.db v.db
      → IsSame R c (record v { opener_calls = envelope ∷ v.opener_calls }) u
      → Settles R c w
          (after_open R json lua shows pod tenant agent openers c moment raw envelope result u)
  opened_call w v u envelope result calls s (lists, called) =
      let I = ap length (lists ingress) in
      let P = ap length (lists processing) in
      let O = ap length (lists opening) in
      let D = ap length (lists opened) in
      let U = ap length (lists unresolved) in
      let X = ap length (lists dead) in
      let progress : Progress R c w u = ground (
        arith,
        ap length calls,
        ap length called,
        I,
        P,
        O,
        D,
        U,
        X,
        s.taken,
        s.given,
        s.others ingress refl refl,
        s.others opened refl refl,
        s.others unresolved refl refl,
        s.others dead refl refl,
      ) in
      Settles-trans R c w u _ progress (ground (arith, P, O, s.taken, s.given))
        (ground (arith, I, s.others ingress refl refl)) (after_open-Settles envelope result u)

  not_opened :
      (w v : World R.Db) (e : Exc)
      → ((v.db ≡ w.db) ⊎ Shift R c processing opening 0 w.db v.db)
      → v.opener_calls ≡ w.opener_calls
      → Settles R c {A = Unit {0}} w (raise e, v)
  not_opened w v e (inl same_db) calls = (
    Progress-same R c (λ x. ap (λ d. R.items d (place c x)) same_db) calls,
    ground (arith, ap (λ d. claims R c d) same_db),
    ap (λ d. size R c d ingress) same_db,
  )
  not_opened w v e (inr s) calls =
      (opening-Progress R c calls s, ground (arith, s.taken, s.given), s.others ingress refl refl)

  open_with-Settles :
      (envelope : Fields) (kind : Text) (o : Option (Fields → Action R.Db (Unit {0})))
      (w : World R.Db)
      → openers kind ≡ o
      → Settles R c w
          (open_with R json lua shows pod tenant agent openers c moment raw envelope kind o w)
  open_with-Settles envelope kind none w at =
      dead_letter_with-Settles envelope _ c.processing w (reject-Settles R c apart raw w)
  open_with-Settles envelope kind (some opener) w at =
      let (any, calls) =
        transfer_any R c apart processing opening refl refl refl refl raw raw 0 w in
      after_cases (Settles R c w) (transfer R c.processing c.opening raw raw 0 w) _
        (λ x v moved.
          let shift =
            transfer_ok R c apart processing opening refl refl refl refl raw raw 0 w moved in
          opened_call w v _ envelope _ (◌∙◌ (sym (ap (λ r. World.opener_calls (r.1)) moved)) calls)
            shift
            (quiet kind opener at envelope (record v { opener_calls = envelope ∷ v.opener_calls })))
        (λ e v failed.
          not_opened w v e
            (subst
              (λ r. (World.db (r.1) ≡ w.db) ⊎ Shift R c processing opening 0 w.db (World.db (r.1)))
              failed any)
            (◌∙◌ (sym (ap (λ r. World.opener_calls (r.1)) failed)) calls))

  -- Under any faults, the claim is settled when `_open_received` returns, and otherwise no claim is
  -- added.
  pub open_received-Settles :
      (w : World R.Db)
      → Settles R c w (open_received R json lua shows pod tenant agent openers c moment raw w)
  unfolding open_received
  open_received-Settles w = on_parsed (parse json raw)
    where
      on_parsed :
          (r : Result Fields)
          → Settles R c w (on_frame R json lua shows pod tenant agent openers c moment raw r w)
      on_parsed (raise (envelope_error reason)) = reject-Settles R c apart raw w
      on_parsed (ok envelope) =
          lift-Settles R c (kind_of (get (codes "kind") envelope)) _ w
            λ kind at. open_with-Settles envelope kind (openers kind) w refl
      on_parsed (raise e) = (Progress-refl R c w, omega arith, refl)
