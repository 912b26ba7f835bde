-- ===== src/Switch/Placement.antt =====
-- h-app/core/service.py: the whole of `_forward`, and where it leaves a popped frame.
use h_mesh.Base.{
  ◌≡◌, ◌≢◌, subst, =t_eq, =t-self, ==→eq, eq→==, Bool-cases, ◌==◌, ◌=t◌, refl, ◌∙◌, ◌⊎◌, inl, inr,
  Bool, true, [], ◌∷◌, if◌then◌else◌, Text, codes,
}
use h_mesh.Errors.{>>=_elim, Reason, envelope_error, Result, ok, raise}
use h_mesh.Envelope.Header.{Raw, Header, stamp_source, advance_hop, parse_for_switch}
use h_mesh.Envelope.Frames.{Json, Fresh}
use h_mesh.Keys.{tenant_key}
use h_mesh.Registry.{names_of}
use h_mesh.Redis.{Redis}
use h_mesh.Redis.World.{World, lift_elim}
use h_mesh.Switch.Effects.{IsHonest}
use h_mesh.Switch.Conservation.{IsDead, IsPassed, dead_lettered-IsDead, unicast-placed}
use h_mesh.Switch.Broadcasts.{IsAnnounced, broadcast-placed}
use h_mesh.Switch.Forward.{
  Settings, broadcast, stamped, on_hop, on_parse, forward, dead_lettered, unicast, erase, sort,
}

-- The frame and the envelope that are hopped: the popped ones where the sender stands in the frame, and
-- the ones with the sender stamped on them where another name does.
abbrev pub IsStamped : Text → Raw → Header → Raw → Header → Type 0
IsStamped sender raw h base h' =
    ((h.source ≡ sender) × (base ≡ raw) × (h' ≡ h))
    ⊎ ((h.source ≢ sender)
        × (stamp_source raw sender ≡ ok base)
        × (h' ≡ record h { source = sender }))

-- Where a frame goes that could be hopped: onto the sender's dead list once it has expired, and
-- otherwise onto that list or to its destination, all members of the registry but the sender in the
-- case of "all".
pub data IsRouted (R : Redis) (settings : Settings) (sender : Text) (frame : Raw) (hop : Header)
    (d d' : R.Db) : Type 0 where
  expired :
      hop.ttl ≡ 0 → IsDead R settings sender frame d d' → IsRouted R settings sender frame hop d d'
  announced :
      (key : Text)
      → hop.ttl ≢ 0
      → hop.destination ≡ codes "all"
      → tenant_key settings.pod settings.tenant (codes "registry") ≡ ok key
      → (IsDead R settings sender frame d d')
        ⊎ (IsAnnounced R settings sender
            (names_of (sort (erase sender (R.entries d key))))
            frame
            d
            d')
      → IsRouted R settings sender frame hop d d'
  delivered :
      hop.ttl ≢ 0
      → hop.destination ≢ codes "all"
      → (IsDead R settings sender frame d d')
        ⊎ (IsPassed R settings (hop.destination ∷ []) frame d d')
      → IsRouted R settings sender frame hop d d'

-- What became of a popped frame, by what it is: `d` is the database before, `d'` after.
pub data IsForwarded (R : Redis) (settings : Settings) (sender : Text) (raw : Raw) (d d' : R.Db)
    : Type 0 where
  unparsed :
      (reason : Reason)
      → parse_for_switch raw ≡ raise (envelope_error reason)
      → IsDead R settings sender raw d d'
      → IsForwarded R settings sender raw d d'
  exhausted :
      (h h' : Header) (base : Raw) (reason : Reason)
      → parse_for_switch raw ≡ ok h
      → IsStamped sender raw h base h'
      → advance_hop base h' ≡ raise (envelope_error reason)
      → IsDead R settings sender base d d'
      → IsForwarded R settings sender raw d d'
  hopped :
      (h h' hop : Header) (base frame : Raw)
      → parse_for_switch raw ≡ ok h
      → IsStamped sender raw h base h'
      → advance_hop base h' ≡ ok (frame, hop)
      → IsRouted R settings sender frame hop d d'
      → IsForwarded R settings sender raw d d'

module _ (R : Redis) (settings : Settings) (json : Json) (fresh : Fresh) where
  hop_choice :
      (sender : Text) (frame : Raw) (hop : Header) (w : World R.Db) {w' : World R.Db} {b : Bool}
      → IsHonest w
      → (if hop.ttl == 0
            then dead_lettered R settings sender frame
            else if hop.destination =t codes "all"
            then broadcast R settings json fresh sender frame hop
            else unicast R settings sender frame hop)
          w
        ≡ (ok b, w')
      → IsRouted R settings sender frame hop w.db w'.db
  hop_choice sender frame hop w honest_w h = elim (Bool-cases (hop.ttl == 0)) [
    | inl over ↦
        expired (==→eq hop.ttl 0 over)
          (dead_lettered-IsDead R settings sender frame w w.db refl honest_w (rw over at h))
    | inr left ↦
        let lives : hop.ttl ≢ 0 = λ e. cc (left, eq→== hop.ttl 0 e) in
        elim (Bool-cases (hop.destination =t codes "all")) [
          | inl e ↦
              let (key, is, went) =
                broadcast-placed R settings json fresh sender frame hop w honest_w
                  (rw (left, e) at h) in
              announced key lives (=t_eq hop.destination (codes "all") e) is went
          | inr e ↦
              delivered lives
                (λ same.
                  cc (e, subst (λ t. (hop.destination =t t) ≡ true) same (=t-self hop.destination)))
                (unicast-placed R settings sender frame hop w honest_w (rw (left, e) at h))
        ]
  ]

  on_hop-IsForwarded :
      (sender : Text) (raw base : Raw) (h h' : Header) (r : Result (Raw × Header)) (w : World R.Db)
      {w' : World R.Db} {b : Bool}
      → IsHonest w
      → parse_for_switch raw ≡ ok h
      → IsStamped sender raw h base h'
      → advance_hop base h' ≡ r
      → on_hop R settings json fresh sender base r w ≡ (ok b, w')
      → IsForwarded R settings sender raw w.db w'.db
  on_hop-IsForwarded sender raw base h h' (raise (envelope_error reason)) w honest_w parsed at hop
        run =
      exhausted h h' base reason parsed at hop
        (dead_lettered-IsDead R settings sender base w w.db refl honest_w run)
  on_hop-IsForwarded sender raw base h h' (ok (frame, hop)) w honest_w parsed at is run =
      hopped h h' hop base frame parsed at is (hop_choice sender frame hop w honest_w run)
  on_hop-IsForwarded sender raw base h h' (raise e) w honest_w parsed at hop run = absurd (cc run)

  stamped-IsStamped :
      (sender : Text) (raw : Raw) (h : Header) {base : Raw} {h' : Header}
      → stamped R settings json fresh sender raw h ≡ ok (base, h')
      → IsStamped sender raw h base h'
  stamped-IsStamped sender raw h {base} {h'} e = elim (Bool-cases (h.source =t sender)) [
    | inl same ↦
        let is : ◌≡◌ {A = Result (Raw × Header)} (ok (raw, h)) (ok (base, h')) = rw same at e in
        inl (=t_eq h.source sender same, cc is, cc is)
    | inr other ↦ >>=_elim (stamp_source raw sender) (rw other at e) λ r at rest.
        let is : ◌≡◌ {A = Result (Raw × Header)} (ok (r, record h { source = sender }))
            (ok (base, h')) =
          rest in
        inr (
          (λ same. cc (other, subst (λ t. (h.source =t t) ≡ true) same (=t-self h.source))),
          ◌∙◌ at (cc is),
          cc is,
        )
  ]

  on_parse-IsForwarded :
      (sender : Text) (raw : Raw) (r : Result Header) (w : World R.Db) {w' : World R.Db} {b : Bool}
      → IsHonest w
      → parse_for_switch raw ≡ r
      → on_parse R settings json fresh sender raw r w ≡ (ok b, w')
      → IsForwarded R settings sender raw w.db w'.db
  on_parse-IsForwarded sender raw (raise (envelope_error reason)) w honest_w parsed run =
      unparsed reason parsed (dead_lettered-IsDead R settings sender raw w w.db refl honest_w run)
  on_parse-IsForwarded sender raw (ok h) w honest_w parsed run =
      lift_elim (stamped R settings json fresh sender raw h) _ run λ p at rest.
        on_hop-IsForwarded sender raw p.0 h p.1 _ w honest_w parsed
          (stamped-IsStamped sender raw h at) refl rest
  on_parse-IsForwarded sender raw (raise e) w honest_w parsed run = absurd (cc run)

  -- A popped frame: under honest faults, when `forward` returns, then one of these cases holds, and in
  -- each the database is changed by just what it says. The frame does not parse, and it is appended once
  -- to the sender's dead list; it cannot be hopped, and with the source stamped where it was another
  -- name, it is appended once to that list; it could be hopped and its ttl is then 0, and it is appended
  -- once to that list; its destination is "all", and it is appended once to that list or once to the
  -- ingress list of every member of the registry but the sender, and after it at most one notice to the
  -- ingress list of the sender; its destination is another name, and it is appended once to that list or
  -- once to the ingress list of that name. The appended frame is the stamped and hopped one.
  pub forward-IsForwarded :
      (sender : Text) (raw : Raw) (w : World R.Db) {w' : World R.Db} {b : Bool}
      → IsHonest w
      → forward R settings json fresh sender raw w ≡ (ok b, w')
      → IsForwarded R settings sender raw w.db w'.db
  unfolding forward
  forward-IsForwarded sender raw w honest_w h =
      on_parse-IsForwarded sender raw (parse_for_switch raw) w honest_w refl h
