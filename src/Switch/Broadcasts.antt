-- ===== src/Switch/Broadcasts.antt =====
-- h-app/core/service.py: the broadcast branch of `_forward`, and the notice to its sender.
use h_mesh.Base.{
  ◌≡◌, refl, sym, ap, subst, ◌∙◌, ◌⊎◌, inl, inr, Bool, true, Option, List, [], ◌∷◌, Text, codes,
}
use h_mesh.Errors.{Result, ok, raise}
use h_mesh.Envelope.Values.{Fields, dict}
use h_mesh.Envelope.Header.{Raw, text, Header}
use h_mesh.Envelope.Frames.{Json, Fresh, encode}
use h_mesh.Keys.{tenant_key}
use h_mesh.Redis.{Redis}
use h_mesh.Redis.World.{World, andthen, andthen_elim, lift_elim, command_ok}
use h_mesh.Queues.{Admission, admitted, rejected, ingress_keys, push_each}
use h_mesh.Switch.Retry.{retrying}
use h_mesh.Switch.Effects.{IsHonest, Outcome}
use h_mesh.Switch.Reads.{
  Quiet, retrying-Quiet, member_types-Quiet, kick-Quiet, kick_each-Quiet, retrying-answers,
}
use h_mesh.Switch.Custody.{Admits, admit_frame-Admits, admit-Outcome}
use h_mesh.Switch.Conservation.{IsDead, IsPassed, after_admission_lem}
use h_mesh.Registry.{lookup, names_of, member_types}
use h_mesh.Switch.Forward.{
  Settings, notice_frame, after_notice, notify_broadcast_sender, notify_if_skipped, deliver_all,
  broadcast, erase, sort, admit_frame, kick, kick_each,
}

module _ (R : Redis) (settings : Settings) where
  -- As `IsPassed`, with at most a notice to the sender appended after it.
  abbrev pub IsAnnounced : Text → List Text → Raw → R.Db → R.Db → Type 0
  IsAnnounced sender names frame d d' =
      (m : R.Db) × (IsPassed R settings names frame d m
        × ((d' ≡ m) ⊎ ((notice : Raw) × IsPassed R settings (sender ∷ []) notice m d')))

  admit_notice :
      (sender : Text) (raw : Raw) (m : R.Db) (p : Result Admission × World R.Db)
      → Outcome (Admits R settings (sender ∷ []) raw) m p
      → ((p.1.db ≡ m) ⊎ ((notice : Raw) × IsPassed R settings (sender ∷ []) notice m p.1.db))
        × IsHonest p.1
  admit_notice sender raw m (ok admitted, v) (placed, h) = (inr (raw, placed), h)
  admit_notice sender raw m (ok (rejected name depth), v) (same, h) = (inl same, h)
  admit_notice sender raw m (raise e, v) (inl same, h) = (inl same, h)
  admit_notice sender raw m (raise e, v) (inr (blind, (admitted, placed)), h) =
      (inr (raw, placed), h)
  admit_notice sender raw m (raise e, v) (inr (blind, (rejected name depth, same)), h) =
      (inl same, h)

  abbrev AreMembers : R.Db → List (Text × Text) → Type 0
  AreMembers d types =
      (key : Text) × (tenant_key settings.pod settings.tenant (codes "registry") ≡ ok key)
      × (types ≡ R.entries d key)

  module _ (json : Json) (fresh : Fresh) where
    after_notice-db :
        (sender : Text) (t : Option Text) (notice : Fields) (r : Result Admission) (v : World R.Db)
        {w' : World R.Db} {a : Unit {0}}
        → IsHonest v
        → after_notice R settings json fresh sender t notice r v ≡ (ok a, w')
        → v.db ≡ w'.db
    after_notice-db sender t notice (ok admitted) v {w'} honest_v h =
        andthen_elim (kick R settings sender t notice) _ h λ _ u kicked rest.
          let quiet =
            subst (Quiet v.db) kicked (kick-Quiet R settings sender t notice v honest_v) in
          let same : u ≡ w' = cc rest in ◌∙◌ (sym quiet.0) (ap World.db same)
    after_notice-db sender t notice (ok (rejected name depth)) v {w'} honest_v h =
        let same : v ≡ w' = cc h in ap World.db same
    after_notice-db sender t notice (raise e) v {w'} honest_v h =
        let same : v ≡ w' = cc h in ap World.db same

    notify-Announced :
        (sender : Text) (t : Option Text) (envelope : Header) (skipped : List Text) (w : World R.Db)
        {w' : World R.Db} {a : Unit {0}}
        → IsHonest w
        → notify_broadcast_sender R settings json fresh sender t envelope skipped w ≡ (ok a, w')
        → (w'.db ≡ w.db) ⊎ ((notice : Raw) × IsPassed R settings (sender ∷ []) notice w.db w'.db)
    unfolding notify_broadcast_sender
    notify-Announced sender t envelope skipped w {w'} honest_w h =
        lift_elim (notice_frame R settings json fresh sender envelope skipped) _ h λ notice _ h1.
          lift_elim (encode json (dict notice)) _ h1 λ raw _ h2.
            let (told, honest_v) =
              admit_notice sender (text raw) w.db _
                (admit-Outcome R settings (sender ∷ []) (text raw) w honest_w) in
            let kept = after_notice-db sender t notice _ _ honest_v h2 in
            subst
              (λ x. (x ≡ w.db) ⊎ ((notice : Raw) × IsPassed R settings (sender ∷ []) notice w.db x))
              kept told

    notify_if_skipped-Announced :
        (sender : Text) (t : Option Text) (envelope : Header) (skipped : List Text) (w : World R.Db)
        {w' : World R.Db} {b : Bool}
        → IsHonest w
        → notify_if_skipped R settings json fresh sender t envelope skipped w ≡ (ok b, w')
        → (w'.db ≡ w.db) ⊎ ((notice : Raw) × IsPassed R settings (sender ∷ []) notice w.db w'.db)
    notify_if_skipped-Announced sender t envelope [] w {w'} honest_w h =
        let same : w ≡ w' = cc h in inl (ap World.db (sym same))
    notify_if_skipped-Announced sender t envelope (agent ∷ skipped) w {w'} honest_w h =
        andthen_elim
          (notify_broadcast_sender R settings json fresh sender t envelope (agent ∷ skipped)) _ h
          λ _ v told rest.
            let same : v ≡ w' = cc rest in
            subst
              (λ x.
                (World.db x ≡ w.db)
                ⊎ ((notice : Raw) × IsPassed R settings (sender ∷ []) notice w.db (World.db x)))
              same (notify-Announced sender t envelope (agent ∷ skipped) w honest_w told)

    -- What follows the admission of a broadcast.
    kicked_all :
        (sender : Text) (names : List Text) (frame : Raw) (t : Option Text) (envelope : Header)
        (ps : List (Text × Text)) (v : World R.Db) (d : R.Db) {w' : World R.Db} {b : Bool}
        → IsHonest v
        → IsPassed R settings names frame d v.db
        → andthen
            (kick_each R settings ps envelope)
            (notify_if_skipped R settings json fresh sender t envelope)
            v
          ≡ (ok b, w')
        → IsAnnounced sender names frame d w'.db
    kicked_all sender names frame t envelope ps v d {w'} honest_v passed h =
        andthen_elim (kick_each R settings ps envelope) _ h λ skipped u kicked rest.
          let quiet =
            subst (Quiet v.db) kicked
              (kick_each-Quiet R settings ps envelope v v.db refl honest_v) in
          (
            u.db,
            (
              subst (IsPassed R settings names frame d) (sym quiet.0) passed,
              notify_if_skipped-Announced sender t envelope skipped u quiet.1 rest,
            ),
          )

    IsPassed-none : (frame : Raw) (d : R.Db) → IsPassed R settings [] frame d d
    unfolding ingress_keys push_each
    IsPassed-none frame d = ([], (refl, refl))

    deliver_all-placed :
        (sender : Text) (frame : Raw) (envelope : Header) (t : Option Text)
        (ps : List (Text × Text)) (w : World R.Db) (d : R.Db) {w' : World R.Db} {b : Bool}
        → w.db ≡ d
        → IsHonest w
        → deliver_all R settings json fresh sender frame envelope t ps w ≡ (ok b, w')
        → (IsDead R settings sender frame d w'.db)
          ⊎ (IsAnnounced sender (names_of ps) frame d w'.db)
    deliver_all-placed sender frame envelope t [] w d {w'} at honest_w h =
        let same : w ≡ w' = cc h in
        inr (d, (IsPassed-none frame d, inl (◌∙◌ (ap World.db (sym same)) at)))
    deliver_all-placed sender frame envelope t (p ∷ ps) w d {w'} at honest_w h =
        andthen_elim (admit_frame R settings (names_of (p ∷ ps)) frame) _ h λ adm v let_in rest.
          let (placed, honest_v) =
            admit_frame-Admits R settings (names_of (p ∷ ps)) frame w honest_w let_in in
          let settled : (IsDead R settings sender frame w.db w'.db)
              ⊎ (IsAnnounced sender (names_of (p ∷ ps)) frame w.db w'.db) =
            elim (after_admission_lem R settings sender (names_of (p ∷ ps)) frame _ w v adm placed
              honest_v rest) [
                | inl dead ↦ inl dead
                | inr (passed, gone) ↦ inr (
                    kicked_all sender (names_of (p ∷ ps)) frame t envelope (p ∷ ps) v w.db honest_v
                      passed gone)
              ] in
          subst
            (λ x.
              (IsDead R settings sender frame x w'.db)
              ⊎ (IsAnnounced sender (names_of (p ∷ ps)) frame x w'.db))
            at settled

    members_are :
        (w v : World R.Db) (types : List (Text × Text)) (d : R.Db)
        → w.db ≡ d
        → member_types R settings.pod settings.tenant w ≡ (ok types, v)
        → AreMembers d types
    members_are w v types d at h =
        lift_elim (tenant_key settings.pod settings.tenant (codes "registry")) _ h λ key is rest.
          let (run, _) = command_ok (λ x. (R.entries x key, x)) w rest in
          (key, is, subst (λ x. types ≡ R.entries x key) at (sym (ap (λ p. p.0) run)))

    -- A broadcast that returned: once on the sender's dead list, or once on the ingress list of every
    -- member of the registry but the sender.
    pub broadcast-placed :
        (sender : Text) (frame : Raw) (envelope : Header) (w : World R.Db) {w' : World R.Db}
        {b : Bool}
        → IsHonest w
        → broadcast R settings json fresh sender frame envelope w ≡ (ok b, w')
        → (key : Text) × (tenant_key settings.pod settings.tenant (codes "registry") ≡ ok key)
          × ((IsDead R settings sender frame w.db w'.db)
              ⊎ (IsAnnounced sender
                  (names_of (sort (erase sender (R.entries w.db key))))
                  frame
                  w.db
                  w'.db))
    unfolding broadcast
    broadcast-placed sender frame envelope w {w'} honest_w h =
        andthen_elim
          (retrying settings.frame_retry_attempts true
            (member_types R settings.pod settings.tenant))
          _ h
          λ types v asked rest.
            let quiet = subst (Quiet w.db) asked (
              retrying-Quiet (member_types R settings.pod settings.tenant)
                settings.frame_retry_attempts (λ u. member_types-Quiet R settings u) w honest_w) in
            let (key, is, types_are) =
              retrying-answers (member_types R settings.pod settings.tenant) w.db (AreMembers w.db)
                (λ u. member_types-Quiet R settings u) (λ u ts x at. members_are u x ts w.db at)
                settings.frame_retry_attempts w v types refl honest_w asked in
            (
              key,
              is,
              subst
                  (λ ts.
                    (IsDead R settings sender frame w.db w'.db)
                    ⊎ (IsAnnounced sender (names_of (sort (erase sender ts))) frame w.db w'.db))
                  types_are
                  (deliver_all-placed sender frame envelope (lookup sender types)
                    (sort (erase sender types)) v w.db quiet.0 quiet.1 rest),
            )
