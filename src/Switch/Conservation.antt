-- ===== src/Switch/Conservation.antt =====
-- The places of a frame that the switch has dealt with: h-app/core/service.py, `_forward` on a frame
-- with one destination.
use h_mesh.Base.{
  ◌≡◌, sym, ap, subst, ◌∙◌, ◌⊎◌, inl, inr, Bool, true, Option, none, some, List, [], ◌∷◌, Text,
  codes,
}
use h_mesh.Errors.{ok}
use h_mesh.Keys.{agent_key}
use h_mesh.Envelope.Header.{Raw, Header}
use h_mesh.Envelope.Frames.{header_fields}
use h_mesh.Redis.{Redis}
use h_mesh.Redis.World.{World, Action, andthen, andthen_elim, returns}
use h_mesh.Queues.{Admission, admitted, rejected, ingress_keys, push_each}
use h_mesh.Switch.Retry.{retrying}
use h_mesh.Switch.Effects.{IsHonest}
use h_mesh.Switch.Reads.{Quiet, retrying-Quiet, port_type-Quiet, kick-Quiet}
use h_mesh.Switch.Custody.{Admits, dead_letter-rpush, admit_frame-Admits}
use h_mesh.Registry.{port_type}
use h_mesh.Switch.Forward.{
  Settings, dead_letter, dead_lettered, admit_frame, kick, after_admission, deliver, unicast,
}

module _ (R : Redis) (settings : Settings) where
  -- One copy on the sender's dead list, and nothing else.
  abbrev pub IsDead : Text → Raw → R.Db → R.Db → Type 0
  IsDead sender frame d d' =
      (k : Text) × ((agent_key settings.pod settings.tenant sender (codes "dead") ≡ ok k)
        × (d' ≡ R.rpush d k frame))

  -- One copy on the ingress list of each name, and nothing else.
  abbrev pub IsPassed : List Text → Raw → R.Db → R.Db → Type 0
  IsPassed names frame d d' =
      (keys : List Text) × ((ingress_keys settings.pod settings.tenant names ≡ ok keys)
        × (d' ≡ push_each R d keys frame))

  pub dead_lettered-IsDead :
      (sender : Text) (frame : Raw) (w : World R.Db) (d : R.Db) {w' : World R.Db} {b : Bool}
      → w.db ≡ d
      → IsHonest w
      → dead_lettered R settings sender frame w ≡ (ok b, w')
      → IsDead sender frame d w'.db
  dead_lettered-IsDead sender frame w d {w'} at honest_w h =
      andthen_elim (dead_letter R settings sender frame) _ h λ _ v written rest.
        let (k, (key, done, _)) = dead_letter-rpush R settings sender frame w honest_w written in
        let same : v ≡ w' = cc rest in
        (k, (key, ◌∙◌ (ap World.db (sym same)) (◌∙◌ done (ap (λ x. R.rpush x k frame) at))))

  -- After the admission of a frame: it is passed on or dead, given that what follows admission leaves
  -- it so.
  pub after_admission_lem :
      (sender : Text) (names : List Text) (frame : Raw) (go : Action R.Db Bool) (w v : World R.Db)
      (adm : Admission) {w' : World R.Db} {b : Bool}
      → Admits R settings names frame w.db adm v.db
      → IsHonest v
      → after_admission R settings sender frame go adm v ≡ (ok b, w')
      → (IsDead sender frame w.db w'.db) ⊎ ((IsPassed names frame w.db v.db) × (go v ≡ (ok b, w')))
  after_admission_lem sender names frame go w v admitted placed honest_v h = inr (placed, h)
  after_admission_lem sender names frame go w v (rejected name depth) same honest_v h =
      inl (dead_lettered-IsDead sender frame v w.db same honest_v h)

  kicked_lem :
      (envelope : Header) (t : Text) (v : World R.Db) {w' : World R.Db} {b : Bool}
      → IsHonest v
      → andthen
          (kick R settings envelope.destination (some t) (header_fields envelope))
          (λ _. returns true)
          v
        ≡ (ok b, w')
      → v.db ≡ w'.db
  kicked_lem envelope t v {w'} honest_v h =
      andthen_elim (kick R settings envelope.destination (some t) (header_fields envelope)) _ h
        λ _ u kicked rest.
          let quiet = subst (Quiet v.db) kicked (
            kick-Quiet R settings envelope.destination (some t) (header_fields envelope) v
              honest_v) in
          let same : u ≡ w' = cc rest in ◌∙◌ (sym quiet.0) (ap World.db same)

  deliver_lem :
      (sender : Text) (frame : Raw) (envelope : Header) (o : Option Text) (w : World R.Db)
      (d : R.Db) {w' : World R.Db} {b : Bool}
      → w.db ≡ d
      → IsHonest w
      → deliver R settings sender frame envelope o w ≡ (ok b, w')
      → (IsDead sender frame d w'.db) ⊎ (IsPassed (envelope.destination ∷ []) frame d w'.db)
  deliver_lem sender frame envelope none w d at honest_w h =
      inl (dead_lettered-IsDead sender frame w d at honest_w h)
  deliver_lem sender frame envelope (some t) w d {w'} at honest_w h =
      andthen_elim (admit_frame R settings (envelope.destination ∷ []) frame) _ h
        λ adm v let_in rest.
          let (placed, honest_v) =
            admit_frame-Admits R settings (envelope.destination ∷ []) frame w honest_w let_in in
          let settled : (IsDead sender frame w.db w'.db)
              ⊎ (IsPassed (envelope.destination ∷ []) frame w.db w'.db) =
            elim (after_admission_lem sender (envelope.destination ∷ []) frame _ w v adm placed
              honest_v rest) [
                | inl dead ↦ inl dead
                | inr (passed, gone) ↦ inr (
                    subst (IsPassed (envelope.destination ∷ []) frame w.db)
                      (kicked_lem envelope t v honest_v gone) passed)
              ] in
          subst
            (λ x.
              (IsDead sender frame x w'.db) ⊎ (IsPassed (envelope.destination ∷ []) frame x w'.db))
            at settled

  -- A frame with one destination, under honest faults: when `unicast` returns, the frame has been appended once to the
  -- sender's dead list or once to the destination's ingress list.
  pub unicast-placed :
      (sender : Text) (frame : Raw) (envelope : Header) (w : World R.Db) {w' : World R.Db}
      {b : Bool}
      → IsHonest w
      → unicast R settings sender frame envelope w ≡ (ok b, w')
      → (IsDead sender frame w.db w'.db) ⊎ (IsPassed (envelope.destination ∷ []) frame w.db w'.db)
  unfolding unicast
  unicast-placed sender frame envelope w {w'} honest_w h =
      andthen_elim
        (retrying settings.frame_retry_attempts true
          (port_type R settings.pod settings.tenant envelope.destination))
        _ h
        λ o v asked rest.
          let quiet = subst (Quiet w.db) asked (
            retrying-Quiet (port_type R settings.pod settings.tenant envelope.destination)
              settings.frame_retry_attempts (λ u. port_type-Quiet R settings envelope.destination u)
              w honest_w) in
          deliver_lem sender frame envelope o v w.db quiet.0 quiet.1 rest
