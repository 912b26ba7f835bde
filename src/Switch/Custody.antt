-- ===== src/Switch/Custody.antt =====
-- Where a popped frame is after the switch has dealt with it.
use h_mesh.Base.{
  ℕ, ◌≡◌, ◌≢◌, refl, subst, ◌⊎◌, inl, inr, false, Option, none, some, List, leb, ◌-◌, Text, codes,
}
use h_mesh.Errors.{
  Exc, Result, ok, raise, ◌>>=◌, require, or_raise, value_error, runtime_error, retry_exhausted,
}
use h_mesh.Keys.{agent_key}
use h_mesh.Envelope.Header.{Raw}
use h_mesh.Redis.{Redis}
use h_mesh.Redis.World.{World, Action, after, lift, lift_elim, catching_ok, command}
use h_mesh.Queues.{
  Reply, appended, full, Admission, admitted, rejected, ingress_keys, admission, push_each,
  admit_script, admit_ingress, is_nonempty, get_elem?,
}
use h_mesh.Queues.Bounds.{admit_script-full, admit_script-push_each}
use h_mesh.Switch.Retry.{retrying}
use h_mesh.Switch.Effects.{IsHonest, Outcome, Runs, command_lem, retrying_lem, retrying-command}
use h_mesh.Switch.Forward.{Settings, dead_letter, raise_cause, admit, note_unknown, admit_frame}

module _ (R : Redis) (settings : Settings) where
  Outcome-ok :
      {A : Type 0} (E : R.Db → A → R.Db → Type 0) (d : R.Db) (p : Result A × World R.Db) {a : A}
      {v : World R.Db}
      → Outcome E d p
      → p ≡ (ok a, v)
      → E d a v.db × IsHonest v
  Outcome-ok E d p h e = subst (Outcome E d) e h

  raise_cause_raises :
      (e : Exc) (v : World R.Db) {u : World R.Db} → raise_cause R settings e v ≢ (ok tt, u)
  raise_cause_raises (retry_exhausted c cause n) v h = absurd (cc h)
  raise_cause_raises e v h = absurd (cc h)

  -- A dead-letter that returned is one append to the sender's dead list.
  pub dead_letter-rpush :
      (sender : Text) (raw : Raw) (w : World R.Db) {w' : World R.Db}
      → IsHonest w
      → dead_letter R settings sender raw w ≡ (ok tt, w')
      → (k : Text) × ((agent_key settings.pod settings.tenant sender (codes "dead") ≡ ok k)
          × (w'.db ≡ R.rpush w.db k raw)
          × IsHonest w')
  unfolding dead_letter
  dead_letter-rpush sender raw w {w'} honest_w h =
      lift_elim (agent_key settings.pod settings.tenant sender (codes "dead")) _ h λ key at h1.
        let written =
          catching_ok
            (retrying settings.frame_retry_attempts false (command λ d. (tt, R.rpush d key raw)))
            (raise_cause R settings) h1 (λ e v. raise_cause_raises e v) in
        let (ran, honest_w') =
          Outcome-ok (Runs (λ d. (tt, R.rpush d key raw))) w.db _
            (retrying-command (λ d. (tt, R.rpush d key raw)) settings.frame_retry_attempts w
              honest_w)
            written in
        (key, (at, cc ran, honest_w'))

  -- What admission does to the database.
  abbrev pub Admits : List Text → Raw → R.Db → Admission → R.Db → Type 0
  Admits names raw d admitted d' =
      (keys : List Text) × ((ingress_keys settings.pod settings.tenant names ≡ ok keys)
        × (d' ≡ push_each R d keys raw))
  Admits names raw d (rejected name depth) d' = d' ≡ d

  script_placed :
      (names keys : List Text) (limit : ℕ) (raw : Raw) (d : R.Db) (reply : Reply) {d' : R.Db}
      → ingress_keys settings.pod settings.tenant names ≡ ok keys
      → admit_script R keys limit raw d ≡ (reply, d')
      → (d' ≡ d) ⊎ Admits names raw d admitted d'
  script_placed names keys limit raw d appended at h =
      inr (keys, (at, admit_script-push_each R keys limit raw d h))
  script_placed names keys limit raw d (full i n) at h =
      inl (admit_script-full R keys limit raw d h).0

  told_full :
      (names : List Text) (raw : Raw) (d : R.Db) (o : Option Text) (n : ℕ) (v : World R.Db)
      → v.db ≡ d
      → IsHonest v
      → Outcome (Admits names raw) d (or_raise o runtime_error >>= λ name. ok (rejected name n), v)
  told_full names raw d none n v same honest_v = (inl same, honest_v)
  told_full names raw d (some name) n v same honest_v = (same, honest_v)

  told_lem :
      (names : List Text) (keys : List Text) (raw : Raw) (d : R.Db) (reply : Reply) (v : World R.Db)
      → ingress_keys settings.pod settings.tenant names ≡ ok keys
      → admit_script R keys settings.ingress_max raw d ≡ (reply, v.db)
      → IsHonest v
      → Outcome (Admits names raw) d (admission names reply, v)
  unfolding admission
  told_lem names keys raw d appended v at ran honest_v =
      ((keys, (at, admit_script-push_each R keys settings.ingress_max raw d ran)), honest_v)
  told_lem names keys raw d (full i n) v at ran honest_v =
      told_full names raw d (get_elem? names (i - 1)) n v
        (admit_script-full R keys settings.ingress_max raw d ran).0 honest_v

  script-Outcome :
      (names keys : List Text) (raw : Raw) (d : R.Db) (p : Result Reply × World R.Db)
      → ingress_keys settings.pod settings.tenant names ≡ ok keys
      → Outcome (Runs (admit_script R keys settings.ingress_max raw)) d p
      → Outcome (Admits names raw) d (after p.0 (λ reply. lift (admission names reply)) p.1)
  script-Outcome names keys raw d (ok reply, v) at (ran, honest_v) =
      told_lem names keys raw d reply v at ran honest_v
  script-Outcome names keys raw d (raise e, v) at (inl same, honest_v) = (inl same, honest_v)
  script-Outcome names keys raw d (raise e, v) at (inr (blind, (reply, ran)), honest_v) =
      elim (script_placed names keys settings.ingress_max raw d reply at ran) [
        | inl same ↦ (inl same, honest_v)
        | inr placed ↦ (inr (blind, (admitted, placed)), honest_v)
      ]

  lift-Outcome :
      {A B : Type 0} (E : R.Db → B → R.Db → Type 0) (r : Result A) (f : A → Action R.Db B)
      (w : World R.Db)
      → IsHonest w
      → ((a : A) → r ≡ ok a → Outcome E w.db (f a w))
      → Outcome E w.db (after r f w)
  lift-Outcome E (ok a) f w honest_w next = next a refl
  lift-Outcome E (raise e) f w honest_w next = (inl refl, honest_w)

  pub admit-Outcome :
      (names : List Text) (raw : Raw) (w : World R.Db)
      → IsHonest w
      → Outcome (Admits names raw) w.db (admit R settings names raw w)
  unfolding admit_ingress
  admit-Outcome names raw w honest_w =
      lift-Outcome (Admits names raw) (require (is_nonempty names) value_error) _ w honest_w λ _ _.
        lift-Outcome (Admits names raw) (require (leb 1 settings.ingress_max) value_error) _ w
          honest_w
          λ _ _.
            lift-Outcome (Admits names raw) (ingress_keys settings.pod settings.tenant names) _ w
              honest_w
              λ keys at.
                script-Outcome names keys raw w.db _ at
                  (command_lem (admit_script R keys settings.ingress_max raw) w honest_w)

  note_unknown_raises :
      (e : Exc) (v : World R.Db) {adm : Admission} {u : World R.Db}
      → note_unknown R settings e v ≢ (ok adm, u)
  note_unknown_raises (retry_exhausted c cause n) v h = absurd (cc h)
  note_unknown_raises e v h = absurd (cc h)

  pub admit_frame-Admits :
      (names : List Text) (raw : Raw) (w : World R.Db) {w' : World R.Db} {adm : Admission}
      → IsHonest w
      → admit_frame R settings names raw w ≡ (ok adm, w')
      → Admits names raw w.db adm w'.db × IsHonest w'
  unfolding admit_frame
  admit_frame-Admits names raw w honest_w h =
      Outcome-ok (Admits names raw) w.db _
        (retrying_lem (Admits names raw) (admit R settings names raw) settings.frame_retry_attempts
          (λ u. admit-Outcome names raw u) w honest_w)
        (catching_ok (retrying settings.frame_retry_attempts false (admit R settings names raw))
          (note_unknown R settings) h (λ e v. note_unknown_raises e v))
