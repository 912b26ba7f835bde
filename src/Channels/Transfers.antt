-- ===== src/Channels/Transfers.antt =====
-- What a transfer between two custody lists leaves, under any faults.
use h_mesh.Base.{
  ℕ, ◌≡◌, refl, sym, subst, ◌∙◌, ◌⊎◌, inl, inr, Bool, true, false, not, ◌&&◌, if◌then◌else◌, ◌=t◌,
}
use h_mesh.Errors.{ok}
use h_mesh.Envelope.Header.{Raw}
use h_mesh.Redis.{Redis}
use h_mesh.Redis.World.{World, andthen_elim, command, command_any, command_ok, after_keeps}
use h_mesh.Channels.Custody.{
  Custody, holds, Moved, wrong_type, absent, moved, moved_list, transfer_script, moved_reply,
  transfer,
}
use h_mesh.Channels.Places.{Place, place, same}
use h_mesh.Channels.Moves.{Shift, moved_list-Shift}

module _ (R : Redis) (c : Custody) (apart : (p q : Place) → (place c p =t place c q) ≡ same p q)
    (p q : Place) (pp : same p p ≡ true) (qq : same q q ≡ true) (pq : same p q ≡ false)
    (qp : same q p ≡ false) where
  script_choice :
      (raw value : Raw) (bound : ℕ) (d : R.Db) (typed held : Bool)
      → (held ≡ true → holds raw (R.items d (place c p)) ≡ true)
      → (reply : Moved) (d' : R.Db)
      → ◌≡◌ {A = Moved × R.Db}
          (if not typed
            then (wrong_type, d)
            else if held
            then (moved, moved_list R (place c p) (place c q) raw value bound d)
            else (absent, d))
          (reply, d')
      → ((d' ≡ d) × (moved_reply R reply ≡ ok tt → ⊥)) ⊎ Shift R c p q bound d d'
  script_choice raw value bound d false held h reply d' e = inl (
    cc e,
    let is : wrong_type ≡ reply = cc e in subst (λ x. moved_reply R x ≡ ok tt → ⊥) is (λ k. cc k),
  )
  script_choice raw value bound d true false h reply d' e = inl (
    cc e,
    let is : absent ≡ reply = cc e in subst (λ x. moved_reply R x ≡ ok tt → ⊥) is (λ k. cc k),
  )
  script_choice raw value bound d true true h reply d' e = inr (
      subst (Shift R c p q bound d) (cc e)
        (moved_list-Shift R c apart p q pp qq pq qp raw value bound d (h refl)))

  script_lem :
      (raw value : Raw) (bound : ℕ) (d : R.Db) {reply : Moved} {d' : R.Db}
      → transfer_script R (place c p) (place c q) raw value bound d ≡ (reply, d')
      → ((d' ≡ d) × (moved_reply R reply ≡ ok tt → ⊥)) ⊎ Shift R c p q bound d d'
  unfolding transfer_script
  script_lem raw value bound d {reply} {d'} e =
      script_choice raw value bound d (R.list_or_none d (place c p) && R.list_or_none d (place c q))
        (holds raw (R.items d (place c p))) (λ h. h) reply d' e

  -- The frame has been moved once or not at all, and no opener has been called.
  pub transfer_any :
      (raw value : Raw) (bound : ℕ) (w : World R.Db)
      → (((transfer R (place c p) (place c q) raw value bound w).1.db ≡ w.db)
          ⊎ Shift R c p q bound w.db (transfer R (place c p) (place c q) raw value bound w).1.db)
        × ((transfer R (place c p) (place c q) raw value bound w).1.opener_calls ≡ w.opener_calls)
  unfolding transfer
  transfer_any raw value bound w =
      let script = transfer_script R (place c p) (place c q) raw value bound in
      let (ran, calls) = command_any script w in
      let kept : (((command script w).1.db ≡ w.db)
            ⊎ Shift R c p q bound w.db (command script w).1.db)
          × ((command script w).1.opener_calls ≡ w.opener_calls) =
        elim ran [
          | inl same_db ↦ (inl same_db, calls)
          | inr did ↦
              elim (script_lem raw value bound w.db {reply = (script w.db).0} {d' = (script w.db).1}
                refl) [
                  | inl (kept, _) ↦ (inl (◌∙◌ did kept), calls)
                  | inr shift ↦ (inr (subst (Shift R c p q bound w.db) (sym did) shift), calls)
                ]
        ] in
      after_keeps
        (λ v. ((v.db ≡ w.db) ⊎ Shift R c p q bound w.db v.db) × (v.opener_calls ≡ w.opener_calls))
        (command script w) _ kept λ reply v h. h

  -- A transfer that returns has moved the frame.
  pub transfer_ok :
      (raw value : Raw) (bound : ℕ) (w : World R.Db) {w' : World R.Db}
      → transfer R (place c p) (place c q) raw value bound w ≡ (ok tt, w')
      → Shift R c p q bound w.db w'.db
  unfolding transfer
  transfer_ok raw value bound w {w'} h =
      let script = transfer_script R (place c p) (place c q) raw value bound in
      andthen_elim (command script) _ h λ reply v ran rest.
        let (done, _) = command_ok script w ran in
        let is : v ≡ w' = cc rest in
        elim (script_lem raw value bound w.db done) [
          | inl (_, never) ↦ absurd (never (cc rest))
          | inr shift ↦ subst (λ x. Shift R c p q bound w.db (World.db x)) is shift
        ]
