-- ===== src/Dispatch/Runs.antt =====
-- Any run of holders and time: at most one holder inside the context has time left on its lease.
use h_mesh.Base.{
  ℕ, ◌+◌, ◌≤◌, ◌≡◌, ◌≢◌, refl, sym, subst, ◌∙◌, inl, inr, true, Option, none, some, List, [], ◌∷◌,
  Text, arith,
}
use h_mesh.Dispatch.Lease.{
  Lease, live, acquire, renew_script, release_script, Lock, All, without, Step, passes, enters,
  stays_out, renews, renews_unseen, leaves, leaves_unreleased, Reach, here, next, running,
}
use h_mesh.Dispatch.Exclusion.{
  IsCovered, IsBounded, IsDistinct, All-map, All-without, without_other, IsDistinct-without,
  IsDistinct-extend, All-extend, IsCovered-live, IsBounded-live, set_live-IsCovered,
  set_live-IsBounded, set_live-own, renew_live-IsCovered, renew_live-IsBounded, renew_live-own,
  release_live-IsCovered, release_live-IsBounded, IsCovered-later, IsBounded-later,
}

-- The invariant of the runs.
pub record IsGuarded (ms : ℕ) (s : Lock) : Type 0 where
  pub covered : All (IsCovered s.now s.lease) s.inside
  pub bounded : IsBounded s.now ms s.lease
  pub distinct : IsDistinct s.inside

module _ (P Q S : Lease → Type 0) (f : (h : Lease) → P h → Q h → S h) where
  All-map2 : (hs : List Lease) → All P hs → All Q hs → All S hs
  All-map2 [] p q = tt
  All-map2 (h ∷ hs) (p, ps) (q, qs) = (f h p q, All-map2 hs ps qs)

module _ (ms : ℕ) (s : Lock) (g : IsGuarded ms s) where
  acquire-covers :
      (token : Text) → All (IsCovered s.now (acquire s.now ms token s.lease).1) s.inside
  unfolding acquire
  acquire-covers token =
      All-map (IsCovered s.now s.lease) (IsCovered s.now (acquire s.now ms token s.lease).1)
        (λ h c.
          set_live-IsCovered s.now ms token (live s.now s.lease) h
            (IsCovered-live s.now s.lease h c))
        s.inside g.covered

  acquire-bound : (token : Text) → IsBounded s.now ms (acquire s.now ms token s.lease).1
  unfolding acquire
  acquire-bound token =
      set_live-IsBounded s.now ms token (live s.now s.lease)
        (IsBounded-live s.now ms s.lease g.bounded)

  renew-covers :
      (token : Text) → All (IsCovered s.now (renew_script s.now ms token s.lease).1) s.inside
  unfolding renew_script
  renew-covers token =
      All-map (IsCovered s.now s.lease) (IsCovered s.now (renew_script s.now ms token s.lease).1)
        (λ h c.
          renew_live-IsCovered s.now ms token (live s.now s.lease) h
            (IsBounded-live s.now ms s.lease g.bounded) (IsCovered-live s.now s.lease h c))
        s.inside g.covered

  renew-bound : (token : Text) → IsBounded s.now ms (renew_script s.now ms token s.lease).1
  unfolding renew_script
  renew-bound token =
      renew_live-IsBounded s.now ms token (live s.now s.lease)
        (IsBounded-live s.now ms s.lease g.bounded)

  release-covers :
      (token : Text)
      → All (IsCovered s.now (release_script s.now token s.lease).1) (without token s.inside)
  unfolding release_script
  release-covers token =
      All-map2 (λ h. h.token ≢ token) (IsCovered s.now s.lease)
        (IsCovered s.now (release_script s.now token s.lease).1)
        (λ h other c.
          release_live-IsCovered s.now ms token (live s.now s.lease) h other
            (IsCovered-live s.now s.lease h c))
        (without token s.inside) (without_other token s.inside)
        (All-without (IsCovered s.now s.lease) token s.inside g.covered)

  release-bound : (token : Text) → IsBounded s.now ms (release_script s.now token s.lease).1
  unfolding release_script
  release-bound token =
      release_live-IsBounded s.now ms token (live s.now s.lease)
        (IsBounded-live s.now ms s.lease g.bounded)

  Step-IsGuarded : {t : Lock} → Step ms s t → IsGuarded ms t
  unfolding acquire renew_script
  Step-IsGuarded (passes n e) = subst (IsGuarded ms) (sym e) (record {
    covered =
        All-map (IsCovered s.now s.lease) (IsCovered (s.now + n) s.lease)
          (IsCovered-later s.now n s.lease) s.inside g.covered;
    bounded = IsBounded-later s.now n ms s.lease g.bounded;
    distinct = g.distinct;
  })
  Step-IsGuarded (enters token new got e) = subst (IsGuarded ms) (sym e) (record {
    covered = (set_live-own s.now ms token (live s.now s.lease) got, acquire-covers token);
    bounded = acquire-bound token;
    distinct = (new, g.distinct);
  })
  Step-IsGuarded (stays_out token e) = subst (IsGuarded ms) (sym e) (record {
    covered = acquire-covers token;
    bounded = acquire-bound token;
    distinct = g.distinct;
  })
  Step-IsGuarded (renews token got e) = subst (IsGuarded ms) (sym e) (record {
    covered =
        All-extend (record { token = token; until = s.now + ms })
          (IsCovered s.now (renew_script s.now ms token s.lease).1)
          (renew_live-own s.now ms token (live s.now s.lease) got) s.inside (renew-covers token);
    bounded = renew-bound token;
    distinct = IsDistinct-extend (record { token = token; until = s.now + ms }) s.inside g.distinct;
  })
  Step-IsGuarded (renews_unseen token e) =
      subst (IsGuarded ms) (sym e) (record {
        covered = renew-covers token;
        bounded = renew-bound token;
        distinct = g.distinct;
      })
  Step-IsGuarded (leaves token e) = subst (IsGuarded ms) (sym e) (record {
    covered = release-covers token;
    bounded = release-bound token;
    distinct = IsDistinct-without token s.inside g.distinct;
  })
  Step-IsGuarded (leaves_unreleased token e) = subst (IsGuarded ms) (sym e) (record {
    covered = All-without (IsCovered s.now s.lease) token s.inside g.covered;
    bounded = g.bounded;
    distinct = IsDistinct-without token s.inside g.distinct;
  })

Reach-IsGuarded : {ms : ℕ} {s t : Lock} → IsGuarded ms s → Reach ms s t → IsGuarded ms t
Reach-IsGuarded g here = g
Reach-IsGuarded {ms} g (next {t} r step) = Step-IsGuarded ms t (Reach-IsGuarded g r) step

running_none : (now : ℕ) (hs : List Lease) → All (λ h. h.until ≤ now) hs → running now hs ≡ 0
unfolding running
running_none now [] p = refl
running_none now (h ∷ hs) (p, ps) = ground (arith, running_none now hs ps)

others_out :
    (now : ℕ) (l h : Lease) (hs : List Lease)
    → l.token ≡ h.token
    → All (IsCovered now (some l)) hs
    → All (λ k. k.token ≢ h.token) hs
    → All (λ k. k.until ≤ now) hs
others_out now l h hs same =
    All-map2 (IsCovered now (some l)) (λ k. k.token ≢ h.token) (λ k. k.until ≤ now)
      (λ k c other. elim c [
        | inl out ↦ out
        | inr (own, longer) ↦ absurd (other (◌∙◌ (sym own) same))
      ])
      hs

running_le :
    (now : ℕ) (lock : Option Lease) (hs : List Lease)
    → All (IsCovered now lock) hs
    → IsDistinct hs
    → running now hs ≤ 1
unfolding running
running_le now lock [] c d = omega arith
running_le now none (h ∷ hs) (c, cs) d = ground (arith, running_none now hs cs)
running_le now (some l) (h ∷ hs) (inl out, cs) (d, ds) =
    ground (arith, running_le now (some l) hs cs ds)
running_le now (some l) (h ∷ hs) (inr (same, longer), cs) (d, ds) =
    ground (arith, running_none now hs (others_out now l h hs same cs d))

free_after :
    (now ms : ℕ) (token : Text) (lock : Option Lease)
    → IsBounded now ms lock
    → (acquire (now + ms) ms token lock).0 ≡ true
unfolding acquire live
free_after now ms token none b = refl
free_after now ms token (some l) b = ground arith

module _ {ms : ℕ} {s t : Lock} (free : s.lease ≡ none) (empty : s.inside ≡ [])
    (r : Reach ms s t) where
  reached : IsGuarded ms t
  reached =
      Reach-IsGuarded
        (record {
          covered = subst (All (IsCovered s.now s.lease)) (sym empty) tt;
          bounded = subst (IsBounded s.now ms) (sym free) tt;
          distinct = subst IsDistinct (sym empty) tt;
        })
        r

  -- In every run from a free key with nobody inside, where a token that is given out is not one of
  -- those inside, at most one of the holders inside the context has time left on its lease.
  pub Reach-running : running t.now t.inside ≤ 1
  Reach-running = running_le t.now t.lease t.inside reached.covered reached.distinct

  -- In such a run, a lease that nobody renews or releases is free for anyone after its time.
  pub Reach-acquire : (token : Text) → (acquire (t.now + ms) ms token t.lease).0 ≡ true
  Reach-acquire token = free_after t.now ms token t.lease reached.bounded
