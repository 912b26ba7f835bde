-- ===== src/Receipts/Located.antt =====
-- What locate and trace answer, under any faults.
use h_mesh.Base.{
  ℕ, suc, ◌-◌, ◌≡◌, refl, ap, subst, ◌∙◌, some, List, [], ◌∷◌, ◌++◌, append_assoc, length,
  length-append, if◌then◌else◌, Text, codes, inl, inr, Bool-cases, arith,
}
use h_mesh.Errors.{ok, require, value_error}
use h_mesh.Envelope.Checks.{is_identifier}
use h_mesh.Keys.{tenant_key}
use h_mesh.Redis.{Redis}
use h_mesh.Redis.World.{World, command, andthen_elim, lift_elim, command_ok}
use h_mesh.Registry.{members, names_of}
use h_mesh.Receipts.{Sources, Entry, Location, sorted_set, scan_plan}
use h_mesh.Receipts.Trace.{hit, found_from, trace_script, location_at, pick, locate}

location_at-length :
    (pre es : List Entry) (e : Entry) → location_at (pre ++ (e ∷ es)) (length pre) ≡ some e.location
unfolding location_at
location_at-length [] es e = refl
location_at-length (p ∷ pre) es e = location_at-length pre es e

pick_cons :
    (plan : List Entry) (i : ℕ) (hits : List ℕ) {l : Location} {ls : List Location}
    → location_at plan i ≡ some l
    → pick plan hits ≡ ok ls
    → pick plan (suc i ∷ hits) ≡ ok (l ∷ ls)
unfolding pick
pick_cons plan i hits h k = let e : suc i - 1 ≡ i = omega arith in rw (e, h, k) refl

module _ (R : Redis) (sources : Sources R.Db) (id : Text) where
  -- The locations of a plan whose key holds the frame.
  abbrev pub held_in : R.Db → List Entry → List Location
  held_in d [] = []
  held_in d (e ∷ es) =
      if hit R sources id d e.kind e.key then e.location ∷ held_in d es else held_in d es

  pick-found_from :
      (d : R.Db) (pre es : List Entry)
      → pick (pre ++ es) (found_from R sources id (suc (length pre)) d es) ≡ ok (held_in d es)
  unfolding pick found_from
  pick-found_from d pre [] = refl
  pick-found_from d pre (e ∷ es) =
      let again : pick (pre ++ (e ∷ es)) (found_from R sources id (suc (suc (length pre))) d es)
          ≡ ok (held_in d es) =
        subst
          (λ plan.
            pick plan (found_from R sources id (suc (suc (length pre))) d es) ≡ ok (held_in d es))
          (append_assoc pre (e ∷ []) es)
          (subst
            (λ n.
              pick ((pre ++ (e ∷ [])) ++ es) (found_from R sources id (suc n) d es)
              ≡ ok (held_in d es))
            (◌∙◌ (length-append pre (e ∷ [])) (omega arith))
            (pick-found_from d (pre ++ (e ∷ [])) es)) in
      elim (Bool-cases (hit R sources id d e.kind e.key)) [
        | inl is ↦
            rw is (pick_cons (pre ++ (e ∷ es)) (length pre) _ (location_at-length pre es e) again)
        | inr is ↦ rw is again
      ]

picked_is :
    (plan : List Entry) {hits found : List ℕ} {ls held : List Location}
    → pick plan hits ≡ ok ls
    → found ≡ hits
    → pick plan found ≡ ok held
    → ls ≡ held
picked_is plan p e q = cc (p, ap (pick plan) e, q)

module _ (R : Redis) (sources : Sources R.Db) (pod tenant id : Text) where
  -- locate, when it returns under any faults, names the locations of the plan for the agents that are
  -- registered or named whose key holds the frame, in the order of the plan.
  pub locate_lem :
      (extra : List Text) (w v : World R.Db) (locations : List Location)
      → locate R sources pod tenant id extra w ≡ (ok locations, v)
      → (key : Text) × (plan : List Entry) × (tenant_key pod tenant (codes "registry") ≡ ok key)
        × (scan_plan pod tenant (sorted_set (names_of (R.entries w.db key) ++ extra)) ≡ ok plan)
        × (locations ≡ held_in R sources id w.db plan)
  unfolding locate trace_script
  locate_lem extra w v locations h =
      lift_elim (require (is_identifier id) value_error) _ h λ _ _ h1.
        andthen_elim (members R pod tenant) _ h1 λ names u read h2.
          lift_elim (tenant_key pod tenant (codes "registry")) _ read λ key hk asked.
            let (names_read, _) = command_ok (λ d. (names_of (R.entries d key), d)) w asked in
            lift_elim (scan_plan pod tenant (sorted_set (names ++ extra))) _ h2 λ plan hp h3.
              andthen_elim (command (trace_script R sources id plan)) _ h3 λ hits x ran picked.
                let (found, _) = command_ok (trace_script R sources id plan) u ran in
                (
                  key,
                  plan,
                  hk,
                  rw (ap (λ r. r.0) names_read) hp,
                  picked_is plan (ap (λ r. r.0) picked)
                      (rw (ap (λ r. r.1) names_read) (ap (λ r. r.0) found))
                      (pick-found_from R sources id w.db [] plan),
                )
