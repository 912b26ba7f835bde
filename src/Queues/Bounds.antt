-- ===== src/Queues/Bounds.antt =====
-- What admission leaves in the queues: nothing of a frame that is turned away, one copy for each
-- destination of one that is let in, and no queue above the limit.
use h_mesh.Base.{
  ℕ, suc, zero, ◌+◌, ◌-◌, ◌≤◌, ◌≡◌, refl, sym, ap, ◌∙◌, subst, Option, none, some, List, [], ◌∷◌,
  ◌++◌, append_assoc, append-nil, length, length-append, length-replicate, replicate, leb,
  Bool-cases, inl, inr, ◌⊎◌, if◌then◌else◌, Text, ◌=t◌, =t_eq, codes, arith,
}
use h_mesh.Errors.{require, value_error, ok, runtime_error, or_raise, or_raise_ok, >>=_elim}
use h_mesh.Keys.{agent_key}
use h_mesh.Envelope.Header.{Raw}
use h_mesh.Redis.{Redis}
use h_mesh.Redis.World.{World, andthen_elim, lift, lift_elim, command, command_ok}
use h_mesh.Queues.{
  is_nonempty, Reply, appended, full, Admission, admitted, rejected, get_elem?, ingress_keys,
  admission, first_full, push_each, script_after, admit_script, admit_ingress,
}

-- How often a key is among the keys.
unfoldable pub occurrences : Text → List Text → ℕ
occurrences j [] = 0
occurrences j (k ∷ ks) = let rest = occurrences j ks in if k =t j then suc rest else rest

module _ (R : Redis) where
  items-push_each :
      (d : R.Db) (ks : List Text) (raw : Raw) (j : Text)
      → R.items (push_each R d ks raw) j ≡ R.items d j ++ replicate (occurrences j ks) raw
  unfolding push_each occurrences
  items-push_each d [] raw j = sym (append-nil (R.items d j))
  items-push_each d (k ∷ ks) raw j =
      ◌∙◌ (items-push_each (R.rpush d k raw) ks raw j) (elim (Bool-cases (k =t j)) [
        | inl e ↦ rw (R.items-rpush d k raw j, e) (append_assoc (R.items d j) (raw ∷ []) _)
        | inr e ↦ rw (R.items-rpush d k raw j, e)
      ])

  -- The key at a place is full, and its list is so long.
  abbrev pub FullAt : ℕ → ℕ → R.Db → List Text → ℕ → ℕ → Type 0
  FullAt limit s d ks i n =
      (j : ℕ) × ((k : Text) × ((i ≡ s + j)
          × (get_elem? ks j ≡ some k)
          × (n ≡ length (R.items d k))
          × (limit ≤ n)))

  shift :
      (limit s : ℕ) (d : R.Db) (k : Text) (ks : List Text) {i n : ℕ}
      → FullAt limit (suc s) d ks i n
      → FullAt limit s d (k ∷ ks) i n
  shift limit s d k ks (j, (k', (place, at, depth, le))) =
      (suc j, (k', (omega arith, at, depth, le)))

  -- The first full key: where it stands, and how long its list is.
  first_full_elim :
      (limit s : ℕ) (d : R.Db) (ks : List Text) {i n : ℕ}
      → first_full R limit s d ks ≡ some (i, n)
      → FullAt limit s d ks i n
  unfolding first_full
  first_full_elim limit s d [] h = absurd (cc h)
  first_full_elim limit s d (k ∷ ks) h = elim (Bool-cases (leb limit (length (R.items d k)))) [
    | inl e ↦ (0, (k, (ground arith, refl, ground arith, ground arith)))
    | inr e ↦ shift limit s d k ks (first_full_elim limit (suc s) d ks (ground arith))
  ]

  -- Where no key is full, every key has room.
  room :
      (limit s : ℕ) (d : R.Db) (ks : List Text) (j : Text)
      → first_full R limit s d ks ≡ none
      → (occurrences j ks ≡ 0) ⊎ (suc (length (R.items d j)) ≤ limit)
  unfolding first_full occurrences
  room limit s d [] j h = inl refl
  room limit s d (k ∷ ks) j h = elim (Bool-cases (leb limit (length (R.items d k)))) [
    | inl full_here ↦ ground arith
    | inr free ↦ elim (Bool-cases (k =t j)) [
      | inl e ↦ inr (rw (sym (=t_eq k j e)) (ground arith))
      | inr e ↦ elim (room limit (suc s) d ks j (ground arith)) [
        | inl z ↦ inl (rw e z)
        | inr lt ↦ inr lt
      ]
    ]
  ]

  script_full :
      (o : Option (ℕ × ℕ)) (d : R.Db) (ks : List Text) (raw : Raw) {d' : R.Db} {i n : ℕ}
      → script_after R o d ks raw ≡ (full i n, d')
      → (d' ≡ d) × (o ≡ some (i, n))
  script_full none d ks raw h = absurd (cc h)
  script_full (some (i, n)) d ks raw h = (cc h, cc h)

  script_appended :
      (o : Option (ℕ × ℕ)) (d : R.Db) (ks : List Text) (raw : Raw) {d' : R.Db}
      → script_after R o d ks raw ≡ (appended, d')
      → (d' ≡ push_each R d ks raw) × (o ≡ none)
  script_appended none d ks raw h = (cc h, refl)
  script_appended (some (i, n)) d ks raw h = absurd (cc h)

  -- The script appends all copies or none: a reply {0, i, n} leaves the database as it is and names a
  -- queue that already holds n ≥ limit entries.
  pub admit_script-full :
      (keys : List Text) (limit : ℕ) (raw : Raw) (d : R.Db) {d' : R.Db} {i n : ℕ}
      → admit_script R keys limit raw d ≡ (full i n, d')
      → (d' ≡ d) × FullAt limit 1 d keys i n
  unfolding admit_script
  admit_script-full keys limit raw d h =
      let (same, at) = script_full (first_full R limit 1 d keys) d keys raw h in
      (same, first_full_elim limit 1 d keys at)

  pub admit_script-appended :
      (keys : List Text) (limit : ℕ) (raw : Raw) (d : R.Db) {d' : R.Db}
      → admit_script R keys limit raw d ≡ (appended, d')
      → (j : Text)
      → (R.items d' j ≡ R.items d j ++ replicate (occurrences j keys) raw)
        × ((occurrences j keys ≡ 0) ⊎ (suc (length (R.items d j)) ≤ limit))
  unfolding admit_script
  admit_script-appended keys limit raw d h j =
      let (pushed, free) = script_appended (first_full R limit 1 d keys) d keys raw h in
      (rw pushed (items-push_each d keys raw j), room limit 1 d keys j free)

  admission_admitted :
      (names : List Text) (reply : Reply) → admission names reply ≡ ok admitted → reply ≡ appended
  unfolding admission
  admission_admitted names appended h = refl
  admission_admitted names (full i n) h =
      >>=_elim (or_raise (get_elem? names (i - 1)) runtime_error) h λ a found same. absurd (cc same)

  admission_rejected :
      (names : List Text) (reply : Reply) {name : Text} {depth : ℕ}
      → admission names reply ≡ ok (rejected name depth)
      → (i : ℕ) × ((reply ≡ full i depth) × (get_elem? names (i - 1) ≡ some name))
  unfolding admission
  admission_rejected names appended h = absurd (cc h)
  admission_rejected names (full i n) h =
      >>=_elim (or_raise (get_elem? names (i - 1)) runtime_error) h λ a found same.
        (i, (cc same, ◌∙◌ (or_raise_ok (get_elem? names (i - 1)) runtime_error found) (cc same)))

  ingress_keys-get_elem? :
      (pod tenant : Text) (names : List Text) {keys : List Text} (i : ℕ) {name k : Text}
      → ingress_keys pod tenant names ≡ ok keys
      → get_elem? names i ≡ some name
      → get_elem? keys i ≡ some k
      → agent_key pod tenant name (codes "ingress") ≡ ok k
  unfolding ingress_keys
  ingress_keys-get_elem? pod tenant [] i h at_name at_key = absurd (cc at_name)
  ingress_keys-get_elem? pod tenant (n ∷ ns) zero {name} {k} h at_name at_key =
      >>=_elim (agent_key pod tenant n (codes "ingress")) h λ a key h1.
        >>=_elim (ingress_keys pod tenant ns) h1 λ ks more h2.
          let at = subst (λ xs. get_elem? xs zero ≡ some k) {y = a ∷ ks} (cc h2) at_key in
          let same : name ≡ n = cc at_name in rw same (cc (key, at))
  ingress_keys-get_elem? pod tenant (n ∷ ns) (suc i) {k = k} h at_name at_key =
      >>=_elim (agent_key pod tenant n (codes "ingress")) h λ a key h1.
        >>=_elim (ingress_keys pod tenant ns) h1 λ ks more h2.
          ingress_keys-get_elem? pod tenant ns i more at_name
            (subst (λ xs. get_elem? xs (suc i) ≡ some k) {y = a ∷ ks} (cc h2) at_key)

  -- A call that returned ran the script once, on the keys of its destinations.
  admit_ingress_elim :
      (pod tenant : Text) (names : List Text) (raw : Raw) (limit : ℕ) (w : World R.Db)
      {w' : World R.Db} {adm : Admission} {P : Type 0}
      → admit_ingress R pod tenant names raw limit w ≡ (ok adm, w')
      → ((keys : List Text) (reply : Reply)
          → ingress_keys pod tenant names ≡ ok keys
          → admit_script R keys limit raw w.db ≡ (reply, w'.db)
          → admission names reply ≡ ok adm
          → P)
      → P
  unfolding admit_ingress
  admit_ingress_elim pod tenant names raw limit w {w'} {adm} h k =
      lift_elim (require (is_nonempty names) value_error) _ h λ _ _ h1.
        lift_elim (require (leb 1 limit) value_error) _ h1 λ _ _ h2.
          lift_elim (ingress_keys pod tenant names) _ h2 λ keys at_keys h3.
            andthen_elim (command (admit_script R keys limit raw))
              (λ reply. lift (admission names reply)) h3
              λ reply v ran h4.
                let (done, _) = command_ok (admit_script R keys limit raw) w ran in
                k keys reply at_keys
                  (subst (λ x. admit_script R keys limit raw w.db ≡ (reply, World.db x)) {x = v}
                    {y = w'} (cc h4) done)
                  (cc h4)

  -- A frame that is turned away: the database is as it was, and the ingress list of the named agent
  -- holds `depth` entries, at least the limit.
  pub admit_ingress_rejected :
      (pod tenant : Text) (names : List Text) (raw : Raw) (limit : ℕ) (w : World R.Db)
      {w' : World R.Db} {name : Text} {depth : ℕ}
      → admit_ingress R pod tenant names raw limit w ≡ (ok (rejected name depth), w')
      → (w'.db ≡ w.db)
        × ((k : Text) × ((agent_key pod tenant name (codes "ingress") ≡ ok k)
              × (depth ≡ length (R.items w.db k))
              × (limit ≤ depth)))
  admit_ingress_rejected pod tenant names raw limit w {w'} {name} h =
      admit_ingress_elim pod tenant names raw limit w h λ keys reply at_keys ran told.
        let (i, (reply_full, named)) = admission_rejected names reply told in
        let (same, (j, (k, (place, at, depth_eq, le)))) =
          admit_script-full keys limit raw w.db (◌∙◌ ran (ap (λ r. (r, w'.db)) reply_full)) in
        let index : i - 1 ≡ j = omega (arith, place) in
        let named_j : get_elem? names j ≡ some name =
          ◌∙◌ (ap (get_elem? names) (sym index)) named in
        (same, (k, (ingress_keys-get_elem? pod tenant names j at_keys named_j at, depth_eq, le)))

  -- A frame that was let in: every list has as many copies appended as its key is named, and one that
  -- received a copy had room.
  pub admit_ingress_admitted :
      (pod tenant : Text) (names : List Text) (raw : Raw) (limit : ℕ) (w : World R.Db)
      {w' : World R.Db}
      → admit_ingress R pod tenant names raw limit w ≡ (ok admitted, w')
      → (keys : List Text) × ((ingress_keys pod tenant names ≡ ok keys)
          × ((j : Text)
              → (R.items w'.db j ≡ R.items w.db j ++ replicate (occurrences j keys) raw)
                × ((occurrences j keys ≡ 0) ⊎ (suc (length (R.items w.db j)) ≤ limit))))
  admit_ingress_admitted pod tenant names raw limit w {w'} h =
      admit_ingress_elim pod tenant names raw limit w h λ keys reply at_keys ran told.
        let let_in = ◌∙◌ ran (ap (λ r. (r, w'.db)) (admission_admitted names reply told)) in
        (keys, (at_keys, admit_script-appended keys limit raw w.db let_in))

  -- A frame that is admitted leaves a queue within the limit, if the queue was within it before and
  -- the destinations name it at most once.
  pub admit_ingress_bound :
      (pod tenant : Text) (names : List Text) (raw : Raw) (limit : ℕ) (w : World R.Db)
      {w' : World R.Db} {keys : List Text}
      → admit_ingress R pod tenant names raw limit w ≡ (ok admitted, w')
      → ingress_keys pod tenant names ≡ ok keys
      → (j : Text) → occurrences j keys ≤ 1
      → length (R.items w.db j) ≤ limit
      → length (R.items w'.db j) ≤ limit
  admit_ingress_bound pod tenant names raw limit w {w'} {keys} h at_keys j once within =
      let (ks, (at_ks, pushed)) = admit_ingress_admitted pod tenant names raw limit w h in
      let same : ks ≡ keys = cc (at_ks, at_keys) in
      let (now, free) = pushed j in
      let n : length (R.items w'.db j) ≡ length (R.items w.db j) + occurrences j ks =
        ◌∙◌ (ap length now) (
          ◌∙◌ (length-append (R.items w.db j) _)
            (ap (λ x. length (R.items w.db j) + x) (length-replicate (occurrences j ks) raw))) in
      let m : occurrences j ks ≤ 1 = rw same once in
      elim free [ inl z ↦ omega (arith, n, z, within) | inr lt ↦ omega (arith, n, m, lt) ]

  pub admit_script-push_each :
      (keys : List Text) (limit : ℕ) (raw : Raw) (d : R.Db) {d' : R.Db}
      → admit_script R keys limit raw d ≡ (appended, d')
      → d' ≡ push_each R d keys raw
  unfolding admit_script
  admit_script-push_each keys limit raw d h =
      (script_appended (first_full R limit 1 d keys) d keys raw h).0
