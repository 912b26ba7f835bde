-- ===== src/Channels/Moves.antt =====
-- How the transfer of a frame changes the lengths of the custody lists.
use h_mesh.Base.{
  ℕ, ◌+◌, ◌-◌, ◌≤◌, ◌==◌, ◌≡◌, refl, sym, ap, subst, ◌∙◌, ◌⊎◌, Bool, true, false, if◌then◌else◌,
  List, [], ◌∷◌, length, length-append, length-drop, leb, ◌=t◌, arith,
}
use h_mesh.Envelope.Header.{Raw}
use h_mesh.Redis.{Redis}
use h_mesh.Channels.Custody.{Custody, holds, remove_first, trim, moved_list}
use h_mesh.Channels.Places.{Place, place, same}

length-remove_first :
    (raw : Raw) (xs : List Raw) → holds raw xs ≡ true → length (remove_first raw xs) + 1 ≡ length xs
unfolding holds remove_first
length-remove_first raw [] h = cc
length-remove_first raw (x ∷ xs) h = ground (arith, length-remove_first raw xs)

module _ (R : Redis) (c : Custody) where
  abbrev pub size : R.Db → Place → ℕ
  size d p = length (R.items d (place c p))

  -- One frame fewer under p and one more under q, or q cut to its bound; the other lists unchanged.
  pub record Shift (p q : Place) (bound : ℕ) (d d' : R.Db) : Type 0 where
    pub taken : size d' p + 1 ≡ size d p
    pub given : (size d' q ≡ size d q + 1) ⊎ ((size d' q ≡ bound) × (1 ≤ bound))
    pub others : (r : Place) → same p r ≡ false → same q r ≡ false → size d' r ≡ size d r

  module _ (apart : (p q : Place) → (place c p =t place c q) ≡ same p q) where
    pub size-put_items :
        (d : R.Db) (p q : Place) (xs : List Raw)
        → size (R.put_items d (place c p) xs) q ≡ (if same p q then length xs else size d q)
    size-put_items d p q xs =
        rw (R.items-put_items d (place c p) xs (place c q), apart p q) (ground arith)

    pub size-rpush :
        (d : R.Db) (p q : Place) (v : Raw)
        → size (R.rpush d (place c p) v) q ≡ (if same p q then size d q + 1 else size d q)
    size-rpush d p q v =
        rw (R.items-rpush d (place c p) v (place c q), apart p q)
          (ground (arith, length-append (R.items d (place c q)) (v ∷ [])))

    module _ (p q : Place) (pp : same p p ≡ true) (qq : same q q ≡ true) (pq : same p q ≡ false)
        (qp : same q p ≡ false) where
      size_if :
          (b : Bool) (d x : R.Db) (r : Place) {m : ℕ}
          → (b ≡ false → size x r ≡ m)
          → size (if b then d else x) r ≡ (if b then size d r else m)
      size_if true d x r h = refl
      size_if false d x r h = h refl

      trimmed : (bound : ℕ) (d : R.Db) → R.Db
      trimmed bound d =
          if bound == 0 then d else R.put_items d (place c q) (trim bound (R.items d (place c q)))

      length-trim :
          (bound : ℕ) (xs : List Raw)
          → 1 ≤ bound
          → length (trim bound xs) ≡ (if leb (length xs) bound then length xs else bound)
      unfolding trim
      length-trim bound xs h = ground (arith, length-drop (length xs - bound) xs)

      size-trimmed :
          (bound : ℕ) (d : R.Db) (r : Place)
          → size (trimmed bound d) r ≡ (
              if bound == 0
              then size d r
              else if same q r
              then (if leb (size d q) bound then size d q else bound)
              else size d r)
      unfolding trimmed
      size-trimmed bound d r =
          size_if (bound == 0) d (R.put_items d (place c q) (trim bound (R.items d (place c q)))) r
            λ e.
              let cut = length-trim bound (R.items d (place c q)) (ground arith) in
              size-put_items d q r (trim bound (R.items d (place c q)))
              ∙ ap (λ n. if same q r then n else size d r) cut

      moved_list-trimmed :
          (raw value : Raw) (bound : ℕ) (d : R.Db)
          → moved_list R (place c p) (place c q) raw value bound d
            ≡ trimmed bound (
                R.rpush
                  (R.put_items d (place c p) (remove_first raw (R.items d (place c p))))
                  (place c q)
                  value)
      unfolding trimmed
      moved_list-trimmed raw value bound d = refl

      pub moved_list-Shift :
          (raw value : Raw) (bound : ℕ) (d : R.Db)
          → holds raw (R.items d (place c p)) ≡ true
          → Shift p q bound d (moved_list R (place c p) (place c q) raw value bound d)
      moved_list-Shift raw value bound d h =
          let xs = remove_first raw (R.items d (place c p)) in
          let d1 = R.put_items d (place c p) xs in
          let d2 = R.rpush d1 (place c q) value in
          let d3 = trimmed bound d2 in
          let shorter = length-remove_first raw (R.items d (place c p)) h in
          subst (Shift p q bound d) (sym (moved_list-trimmed raw value bound d)) (record {
            taken = ground (
              arith,
              shorter,
              size-put_items d p p xs,
              size-rpush d1 q p value,
              size-trimmed bound d2 p,
            );
            given =
                ground (
                  arith,
                  size-put_items d p q xs,
                  size-rpush d1 q q value,
                  size-trimmed bound d2 q,
                );
            others = λ r pr qr.
                ground (
                  arith,
                  size-put_items d p r xs,
                  size-rpush d1 q r value,
                  size-trimmed bound d2 r,
                );
          })
