-- ===== src/Dispatch/Drained.antt =====
-- An ingress list that nobody handles moves to the dead list.
use h_mesh.Base.{
  ◌≡◌, ◌≢◌, refl, sym, ap, ◌∙◌, Bool, true, false, some, List, [], ◌∷◌, ◌++◌, append_assoc,
  append-nil, if◌then◌else◌, Text, codes, ◌=t◌, =t-self, =t_eq, ne_=t, eq_=t,
}
use h_mesh.Errors.{ok}
use h_mesh.Keys.{agent_key}
use h_mesh.Keys.Structure.{prefix-injective}
use h_mesh.Envelope.Header.{Raw}
use h_mesh.Redis.{Redis}
use h_mesh.Redis.World.{World, command, andthen_elim, command_ok}
use h_mesh.Dispatch.{drained, drain_script, push_dead, dead_letter_unroutable}

unpushed : (b : Bool) (xs : List Raw) → xs ≡ (if b then xs ++ [] else xs)
unpushed true xs = sym (append-nil xs)
unpushed false xs = refl

pushed_more :
    (b : Bool) (xs ys zs rest : List Raw) (raw : Raw)
    → ys ≡ (if b then xs ++ (raw ∷ []) else xs)
    → zs ≡ (if b then ys ++ rest else ys)
    → zs ≡ (if b then xs ++ (raw ∷ rest) else xs)
pushed_more true xs ys zs rest raw p q =
    ◌∙◌ q (◌∙◌ (ap (λ l. l ++ rest) p) (append_assoc xs (raw ∷ []) rest))
pushed_more false xs ys zs rest raw p q = ◌∙◌ q p

unchanged : (b : Bool) (xs : List Raw) → (b ≡ true → xs ≡ []) → xs ≡ (if b then [] else xs)
unchanged true xs h = h refl
unchanged false xs h = refl

module _ (R : Redis) where
  push_dead_ok :
      (key : Text) (raws : List Raw) (w v : World R.Db)
      → push_dead R key raws w ≡ (ok tt, v)
      → (j : Text) → R.items v.db j ≡ (if key =t j then R.items w.db j ++ raws else R.items w.db j)
  unfolding push_dead
  push_dead_ok key [] w v h j =
      ◌∙◌ (sym (ap (λ p. R.items (World.db (p.1)) j) h)) (unpushed (key =t j) (R.items w.db j))
  push_dead_ok key (raw ∷ rest) w v h j =
      andthen_elim (command λ d. (tt {0}, R.rpush d key raw)) (λ _. push_dead R key rest) h
        λ a u ran later.
          let (run, _) = command_ok (λ d. (tt {0}, R.rpush d key raw)) w ran in
          pushed_more (key =t j) (R.items w.db j) (R.items u.db j) (R.items v.db j) rest raw
            (◌∙◌ (ap (λ p. R.items (p.1) j) (sym run)) (R.items-rpush w.db key raw j))
            (push_dead_ok key rest u v later j)

  drained_ok :
      (key : Text) (raws : List Raw) (d : R.Db)
      → R.items d key ≡ raws
      → ((drained R key raws d).0 ≡ raws)
        × ((j : Text) → R.items (drained R key raws d).1 j ≡ (if key =t j then [] else R.items d j))
  drained_ok key [] d h = (
    refl,
    λ j.
        unchanged (key =t j) (R.items d j)
          (λ same. ◌∙◌ (ap (R.items d) (sym (=t_eq key j same))) h),
  )
  drained_ok key (x ∷ xs) d h = (refl, λ j. R.items-put_items d key [] j)

module _ (R : Redis) (pod tenant agent : Text) where
  keys-differ :
      {i k : Text}
      → agent_key pod tenant agent (codes "ingress") ≡ ok i
      → agent_key pod tenant agent (codes "dead") ≡ ok k
      → i ≢ k
  unfolding ◌=t◌
  keys-differ {i} {k} hi hk same =
      let (_, _, _, e) =
        prefix-injective pod tenant pod tenant (some agent) (some (codes "ingress")) (some agent)
          (some (codes "dead")) (◌∙◌ hi (ap ok same)) hk in
      absurd (cc (eq_=t (codes "ingress") (codes "dead") (cc e)))

  abbrev pub IsMoved : World R.Db → World R.Db → Text → Text → Type 0
  IsMoved w v i k =
      (R.items v.db k ≡ R.items w.db k ++ R.items w.db i)
      × (R.items v.db i ≡ [])
      × ((j : Text) → i ≢ j → k ≢ j → R.items v.db j ≡ R.items w.db j)

  IsMoved-by :
      {i k : Text} (w u v : World R.Db) (raws : List Raw)
      → i ≢ k
      → raws ≡ R.items w.db i
      → ((j : Text) → R.items u.db j ≡ (if i =t j then [] else R.items w.db j))
      → ((j : Text) → R.items v.db j ≡ (if k =t j then R.items u.db j ++ raws else R.items u.db j))
      → IsMoved w v i k
  IsMoved-by {i} {k} w u v raws ne is emptied pushed =
      let at_k : R.items u.db k ≡ R.items w.db k = rw (ne_=t i k ne) at (emptied k) in
      let at_i : R.items u.db i ≡ [] = rw (=t-self i) at (emptied i) in
      let kept : R.items v.db i ≡ R.items u.db i = rw (ne_=t k i (λ e. ne (sym e))) at (pushed i) in
      let given : R.items v.db k ≡ R.items u.db k ++ raws = rw (=t-self k) at (pushed k) in
      (
        ◌∙◌ given (rw (at_k, is) refl),
        ◌∙◌ kept at_i,
        λ j ij kj. ◌∙◌ (rw (ne_=t k j kj) at (pushed j)) (rw (ne_=t i j ij) at (emptied j)),
      )

  -- When dead_letter_unroutable returns, under any faults: the frames of the ingress list stand behind those of the dead
  -- list, in their order, the ingress list is empty, and no other list has changed.
  pub dead_letter_unroutable-IsMoved :
      {i k : Text} (w v : World R.Db)
      → agent_key pod tenant agent (codes "ingress") ≡ ok i
      → agent_key pod tenant agent (codes "dead") ≡ ok k
      → dead_letter_unroutable R pod tenant agent w ≡ (ok tt, v)
      → IsMoved w v i k
  unfolding dead_letter_unroutable drain_script
  dead_letter_unroutable-IsMoved {i} {k} w v hi hk h =
      andthen_elim (command (drain_script R i)) (push_dead R k) (rw (hi, hk) at h)
        λ raws u ran pushed.
          let (run, _) = command_ok (drain_script R i) w ran in
          let (is, emptied) = drained_ok R i (R.items w.db i) w.db refl in
          IsMoved-by w u v raws (keys-differ hi hk) (cc (run, is))
            (λ j. ◌∙◌ (ap (λ p. R.items (p.1) j) (sym run)) (emptied j))
            (push_dead_ok R k raws u v pushed)
