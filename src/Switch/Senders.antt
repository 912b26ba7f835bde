-- ===== src/Switch/Senders.antt =====
-- The frame that a step pops is its sender's.
use h_mesh.Base.{
  ◌≡◌, refl, sym, ap, subst, ◌∙◌, Bool, true, ◌||◌, Option, none, some, List, [], ◌∷◌, Text, codes,
  ◌=t◌, =t-self, elem_text, arith,
}
use h_mesh.Errors.{ok_eq, ok, >>=_elim}
use h_mesh.Keys.{agent_key}
use h_mesh.Keys.Structure.{split-prefix}
use h_mesh.Envelope.Header.{Raw}
use h_mesh.Redis.{Redis}
use h_mesh.Switch.Steps.{second_last, sender_of, egress_keys, pop_from, pop_first}

sender_of-agent_key :
    (pod tenant agent : Text) {key : Text}
    → agent_key pod tenant agent (codes "egress") ≡ ok key
    → sender_of key ≡ ok agent
unfolding sender_of second_last
sender_of-agent_key pod tenant agent h =
    rw (split-prefix pod tenant (some agent) (some (codes "egress")) h) refl

right_of : (a b : Bool) → b ≡ true → (a || b) ≡ true
right_of a b h = ground arith

none-some : {A D : Type 0} {a : A} {d e : D} → ◌≡◌ {A = Option A × D} (none, d) (some a, e) → ⊥
none-some h = absurd (cc h)

module _ (R : Redis) (pod tenant : Text) (d : R.Db) where
  -- `raw` is the head of the egress list under `key`, of one of the agents, and `d'` is without it.
  abbrev pub IsPopped : List Text → Text → Raw → R.Db → Type 0
  IsPopped agents key raw d' =
      (agent : Text) × (rest : List Raw) × (elem_text agent agents ≡ true)
      × (agent_key pod tenant agent (codes "egress") ≡ ok key)
      × (sender_of key ≡ ok agent)
      × (R.items d key ≡ raw ∷ rest)
      × (R.items d' key ≡ rest)

  later-IsPopped :
      (a : Text) (agents : List Text) (key : Text) (raw : Raw) (d' : R.Db)
      → IsPopped agents key raw d'
      → IsPopped (a ∷ agents) key raw d'
  unfolding elem_text
  later-IsPopped a agents key raw d' (agent, rest, there, hk, is, items, left) =
      (agent, rest, right_of (agent =t a) _ there, hk, is, items, left)

  first-IsPopped :
      (a : Text) (agents : List Text) (k key : Text) (raw head : Raw) (rest : List Raw) (d' : R.Db)
      → agent_key pod tenant a (codes "egress") ≡ ok k
      → R.items d k ≡ head ∷ rest
      → ◌≡◌ {A = Option (Text × Raw) × R.Db} (some (k, head), R.lpop d k) (some (key, raw), d')
      → IsPopped (a ∷ agents) key raw d'
  unfolding elem_text
  first-IsPopped a agents k key raw head rest d' hk items h =
      let same_key : k ≡ key = cc h in
      let same_raw : head ≡ raw = cc h in
      let same_db : R.lpop d k ≡ d' = cc h in
      (
        a,
        rest,
        rw (=t-self a) refl,
        ◌∙◌ hk (ap ok same_key),
        subst (λ x. sender_of x ≡ ok a) same_key (sender_of-agent_key pod tenant a hk),
        subst (λ x. R.items d x ≡ raw ∷ rest) same_key (◌∙◌ items (ap (λ x. x ∷ rest) same_raw)),
        subst (λ x. R.items x key ≡ rest) same_db
            (subst (λ x. R.items (R.lpop d k) x ≡ rest) same_key
              (◌∙◌ (R.items-lpop d k k) (rw (=t-self k, items) refl))),
      )

  pop_from-IsPopped :
      (a : Text) (agents : List Text) (k key : Text) (raw : Raw) (d' : R.Db) (xs : List Raw)
      (others : Option (Text × Raw) × R.Db)
      → agent_key pod tenant a (codes "egress") ≡ ok k
      → R.items d k ≡ xs
      → (others ≡ (some (key, raw), d') → IsPopped agents key raw d')
      → pop_from R k xs others d ≡ (some (key, raw), d')
      → IsPopped (a ∷ agents) key raw d'
  pop_from-IsPopped a agents k key raw d' [] others hk items ih h =
      later-IsPopped a agents key raw d' (ih h)
  pop_from-IsPopped a agents k key raw d' (head ∷ rest) others hk items ih h =
      first-IsPopped a agents k key raw head rest d' hk items h

  -- A frame that a pop over the egress lists of some agents gives is the head of the egress list of the
  -- agent that the switch takes for its sender, who is one of them, and is taken off that list.
  pub pop_first-IsPopped :
      (agents keys : List Text) (key : Text) (raw : Raw) (d' : R.Db)
      → egress_keys pod tenant agents ≡ ok keys
      → pop_first R keys d ≡ (some (key, raw), d')
      → IsPopped agents key raw d'
  unfolding egress_keys pop_first
  pop_first-IsPopped [] keys key raw d' built popped =
      absurd (
        none-some (subst (λ x. pop_first R x d ≡ (some (key, raw), d')) (sym (ok_eq built)) popped))
  pop_first-IsPopped (agent ∷ agents) keys key raw d' built popped =
      >>=_elim (agent_key pod tenant agent (codes "egress")) built λ k hk built'.
        >>=_elim (egress_keys pod tenant agents) built' λ ks hks built''.
          pop_from-IsPopped agent agents k key raw d' (R.items d k) (pop_first R ks d) hk refl
            (pop_first-IsPopped agents ks key raw d' hks)
            (subst (λ x. pop_first R x d ≡ (some (key, raw), d')) (sym (ok_eq built'')) popped)
