-- ===== src/Channels/Places.antt =====
-- The six lists of frames that core/channels.py moves between are six different keys.
use h_mesh.Base.{
  ◌≡◌, refl, sym, ap, ◌∙◌, subst, Bool, true, false, Option, none, some, Text, codes, ◌=t◌, eq_=t,
  ne_=t, Bool-cases, inl, inr,
}
use h_mesh.Errors.{ok, >>=_elim}
use h_mesh.Keys.{prefix, agent_key}
use h_mesh.Keys.Named.{
  receive_processing_key, receive_opening_key, receive_opened_key, receive_unresolved_key,
}
use h_mesh.Keys.Structure.{prefix-injective}
use h_mesh.Channels.Custody.{Custody, custody_keys}

pub data Place : Type 0 where
  ingress : Place
  processing : Place
  opening : Place
  opened : Place
  unresolved : Place
  dead : Place

abbrev pub place : Custody → Place → Text
place c ingress = c.ingress
place c processing = c.processing
place c opening = c.opening
place c opened = c.opened
place c unresolved = c.unresolved
place c dead = c.dead

abbrev pub resource_of : Place → Text
resource_of ingress = codes "ingress"
resource_of processing = codes "processing"
resource_of opening = codes "opening"
resource_of opened = codes "opened"
resource_of unresolved = codes "unresolved"
resource_of dead = codes "dead"

abbrev pub owner_of : Text → Place → Option Text
owner_of agent unresolved = none
owner_of agent ingress = some agent
owner_of agent processing = some agent
owner_of agent opening = some agent
owner_of agent opened = some agent
owner_of agent dead = some agent

abbrev pub same : Place → Place → Bool
same ingress ingress = true
same processing processing = true
same opening opening = true
same opened opened = true
same unresolved unresolved = true
same dead dead = true
same p q = false

same_resource : (p q : Place) → (resource_of p =t resource_of q) ≡ same p q
unfolding ◌=t◌
same_resource ingress ingress = refl
same_resource processing processing = refl
same_resource opening opening = refl
same_resource opened opened = refl
same_resource unresolved unresolved = refl
same_resource dead dead = refl
same_resource p q = refl

same_eq : (p q : Place) → same p q ≡ true → p ≡ q
same_eq ingress ingress h = refl
same_eq processing processing h = refl
same_eq opening opening h = refl
same_eq opened opened h = refl
same_eq unresolved unresolved h = refl
same_eq dead dead h = refl
same_eq p q h = cc

module _ (pod tenant agent : Text) where
  abbrev IsPlaced : Custody → Type 0
  IsPlaced c =
      (p : Place) → prefix pod tenant (owner_of agent p) (some (resource_of p)) ≡ ok (place c p)

  each-IsPlaced :
      (i g o e u x : Text)
      → agent_key pod tenant agent (codes "ingress") ≡ ok i
      → receive_processing_key pod tenant agent ≡ ok g
      → receive_opening_key pod tenant agent ≡ ok o
      → receive_opened_key pod tenant agent ≡ ok e
      → receive_unresolved_key pod tenant ≡ ok u
      → agent_key pod tenant agent (codes "dead") ≡ ok x
      → IsPlaced (record {
        ingress = i;
        processing = g;
        opening = o;
        opened = e;
        unresolved = u;
        dead = x;
      })
  unfolding receive_processing_key receive_opening_key receive_opened_key receive_unresolved_key
  each-IsPlaced i g o e u x hi hg ho he hu hx ingress = hi
  each-IsPlaced i g o e u x hi hg ho he hu hx processing = hg
  each-IsPlaced i g o e u x hi hg ho he hu hx opening = ho
  each-IsPlaced i g o e u x hi hg ho he hu hx opened = he
  each-IsPlaced i g o e u x hi hg ho he hu hx unresolved = hu
  each-IsPlaced i g o e u x hi hg ho he hu hx dead = hx

  custody_keys-IsPlaced : {c : Custody} → custody_keys pod tenant agent ≡ ok c → IsPlaced c
  unfolding custody_keys
  custody_keys-IsPlaced {c} built =
      >>=_elim (agent_key pod tenant agent (codes "ingress")) built λ i hi h1.
        >>=_elim (receive_processing_key pod tenant agent) h1 λ g hg h2.
          >>=_elim (receive_opening_key pod tenant agent) h2 λ o ho h3.
            >>=_elim (receive_opened_key pod tenant agent) h3 λ e he h4.
              >>=_elim (receive_unresolved_key pod tenant) h4 λ u hu h5.
                >>=_elim (agent_key pod tenant agent (codes "dead")) h5 λ x hx h6.
                  let same_keys : record {
                    ingress = i;
                    processing = g;
                    opening = o;
                    opened = e;
                    unresolved = u;
                    dead = x;
                  }
                      ≡ c =
                    cc h6 in
                  subst IsPlaced same_keys (each-IsPlaced i g o e u x hi hg ho he hu hx)

  differ : (c : Custody) (p q : Place) → IsPlaced c → same p q ≡ false → place c p ≡ place c q → ⊥
  differ c p q placed e k =
      let (_, _, _, r) =
        prefix-injective pod tenant pod tenant (owner_of agent p) (some (resource_of p))
          (owner_of agent q) (some (resource_of q)) (◌∙◌ (placed p) (ap ok k)) (placed q) in
      let resources : resource_of p ≡ resource_of q = cc r in
      let equal : true ≡ false = ◌∙◌ (sym (eq_=t _ _ resources)) (◌∙◌ (same_resource p q) e) in
      cc equal

  -- Whether two of the keys are equal is whether they are the same place.
  pub custody_keys-apart :
      {c : Custody}
      → custody_keys pod tenant agent ≡ ok c
      → (p q : Place) → (place c p =t place c q) ≡ same p q
  custody_keys-apart {c} built p q = elim (Bool-cases (same p q)) [
    | inl e ↦ ◌∙◌ (eq_=t _ _ (ap (place c) (same_eq p q e))) (sym e)
    | inr e ↦
        ◌∙◌ (ne_=t (place c p) (place c q) λ k. differ c p q (custody_keys-IsPlaced built) e k)
          (sym e)
  ]

  -- A key of the agent under another resource is none of them.
  pub custody_keys-other :
      {c : Custody} (r : Text) {k : Text}
      → custody_keys pod tenant agent ≡ ok c
      → ((p : Place) → (r =t resource_of p) ≡ false)
      → agent_key pod tenant agent r ≡ ok k
      → (p : Place) → (k =t place c p) ≡ false
  custody_keys-other r {k} built other key p = ne_=t k _ λ e.
      let (_, _, _, q) =
        prefix-injective pod tenant pod tenant (some agent) (some r) (owner_of agent p)
          (some (resource_of p)) (◌∙◌ key (ap ok e)) (custody_keys-IsPlaced built p) in
      let resources : r ≡ resource_of p = cc q in
      let equal : true ≡ false = ◌∙◌ (sym (eq_=t _ _ resources)) (other p) in cc equal
