-- ===== src/Lifecycle/Apart.antt =====
-- The keys of a retirement are apart, and what a push or a deletion of several keys leaves.
use h_mesh.Errors.{ok_eq}
use h_mesh.Base.{
  or_right, ◌≡◌, refl, sym, ap, subst, ◌∙◌, ◌⊎◌, inl, inr, Bool, true, false, ◌||◌, none, some,
  List, [], ◌∷◌, ◌++◌, append_assoc, append-nil, if◌then◌else◌, Text, ◌=t◌, =t_eq, ne_=t, eq_=t,
  elem_text, Bool-cases, arith,
}
use h_mesh.Errors.{Result, ok, >>=_elim}
use h_mesh.Keys.{agent_key, tenant_key}
use h_mesh.Keys.Structure.{prefix-injective}
use h_mesh.Envelope.Header.{Raw}
use h_mesh.Redis.{Redis}
use h_mesh.Lifecycle.Retire.{agent_keys, push_records, delete_each}

key_eq : {k k' : Text} {r : Result Text} → r ≡ ok k → r ≡ ok k' → k ≡ k'
key_eq p q = cc (p, q)

neither_left : (a b : Bool) → (a || b) ≡ false → a ≡ false
neither_left a b h = ground arith

neither_right : (a b : Bool) → (a || b) ≡ false → b ≡ false
neither_right a b h = ground arith

unpushed : (b : Bool) (xs : List Raw) → xs ≡ (if b then xs ++ [] else xs)
unpushed true xs = sym (append-nil xs)
unpushed false xs = refl

pushed_more :
    (b : Bool) (xs ys zs rest : List Raw) (raw : Raw)
    → ys ≡ (if b then xs ++ (raw ∷ []) else xs)
    → zs ≡ (if b then ys ++ rest else ys)
    → zs ≡ (if b then xs ++ (raw ∷ rest) else xs)
pushed_more true xs ys zs rest raw p q =
    ◌∙◌ q (◌∙◌ (ap (λ l. l ++ rest) p) (append_assoc xs (raw ∷ []) rest))
pushed_more false xs ys zs rest raw p q = ◌∙◌ q p

pub =t_sym : (s t : Text) → (s =t t) ≡ (t =t s)
=t_sym s t = elim (Bool-cases (s =t t)) [
  | inl e ↦ ◌∙◌ e (sym (eq_=t t s (sym (=t_eq s t e))))
  | inr e ↦ ◌∙◌ e (sym (ne_=t t s (λ same. cc (eq_=t s t (sym same), e))))
]

module _ (pod tenant : Text) where
  pub tenant_keys-apart :
      (r s : Text) {x y : Text}
      → tenant_key pod tenant r ≡ ok x
      → tenant_key pod tenant s ≡ ok y
      → (r =t s) ≡ false
      → (x =t y) ≡ false
  tenant_keys-apart r s {x} {y} hx hy other = ne_=t x y λ same.
      let (_, _, _, e) =
        prefix-injective pod tenant pod tenant none (some r) none (some s) (◌∙◌ hx (ap ok same))
          hy in
      let e' : r ≡ s = cc e in cc (eq_=t r s e', other)

  module _ (agent : Text) where
    pub agent_key-tenant_key :
        (r s : Text) {x y : Text}
        → agent_key pod tenant agent r ≡ ok x
        → tenant_key pod tenant s ≡ ok y
        → (x =t y) ≡ false
    agent_key-tenant_key r s {x} {y} hx hy = ne_=t x y λ same.
        let (_, _, e, _) =
          prefix-injective pod tenant pod tenant (some agent) (some r) none (some s)
            (◌∙◌ hx (ap ok same)) hy in
        cc e

    pub agent_keys-tenant_key :
        (s : Text) {y : Text} (resources keys : List Text)
        → tenant_key pod tenant s ≡ ok y
        → agent_keys pod tenant agent resources ≡ ok keys
        → elem_text y keys ≡ false
    unfolding agent_keys elem_text
    agent_keys-tenant_key s {y} [] keys hy h = subst (λ ks. elem_text y ks ≡ false) (ok_eq h) refl
    agent_keys-tenant_key s {y} (r ∷ rs) keys hy h =
        >>=_elim (agent_key pod tenant agent r) h λ x hx h1.
          >>=_elim (agent_keys pod tenant agent rs) h1 λ ks hks h2.
            subst (λ ks'. elem_text y ks' ≡ false) (ok_eq h2)
              (rw (◌∙◌ (=t_sym y x) (agent_key-tenant_key r s hx hy))
                (agent_keys-tenant_key s rs ks hy hks))

    pub agent_keys-agent_key :
        (s : Text) {y : Text} (resources keys : List Text)
        → agent_key pod tenant agent s ≡ ok y
        → elem_text s resources ≡ true
        → agent_keys pod tenant agent resources ≡ ok keys
        → elem_text y keys ≡ true
    unfolding agent_keys elem_text
    agent_keys-agent_key s [] keys hy there h = absurd (cc there)
    agent_keys-agent_key s {y} (r ∷ rs) keys hy there h =
        >>=_elim (agent_key pod tenant agent r) h λ x hx h1.
          >>=_elim (agent_keys pod tenant agent rs) h1 λ ks hks h2.
            subst (λ ks'. elem_text y ks' ≡ true) (ok_eq h2)
              (elim (Bool-cases (s =t r)) [
                | inl e ↦
                    rw
                      (eq_=t y x (
                        key_eq (subst (λ z. agent_key pod tenant agent z ≡ ok y) (=t_eq s r e) hy)
                          hx))
                      refl
                | inr e ↦
                    or_right (y =t x) (elem_text y ks)
                      (agent_keys-agent_key s rs ks hy (rw e at there) hks)
              ])

module _ (R : Redis) where
  pub items-push_records :
      (d : R.Db) (key : Text) (rs : List Raw) (j : Text)
      → R.items (push_records R d key rs) j ≡ (if key =t j then R.items d j ++ rs else R.items d j)
  unfolding push_records
  items-push_records d key [] j = unpushed (key =t j) (R.items d j)
  items-push_records d key (r ∷ rs) j =
      pushed_more (key =t j) (R.items d j) (R.items (R.rpush d key r) j) _ rs r
        (R.items-rpush d key r j) (items-push_records (R.rpush d key r) key rs j)

  pub entries-push_records :
      (d : R.Db) (key : Text) (rs : List Raw) (j : Text)
      → R.entries (push_records R d key rs) j ≡ R.entries d j
  unfolding push_records
  entries-push_records d key [] j = refl
  entries-push_records d key (r ∷ rs) j =
      ◌∙◌ (entries-push_records (R.rpush d key r) key rs j) (R.entries-rpush d key r j)

  module _ (j : Text) where
    pub items-delete_each :
        (keys : List Text) (d : R.Db)
        → elem_text j keys ≡ false
        → (R.items (delete_each R d keys) j ≡ R.items d j)
          × (R.entries (delete_each R d keys) j ≡ R.entries d j)
    unfolding delete_each elem_text
    items-delete_each [] d h = (refl, refl)
    items-delete_each (k ∷ ks) d h =
        let other : (k =t j) ≡ false =
          ◌∙◌ (=t_sym k j) (neither_left (j =t k) (elem_text j ks) h) in
        let (items, entries) =
          items-delete_each ks (R.delete d k) (neither_right (j =t k) (elem_text j ks) h) in
        (
          ◌∙◌ items (◌∙◌ (R.items-delete d k j) (rw other refl)),
          ◌∙◌ entries (◌∙◌ (R.entries-delete d k j) (rw other refl)),
        )

    -- What is gone stays so.
    abbrev pub IsGone : R.Db → Type 0
    IsGone d = (R.items d j ≡ []) × (R.value d j ≡ none) × (R.stream d j ≡ [])

    IsGone-delete : (d : R.Db) (k : Text) → IsGone d ⊎ ((k =t j) ≡ true) → IsGone (R.delete d k)
    IsGone-delete d k h = elim (Bool-cases (k =t j)) [
      | inl e ↦ (
        ◌∙◌ (R.items-delete d k j) (rw e refl),
        ◌∙◌ (R.value-delete d k j) (rw e refl),
        ◌∙◌ (R.stream-delete d k j) (rw e refl),
      )
      | inr e ↦ elim h [
        | inl (items, value, stream) ↦ (
          ◌∙◌ (R.items-delete d k j) (rw e items),
          ◌∙◌ (R.value-delete d k j) (rw e value),
          ◌∙◌ (R.stream-delete d k j) (rw e stream),
        )
        | inr is ↦ absurd (cc (is, e))
      ]
    ]

    IsGone-delete_each : (keys : List Text) (d : R.Db) → IsGone d → IsGone (delete_each R d keys)
    unfolding delete_each
    IsGone-delete_each [] d h = h
    IsGone-delete_each (k ∷ ks) d h =
        IsGone-delete_each ks (R.delete d k) (IsGone-delete d k (inl h))

    pub delete_each-IsGone :
        (keys : List Text) (d : R.Db) → elem_text j keys ≡ true → IsGone (delete_each R d keys)
    unfolding delete_each elem_text
    delete_each-IsGone [] d h = absurd (cc h)
    delete_each-IsGone (k ∷ ks) d h = elim (Bool-cases (j =t k)) [
      | inl e ↦ IsGone-delete_each ks (R.delete d k) (IsGone-delete d k (inr (◌∙◌ (=t_sym k j) e)))
      | inr e ↦ delete_each-IsGone ks (R.delete d k) (rw e at h)
    ]
