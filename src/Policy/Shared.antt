-- ===== src/Policy/Shared.antt =====
-- h-app/core/policy.py: who may send to whom, from the tags as Redis has them.
use h_mesh.Base.{
  or_right, ◌≡◌, ◌≢◌, ◌↔◌, ◌∙◌, refl, sym, subst, ◌⊎◌, Bool, true, false, Option, none, some, List,
  [], ◌∷◌, Text, codes, ◌=t◌, =t-self, =t_eq, elem_text, Bool-cases, inl, inr,
}
use h_mesh.Errors.{envelope_error, policy_denied, ok, require}
use h_mesh.Keys.{agent_key}
use h_mesh.Envelope.Frames.{Json}
use h_mesh.Redis.{Redis}
use h_mesh.Redis.World.{World, command_calm}
use h_mesh.Registry.{lookup}
use h_mesh.Policy.{meets, allowed_tags, parse_tags, read_tags, require_allowed}

abbrev pub Shares : List Text → List Text → Type 0
Shares xs ys = (t : Text) × (elem_text t xs ≡ true) × (elem_text t ys ≡ true)

meets-Shares : (xs ys : List Text) → meets xs ys ≡ true → Shares xs ys
unfolding meets elem_text
meets-Shares [] ys h = absurd (cc h)
meets-Shares (x ∷ xs) ys h = elim (Bool-cases (elem_text x ys)) [
  | inl e ↦ (x, rw (=t-self x) refl, e)
  | inr e ↦
      let (t, left, right) = meets-Shares xs ys (rw e at h) in (t, or_right (t =t x) _ left, right)
]

Shares-meets :
    (xs ys : List Text) (t : Text)
    → elem_text t xs ≡ true
    → elem_text t ys ≡ true
    → meets xs ys ≡ true
unfolding meets elem_text
Shares-meets [] ys t left right = absurd (cc left)
Shares-meets (x ∷ xs) ys t left right = elim (Bool-cases (t =t x)) [
  | inl e ↦ rw (subst (λ z. elem_text z ys ≡ true) (=t_eq t x e) right) refl
  | inr e ↦ or_right (elem_text x ys) _ (Shares-meets xs ys t (rw e at left) right)
]

-- What the tags of the two sides say: an export or an import list that is absent or empty leaves the
-- pair open, and otherwise one tag stands on both lists.
abbrev pub IsOpen : Option (List Text) → Type 0
IsOpen tags = (tags ≡ none) ⊎ (tags ≡ some [])

abbrev pub MaySend : Option (List Text) → Option (List Text) → Type 0
MaySend export import' =
    IsOpen export
    ⊎ IsOpen import'
    ⊎ ((xs ys : List Text) × (export ≡ some xs) × (import' ≡ some ys) × Shares xs ys)

allowed_tags-MaySend :
    (export import' : Option (List Text))
    → allowed_tags export import' ≡ true
    → MaySend export import'
unfolding allowed_tags
allowed_tags-MaySend none import' h = inl (inl refl)
allowed_tags-MaySend (some []) import' h = inl (inr refl)
allowed_tags-MaySend (some (x ∷ xs)) none h = inr (inl (inl refl))
allowed_tags-MaySend (some (x ∷ xs)) (some []) h = inr (inl (inr refl))
allowed_tags-MaySend (some (x ∷ xs)) (some (y ∷ ys)) h =
    inr (inr (x ∷ xs, y ∷ ys, refl, refl, meets-Shares (x ∷ xs) (y ∷ ys) h))

some_cons : {x : Text} {xs : List Text} → some (x ∷ xs) ≢ some []
some_cons h = cc h

shared :
    (xs ys zs ts : List Text)
    → some xs ≡ some zs
    → some ys ≡ some ts
    → Shares zs ts
    → meets xs ys ≡ true
shared xs ys zs ts e e' (t, left, right) =
    let same : zs ≡ xs = cc e in
    let same' : ts ≡ ys = cc e' in
    Shares-meets xs ys t (subst (λ z. elem_text t z ≡ true) same left)
      (subst (λ z. elem_text t z ≡ true) same' right)

MaySend-allowed_tags :
    (export import' : Option (List Text))
    → MaySend export import'
    → allowed_tags export import' ≡ true
unfolding allowed_tags
MaySend-allowed_tags none import' may = refl
MaySend-allowed_tags (some []) import' may = refl
MaySend-allowed_tags (some (x ∷ xs)) none may = refl
MaySend-allowed_tags (some (x ∷ xs)) (some []) may = refl
MaySend-allowed_tags (some (x ∷ xs)) (some (y ∷ ys)) (inl (inl e)) = absurd (cc e)
MaySend-allowed_tags (some (x ∷ xs)) (some (y ∷ ys)) (inl (inr e)) = absurd (cc e)
MaySend-allowed_tags (some (x ∷ xs)) (some (y ∷ ys)) (inr (inl (inl e))) = absurd (cc e)
MaySend-allowed_tags (some (x ∷ xs)) (some (y ∷ ys)) (inr (inl (inr e))) = absurd (cc e)
MaySend-allowed_tags (some (x ∷ xs)) (some (y ∷ ys)) (inr (inr (zs, ts, e, e', both))) =
    shared (x ∷ xs) (y ∷ ys) zs ts e e' both

required_true : (b : Bool) → require b (envelope_error policy_denied) ≡ ok tt → b ≡ true
required_true true h = refl
required_true false h = absurd (cc h)

module _ (R : Redis) (json : Json) (pod tenant : Text) where
  read_tags_calm :
      (agent side key : Text) (tags : Option (List Text)) (w : World R.Db)
      → w.faults ≡ []
      → agent_key pod tenant agent (codes "tags") ≡ ok key
      → parse_tags json side (lookup side (R.entries w.db key)) ≡ ok tags
      → read_tags R json pod tenant agent side w ≡ (ok tags, record w { faults = [] })
  read_tags_calm agent side key tags w calm is read =
      rw (is, command_calm (λ d. (lookup side (R.entries d key), d)) w calm, read) refl

  required :
      (source destination left right : Text) (export import' : Option (List Text)) (w : World R.Db)
      → w.faults ≡ []
      → agent_key pod tenant source (codes "tags") ≡ ok left
      → agent_key pod tenant destination (codes "tags") ≡ ok right
      → parse_tags json (codes "export") (lookup (codes "export") (R.entries w.db left)) ≡ ok export
      → parse_tags json (codes "import") (lookup (codes "import") (R.entries w.db right))
        ≡ ok import'
      → (require_allowed R json pod tenant source destination w).0
        ≡ require (allowed_tags export import') (envelope_error policy_denied)
  unfolding require_allowed
  required source destination left right export import' w calm hl hr he hi =
      rw
        (
          read_tags_calm source (codes "export") left export w calm hl he,
          read_tags_calm destination (codes "import") right import' (record w { faults = [] }) refl
              hr hi,
        )
        refl

  -- Without faults, where the export field of the source's tags and the import field of the
  -- destination's are absent or lists of texts: the source is let through to the destination if and
  -- only if the export list or the import list is absent or empty, or some tag is on both.
  pub require_allowed_iff :
      (source destination left right : Text) (export import' : Option (List Text)) (w : World R.Db)
      → w.faults ≡ []
      → agent_key pod tenant source (codes "tags") ≡ ok left
      → agent_key pod tenant destination (codes "tags") ≡ ok right
      → parse_tags json (codes "export") (lookup (codes "export") (R.entries w.db left)) ≡ ok export
      → parse_tags json (codes "import") (lookup (codes "import") (R.entries w.db right))
        ≡ ok import'
      → ((require_allowed R json pod tenant source destination w).0 ≡ ok tt)
        ↔ MaySend export import'
  require_allowed_iff source destination left right export import' w calm hl hr he hi =
      let is = required source destination left right export import' w calm hl hr he hi in
      (
        (λ h.
            allowed_tags-MaySend export import'
              (required_true (allowed_tags export import') (◌∙◌ (sym is) h))),
        λ may. ◌∙◌ is (rw (MaySend-allowed_tags export import' may) refl),
      )
