-- ===== src/Cooperation/Records.antt =====
-- What the record of a token says, and what a judgement of it found there.
use h_mesh.Base.{
  ◌≡◌, refl, sym, ap, ◌∙◌, inl, inr, Bool, true, false, ◌&&◌, Option, none, some, List, [], ◌∷◌,
  all, is_ascii, Text, codes, ◌=t◌, =t_eq, =t-self, Bool-cases,
}
use h_mesh.Errors.{ok_eq, Result, ok, raise, ◌>>=◌}
use h_mesh.Envelope.Values.{Value, Fields, str, dict, array, boolean, field, end, find, get}
use h_mesh.Registry.{lookup}
use h_mesh.Channels.{set_field}
use h_mesh.Cooperation.{
  Granted, object_of, compare_digest, put_field, is_boolean, digest_in, text_only, granted_of,
  granted_if, judged, zeros,
}

pub lookup-set_field : (k v : Text) (ps : List (Text × Text)) → lookup k (set_field k v ps) ≡ some v
unfolding lookup set_field
lookup-set_field k v [] = rw (=t-self k) refl
lookup-set_field k v ((j, u) ∷ ps) = elim (Bool-cases (j =t k)) [
  | inl e ↦ rw (e, =t-self k) refl
  | inr e ↦ rw (e, e) (lookup-set_field k v ps)
]

pub get-put_field : (k : Text) (v : Value) (fs : Fields) → get k (put_field k v fs) ≡ v
unfolding get find put_field
get-put_field k v end = rw (=t-self k) refl
get-put_field k v (field j u fs) = elim (Bool-cases (j =t k)) [
  | inl e ↦ rw (e, =t-self k) refl
  | inr e ↦ rw (e, e) (get-put_field k v fs)
]

pub get-put_field_other :
    (k j : Text) (v : Value) (fs : Fields) → (k =t j) ≡ false → get j (put_field k v fs) ≡ get j fs
unfolding get find put_field
get-put_field_other k j v end apart = rw apart refl
get-put_field_other k j v (field i u fs) apart = elim (Bool-cases (i =t k)) [
  | inl e ↦ rw (e, ◌∙◌ (ap (λ x. x =t j) (=t_eq i k e)) apart, apart) refl
  | inr e ↦ elim (Bool-cases (i =t j)) [
    | inl f ↦ rw (e, f) refl
    | inr f ↦ rw (e, f) (get-put_field_other k j v fs apart)
  ]
]

pub is_false : (v : Value) → is_boolean false v ≡ true → v ≡ boolean false
is_false (boolean true) h = absurd (cc h)
is_false (boolean false) h = refl
is_false v h = absurd (cc h)

pub text_only-some : (v : Value) (s : Text) → text_only v ≡ some s → v ≡ str s
text_only-some (str x) s h = ap str (cc h)
text_only-some v s h = absurd (cc h)

pub object_of-some : (v : Option Value) (fs : Fields) → object_of v ≡ some fs → v ≡ some (dict fs)
object_of-some (some (dict gs)) fs h = ap (λ x. some (dict x)) (cc h)
object_of-some v fs h = absurd (cc h)

pub granted_of-some :
    (id : Text) (p k : Value) (g : Granted)
    → granted_of id p k ≡ some g
    → (p ≡ str g.participant) × (k ≡ array g.kinds) × (id ≡ g.token_id)
granted_of-some id (str p) (array k) g h =
    let same : record { token_id = id; participant = p; kinds = k } ≡ g = cc h in
    (ap (λ x. str x.participant) same, ap (λ x. array x.kinds) same, ap (λ x. x.token_id) same)
granted_of-some id p k g h = absurd (cc h)

pub granted_if-some :
    (id : Text) (o : Option Fields) (matches : Bool) (g : Granted)
    → granted_if id o matches ≡ some g
    → (fields : Fields) × (o ≡ some fields)
      × (matches ≡ true)
      × (get (codes "revoked") fields ≡ boolean false)
      × (get (codes "participant") fields ≡ str g.participant)
      × (get (codes "kinds") fields ≡ array g.kinds)
      × (id ≡ g.token_id)
granted_if-some id none matches g h = absurd (cc h)
granted_if-some id (some fields) false g h = absurd (cc h)
granted_if-some id (some fields) true g h =
    elim (Bool-cases (is_boolean false (get (codes "revoked") fields))) [
      | inl e ↦
          let (p, k, i) =
            granted_of-some id (get (codes "participant") fields) (get (codes "kinds") fields) g
              (rw e at h) in
          (fields, refl, refl, is_false (get (codes "revoked") fields) e, p, k, i)
      | inr e ↦ absurd (cc (rw e at h))
    ]

pub compare_digest-true : (a b : Text) → compare_digest a b ≡ ok true → a ≡ b
unfolding compare_digest
compare_digest-true a b h = elim (Bool-cases (all is_ascii a && all is_ascii b)) [
  | inl e ↦ =t_eq a b (cc (rw e at h))
  | inr e ↦ absurd (cc (rw e at h))
]

module _ (digest : Text → Text) (id secret : Text) (g : Granted) where
  compared :
      (stored : Option Fields) (expected : Text) (r : Result Bool)
      → compare_digest (digest secret) expected ≡ r
      → (r >>= (λ matches. ok (granted_if id stored matches))) ≡ ok (some g)
      → (digest secret ≡ expected) × (granted_if id stored true ≡ some g)
  compared stored expected (ok true) is h =
      (compare_digest-true (digest secret) expected is, ok_eq h)
  compared none expected (ok false) is h = absurd (cc (ok_eq h))
  compared (some fields) expected (ok false) is h = absurd (cc (ok_eq h))
  compared stored expected (raise e) is h = absurd (cc h)

  digest_in-some :
      (stored : Option Fields) (expected : Text)
      → digest_in stored ≡ some expected
      → (fields : Fields) × (stored ≡ some fields) × (get (codes "sha256") fields ≡ str expected)
  unfolding digest_in
  digest_in-some none expected h = absurd (cc h)
  digest_in-some (some fields) expected h =
      (fields, refl, text_only-some (get (codes "sha256") fields) expected h)

  pub judged-some :
      (stored : Option Fields) (o : Option Text)
      → digest_in stored ≡ o
      → judged digest id secret stored o ≡ ok (some g)
      → (fields : Fields) × (stored ≡ some fields)
        × (get (codes "sha256") fields ≡ str (digest secret))
        × (get (codes "revoked") fields ≡ boolean false)
        × (get (codes "participant") fields ≡ str g.participant)
        × (get (codes "kinds") fields ≡ array g.kinds)
        × (id ≡ g.token_id)
  judged-some stored none is h =
      let (_, found) =
        compared none (zeros 64) (compare_digest (digest secret) (zeros 64)) refl h in
      absurd (cc found)
  judged-some stored (some expected) is h =
      let (same, granted) =
        compared stored expected (compare_digest (digest secret) expected) refl h in
      let (fields, there, sha) = digest_in-some stored expected is in
      let (fields', there', _, revoked, participant, kinds, named) =
        granted_if-some id stored true g granted in
      let one : fields ≡ fields' = cc (there, there') in
      (
        fields,
        there,
        ◌∙◌ sha (ap str (sym same)),
        rw one revoked,
        rw one participant,
        rw one kinds,
        named,
      )
