-- ===== src/Keys/Refusals.antt =====
-- What core/keys.py raises for a key that it does not build.
use h_mesh.Base.{
  ◌≡◌, sym, Option, none, some, List, [], ◌∷◌, Text, codes, split, Bool-cases, inl, inr, join,
}
use h_mesh.Errors.{Exc, key_error, Result, ok, raise, ◌>>=◌}
use h_mesh.Keys.{
  agent_parts, resource_parts, prefix_parts, prefix, validate_segment, validate_all,
  validate_resource, valid_text,
}

abbrev OnlyKeyError : {A : Type 0} → Result A → Type 0
OnlyKeyError r = (e : Exc) → r ≡ raise e → e ≡ key_error

ok-OnlyKeyError : {A : Type 0} (a : A) → OnlyKeyError (ok a)
ok-OnlyKeyError a e h = absurd (cc h)

key_error-OnlyKeyError : {A : Type 0} → OnlyKeyError {A = A} (raise key_error)
key_error-OnlyKeyError e h = sym (cc h)

bind-OnlyKeyError :
    {A B : Type 0} (m : Result A) (f : A → Result B)
    → OnlyKeyError m
    → ((a : A) → OnlyKeyError (f a))
    → OnlyKeyError (m >>= f)
bind-OnlyKeyError (ok a) f first rest = rest a
bind-OnlyKeyError (raise e) f first rest = λ x h. first x (cc h)

segment-OnlyKeyError : (v : Option Text) → OnlyKeyError (validate_segment v)
unfolding validate_segment
segment-OnlyKeyError none = key_error-OnlyKeyError
segment-OnlyKeyError (some v) = λ e h. elim (Bool-cases (valid_text v)) [
  | inl y ↦ absurd (cc (rw y at h))
  | inr n ↦ key_error-OnlyKeyError e (rw n at h)
]

all-OnlyKeyError : (ss : List Text) → OnlyKeyError (validate_all ss)
unfolding validate_all
all-OnlyKeyError [] = ok-OnlyKeyError tt
all-OnlyKeyError (s ∷ ss) =
    bind-OnlyKeyError (validate_segment (some s)) (λ _. validate_all ss)
      (segment-OnlyKeyError (some s)) (λ _. all-OnlyKeyError ss)

resource-OnlyKeyError : (v : Text) → OnlyKeyError (validate_resource v)
unfolding validate_resource
resource-OnlyKeyError [] = key_error-OnlyKeyError
resource-OnlyKeyError (c ∷ v) =
    bind-OnlyKeyError (validate_all (split b'.' (c ∷ v))) (λ _. ok (c ∷ v)) (all-OnlyKeyError _)
      (λ _. ok-OnlyKeyError _)

agent_parts-OnlyKeyError : (a : Option Text) → OnlyKeyError (agent_parts a)
unfolding agent_parts
agent_parts-OnlyKeyError none = ok-OnlyKeyError _
agent_parts-OnlyKeyError (some a) =
    bind-OnlyKeyError (validate_segment (some a)) (λ a'. ok (codes "agent" ∷ a' ∷ []))
      (segment-OnlyKeyError _) (λ _. ok-OnlyKeyError _)

resource_parts-OnlyKeyError : (v : Option Text) → OnlyKeyError (resource_parts v)
unfolding resource_parts
resource_parts-OnlyKeyError none = ok-OnlyKeyError _
resource_parts-OnlyKeyError (some v) =
    bind-OnlyKeyError (validate_resource v) (λ v'. ok (v' ∷ [])) (resource-OnlyKeyError _)
      (λ _. ok-OnlyKeyError _)

pub prefix_refused :
    (pod tenant : Text) (agent resource : Option Text) (e : Exc)
    → prefix pod tenant agent resource ≡ raise e
    → e ≡ key_error
unfolding prefix prefix_parts
prefix_refused pod tenant agent resource =
    bind-OnlyKeyError (prefix_parts pod tenant agent resource) (λ parts. ok (join b':' parts))
      (bind-OnlyKeyError (validate_segment (some pod)) _ (segment-OnlyKeyError _) λ p.
        bind-OnlyKeyError (validate_segment (some tenant)) _ (segment-OnlyKeyError _) λ t.
          bind-OnlyKeyError (agent_parts agent) _ (agent_parts-OnlyKeyError _) λ a.
            bind-OnlyKeyError (resource_parts resource) _ (resource_parts-OnlyKeyError _)
              λ v. ok-OnlyKeyError _)
      (λ _. ok-OnlyKeyError _)
